-- ===== src/Manage/Read/Keeps.antt =====
-- manage.c: no line that is handled changes the input that is saved, if no handler does.
use mathlib.Core.Path.{subst}
use openvpn_gui.Base.{
  ◌≡◌, refl, ap, ◌∙◌, Bool, true, false, Option, none, some, List, [], ◌∷◌, if◌then◌else◌,
  Bool-cases, inl, inr, arith, length, drop, ltb,
}
use openvpn_gui.Base.Text.{Text, before}
use openvpn_gui.Conn.{
  Conn, Cmd, Handler, MsgType, stop, log, state, hold, password, proxy, ready, needok, needstr,
  echo, bytecount, infomsg, regular,
}
use openvpn_gui.Manage.Saved.{
  management_command-saved, unqueue_command-saved, close_management-saved,
}
use openvpn_gui.Manage.Read.{
  Read, done, fault, no_fuel, with_manage, drop_last, call, call_or_fault, unqueue, pkcs11_response,
  real_time, real_time_more, success, failure, and_call, and_unqueue, response, regular_line,
  password_request, terminated, handle_line,
}

-- No input is saved. (Records, so that the lemmas below fit without computing.)
pub record Clear (c : Conn) : Type 0 where
  pub none_saved : c.manage.saved ≡ []

pub record ClearRead (r : Read) : Type 0 where
  pub of_done : (c : Conn) → r ≡ done c → Clear c

result_or : Conn → Read → Conn
result_or d (done c) = c
result_or d fault = d
result_or d no_fuel = d

ClearRead-done : (c : Conn) → Clear c → ClearRead (done c)
unfolding result_or
ClearRead-done c k = record { of_done = λ c' e. subst Clear (ap (result_or c) e) k }

ClearRead-fault : ClearRead fault
ClearRead-fault = record { of_done = λ c e. absurd (cc) }

ClearRead-no_fuel : ClearRead no_fuel
ClearRead-no_fuel = record { of_done = λ c e. absurd (cc) }

-- A property of both branches of a test.
branch : {A : Type 0} (P : A → Type 0) (b : Bool) (x y : A) → P x → P y → P (if b then x else y)
branch P true x y h k = h
branch P false x y h k = k

module _ (run : Handler → Option Text → Conn → Conn) (table : MsgType → Option Handler)
    (run-Clear : (h : Handler) (msg : Option Text) (c : Conn) → Clear c → Clear (run h msg c)) where
  call-Clear :
      (h : Option Handler) (msg : Option Text) (c : Conn) → Clear c → Clear (call run table h msg c)
  call-Clear none msg c k = k
  call-Clear (some h) msg c k = run-Clear h msg c k

  call_or_fault-Clear :
      (h : Option Handler) (msg : Option Text) (c : Conn)
      → Clear c
      → ClearRead (call_or_fault run table h msg c)
  call_or_fault-Clear none msg c k = ClearRead-fault
  call_or_fault-Clear (some h) msg c k = ClearRead-done _ (run-Clear h msg c k)

  unqueue-Clear : (c : Conn) → Clear c → Clear (unqueue c)
  unqueue-Clear c k = record { none_saved = unqueue_command-saved c.manage ∙ k.none_saved }

  pkcs11_response-Clear :
      (line : Text) (c : Conn) (queue : List Cmd)
      → Clear c
      → Clear (pkcs11_response run table line c queue)
  unfolding pkcs11_response
  pkcs11_response-Clear line c [] k = k
  pkcs11_response-Clear line c (cmd ∷ queue) k =
      unqueue-Clear (call run table cmd.handler (some line) c)
        (call-Clear cmd.handler (some line) c k)

  real_time_more-Clear : (pos : Text) (c : Conn) → Clear c → Clear (real_time_more run table pos c)
  unfolding real_time_more
  real_time_more-Clear pos c k = ground (
    arith,
    (call-Clear (table needok) (some (drop 8 pos)) c k).none_saved,
    (call-Clear (table needstr) (some (drop 9 pos)) c k).none_saved,
    (call-Clear (table echo) (some (drop 5 pos)) c k).none_saved,
    (call-Clear (table bytecount) (some (drop 10 pos)) c k).none_saved,
    (call-Clear (table infomsg) (some (drop 8 pos)) c k).none_saved,
    (pkcs11_response-Clear (b'>' ∷ pos) c c.manage.cmd_queue k).none_saved,
  )

  real_time-Clear : (pos : Text) (c : Conn) → Clear c → Clear (real_time run table pos c)
  unfolding real_time
  real_time-Clear pos c k =
      let before_ready = with_manage c (record c.manage { connected = 2 }) in
      let ready_clear : Clear before_ready = record { none_saved = k.none_saved } in
      ground (
        arith,
        (call-Clear (table log) (some (drop 4 pos)) c k).none_saved,
        (call-Clear (table state) (some (drop 6 pos)) c k).none_saved,
        (call-Clear (table hold) (some (drop 5 pos)) c k).none_saved,
        (call-Clear (table password) (some (drop 9 pos)) c k).none_saved,
        (call-Clear (table proxy) (some (drop 6 pos)) c k).none_saved,
        (call-Clear (table ready) (some (drop 5 pos)) before_ready ready_clear).none_saved,
        (real_time_more-Clear pos c k).none_saved,
      )

  success-Clear :
      (h : Option Handler) (line : Text) (c : Conn)
      → Clear c
      → ClearRead (success run table h line c)
  unfolding success
  success-Clear none line c k = ClearRead-done c k
  success-Clear (some h) line c k = elim (Bool-cases (ltb (length line) 9)) [
    | inl short ↦ rw short ClearRead-fault
    | inr long ↦ rw long (ClearRead-done _ (run-Clear h (some (drop 9 line)) c k))
  ]

  and_call-Clear :
      (h : Option Handler) (r : Read) → ClearRead r → ClearRead (and_call run table h r)
  and_call-Clear h (done c) k = ClearRead-done _ (call-Clear h none c (k.of_done c refl))
  and_call-Clear h fault k = ClearRead-fault
  and_call-Clear h no_fuel k = ClearRead-no_fuel

  and_unqueue-Clear : (r : Read) → ClearRead r → ClearRead (and_unqueue r)
  and_unqueue-Clear (done c) k = ClearRead-done _ (unqueue-Clear c (k.of_done c refl))
  and_unqueue-Clear fault k = ClearRead-fault
  and_unqueue-Clear no_fuel k = ClearRead-no_fuel

  failure-Clear :
      (h : Option Handler) (now line : Text) (c : Conn)
      → Clear c
      → ClearRead (failure run table h now line c)
  unfolding failure
  failure-Clear h now line c k = and_call-Clear h _ (call_or_fault-Clear (table log) _ c k)

  response-Clear :
      (now line : Text) (c : Conn) (queue : List Cmd)
      → Clear c
      → ClearRead (response run table now line c queue)
  unfolding response
  response-Clear now line c [] k = ClearRead-done c k
  response-Clear now line c (cmd ∷ queue) k =
      branch ClearRead _ _ _ (and_unqueue-Clear _ (success-Clear cmd.handler line c k)) (
        branch ClearRead _ _ _ (and_unqueue-Clear _ (failure-Clear cmd.handler now line c k)) (
          branch ClearRead _ _ _ (ClearRead-done _ (unqueue-Clear c k))
            (ClearRead-done _ (call-Clear cmd.handler (some line) c k))))

  regular_line-Clear :
      (now line : Text) (c : Conn) → Clear c → ClearRead (regular_line run table now line c)
  unfolding regular_line
  regular_line-Clear now [] c k = response-Clear now [] c c.manage.cmd_queue k
  regular_line-Clear now (x ∷ line) c k =
      branch ClearRead _ _ _ (ClearRead-done _ (real_time-Clear line c k))
        (response-Clear now (x ∷ line) c c.manage.cmd_queue k)

  password_request-Clear :
      (memory : Bool) (word : Text) (c : Conn)
      → Clear c
      → ClearRead (password_request run table memory word c)
  unfolding password_request
  password_request-Clear memory [] c k =
      call_or_fault-Clear (table stop) _ _
        (record { none_saved = close_management-saved c.manage k.none_saved })
  password_request-Clear memory (x ∷ word) c k = ClearRead-done _ (record {
    none_saved = management_command-saved memory c.manage (x ∷ word) none regular ∙ k.none_saved;
  })

  terminated-Clear :
      (now : Text) (l : Option Text) (c : Conn) → Clear c → ClearRead (terminated run table now l c)
  terminated-Clear now none c k = ClearRead-fault
  terminated-Clear now (some l) c k = regular_line-Clear now (before 0 l) c k

  pub handle_line-Clear :
      (memory : Bool) (now : Text) (asked : Bool) (l : Text) (c : Conn)
      → Clear c
      → ClearRead (handle_line run table memory now asked l c)
  unfolding handle_line
  handle_line-Clear memory now true l c k = password_request-Clear memory c.manage.password c k
  handle_line-Clear memory now false l c k = terminated-Clear now (drop_last l) c k

-- ===== src/Manage/Read.antt =====
-- manage.c: `OnManagement`. The functions behind the pointers are the argument `run` (their second
-- argument is `none` for NULL), and `rtmsg_handler` is the argument `table`. What the program does
-- outside a line it was given is a fault: an empty line, whose "\r" it would overwrite before the
-- line, an answer that ends before the text that it hands on, a handler called through NULL.
pub mod Split
pub mod Keeps
pub mod Chunks
pub mod Total
use mathlib.Core.List.{append-nil, append_assoc, map-append}
use mathlib.Core.Option.{some-injective}
use mathlib.Core.Path.{subst}
use openvpn_gui.Base.{
  ℕ, zero, suc, ◌+◌, ◌-◌, ◌*◌, ◌/◌, ◌%◌, ◌^◌, ◌≤◌, ◌<◌, ◌≡◌, ◌≢◌, ◌↔◌, refl, ap, ◌∙◌, sym, Bool,
  true, false, not, ◌&&◌, ◌||◌, Option, none, some, List, [], ◌∷◌, ◌++◌, map, if◌then◌else◌,
  Bool-cases, Option-cases, Ordering-cases, Ordering, ◌⊎◌, inl, inr, arith, length, length-append,
  length-concat, drop, take, drop-append, leb, ltb, leb→le, ltb→lt, lt→ltb, ◌==◌, ==_refl, ==_iff,
  All, All-append,
}
use openvpn_gui.Base.Text.{
  Text, codes, streq, strbegins, contains, before, after?, skip_while, text_at, streq_iff,
  streq_refl, strbegins-append, split_at, contains-before, before-append, after?-append,
  before_of_not-contains, after?_of_not-contains, not-contains_of_after?,
}
use openvpn_gui.Conn.{
  Conn, Manage, Cmd, CmdType, Handler, MsgType, Output, Posted, Status, ConnState, regular,
  combined, ready, stop, bytecount, echo, hold, log, password, proxy, state, needok, needstr,
  infomsg, timeout, validate, disconnected, disconnecting, emit, reconnect,
}
use openvpn_gui.Manage.{management_command, unqueue_command, close_management, send_command}

-- A result of `OnManagement`; `no_fuel` is a loop that was cut off.
pub data Read : Type 0 where
  done : Conn → Read
  fault : Read
  no_fuel : Read

infixl 5 ◌>>=◌
abbrev pub ◌>>=◌ : Read → (Conn → Read) → Read
done c >>= f = f c
fault >>= f = fault
no_fuel >>= f = no_fuel

abbrev pub prompt : Text
prompt = codes "ENTER PASSWORD:"

-- Whether it is the password prompt, the characters below `pos`, and those behind it; `none` where
-- `pos` is NULL.
abbrev pub cut_at : Bool → ℕ → Text → Option Text → Option (Bool × Text × Text)
cut_at asked c line none = none
cut_at asked c line (some rest) = some (asked, before c line, rest)

unfoldable pub take_line : Text → Option (Bool × Text × Text)
take_line line =
    if strbegins line prompt
    then cut_at true b':' line (after? b':' line)
    else cut_at false b'\n' line (after? b'\n' line)

abbrev pub with_manage : Conn → Manage → Conn
with_manage c m = record c { manage = m }

-- All but the last character, which is overwritten by NUL; `none` for an empty line.
unfoldable pub drop_last : Text → Option Text
drop_last [] = none
drop_last (x ∷ []) = some []
drop_last (x ∷ y ∷ l) = elim (drop_last (y ∷ l)) [ none ↦ none | some t ↦ some (x ∷ t) ]

abbrev pub save : Bool → Text → Conn → Conn
save memory line c = if memory then with_manage c (record c.manage { saved = line }) else c

abbrev pub clear_saved : Conn → Conn
clear_saved c = with_manage c (record c.manage { saved = [] })

abbrev pub unqueue : Conn → Conn
unqueue c = with_manage c (unqueue_command c.manage).0

abbrev error_text : Text → Text → Text
error_text now line =
    take 255 (now ++ codes ",N,Previous command sent to management failed: " ++ line)

abbrev pub and_unqueue : Read → Read
and_unqueue (done c) = done (unqueue c)
and_unqueue fault = fault
and_unqueue no_fuel = no_fuel

module _ (run : Handler → Option Text → Conn → Conn) (table : MsgType → Option Handler) where
  abbrev pub call : Option Handler → Option Text → Conn → Conn
  call none msg c = c
  call (some h) msg c = run h msg c

  -- A call that the source does not guard.
  abbrev pub call_or_fault : Option Handler → Option Text → Conn → Read
  call_or_fault none msg c = fault
  call_or_fault (some h) msg c = done (run h msg c)

  unfoldable pub pkcs11_response : Text → Conn → List Cmd → Conn
  pkcs11_response line c [] = c
  pkcs11_response line c (cmd ∷ queue) = unqueue (call cmd.handler (some line) c)

  -- The second half of the tests of a notification, which begins behind '>'.
  unfoldable pub real_time_more : Text → Conn → Conn
  unfolding pkcs11_response
  real_time_more pos c =
      if strbegins pos (codes "NEED-OK:")
      then call (table needok) (some (drop 8 pos)) c
      else if strbegins pos (codes "NEED-STR:")
      then call (table needstr) (some (drop 9 pos)) c
      else if strbegins pos (codes "ECHO:")
      then call (table echo) (some (drop 5 pos)) c
      else if strbegins pos (codes "BYTECOUNT:")
      then call (table bytecount) (some (drop 10 pos)) c
      else if strbegins pos (codes "INFOMSG:")
      then call (table infomsg) (some (drop 8 pos)) c
      else if strbegins pos (codes "PKCS11ID")
      then pkcs11_response (b'>' ∷ pos) c c.manage.cmd_queue
      else c

  -- A notification, from the character behind '>' on.
  unfoldable pub real_time : Text → Conn → Conn
  unfolding real_time_more
  real_time pos c =
      if strbegins pos (codes "LOG:")
      then call (table log) (some (drop 4 pos)) c
      else if strbegins pos (codes "STATE:")
      then call (table state) (some (drop 6 pos)) c
      else if strbegins pos (codes "HOLD:")
      then call (table hold) (some (drop 5 pos)) c
      else if strbegins pos (codes "PASSWORD:")
      then call (table password) (some (drop 9 pos)) c
      else if strbegins pos (codes "PROXY:")
      then call (table proxy) (some (drop 6 pos)) c
      else if strbegins pos (codes "INFO:")
      then call (table ready) (some (drop 5 pos))
          (with_manage c (record c.manage { connected = 2 }))
      else real_time_more pos c

  -- The answer to a command with this handler, read from `line + 9`.
  unfoldable pub success : Option Handler → Text → Conn → Read
  success none line c = done c
  success (some h) line c =
      if ltb (length line) 9 then fault else done (run h (some (drop 9 line)) c)

  abbrev and_call : Option Handler → Read → Read
  and_call h (done c) = done (call h none c)
  and_call h fault = fault
  and_call h no_fuel = no_fuel

  -- An error is logged, and the handler called with NULL.
  unfoldable pub failure : Option Handler → Text → Text → Conn → Read
  failure h now line c = and_call h (call_or_fault (table log) (some (error_text now line)) c)

  -- A line that is no notification, with the head of the queue; `now` is the time printed.
  unfoldable pub response : Text → Text → Conn → List Cmd → Read
  unfolding success failure
  response now line c [] = done c
  response now line c (cmd ∷ queue) =
      if strbegins line (codes "SUCCESS:")
      then and_unqueue (success cmd.handler line c)
      else if strbegins line (codes "ERROR:")
      then and_unqueue (failure cmd.handler now line c)
      else if streq line (codes "END")
      then done (unqueue c)
      else done (call cmd.handler (some line) c)

  unfoldable pub regular_line : Text → Text → Conn → Read
  unfolding real_time response
  regular_line now [] c = response now [] c c.manage.cmd_queue
  regular_line now (x ∷ line) c =
      if x == b'>' then done (real_time line c) else response now (x ∷ line) c c.manage.cmd_queue

  -- The reply to a password prompt.
  unfoldable pub password_request : Bool → Text → Conn → Read
  password_request memory [] c =
      call_or_fault (table stop) (some [])
        (record c { state = disconnecting; manage = close_management c.manage })
  password_request memory (x ∷ word) c =
      let m = (management_command memory c.manage (x ∷ word) none regular).0 in
      done (with_manage c (record m { password = [] }))

  abbrev terminated : Text → Option Text → Conn → Read
  terminated now none c = fault
  terminated now (some l) c = regular_line now (before 0 l) c

  unfoldable pub handle_line : Bool → Text → Bool → Text → Conn → Read
  unfolding regular_line drop_last password_request
  handle_line memory now true l c = password_request memory c.manage.password c
  handle_line memory now false l c = terminated now (drop_last l) c

  -- The rounds from an offset on; `next` makes the round behind it.
  abbrev pub on_line :
      (Text → Conn → Read) → Bool → Text → Text → Conn → Option (Bool × Text × Text) → Read
  on_line next memory now line c none = done (save memory line c)
  on_line next memory now line c (some (asked, l, rest)) =
      handle_line memory now asked l c >>= next rest

  unfoldable pub read_loop : Bool → Text → ℕ → Text → Conn → Read
  unfolding take_line handle_line
  read_loop memory now zero line c = no_fuel
  read_loop memory now (suc fuel) [] c = done c
  read_loop memory now (suc fuel) (x ∷ line) c =
      on_line (read_loop memory now fuel) memory now (x ∷ line) c (take_line (x ∷ line))

  -- FD_READ with the bytes of the socket, `none` where `ioctlsocket` or `recv` fails, as they do on an
  -- invalid socket. The flags are the allocations of `data` and of `saved_data`.
  unfoldable pub on_read : Bool → Bool → Text → Option Text → Conn → Read
  unfolding read_loop
  on_read alloc memory now none c = done c
  on_read alloc memory now (some []) c = done c
  on_read alloc memory now (some (x ∷ bytes)) c =
      let line = c.manage.saved ++ x ∷ bytes in
      if c.manage.sk && alloc
      then read_loop memory now (suc (length line)) line (clear_saved c)
      else done c

-- ===== src/Manage/Read/Total.antt =====
-- manage.c: the loop of a read ends.
use openvpn_gui.Base.{
  ℕ, zero, suc, ◌<◌, ◌≡◌, refl, Bool, true, false, Option, none, some, List, [], ◌∷◌, ◌++◌, arith,
  length, if◌then◌else◌, Bool-cases, inl, inr, ◌&&◌,
}
use openvpn_gui.Base.Text.{Text, before}
use openvpn_gui.Conn.{Conn, Cmd, Handler, MsgType, log, timeout, stop}
use openvpn_gui.Manage.{close_management}
use openvpn_gui.Manage.Read.{
  Read, done, fault, no_fuel, ◌>>=◌, success, failure, and_unqueue, and_call, response,
  regular_line, password_request, terminated, drop_last, handle_line, take_line, on_line, read_loop,
  on_read, call_or_fault, clear_saved, with_manage,
}
use openvpn_gui.Manage.Read.Split.{take_line-length}
use openvpn_gui.Manage.Events.{
  SocketEvent, fd_connect, fd_read, fd_write, fd_close, connect_failed, on_event, on_management,
}

-- The code came to an end, with a connection or with a fault.
unfoldable pub ends : Read → Bool
ends (done c) = true
ends fault = true
ends no_fuel = false

ends-bind :
    (r : Read) (f : Conn → Read)
    → ends r ≡ true
    → ((c : Conn) → ends (f c) ≡ true)
    → ends (r >>= f) ≡ true
unfolding ends
ends-bind (done c) f h k = k c
ends-bind fault f h k = refl
ends-bind no_fuel f h k = h

ends-and_unqueue : (r : Read) → ends r ≡ true → ends (and_unqueue r) ≡ true
unfolding ends
ends-and_unqueue (done c) h = refl
ends-and_unqueue fault h = refl
ends-and_unqueue no_fuel h = h

ends-if : (b : Bool) (r s : Read) → ends r ≡ true → ends s ≡ true → ends (if b then r else s) ≡ true
ends-if true r s h k = h
ends-if false r s h k = k

module _ (run : Handler → Option Text → Conn → Conn) (table : MsgType → Option Handler)
    (now : Text) where
  ends-call_or_fault :
      (handler : Option Handler) (msg : Option Text) (c : Conn)
      → ends (call_or_fault run table handler msg c) ≡ true
  unfolding ends
  ends-call_or_fault none msg c = refl
  ends-call_or_fault (some h) msg c = refl

  ends-and_call :
      (handler : Option Handler) (r : Read)
      → ends r ≡ true
      → ends (and_call run table handler r) ≡ true
  unfolding ends
  ends-and_call handler (done c) h = refl
  ends-and_call handler fault h = refl
  ends-and_call handler no_fuel h = h

  ends-success :
      (handler : Option Handler) (line : Text) (c : Conn)
      → ends (success run table handler line c) ≡ true
  unfolding ends success
  ends-success none line c = refl
  ends-success (some h) line c = ground arith

  ends-failure :
      (handler : Option Handler) (line : Text) (c : Conn)
      → ends (failure run table handler now line c) ≡ true
  unfolding failure
  ends-failure handler line c = ends-and_call handler _ (ends-call_or_fault (table log) _ c)

  ends-response :
      (line : Text) (c : Conn) (queue : List Cmd)
      → ends (response run table now line c queue) ≡ true
  unfolding response ends
  ends-response line c [] = refl
  ends-response line c (cmd ∷ queue) = ground (
    arith,
    ends-and_unqueue _ (ends-success cmd.handler line c),
    ends-and_unqueue _ (ends-failure cmd.handler line c),
  )

  ends-regular_line : (line : Text) (c : Conn) → ends (regular_line run table now line c) ≡ true
  unfolding regular_line ends
  ends-regular_line [] c = ends-response [] c c.manage.cmd_queue
  ends-regular_line (x ∷ line) c = ground (arith, ends-response (x ∷ line) c c.manage.cmd_queue)

  ends-terminated : (line : Option Text) (c : Conn) → ends (terminated run table now line c) ≡ true
  unfolding ends
  ends-terminated none c = refl
  ends-terminated (some l) c = ends-regular_line (before 0 l) c

  ends-password_request :
      (memory : Bool) (word : Text) (c : Conn)
      → ends (password_request run table memory word c) ≡ true
  unfolding password_request ends
  ends-password_request memory [] c = ends-call_or_fault (table stop) (some []) _
  ends-password_request memory (x ∷ word) c = refl

  ends-handle_line :
      (memory asked : Bool) (l : Text) (c : Conn)
      → ends (handle_line run table memory now asked l c) ≡ true
  unfolding handle_line
  ends-handle_line memory true l c = ends-password_request memory c.manage.password c
  ends-handle_line memory false l c = ends-terminated (drop_last l) c

  ends-on_line :
      (memory : Bool) (fuel : ℕ) (line : Text) (c : Conn) (taken : Option (Bool × Text × Text))
      → take_line line ≡ taken
      → length line < suc fuel
      → ((rest : Text) (c' : Conn)
          → length rest < fuel
          → ends (read_loop run table memory now fuel rest c') ≡ true)
      → ends (on_line run table (read_loop run table memory now fuel) memory now line c taken)
        ≡ true
  unfolding ends
  ends-on_line memory fuel line c none e h ih = refl
  ends-on_line memory fuel line c (some (asked, l, rest)) e h ih =
      ends-bind _ _ (ends-handle_line memory asked l c)
        (λ c'. ih rest c' (omega (arith, take_line-length line e)))

  ends-read_loop :
      (memory : Bool) (fuel : ℕ) (line : Text) (c : Conn)
      → length line < fuel
      → ends (read_loop run table memory now fuel line c) ≡ true
  unfolding read_loop ends
  ends-read_loop memory zero line c h = absurd (omega arith)
  ends-read_loop memory (suc fuel) [] c h = refl
  ends-read_loop memory (suc fuel) (x ∷ line) c h =
      ends-on_line memory fuel (x ∷ line) c _ refl h (ends-read_loop memory fuel)

  ends-on_read :
      (alloc memory : Bool) (bytes : Option Text) (c : Conn)
      → ends (on_read run table alloc memory now bytes c) ≡ true
  unfolding on_read ends
  ends-on_read alloc memory none c = refl
  ends-on_read alloc memory (some []) c = refl
  ends-on_read alloc memory (some (x ∷ bytes)) c = elim (Bool-cases (c.manage.sk && alloc)) [
    | inl reads ↦ rw reads (
        ends-read_loop memory (suc (length (c.manage.saved ++ x ∷ bytes)))
          (c.manage.saved ++ x ∷ bytes) (clear_saved c) (omega arith))
    | inr kept ↦ rw kept refl
  ]

  ends-connect_failed : (time : ℕ) (c : Conn) → ends (connect_failed run table now time c) ≡ true
  unfolding connect_failed ends
  ends-connect_failed time c = ground (
    arith,
    ends-call_or_fault (table timeout) (some []) (with_manage c (close_management c.manage)),
  )

  ends-on_event :
      (alloc memory : Bool) (time : ℕ) (event : SocketEvent) (c : Conn)
      → ends (on_event run table alloc memory now time event c) ≡ true
  unfolding on_event ends
  ends-on_event alloc memory time (fd_connect true) c = ends-connect_failed time c
  ends-on_event alloc memory time (fd_connect false) c = refl
  ends-on_event alloc memory time (fd_read bytes) c = ends-on_read alloc memory bytes c
  ends-on_event alloc memory time fd_write c = refl
  ends-on_event alloc memory time fd_close c = refl

  -- `OnManagement` comes to an end for every event of the socket and every sequence of bytes,
  -- whatever the handlers do: the loop over the lines is never cut off.
  pub ends-on_management :
      (alloc memory : Bool) (time : ℕ) (event : SocketEvent) (c : Conn)
      → ends (on_management run table alloc memory now time event c) ≡ true
  unfolding on_management ends
  ends-on_management alloc memory time event c =
      ends-if c.manage.sk _ _ (ends-on_event alloc memory time event c) refl

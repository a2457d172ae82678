-- ===== src/Manage.antt =====
-- manage.c: the command queue and the socket of the management interface. `calloc` and `malloc` of
-- `ManagementCommand` are one Boolean, false where one of them fails.
pub mod Queue
pub mod Close
pub mod Read
pub mod Saved
pub mod Events
use mathlib.Core.List.{append-nil, append_assoc, map-append}
use mathlib.Core.Option.{some-injective}
use mathlib.Core.Path.{subst}
use openvpn_gui.Base.{
  ℕ, zero, suc, ◌+◌, ◌-◌, ◌*◌, ◌/◌, ◌%◌, ◌^◌, ◌≤◌, ◌<◌, ◌≡◌, ◌≢◌, ◌↔◌, refl, ap, ◌∙◌, sym, Bool,
  true, false, not, ◌&&◌, ◌||◌, Option, none, some, List, [], ◌∷◌, ◌++◌, map, if◌then◌else◌,
  Bool-cases, Option-cases, Ordering-cases, Ordering, ◌⊎◌, inl, inr, arith, length, length-append,
  length-concat, drop, take, replicate, drop-append, leb, ltb, leb→le, ltb→lt, lt→ltb, ◌==◌,
  ==_refl, ==_iff, All, All-append,
}
use openvpn_gui.Base.Text.{
  Text, codes, streq, strbegins, contains, before, after?, skip_while, text_at, streq_iff,
  streq_refl, strbegins-append, split_at, contains-before, before-append, after?-append,
  before_of_not-contains, after?_of_not-contains, not-contains_of_after?,
}
use openvpn_gui.Conn.{Conn, Manage, Cmd, CmdType, Handler, regular, combined}

abbrev pub first_or : ℕ → List ℕ → ℕ
first_or d [] = d
first_or d (n ∷ ns) = n

abbrev pub rest_of : List ℕ → List ℕ
rest_of [] = []
rest_of (n ∷ ns) = ns

-- `memmove(command, command + res, size - res)`.
abbrev pub moved : Text → ℕ → ℕ → Text
moved buf size res = take (size - res) (drop res buf) ++ drop (size - res) buf

-- `res` bytes of the head of the queue are sent.
unfoldable pub sent_part : Manage → Cmd → List Cmd → ℕ → Manage
sent_part m cmd queue res = record m {
  cmd_queue =
      (record cmd {
        buf = if res == cmd.size then cmd.buf else moved cmd.buf cmd.size res;
        size = cmd.size - res;
      })
      ∷ queue;
  sent = m.sent ++ take res cmd.buf;
}

-- What `send` returns: no more than it is given, and an error on an invalid socket.
abbrev pub send_result : Manage → ℕ → ℕ
send_result m size =
    let n = first_or 0 m.sends in if m.sk then (if leb n size then n else size) else 0

-- `SendCommand` behind its check for a command with something to send.
unfoldable pub send_head : Manage → Cmd → List Cmd → Manage
unfolding sent_part
send_head m cmd queue =
    let res = send_result m cmd.size in
    let after = record m { sends = rest_of m.sends } in
    if ltb res 1 then after else sent_part after cmd queue res

unfoldable pub send_first : Manage → List Cmd → Manage
unfolding send_head
send_first m [] = m
send_first m (cmd ∷ queue) = if cmd.size == 0 then m else send_head m cmd queue

unfoldable pub send_command : Manage → Manage
unfolding send_first
send_command m = send_first m m.cmd_queue

-- The command goes to the end of the circular list. Only a command that is alone is sent at once.
unfoldable pub append_command : Manage → Cmd → List Cmd → Manage
unfolding send_command
append_command m cmd [] = send_command (record m { cmd_queue = cmd ∷ [] })
append_command m cmd (head ∷ queue) = record m { cmd_queue = (head ∷ queue) ++ cmd ∷ [] }

-- The command with '\n' in the place of its NUL.
abbrev pub new_command : Text → Option Handler → CmdType → Cmd
new_command command handler type = record {
  buf = command ++ b'\n' ∷ [];
  size = length command + 1;
  handler = handler;
  type = type;
}

unfoldable pub management_command : Bool → Manage → Text → Option Handler → CmdType → Manage × Bool
unfolding append_command
management_command memory m command handler type =
    if memory
    then (append_command m (new_command command handler type) m.cmd_queue, true)
    else (m, false)

-- `memset(cmd->command, 'x', cmd->size)`.
abbrev pub wiped : Cmd → Text
wiped cmd = replicate cmd.size b'x' ++ drop cmd.size cmd.buf

-- The head of the queue is unlinked and freed, and the next command is sent.
unfoldable pub remove_head : Manage → Cmd → List Cmd → Manage
unfolding send_command
remove_head m cmd [] = record m { cmd_queue = []; freed = m.freed ++ wiped cmd ∷ [] }
remove_head m cmd (next ∷ queue) =
    let sent = send_command (record m { cmd_queue = next ∷ queue }) in
    record sent { freed = sent.freed ++ wiped cmd ∷ [] }

unfoldable pub unqueue_first : Manage → List Cmd → Manage × Bool
unfolding remove_head
unqueue_first m [] = (m, false)
unqueue_first m (cmd ∷ queue) = elim cmd.type [
  | regular ↦ (remove_head m cmd queue, true)
  | combined ↦
      (record m { cmd_queue = (record cmd { buf = wiped cmd; type = regular }) ∷ queue }, true)
]

unfoldable pub unqueue_command : Manage → Manage × Bool
unfolding unqueue_first
unqueue_command m = unqueue_first m m.cmd_queue

-- `while (UnqueueCommand(c)) { }`; `none` is a loop that was cut off.
unfoldable pub unqueue_all : ℕ → Manage → Option Manage
unqueue_all zero m = none
unqueue_all (suc fuel) m =
    let (m', more) = unqueue_command m in elim more [ true ↦ unqueue_all fuel m' | false ↦ some m' ]

abbrev pub or_self : Manage → Option Manage → Manage
or_self m none = m
or_self m (some m') = m'

-- Each command is unqueued at most twice, so that the fuel is enough.
unfoldable pub close_management : Manage → Manage
unfolding unqueue_all unqueue_command
close_management m =
    let closed = record m { saved = []; sk = false; connected = 0 } in
    if m.sk then or_self closed (unqueue_all (suc (2 * length m.cmd_queue)) closed) else m

-- ===== src/Manage/Queue.antt =====
-- manage.c: what the command queue hands to the socket, and what stays in freed memory.
use mathlib.Core.List.{append-nil, append_assoc}
use openvpn_gui.Base.{
  ℕ, ◌+◌, ◌-◌, ◌≤◌, ◌≡◌, refl, ap, ◌∙◌, sym, Bool, true, false, Option, List, [], ◌∷◌, ◌++◌,
  if◌then◌else◌, Bool-cases, inl, inr, arith, length, length-append, length-concat, drop, take,
  length-drop, take_all, length-take_le, take-append_left, take-append-take, ltb, ◌==◌, ==_iff, All,
  All-append,
}
use openvpn_gui.Base.Text.{Text}
use openvpn_gui.Conn.{Manage, Cmd, CmdType, Handler}
use openvpn_gui.Manage.{
  rest_of, moved, sent_part, send_result, send_head, send_first, send_command, append_command,
  new_command, management_command,
}

-- What a command has still to send, and what all of a queue have.
abbrev pub unsent : Cmd → Text
unsent cmd = take cmd.size cmd.buf

abbrev pub unsent_all : List Cmd → Text
unsent_all [] = []
unsent_all (cmd ∷ queue) = unsent cmd ++ unsent_all queue

-- The bytes on their way to the daemon: those accepted by the socket, then those that wait.
abbrev pub stream : Manage → Text
stream m = m.sent ++ unsent_all m.cmd_queue

-- `size` lies within the command's buffer.
abbrev pub IsSized : Cmd → Type 0
IsSized cmd = cmd.size ≤ length cmd.buf

abbrev pub IsQueue : Manage → Type 0
IsQueue m = All IsSized m.cmd_queue

-- The part of `size` bytes that is left of a buffer when `res` of them are sent.
take-moved :
    (buf : Text) (size res : ℕ)
    → res ≤ size
    → size ≤ length buf
    → take res buf ++ take (size - res) (moved buf size res) ≡ take size buf
take-moved buf size res h k =
    rw
      (take-append_left (size - res) (drop res buf) (drop (size - res) buf)
        (omega (arith, length-drop res buf)))
      (take-append-take res size buf h)

length-moved :
    (buf : Text) (size res : ℕ)
    → res ≤ size
    → size ≤ length buf
    → size - res ≤ length (moved buf size res)
length-moved buf size res h k = omega (
  arith,
  length-append (take (size - res) (drop res buf)) (drop (size - res) buf),
  length-take_le (size - res) (drop res buf),
  length-drop res buf,
)

take-part :
    (buf : Text) (size res : ℕ)
    → res ≤ size
    → size ≤ length buf
    → take res buf ++ take (size - res) (if res == size then buf else moved buf size res)
      ≡ take size buf
take-part buf size res h k = elim (Bool-cases (res == size)) [
  | inl all ↦ rw all (take-append-none ((==_iff res size).0 all))
  | inr part ↦ rw part (take-moved buf size res h k)
]
  where
    take-append-none : res ≡ size → take res buf ++ take (size - res) buf ≡ take size buf
    take-append-none e =
        let none_left : size - res ≡ 0 = omega arith in
        rw none_left (rw (append-nil (take res buf)) (rw e))

part_sized :
    (buf : Text) (size res : ℕ)
    → res ≤ size
    → size ≤ length buf
    → size - res ≤ length (if res == size then buf else moved buf size res)
part_sized buf size res h k = elim (Bool-cases (res == size)) [
  | inl all ↦ rw all (omega arith)
  | inr part ↦ rw part (length-moved buf size res h k)
]

abbrev Keeps : Manage → Manage → Type 0
Keeps m m' = (stream m' ≡ stream m) × IsQueue m'

sent_part-stream :
    (m : Manage) (cmd : Cmd) (queue : List Cmd) (res : ℕ)
    → res ≤ cmd.size
    → IsSized cmd
    → stream (sent_part m cmd queue res) ≡ m.sent ++ unsent_all (cmd ∷ queue)
unfolding sent_part
sent_part-stream m cmd queue res h k =
    append_assoc m.sent (take res cmd.buf) _
    ∙ ap (λ t. m.sent ++ t)
        (sym (append_assoc (take res cmd.buf) _ (unsent_all queue))
          ∙ ap (λ t. t ++ unsent_all queue) (take-part cmd.buf cmd.size res h k))

sent_part-IsQueue :
    (m : Manage) (cmd : Cmd) (queue : List Cmd) (res : ℕ)
    → res ≤ cmd.size
    → All IsSized (cmd ∷ queue)
    → IsQueue (sent_part m cmd queue res)
unfolding sent_part
sent_part-IsQueue m cmd queue res h (k, rest) = (part_sized cmd.buf cmd.size res h k, rest)

send_result-le : (m : Manage) (size : ℕ) → send_result m size ≤ size
send_result-le m size = ground arith

send_head-Keeps :
    (m : Manage) (cmd : Cmd) (queue : List Cmd)
    → m.cmd_queue ≡ cmd ∷ queue
    → All IsSized (cmd ∷ queue)
    → Keeps m (send_head m cmd queue)
unfolding send_head
send_head-Keeps m cmd queue e h =
    let after = record m { sends = rest_of m.sends } in
    let res = send_result m cmd.size in
    elim (Bool-cases (ltb res 1)) [
      | inl refused ↦ rw refused (refl, rw e h)
      | inr accepted ↦ rw accepted (
        rw e (sent_part-stream after cmd queue res (send_result-le m cmd.size) h.0),
        sent_part-IsQueue after cmd queue res (send_result-le m cmd.size) h,
      )
    ]

send_first-Keeps :
    (m : Manage) (queue : List Cmd)
    → m.cmd_queue ≡ queue
    → All IsSized queue
    → Keeps m (send_first m queue)
unfolding send_first
send_first-Keeps m [] e h = (refl, rw e h)
send_first-Keeps m (cmd ∷ queue) e h = elim (Bool-cases (cmd.size == 0)) [
  | inl empty ↦ rw empty (refl, rw e h)
  | inr some_left ↦ rw some_left (send_head-Keeps m cmd queue e h)
]

-- However much `send` accepts, `SendCommand` neither loses, repeats nor reorders a byte: what was
-- sent and what waits together are what they were, and sizes stay within buffers.
pub send_command-stream :
    (m : Manage) → IsQueue m → (stream (send_command m) ≡ stream m) × IsQueue (send_command m)
unfolding send_command
send_command-stream m h = send_first-Keeps m m.cmd_queue refl h

unsent_all-append :
    (queue more : List Cmd) → unsent_all (queue ++ more) ≡ unsent_all queue ++ unsent_all more
unsent_all-append [] more = refl
unsent_all-append (cmd ∷ queue) more =
    rw (unsent_all-append queue more)
      (sym (append_assoc (unsent cmd) (unsent_all queue) (unsent_all more)))

new_command-unsent :
    (command : Text) (handler : Option Handler) (type : CmdType)
    → (unsent_all (new_command command handler type ∷ []) ≡ command ++ b'\n' ∷ [])
      × IsSized (new_command command handler type)
new_command-unsent command handler type = (
  rw (← length-append-one) (rw append-nil (take_all (command ++ b'\n' ∷ []))),
  omega (arith, length-concat command b'\n'),
)
  where
    length-append-one : length (command ++ b'\n' ∷ []) ≡ length command + 1
    length-append-one = omega (arith, length-concat command b'\n')

append_command-stream :
    (m : Manage) (cmd : Cmd) (queue : List Cmd)
    → m.cmd_queue ≡ queue
    → All IsSized queue
    → IsSized cmd
    → (stream (append_command m cmd queue) ≡ stream m ++ unsent_all (cmd ∷ []))
      × IsQueue (append_command m cmd queue)
unfolding append_command
append_command-stream m cmd [] e h k =
    let sent = send_command-stream (record m { cmd_queue = cmd ∷ [] }) (k, tt) in
    (sent.0 ∙ rw e (rw (append-nil m.sent)), sent.1)
append_command-stream m cmd (head ∷ queue) e h k = (
  rw (unsent_all-append (head ∷ queue) (cmd ∷ []))
      (rw e (sym (append_assoc m.sent (unsent_all (head ∷ queue)) (unsent_all (cmd ∷ []))))),
  All-append IsSized (head ∷ queue) (cmd ∷ []) h (k, tt),
)

pub management_command-stream :
    (memory : Bool) (m : Manage) (command : Text) (handler : Option Handler) (type : CmdType)
    → IsQueue m
    → let (m', done) = management_command memory m command handler type in
      IsQueue m'
      × (stream m' ≡ (if memory then stream m ++ command ++ b'\n' ∷ [] else stream m))
      × (done ≡ memory)
unfolding management_command
management_command-stream true m command handler type h =
    let (waits, sized) = new_command-unsent command handler type in
    let (whole, queue) =
      append_command-stream m (new_command command handler type) m.cmd_queue refl h sized in
    (
      queue,
      whole ∙ ap (λ t. stream m ++ t) waits ∙ sym (append_assoc (stream m) command (b'\n' ∷ [])),
      refl,
    )
management_command-stream false m command handler type h = (h, refl, refl)

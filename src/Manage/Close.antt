-- ===== src/Manage/Close.antt =====
-- manage.c: `UnqueueCommand` and the loop of `CloseManagement`.
use mathlib.Core.Path.{subst}
use openvpn_gui.Base.{
  ℕ, zero, suc, ◌+◌, ◌*◌, ◌≤◌, ◌<◌, ◌≡◌, refl, ap, ◌∙◌, sym, true, false, some, List, [], ◌∷◌,
  arith, length, length-concat,
}
use openvpn_gui.Conn.{CmdType, Manage, Cmd, regular, combined}
use openvpn_gui.Manage.{
  wiped, unqueue_command, unqueue_first, close_management, unqueue_all, remove_head, send_head,
  send_first, send_command,
}

-- On a closed socket nothing is sent: the queue, what was sent and what is freed stay.
abbrev Idle : Manage → Manage → Type 0
Idle m m' =
    (m'.cmd_queue ≡ m.cmd_queue)
    × (m'.sent ≡ m.sent)
    × (m'.freed ≡ m.freed)
    × (m'.sk ≡ m.sk)
    × (m'.saved ≡ m.saved)
    × (m'.connected ≡ m.connected)

send_command-Idle : (m : Manage) → m.sk ≡ false → Idle m (send_command m)
unfolding send_command send_first send_head
send_command-Idle m h = go m.cmd_queue
  where
    go : (queue : List Cmd) → Idle m (send_first m queue)
    go [] = ground arith
    go (cmd ∷ queue) = ground arith

-- How often a queue is still to be unqueued.
abbrev rounds : List Cmd → ℕ
rounds [] = 0
rounds (cmd ∷ queue) = elim cmd.type [ regular ↦ 1 | combined ↦ 2 ] + rounds queue

rounds-le : (queue : List Cmd) → rounds queue ≤ 2 * length queue
rounds-le [] = omega arith
rounds-le (cmd ∷ queue) = ground (arith, rounds-le queue)

-- What `CloseManagement` leaves behind.
pub record IsClosed (before after : Manage) : Type 0 where
  pub no_queue : after.cmd_queue ≡ []
  pub no_socket : after.sk ≡ false
  pub no_saved : after.saved ≡ []
  pub not_connected : after.connected ≡ 0
  pub nothing_sent : after.sent ≡ before.sent
  pub all_freed : length after.freed ≡ length before.freed + length before.cmd_queue

-- One round on a closed socket: nothing is sent, and every command is in the queue or freed.
record Round (m m' : Manage) : Type 0 where
  fewer : rounds m'.cmd_queue + 1 ≡ rounds m.cmd_queue
  still_closed : m'.sk ≡ m.sk
  same_saved : m'.saved ≡ m.saved
  same_connected : m'.connected ≡ m.connected
  same_sent : m'.sent ≡ m.sent
  accounted : length m'.freed + length m'.cmd_queue ≡ length m.freed + length m.cmd_queue

remove_head-Round :
    (m : Manage) (cmd : Cmd) (queue : List Cmd)
    → m.cmd_queue ≡ cmd ∷ queue
    → cmd.type ≡ regular
    → m.sk ≡ false
    → Round m (remove_head m cmd queue)
unfolding remove_head
remove_head-Round m cmd [] e t h = record {
  fewer = rw (e, t) (omega arith);
  still_closed = refl;
  same_saved = refl;
  same_connected = refl;
  same_sent = refl;
  accounted = rw e (omega (arith, length-concat m.freed (wiped cmd)));
}
remove_head-Round m cmd (next ∷ queue) e t h =
    let left = record m { cmd_queue = next ∷ queue } in
    let (same_queue, same_sent, same_freed, same_sk, same_saved, same_connected) =
      send_command-Idle left h in
    record {
      fewer = rw (same_queue, e, t) (omega arith);
      still_closed = same_sk;
      same_saved = same_saved;
      same_connected = same_connected;
      same_sent = same_sent;
      accounted = rw (same_queue, same_freed, e) (omega (arith, length-concat m.freed (wiped cmd)));
    }

unqueue_first-Round :
    (m : Manage) (cmd : Cmd) (queue : List Cmd)
    → m.cmd_queue ≡ cmd ∷ queue
    → m.sk ≡ false
    → Round m (unqueue_first m (cmd ∷ queue)).0 × ((unqueue_first m (cmd ∷ queue)).1 ≡ true)
unfolding unqueue_first
unqueue_first-Round m cmd queue e h = go cmd.type refl
  where
    go :
        (t : CmdType)
        → cmd.type ≡ t
        → Round m (unqueue_first m (cmd ∷ queue)).0 × ((unqueue_first m (cmd ∷ queue)).1 ≡ true)
    go regular t = rw (t, unqueue_first) (remove_head-Round m cmd queue e t h, refl)
    go combined t =
        rw (t, unqueue_first)
          (
            record {
              fewer = rw (e, t) (omega arith);
              still_closed = refl;
              same_saved = refl;
              same_connected = refl;
              same_sent = refl;
              accounted = rw e (omega arith);
            },
            refl,
          )

unqueue_command-Round :
    (m : Manage) (cmd : Cmd) (queue : List Cmd)
    → m.cmd_queue ≡ cmd ∷ queue
    → m.sk ≡ false
    → Round m (unqueue_command m).0 × ((unqueue_command m).1 ≡ true)
unfolding unqueue_command
unqueue_command-Round m cmd queue e h =
    subst (λ r. Round m r.0 × (r.1 ≡ true)) (sym (ap (unqueue_first m) e))
      (unqueue_first-Round m cmd queue e h)

unqueue_command_empty : (m : Manage) → m.cmd_queue ≡ [] → unqueue_command m ≡ (m, false)
unfolding unqueue_command unqueue_first
unqueue_command_empty m e = ap (unqueue_first m) e

unqueue_all_more :
    (fuel : ℕ) (m : Manage)
    → (unqueue_command m).1 ≡ true
    → unqueue_all (suc fuel) m ≡ unqueue_all fuel (unqueue_command m).0
unfolding unqueue_all
unqueue_all_more fuel m h = rw (h, unqueue_all)

unqueue_all_empty : (fuel : ℕ) (m : Manage) → m.cmd_queue ≡ [] → unqueue_all (suc fuel) m ≡ some m
unfolding unqueue_all
unqueue_all_empty fuel m e =
    let last = unqueue_command_empty m e in
    rw (ap (λ r. r.1) last, unqueue_all) (ap (λ r. some r.0) last)

IsClosed-Round : (m m' after : Manage) → Round m m' → IsClosed m' after → IsClosed m after
IsClosed-Round m m' after r c = record {
  no_queue = c.no_queue;
  no_socket = c.no_socket;
  no_saved = c.no_saved;
  not_connected = c.not_connected;
  nothing_sent = c.nothing_sent ∙ r.same_sent;
  all_freed = omega (arith, c.all_freed, r.accounted);
}

abbrev Closing : Manage → Type 0
Closing m = (m.sk ≡ false) × (m.saved ≡ []) × (m.connected ≡ 0)

abbrev Ends : ℕ → Manage → Type 0
Ends fuel m = (after : Manage) × (unqueue_all fuel m ≡ some after) × IsClosed m after

unqueue_all-Ends :
    (fuel : ℕ) (m : Manage) (queue : List Cmd)
    → m.cmd_queue ≡ queue
    → Closing m
    → rounds queue < fuel
    → Ends fuel m
unqueue_all-Ends zero m queue e c h = absurd (omega arith)
unqueue_all-Ends (suc fuel) m [] e (sk, saved, connected) h = (
  m,
  unqueue_all_empty fuel m e,
  record {
    no_queue = e;
    no_socket = sk;
    no_saved = saved;
    not_connected = connected;
    nothing_sent = refl;
    all_freed = rw e (omega arith);
  },
)
unqueue_all-Ends (suc fuel) m (cmd ∷ queue) e (sk, saved, connected) h =
    let (r, more) = unqueue_command-Round m cmd queue e sk in
    let m' = (unqueue_command m).0 in
    let (after, run, closed) =
      unqueue_all-Ends fuel m' m'.cmd_queue refl
        (r.still_closed ∙ sk, r.same_saved ∙ saved, r.same_connected ∙ connected)
        (omega (arith, r.fewer, ap rounds e)) in
    (after, unqueue_all_more fuel m more ∙ run, IsClosed-Round m m' after r closed)

-- `CloseManagement` on an open socket: its loop ends; afterwards the queue is empty, the socket
-- invalid, the saved input gone and the connected flag 0. Nothing more was sent, and as many
-- command buffers were freed as there were commands. On an invalid socket it does nothing.
pub close_management-IsClosed :
    (m : Manage)
    → (m.sk ≡ true → IsClosed m (close_management m)) × (m.sk ≡ false → close_management m ≡ m)
unfolding close_management
close_management-IsClosed m = (open_socket, λ h. rw h)
  where
    open_socket : m.sk ≡ true → IsClosed m (close_management m)
    open_socket h =
        let closed = record m { saved = []; sk = false; connected = 0 } in
        let (after, run, c) =
          unqueue_all-Ends (suc (2 * length m.cmd_queue)) closed m.cmd_queue refl (refl, refl, refl)
            (omega (arith, rounds-le m.cmd_queue)) in
        rw (h, run)
          (record {
            no_queue = c.no_queue;
            no_socket = c.no_socket;
            no_saved = c.no_saved;
            not_connected = c.not_connected;
            nothing_sent = c.nothing_sent;
            all_freed = c.all_freed;
          })

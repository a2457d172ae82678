-- ===== src/Restart.antt =====
-- main.c: the list of active connections that is kept in the registry over a restart, with CountConnState
-- and GetConnByName of options.c. The value in the registry is a text with its NULs, `none` without one;
-- `icase_eq` compares names without case, and `memory` is false where an allocation fails.
pub mod Active
pub mod RoundTrip
use mathlib.Core.List.{append-nil, append_assoc, map-append}
use mathlib.Core.Option.{some-injective}
use mathlib.Core.Path.{subst}
use openvpn_gui.Base.{
  ℕ, zero, suc, ◌+◌, ◌-◌, ◌*◌, ◌/◌, ◌%◌, ◌^◌, ◌≤◌, ◌<◌, ◌≡◌, ◌≢◌, ◌↔◌, refl, ap, ◌∙◌, sym, Bool,
  true, false, not, ◌&&◌, ◌||◌, Option, none, some, List, [], ◌∷◌, ◌++◌, map, if◌then◌else◌,
  Bool-cases, Option-cases, Ordering-cases, Ordering, ◌⊎◌, inl, inr, arith, length, length-append,
  length-concat, drop, take, replicate, drop-append, leb, ltb, leb→le, ltb→lt, lt→ltb, ◌==◌,
  ==_refl, ==_iff, All, All-append,
}
use openvpn_gui.Base.Text.{
  Text, codes, streq, strbegins, contains, before, after?, skip_while, text_at, streq_iff,
  streq_refl, strbegins-append, split_at, contains-before, before-append, after?-append,
  before_of_not-contains, after?_of_not-contains, not-contains_of_after?,
}
use openvpn_gui.Conn.{ConnState, disconnected}
use openvpn_gui.Openvpn.{is_state}

-- The members of `connection_t` that are read and set.
pub record Session : Type 0 where
  pub config_file : Text
  pub config_name : Text
  pub state : ConnState
  pub daemon_persistent : Bool
  pub auto_connect : Bool

abbrev pub in_state : ConnState → Session → Bool
in_state check c = is_state c.state check

-- `CountConnState`.
unfoldable pub count_conn_state : ConnState → List Session → ℕ
count_conn_state check [] = 0
count_conn_state check (c ∷ cs) =
    let count = count_conn_state check cs in if in_state check c then suc count else count

abbrev pub is_active : Session → Bool
is_active c = not (in_state disconnected c || c.daemon_persistent)

-- The names of the connections to keep, at most `max_active`.
unfoldable pub active_names : ℕ → List Session → List Text
active_names zero cs = []
active_names (suc n) [] = []
active_names (suc n) (c ∷ cs) =
    let more = active_names n cs in
    let skipped = active_names (suc n) cs in if is_active c then c.config_name ∷ more else skipped

unfoldable pub nul_ended : List Text → Text
nul_ended [] = []
nul_ended (name ∷ names) = name ++ (0 ∷ nul_ended names)

-- The zeroed list with the names written into it.
unfoldable pub multi_sz : List Text → Text
multi_sz [] = 0 ∷ 0 ∷ []
multi_sz (name ∷ names) = nul_ended (name ∷ names) ++ 0 ∷ []

-- `SaveAutoRestartList`: the value in the registry, where `old` was.
unfoldable pub save_auto_restart_list : Bool → Bool → Option Text → List Session → Option Text
save_auto_restart_list enabled memory old cs =
    let max_active = length cs - count_conn_state disconnected cs in
    if not enabled || (max_active == 0)
    then none
    else if memory
    then some (multi_sz (active_names max_active cs))
    else old

module _ (icase_eq : Text → Text → Bool) where
  -- The connection that `GetConnByName` finds is set to start, unless it is persistent.
  unfoldable pub set_auto_connect : Text → List Session → List Session
  set_auto_connect name [] = []
  set_auto_connect name (c ∷ cs) =
      let later = c ∷ set_auto_connect name cs in
      if icase_eq c.config_file name || icase_eq c.config_name name
      then (if c.daemon_persistent then c else record c { auto_connect = true }) ∷ cs
      else later

  -- The loop over the list, `none` where it does not end in so many rounds or is not ended by a NUL.
  unfoldable pub load_names : ℕ → Text → List Session → Option (List Session)
  load_names zero p cs = none
  load_names (suc fuel) [] cs = none
  load_names (suc fuel) (c ∷ p) cs =
      let name = before 0 (c ∷ p) in
      if c == 0 then some cs else elim (after? 0 (c ∷ p)) [
        | none ↦ none
        | some rest ↦ load_names fuel rest (set_auto_connect name cs)
      ]

  -- `LoadAutoRestartList`.
  unfoldable pub load_auto_restart_list : Bool → Option Text → List Session → Option (List Session)
  load_auto_restart_list memory none cs = some cs
  load_auto_restart_list memory (some list) cs =
      if memory then load_names (suc (length list)) list cs else some cs

-- ===== src/Restart/Active.antt =====
-- main.c: the names of the active connections, whatever their number.
use openvpn_gui.Base.{
  ℕ, zero, suc, ◌+◌, ◌≤◌, ◌≡◌, refl, ap, sym, true, false, List, [], ◌∷◌, map, if◌then◌else◌,
  Bool-cases, List-cases, inl, inr, arith, length,
}
use openvpn_gui.Base.Text.{Text}
use openvpn_gui.Conn.{disconnected}
use openvpn_gui.Restart.{Session, in_state, count_conn_state, is_active, active_names}

-- A connection that was active is set to start.
abbrev pub restarted : Session → Session
restarted c = if is_active c then record c { auto_connect = true } else c

unfoldable pub all_active : List Session → List Text
all_active [] = []
all_active (c ∷ cs) = let more = all_active cs in if is_active c then c.config_name ∷ more else more

pub all_active-in :
    (c : Session) (cs : List Session)
    → is_active c ≡ true
    → all_active (c ∷ cs) ≡ c.config_name ∷ all_active cs
unfolding all_active
all_active-in c cs e = rw e refl

pub all_active-out :
    (c : Session) (cs : List Session) → is_active c ≡ false → all_active (c ∷ cs) ≡ all_active cs
unfolding all_active
all_active-out c cs e = rw e refl

fewer :
    (c : Session) (cs : List Session) (n : ℕ)
    → is_active c ≡ true
    → length (all_active (c ∷ cs)) ≤ suc n
    → length (all_active cs) ≤ n
fewer c cs n e h = let long = ap length (all_active-in c cs e) in omega (arith, h, long)

same_length :
    (c : Session) (cs : List Session) (n : ℕ)
    → is_active c ≡ false
    → length (all_active (c ∷ cs)) ≤ n
    → length (all_active cs) ≤ n
same_length c cs n e h = let long = ap length (all_active-out c cs e) in omega (arith, h, long)

pub active_names_all :
    (n : ℕ) (cs : List Session) → length (all_active cs) ≤ n → active_names n cs ≡ all_active cs
unfolding active_names all_active
active_names_all zero cs h = elim (List-cases (all_active cs)) [
  | inl e ↦ sym e
  | inr (name, names, e) ↦ let long = ap length e in absurd (omega (arith, h, long))
]
active_names_all (suc n) [] h = refl
active_names_all (suc n) (c ∷ cs) h = elim (Bool-cases (is_active c)) [
  | inl e ↦
      rw (e, active_names, all_active)
        (ap (◌∷◌ c.config_name) (active_names_all n cs (fewer c cs n e h)))
  | inr e ↦
      rw (e, active_names, all_active) (active_names_all (suc n) cs (same_length c cs (suc n) e h))
]

pub count_active :
    (cs : List Session) → length (all_active cs) + count_conn_state disconnected cs ≤ length cs
unfolding all_active count_conn_state
count_active [] = omega arith
count_active (c ∷ cs) = elim (Bool-cases (in_state disconnected c)) [
  | inl e ↦ rw e (omega (arith, count_active cs))
  | inr e ↦ elim (Bool-cases c.daemon_persistent) [
    | inl k ↦ rw (e, k) (omega (arith, count_active cs))
    | inr k ↦ rw (e, k) (omega (arith, count_active cs))
  ]
]

pub restarted_none : (cs : List Session) → length (all_active cs) ≡ 0 → map restarted cs ≡ cs
restarted_none [] h = refl
restarted_none (c ∷ cs) h = elim (Bool-cases (is_active c)) [
  | inl e ↦ let long = ap length (all_active-in c cs e) in absurd (omega (arith, h, long))
  | inr e ↦
      let long = ap length (all_active-out c cs e) in
      rw e (ap (◌∷◌ c) (restarted_none cs (omega (arith, h, long))))
]

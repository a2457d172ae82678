-- ===== src/Restart/RoundTrip.antt =====
-- main.c: the connections that were active start again.
use mathlib.Core.List.{append_assoc}
use openvpn_gui.Base.{
  ℕ, zero, suc, ◌+◌, ◌-◌, ◌<◌, ◌≡◌, refl, ap, ◌∙◌, sym, Bool, true, false, Option, some, List, [],
  ◌∷◌, ◌++◌, map, Bool-cases, inl, inr, arith, length, length-append, length-concat, ◌==◌, All,
  All-append,
}
use openvpn_gui.Base.Text.{Text, contains, before-append, after?-append}
use openvpn_gui.Conn.{disconnected}
use openvpn_gui.Restart.Active.{
  restarted, all_active, all_active-in, all_active-out, active_names_all, count_active,
  restarted_none,
}
use openvpn_gui.Restart.{
  Session, count_conn_state, is_active, nul_ended, multi_sz, save_auto_restart_list,
  set_auto_connect, load_names, load_auto_restart_list,
}

-- A name is not empty and has no NUL.
abbrev pub Proper : Text → Type 0
Proper name = (0 < length name) × (contains name 0 ≡ false)

first_letter : (x : ℕ) (name : Text) → contains (x ∷ name) 0 ≡ false → (x == 0) ≡ false
unfolding contains
first_letter x name h = ground arith

module _ (icase_eq : Text → Text → Bool) (same : (name : Text) → icase_eq name name ≡ true) where
  -- The connection has not the name.
  abbrev pub Named : Text → Session → Type 0
  Named name c = (icase_eq c.config_file name ≡ false) × (icase_eq c.config_name name ≡ false)

  -- No connection has the name of a later one.
  abbrev pub Apart : List Session → Type 0
  Apart [] = Unit
  Apart (c ∷ cs) = All (λ d. Named d.config_name c) cs × Apart cs

  set_auto_connect-found :
      (done : List Session) (c : Session) (cs : List Session)
      → c.daemon_persistent ≡ false
      → All (Named c.config_name) done
      → set_auto_connect icase_eq c.config_name (done ++ c ∷ cs)
        ≡ done ++ (record c { auto_connect = true }) ∷ cs
  unfolding set_auto_connect
  set_auto_connect-found [] c cs p h = elim (Bool-cases (icase_eq c.config_file c.config_name)) [
    | inl e ↦ rw (e, p) refl
    | inr e ↦ rw (e, same c.config_name, p) refl
  ]
  set_auto_connect-found (d ∷ done) c cs p h =
      rw (h.0.0, h.0.1) (ap (◌∷◌ d) (set_auto_connect-found done c cs p h.1))

  -- One name of the list is read.
  load_names-name :
      (fuel : ℕ) (name rest : Text) (cs : List Session)
      → Proper name
      → load_names icase_eq (suc fuel) (name ++ 0 ∷ rest) cs
        ≡ load_names icase_eq fuel rest (set_auto_connect icase_eq name cs)
  unfolding load_names
  load_names-name fuel [] rest cs h = absurd (omega (arith, h.0))
  load_names-name fuel (x ∷ name) rest cs h =
      let letter : (x == 0) ≡ false = first_letter x name h.1 in
      rw (letter, after?-append 0 (x ∷ name) rest h.1, before-append 0 (x ∷ name) rest h.1) refl

  abbrev pub Free : List Session → Session → Type 0
  Free done c = All (Named c.config_name) done

  Named-restarted : (name : Text) (c : Session) → Named name c → Named name (restarted c)
  Named-restarted name c h = elim (Bool-cases (is_active c)) [ inl e ↦ rw e h | inr e ↦ rw e h ]

  -- Those that are done do not have the names of those that follow.
  Free-concat :
      (done : List Session) (c : Session) (cs : List Session)
      → All (Free done) cs
      → All (λ d. Named d.config_name c) cs
      → All (Free (done ++ restarted c ∷ [])) cs
  Free-concat done c [] h k = tt
  Free-concat done c (d ∷ cs) h k = (
    All-append (Named d.config_name) done (restarted c ∷ []) h.0
        (Named-restarted d.config_name c k.0, tt),
    Free-concat done c cs h.1 k.1,
  )

  load_names-all :
      (fuel : ℕ) (done cs : List Session)
      → length (nul_ended (all_active cs)) + 1 < fuel + 1
      → All (λ c. Proper c.config_name) cs
      → Apart cs
      → All (Free done) cs
      → load_names icase_eq fuel (nul_ended (all_active cs) ++ 0 ∷ []) (done ++ cs)
        ≡ some (done ++ map restarted cs)
  unfolding all_active nul_ended load_names
  load_names-all zero done cs l p a f = absurd (omega arith)
  load_names-all (suc fuel) done [] l p a f = refl
  load_names-all (suc fuel) done (c ∷ cs) l p a f =
      let todo = nul_ended (all_active cs) in
      let next = done ++ restarted c ∷ [] in
      let free = Free-concat done c cs f.1 a.0 in
      let last = append_assoc done (restarted c ∷ []) (map restarted cs) in
      elim (Bool-cases (is_active c)) [
        | inl e ↦
            let set : restarted c ≡ record c { auto_connect = true } = rw e refl in
            let ours : c.daemon_persistent ≡ false = ground arith in
            let names = all_active-in c cs e in
            let long = ap (λ ns. length (nul_ended ns)) names in
            let longer = length-append c.config_name (0 ∷ todo) in
            ap (λ ns. load_names icase_eq (suc fuel) (nul_ended ns ++ 0 ∷ []) (done ++ c ∷ cs))
              names
            ∙ ap (λ t. load_names icase_eq (suc fuel) t (done ++ c ∷ cs))
                (append_assoc c.config_name (0 ∷ todo) (0 ∷ []))
            ∙ load_names-name fuel c.config_name (todo ++ 0 ∷ []) (done ++ c ∷ cs) p.0
            ∙ ap (load_names icase_eq fuel (todo ++ 0 ∷ [])) (
                set_auto_connect-found done c cs ours f.0
                ∙ ap (λ x. done ++ x ∷ cs) (sym set)
                ∙ sym (append_assoc done (restarted c ∷ []) cs))
            ∙ load_names-all fuel next cs (omega (arith, l, long, longer)) p.1 a.1 free
            ∙ ap some last
        | inr e ↦
            let kept : restarted c ≡ c = rw e refl in
            let names = all_active-out c cs e in
            let long = ap (λ ns. length (nul_ended ns)) names in
            ap (λ ns. load_names icase_eq (suc fuel) (nul_ended ns ++ 0 ∷ []) (done ++ c ∷ cs))
              names
            ∙ ap (load_names icase_eq (suc fuel) (todo ++ 0 ∷ [])) (
                ap (λ x. done ++ x ∷ cs) (sym kept) ∙ sym (append_assoc done (restarted c ∷ []) cs))
            ∙ load_names-all (suc fuel) next cs (omega (arith, l, long)) p.1 a.1 free
            ∙ ap some last
      ]

  All-Free : (cs : List Session) → All (Free []) cs
  All-Free [] = tt
  All-Free (c ∷ cs) = (tt, All-Free cs)

  load_names_one :
      (fuel : ℕ) (names : List Text) (cs : List Session)
      → load_names icase_eq (suc fuel) (multi_sz names) cs
        ≡ load_names icase_eq (suc fuel) (nul_ended names ++ 0 ∷ []) cs
  unfolding load_names multi_sz nul_ended
  load_names_one fuel [] cs = refl
  load_names_one fuel (name ∷ names) cs = refl

  length-multi_sz : (names : List Text) → length (nul_ended names) < length (multi_sz names)
  unfolding multi_sz nul_ended
  length-multi_sz [] = omega arith
  length-multi_sz (name ∷ names) = omega (arith, length-concat (nul_ended (name ∷ names)) 0)

  -- Where the names of the connections are not empty, have no NUL and differ, as do the files of the
  -- earlier ones from the names of the later ones, without case, and while memory lasts: saving the list of
  -- the active connections and loading it sets exactly those to start that were neither disconnected nor
  -- persistent, and changes nothing else. The loop over the list ends.
  pub load_auto_restart_list-save_auto_restart_list :
      (old : Option Text) (cs : List Session)
      → All (λ c. Proper c.config_name) cs
      → Apart cs
      → load_auto_restart_list icase_eq true (save_auto_restart_list true true old cs) cs
        ≡ some (map restarted cs)
  unfolding load_auto_restart_list save_auto_restart_list
  load_auto_restart_list-save_auto_restart_list old cs p a =
      let max_active = length cs - count_conn_state disconnected cs in
      let counts = count_active cs in
      let names = active_names_all max_active cs (omega (arith, counts)) in
      elim (Bool-cases (max_active == 0)) [
        | inl e ↦
            let idle : max_active ≡ 0 = ground (arith, e) in
            rw e (ap some (sym (restarted_none cs (omega (arith, counts, idle)))))
        | inr e ↦
            let list = multi_sz (all_active cs) in
            rw (e, names)
              (load_names_one (length list) (all_active cs) cs
                ∙ load_names-all (suc (length list)) [] cs
                    (omega (arith, length-multi_sz (all_active cs))) p a (All-Free cs))
      ]

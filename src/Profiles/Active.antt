-- ===== src/Profiles/Active.antt =====
-- openvpn_config.c: which groups ActivateConfigGroups leaves active.
use mathlib.Core.Path.{subst}
use openvpn_gui.Base.{
  ℕ, zero, suc, ◌+◌, ◌≤◌, ◌<◌, ◌≡◌, ◌↔◌, refl, ap, ◌∙◌, sym, true, Option, none, some, List, [],
  ◌∷◌, map, ◌⊎◌, inl, inr, arith, length, All,
}
use openvpn_gui.Profiles.Counted.{counted-root, counted_only}
use openvpn_gui.Profiles.{Files, ScanOptions, Profile, Group, Configs}
use openvpn_gui.Profiles.Keeps.{parents, Parents, Below, HasGroup, WellFormed, HasGroup-weaken}
use openvpn_gui.Profiles.Tree.{
  change_group_keeps, counted-parents, length_of_parents, squash-HasGroup, squash_keeps,
}
use openvpn_gui.Profiles.Formed.{activate_up_keeps}
use openvpn_gui.Profiles.Above.{
  is_active, parent_at, Above, here, up, Linked, first, later, parent_of-group_at,
  is_active_of_actives, activated_there, activated_keeps, activated_only,
}
use openvpn_gui.Profiles.Groups.{
  group_at, change_group, activated, parent_of, counted, squash, activate_up, activate_all,
  activate_config_groups, read_checked,
}

-- The walk to the root activates the groups on the way and no other.
module _ (ps : List (Option ℕ)) (j : ℕ) where
  activate_up_only :
      (fuel : ℕ) (at : Option ℕ) (gs : List Group)
      → parents gs ≡ ps
      → is_active (activate_up fuel at gs) j ≡ true
      → Above (parent_at ps) at j ⊎ (is_active gs j ≡ true)
  unfolding activate_up
  activate_up_only zero at gs e h = inr h
  activate_up_only (suc fuel) none gs e h = inr h
  activate_up_only (suc fuel) (some i) gs e h =
      let next = change_group activated i gs in
      let parent = parent_of-group_at gs i ∙ ap (λ qs. parent_at qs i) e in
      let same = change_group_keeps (λ g. g.parent) activated (λ g. refl) i gs ∙ e in
      elim (activate_up_only fuel (parent_of (group_at gs i)) next same h) [
        | inl above ↦ inl (up i j (subst (λ q. Above (parent_at ps) q j) parent above))
        | inr k ↦ elim (activated_only gs i j k) [
          | inl i≡j ↦ inl (subst (λ n. Above (parent_at ps) (some i) n) i≡j (here i))
          | inr l ↦ inr l
        ]
      ]

  activate_up_still :
      (fuel : ℕ) (at : Option ℕ) (gs : List Group)
      → is_active gs j ≡ true
      → is_active (activate_up fuel at gs) j ≡ true
  unfolding activate_up
  activate_up_still zero at gs h = h
  activate_up_still (suc fuel) none gs h = h
  activate_up_still (suc fuel) (some i) gs h =
      activate_up_still fuel (parent_of (group_at gs i)) (change_group activated i gs)
        (activated_keeps gs i j h)

  activate_all_still :
      (cs : List Profile) (gs : List Group)
      → is_active gs j ≡ true
      → is_active (activate_all cs gs) j ≡ true
  unfolding activate_all
  activate_all_still [] gs h = h
  activate_all_still (c ∷ cs) gs h =
      activate_all_still cs (activate_up (length gs) (some c.group) gs)
        (activate_up_still (length gs) (some c.group) gs h)

  activate_all_only :
      (cs : List Profile) (gs : List Group)
      → parents gs ≡ ps
      → is_active (activate_all cs gs) j ≡ true
      → Linked (parent_at ps) j cs ⊎ (is_active gs j ≡ true)
  unfolding activate_all
  activate_all_only [] gs e h = inr h
  activate_all_only (c ∷ cs) gs e h =
      let next = activate_up (length gs) (some c.group) gs in
      let same = activate_up_keeps (λ g. g.parent) (λ g. refl) (length gs) (some c.group) gs ∙ e in
      elim (activate_all_only cs next same h) [
        | inl linked ↦ inl (later c cs linked)
        | inr k ↦ elim (activate_up_only (length gs) (some c.group) gs e k) [
          | inl above ↦ inl (first c cs above)
          | inr l ↦ inr l
        ]
      ]

Below-weaken : (n m : ℕ) (at : Option ℕ) → n ≤ m → Below n at → Below m at
Below-weaken n m none l h = tt
Below-weaken n m (some i) l h = omega arith

Below-parent_at : (k i : ℕ) (qs : List (Option ℕ)) → Parents k qs → Below (k + i) (parent_at qs i)
unfolding parent_at
Below-parent_at k i [] h = tt
Below-parent_at k zero (q ∷ qs) h = Below-weaken k (k + 0) q (omega arith) h.0
Below-parent_at k (suc i) (q ∷ qs) h =
    Below-weaken (suc k + i) (k + suc i) (parent_at qs i) (omega arith)
      (Below-parent_at (suc k) i qs h.1)

-- As many steps as the group's number are enough.
activate_up_all :
    (ps : List (Option ℕ)) (j fuel : ℕ) (at : Option ℕ) (gs : List Group)
    → parents gs ≡ ps
    → Parents 0 ps
    → Below fuel at
    → Below (length gs) at
    → Above (parent_at ps) at j
    → is_active (activate_up fuel at gs) j ≡ true
unfolding activate_up
activate_up_all ps j zero none gs e o f l a = elim a [ ]
activate_up_all ps j (suc fuel) none gs e o f l a = elim a [ ]
activate_up_all ps j zero (some i) gs e o f l a = absurd (omega arith)
activate_up_all ps j (suc fuel) (some i) gs e o f l (here _) =
    activate_up_still ps j fuel (parent_of (group_at gs i)) (change_group activated i gs)
      (activated_there gs i l)
activate_up_all ps j (suc fuel) (some i) gs e o f l (up _ _ above) =
    let next = change_group activated i gs in
    let parent = parent_of-group_at gs i ∙ ap (λ qs. parent_at qs i) e in
    let same = change_group_keeps (λ g. g.parent) activated (λ g. refl) i gs in
    let q = parent_at ps i in
    let below = Below-parent_at 0 i ps o in
    let many = length_of_parents next gs same in
    rw parent (
      activate_up_all ps j fuel q next (same ∙ e) o
        (Below-weaken (0 + i) fuel q (omega arith) below)
        (Below-weaken (0 + i) (length next) q (omega (arith, many)) below) above)

activate_all_complete :
    (ps : List (Option ℕ)) (j : ℕ) (cs : List Profile) (gs : List Group)
    → parents gs ≡ ps
    → Parents 0 ps
    → All (HasGroup (length gs)) cs
    → Linked (parent_at ps) j cs
    → is_active (activate_all cs gs) j ≡ true
unfolding activate_all
activate_all_complete ps j [] gs e o h l = elim l [ ]
activate_all_complete ps j (c ∷ cs) gs e o h (first _ _ above) =
    let next = activate_up (length gs) (some c.group) gs in
    activate_all_still ps j cs next
      (activate_up_all ps j (length gs) (some c.group) gs e o h.0 h.0 above)
activate_all_complete ps j (c ∷ cs) gs e o h (later _ _ linked) =
    let next = activate_up (length gs) (some c.group) gs in
    let same = activate_up_keeps (λ g. g.parent) (λ g. refl) (length gs) (some c.group) gs in
    let many = length_of_parents next gs same in
    activate_all_complete ps j cs next (same ∙ e) o
      (HasGroup-weaken (length gs) (length next) cs (omega (arith, many)) h.1) linked

-- The last test of the walk leaves the groups of the profiles.
read_checked-Linked :
    (w : Files) (p : ℕ → Option ℕ) (j : ℕ) (cs : List Profile)
    → Linked p j cs
    → Linked p j (map (read_checked w) cs)
read_checked-Linked w p j [] l = elim l [ ]
read_checked-Linked w p j (c ∷ cs) (first _ _ a) =
    first (read_checked w c) (map (read_checked w) cs) a
read_checked-Linked w p j (c ∷ cs) (later _ _ l) =
    later (read_checked w c) (map (read_checked w) cs) (read_checked-Linked w p j cs l)

Linked-read_checked :
    (w : Files) (p : ℕ → Option ℕ) (j : ℕ) (cs : List Profile)
    → Linked p j (map (read_checked w) cs)
    → Linked p j cs
Linked-read_checked w p j [] l = elim l [ ]
Linked-read_checked w p j (c ∷ cs) (first _ _ a) = first c cs a
Linked-read_checked w p j (c ∷ cs) (later _ _ l) = later c cs (Linked-read_checked w p j cs l)

-- Of a well-formed state with groups, ActivateConfigGroups leaves exactly those groups active that are
-- the root, or stand on the way to the root from the group of a profile, the group that the profile
-- has when it returns.
pub activate_config_groups-Linked :
    (w : Files) (o : ScanOptions) (st : Configs)
    → WellFormed w o st
    → 0 < length st.groups
    → (j : ℕ)
    → (is_active (activate_config_groups w st).groups j ≡ true)
      ↔ ((j ≡ 0) ⊎ Linked (parent_at (parents st.groups)) j (activate_config_groups w st).profiles)
unfolding activate_config_groups
activate_config_groups-Linked w o st wf found j =
    let ps = parents st.groups in
    let start = counted st.profiles st.groups in
    let squashed = squash st.profiles start in
    let same_start = counted-parents st.profiles st.groups in
    let same : parents squashed.1 ≡ ps =
      squash_keeps (λ g. g.parent) (λ g. refl) (λ g. refl) st.profiles start ∙ same_start in
    let active =
      is_active_of_actives squashed.1 start
        (squash_keeps (λ g. g.active) (λ g. refl) (λ g. refl) st.profiles start) in
    let many_start = length_of_parents start st.groups same_start in
    let many = length_of_parents squashed.1 st.groups same in
    let grouped =
      squash-HasGroup st.profiles start (subst (Parents 0) (sym same_start) wf.ordered) (
        HasGroup-weaken (length st.groups) (length start) st.profiles (omega (arith, many_start))
          wf.grouped) in
    (
      λ h. elim (activate_all_only ps j squashed.0 squashed.1 same h) [
        | inl linked ↦ inr (read_checked-Linked w (parent_at ps) j squashed.0 linked)
        | inr k ↦ inl (counted_only st.profiles st.groups j (sym (active j) ∙ k))
      ],
      λ h. elim h [
        | inl e ↦ activate_all_still ps j squashed.0 squashed.1 (
            subst (λ n. is_active squashed.1 n ≡ true) (sym e)
              (active 0 ∙ counted-root st.profiles st.groups found))
        | inr linked ↦
            activate_all_complete ps j squashed.0 squashed.1 same wf.ordered
              (HasGroup-weaken (length start) (length squashed.1) squashed.0
                (omega (arith, many, many_start)) grouped)
              (Linked-read_checked w (parent_at ps) j squashed.0 linked)
      ],
    )

-- ===== src/Profiles/Counted.antt =====
-- openvpn_config.c: the counts of ActivateConfigGroups leave only the root active.
use openvpn_gui.Base.{
  ℕ, zero, suc, ◌+◌, ◌-◌, ◌≤◌, ◌<◌, ◌≡◌, refl, ◌∙◌, sym, true, List, map, ◌⊎◌, inl, inr, arith,
  length,
}
use openvpn_gui.Profiles.{Profile, Group}
use openvpn_gui.Profiles.Tree.{
  actives, change_group_keeps, map_keeps, count_configs_keeps, add_child_at_keeps,
  length_of_parents,
}
use openvpn_gui.Profiles.Above.{
  is_active, is_active_of_actives, is_active_in_range, activated_there, deactivated_only,
  deactivated_keeps,
}
use openvpn_gui.Profiles.Groups.{
  group_at, change_group, activated, deactivated, without_children, count_configs, parent_of,
  add_child_at, count_groups, counted,
}

-- Before the walks only the root is active.
count_groups_only :
    (n i : ℕ) (gs : List Group) (j : ℕ)
    → is_active (count_groups n i gs) j ≡ true
    → (is_active gs j ≡ true) × ((j < i) ⊎ (i + n ≤ j))
unfolding count_groups
count_groups_only zero i gs j h = (h, ground arith)
count_groups_only (suc n) i gs j h =
    let at = parent_of (group_at gs i) in
    let counted = add_child_at at gs in
    let ih = count_groups_only n (suc i) (change_group deactivated i counted) j h in
    let only = deactivated_only counted i j ih.0 in
    let same =
      is_active_of_actives counted gs (add_child_at_keeps (λ g. g.active) (λ g. refl) at gs) j in
    (
      sym same ∙ only.1,
      elim ih.1 [ inl l ↦ inl (ground (arith, only.0)) | inr l ↦ inr (omega arith) ],
    )

count_groups_still :
    (n i : ℕ) (gs : List Group) (j : ℕ)
    → j < i
    → is_active gs j ≡ true
    → is_active (count_groups n i gs) j ≡ true
unfolding count_groups
count_groups_still zero i gs j l h = h
count_groups_still (suc n) i gs j l h =
    let at = parent_of (group_at gs i) in
    let counted = add_child_at at gs in
    let same =
      is_active_of_actives counted gs (add_child_at_keeps (λ g. g.active) (λ g. refl) at gs) j in
    count_groups_still n (suc i) (change_group deactivated i counted) j (omega arith)
      (deactivated_keeps counted i j l (same ∙ h))

module _ (cs : List Profile) (gs : List Group) where
  configs_counted-actives :
      actives (count_configs cs (map without_children (change_group activated 0 gs)))
      ≡ actives (change_group activated 0 gs)
  configs_counted-actives =
      let one = change_group activated 0 gs in
      count_configs_keeps (λ g. g.active) (λ g. refl) cs (map without_children one)
      ∙ map_keeps (λ g. g.active) without_children (λ g. refl) one

  pub counted-root : 0 < length gs → is_active (counted cs gs) 0 ≡ true
  unfolding counted
  counted-root h =
      let one = change_group activated 0 gs in
      let two = count_configs cs (map without_children one) in
      count_groups_still (length gs - 1) 1 two 0 (omega arith)
        (is_active_of_actives two one configs_counted-actives 0 ∙ activated_there gs 0 h)

  pub counted_only : (j : ℕ) → is_active (counted cs gs) j ≡ true → j ≡ 0
  unfolding counted
  counted_only j h =
      let one = change_group activated 0 gs in
      let two = count_configs cs (map without_children one) in
      let only = count_groups_only (length gs - 1) 1 two j h in
      let last =
        is_active_in_range one j
          (sym (is_active_of_actives two one configs_counted-actives j) ∙ only.0) in
      let many =
        length_of_parents one gs (change_group_keeps (λ g. g.parent) activated (λ g. refl) 0 gs) in
      elim only.1 [ inl l ↦ omega arith | inr l ↦ omega (arith, last, many) ]

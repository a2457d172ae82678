-- ===== src/Profiles/Tree.antt =====
-- openvpn_config.c: the array of groups. What the counts and the squashing of ActivateConfigGroups leave
-- as it was: the parents, the number of groups, and what identifies a profile.
use mathlib.Core.Path.{subst}
use openvpn_gui.Base.{
  ℕ, zero, suc, ◌+◌, ◌-◌, ◌<◌, ◌≡◌, refl, ap, ◌∙◌, sym, Bool, Option, none, some, List, [], ◌∷◌,
  map, Option-cases, inl, inr, arith, length, length-map, All,
}
use openvpn_gui.Profiles.{Profile, Group}
use openvpn_gui.Profiles.Keeps.{key, Parents, parents, HasGroup, Below}
use openvpn_gui.Profiles.Groups.{
  group_at, change_group, add_child, remove_child, activated, deactivated, without_children,
  count_configs, parent_of, add_child_at, count_groups, squash_parent, squash, counted,
}

abbrev pub actives : List Group → List Bool
actives gs = map (λ g. g.active) gs

-- Counting changes neither the parents nor which groups are active.
module _ {ℓ} {A : Type ℓ} (view : Group → A) (f : Group → Group)
    (same : (g : Group) → view (f g) ≡ view g) where
  pub change_group_keeps : (i : ℕ) (gs : List Group) → map view (change_group f i gs) ≡ map view gs
  unfolding change_group
  change_group_keeps i [] = refl
  change_group_keeps zero (g ∷ gs) = ap (λ a. a ∷ map view gs) (same g)
  change_group_keeps (suc i) (g ∷ gs) = ap (◌∷◌ (view g)) (change_group_keeps i gs)

  pub map_keeps : (gs : List Group) → map view (map f gs) ≡ map view gs
  map_keeps [] = refl
  map_keeps (g ∷ gs) = rw (same g) (ap (◌∷◌ (view g)) (map_keeps gs))

module _ {ℓ} {A : Type ℓ} (view : Group → A) (up : (g : Group) → view (add_child g) ≡ view g) where
  pub count_configs_keeps :
      (cs : List Profile) (gs : List Group) → map view (count_configs cs gs) ≡ map view gs
  unfolding count_configs
  count_configs_keeps [] gs = refl
  count_configs_keeps (c ∷ cs) gs =
      count_configs_keeps cs (change_group add_child c.group gs)
      ∙ change_group_keeps view add_child up c.group gs

  pub add_child_at_keeps :
      (at : Option ℕ) (gs : List Group) → map view (add_child_at at gs) ≡ map view gs
  add_child_at_keeps none gs = refl
  add_child_at_keeps (some p) gs = change_group_keeps view add_child up p gs

  pub squash_keeps :
      ((g : Group) → view (remove_child g) ≡ view g)
      → (cs : List Profile) (gs : List Group) → map view (squash cs gs).1 ≡ map view gs
  unfolding squash
  squash_keeps down [] gs = refl
  squash_keeps down (c ∷ cs) gs = elim (Option-cases (squash_parent c (group_at gs c.group))) [
    | inl e ↦ rw (e, squash) (squash_keeps down cs gs)
    | inr (p, e) ↦
        rw (e, squash)
          (squash_keeps down cs (change_group remove_child c.group gs)
            ∙ change_group_keeps view remove_child down c.group gs)
  ]

count_groups-parents : (n i : ℕ) (gs : List Group) → parents (count_groups n i gs) ≡ parents gs
unfolding count_groups
count_groups-parents zero i gs = refl
count_groups-parents (suc n) i gs =
    let view : Group → Option ℕ = λ g. g.parent in
    let counted = add_child_at (parent_of (group_at gs i)) gs in
    count_groups-parents n (suc i) (change_group deactivated i counted)
    ∙ change_group_keeps view deactivated (λ g. refl) i counted
    ∙ add_child_at_keeps view (λ g. refl) (parent_of (group_at gs i)) gs

module _ (cs : List Profile) (gs : List Group) where
  pub counted-parents : parents (counted cs gs) ≡ parents gs
  unfolding counted
  counted-parents =
      let view : Group → Option ℕ = λ g. g.parent in
      let one = change_group activated 0 gs in
      let two = map without_children one in
      count_groups-parents (length gs - 1) 1 (count_configs cs two)
      ∙ count_configs_keeps view (λ g. refl) cs two
      ∙ map_keeps view without_children (λ g. refl) one
      ∙ change_group_keeps view activated (λ g. refl) 0 gs

pub length_of_parents : (gs hs : List Group) → parents gs ≡ parents hs → length gs ≡ length hs
length_of_parents gs hs e =
    sym (length-map (λ g. g.parent) gs) ∙ ap length e ∙ length-map (λ g. g.parent) hs

-- Squashing changes only the groups of the profiles, to groups that exist.
pub squash-key : (cs : List Profile) (gs : List Group) → map key (squash cs gs).0 ≡ map key cs
unfolding squash
squash-key [] gs = refl
squash-key (c ∷ cs) gs = elim (Option-cases (squash_parent c (group_at gs c.group))) [
  | inl e ↦ rw (e, squash) (ap (◌∷◌ (key c)) (squash-key cs gs))
  | inr (p, e) ↦
      rw (e, squash) (ap (◌∷◌ (key c)) (squash-key cs (change_group remove_child c.group gs)))
]

pub Below-group_at :
    (i j p : ℕ) (gs : List Group)
    → Parents i (parents gs)
    → parent_of (group_at gs j) ≡ some p
    → p < i + j
unfolding group_at
Below-group_at i j p [] h e = cc
Below-group_at i zero p (g ∷ gs) h e = let b = subst (Below i) e h.0 in omega (arith, b)
Below-group_at i (suc j) p (g ∷ gs) h e = omega (arith, Below-group_at (suc i) j p gs h.1 e)

squash_parent-parent_of :
    (c : Profile) (o : Option Group) (p : ℕ) → squash_parent c o ≡ some p → parent_of o ≡ some p
unfolding squash_parent
squash_parent-parent_of c none p e = cc
squash_parent-parent_of c (some g) p e = elim (Option-cases g.parent) [
  | inl k ↦ absurd ground arith
  | inr (q, k) ↦ ground arith
]

pub squash-HasGroup :
    (cs : List Profile) (gs : List Group)
    → Parents 0 (parents gs)
    → All (HasGroup (length gs)) cs
    → All (HasGroup (length gs)) (squash cs gs).0
unfolding squash
squash-HasGroup [] gs h k = tt
squash-HasGroup (c ∷ cs) gs h k = elim (Option-cases (squash_parent c (group_at gs c.group))) [
  | inl e ↦ rw (e, squash) (k.0, squash-HasGroup cs gs h k.1)
  | inr (p, e) ↦
      let next = change_group remove_child c.group gs in
      let same = change_group_keeps (λ g. g.parent) remove_child (λ g. refl) c.group gs in
      let many = length_of_parents next gs same in
      let below =
        Below-group_at 0 c.group p gs h (squash_parent-parent_of c (group_at gs c.group) p e) in
      let rest =
        squash-HasGroup cs next (subst (Parents 0) (sym same) h)
          (subst (λ n. All (HasGroup n) cs) (sym many) k.1) in
      rw (e, squash)
        (omega (arith, below, k.0), subst (λ n. All (HasGroup n) (squash cs next).0) many rest)
]

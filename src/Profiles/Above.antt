-- ===== src/Profiles/Above.antt =====
-- openvpn_config.c: the groups on the way to the root, and how the array of groups shows which are
-- active.
use openvpn_gui.Base.{
  ℕ, zero, suc, ◌<◌, ◌≡◌, ◌≢◌, refl, ap, Bool, true, false, Option, none, some, List, [], ◌∷◌, ◌⊎◌,
  inl, inr, arith, length,
}
use openvpn_gui.Profiles.{Profile, Group}
use openvpn_gui.Profiles.Keeps.{parents}
use openvpn_gui.Profiles.Tree.{actives}
use openvpn_gui.Profiles.Groups.{group_at, change_group, activated, deactivated, parent_of}

abbrev pub active_in : Option Group → Bool
active_in none = false
active_in (some g) = g.active

abbrev pub is_active : List Group → ℕ → Bool
is_active gs j = active_in (group_at gs j)

unfoldable pub parent_at : List (Option ℕ) → ℕ → Option ℕ
parent_at [] i = none
parent_at (p ∷ ps) zero = p
parent_at (p ∷ ps) (suc i) = parent_at ps i

-- The groups on the way from a group to the root, when `p` gives the parents.
pub data Above (p : ℕ → Option ℕ) : Option ℕ → ℕ → Type 0 where
  here : (i : ℕ) → Above p (some i) i
  up : (i j : ℕ) → Above p (p i) j → Above p (some i) j

-- The group stands on the way from the group of one of the profiles.
pub data Linked (p : ℕ → Option ℕ) (j : ℕ) : List Profile → Type 0 where
  first : (c : Profile) (cs : List Profile) → Above p (some c.group) j → Linked p j (c ∷ cs)
  later : (c : Profile) (cs : List Profile) → Linked p j cs → Linked p j (c ∷ cs)

pub parent_of-group_at :
    (gs : List Group) (i : ℕ) → parent_of (group_at gs i) ≡ parent_at (parents gs) i
unfolding group_at parent_at
parent_of-group_at [] i = refl
parent_of-group_at (g ∷ gs) zero = refl
parent_of-group_at (g ∷ gs) (suc i) = parent_of-group_at gs i

pub is_active_of_actives :
    (gs hs : List Group) → actives gs ≡ actives hs → (j : ℕ) → is_active gs j ≡ is_active hs j
unfolding group_at
is_active_of_actives [] [] e j = refl
is_active_of_actives [] (h ∷ hs) e j = absurd ground arith
is_active_of_actives (g ∷ gs) [] e j = absurd ground arith
is_active_of_actives (g ∷ gs) (h ∷ hs) e zero = ground arith
is_active_of_actives (g ∷ gs) (h ∷ hs) e (suc j) = is_active_of_actives gs hs (ground arith) j

pub is_active_in_range : (gs : List Group) (j : ℕ) → is_active gs j ≡ true → j < length gs
unfolding group_at
is_active_in_range [] j h = absurd ground arith
is_active_in_range (g ∷ gs) zero h = omega arith
is_active_in_range (g ∷ gs) (suc j) h = omega (arith, is_active_in_range gs j h)

pub activated_there :
    (gs : List Group) (i : ℕ) → i < length gs → is_active (change_group activated i gs) i ≡ true
unfolding group_at change_group
activated_there [] i h = absurd (omega arith)
activated_there (g ∷ gs) zero h = refl
activated_there (g ∷ gs) (suc i) h = activated_there gs i (omega arith)

pub activated_keeps :
    (gs : List Group) (i j : ℕ)
    → is_active gs j ≡ true
    → is_active (change_group activated i gs) j ≡ true
unfolding group_at change_group
activated_keeps [] i j h = h
activated_keeps (g ∷ gs) zero zero h = refl
activated_keeps (g ∷ gs) zero (suc j) h = h
activated_keeps (g ∷ gs) (suc i) zero h = h
activated_keeps (g ∷ gs) (suc i) (suc j) h = activated_keeps gs i j h

pub activated_only :
    (gs : List Group) (i j : ℕ)
    → is_active (change_group activated i gs) j ≡ true
    → (i ≡ j) ⊎ (is_active gs j ≡ true)
unfolding group_at change_group
activated_only [] i j h = inr h
activated_only (g ∷ gs) zero zero h = inl refl
activated_only (g ∷ gs) zero (suc j) h = inr h
activated_only (g ∷ gs) (suc i) zero h = inr h
activated_only (g ∷ gs) (suc i) (suc j) h = elim (activated_only gs i j h) [
  | inl e ↦ inl (ap suc e)
  | inr k ↦ inr k
]

pub deactivated_only :
    (gs : List Group) (i j : ℕ)
    → is_active (change_group deactivated i gs) j ≡ true
    → (i ≢ j) × (is_active gs j ≡ true)
unfolding group_at change_group
deactivated_only [] i j h = absurd ground arith
deactivated_only (g ∷ gs) zero zero h = absurd ground arith
deactivated_only (g ∷ gs) zero (suc j) h = (λ e. omega arith, h)
deactivated_only (g ∷ gs) (suc i) zero h = (λ e. omega arith, h)
deactivated_only (g ∷ gs) (suc i) (suc j) h =
    let ih = deactivated_only gs i j h in (λ e. ih.0 (omega arith), ih.1)

pub deactivated_keeps :
    (gs : List Group) (i j : ℕ)
    → j < i
    → is_active gs j ≡ true
    → is_active (change_group deactivated i gs) j ≡ true
unfolding group_at change_group
deactivated_keeps [] i j l h = h
deactivated_keeps (g ∷ gs) zero j l h = absurd (omega arith)
deactivated_keeps (g ∷ gs) (suc i) zero l h = h
deactivated_keeps (g ∷ gs) (suc i) (suc j) l h = deactivated_keeps gs i j (omega arith) h

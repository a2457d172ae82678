-- ===== src/Env/Order.antt =====
-- The order of env_set.c: lists sorted strictly by name, and look-up by name as their meaning.
use openvpn_gui.Base.{
  ◌≡◌, ◌≢◌, inl, inr, Ordering-cases, refl, sym, ◌∙◌, Option, none, some, List, [], ◌∷◌, Ordering,
  All, arith,
}
use openvpn_gui.Base.Text.{Text}
use openvpn_gui.Env.{Win, name_of, env_name_compare}

module _ (win : Win) where
  -- Every item of the list has a name above that of `x`.
  abbrev pub Below : Text → List Text → Type 0
  Below x items = All (λ y. env_name_compare win x y ≡ Ordering.lt) items

  abbrev pub IsSorted : List Text → Type 0
  IsSorted [] = Unit
  IsSorted (x ∷ items) = Below x items × IsSorted items

  -- No item of the list has a name below that of `x`.
  abbrev pub NotAbove : Text → List Text → Type 0
  NotAbove x items = All (λ y. env_name_compare win x y ≢ Ordering.gt) items

  -- Sorted by name, where several items may have one name.
  abbrev pub IsRising : List Text → Type 0
  IsRising [] = Unit
  IsRising (x ∷ items) = NotAbove x items × IsRising items

  -- The value of a name: the first item that has it.
  unfoldable pub lookup : Text → List Text → Option Text
  lookup name [] = none
  lookup name (item ∷ rest) =
      let later = lookup name rest in
      elim (env_name_compare win name item) [ Ordering.eq ↦ some item | _ ↦ later ]

  -- `some item` if the names agree, else `other`.
  abbrev pub if_same : Text → Text → Option Text → Option Text → Option Text
  if_same a b same other = elim (env_name_compare win a b) [ Ordering.eq ↦ same | _ ↦ other ]

  pub lt_gt :
      (a b : Text) → env_name_compare win a b ≡ Ordering.lt → env_name_compare win b a ≡ Ordering.gt
  unfolding env_name_compare
  lt_gt a b h = win.compare_swap_lt (name_of a) (name_of b) h

  pub gt_lt :
      (a b : Text) → env_name_compare win a b ≡ Ordering.gt → env_name_compare win b a ≡ Ordering.lt
  unfolding env_name_compare
  gt_lt a b h = win.compare_swap_gt (name_of a) (name_of b) h

  pub compare_refl : (a : Text) → env_name_compare win a a ≡ Ordering.eq
  unfolding env_name_compare
  compare_refl a = win.compare_refl (name_of a)

  pub lt_trans :
      (a b c : Text)
      → env_name_compare win a b ≡ Ordering.lt
      → env_name_compare win b c ≡ Ordering.lt
      → env_name_compare win a c ≡ Ordering.lt
  unfolding env_name_compare
  lt_trans a b c h k = win.compare_trans (name_of a) (name_of b) (name_of c) h k

  -- Items with one name compare alike.
  pub congr :
      (a b c : Text)
      → env_name_compare win a b ≡ Ordering.eq
      → env_name_compare win a c ≡ env_name_compare win b c
  unfolding env_name_compare
  congr a b c h = win.compare_congr (name_of a) (name_of b) (name_of c) h

  pub eq_symm :
      (a b : Text) → env_name_compare win a b ≡ Ordering.eq → env_name_compare win b a ≡ Ordering.eq
  eq_symm a b h = sym (congr a b a h) ∙ compare_refl a

  pub congr_right :
      (a b c : Text)
      → env_name_compare win b c ≡ Ordering.eq
      → env_name_compare win a b ≡ env_name_compare win a c
  congr_right a b c h = ground (
    arith,
    congr b c a h,
    lt_gt a b,
    gt_lt a b,
    lt_gt a c,
    gt_lt a c,
    eq_symm a b,
    eq_symm a c,
    lt_gt b a,
    lt_gt c a,
    gt_lt b a,
    gt_lt c a,
    eq_symm b a,
    eq_symm c a,
  )

  pub Below-trans :
      (a b : Text) (items : List Text)
      → env_name_compare win a b ≡ Ordering.lt
      → Below b items
      → Below a items
  Below-trans a b [] h k = tt
  Below-trans a b (x ∷ items) h k = (lt_trans a b x h k.0, Below-trans a b items h k.1)

  pub Below-congr :
      (a b : Text) (items : List Text)
      → env_name_compare win a b ≡ Ordering.eq
      → Below b items
      → Below a items
  Below-congr a b [] h k = tt
  Below-congr a b (x ∷ items) h k = (congr a b x h ∙ k.0, Below-congr a b items h k.1)

  -- A name below every item has no value.
  pub lookup-Below : (a : Text) (items : List Text) → Below a items → lookup a items ≡ none
  unfolding lookup
  lookup-Below a [] h = refl
  lookup-Below a (x ∷ items) h = ground (arith, lookup-Below a items h.1)

  pub lookup-congr :
      (a b : Text) (items : List Text)
      → env_name_compare win a b ≡ Ordering.eq
      → lookup a items ≡ lookup b items
  unfolding lookup
  lookup-congr a b [] h = refl
  lookup-congr a b (x ∷ items) h = ground (arith, congr a b x h, lookup-congr a b items h)

  lt_le_trans :
      (a b c : Text)
      → env_name_compare win a b ≡ Ordering.lt
      → env_name_compare win b c ≢ Ordering.gt
      → env_name_compare win a c ≢ Ordering.gt
  lt_le_trans a b c h k = elim (Ordering-cases (env_name_compare win b c)) [
    | inl e ↦ λ g. absurd (cc (lt_trans a b c h e, g))
    | inr (inl e) ↦ λ g. absurd (cc (congr_right a b c e, h, g))
    | inr (inr e) ↦ absurd (k e)
  ]

  pub NotAbove-trans :
      (a b : Text) (items : List Text)
      → env_name_compare win a b ≡ Ordering.lt
      → NotAbove b items
      → NotAbove a items
  NotAbove-trans a b [] h k = tt
  NotAbove-trans a b (x ∷ items) h k = (lt_le_trans a b x h k.0, NotAbove-trans a b items h k.1)

  pub NotAbove-congr :
      (a b : Text) (items : List Text)
      → env_name_compare win a b ≡ Ordering.eq
      → NotAbove b items
      → NotAbove a items
  NotAbove-congr a b [] h k = tt
  NotAbove-congr a b (x ∷ items) h k =
      (λ g. k.0 (sym (congr a b x h) ∙ g), NotAbove-congr a b items h k.1)

  pub NotAbove-Below : (a : Text) (items : List Text) → Below a items → NotAbove a items
  NotAbove-Below a [] h = tt
  NotAbove-Below a (x ∷ items) h = (λ g. absurd (cc (h.0, g)), NotAbove-Below a items h.1)

  pub IsRising-IsSorted : (items : List Text) → IsSorted items → IsRising items
  IsRising-IsSorted [] h = tt
  IsRising-IsSorted (x ∷ items) h = (NotAbove-Below x items h.0, IsRising-IsSorted items h.1)

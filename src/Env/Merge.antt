-- ===== src/Env/Merge.antt =====
-- env_set.c: `merge_env_block`, the merge of a connection's variables into the process's.
use openvpn_gui.Base.{
  ◌+◌, ◌≤◌, ◌≡◌, refl, Option, none, some, true, List, [], ◌∷◌, Ordering, arith, length,
  length-append, inl, inr, Ordering-cases,
}
use openvpn_gui.Base.Text.{Text}
use openvpn_gui.Env.{
  Win, env_name_compare, merge_items, strings, strings_len, block, merge_len, merge_env_block,
}
use openvpn_gui.Env.Order.{
  Below, IsSorted, lookup, gt_lt, congr_right, Below-trans, Below-congr, lookup-Below, NotAbove,
  IsRising, NotAbove-trans, NotAbove-congr, IsRising-IsSorted,
}

-- The first value, if there is one, else the second.
abbrev pub or_else : Option Text → Option Text → Option Text
or_else (some a) b = some a
or_else none b = b

module _ (win : Win) where
  Below-merge_items :
      (x : Text) (items process : List Text)
      → Below win x items
      → Below win x process
      → Below win x (merge_items win items process)
  unfolding merge_items
  Below-merge_items x [] process h k = k
  Below-merge_items x (i ∷ items) [] h k = h
  Below-merge_items x (i ∷ items) (p ∷ process) h k = ground (
    arith,
    Below-merge_items x items (p ∷ process) h.1 k,
    Below-merge_items x items process h.1 k.1,
    Below-merge_items x (i ∷ items) process h k.1,
  )

  pub merge_items-IsSorted :
      (items process : List Text)
      → IsSorted win items
      → IsSorted win process
      → IsSorted win (merge_items win items process)
  unfolding merge_items
  merge_items-IsSorted [] process h k = k
  merge_items-IsSorted (i ∷ items) [] h k = h
  merge_items-IsSorted (i ∷ items) (p ∷ process) h k = ground (
    arith,
    merge_items-IsSorted items (p ∷ process) h.1 k,
    merge_items-IsSorted items process h.1 k.1,
    merge_items-IsSorted (i ∷ items) process h k.1,
    Below-merge_items i items (p ∷ process) h.0,
    Below-merge_items i items process h.0,
    Below-merge_items p (i ∷ items) process,
    Below-trans win i p process,
    Below-congr win i p process,
    Below-trans win p i items,
    gt_lt win i p,
  )

  NotAbove-merge_items :
      (x : Text) (items process : List Text)
      → NotAbove win x items
      → NotAbove win x process
      → NotAbove win x (merge_items win items process)
  unfolding merge_items
  NotAbove-merge_items x [] process h k = k
  NotAbove-merge_items x (i ∷ items) [] h k = h
  NotAbove-merge_items x (i ∷ items) (p ∷ process) h k =
      elim (Ordering-cases (env_name_compare win i p)) [
        | inl e ↦ rw (e, merge_items) (h.0, NotAbove-merge_items x items (p ∷ process) h.1 k)
        | inr (inl e) ↦ rw (e, merge_items) (h.0, NotAbove-merge_items x items process h.1 k.1)
        | inr (inr e) ↦ rw (e, merge_items) (k.0, NotAbove-merge_items x (i ∷ items) process h k.1)
      ]

  lt-NotAbove :
      (a b : Text) (items : List Text)
      → env_name_compare win a b ≡ Ordering.lt
      → NotAbove win b items
      → NotAbove win a (b ∷ items)
  lt-NotAbove a b items h k = (λ g. absurd (cc (h, g)), NotAbove-trans win a b items h k)

  pub merge_items-IsRising :
      (items process : List Text)
      → IsRising win items
      → IsRising win process
      → IsRising win (merge_items win items process)
  unfolding merge_items
  merge_items-IsRising [] process h k = k
  merge_items-IsRising (i ∷ items) [] h k = h
  merge_items-IsRising (i ∷ items) (p ∷ process) h k =
      elim (Ordering-cases (env_name_compare win i p)) [
        | inl e ↦
            rw (e, merge_items)
              (
                NotAbove-merge_items i items (p ∷ process) h.0 (lt-NotAbove i p process e k.0),
                merge_items-IsRising items (p ∷ process) h.1 k,
              )
        | inr (inl e) ↦
            rw (e, merge_items)
              (
                NotAbove-merge_items i items process h.0 (NotAbove-congr win i p process e k.0),
                merge_items-IsRising items process h.1 k.1,
              )
        | inr (inr e) ↦
            rw (e, merge_items)
              (
                NotAbove-merge_items p (i ∷ items) process
                    (lt-NotAbove p i items (gt_lt win i p e) h.0) k.0,
                merge_items-IsRising (i ∷ items) process h k.1,
              )
      ]

  -- An entry of the connection's list goes in front.
  lookup_ours :
      (name i : Text) (items merged : List Text) (rest : Option Text)
      → lookup win name merged ≡ or_else (lookup win name items) rest
      → lookup win name (i ∷ merged) ≡ or_else (lookup win name (i ∷ items)) rest
  unfolding lookup
  lookup_ours name i items merged rest h = ground arith

  -- One that takes the place of the process's entry of the same name.
  lookup_both :
      (name i p : Text) (items process merged : List Text)
      → env_name_compare win i p ≡ Ordering.eq
      → lookup win name merged ≡ or_else (lookup win name items) (lookup win name process)
      → lookup win name (i ∷ merged)
        ≡ or_else (lookup win name (i ∷ items)) (lookup win name (p ∷ process))
  unfolding lookup
  lookup_both name i p items process merged e h = ground (arith, congr_right win name i p e)

  -- An entry of the process goes in front: the connection's list has no such name.
  lookup_theirs :
      (name p : Text) (ours process merged : List Text)
      → Below win p ours
      → lookup win name merged ≡ or_else (lookup win name ours) (lookup win name process)
      → lookup win name (p ∷ merged)
        ≡ or_else (lookup win name ours) (lookup win name (p ∷ process))
  unfolding lookup
  lookup_theirs name p ours process merged below h =
      ground (arith, lookup-Below win name ours, Below-congr win name p ours)

  pub lookup-merge_items :
      (name : Text) (items process : List Text)
      → IsSorted win items
      → lookup win name (merge_items win items process)
        ≡ or_else (lookup win name items) (lookup win name process)
  unfolding merge_items
  lookup-merge_items name [] process h = unfold lookup in refl
  lookup-merge_items name (i ∷ items) [] h =
      lookup_ours name i items items (lookup win name []) (lookup_end items)
    where
      lookup_end :
          (l : List Text) → lookup win name l ≡ or_else (lookup win name l) (lookup win name [])
      lookup_end l = unfold lookup in ground arith
  lookup-merge_items name (i ∷ items) (p ∷ process) (below, sorted) =
      elim (Ordering-cases (env_name_compare win i p)) [
        | inl e ↦
            rw (e, merge_items)
              (lookup_ours name i items _ _ (lookup-merge_items name items (p ∷ process) sorted))
        | inr (inl e) ↦
            rw (e, merge_items)
              (lookup_both name i p items process _ e
                (lookup-merge_items name items process sorted))
        | inr (inr e) ↦
            let lower = gt_lt win i p e in
            rw (e, merge_items)
              (lookup_theirs name p (i ∷ items) process _
                (lower, Below-trans win p i items lower below)
                (lookup-merge_items name (i ∷ items) process (below, sorted)))
      ]

length-strings : (entries : List Text) → length (strings entries) ≡ strings_len entries
unfolding strings strings_len
length-strings [] = refl
length-strings (s ∷ entries) =
    omega (arith, length-append s (0 ∷ strings entries), length-strings entries)

merge_items_len :
    (win : Win) (items process : List Text)
    → strings_len (merge_items win items process) ≤ strings_len items + strings_len process
unfolding merge_items strings_len
merge_items_len win [] process = ground arith
merge_items_len win (i ∷ items) [] = ground arith
merge_items_len win (i ∷ items) (p ∷ process) = ground (
  arith,
  merge_items_len win items (p ∷ process),
  merge_items_len win items process,
  merge_items_len win (i ∷ items) process,
)

-- What `merge_env_block` writes, with the NUL of every entry and the NUL at the end, fits in the
-- buffer that it allocates.
pub merge_env_block_fits :
    (win : Win) (items process : List Text) {env : Text}
    → merge_env_block win true (some process) items ≡ some env
    → length env ≤ merge_len process items
unfolding merge_env_block merge_len
merge_env_block_fits win items process h = ground (
  arith,
  merge_items_len win items process,
  length-strings (merge_items win items process),
  length-append (strings (merge_items win items process)) (0 ∷ []),
)

-- With memory and an environment of the process, when the connection's items are strictly sorted by name, as `env_item_insert` keeps them, and the
-- strings of the process are sorted by name, where several may have one name (as those that begin with
-- '=' have), the block that `merge_env_block` returns lists entries sorted by name. A look-up of a name in them
-- gives the connection's item, and where it has none, the first string of the process with the name.
pub merge_env_block_lem :
    (win : Win) (items process : List Text)
    → IsSorted win items
    → IsRising win process
    → (entries : List Text) × (merge_env_block win true (some process) items ≡ some (block entries))
      × IsRising win entries
      × ((name : Text)
          → lookup win name entries ≡ or_else (lookup win name items) (lookup win name process))
unfolding merge_env_block
merge_env_block_lem win items process h k = (
  merge_items win items process,
  refl,
  merge_items-IsRising win items process (IsRising-IsSorted win items h) k,
  λ name. lookup-merge_items win name items process h,
)

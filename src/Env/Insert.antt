-- ===== src/Env/Insert.antt =====
-- env_set.c: insertion and deletion of one item.
use openvpn_gui.Base.{◌≡◌, refl, Option, none, some, List, [], ◌∷◌, Ordering, arith}
use openvpn_gui.Base.Text.{Text}
use openvpn_gui.Env.{Win, env_name_compare, del_first, env_item_del, env_item_insert}
use openvpn_gui.Env.Order.{
  Below, IsSorted, lookup, if_same, gt_lt, congr, congr_right, eq_symm, Below-trans, Below-congr,
  lookup-Below,
}

module _ (win : Win) where
  Below-env_item_insert :
      (x item : Text) (items : List Text)
      → env_name_compare win x item ≡ Ordering.lt
      → Below win x items
      → Below win x (env_item_insert win items item)
  unfolding env_item_insert
  Below-env_item_insert x item [] h k = (h, tt)
  Below-env_item_insert x item (y ∷ items) h k =
      ground (arith, Below-env_item_insert x item items h k.1)

  -- Inserting an item into a list that is sorted strictly by name gives such a list again.
  pub env_item_insert-IsSorted :
      (items : List Text) (item : Text)
      → IsSorted win items
      → IsSorted win (env_item_insert win items item)
  unfolding env_item_insert
  env_item_insert-IsSorted [] item h = (tt, tt)
  env_item_insert-IsSorted (y ∷ items) item (below, sorted) = ground (
    arith,
    Below-trans win item y items,
    Below-congr win item y items,
    gt_lt win item y,
    Below-env_item_insert y item items,
    env_item_insert-IsSorted items item sorted,
  )

  -- After an insertion the item's name has the item as its value, and every other name has the
  -- value that it had.
  pub lookup-env_item_insert :
      (name item : Text) (items : List Text)
      → lookup win name (env_item_insert win items item)
        ≡ if_same win name item (some item) (lookup win name items)
  unfolding lookup env_item_insert
  lookup-env_item_insert name item [] = refl
  lookup-env_item_insert name item (y ∷ items) = ground (
    arith,
    congr_right win name item y,
    lookup-env_item_insert name item items,
    eq_symm win name item,
    congr win name item y,
  )

  -- A deletion keeps the order.
  Below-del_first :
      (x name : Text) (items : List Text)
      → Below win x items
      → Below win x (del_first win name items)
  unfolding del_first
  Below-del_first x name [] h = tt
  Below-del_first x name (y ∷ items) h = ground (arith, Below-del_first x name items h.1)

  del_first-IsSorted :
      (name : Text) (items : List Text)
      → IsSorted win items
      → IsSorted win (del_first win name items)
  unfolding del_first
  del_first-IsSorted name [] h = tt
  del_first-IsSorted name (y ∷ items) (below, sorted) =
      ground (arith, Below-del_first y name items below, del_first-IsSorted name items sorted)

  pub env_item_del-IsSorted :
      (items : List Text) (name : Option Text)
      → IsSorted win items
      → IsSorted win (env_item_del win items name)
  unfolding env_item_del
  env_item_del-IsSorted items none h = h
  env_item_del-IsSorted items (some name) h = del_first-IsSorted name items h

  lookup-del_first :
      (name deleted : Text) (items : List Text)
      → IsSorted win items
      → lookup win name (del_first win deleted items)
        ≡ if_same win name deleted none (lookup win name items)
  unfolding lookup del_first
  lookup-del_first name deleted [] h = ground arith
  lookup-del_first name deleted (y ∷ items) (below, sorted) = ground (
    arith,
    congr_right win name deleted y,
    lookup-del_first name deleted items sorted,
    congr win name deleted y,
    lookup-Below win name items,
    Below-congr win name y items,
  )

  -- In a sorted list a deletion takes away the value of the name given, which has none afterwards,
  -- and of no other name.
  pub lookup-env_item_del :
      (name deleted : Text) (items : List Text)
      → IsSorted win items
      → lookup win name (env_item_del win items (some deleted))
        ≡ if_same win name deleted none (lookup win name items)
  unfolding env_item_del
  lookup-env_item_del = lookup-del_first

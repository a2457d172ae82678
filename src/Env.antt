-- ===== src/Env.antt =====
-- env_set.c: the list of environment variables that a connection adds to the processes it starts.
-- `struct env_item` is its `nameval`, a wide string "name=value", and the linked list is a `List`.
-- A list that C changes in place is returned anew. The Windows calls are the record `Win`:
-- `CompareStringOrdinal` and `Widen`, which converts UTF-8 to a wide string and returns NULL when
-- memory runs out. An allocation of the file itself is a Boolean argument, false where it fails.
pub mod Order
pub mod Insert
pub mod Merge
pub mod Setenv
pub mod Assign
use openvpn_gui.Base.{
  ℕ, ◌+◌, Bool, true, false, ◌&&◌, ◌||◌, Option, none, some, List, [], ◌∷◌, ◌++◌, ◌≡◌, Ordering,
  leb, ◌==◌, if◌then◌else◌, length, drop, All, ◌<◌,
}
use openvpn_gui.Base.Text.{Text, codes, strbegins, contains, before, after?, skip_while}

-- `CompareStringOrdinal` with `ignore_case` as a total preorder (its results 1, 2, 3 less 2 are
-- `lt`, `eq`, `gt`), and `Widen`, which keeps leading ASCII characters.
pub record Win : Type 0 where
  pub compare_ordinal : Text → Text → Ordering
  pub compare_refl : (a : Text) → compare_ordinal a a ≡ Ordering.eq
  pub compare_swap_lt :
      (a b : Text) → compare_ordinal a b ≡ Ordering.lt → compare_ordinal b a ≡ Ordering.gt
  pub compare_swap_gt :
      (a b : Text) → compare_ordinal a b ≡ Ordering.gt → compare_ordinal b a ≡ Ordering.lt
  pub compare_trans :
      (a b c : Text)
      → compare_ordinal a b ≡ Ordering.lt
      → compare_ordinal b c ≡ Ordering.lt
      → compare_ordinal a c ≡ Ordering.lt
  pub compare_congr :
      (a b c : Text) → compare_ordinal a b ≡ Ordering.eq → compare_ordinal a c ≡ compare_ordinal b c
  pub widen : Text → Option Text
  pub widen_ascii :
      (a s w : Text) → All (λ c. c < 128) a → widen (a ++ s) ≡ some w → (v : Text) × (w ≡ a ++ v)

-- `isalnum` in the "C" locale, which the program never leaves.
abbrev pub is_alnum : ℕ → Bool
is_alnum c = (leb b'0' c && leb c b'9') || (leb b'A' c && leb c b'Z') || (leb b'a' c && leb c b'z')

-- The loop of `is_valid_env_name`.
unfoldable pub all_name_chars : Text → Bool
all_name_chars [] = true
all_name_chars (c ∷ name) = (is_alnum c || c == b'_') && all_name_chars name

unfoldable pub is_valid_env_name : Text → Bool
is_valid_env_name [] = false
is_valid_env_name (c ∷ name) = all_name_chars (c ∷ name)

-- The part of "name=value" that is compared: all of it where '=' is missing.
abbrev pub name_of : Text → Text
name_of nameval = before b'=' nameval

module _ (win : Win) where
  unfoldable pub env_name_compare : Text → Text → Ordering
  env_name_compare nameval1 nameval2 = win.compare_ordinal (name_of nameval1) (name_of nameval2)

  -- The loop of `env_item_del`: the first match is unlinked.
  unfoldable pub del_first : Text → List Text → List Text
  del_first name [] = []
  del_first name (item ∷ rest) =
      let kept = item ∷ del_first name rest in
      elim (env_name_compare name item) [ Ordering.eq ↦ rest | _ ↦ kept ]

  -- `none` is a NULL name.
  unfoldable pub env_item_del : List Text → Option Text → List Text
  env_item_del head none = head
  env_item_del head (some name) = del_first name head

  unfoldable pub env_item_insert : List Text → Text → List Text
  env_item_insert [] item = item ∷ []
  env_item_insert (tmp ∷ rest) item =
      let later = tmp ∷ env_item_insert rest item in
      elim (env_name_compare item tmp) [
        | Ordering.lt ↦ item ∷ tmp ∷ rest
        | Ordering.eq ↦ item ∷ rest
        | Ordering.gt ↦ later
      ]

  -- `none` is NULL: no memory for the item, or for its wide string.
  unfoldable pub env_item_new_utf8 : Bool → Text → Option Text
  env_item_new_utf8 memory nameval = if memory then win.widen nameval else none

  abbrev pub insert_new : List Text → Option Text → List Text
  insert_new head none = head
  insert_new head (some item) = env_item_insert head item

  unfoldable pub env_item_insert_utf8 : Bool → List Text → Text → List Text
  unfolding env_item_new_utf8
  env_item_insert_utf8 memory head nameval = insert_new head (env_item_new_utf8 memory nameval)

  unfoldable pub env_item_del_utf8 : List Text → Text → List Text
  unfolding env_item_del
  env_item_del_utf8 head name = env_item_del head (win.widen name)

  -- The three loops of `merge_env_block` that copy the entries: while both lists have some, then
  -- the rest of the one that is left.
  unfoldable pub merge_items : List Text → List Text → List Text
  merge_items [] process = process
  merge_items (item ∷ items) [] = item ∷ items
  merge_items (item ∷ items) (pe ∷ process) =
      let ours = item ∷ merge_items items (pe ∷ process) in
      let both = item ∷ merge_items items process in
      let theirs = pe ∷ merge_items (item ∷ items) process in
      elim (env_name_compare item pe) [
        | Ordering.lt ↦ ours
        | Ordering.eq ↦ both
        | Ordering.gt ↦ theirs
      ]

-- Strings as they lie in an environment block, each with its NUL.
unfoldable pub strings : List Text → Text
strings [] = []
strings (s ∷ rest) = s ++ (0 ∷ strings rest)

abbrev pub block : List Text → Text
block entries = strings entries ++ 0 ∷ []

-- The sum of `wcslen(s) + 1`.
unfoldable pub strings_len : List Text → ℕ
strings_len [] = 0
strings_len (s ∷ rest) = length s + 1 + strings_len rest

-- The number of wide characters that `merge_env_block` allocates.
unfoldable pub merge_len : List Text → List Text → ℕ
unfolding strings_len
merge_len process items = strings_len process + 1 + strings_len items

-- What `GetEnvironmentStringsW` returns is an argument, `none` where it is NULL.
unfoldable pub merge_env_block : Win → Bool → Option (List Text) → List Text → Option Text
unfolding merge_items strings
merge_env_block win memory none items = none
merge_env_block win false (some process) items = none
merge_env_block win true (some process) items = some (block (merge_items win items process))

-- What `process_setenv` writes to the status log.
pub data SetenvError : Type 0 where
  name_empty out_of_memory illegal_name : SetenvError

abbrev pub prefix : Text
prefix = codes "OPENVPN_"

abbrev pub is_space : ℕ → Bool
is_space c = c == b' ' || c == b'\t'

-- The part behind the allocation of `nameval`, on what `strchr(nameval, ' ')` finds.
unfoldable pub set_or_delete :
    Win → Bool → List Text → Text → Option Text → List Text × Option SetenvError
unfolding is_valid_env_name env_item_insert_utf8 env_item_del_utf8
set_or_delete win memory es nameval (some value) =
    let name = before b' ' nameval in
    if is_valid_env_name name
    then (env_item_insert_utf8 win memory es (name ++ (b'=' ∷ value)), none)
    else (es, some illegal_name)
set_or_delete win memory es nameval none =
    if is_valid_env_name nameval then (env_item_del_utf8 win es nameval, none) else (es, none)

-- On the text behind "setenv " and its blanks; the first flag is the allocation of `nameval`.
unfoldable pub setenv_args : Win → Bool → Bool → List Text → Text → List Text × Option SetenvError
unfolding set_or_delete
setenv_args win alloc memory es [] = (es, some name_empty)
setenv_args win alloc memory es (c ∷ msg) =
    let nameval = prefix ++ c ∷ msg in
    if alloc
    then set_or_delete win memory es nameval (after? b' ' nameval)
    else (es, some out_of_memory)

unfoldable pub process_setenv :
    Win → Bool → Bool → List Text → Text → List Text × Option SetenvError
unfolding setenv_args
process_setenv win alloc memory es msg =
    if strbegins msg (codes "setenv ")
    then setenv_args win alloc memory es (skip_while is_space (drop 7 msg))
    else (es, none)

-- ===== src/Env/Setenv.antt =====
-- env_set.c: what `process_setenv` may do to a connection's variables.
use mathlib.Core.List.{append_assoc}
use openvpn_gui.Base.{
  ℕ, ◌<◌, ◌≡◌, refl, sym, Option, none, some, true, false, Bool, List, [], ◌∷◌, ◌++◌, Ordering, All,
  arith, inl, inr, Bool-cases, ◌==◌, ◌||◌,
}
use openvpn_gui.Base.Text.{Text, codes, before, after?, strbegins, contains, before-append}
use openvpn_gui.Env.{
  Win, prefix, name_of, env_name_compare, env_item_insert, del_first, env_item_del, is_alnum,
  insert_new, env_item_insert_utf8, is_valid_env_name, all_name_chars, set_or_delete, SetenvError,
  setenv_args, process_setenv,
}
use openvpn_gui.Env.Order.{IsSorted}
use openvpn_gui.Env.Insert.{env_item_insert-IsSorted, env_item_del-IsSorted}

-- The name of the item begins with "OPENVPN_" and has letters, digits and '_' only.
pub record IsOurs (item : Text) : Type 0 where
  pub prefixed : strbegins (name_of item) prefix ≡ true
  pub valid : is_valid_env_name (name_of item) ≡ true

all_name_chars-ascii :
    (name : Text) → all_name_chars name ≡ true → All (λ c. c < 128) (name ++ b'=' ∷ [])
unfolding all_name_chars
all_name_chars-ascii [] h = omega arith
all_name_chars-ascii (c ∷ name) h = (ground arith, all_name_chars-ascii name (ground arith))

pub all_name_chars-no :
    (d : ℕ) (name : Text)
    → (is_alnum d || d == b'_') ≡ false
    → all_name_chars name ≡ true
    → contains name d ≡ false
unfolding all_name_chars contains
all_name_chars-no d [] e h = refl
all_name_chars-no d (c ∷ name) e h = ground (arith, all_name_chars-no d name e)

valid-chars : (name : Text) → is_valid_env_name name ≡ true → all_name_chars name ≡ true
unfolding is_valid_env_name
valid-chars [] h = cc
valid-chars (c ∷ name) h = h

module _ (win : Win) where
  -- Widening keeps the name that the item is found by.
  pub name_of-widen :
      (name value w : Text)
      → all_name_chars name ≡ true
      → win.widen (name ++ (b'=' ∷ value)) ≡ some w
      → name_of w ≡ name
  name_of-widen name value w h e =
      let split = append_assoc name (b'=' ∷ []) value in
      let (v, at) =
        win.widen_ascii (name ++ b'=' ∷ []) value w (all_name_chars-ascii name h) (rw split e) in
      rw at (
        rw (append_assoc name (b'=' ∷ []) v)
          (before-append b'=' name v (all_name_chars-no b'=' name refl h)))

  All-env_item_insert :
      (item : Text) (items : List Text)
      → IsOurs item
      → All IsOurs items
      → All IsOurs (env_item_insert win items item)
  unfolding env_item_insert
  All-env_item_insert item [] h k = (h, tt)
  All-env_item_insert item (y ∷ items) h (first, k) =
      elim (env_name_compare win item y)
        as (λ o. All IsOurs (elim o [
          | Ordering.lt ↦ item ∷ y ∷ items
          | Ordering.eq ↦ item ∷ items
          | Ordering.gt ↦ y ∷ env_item_insert win items item
        ])) [
          | Ordering.lt ↦ (h, (first, k))
          | Ordering.eq ↦ (h, k)
          | Ordering.gt ↦ (first, All-env_item_insert item items h k)
        ]

  All-del_first :
      (name : Text) (items : List Text) → All IsOurs items → All IsOurs (del_first win name items)
  unfolding del_first
  All-del_first name [] k = tt
  All-del_first name (y ∷ items) (first, k) =
      elim (env_name_compare win name y)
        as (λ o. All IsOurs (elim o [ Ordering.eq ↦ items | _ ↦ y ∷ del_first win name items ])) [
          | Ordering.eq ↦ k
          | _ ↦ (first, All-del_first name items k)
        ]

  insert_new-keeps :
      (name value : Text) (es : List Text) (made : Option Text)
      → strbegins name prefix ≡ true
      → is_valid_env_name name ≡ true
      → made ≡ win.widen (name ++ (b'=' ∷ value))
      → IsSorted win es
      → All IsOurs es
      → IsSorted win (insert_new win es made) × All IsOurs (insert_new win es made)
  insert_new-keeps name value es none p v e h k = (h, k)
  insert_new-keeps name value es (some w) p v e h k =
      let n = name_of-widen name value w (valid-chars name v) (sym e) in
      (
        env_item_insert-IsSorted win es w h,
        All-env_item_insert w es (record { prefixed = rw n p; valid = rw n v }) k,
      )

  delete-keeps :
      (es : List Text) (name : Option Text)
      → IsSorted win es
      → All IsOurs es
      → IsSorted win (env_item_del win es name) × All IsOurs (env_item_del win es name)
  delete-keeps es none h k = (env_item_del-IsSorted win es none h, unfold env_item_del in k)
  delete-keeps es (some name) h k =
      (env_item_del-IsSorted win es (some name) h, unfold env_item_del in All-del_first name es k)

  abbrev Keeps : List Text → Type 0
  Keeps es = IsSorted win es × All IsOurs es

  insert_utf8-Keeps :
      (memory : Bool) (name value : Text) (es : List Text)
      → strbegins name prefix ≡ true
      → is_valid_env_name name ≡ true
      → Keeps es
      → Keeps (env_item_insert_utf8 win memory es (name ++ (b'=' ∷ value)))
  unfolding env_item_insert_utf8
  insert_utf8-Keeps true name value es p v (h, k) = insert_new-keeps name value es _ p v refl h k
  insert_utf8-Keeps false name value es p v h = h

  before-prefix : (args : Text) → strbegins (before b' ' (prefix ++ args)) prefix ≡ true
  unfolding before strbegins
  before-prefix args = refl

  set_or_delete-Keeps :
      (memory : Bool) (es : List Text) (args : Text) (value : Option Text)
      → Keeps es
      → Keeps (set_or_delete win memory es (prefix ++ args) value).0
  unfolding set_or_delete
  set_or_delete-Keeps memory es args (some value) h =
      elim (Bool-cases (is_valid_env_name (before b' ' (prefix ++ args)))) [
        | inl valid ↦ rw valid (
            insert_utf8-Keeps memory (before b' ' (prefix ++ args)) value es (before-prefix args)
              valid h)
        | inr bad ↦ rw bad h
      ]
  set_or_delete-Keeps memory es args none h =
      elim (Bool-cases (is_valid_env_name (prefix ++ args))) [
        | inl valid ↦ rw valid (delete-keeps es (win.widen (prefix ++ args)) h.0 h.1)
        | inr bad ↦ rw bad h
      ]

  setenv_args-Keeps :
      (alloc memory : Bool) (es : List Text) (args : Text)
      → Keeps es
      → Keeps (setenv_args win alloc memory es args).0
  unfolding setenv_args
  setenv_args-Keeps alloc memory es [] h = h
  setenv_args-Keeps true memory es (c ∷ args) h =
      set_or_delete-Keeps memory es (c ∷ args) (after? b' ' (prefix ++ c ∷ args)) h
  setenv_args-Keeps false memory es (c ∷ args) h = h

  -- Whatever the daemon asks for, and whether memory runs out or not, the list stays sorted, and
  -- holds only variables whose names begin with "OPENVPN_" and have letters, digits and '_' only.
  pub process_setenv-IsOurs :
      (alloc memory : Bool) (es : List Text) (msg : Text)
      → IsSorted win es
      → All IsOurs es
      → IsSorted win (process_setenv win alloc memory es msg).0
        × All IsOurs (process_setenv win alloc memory es msg).0
  unfolding process_setenv
  process_setenv-IsOurs alloc memory es msg h k =
      elim (Bool-cases (strbegins msg (codes "setenv "))) [
        | inl ours ↦ rw ours (setenv_args-Keeps alloc memory es _ (h, k))
        | inr other ↦ rw other (h, k)
      ]

  set_or_delete_error :
      (memory : Bool) (es : List Text) (nameval : Text) (value : Option Text) {why : SetenvError}
      → (set_or_delete win memory es nameval value).1 ≡ some why
      → (set_or_delete win memory es nameval value).0 ≡ es
  unfolding set_or_delete
  set_or_delete_error memory es nameval value h = ground arith

  setenv_args_error :
      (alloc memory : Bool) (es : List Text) (args : Text) {why : SetenvError}
      → (setenv_args win alloc memory es args).1 ≡ some why
      → (setenv_args win alloc memory es args).0 ≡ es
  unfolding setenv_args
  setenv_args_error alloc memory es [] h = refl
  setenv_args_error true memory es (c ∷ args) h =
      set_or_delete_error memory es (prefix ++ c ∷ args) (after? b' ' (prefix ++ c ∷ args)) h
  setenv_args_error false memory es (c ∷ args) h = refl

  -- Where the status log gets an error, the list is as it was.
  pub process_setenv_error :
      (alloc memory : Bool) (es : List Text) (msg : Text) {why : SetenvError}
      → (process_setenv win alloc memory es msg).1 ≡ some why
      → (process_setenv win alloc memory es msg).0 ≡ es
  unfolding process_setenv
  process_setenv_error alloc memory es msg h = grind (arith, setenv_args_error)

-- ===== src/Env/Assign.antt =====
-- env_set.c: "setenv NAME VALUE" and "setenv NAME" as assignment and deletion of a variable.
use openvpn_gui.Base.{ℕ, ◌≡◌, refl, ap, none, some, true, false, List, ◌∷◌, ◌++◌, arith}
use openvpn_gui.Base.Text.{
  Text, codes, contains, before-append, after?-append, skip_while, after?_of_not-contains,
  strbegins,
}
use openvpn_gui.Env.{
  Win, prefix, name_of, is_space, env_item_insert, env_item_del, env_item_insert_utf8,
  env_item_new_utf8, env_item_del_utf8, is_valid_env_name, all_name_chars, set_or_delete,
  setenv_args, process_setenv,
}
use openvpn_gui.Env.Order.{IsSorted, lookup, if_same}
use openvpn_gui.Env.Insert.{lookup-env_item_insert, lookup-env_item_del}
use openvpn_gui.Env.Setenv.{all_name_chars-no, name_of-widen}

first-not-space : (c : ℕ) (name : Text) → all_name_chars (c ∷ name) ≡ true → is_space c ≡ false
unfolding all_name_chars
first-not-space c name h = ground arith

skip_name :
    (c : ℕ) (name rest : Text)
    → all_name_chars (c ∷ name) ≡ true
    → skip_while is_space (c ∷ name ++ rest) ≡ c ∷ name ++ rest
unfolding skip_while
skip_name c name rest h = rw (first-not-space c name h)

prefix_valid : (name : Text) → all_name_chars name ≡ true → all_name_chars (prefix ++ name) ≡ true
unfolding all_name_chars
prefix_valid name h = h

prefix_is_valid :
    (name : Text) → all_name_chars name ≡ true → is_valid_env_name (prefix ++ name) ≡ true
unfolding is_valid_env_name
prefix_is_valid name h = prefix_valid name h

prefix-no-space :
    (name : Text) → all_name_chars name ≡ true → contains (prefix ++ name) b' ' ≡ false
prefix-no-space name h = all_name_chars-no b' ' (prefix ++ name) refl (prefix_valid name h)

module _ (win : Win) where
  set_run :
      (es : List Text) (c : ℕ) (name value w : Text)
      → all_name_chars (c ∷ name) ≡ true
      → win.widen ((prefix ++ c ∷ name) ++ (b'=' ∷ value)) ≡ some w
      → process_setenv win true true es (codes "setenv " ++ (c ∷ name ++ (b' ' ∷ value)))
        ≡ (env_item_insert win es w, none)
  unfolding process_setenv setenv_args strbegins
  set_run es c name value w h e =
      let nospace = prefix-no-space (c ∷ name) h in
      rw (skip_name c name (b' ' ∷ value) h) (
        unfold set_or_delete env_item_insert_utf8 env_item_new_utf8 in
        rw (after?-append b' ' (prefix ++ c ∷ name) value nospace, set_or_delete)
          (rw (before-append b' ' (prefix ++ c ∷ name) value nospace)
            (rw (prefix_is_valid (c ∷ name) h) (rw e refl))))

  -- With memory at hand, "setenv NAME VALUE", for a NAME of letters, digits and '_', logs no error.
  -- Afterwards the variable OPENVPN_NAME has the wide string of "OPENVPN_NAME=VALUE" as its item,
  -- and every other name has the value that it had.
  pub process_setenv_sets :
      (es : List Text) (c : ℕ) (name value w : Text)
      → all_name_chars (c ∷ name) ≡ true
      → win.widen ((prefix ++ c ∷ name) ++ (b'=' ∷ value)) ≡ some w
      → let out =
          process_setenv win true true es (codes "setenv " ++ (c ∷ name ++ (b' ' ∷ value))) in
        (out.1 ≡ none)
        × (name_of w ≡ prefix ++ c ∷ name)
        × ((k : Text) → lookup win k out.0 ≡ if_same win k w (some w) (lookup win k es))
  process_setenv_sets es c name value w h e =
      let run = set_run es c name value w h e in
      (
        ap (λ r. r.1) run,
        name_of-widen win (prefix ++ c ∷ name) value w (prefix_valid (c ∷ name) h) e,
        λ k. rw run (lookup-env_item_insert win k w es),
      )

  delete_run :
      (es : List Text) (c : ℕ) (name w : Text)
      → all_name_chars (c ∷ name) ≡ true
      → win.widen (prefix ++ c ∷ name) ≡ some w
      → process_setenv win true true es (codes "setenv " ++ (c ∷ name))
        ≡ (env_item_del win es (some w), none)
  unfolding process_setenv setenv_args strbegins skip_while
  delete_run es c name w h e = rw (first-not-space c name h) (
      unfold set_or_delete env_item_del_utf8 in
      rw
        (
          after?_of_not-contains b' ' (prefix ++ c ∷ name) (prefix-no-space (c ∷ name) h),
          set_or_delete,
        )
        (rw (prefix_is_valid (c ∷ name) h) (rw e refl)))

  -- With memory at hand, "setenv NAME" without a value logs no error; in a sorted list OPENVPN_NAME
  -- has no item afterwards, and every other name has the value that it had.
  pub process_setenv_deletes :
      (es : List Text) (c : ℕ) (name w : Text)
      → all_name_chars (c ∷ name) ≡ true
      → win.widen (prefix ++ c ∷ name) ≡ some w
      → IsSorted win es
      → let out = process_setenv win true true es (codes "setenv " ++ (c ∷ name)) in
        (out.1 ≡ none) × ((k : Text) → lookup win k out.0 ≡ if_same win k w none (lookup win k es))
  process_setenv_deletes es c name w h e sorted =
      let run = delete_run es c name w h e in
      (ap (λ r. r.1) run, λ k. rw run (lookup-env_item_del win k w es sorted))

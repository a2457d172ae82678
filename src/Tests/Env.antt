-- ===== src/Tests/Env.antt =====
-- The properties of env_set.c at concrete inputs.
use openvpn_gui.Base.{
  ◌≤◌, ◌≡◌, ◌≢◌, ◌∙◌, sym, ap, Ordering, Bool, refl, true, false, none, some, List, [], ◌∷◌, ◌++◌,
  length, All,
}
use openvpn_gui.Base.Text.{Text, codes, strbegins, before, after?, skip_while}
use openvpn_gui.Tests.Win.{ascii_win, compare_ascii}
use openvpn_gui.Env.{
  prefix, name_of, env_name_compare, env_item_insert, env_item_del, merge_items, block, merge_len,
  merge_env_block, process_setenv, is_valid_env_name, all_name_chars, illegal_name,
}
use openvpn_gui.Env.Order.{IsSorted, IsRising, IsRising-IsSorted, lookup, if_same}
use openvpn_gui.Env.Insert.{lookup-env_item_insert, lookup-env_item_del}
use openvpn_gui.Env.Merge.{merge_env_block_fits, merge_env_block_lem, or_else}
use openvpn_gui.Env.Setenv.{IsOurs, process_setenv-IsOurs, process_setenv_error}
use openvpn_gui.Env.Assign.{process_setenv_sets, process_setenv_deletes}

abbrev items : List Text
items = codes "OPENVPN_A=1" ∷ codes "OPENVPN_C=3" ∷ []

items-IsSorted : IsSorted ascii_win items
unfolding compare_ascii env_name_compare before
items-IsSorted = ((refl, tt), (tt, tt))

items-IsOurs : All IsOurs items
unfolding strbegins is_valid_env_name all_name_chars before
items-IsOurs =
    (record { prefixed = refl; valid = refl }, (record { prefixed = refl; valid = refl }, tt))

abbrev process : List Text
process = codes "NAME=x" ∷ codes "openvpn_c=9" ∷ codes "PATH=y" ∷ []

process-IsSorted : IsSorted ascii_win process
unfolding compare_ascii env_name_compare before
process-IsSorted = ((refl, (refl, tt)), ((refl, tt), (tt, tt)))

insert_test :
    env_item_insert ascii_win items (codes "openvpn_b=2")
    ≡ codes "OPENVPN_A=1" ∷ codes "openvpn_b=2" ∷ codes "OPENVPN_C=3" ∷ []
unfolding env_item_insert compare_ascii env_name_compare before
insert_test = refl

merge_test :
    merge_items ascii_win items process
    ≡ codes "NAME=x" ∷ codes "OPENVPN_A=1" ∷ codes "OPENVPN_C=3" ∷ codes "PATH=y" ∷ []
unfolding merge_items compare_ascii env_name_compare before
merge_test = refl

setenv_test :
    process_setenv ascii_win true true items (codes "setenv  B 2 3")
    ≡ (codes "OPENVPN_A=1" ∷ codes "OPENVPN_B=2 3" ∷ codes "OPENVPN_C=3" ∷ [], none)
unfolding process_setenv env_item_insert compare_ascii env_name_compare before strbegins skip_while
    after? all_name_chars
setenv_test = refl

setenv_illegal :
    (process_setenv ascii_win true true items (codes "setenv B=1 2")).1 ≡ some illegal_name
unfolding process_setenv env_item_insert compare_ascii env_name_compare before strbegins skip_while
    after? all_name_chars
setenv_illegal = refl

lookup-env_item_insert_example :
    lookup ascii_win (codes "openvpn_a") (env_item_insert ascii_win items (codes "OPENVPN_A=7"))
    ≡ if_same ascii_win
        (codes "openvpn_a")
        (codes "OPENVPN_A=7")
        (some (codes "OPENVPN_A=7"))
        (lookup ascii_win (codes "openvpn_a") items)
lookup-env_item_insert_example =
    lookup-env_item_insert ascii_win (codes "openvpn_a") (codes "OPENVPN_A=7") items

lookup-env_item_del_example :
    lookup ascii_win (codes "openvpn_a") (env_item_del ascii_win items (some (codes "OPENVPN_A")))
    ≡ if_same ascii_win
        (codes "openvpn_a")
        (codes "OPENVPN_A")
        none
        (lookup ascii_win (codes "openvpn_a") items)
lookup-env_item_del_example =
    lookup-env_item_del ascii_win (codes "openvpn_a") (codes "OPENVPN_A") items items-IsSorted

merge_run :
    merge_env_block ascii_win true (some process) items
    ≡ some
        (block (codes "NAME=x" ∷ codes "OPENVPN_A=1" ∷ codes "OPENVPN_C=3" ∷ codes "PATH=y" ∷ []))
unfolding merge_env_block compare_ascii env_name_compare before
merge_run = refl

merge_env_block_fits_example :
    length
      (block (codes "NAME=x" ∷ codes "OPENVPN_A=1" ∷ codes "OPENVPN_C=3" ∷ codes "PATH=y" ∷ []))
    ≤ merge_len process items
merge_env_block_fits_example = merge_env_block_fits ascii_win items process merge_run

-- With strings of drives, which have no name.
abbrev drives : List Text
drives = codes "=C:=C:\\" ∷ codes "=D:=D:\\" ∷ process

abbrev lt_or_eq : Ordering → Bool
lt_or_eq Ordering.gt = false
lt_or_eq _ = true

not-gt : (o : Ordering) → lt_or_eq o ≡ true → o ≢ Ordering.gt
not-gt o h g = absurd (cc (sym h ∙ ap lt_or_eq g))

drives-IsRising : IsRising ascii_win drives
unfolding compare_ascii env_name_compare before
drives-IsRising = (
  (not-gt _ refl, (not-gt _ refl, (not-gt _ refl, (not-gt _ refl, tt)))),
  (
    (not-gt _ refl, (not-gt _ refl, (not-gt _ refl, tt))),
    IsRising-IsSorted ascii_win process process-IsSorted,
  ),
)

merge_env_block_lem_example :
    (entries : List Text) × (merge_env_block ascii_win true (some drives) items
      ≡ some (block entries))
    × IsRising ascii_win entries
    × ((name : Text)
        → lookup ascii_win name entries
          ≡ or_else (lookup ascii_win name items) (lookup ascii_win name drives))
merge_env_block_lem_example =
    merge_env_block_lem ascii_win items drives items-IsSorted drives-IsRising

process_setenv-IsOurs_example :
    IsSorted ascii_win (process_setenv ascii_win true true items (codes "setenv B 2")).0
    × All IsOurs (process_setenv ascii_win true true items (codes "setenv B 2")).0
process_setenv-IsOurs_example =
    process_setenv-IsOurs ascii_win true true items (codes "setenv B 2") items-IsSorted items-IsOurs

process_setenv_error_example :
    (process_setenv ascii_win true true items (codes "setenv B=1 2")).0 ≡ items
process_setenv_error_example =
    process_setenv_error ascii_win true true items (codes "setenv B=1 2") setenv_illegal

process_setenv_sets_example :
    let out =
      process_setenv ascii_win true true items
        (codes "setenv " ++ (codes "B" ++ (b' ' ∷ codes "2"))) in
    (out.1 ≡ none)
    × (name_of (codes "OPENVPN_B=2") ≡ prefix ++ codes "B")
    × ((k : Text)
        → lookup ascii_win k out.0
          ≡ if_same ascii_win k
              (codes "OPENVPN_B=2")
              (some (codes "OPENVPN_B=2"))
              (lookup ascii_win k items))
unfolding all_name_chars
process_setenv_sets_example =
    process_setenv_sets ascii_win items b'B' [] (codes "2") (codes "OPENVPN_B=2") refl refl

process_setenv_deletes_example :
    let out = process_setenv ascii_win true true items (codes "setenv " ++ codes "A") in
    (out.1 ≡ none)
    × ((k : Text)
        → lookup ascii_win k out.0
          ≡ if_same ascii_win k (codes "OPENVPN_A") none (lookup ascii_win k items))
unfolding all_name_chars
process_setenv_deletes_example =
    process_setenv_deletes ascii_win items b'A' [] (codes "OPENVPN_A") refl refl items-IsSorted

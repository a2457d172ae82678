-- ===== src/Options.antt =====
-- options.c: how the command line is cut into arguments.
pub mod Words
pub mod Add
pub mod Settings
pub mod Expected
use mathlib.Core.List.{append-nil, append_assoc, map-append}
use mathlib.Core.Option.{some-injective}
use mathlib.Core.Path.{subst}
use openvpn_gui.Base.{
  ℕ, zero, suc, ◌+◌, ◌-◌, ◌*◌, ◌/◌, ◌%◌, ◌^◌, ◌≤◌, ◌<◌, ◌≡◌, ◌≢◌, ◌↔◌, refl, ap, ◌∙◌, sym, Bool,
  true, false, not, ◌&&◌, ◌||◌, Option, none, some, List, [], ◌∷◌, ◌++◌, map, if◌then◌else◌,
  Bool-cases, Option-cases, Ordering-cases, Ordering, ◌⊎◌, inl, inr, arith, length, length-append,
  length-concat, drop, take, replicate, drop-append, leb, ltb, leb→le, ltb→lt, lt→ltb, ◌==◌,
  ==_refl, ==_iff, All, All-append,
}
use openvpn_gui.Base.Text.{
  Text, codes, streq, strbegins, contains, before, after?, skip_while, text_at, streq_iff,
  streq_refl, strbegins-append, split_at, contains-before, before-append, after?-append,
  before_of_not-contains, after?_of_not-contains, not-contains_of_after?,
}

abbrev pub is_space : ℕ → Bool
is_space c = c == b' '

abbrev pub no_space : ℕ → Bool
no_space c = not (c == b' ')

abbrev pub no_quote : ℕ → Bool
no_quote c = not (c == b'"')

-- The loop that counts the arguments; each round takes at least one character.
unfoldable pub count_args : ℕ → Text → Option ℕ
count_args zero pos = none
count_args (suc fuel) pos = elim (skip_while is_space pos) [
  | [] ↦ some 0
  | c ∷ s ↦ elim (skip_while no_space (c ∷ s)) [
    | [] ↦ some 1
    | d ∷ rest ↦ elim (count_args fuel (d ∷ rest)) [ none ↦ none | some argc ↦ some (suc argc) ]
  ]
]

-- What stands from the end of an argument on: where the loop goes on behind it, if it does.
unfoldable pub next_arg : Text → Option Text
next_arg [] = none
next_arg (c ∷ []) = none
next_arg (c ∷ d ∷ s) = some (d ∷ s)

-- An argument that starts at the given character, and the text from its end on.
unfoldable pub arg_at : ℕ → Text → Text × Text
arg_at c s =
    if c == b'"'
    then (before b'"' s, skip_while no_quote s)
    else (before b' ' (c ∷ s), skip_while no_space (c ∷ s))

-- The loop that stores them.
unfoldable pub store_args : ℕ → Text → Option (List Text)
store_args zero pos = none
store_args (suc fuel) pos = elim (skip_while is_space pos) [
  | [] ↦ some []
  | c ∷ s ↦
      let arg = arg_at c s in
      elim (next_arg arg.1) [
        | none ↦ some (arg.0 ∷ [])
        | some rest ↦ elim (store_args fuel rest) [ none ↦ none | some argv ↦ some (arg.0 ∷ argv) ]
      ]
]

-- The places of the array, which are as many as were counted, and the arguments stored in it; `overflow`
-- where more of them are stored than it can hold, and `no_end` where a loop does not end.
pub data Argv : Type 0 where
  no_args overflow no_end : Argv
  argv : ℕ → List Text → Argv

unfoldable pub argv_of : Option ℕ → Option (List Text) → Argv
argv_of none args = no_end
argv_of (some zero) args = no_args
argv_of (some (suc argc)) none = no_end
argv_of (some (suc argc)) (some args) =
    if ltb (suc argc) (length args) then overflow else argv (suc argc) args

-- `ProcessCommandLine`, up to the call of `parse_argv`.
unfoldable pub process_command_line : Text → Argv
process_command_line command_line =
    let fuel = suc (length command_line) in
    argv_of (count_args fuel command_line) (store_args fuel command_line)

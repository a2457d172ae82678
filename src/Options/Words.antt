-- ===== src/Options/Words.antt =====
-- options.c: the arguments of a command line without quotes are its words.
use mathlib.Core.Path.{subst}
use openvpn_gui.Base.{
  ℕ, zero, suc, ◌≤◌, ◌<◌, ◌≡◌, refl, ap, ◌∙◌, sym, true, false, some, List, [], ◌∷◌, if◌then◌else◌,
  Bool-cases, List-cases, inl, inr, arith, length, take, ltb, ◌==◌, All,
}
use openvpn_gui.Base.Text.{Text, contains, before, skip_while}
use openvpn_gui.Base.Tokens.{not-contains-skip_while, length-skip_while, skip_while-stops}
use openvpn_gui.Options.{
  next_arg, arg_at, store_args, process_command_line, argv_of, count_args, is_space, no_space, Argv,
  no_args, argv,
}

-- The words between spaces, from right to left.
abbrev pub add_to : ℕ → List Text → List Text
add_to c [] = (c ∷ []) ∷ []
add_to c (word ∷ words) = (c ∷ word) ∷ words

abbrev pub add_char : ℕ → Text → List Text → List Text
add_char c [] words = (c ∷ []) ∷ words
add_char c (d ∷ s) words = if is_space d then (c ∷ []) ∷ words else add_to c words

unfoldable pub words : Text → List Text
words [] = []
words (c ∷ s) = let rest = words s in if is_space c then rest else add_char c s rest

words-space : (c : ℕ) (s : Text) → is_space c ≡ true → words (c ∷ s) ≡ words s
unfolding words
words-space c s h = rw h refl

words-char : (c : ℕ) (s : Text) → is_space c ≡ false → words (c ∷ s) ≡ add_char c s (words s)
unfolding words
words-char c s h = rw h refl

words-skip_while : (s : Text) → words (skip_while is_space s) ≡ words s
unfolding skip_while
words-skip_while [] = refl
words-skip_while (c ∷ s) = elim (Bool-cases (is_space c)) [
  | inl e ↦ rw (e, skip_while) (words-skip_while s ∙ sym (words-space c s e))
  | inr e ↦ rw (e, skip_while) refl
]

words-before :
    (c : ℕ) (s : Text)
    → is_space c ≡ false
    → words (c ∷ s) ≡ before b' ' (c ∷ s) ∷ words (skip_while no_space (c ∷ s))
unfolding before skip_while
words-before c [] h = words-char c [] h ∙ rw (h, skip_while, before) (ap (λ ws. (c ∷ []) ∷ ws) refl)
words-before c (d ∷ s) h = elim (Bool-cases (is_space d)) [
  | inl e ↦
      let split : add_char c (d ∷ s) (words (d ∷ s)) ≡ (c ∷ []) ∷ words (d ∷ s) = rw e refl in
      words-char c (d ∷ s) h ∙ split ∙ rw (h, e, before, skip_while) refl
  | inr e ↦
      let ih = words-before d s e in
      let grown : add_char c (d ∷ s) (words (d ∷ s)) ≡ add_to c (words (d ∷ s)) = rw e refl in
      words-char c (d ∷ s) h ∙ grown ∙ ap (add_to c) ih ∙ rw (h, e, before, skip_while) refl
]

-- What is skipped of a word that starts at `c`.
length-skip_word :
    (c : ℕ) (s rest : Text)
    → is_space c ≡ false
    → skip_while no_space (c ∷ s) ≡ rest
    → length rest ≤ length s
unfolding skip_while
length-skip_word c s rest h e =
    let skipped : skip_while no_space (c ∷ s) ≡ skip_while no_space s = rw (h, skip_while) refl in
    let le = length-skip_while no_space s in subst (λ r. length r ≤ length s) (sym skipped ∙ e) le

space_behind_word : (d : ℕ) (s rest : Text) → skip_while no_space s ≡ d ∷ rest → is_space d ≡ true
space_behind_word d s rest e =
    let stops =
      subst (λ r. All (λ c. no_space c ≡ false) (take 1 r)) e (skip_while-stops no_space s) in
    ground (arith, stops.0)

not-contains_tail : (d : ℕ) (s : Text) → contains (d ∷ s) b'"' ≡ false → contains s b'"' ≡ false
unfolding contains
not-contains_tail d s h = ground arith

-- The words of a text that is cut behind its spaces.
words_behind_spaces :
    (pos : Text) (c : ℕ) (s : Text)
    → skip_while is_space pos ≡ c ∷ s
    → (is_space c ≡ false)
      × (length s < length pos)
      × (words pos ≡ before b' ' (c ∷ s) ∷ words (skip_while no_space (c ∷ s)))
words_behind_spaces pos c s e =
    let stops =
      subst (λ r. All (λ c. is_space c ≡ false) (take 1 r)) e (skip_while-stops is_space pos) in
    let le = subst (λ r. length r ≤ length pos) e (length-skip_while is_space pos) in
    (stops.0, omega arith, sym (words-skip_while pos) ∙ ap words e ∙ words-before c s stops.0)

words_nil : words [] ≡ []
unfolding words
words_nil = refl

no_words : (pos : Text) → skip_while is_space pos ≡ [] → words pos ≡ []
no_words pos e = sym (words-skip_while pos) ∙ ap words e ∙ words_nil

count_args-words :
    (fuel : ℕ) (pos : Text) → length pos < fuel → count_args fuel pos ≡ some (length (words pos))
unfolding count_args
count_args-words zero pos h = absurd (omega arith)
count_args-words (suc fuel) pos h = elim (List-cases (skip_while is_space pos)) [
  | inl e ↦ rw (e, count_args, no_words pos e) refl
  | inr (c, s, e) ↦
      let (plain, shorter, split) = words_behind_spaces pos c s e in
      let word = before b' ' (c ∷ s) in
      elim (List-cases (skip_while no_space (c ∷ s))) [
        | inl k ↦
            let one : words pos ≡ word ∷ [] =
              split ∙ ap (λ r. word ∷ words r) k ∙ ap (◌∷◌ word) words_nil in
            rw (e, count_args, k, one) refl
        | inr (d, rest, k) ↦
            let le = length-skip_word c s (d ∷ rest) plain k in
            let ih = count_args-words fuel (d ∷ rest) (omega (arith, h, shorter, le)) in
            let more = split ∙ ap (λ r. word ∷ words r) k in rw (e, count_args, k, ih, more) refl
      ]
]

arg_at_plain :
    (c : ℕ) (s : Text)
    → contains (c ∷ s) b'"' ≡ false
    → arg_at c s ≡ (before b' ' (c ∷ s), skip_while no_space (c ∷ s))
unfolding arg_at contains
arg_at_plain c s h = elim (Bool-cases (c == b'"')) [
  | inl e ↦ absurd ground arith
  | inr e ↦ rw (e, arg_at) refl
]

store_args-words :
    (fuel : ℕ) (pos : Text)
    → length pos < fuel
    → contains pos b'"' ≡ false
    → store_args fuel pos ≡ some (words pos)
unfolding store_args next_arg
store_args-words zero pos h q = absurd (omega arith)
store_args-words (suc fuel) pos h q = elim (List-cases (skip_while is_space pos)) [
  | inl e ↦ rw (e, store_args, no_words pos e) refl
  | inr (c, s, e) ↦
      let (plain, shorter, split) = words_behind_spaces pos c s e in
      let word = before b' ' (c ∷ s) in
      let unquoted =
        subst (λ r. contains r b'"' ≡ false) e (not-contains-skip_while b'"' is_space pos q) in
      let at = arg_at_plain c s unquoted in
      let cut = ap (λ r. r.0) at in
      let behind = ap (λ r. r.1) at in
      elim (List-cases (skip_while no_space (c ∷ s))) [
        | inl k ↦
            let one : words pos ≡ word ∷ [] =
              split ∙ ap (λ r. word ∷ words r) k ∙ ap (◌∷◌ word) words_nil in
            rw (e, store_args, behind, k, cut, one) refl
        | inr (d, [], k) ↦
            let space = words-space d [] (space_behind_word d (c ∷ s) [] k) ∙ words_nil in
            let one : words pos ≡ word ∷ [] =
              split ∙ ap (λ r. word ∷ words r) k ∙ ap (◌∷◌ word) space in
            rw (e, store_args, behind, k, cut, one) refl
        | inr (d, x ∷ rest, k) ↦
            let le = length-skip_word c s (d ∷ x ∷ rest) plain k in
            let space = words-space d (x ∷ rest) (space_behind_word d (c ∷ s) (x ∷ rest) k) in
            let tail =
              subst (λ r. contains r b'"' ≡ false) k
                (not-contains-skip_while b'"' no_space (c ∷ s) unquoted) in
            let ih =
              store_args-words fuel (x ∷ rest) (omega (arith, h, shorter, le))
                (not-contains_tail d (x ∷ rest) tail) in
            let more : words pos ≡ word ∷ words (x ∷ rest) =
              split ∙ ap (λ r. word ∷ words r) k ∙ ap (◌∷◌ word) space in
            rw (e, store_args, behind, k, ih, cut, more) refl
      ]
]

abbrev pub argv_words : List Text → Argv
argv_words [] = no_args
argv_words (word ∷ words) = argv (suc (length words)) (word ∷ words)

argv_of-words : (args : List Text) → argv_of (some (length args)) (some args) ≡ argv_words args
unfolding argv_of
argv_of-words [] = refl
argv_of-words (word ∷ args) =
    let fits : ltb (suc (length args)) (suc (length args)) ≡ false = ground arith in rw fits refl

-- A command line without quotes is cut into its words: the array has exactly as many places as there
-- are words, and they are stored in it in order. A line with no word has no arguments. Both loops end.
pub process_command_line-words :
    (command_line : Text)
    → contains command_line b'"' ≡ false
    → process_command_line command_line ≡ argv_words (words command_line)
unfolding process_command_line
process_command_line-words command_line h =
    rw
      (
        count_args-words (suc (length command_line)) command_line (omega arith),
        store_args-words (suc (length command_line)) command_line (omega arith) h,
      )
      (argv_of-words (words command_line))

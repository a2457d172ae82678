-- ===== src/Config/File/Lines.antt =====
-- config_parser.c: `config_parse` ends, fills no buffer beyond its size, and reads a file line by
-- line up to the first line that it refuses.
use mathlib.Core.Option.{some-injective}
use mathlib.Core.Path.{subst}
use openvpn_gui.Base.{
  ℕ, zero, suc, ◌+◌, ◌≤◌, ◌<◌, ◌≡◌, refl, Bool, true, false, ◌&&◌, Option, none, some, List, [],
  ◌∷◌, if◌then◌else◌, Bool-cases, inl, inr, arith, length, ◌==◌, All,
}
use openvpn_gui.Base.Text.{Text, strbegins, text_at}
use openvpn_gui.Config.{List, suc, ℕ, Text, length, Scan, scanned, failed, no_fuel, tokenize}
use openvpn_gui.Config.Bounds.{Fits, tokenize-Fits}
use openvpn_gui.Config.File.{
  Locale, Entry, fgets, cut_line, skip_dashes, entry_of, wide_line, config_readline, parse_loop,
  config_parse,
}

fgets_rest : (n : ℕ) (file : Text) → length (fgets n file).1 ≤ length file
unfolding fgets
fgets_rest zero file = omega arith
fgets_rest (suc n) [] = omega arith
fgets_rest (suc n) (c ∷ file) = elim (Bool-cases (c == b'\n')) [
  | inl end ↦ rw end (omega arith)
  | inr more ↦ rw more (omega (arith, fgets_rest n file))
]

fgets_takes : (n c : ℕ) (file : Text) → length (fgets (suc n) (c ∷ file)).1 ≤ length file
unfolding fgets
fgets_takes n c file = elim (Bool-cases (c == b'\n')) [
  | inl end ↦ rw end (omega arith)
  | inr more ↦ rw more (omega (arith, fgets_rest n file))
]

length-cut_line : (s : Text) → length (cut_line s) ≡ length s
unfolding cut_line
length-cut_line [] = refl
length-cut_line (c ∷ s) = ground (arith, length-cut_line s)

length-skip_dashes : (s : Text) (tokens : List ℕ) → length (skip_dashes s tokens) ≡ length tokens
unfolding skip_dashes
length-skip_dashes s [] = refl
length-skip_dashes s (t ∷ tokens) = refl

-- The entry lies within the arrays of `struct config_entry`, its NULs included.
pub record InArrays (e : Entry) : Type 0 where
  pub line_fits : length e.line + 1 ≤ 256
  pub sline_fits : length e.sline + 1 ≤ 256
  pub tokens_fit : length e.tokens ≤ 16

entry_of-InArrays :
    (line : Text) (s : Scan) {e : Entry}
    → length line ≤ 255
    → Fits (length line) s
    → entry_of line s ≡ some e
    → InArrays e
unfolding entry_of
entry_of-InArrays line (scanned sline tokens c) h fits eq =
    subst InArrays (some-injective _ _ eq) (record {
      line_fits = omega arith;
      sline_fits = omega arith;
      tokens_fit = omega (arith, length-skip_dashes sline tokens);
    })
entry_of-InArrays line (failed sline tokens) h fits eq = cc
entry_of-InArrays line no_fuel h fits eq = cc

module _ (locale : Locale) (memory : Bool) where
  wide_line_fits : (first : Bool) (tmp : Text) → length (wide_line locale first tmp) ≤ 255
  unfolding wide_line
  wide_line_fits first tmp =
      let offset : ℕ = if first && strbegins tmp (0xEF ∷ 0xBB ∷ 0xBF ∷ []) then 3 else 0 in
      rw (length-cut_line (locale.mbstowcs (text_at tmp offset) 255))
        (locale.mbstowcs_fits (text_at tmp offset) 255)

  readline-InArrays :
      (first : Bool) (file : Text) {e : Entry}
      → (config_readline locale memory first file).0 ≡ some e
      → InArrays e
  unfolding config_readline
  readline-InArrays first [] eq = cc
  readline-InArrays first (c ∷ file) eq =
      let line = wide_line locale first (fgets 254 (c ∷ file)).0 in
      elim (Bool-cases memory) [
        | inl m ↦
            entry_of-InArrays line (tokenize line) (wide_line_fits first (fgets 254 (c ∷ file)).0)
              (tokenize-Fits line) (rw m at eq)
        | inr m ↦ absurd (no_entry (rw m at eq))
      ]
    where
      no_entry : {x : Entry} → none ≡ some x → ⊥
      no_entry h = cc

  readline_rest :
      (first : Bool) (c : ℕ) (file : Text)
      → length (config_readline locale memory first (c ∷ file)).1 ≤ length file
  unfolding config_readline
  readline_rest first c file = fgets_takes 253 c file

  abbrev Reads : ℕ → Bool → Text → Type 0
  Reads fuel first file =
      (es : List Entry) × (parse_loop locale memory fuel first file ≡ some es) × All InArrays es

  Reads-from :
      (fuel : ℕ) (first : Bool) (file : Text) (entry : Option Entry)
      → (config_readline locale memory first file).0 ≡ entry
      → Reads fuel false (config_readline locale memory first file).1
      → Reads (suc fuel) first file
  unfolding parse_loop
  Reads-from fuel first file none eq later = ([], rw (eq, parse_loop), tt)
  Reads-from fuel first file (some e) eq (es, run, inside) =
      (e ∷ es, rw (eq, parse_loop) (rw run), (readline-InArrays first file eq, inside))

  parse_loop-Reads :
      (fuel : ℕ) (first : Bool) (file : Text) → length file < fuel → Reads fuel first file
  parse_loop-Reads zero first file h = absurd (omega arith)
  parse_loop-Reads (suc fuel) first [] h = ([], unfold parse_loop config_readline in refl, tt)
  parse_loop-Reads (suc fuel) first (c ∷ file) h = Reads-from fuel first (c ∷ file) _ refl (
      parse_loop-Reads fuel false (config_readline locale memory first (c ∷ file)).1
        (omega (arith, readline_rest first c file)))

  -- `config_parse` ends on every file, and each entry of its list lies within the arrays of its
  -- struct: `line` and `sline` have at most 255 characters and a NUL, and there are at most 16 tokens.
  pub config_parse-InArrays :
      (file : Option Text)
      → (es : List Entry) × (config_parse locale memory file ≡ some es) × All InArrays es
  unfolding config_parse
  config_parse-InArrays none = ([], refl, tt)
  config_parse-InArrays (some file) = parse_loop-Reads (suc (length file)) true file (omega arith)

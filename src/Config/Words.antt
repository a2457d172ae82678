-- ===== src/Config/Words.antt =====
-- config_parser.c: `tokenize` against a tokenizer that has no shared buffer.
use mathlib.Core.Option
use openvpn_gui.Base.{
  ℕ, zero, suc, Option, none, some, List, [], ◌∷◌, map, if◌then◌else◌, length, leb, ◌==◌,
}
use openvpn_gui.Base.Text.{Text, before, text_at}
use openvpn_gui.Config.{
  Found, token, comment, illegal, find_token, is_blank, max_tokens, Scan, scanned, failed, no_fuel,
}

-- A line's tokens and its comment.
pub data Words : Type 0 where
  words : List Text → Option Text → Words
  refused : Words
  cut_off : Words

abbrev pub add : Text → Words → Words
add t (words ts c) = words (t ∷ ts) c
add t refused = refused
add t cut_off = cut_off

abbrev pub add_all : List Text → Words → Words
add_all [] w = w
add_all (t ∷ ts) w = add t (add_all ts w)

abbrev pub c_string : Text → Text
c_string = before 0

unfoldable pub words_found : (Text → Words) → Found → Words
words_found next (illegal text) = refused
words_found next (comment text) = words [] (some (c_string text))
words_found next (token text []) = words (c_string text ∷ []) none
words_found next (token text (d ∷ rest)) =
    if d == 0 then words (c_string text ∷ []) none else add (c_string text) (next rest)

-- `n` counts the tokens read before.
unfoldable pub words_loop : ℕ → ℕ → Text → Words
unfolding words_found
words_loop zero n p = cut_off
words_loop (suc fuel) n [] = words [] none
words_loop (suc fuel) n (c ∷ p) =
    let blank = words_loop fuel n p in
    let found = words_found (words_loop fuel (suc n)) (find_token c p) in
    if c == 0
    then words [] none
    else if is_blank c
    then blank
    else if leb max_tokens n
    then refused
    else found

unfoldable pub line_words : Text → Words
unfolding words_loop find_token
line_words line = words_loop (suc (length line)) 0 line

-- The tokens as the pointers of `ce->tokens` and `ce->comment` show them.
abbrev pub texts : Scan → Words
texts (scanned sline tokens c) = words (map (text_at sline) tokens) (Option.map (text_at sline) c)
texts (failed sline tokens) = refused
texts no_fuel = cut_off

-- ===== src/Misc.antt =====
-- misc.c: the string helpers that other files use. An allocation is a Boolean argument, false where
-- it fails; where a function allocates in a loop, `memory n` tells of its n-th allocation.
pub mod Escape
pub mod UrlDecode
use mathlib.Core.List.{append-nil, append_assoc, map-append}
use mathlib.Core.Option.{some-injective}
use mathlib.Core.Path.{subst}
use openvpn_gui.Base.{
  ℕ, zero, suc, ◌+◌, ◌-◌, ◌*◌, ◌/◌, ◌%◌, ◌^◌, ◌≤◌, ◌<◌, ◌≡◌, ◌≢◌, ◌↔◌, refl, ap, ◌∙◌, sym, Bool,
  true, false, not, ◌&&◌, ◌||◌, Option, none, some, List, [], ◌∷◌, ◌++◌, map, if◌then◌else◌,
  Bool-cases, Option-cases, Ordering-cases, Ordering, ◌⊎◌, inl, inr, arith, length, length-append,
  length-concat, drop, take, replicate, drop-append, leb, ltb, leb→le, ltb→lt, lt→ltb, ◌==◌,
  ==_refl, ==_iff, All, All-append,
}
use openvpn_gui.Base.Text.{
  Text, codes, streq, strbegins, contains, before, after?, skip_while, text_at, streq_iff,
  streq_refl, strbegins-append, split_at, contains-before, before-append, after?-append,
  before_of_not-contains, after?_of_not-contains, not-contains_of_after?,
}

-- `esc` in `escape_string`.
abbrev pub escapes : Text
escapes = codes "\"\\ "

-- The loop of `escape_string`: `kept` is `out` below `pos`, and `todo` is `out` from `pos` on. A
-- backslash is moved in at `pos`, and `pos` steps over it and over the character behind it.
unfoldable pub escape_loop : (ℕ → Bool) → ℕ → Text → Text → Option Text
escape_loop memory n kept [] = some kept
escape_loop memory n kept (c ∷ todo) =
    let escaped = escape_loop memory (suc n) (kept ++ b'\\' ∷ c ∷ []) todo in
    let plain = escape_loop memory n (kept ++ c ∷ []) todo in
    if contains escapes c then (if memory n then escaped else none) else plain

-- Allocation 0 is `strdup`.
unfoldable pub escape_string : (ℕ → Bool) → Text → Option Text
unfolding escape_loop
escape_string memory input = if memory 0 then escape_loop memory 1 [] input else none

-- `isxdigit`, and the number that `sscanf` reads from a hexadecimal digit.
abbrev pub is_xdigit : ℕ → Bool
is_xdigit c = (leb b'0' c && leb c b'9') || (leb b'A' c && leb c b'F') || (leb b'a' c && leb c b'f')

abbrev pub xdigit_value : ℕ → ℕ
xdigit_value c = if leb c b'9' then c - b'0' else if leb c b'F' then c - 55 else c - 87

-- The cells that the loop of `url_decode` writes.
unfoldable pub decode_cells : Text → Text
decode_cells [] = []
decode_cells (c ∷ []) = c ∷ []
decode_cells (c ∷ h ∷ []) = c ∷ decode_cells (h ∷ [])
decode_cells (c ∷ h ∷ l ∷ s) =
    let decoded = (16 * xdigit_value h + xdigit_value l) ∷ decode_cells s in
    let passed = c ∷ decode_cells (h ∷ l ∷ s) in
    if c == b'%' && (is_xdigit h && is_xdigit l) then decoded else passed

-- The string that begins at `out`: an encoded NUL ends it. `none` is NULL.
unfoldable pub url_decode : Bool → Text → Option Text
unfolding decode_cells
url_decode memory src = if memory then some (before 0 (decode_cells src)) else none

-- `validate_input`; `none` is a NULL `exclude`.
abbrev or_newline : Option Text → Text
or_newline none = b'\n' ∷ []
or_newline (some exclude) = exclude

unfoldable pub has_none_of : Text → Text → Bool
has_none_of [] exclude = true
has_none_of (c ∷ input) exclude = if contains exclude c then false else has_none_of input exclude

unfoldable pub validate_input : Text → Option Text → Bool
unfolding has_none_of
validate_input input exclude = has_none_of input (or_newline exclude)

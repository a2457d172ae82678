-- ===== src/Config.antt =====
-- config_parser.c: an .ovpn file as a list of tokenized lines. A `wchar_t` buffer is the list of its
-- cells, NULs included; behind the end of the list lie the zeros of `calloc`. `sline` is the list of
-- the cells written so far, so that the pointer `s` is its length, and a token is an offset into it.
pub mod Bounds
pub mod Words
pub mod Refine
pub mod RoundTrip
pub mod File
use openvpn_gui.Base.{
  ℕ, zero, suc, ◌+◌, Bool, true, false, ◌&&◌, ◌||◌, Option, none, some, List, [], ◌∷◌, ◌++◌, map,
  leb, ◌==◌, if◌then◌else◌, length, take, drop,
}
use openvpn_gui.Base.Text.{Text, codes, strbegins, contains, before}

-- `wcschr` finds the terminating NUL too, so NUL counts as a legal escape and as a comment sign.
unfoldable pub legal_escape : ℕ → Bool
unfolding contains
legal_escape c = contains (codes "\" \\") c || c == 0

unfoldable pub is_comment : ℕ → Bool
unfolding contains
is_comment c = contains (codes ";#") c || c == 0

-- What `copy_token` leaves: the cells written and the buffer from the final `p` on, or the cells written
-- in front of an illegal backslash.
pub data Copy : Type 0 where
  copied_to : Text → Text → Copy
  bad_escape : Text → Copy

abbrev pub prepend : ℕ → Copy → Copy
prepend c (copied_to written rest) = copied_to (c ∷ written) rest
prepend c (bad_escape written) = bad_escape (c ∷ written)

-- A backslash in the last cell has a NUL behind it: this is copied, and `p` stands behind it.
unfoldable pub copy_token : Text → Text → Copy
copy_token delim [] = copied_to [] []
copy_token delim (c ∷ []) =
    if c == 0 || contains delim c
    then copied_to [] (c ∷ [])
    else if c == b'\\'
    then copied_to (0 ∷ []) []
    else copied_to (c ∷ []) []
copy_token delim (c ∷ d ∷ p) =
    let escaped = prepend d (copy_token delim p) in
    let plain = prepend c (copy_token delim (d ∷ p)) in
    if c == 0 || contains delim c
    then copied_to [] (c ∷ d ∷ p)
    else if c == b'\\'
    then (if legal_escape d then escaped else bad_escape [])
    else plain

-- The cells below the first `c` or NUL, and those from there on (`wcscspn`).
unfoldable pub cells_until : ℕ → Text → Text
cells_until c [] = []
cells_until c (x ∷ p) = if x == c || x == 0 then [] else x ∷ cells_until c p

unfoldable pub cells_from : ℕ → Text → Text
cells_from c [] = []
cells_from c (x ∷ p) = if x == c || x == 0 then x ∷ p else cells_from c p

-- What one round of `tokenize` finds at a character that is no blank; `illegal` has the cells written.
pub data Found : Type 0 where
  token : Text → Text → Found
  comment : Text → Found
  illegal : Text → Found

abbrev pub copied : Copy → Found
copied (bad_escape written) = illegal written
copied (copied_to written rest) = token written rest

unfoldable pub find_token : ℕ → Text → Found
unfolding copy_token cells_until cells_from is_comment
find_token c p =
    if c == b'\''
    then token (cells_until b'\'' p) (cells_from b'\'' p)
    else if c == b'"'
    then copied (copy_token (codes "\"") p)
    else if is_comment c
    then comment (cells_until 0 (c ∷ p))
    else copied (copy_token (codes " \t") (c ∷ p))

abbrev pub is_blank : ℕ → Bool
is_blank c = c == b' ' || c == b'\t'

-- `_countof(ce->tokens)`.
abbrev pub max_tokens : ℕ
max_tokens = 16

-- The cells of `sline` and the tokens, with the comment where a line was read to its end; `failed` is a
-- status of -1, with what was written by then; `no_fuel` is a loop that was cut off.
pub data Scan : Type 0 where
  scanned : Text → List ℕ → Option ℕ → Scan
  failed : Text → List ℕ → Scan
  no_fuel : Scan

-- The rest of a round, behind the check of the number of tokens; `next` is the next round.
unfoldable pub scan_found : (Text → Text → List ℕ → Scan) → Text → List ℕ → Found → Scan
scan_found next sline tokens (illegal text) = failed (sline ++ text) (tokens ++ length sline ∷ [])
scan_found next sline tokens (comment text) = scanned (sline ++ text) tokens (some (length sline))
scan_found next sline tokens (token text []) =
    scanned (sline ++ text) (tokens ++ length sline ∷ []) none
scan_found next sline tokens (token text (d ∷ rest)) =
    if d == 0
    then scanned (sline ++ text) (tokens ++ length sline ∷ []) none
    else next rest ((sline ++ text) ++ 0 ∷ []) (tokens ++ length sline ∷ [])

unfoldable pub tokenize_loop : ℕ → Text → Text → List ℕ → Scan
unfolding scan_found
tokenize_loop zero p sline tokens = no_fuel
tokenize_loop (suc fuel) [] sline tokens = scanned sline tokens none
tokenize_loop (suc fuel) (c ∷ p) sline tokens =
    let blank = tokenize_loop fuel p (sline ++ 0 ∷ []) tokens in
    let found = scan_found (tokenize_loop fuel) sline tokens (find_token c p) in
    if c == 0
    then scanned sline tokens none
    else if is_blank c
    then blank
    else if leb max_tokens (length tokens)
    then failed sline tokens
    else found

unfoldable pub tokenize : Text → Scan
unfolding tokenize_loop find_token
tokenize line = tokenize_loop (suc (length line)) line [] []

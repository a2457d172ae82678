-- ===== src/Config/File.antt =====
-- config_parser.c: `config_readline` and `config_parse`. A file is the list of its bytes, as it
-- comes from a stream in text mode. `calloc` is the argument `memory`, false where it fails, and
-- the conversion of `mbstowcs` into a buffer of n cells is the record `Locale`.
pub mod Lines
pub mod Split
use openvpn_gui.Base.{
  ℕ, zero, suc, ◌+◌, ◌≤◌, ◌<◌, Bool, true, false, ◌&&◌, ◌||◌, Option, none, some, List, [], ◌∷◌,
  ◌==◌, ◌≡◌, if◌then◌else◌, length, drop, All,
}
use openvpn_gui.Base.Text.{Text, text_at, before, strbegins}
use openvpn_gui.Config.{Scan, scanned, failed, no_fuel, tokenize}

pub record Locale : Type 0 where
  pub mbstowcs : Text → ℕ → Text
  pub mbstowcs_fits : (s : Text) (n : ℕ) → length (mbstowcs s n) ≤ n
  pub mbstowcs_ascii : (s : Text) (n : ℕ) → All (λ c. c < 128) s → length s ≤ n → mbstowcs s n ≡ s

-- `ntokens` is the number of the tokens.
pub record Entry : Type 0 where
  pub line : Text
  pub sline : Text
  pub tokens : List ℕ
  pub comment : Option ℕ

-- `MAX_LINE_LENGTH`.
abbrev pub max_line_length : ℕ
max_line_length = 256

abbrev pub and_char : ℕ → Text × Text → Text × Text
and_char c (got, rest) = (c ∷ got, rest)

-- `fgets` on at most `n` characters: what it stores, and the rest of the stream.
unfoldable pub fgets : ℕ → Text → Text × Text
fgets zero file = ([], file)
fgets (suc n) [] = ([], [])
fgets (suc n) (c ∷ file) = if c == b'\n' then (c ∷ [], file) else and_char c (fgets n file)

abbrev pub bom : Text
bom = 0xEF ∷ 0xBB ∷ 0xBF ∷ []

-- `line[wcscspn(line, "\n\r")] = 0`.
unfoldable pub cut_line : Text → Text
cut_line [] = []
cut_line (c ∷ line) = if c == b'\n' || c == b'\r' then 0 ∷ line else c ∷ cut_line line

-- `wcsspn(s, "--")`.
unfoldable pub dashes : Text → ℕ
dashes [] = 0
dashes (c ∷ s) = if c == b'-' then suc (dashes s) else 0

unfoldable pub skip_dashes : Text → List ℕ → List ℕ
unfolding dashes
skip_dashes sline [] = []
skip_dashes sline (first ∷ tokens) = (first + dashes (text_at sline first)) ∷ tokens

unfoldable pub entry_of : Text → Scan → Option Entry
unfolding skip_dashes
entry_of line (failed sline tokens) = none
entry_of line no_fuel = none
entry_of line (scanned sline tokens comment) =
    some
      (record { line = line; sline = sline; tokens = skip_dashes sline tokens; comment = comment })

unfoldable pub wide_line : Locale → Bool → Text → Text
wide_line locale first tmp =
    let offset : ℕ = if first && strbegins tmp bom then 3 else 0 in
    cut_line (locale.mbstowcs (text_at tmp offset) 255)

-- `none` is NULL: the end of the file, no memory, or a line that `tokenize` refuses.
unfoldable pub config_readline : Locale → Bool → Bool → Text → Option Entry × Text
config_readline locale memory first [] = (none, [])
config_readline locale memory first (c ∷ file) =
    let (tmp, rest) = fgets 254 (c ∷ file) in
    let line = wide_line locale first tmp in
    (if memory then entry_of line (tokenize line) else none, rest)

abbrev pub and_entry : Entry → Option (List Entry) → Option (List Entry)
and_entry e none = none
and_entry e (some es) = some (e ∷ es)

-- The loop of `config_parse`, from a line on; `none` is a loop that was cut off.
unfoldable pub parse_loop : Locale → Bool → ℕ → Bool → Text → Option (List Entry)
parse_loop locale memory zero first file = none
parse_loop locale memory (suc fuel) first file =
    let (entry, rest) = config_readline locale memory first file in
    elim entry [ none ↦ some [] | some e ↦ and_entry e (parse_loop locale memory fuel false rest) ]

-- The file is `none` where its name is NULL or it cannot be opened.
unfoldable pub config_parse : Locale → Bool → Option Text → Option (List Entry)
config_parse locale memory none = some []
config_parse locale memory (some file) = parse_loop locale memory (suc (length file)) true file

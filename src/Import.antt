-- ===== src/Import.antt =====
-- as.c: the names that imported profiles get, and the download of their content. What the server sends
-- and what Windows answers are arguments; allocations of names succeed.
pub mod Clean
pub mod Chunks
use mathlib.Core.List.{append-nil, append_assoc, map-append}
use mathlib.Core.Option.{some-injective}
use mathlib.Core.Path.{subst}
use openvpn_gui.Base.{
  ℕ, zero, suc, ◌+◌, ◌-◌, ◌*◌, ◌/◌, ◌%◌, ◌^◌, ◌≤◌, ◌<◌, ◌≡◌, ◌≢◌, ◌↔◌, refl, ap, ◌∙◌, sym, Bool,
  true, false, not, ◌&&◌, ◌||◌, Option, none, some, List, [], ◌∷◌, ◌++◌, map, if◌then◌else◌,
  Bool-cases, Option-cases, Ordering-cases, Ordering, ◌⊎◌, inl, inr, arith, length, length-append,
  length-concat, drop, take, replicate, drop-append, leb, ltb, leb→le, ltb→lt, lt→ltb, ◌==◌,
  ==_refl, ==_iff, All, All-append,
}
use openvpn_gui.Base.Text.{
  Text, codes, streq, strbegins, contains, before, after?, skip_while, text_at, streq_iff,
  streq_refl, strbegins-append, split_at, contains-before, before-append, after?-append,
  before_of_not-contains, after?_of_not-contains, not-contains_of_after?,
}
use openvpn_gui.Base.Tokens.{strtok, strstr}

-- The characters that SanitizeFilename replaces, and the names.
abbrev pub reserved : Text
reserved = codes "<>:\"/\\|?*;"

abbrev pub is_reserved : ℕ → Bool
is_reserved c = ltb c 32 || contains reserved c

abbrev pub special : List Text
special =
    codes "CON"
    ∷ codes "PRN"
    ∷ codes "AUX"
    ∷ codes "NUL"
    ∷ codes "COM1"
    ∷ codes "COM2"
    ∷ codes "COM3"
    ∷ codes "COM4"
    ∷ codes "COM5"
    ∷ codes "COM6"
    ∷ codes "COM7"
    ∷ codes "COM8"
    ∷ codes "COM9"
    ∷ codes "LPT1"
    ∷ codes "LPT2"
    ∷ codes "LPT3"
    ∷ codes "LPT4"
    ∷ codes "LPT5"
    ∷ codes "LPT6"
    ∷ codes "LPT7"
    ∷ codes "LPT8"
    ∷ codes "LPT9"
    ∷ []

unfoldable pub replace_reserved : Text → Text
replace_reserved [] = []
replace_reserved (c ∷ s) = (if is_reserved c then b'_' else c) ∷ replace_reserved s

-- The loop over `special`; `wcsncpy_s` keeps what fits in `name_length` characters with a NUL.
unfoldable pub replace_special : ℕ → List Text → Text → Text
replace_special name_length [] fname = fname
replace_special name_length (name ∷ names) fname =
    replace_special name_length names
      (if streq fname name then take (name_length - 1) (codes "TMP") else fname)

-- `SanitizeFilename`.
unfoldable pub sanitize_filename : ℕ → Text → Text
sanitize_filename name_length fname = replace_special name_length special (replace_reserved fname)

-- The names found in the lines of a profile: the friendly one and the other.
pub record Names : Type 0 where
  pub friendly_name : Text
  pub profile_name : Text

abbrev pub profile_name_token : Text
profile_name_token = codes "# OVPN_ACCESS_SERVER_PROFILE="

abbrev pub friendly_name_token : Text
friendly_name_token = codes "# OVPN_ACCESS_SERVER_FRIENDLY_NAME="

-- One line; both arrays have PROFILE_NAME_LEN characters.
unfoldable pub read_name : Text → Names → Names
read_name line names =
    if strbegins line profile_name_token
    then record names { profile_name = take 127 (drop (length profile_name_token) line) }
    else if strbegins line friendly_name_token
    then record names { friendly_name = take 127 (drop (length friendly_name_token) line) }
    else names

-- The loop over the lines that `wcstok_s` cuts; each takes at least one character.
unfoldable pub read_names : ℕ → Text → Names → Option Names
read_names zero buf names = none
read_names (suc fuel) buf names = elim (strtok (codes "\r\n") buf) [
  | none ↦ some names
  | some (line, rest) ↦ read_names fuel rest (read_name line names)
]

abbrev pub no_names : Names
no_names = record { friendly_name = []; profile_name = [] }

unfoldable pub chosen_name : Text → Names → Text
chosen_name default_name names =
    if ltb 0 (length names.friendly_name)
    then names.friendly_name
    else if ltb 0 (length names.profile_name)
    then names.profile_name
    else default_name

-- `ExtractProfileName`: `none` where the loop runs out of fuel.
unfoldable pub extract_profile_name : Text → Text → ℕ → Option Text
extract_profile_name profile default_name out_name_length =
    elim (read_names (suc (length profile)) profile no_names) [
      | none ↦ none
      | some names ↦ some (
          sanitize_filename out_name_length
            (take (out_name_length - 1) (chosen_name default_name names ++ codes ".ovpn")))
    ]

-- The file name found so far, and whether it is in UTF-8.
abbrev pub Found : Type 0
Found = Option Text × Bool

-- The loop over the parts of the header.
unfoldable pub find_filename : (Text → Text) → ℕ → Text → Found → Option Found
find_filename unescape zero buf fn = none
find_filename unescape (suc fuel) buf fn = elim (strtok (codes ";") buf) [
  | none ↦ some fn
  | some (p, rest) ↦ elim (strstr p (codes "filename=")) [
    | some at ↦ find_filename unescape fuel rest (some (drop 9 at), false)
    | none ↦ elim (strstr p (codes "filename*=utf-8''")) [
      | some at ↦ some (some (unescape (drop 17 at)), true)
      | none ↦ find_filename unescape fuel rest (none, false)
    ]
  ]
]

unfoldable pub filename_of : Text → ℕ → Option Text → Bool × Text
filename_of name len none = (false, sanitize_filename len name)
filename_of name len (some wfn) = (true, sanitize_filename len (take (len - 1) wfn))

module _ (unescape trim : Text → Text) (widen : Bool → Text → Option Text) where
  -- The name, if it is not empty and can be widened.
  unfoldable pub widened_name : Found → Option Text
  widened_name (none, utf8) = none
  widened_name (some fn, utf8) = if ltb 0 (length fn) then widen utf8 (trim fn) else none

  -- `ExtractFilenameFromHeader` for the header that Windows gives; without one the name is left alone.
  unfoldable pub extract_filename_from_header : Option Text → Text → ℕ → Option (Bool × Text)
  extract_filename_from_header none name len = some (false, name)
  extract_filename_from_header (some header) name len =
      elim (find_filename unescape (suc (length header)) header (none, false)) [
        | none ↦ none
        | some fn ↦ some (filename_of name len (widened_name fn))
      ]

  -- The name that `DownloadProfile` gives the file, in MAX_PATH characters: from the header, if the
  -- content has a type, or else from the content.
  unfoldable pub header_name : Bool → Option Text → Option (Bool × Text)
  header_name typed header =
      if typed then extract_filename_from_header header [] 260 else some (false, [])

  unfoldable pub profile_file_name : Bool → Option Text → Text → Text → Option Text
  profile_file_name typed header content host = elim (header_name typed header) [
    | none ↦ none
    | some (true, name) ↦ some name
    | some (false, name) ↦ extract_profile_name content host 260
  ]

-- How a download ends: `waiting` where a call of `InternetReadFile` does not return, `overflow` where
-- it has written beyond the buffer.
pub data Download : Type 0 where
  content : Text → Download
  read_failed no_memory overflow waiting : Download

abbrev pub read_chunk_len : ℕ
read_chunk_len = 65536

-- The loop of `DownloadProfileContent`. The buffer has `size + 1` bytes and holds `got`; a read is
-- `none` where it fails, and its bytes are followed by a NUL.
unfoldable pub download_loop : Bool → List (Option Text) → Text → ℕ → Download
download_loop memory [] got size = waiting
download_loop memory (none ∷ reads) got size = read_failed
download_loop memory (some bytes ∷ reads) got size =
    let stop = length got + length bytes in
    let grown = download_loop memory reads (got ++ bytes) (size + read_chunk_len) in
    let same = download_loop memory reads (got ++ bytes) size in
    if ltb size stop
    then overflow
    else if length bytes == 0
    then content got
    else if leb size stop
    then (if memory then grown else no_memory)
    else same

-- `DownloadProfileContent`.
unfoldable pub download_profile_content : Bool → List (Option Text) → Download
download_profile_content memory reads =
    if memory then download_loop memory reads [] read_chunk_len else no_memory

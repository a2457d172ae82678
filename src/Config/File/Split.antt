-- ===== src/Config/File/Split.antt =====
-- config_parser.c: a file of plain lines is read line by line, up to the first line refused.
use openvpn_gui.Base.{
  ℕ, zero, suc, ◌≤◌, ◌<◌, ◌≡◌, refl, ap, Bool, true, false, ◌&&◌, Option, none, some, List, [], ◌∷◌,
  ◌++◌, if◌then◌else◌, arith, length, length-append, length-concat, All, All-append,
}
use openvpn_gui.Base.Text.{contains-append, Text, strbegins, contains, before_of_not-contains}
use openvpn_gui.Config.{tokenize}
use openvpn_gui.Config.File.{
  Locale, Entry, bom, fgets, cut_line, entry_of, wide_line, config_readline, parse_loop,
  config_parse,
}

-- A line of ASCII characters that fits the buffer of `config_readline`.
pub record IsPlain (l : Text) : Type 0 where
  pub ascii : All (λ c. c < 128) l
  pub no_newline : contains l b'\n' ≡ false
  pub no_return : contains l b'\r' ≡ false
  pub no_nul : contains l 0 ≡ false
  pub short : length l < 254

unfoldable pub as_file : List Text → Text
as_file [] = []
as_file (l ∷ ls) = l ++ (b'\n' ∷ as_file ls)

-- The entry of one line, as `config_readline` hands it to `tokenize`: with NUL for the newline.
abbrev pub line_entry : Text → Option Entry
line_entry l = entry_of (l ++ 0 ∷ []) (tokenize (l ++ 0 ∷ []))

-- The entries of the lines before the first one that is refused.
unfoldable pub read_lines : List Text → List Entry
read_lines [] = []
read_lines (l ∷ ls) =
    let later = read_lines ls in elim (line_entry l) [ none ↦ [] | some e ↦ e ∷ later ]

fgets_line :
    (n : ℕ) (l rest : Text)
    → length l < n
    → contains l b'\n' ≡ false
    → fgets n (l ++ (b'\n' ∷ rest)) ≡ (l ++ b'\n' ∷ [], rest)
unfolding fgets contains
fgets_line zero l rest h k = absurd (omega arith)
fgets_line (suc n) [] rest h k = refl
fgets_line (suc n) (c ∷ l) rest h k = ground (arith, fgets_line n l rest)

cut_line_plain :
    (l : Text)
    → contains l b'\n' ≡ false
    → contains l b'\r' ≡ false
    → cut_line (l ++ b'\n' ∷ []) ≡ l ++ 0 ∷ []
unfolding cut_line contains
cut_line_plain [] h k = refl
cut_line_plain (c ∷ l) h k = ground (arith, cut_line_plain l)

not-bom : (l : Text) → All (λ c. c < 128) l → strbegins (l ++ b'\n' ∷ []) bom ≡ false
unfolding strbegins
not-bom [] h = refl
not-bom (c ∷ l) h = ground (arith, h.0)

module _ (locale : Locale) where
  wide_line_plain :
      (first : Bool) (l : Text) → IsPlain l → wide_line locale first (l ++ b'\n' ∷ []) ≡ l ++ 0 ∷ []
  unfolding wide_line
  wide_line_plain first l p =
      let clean = contains-append 0 l (b'\n' ∷ []) p.no_nul (unfold contains in refl) in
      let fits : length (l ++ b'\n' ∷ []) ≤ 255 = omega (arith, length-concat l b'\n', p.short) in
      let ascii = All-append (λ c. c < 128) l (b'\n' ∷ []) p.ascii (omega arith) in
      rw (no_offset first) (
        rw (before_of_not-contains 0 (l ++ b'\n' ∷ []) clean) (
          rw (locale.mbstowcs_ascii (l ++ b'\n' ∷ []) 255 ascii fits)
            (cut_line_plain l p.no_newline p.no_return)))
    where
      no_offset : (b : Bool) → ◌≡◌ {A = ℕ} (if b && strbegins (l ++ b'\n' ∷ []) bom then 3 else 0) 0
      no_offset true = rw (not-bom l p.ascii)
      no_offset false = refl

  readline_plain :
      (first : Bool) (l rest : Text)
      → IsPlain l
      → config_readline locale true first (l ++ (b'\n' ∷ rest)) ≡ (line_entry l, rest)
  unfolding config_readline
  readline_plain first [] rest p =
      rw (fgets_line 254 [] rest p.short p.no_newline) (rw (wide_line_plain first [] p))
  readline_plain first (c ∷ l) rest p =
      rw (fgets_line 254 (c ∷ l) rest p.short p.no_newline) (rw (wide_line_plain first (c ∷ l) p))

  length-as_file : (l : Text) (ls : List Text) → length (as_file ls) < length (as_file (l ∷ ls))
  length-as_file l ls = unfold as_file in omega (arith, length-append l (b'\n' ∷ as_file ls))

  parse_loop_step :
      (fuel : ℕ) (first : Bool) (l : Text) (ls : List Text)
      → IsPlain l
      → parse_loop locale true fuel false (as_file ls) ≡ some (read_lines ls)
      → parse_loop locale true (suc fuel) first (as_file (l ∷ ls)) ≡ some (read_lines (l ∷ ls))
  unfolding parse_loop read_lines as_file
  parse_loop_step fuel first l ls p h =
      let read = readline_plain first l (as_file ls) p in
      ground (arith, ap (λ r. r.0) read, ap (λ r. r.1) read)

  parse_loop-read_lines :
      (fuel : ℕ) (first : Bool) (ls : List Text)
      → length (as_file ls) < fuel
      → All IsPlain ls
      → parse_loop locale true fuel first (as_file ls) ≡ some (read_lines ls)
  parse_loop-read_lines zero first ls h p = absurd (omega arith)
  parse_loop-read_lines (suc fuel) first [] h p =
      unfold parse_loop config_readline as_file read_lines in refl
  parse_loop-read_lines (suc fuel) first (l ∷ ls) h p =
      parse_loop_step fuel first l ls p.0
        (parse_loop-read_lines fuel false ls (omega (arith, length-as_file l ls)) p.1)

  -- A file of ASCII lines, each shorter than the buffer and ended by a newline, is read as the
  -- entries of its lines one by one, where memory lasts. The first line that `tokenize` refuses ends
  -- the list: neither that line nor any line after it has an entry.
  pub config_parse-read_lines :
      (ls : List Text)
      → All IsPlain ls
      → config_parse locale true (some (as_file ls)) ≡ some (read_lines ls)
  unfolding config_parse
  config_parse-read_lines ls p =
      parse_loop-read_lines (suc (length (as_file ls))) true ls (omega arith) p

-- ===== src/Tests/Config.antt =====
-- The properties of config_parser.c at concrete inputs.
use openvpn_gui.Base.{
  ℕ, zero, suc, ◌≤◌, ◌≡◌, refl, ap, Bool, true, none, some, List, [], ◌∷◌, arith, length, take, All,
}
use openvpn_gui.Base.Text.{Text, codes, contains, before}
use openvpn_gui.Config.{tokenize, copy_token, legal_escape, cells_until, cells_from, is_comment}
use openvpn_gui.Config.Words.{words, refused, texts}
use openvpn_gui.Config.RoundTrip.{tokenize-escape_string, in_quotes}
use openvpn_gui.Config.File.{Locale, Entry, config_parse}
use openvpn_gui.Config.File.Lines.{InArrays, config_parse-InArrays}
use openvpn_gui.Config.File.Split.{IsPlain, as_file, read_lines, config_parse-read_lines}
use openvpn_gui.Misc.{escape_string}

mbstowcs : Text → ℕ → Text
mbstowcs s n = take n s

mbstowcs_fits : (s : Text) (n : ℕ) → length (mbstowcs s n) ≤ n
unfolding mbstowcs
mbstowcs_fits s zero = omega arith
mbstowcs_fits [] (suc n) = omega arith
mbstowcs_fits (c ∷ s) (suc n) = omega (arith, mbstowcs_fits s n)

mbstowcs_short : (s : Text) (n : ℕ) → length s ≤ n → mbstowcs s n ≡ s
unfolding mbstowcs
mbstowcs_short [] zero h = refl
mbstowcs_short (c ∷ s) zero h = absurd (omega arith)
mbstowcs_short [] (suc n) h = refl
mbstowcs_short (c ∷ s) (suc n) h = ap (◌∷◌ c) (mbstowcs_short s n (omega arith))

abbrev c_locale : Locale
c_locale = record {
  mbstowcs = mbstowcs;
  mbstowcs_fits = mbstowcs_fits;
  mbstowcs_ascii = λ s n h. mbstowcs_short s n;
}

tokenize_test :
    texts (tokenize (codes "remote  'my host' \"a \\\"b\\\"\" 1194 # note"))
    ≡ words
        (codes "remote" ∷ codes "my host" ∷ codes "a \"b\"" ∷ codes "1194" ∷ [])
        (some (codes "# note"))
unfolding tokenize copy_token legal_escape cells_until cells_from is_comment before contains
tokenize_test = refl

tokenize_bad : texts (tokenize (codes "cert c:\\dir")) ≡ refused
unfolding tokenize copy_token legal_escape cells_until cells_from is_comment before contains
tokenize_bad = refl

-- A backslash at the end of a line is no error.
tokenize_slash : texts (tokenize (codes "cert a\\")) ≡ words (codes "cert" ∷ codes "a" ∷ []) none
unfolding tokenize copy_token legal_escape cells_until cells_from is_comment before contains
tokenize_slash = refl

abbrev always : ℕ → Bool
always n = true

a_escaped : escape_string always (codes "a b") ≡ some (codes "a\\ b")
unfolding escape_string contains
a_escaped = refl

tokenize-escape_string_example :
    texts (tokenize (in_quotes (codes "a\\ b" ∷ []))) ≡ words (codes "a b" ∷ []) none
unfolding contains
tokenize-escape_string_example =
    tokenize-escape_string always (codes "a b" ∷ []) (codes "a\\ b" ∷ []) (omega arith) (refl, tt)
      (a_escaped, tt)

config_parse-InArrays_example :
    (es : List Entry) × (config_parse c_locale true (some (codes "dev tun\n")) ≡ some es)
    × All InArrays es
config_parse-InArrays_example = config_parse-InArrays c_locale true (some (codes "dev tun\n"))

dev-IsPlain : IsPlain (codes "dev tun")
unfolding contains
dev-IsPlain = record {
  ascii = omega arith;
  no_newline = refl;
  no_return = refl;
  no_nul = refl;
  short = omega arith;
}

config_parse-read_lines_example :
    config_parse c_locale true (some (as_file (codes "dev tun" ∷ [])))
    ≡ some (read_lines (codes "dev tun" ∷ []))
config_parse-read_lines_example =
    config_parse-read_lines c_locale (codes "dev tun" ∷ []) (dev-IsPlain, tt)

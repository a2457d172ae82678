-- ===== src/Misc/UrlDecode.antt =====
-- misc.c: `url_decode` reverses percent-encoding.
use openvpn_gui.Base.{
  ℕ, ◌+◌, ◌*◌, ◌/◌, ◌%◌, ◌<◌, ◌≡◌, refl, ap, ◌∙◌, sym, Bool, true, false, some, [], ◌∷◌,
  if◌then◌else◌, Bool-cases, inl, inr, arith, ltb, ◌==◌, ==_iff, All,
}
use openvpn_gui.Base.Text.{Text, contains, before_of_not-contains}
use openvpn_gui.Misc.{is_xdigit, xdigit_value, decode_cells, url_decode}

abbrev hex_digit : ℕ → ℕ
hex_digit n = if ltb n 10 then n + 48 else n + 55

-- The text with '%' and two hexadecimal digits for each byte where `test` says so.
unfoldable pub encode : (ℕ → Bool) → Text → Text
encode test [] = []
encode test (c ∷ s) =
    let later = encode test s in
    if test c then b'%' ∷ hex_digit (c / 16) ∷ hex_digit (c % 16) ∷ later else c ∷ later

digit_value : (n : ℕ) → n < 16 → (is_xdigit (hex_digit n) ≡ true) × (xdigit_value (hex_digit n) ≡ n)
digit_value n h = ground arith

decode_digits :
    (h l : ℕ) (s : Text)
    → h < 16
    → l < 16
    → decode_cells (b'%' ∷ hex_digit h ∷ hex_digit l ∷ s) ≡ (16 * h + l) ∷ decode_cells s
unfolding decode_cells
decode_digits h l s p q =
    let (dh, vh) = digit_value h p in let (dl, vl) = digit_value l q in rw (dh, dl) (rw (vh, vl))

decode_plain : (c : ℕ) (s : Text) → (c == b'%') ≡ false → decode_cells (c ∷ s) ≡ c ∷ decode_cells s
unfolding decode_cells
decode_plain c [] h = refl
decode_plain c (x ∷ []) h = refl
decode_plain c (x ∷ y ∷ s) h = rw h

decode-encode :
    (test : ℕ → Bool) (s : Text)
    → test b'%' ≡ true
    → All (λ c. c < 256) s
    → decode_cells (encode test s) ≡ s
unfolding encode
decode-encode test [] p h = unfold decode_cells in refl
decode-encode test (c ∷ s) p (byte, bytes) = elim (Bool-cases (test c)) [
  | inl coded ↦ rw coded (
      decode_digits (c / 16) (c % 16) (encode test s) (omega arith) (omega arith)
      ∙ rw (decode-encode test s p bytes) (ap (λ n. n ∷ s) (omega arith)))
  | inr plain ↦ rw plain (
      decode_plain c (encode test s) (not_percent c plain)
      ∙ ap (◌∷◌ c) (decode-encode test s p bytes))
]
  where
    not_percent : (c : ℕ) → test c ≡ false → (c == b'%') ≡ false
    not_percent c h = elim (Bool-cases (c == b'%')) [
      | inl same ↦
          let e : c ≡ b'%' = (==_iff c b'%').0 same in
          absurd (contradiction (sym p ∙ sym (ap test e) ∙ h))
      | inr other ↦ other
    ]
      where
        contradiction : true ≡ false → ⊥
        contradiction e = cc

-- Percent-encoding any bytes of a text, '%' at least, with upper-case digits, is undone by
-- `url_decode`, when memory lasts and the text has no NUL.
pub url_decode-encode :
    (test : ℕ → Bool) (s : Text)
    → test b'%' ≡ true
    → All (λ c. c < 256) s
    → contains s 0 ≡ false
    → url_decode true (encode test s) ≡ some s
unfolding url_decode
url_decode-encode test s p h clean =
    rw (decode-encode test s p h) (rw (before_of_not-contains 0 s clean))

-- ===== src/Config/RoundTrip.antt =====
-- config_parser.c and misc.c: `tokenize` reads back what `escape_string` has written in quotes.
use openvpn_gui.Base.{
  ℕ, zero, suc, ◌+◌, ◌≤◌, ◌<◌, ◌≡◌, refl, ap, ◌∙◌, Bool, true, false, none, some, List, [], ◌∷◌,
  ◌++◌, Bool-cases, inl, inr, arith, length, length-append, leb, ◌==◌, ◌||◌, All,
}
use openvpn_gui.Base.Text.{Text, codes, contains, before_of_not-contains}
use openvpn_gui.Misc.{escapes, escape_string}
use openvpn_gui.Misc.Escape.{escaped, escape_string-some}
use openvpn_gui.Config.{
  copy_token, legal_escape, prepend, copied, copied_to, token, find_token, max_tokens, tokenize,
}
use openvpn_gui.Config.Words.{words, words_found, words_loop, line_words, texts, add}
use openvpn_gui.Config.Refine.{tokenize-line_words}

-- One token in quotes, and a line of them.
abbrev quoted : Text → Text → Text
quoted t rest = b'"' ∷ (escaped t ++ (b'"' ∷ rest))

unfoldable pub render : List Text → Text
render [] = []
render (t ∷ ts) = quoted t (b' ' ∷ render ts)

copy_token_plain :
    (delim : Text) (c : ℕ) (p : Text)
    → (c == 0 || contains delim c) ≡ false
    → (c == b'\\') ≡ false
    → copy_token delim (c ∷ p) ≡ prepend c (copy_token delim p)
unfolding copy_token
copy_token_plain delim c [] h k = ground arith
copy_token_plain delim c (d ∷ p) h k = ground arith

copy_token_slash :
    (c : ℕ) (p : Text)
    → contains escapes c ≡ true
    → copy_token (codes "\"") (b'\\' ∷ c ∷ p) ≡ prepend c (copy_token (codes "\"") p)
unfolding copy_token legal_escape contains
copy_token_slash c p h = ground arith

plain_char :
    (c : ℕ)
    → contains escapes c ≡ false
    → (c == 0) ≡ false
    → ((c == 0 || contains (codes "\"") c) ≡ false) × ((c == b'\\') ≡ false)
unfolding contains
plain_char c h k = ground arith

copy_token-escaped :
    (t rest : Text)
    → contains t 0 ≡ false
    → copy_token (codes "\"") (escaped t ++ (b'"' ∷ rest)) ≡ copied_to t (b'"' ∷ rest)
unfolding escaped
copy_token-escaped [] [] h = unfold copy_token contains in refl
copy_token-escaped [] (d ∷ rest) h = unfold copy_token contains in refl
copy_token-escaped (c ∷ t) rest h =
    let (first, later) = no_nul c t h in
    elim (Bool-cases (contains escapes c)) [
      | inl special ↦
          rw special
            (copy_token_slash c _ special ∙ ap (prepend c) (copy_token-escaped t rest later))
      | inr plain ↦
          let (ordinary, slash) = plain_char c plain first in
          rw plain (
            copy_token_plain (codes "\"") c _ ordinary slash
            ∙ ap (prepend c) (copy_token-escaped t rest later))
    ]
  where
    no_nul :
        (c : ℕ) (t : Text)
        → contains (c ∷ t) 0 ≡ false
        → ((c == 0) ≡ false) × (contains t 0 ≡ false)
    no_nul c t h = unfold contains in ground arith

find_token-quoted :
    (t rest : Text)
    → contains t 0 ≡ false
    → find_token b'"' (escaped t ++ (b'"' ∷ rest)) ≡ token t (b'"' ∷ rest)
unfolding find_token
find_token-quoted t rest h = ap copied (copy_token-escaped t rest h)

length-render : (t : Text) (ts : List Text) → length (render ts) + 2 ≤ length (render (t ∷ ts))
unfolding render
length-render t ts = omega (arith, length-append (escaped t) (b'"' ∷ b' ' ∷ render ts))

words_loop-quoted :
    (fuel n : ℕ) (t : Text) (ts : List Text)
    → n < max_tokens
    → contains t 0 ≡ false
    → words_loop (suc (suc fuel)) n (render (t ∷ ts)) ≡ add t (words_loop fuel (suc n) (render ts))
unfolding words_loop words_found render
words_loop-quoted fuel n t ts room clean =
    let free : leb max_tokens n ≡ false = ground arith in
    rw free
      (rw (find_token-quoted t (b' ' ∷ render ts) clean) (rw (before_of_not-contains 0 t clean)))

words_loop-render :
    (fuel n : ℕ) (ts : List Text)
    → length (render ts) < fuel
    → n + length ts ≤ max_tokens
    → All (λ t. contains t 0 ≡ false) ts
    → words_loop fuel n (render ts) ≡ words ts none
words_loop-render zero n ts h room clean = absurd (omega arith)
words_loop-render (suc fuel) n [] h room clean = unfold render words_loop in refl
words_loop-render (suc zero) n (t ∷ ts) h room clean = absurd (omega (arith, length-render t ts))
words_loop-render (suc (suc fuel)) n (t ∷ ts) h room (clean, more) =
    words_loop-quoted fuel n t ts (omega arith) clean
    ∙ ap (add t)
        (words_loop-render fuel (suc n) ts (omega (arith, length-render t ts)) (omega arith) more)

-- The texts escaped by `escape_string`, one by one.
abbrev pub Escapes : (ℕ → Bool) → List Text → List Text → Type 0
Escapes memory [] [] = Unit
Escapes memory (t ∷ ts) (e ∷ es) = (escape_string memory t ≡ some e) × Escapes memory ts es
Escapes memory _ _ = ⊥

-- Texts in double quotes, each with a space behind it.
unfoldable pub in_quotes : List Text → Text
in_quotes [] = []
in_quotes (e ∷ es) = b'"' ∷ (e ++ (b'"' ∷ b' ' ∷ in_quotes es))

in_quotes-render :
    (memory : ℕ → Bool) (ts es : List Text) → Escapes memory ts es → in_quotes es ≡ render ts
unfolding in_quotes render
in_quotes-render memory [] [] h = refl
in_quotes-render memory [] (e ∷ es) h = absurd h
in_quotes-render memory (t ∷ ts) [] h = absurd h
in_quotes-render memory (t ∷ ts) (e ∷ es) (h, k) =
    rw (escape_string-some memory t h) (rw (in_quotes-render memory ts es k))

-- A line of at most 16 texts without NUL, each escaped by `escape_string` and put in double quotes,
-- is read back by `tokenize` as these texts, with no comment.
pub tokenize-escape_string :
    (memory : ℕ → Bool) (ts es : List Text)
    → length ts ≤ max_tokens
    → All (λ t. contains t 0 ≡ false) ts
    → Escapes memory ts es
    → texts (tokenize (in_quotes es)) ≡ words ts none
tokenize-escape_string memory ts es room clean h = rw (in_quotes-render memory ts es h) (
    tokenize-line_words (render ts)
    ∙ unfold line_words in
      words_loop-render (suc (length (render ts))) 0 ts (omega arith) (omega arith) clean)

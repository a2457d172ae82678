-- ===== src/Config/Refine.antt =====
-- config_parser.c: `tokenize`, with its one buffer for all tokens, gives the words of the line.

use mathlib.Core.List.{append-nil, append_assoc, map-append}
use openvpn_gui.Base.{
  ℕ, zero, suc, ◌≡◌, refl, ◌∙◌, sym, true, Option, none, some, List, [], ◌∷◌, ◌++◌, map, Bool-cases,
  inl, inr, length, length-concat, drop, drop-append, leb, ◌==◌, All, All-append,
}
use openvpn_gui.Base.Text.{
  Text, contains, before-concat, text_at, text_at-append, drop-append_of_contains,
  contains-append_left, contains-append_right,
}
use openvpn_gui.Config.{
  Found, token, comment, illegal, find_token, is_blank, max_tokens, Scan, tokenize_loop, tokenize,
  scan_found,
}
use openvpn_gui.Config.Words.{
  Words, words, refused, cut_off, add, add_all, c_string, words_found, words_loop, line_words,
  texts,
}

-- Each token has its NUL.
abbrev Ended : Text → List ℕ → Type 0
Ended sline tokens = All (λ n. contains (drop n sline) 0 ≡ true) tokens

map-text_at :
    (sline more : Text) (tokens : List ℕ)
    → Ended sline tokens
    → map (text_at (sline ++ more)) tokens ≡ map (text_at sline) tokens
map-text_at sline more [] h = refl
map-text_at sline more (n ∷ tokens) (h, k) =
    rw (text_at-append sline more n h) (rw (map-text_at sline more tokens k))

Ended-append :
    (sline more : Text) (tokens : List ℕ) → Ended sline tokens → Ended (sline ++ more) tokens
Ended-append sline more [] h = tt
Ended-append sline more (n ∷ tokens) (h, k) = (
  rw (drop-append_of_contains 0 n sline more h) (contains-append_left 0 (drop n sline) more h),
  Ended-append sline more tokens k,
)

text_at_last : (sline text : Text) → text_at (sline ++ text) (length sline) ≡ c_string text
text_at_last sline text = rw (drop-append sline text)

-- The tokens found so far and one more, at the end of what is written.
map-text_at_last :
    (sline text : Text) (tokens : List ℕ)
    → Ended sline tokens
    → map (text_at (sline ++ text)) (tokens ++ length sline ∷ [])
      ≡ map (text_at sline) tokens ++ c_string text ∷ []
map-text_at_last sline text tokens h =
    map-append (text_at (sline ++ text)) tokens (length sline ∷ [])
    ∙ rw (map-text_at sline text tokens h) (rw (text_at_last sline text))

add_all-words : (ts us : List Text) (c : Option Text) → add_all ts (words us c) ≡ words (ts ++ us) c
add_all-words [] us c = refl
add_all-words (t ∷ ts) us c = rw (add_all-words ts us c)

add_all-concat :
    (ts : List Text) (t : Text) (w : Words) → add_all (ts ++ t ∷ []) w ≡ add_all ts (add t w)
add_all-concat [] t w = refl
add_all-concat (u ∷ ts) t w = rw (add_all-concat ts t w)

add_all-refused : (ts : List Text) → add_all ts refused ≡ refused
add_all-refused [] = refl
add_all-refused (t ∷ ts) = rw (add_all-refused ts)

add_all-cut_off : (ts : List Text) → add_all ts cut_off ≡ cut_off
add_all-cut_off [] = refl
add_all-cut_off (t ∷ ts) = rw (add_all-cut_off ts)

Ended-last :
    (sline text : Text) (tokens : List ℕ)
    → Ended sline tokens
    → Ended ((sline ++ text) ++ 0 ∷ []) (tokens ++ length sline ∷ [])
Ended-last sline text tokens h =
    All-append (λ n. contains (drop n ((sline ++ text) ++ 0 ∷ [])) 0 ≡ true) tokens _
      (Ended-append (sline ++ text) (0 ∷ []) tokens (Ended-append sline text tokens h))
      (
        rw (append_assoc sline text (0 ∷ [])) (
            rw (drop-append sline (text ++ 0 ∷ []))
              (contains-append_right 0 text (0 ∷ []) (unfold contains in refl))),
        tt,
      )

text_at_last-Ended :
    (sline text : Text) (tokens : List ℕ)
    → Ended sline tokens
    → map (text_at ((sline ++ text) ++ 0 ∷ [])) (tokens ++ length sline ∷ [])
      ≡ map (text_at sline) tokens ++ c_string text ∷ []
text_at_last-Ended sline text tokens h =
    rw (append_assoc sline text (0 ∷ []))
      (map-text_at_last sline (text ++ 0 ∷ []) tokens h ∙ rw (before-concat 0 text))

-- `tokenize_loop` goes on from `p` as the words of `p` tell, whatever is written so far.
abbrev Agrees : (Text → Text → List ℕ → Scan) → (ℕ → Text → Words) → Type 0
Agrees scan next =
    (p sline : Text) (tokens : List ℕ)
    → Ended sline tokens
    → texts (scan p sline tokens) ≡ add_all (map (text_at sline) tokens) (next (length tokens) p)

add_all-end :
    (sline text : Text) (tokens : List ℕ)
    → Ended sline tokens
    → words (map (text_at (sline ++ text)) (tokens ++ length sline ∷ [])) none
      ≡ add_all (map (text_at sline) tokens) (words (c_string text ∷ []) none)
add_all-end sline text tokens h =
    rw (map-text_at_last sline text tokens h)
      (sym (add_all-words (map (text_at sline) tokens) (c_string text ∷ []) none))

scan_found-words :
    (scan : Text → Text → List ℕ → Scan) (next : ℕ → Text → Words) (sline : Text) (tokens : List ℕ)
    (f : Found)
    → Agrees scan next
    → Ended sline tokens
    → texts (scan_found scan sline tokens f)
      ≡ add_all (map (text_at sline) tokens) (words_found (next (suc (length tokens))) f)
unfolding scan_found words_found
scan_found-words scan next sline tokens (illegal text) agrees h =
    sym (add_all-refused (map (text_at sline) tokens))
scan_found-words scan next sline tokens (comment text) agrees h =
    rw (map-text_at sline text tokens h) (
      rw (drop-append sline text) (
        sym (add_all-words (map (text_at sline) tokens) [] (some (c_string text)) ∙ rw append-nil)))
scan_found-words scan next sline tokens (token text []) agrees h = add_all-end sline text tokens h
scan_found-words scan next sline tokens (token text (d ∷ rest)) agrees h =
    elim (Bool-cases (d == 0)) [
      | inl end ↦ rw end (add_all-end sline text tokens h)
      | inr more ↦ rw more (
          agrees rest ((sline ++ text) ++ 0 ∷ []) (tokens ++ length sline ∷ [])
            (Ended-last sline text tokens h)
          ∙ rw (text_at_last-Ended sline text tokens h) (
              rw (length-concat tokens (length sline))
                (add_all-concat (map (text_at sline) tokens) (c_string text) _)))
    ]

tokenize_loop-words : (fuel : ℕ) → Agrees (tokenize_loop fuel) (words_loop fuel)
unfolding tokenize_loop words_loop
tokenize_loop-words zero p sline tokens h = sym (add_all-cut_off (map (text_at sline) tokens))
tokenize_loop-words (suc fuel) [] sline tokens h =
    sym (add_all-words (map (text_at sline) tokens) [] none ∙ rw append-nil)
tokenize_loop-words (suc fuel) (c ∷ p) sline tokens h = elim (Bool-cases (c == 0)) [
  | inl end ↦ rw end (sym (add_all-words (map (text_at sline) tokens) [] none ∙ rw append-nil))
  | inr text ↦ rw text (elim (Bool-cases (is_blank c)) [
    | inl blank ↦ rw blank (
        tokenize_loop-words fuel p (sline ++ 0 ∷ []) tokens (Ended-append sline (0 ∷ []) tokens h)
        ∙ rw (map-text_at sline (0 ∷ []) tokens h))
    | inr word ↦ rw word (elim (Bool-cases (leb max_tokens (length tokens))) [
      | inl full ↦ rw full (sym (add_all-refused (map (text_at sline) tokens)))
      | inr room ↦ rw room (
          scan_found-words (tokenize_loop fuel) (words_loop fuel) sline tokens (find_token c p)
            (tokenize_loop-words fuel) h)
    ])
  ])
]

-- Reading the tokens and the comment back through their offsets, when the whole line is done, gives
-- the words of the line as a tokenizer with a separate buffer for each token finds them: no token
-- runs into the next one or is overwritten by it. The two fail on the same lines.
pub tokenize-line_words : (line : Text) → texts (tokenize line) ≡ line_words line
unfolding tokenize line_words
tokenize-line_words line = tokenize_loop-words (suc (length line)) line [] [] tt

-- ===== src/Config/Bounds.antt =====
-- config_parser.c: `tokenize` ends, and stays inside `sline` and `tokens`.
use openvpn_gui.Base.{
  ℕ, zero, suc, ◌+◌, ◌≤◌, ◌<◌, ◌≡◌, refl, List, [], ◌∷◌, ◌++◌, Bool-cases, inl, inr, arith, length,
  length-append, length-concat, leb, ◌==◌, ◌||◌,
}
use openvpn_gui.Base.Text.{Text, codes, contains}
use openvpn_gui.Config.{
  copy_token, cells_until, cells_from, legal_escape, is_comment, prepend, Copy, copied_to,
  bad_escape, copied, Found, token, comment, illegal, find_token, is_blank, max_tokens, Scan,
  scanned, failed, no_fuel, tokenize_loop, tokenize, scan_found,
}

abbrev CopyFits : ℕ → Copy → Type 0
CopyFits n (bad_escape written) = length written ≤ n
CopyFits n (copied_to written rest) = length written + length rest ≤ n

prepend-CopyFits : (c n : ℕ) (r : Copy) → CopyFits n r → CopyFits (suc n) (prepend c r)
prepend-CopyFits c n (bad_escape written) h = omega arith
prepend-CopyFits c n (copied_to written rest) h = omega arith

CopyFits-suc : (n : ℕ) (r : Copy) → CopyFits n r → CopyFits (suc n) r
CopyFits-suc n (bad_escape written) h = omega arith
CopyFits-suc n (copied_to written rest) h = omega arith

copy_token-CopyFits : (delim p : Text) → CopyFits (length p) (copy_token delim p)
unfolding copy_token
copy_token-CopyFits delim [] = omega arith
copy_token-CopyFits delim (c ∷ []) = ground arith
copy_token-CopyFits delim (c ∷ d ∷ p) =
    let escaped = prepend-CopyFits d (length p) _ (copy_token-CopyFits delim p) in
    let plain = prepend-CopyFits c (suc (length p)) _ (copy_token-CopyFits delim (d ∷ p)) in
    elim (Bool-cases (c == 0 || contains delim c)) [
      | inl stop ↦ rw stop (omega arith)
      | inr go ↦ rw go (elim (Bool-cases (c == b'\\')) [
        | inl slash ↦ rw slash (elim (Bool-cases (legal_escape d)) [
          | inl legal ↦ rw legal (CopyFits-suc (suc (length p)) _ escaped)
          | inr bad ↦ rw bad (omega arith)
        ])
        | inr other ↦ rw other plain
      ])
    ]

cells_len : (c : ℕ) (p : Text) → length (cells_until c p) + length (cells_from c p) ≡ length p
unfolding cells_until cells_from
cells_len c [] = refl
cells_len c (x ∷ p) = ground (arith, cells_len c p)

cells_until_len : (c : ℕ) (p : Text) → length (cells_until c p) ≤ length p
cells_until_len c p = omega (arith, cells_len c p)

-- What a round takes and what it leaves are no more than was there.
abbrev FoundFits : ℕ → Found → Type 0
FoundFits n (illegal text) = length text ≤ n
FoundFits n (comment text) = length text ≤ n
FoundFits n (token text rest) = length text + length rest ≤ n

copied-FoundFits : (n : ℕ) (r : Copy) → CopyFits n r → FoundFits n (copied r)
copied-FoundFits n (bad_escape written) h = h
copied-FoundFits n (copied_to written rest) h = h

find_token-FoundFits : (c : ℕ) (p : Text) → FoundFits (suc (length p)) (find_token c p)
unfolding find_token
find_token-FoundFits c p = elim (Bool-cases (c == b'\'')) [
  | inl single ↦ rw single (omega (arith, cells_len b'\'' p))
  | inr e1 ↦ rw e1 (elim (Bool-cases (c == b'"')) [
    | inl double ↦
        rw double
          (copied-FoundFits _ _ (CopyFits-suc (length p) _ (copy_token-CopyFits (codes "\"") p)))
    | inr e2 ↦ rw e2 (elim (Bool-cases (is_comment c)) [
      | inl sign ↦ rw sign (cells_until_len 0 (c ∷ p))
      | inr e3 ↦ rw e3 (copied-FoundFits _ _ (copy_token-CopyFits (codes " \t") (c ∷ p)))
    ])
  ])
]

abbrev pub Fits : ℕ → Scan → Type 0
Fits n (scanned sline tokens c) = (length sline ≤ n) × (length tokens ≤ max_tokens)
Fits n (failed sline tokens) = (length sline ≤ n) × (length tokens ≤ max_tokens)
Fits n no_fuel = ⊥

Fits-weaken : (m k : ℕ) (s : Scan) → m ≤ k → Fits m s → Fits k s
Fits-weaken m k (scanned a b c) le f = omega arith
Fits-weaken m k (failed a b) le f = omega arith
Fits-weaken m k no_fuel le f = f

-- The round behind the check for room, from the rounds that come after it.
scan_found-Fits :
    (next : Text → Text → List ℕ → Scan) (n : ℕ) (sline : Text) (tokens : List ℕ) (f : Found)
    → ((rest s : Text) (t : List ℕ)
        → length rest ≤ n
        → length t ≤ max_tokens
        → Fits (length s + length rest) (next rest s t))
    → length tokens < max_tokens
    → FoundFits (suc n) f
    → Fits (length sline + suc n) (scan_found next sline tokens f)
unfolding scan_found
scan_found-Fits next n sline tokens (illegal text) ih room h =
    omega (arith, length-append sline text, length-concat tokens (length sline))
scan_found-Fits next n sline tokens (comment text) ih room h =
    omega (arith, length-append sline text)
scan_found-Fits next n sline tokens (token text []) ih room h =
    omega (arith, length-append sline text, length-concat tokens (length sline))
scan_found-Fits next n sline tokens (token text (d ∷ rest)) ih room h = elim (Bool-cases (d == 0)) [
  | inl end ↦ rw end (omega (arith, length-append sline text, length-concat tokens (length sline)))
  | inr more ↦ rw more (
      Fits-weaken _ _ _ (omega (arith, length-append sline text, length-concat (sline ++ text) 0))
        (ih rest _ _ (omega arith) (omega (arith, length-concat tokens (length sline)))))
]

tokenize_loop-Fits :
    (fuel : ℕ) (p sline : Text) (tokens : List ℕ)
    → length p < fuel
    → length tokens ≤ max_tokens
    → Fits (length sline + length p) (tokenize_loop fuel p sline tokens)
unfolding tokenize_loop
tokenize_loop-Fits zero p sline tokens h room = absurd (omega arith)
tokenize_loop-Fits (suc fuel) [] sline tokens h room = omega arith
tokenize_loop-Fits (suc fuel) (c ∷ p) sline tokens h room = elim (Bool-cases (c == 0)) [
  | inl end ↦ rw end (omega arith)
  | inr text ↦ rw text (elim (Bool-cases (is_blank c)) [
    | inl blank ↦ rw blank (
        Fits-weaken _ _ _ (omega (arith, length-concat sline 0))
          (tokenize_loop-Fits fuel p (sline ++ 0 ∷ []) tokens (omega arith) room))
    | inr word ↦ rw word (elim (Bool-cases (leb max_tokens (length tokens))) [
      | inl full ↦ rw full (omega arith)
      | inr free ↦ rw free (
          scan_found-Fits (tokenize_loop fuel) (length p) sline tokens (find_token c p)
            (λ rest s t less fits. tokenize_loop-Fits fuel rest s t (omega arith) fits)
            (ground arith) (find_token-FoundFits c p))
    ])
  ])
]

-- `tokenize` ends on every line, with an error or with a result. Either way, `sline` has no more cells
-- written than the line has, and at most 16 tokens have been stored.
pub tokenize-Fits : (line : Text) → Fits (length line) (tokenize line)
unfolding tokenize
tokenize-Fits line =
    Fits-weaken _ _ (tokenize_loop (suc (length line)) line [] []) (omega arith)
      (tokenize_loop-Fits (suc (length line)) line [] [] (omega arith) (omega arith))

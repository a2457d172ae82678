-- ===== src/Base/Tokens.antt =====
-- `strtok` and `strstr` of the C library.
use Prim.Native.Nat.{ℕ, zero, suc}
use mathlib.Core.Path.{◌≡◌, refl, ap}
use mathlib.Core.Bool.{Bool, true, false}
use mathlib.Core.Option.{Option, none, some}
use mathlib.Core.List.{[], ◌∷◌, ◌++◌}
use openvpn_gui.Base.Lists.{All, length, take, drop}
use openvpn_gui.Base.Tests.{if◌then◌else◌, Bool-cases}
use native.Mathlib.Omega.{arith}
use Prim.Native.Nat.{◌≤◌, ◌<◌}
use mathlib.Core.Logic.{inl, inr}
use openvpn_gui.Base.Text.{Text, contains, skip_while, strbegins, after?}

-- `strtok`: a token has no character of `delims`; those in front of it are skipped, and one behind it.
unfoldable pub token_of : Text → Text → Text
token_of delims [] = []
token_of delims (c ∷ s) = let rest = token_of delims s in if contains delims c then [] else c ∷ rest

unfoldable pub behind_token : Text → Text → Text
behind_token delims [] = []
behind_token delims (c ∷ s) =
    let rest = behind_token delims s in if contains delims c then s else rest

abbrev pub first_token : Text → Text → Option (Text × Text)
first_token delims [] = none
first_token delims (c ∷ s) = some (token_of delims (c ∷ s), behind_token delims (c ∷ s))

-- The token, and the text that the next call goes on with.
unfoldable pub strtok : Text → Text → Option (Text × Text)
strtok delims s = first_token delims (skip_while (contains delims) s)

-- `strstr`: the text from the first occurrence of `pat` on.
unfoldable pub strstr : Text → Text → Option Text
strstr [] pat = if strbegins [] pat then some [] else none
strstr (c ∷ s) pat = let rest = strstr s pat in if strbegins (c ∷ s) pat then some (c ∷ s) else rest

-- The text that is cut off at the first occurrence of `pat`.
unfoldable pub cut_off : Text → Text → Text
cut_off [] pat = []
cut_off (c ∷ s) pat = let rest = cut_off s pat in if strbegins (c ∷ s) pat then [] else c ∷ rest

abbrev pub found : Option Text → Bool
found none = false
found (some s) = true

-- No character of the text is a delimiter.
abbrev pub Plain : Text → Text → Type 0
Plain delims s = All (λ c. contains delims c ≡ false) s

pub token_of-Plain :
    (delims s rest : Text) (d : ℕ)
    → Plain delims s
    → contains delims d ≡ true
    → (token_of delims (s ++ d ∷ rest) ≡ s) × (behind_token delims (s ++ d ∷ rest) ≡ rest)
unfolding token_of behind_token
token_of-Plain delims [] rest d h e = rw e (refl, refl)
token_of-Plain delims (c ∷ s) rest d h e =
    let ih = token_of-Plain delims s rest d h.1 e in rw h.0 (ap (◌∷◌ c) ih.0, ih.1)

-- A token behind no delimiters.
pub strtok-append :
    (delims s rest : Text) (c d : ℕ)
    → Plain delims (c ∷ s)
    → contains delims d ≡ true
    → strtok delims ((c ∷ s) ++ d ∷ rest) ≡ some (c ∷ s, rest)
unfolding strtok skip_while
strtok-append delims s rest c d h e =
    let cut = token_of-Plain delims (c ∷ s) rest d h e in rw (h.0, cut.0, cut.1) refl

-- A delimiter in front is skipped.
pub strtok_skip :
    (delims s : Text) (d : ℕ) → contains delims d ≡ true → strtok delims (d ∷ s) ≡ strtok delims s
unfolding strtok skip_while
strtok_skip delims s d e = rw e refl

token_of_all : (s : Text) → (token_of [] s ≡ s) × (behind_token [] s ≡ [])
unfolding token_of behind_token contains
token_of_all [] = (refl, refl)
token_of_all (c ∷ s) = let ih = token_of_all s in (ap (◌∷◌ c) ih.0, ih.1)

-- Without delimiters the whole text is the token.
pub strtok_all : (c : ℕ) (s : Text) → strtok [] (c ∷ s) ≡ some (c ∷ s, [])
unfolding strtok skip_while contains
strtok_all c s = let all = token_of_all (c ∷ s) in rw (all.0, all.1) refl

pub length-skip_while : (test : ℕ → Bool) (s : Text) → length (skip_while test s) ≤ length s
unfolding skip_while
length-skip_while test [] = omega arith
length-skip_while test (c ∷ s) = elim (Bool-cases (test c)) [
  | inl e ↦ rw e (omega (arith, length-skip_while test s))
  | inr e ↦ rw e (omega arith)
]

length-behind_token : (delims : Text) (s : Text) → length (behind_token delims s) ≤ length s
unfolding behind_token
length-behind_token delims [] = omega arith
length-behind_token delims (c ∷ s) = elim (Bool-cases (contains delims c)) [
  | inl e ↦ rw (e, behind_token) (omega arith)
  | inr e ↦ rw (e, behind_token) (omega (arith, length-behind_token delims s))
]

-- The text that the next call goes on with.
abbrev pub Shorter : ℕ → Option (Text × Text) → Type 0
Shorter n none = Unit
Shorter n (some (token, rest)) = length rest < n

first_token-Shorter :
    (delims s : Text)
    → All (λ c. contains delims c ≡ false) (take 1 s)
    → Shorter (length s) (first_token delims s)
unfolding behind_token
first_token-Shorter delims [] h = tt
first_token-Shorter delims (c ∷ s) h =
    rw (h.0, behind_token) (omega (arith, length-behind_token delims s))

pub skip_while-stops :
    (test : ℕ → Bool) (s : Text) → All (λ c. test c ≡ false) (take 1 (skip_while test s))
unfolding skip_while
skip_while-stops test [] = tt
skip_while-stops test (c ∷ s) = elim (Bool-cases (test c)) [
  | inl e ↦ rw (e, skip_while) (skip_while-stops test s)
  | inr e ↦ rw (e, skip_while) (e, tt)
]

Shorter-weaken : (n m : ℕ) (o : Option (Text × Text)) → n ≤ m → Shorter n o → Shorter m o
Shorter-weaken n m none l h = tt
Shorter-weaken n m (some (token, rest)) l h = omega arith

-- A token takes at least one character, so that a loop of calls ends.
pub strtok-Shorter : (delims s : Text) → Shorter (length s) (strtok delims s)
unfolding strtok
strtok-Shorter delims s =
    let rest = skip_while (contains delims) s in
    Shorter-weaken (length rest) (length s) (first_token delims rest)
      (length-skip_while (contains delims) s)
      (first_token-Shorter delims rest (skip_while-stops (contains delims) s))

-- A character that a text lacks is not in its parts.
pub not-contains-skip_while :
    (q : ℕ) (test : ℕ → Bool) (s : Text)
    → contains s q ≡ false
    → contains (skip_while test s) q ≡ false
unfolding contains skip_while
not-contains-skip_while q test [] h = h
not-contains-skip_while q test (c ∷ s) h = elim (Bool-cases (test c)) [
  | inl e ↦ rw (e, skip_while) (not-contains-skip_while q test s (ground arith))
  | inr e ↦ rw (e, skip_while) h
]

pub not-contains-drop : (q n : ℕ) (s : Text) → contains s q ≡ false → contains (drop n s) q ≡ false
unfolding contains
not-contains-drop q zero s h = h
not-contains-drop q (suc n) [] h = h
not-contains-drop q (suc n) (c ∷ s) h = not-contains-drop q n s (ground arith)

pub not-contains-after? :
    (q c : ℕ) (s rest : Text)
    → contains s q ≡ false
    → after? c s ≡ some rest
    → contains rest q ≡ false
unfolding contains after?
not-contains-after? q c [] rest h e = cc
not-contains-after? q c (x ∷ s) rest h e = ground (arith, not-contains-after? q c s rest)

pub not-contains-strstr :
    (q : ℕ) (s pat rest : Text)
    → contains s q ≡ false
    → strstr s pat ≡ some rest
    → contains rest q ≡ false
unfolding contains strstr
not-contains-strstr q [] pat rest h e = elim (Bool-cases (strbegins [] pat)) [
  | inl k ↦ ground arith
  | inr k ↦ absurd ground arith
]
not-contains-strstr q (x ∷ s) pat rest h e = elim (Bool-cases (strbegins (x ∷ s) pat)) [
  | inl k ↦ ground arith
  | inr k ↦ ground (arith, not-contains-strstr q s pat rest)
]

not-contains-token_of :
    (q : ℕ) (delims s : Text)
    → contains s q ≡ false
    → (contains (token_of delims s) q ≡ false) × (contains (behind_token delims s) q ≡ false)
unfolding contains token_of behind_token
not-contains-token_of q delims [] h = (h, h)
not-contains-token_of q delims (c ∷ s) h = elim (Bool-cases (contains delims c)) [
  | inl e ↦ rw (e, token_of, behind_token) (refl, ground arith)
  | inr e ↦
      let ih = not-contains-token_of q delims s (ground arith) in
      rw (e, token_of, behind_token) (ground (arith, ih.0), ih.1)
]

-- Neither the token nor what follows has the character.
abbrev pub Lacks : ℕ → Option (Text × Text) → Type 0
Lacks q none = Unit
Lacks q (some (token, rest)) = (contains token q ≡ false) × (contains rest q ≡ false)

first_token-Lacks :
    (q : ℕ) (delims s : Text) → contains s q ≡ false → Lacks q (first_token delims s)
first_token-Lacks q delims [] h = tt
first_token-Lacks q delims (c ∷ s) h = not-contains-token_of q delims (c ∷ s) h

pub strtok-Lacks : (q : ℕ) (delims s : Text) → contains s q ≡ false → Lacks q (strtok delims s)
unfolding strtok
strtok-Lacks q delims s h =
    first_token-Lacks q delims (skip_while (contains delims) s)
      (not-contains-skip_while q (contains delims) s h)

-- ===== src/Base/Text.antt =====
-- Strings of the C library. A `Text` holds the characters before the terminating NUL, as numbers.
-- `wide` literals are written by `codes`.
use Prim.Native.Char.{code}
use Prim.Native.Nat.{◌<◌, zero, suc}
use openvpn_gui.Base.Lists.{drop, length}
use Prim.Native.Nat.{◌<◌, ℕ}
use Prim.Native.String.{String}
use mathlib.Core.Path.{◌≡◌, refl}
use mathlib.Core.Logic.{◌↔◌}
use mathlib.Core.Bool.{Bool, true, false, ◌&&◌}
use mathlib.Core.Option.{Option, none, some}
use mathlib.Core.List.{List, [], ◌∷◌, ◌++◌}
use native.Mathlib.Omega.{arith}
use openvpn_gui.Base.Tests.{==_refl, ◌==◌, if◌then◌else◌}

abbrev pub Text : Type 0
Text = List ℕ

-- The code points of a literal.
abbrev pub codes : String → Text
codes String.[] = []
codes (String.◌∷◌ c s) = code c ∷ codes s

-- `strcmp(a, b) == 0`.
unfoldable pub streq : Text → Text → Bool
streq [] [] = true
streq (x ∷ xs) (y ∷ ys) = x == y && streq xs ys
streq _ _ = false

-- `strncmp(str, begin, strlen(begin)) == 0`.
unfoldable pub strbegins : Text → Text → Bool
strbegins str [] = true
strbegins [] (b ∷ bs) = false
strbegins (s ∷ ss) (b ∷ bs) = s == b && strbegins ss bs

-- Whether `strchr(s, c)` finds `c` before the end.
unfoldable pub contains : Text → ℕ → Bool
contains [] c = false
contains (x ∷ xs) c = if x == c then true else contains xs c

-- The characters before the first `c`, which are the whole text where there is none
-- (`strcspn` is their number).
unfoldable pub before : ℕ → Text → Text
before c [] = []
before c (x ∷ xs) = if x == c then [] else x ∷ before c xs

-- What stands behind the first `c`: `none` where `strchr` returns NULL.
unfoldable pub after? : ℕ → Text → Option Text
after? c [] = none
after? c (x ∷ xs) = if x == c then some xs else after? c xs

-- The text behind the leading characters that `test` takes (`strspn`).
unfoldable pub skip_while : (ℕ → Bool) → Text → Text
skip_while test [] = []
skip_while test (x ∷ xs) = if test x then skip_while test xs else x ∷ xs

pub streq_iff : (a b : Text) → (streq a b ≡ true) ↔ (a ≡ b)
unfolding streq
streq_iff (x ∷ a) (y ∷ b) = ground (arith, streq_iff a b)
streq_iff _ _ = ground arith

pub streq_refl : (a : Text) → streq a a ≡ true
streq_refl a = (streq_iff a a).1 refl

pub strbegins-append : (a b : Text) → strbegins (a ++ b) a ≡ true
unfolding strbegins
strbegins-append [] b = refl
strbegins-append (x ∷ a) b = ground (arith, strbegins-append a b)

-- `before` and `after?` cut a text at the first `c`.
pub split_at : (c : ℕ) (s rest : Text) → after? c s ≡ some rest → s ≡ before c s ++ (c ∷ rest)
unfolding before after?
split_at c [] rest h = cc
split_at c (x ∷ s) rest h = ground (arith, split_at c s rest)

pub contains-before : (c : ℕ) (s : Text) → contains (before c s) c ≡ false
unfolding before contains
contains-before c [] = refl
contains-before c (x ∷ s) = ground (arith, contains-before c s)

pub before-append : (c : ℕ) (s rest : Text) → contains s c ≡ false → before c (s ++ (c ∷ rest)) ≡ s
unfolding before contains
before-append c [] rest h = ground arith
before-append c (x ∷ s) rest h = ground (arith, before-append c s rest)

pub after?-append :
    (c : ℕ) (s rest : Text) → contains s c ≡ false → after? c (s ++ (c ∷ rest)) ≡ some rest
unfolding after? contains
after?-append c [] rest h = ground arith
after?-append c (x ∷ s) rest h = ground (arith, after?-append c s rest)

pub before_of_not-contains : (c : ℕ) (s : Text) → contains s c ≡ false → before c s ≡ s
unfolding before contains
before_of_not-contains c [] h = refl
before_of_not-contains c (x ∷ s) h = ground (arith, before_of_not-contains c s)

pub after?_of_not-contains : (c : ℕ) (s : Text) → contains s c ≡ false → after? c s ≡ none
unfolding after? contains
after?_of_not-contains c [] h = refl
after?_of_not-contains c (x ∷ s) h = ground (arith, after?_of_not-contains c s)

pub not-contains_of_after? : (c : ℕ) (s : Text) → after? c s ≡ none → contains s c ≡ false
unfolding after? contains
not-contains_of_after? c [] h = refl
not-contains_of_after? c (x ∷ s) h = ground (arith, not-contains_of_after? c s)

-- What stands at an offset of a buffer, up to its NUL.
abbrev pub text_at : Text → ℕ → Text
text_at cells offset = before 0 (drop offset cells)

pub drop-append_of_contains :
    (c n : ℕ) (s t : Text) → contains (drop n s) c ≡ true → drop n (s ++ t) ≡ drop n s ++ t
unfolding contains
drop-append_of_contains c zero s t h = refl
drop-append_of_contains c (suc n) [] t h = cc
drop-append_of_contains c (suc n) (x ∷ s) t h = drop-append_of_contains c n s t h

pub before-append_of_contains :
    (c : ℕ) (s t : Text) → contains s c ≡ true → before c (s ++ t) ≡ before c s
unfolding contains before
before-append_of_contains c [] t h = cc
before-append_of_contains c (x ∷ s) t h = ground (arith, before-append_of_contains c s t)

pub contains-append_left : (c : ℕ) (s t : Text) → contains s c ≡ true → contains (s ++ t) c ≡ true
unfolding contains
contains-append_left c [] t h = cc
contains-append_left c (x ∷ s) t h = ground (arith, contains-append_left c s t)

pub contains-append_right : (c : ℕ) (s t : Text) → contains t c ≡ true → contains (s ++ t) c ≡ true
unfolding contains
contains-append_right c [] t h = h
contains-append_right c (x ∷ s) t h = ground (arith, contains-append_right c s t)

-- A text that a NUL ends is not changed by what is written behind it.
pub text_at-append :
    (cells more : Text) (offset : ℕ)
    → contains (drop offset cells) 0 ≡ true
    → text_at (cells ++ more) offset ≡ text_at cells offset
text_at-append cells more offset h =
    rw (drop-append_of_contains 0 offset cells more h)
      (before-append_of_contains 0 (drop offset cells) more h)

pub before-concat : (c : ℕ) (s : Text) → before c (s ++ c ∷ []) ≡ before c s
unfolding before
before-concat c [] = rw (==_refl c)
before-concat c (x ∷ s) = ground (arith, before-concat c s)

pub contains-append :
    (c : ℕ) (s t : Text) → contains s c ≡ false → contains t c ≡ false → contains (s ++ t) c ≡ false
unfolding contains
contains-append c [] t h k = k
contains-append c (x ∷ s) t h k = ground (arith, contains-append c s t)

-- What is found in a text is found in the same place when more follows.
pub after?-append_right :
    (c : ℕ) (s t rest : Text)
    → after? c s ≡ some rest
    → (after? c (s ++ t) ≡ some (rest ++ t)) × (before c (s ++ t) ≡ before c s)
unfolding after? before
after?-append_right c [] t rest h = cc
after?-append_right c (x ∷ s) t rest h = ground (arith, after?-append_right c s t rest)

pub strbegins-append_left : (s t p : Text) → strbegins s p ≡ true → strbegins (s ++ t) p ≡ true
unfolding strbegins
strbegins-append_left s t [] h = refl
strbegins-append_left [] t (b ∷ p) h = cc
strbegins-append_left (x ∷ s) t (b ∷ p) h = ground (arith, strbegins-append_left s t p)

-- A text with a character that `p` lacks has shown already whether it begins with `p`.
pub strbegins-append_of_after? :
    (c : ℕ) (s t p rest : Text)
    → contains p c ≡ false
    → after? c s ≡ some rest
    → strbegins (s ++ t) p ≡ strbegins s p
unfolding strbegins contains after?
strbegins-append_of_after? c s t [] rest h k = refl
strbegins-append_of_after? c [] t (b ∷ p) rest h k = cc
strbegins-append_of_after? c (x ∷ s) t (b ∷ p) rest h k =
    ground (arith, strbegins-append_of_after? c s t p rest)

pub length-after? : (c : ℕ) (s rest : Text) → after? c s ≡ some rest → length rest < length s
unfolding after?
length-after? c [] rest h = cc
length-after? c (x ∷ s) rest h = ground (arith, length-after? c s rest)

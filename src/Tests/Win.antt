-- ===== src/Tests/Win.antt =====
-- An ordinal comparison of ASCII texts that ignores case, as an instance of the Windows calls.
use mathlib.Core.Option.{some-injective}
use openvpn_gui.Base.{
  ℕ, ◌-◌, ◌<◌, ◌≡◌, refl, sym, ◌&&◌, some, [], ◌∷◌, ◌++◌, if◌then◌else◌, Ordering, compare, arith,
  leb, All,
}
use openvpn_gui.Base.Text.{Text}
use openvpn_gui.Env.{Win}

upper : ℕ → ℕ
upper c = if leb b'a' c && leb c b'z' then c - 32 else c

unfoldable pub compare_ascii : Text → Text → Ordering
unfolding upper
compare_ascii [] [] = Ordering.eq
compare_ascii [] (y ∷ b) = Ordering.lt
compare_ascii (x ∷ a) [] = Ordering.gt
compare_ascii (x ∷ a) (y ∷ b) =
    let later = compare_ascii a b in
    elim (compare (upper x) (upper y)) [
      | Ordering.lt ↦ Ordering.lt
      | Ordering.eq ↦ later
      | Ordering.gt ↦ Ordering.gt
    ]

pub compare_ascii_refl : (a : Text) → compare_ascii a a ≡ Ordering.eq
unfolding compare_ascii
compare_ascii_refl [] = refl
compare_ascii_refl (x ∷ a) = ground (arith, compare_ascii_refl a)

pub compare_ascii_lt :
    (a b : Text) → compare_ascii a b ≡ Ordering.lt → compare_ascii b a ≡ Ordering.gt
unfolding compare_ascii
compare_ascii_lt [] [] h = cc
compare_ascii_lt [] (y ∷ b) h = refl
compare_ascii_lt (x ∷ a) [] h = cc
compare_ascii_lt (x ∷ a) (y ∷ b) h = ground (arith, compare_ascii_lt a b)

pub compare_ascii_gt :
    (a b : Text) → compare_ascii a b ≡ Ordering.gt → compare_ascii b a ≡ Ordering.lt
unfolding compare_ascii
compare_ascii_gt [] [] h = cc
compare_ascii_gt [] (y ∷ b) h = cc
compare_ascii_gt (x ∷ a) [] h = refl
compare_ascii_gt (x ∷ a) (y ∷ b) h = ground (arith, compare_ascii_gt a b)

pub compare_ascii_congr :
    (a b c : Text) → compare_ascii a b ≡ Ordering.eq → compare_ascii a c ≡ compare_ascii b c
unfolding compare_ascii
compare_ascii_congr [] [] c h = refl
compare_ascii_congr [] (y ∷ b) c h = cc
compare_ascii_congr (x ∷ a) [] c h = cc
compare_ascii_congr (x ∷ a) (y ∷ b) [] h = refl
compare_ascii_congr (x ∷ a) (y ∷ b) (z ∷ c) h = ground (arith, compare_ascii_congr a b c)

pub compare_ascii_trans :
    (a b c : Text)
    → compare_ascii a b ≡ Ordering.lt
    → compare_ascii b c ≡ Ordering.lt
    → compare_ascii a c ≡ Ordering.lt
unfolding compare_ascii
compare_ascii_trans [] [] c h k = cc
compare_ascii_trans [] (y ∷ b) [] h k = cc
compare_ascii_trans [] (y ∷ b) (z ∷ c) h k = refl
compare_ascii_trans (x ∷ a) [] c h k = cc
compare_ascii_trans (x ∷ a) (y ∷ b) [] h k = cc
compare_ascii_trans (x ∷ a) (y ∷ b) (z ∷ c) h k =
    ground (arith, compare_ascii_trans a b c, compare_ascii_congr a b c)

pub widen_ascii :
    (a s w : Text) → All (λ c. c < 128) a → some (a ++ s) ≡ some w → (v : Text) × (w ≡ a ++ v)
widen_ascii a s w h e = (s, sym (some-injective _ _ e))

abbrev pub ascii_win : Win
ascii_win = record {
  compare_ordinal = compare_ascii;
  compare_refl = compare_ascii_refl;
  compare_swap_lt = compare_ascii_lt;
  compare_swap_gt = compare_ascii_gt;
  compare_trans = compare_ascii_trans;
  compare_congr = compare_ascii_congr;
  widen = λ s. some s;
  widen_ascii = widen_ascii;
}

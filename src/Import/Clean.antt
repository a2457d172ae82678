-- ===== src/Import/Clean.antt =====
-- as.c: the names of imported profiles are names of files.
use openvpn_gui.Base.{
  ℕ, suc, ◌-◌, ◌≤◌, ◌<◌, ◌≡◌, ◌≢◌, map, refl, ap, false, List, [], ◌∷◌, ◌++◌, Bool-cases, ◌⊎◌, inl,
  inr, arith, length, take_of_le, take, All,
}
use openvpn_gui.Base.Text.{Text, codes, streq, contains}
use openvpn_gui.Import.{is_reserved, special, replace_reserved, replace_special, sanitize_filename}

-- A character that Windows allows in the name of a file.
abbrev pub Allowed : ℕ → Type 0
Allowed c =
    (32 ≤ c)
    × (c ≢ b'<')
    × (c ≢ b'>')
    × (c ≢ b':')
    × (c ≢ b'"')
    × (c ≢ b'/')
    × (c ≢ b'\\')
    × (c ≢ b'|')
    × (c ≢ b'?')
    × (c ≢ b'*')
    × (c ≢ b';')

-- The names of devices.
abbrev pub numbered : Text → List Text
numbered port = map (λ d. port ++ d ∷ []) (codes "123456789")

abbrev pub devices : List Text
devices =
    (codes "CON" ∷ codes "PRN" ∷ codes "AUX" ∷ codes "NUL" ∷ [])
    ++ (numbered (codes "COM") ++ numbered (codes "LPT"))

-- A name of fewer than `n` characters, all of which are allowed, and which is not that of a device.
pub record Clean (n : ℕ) (name : Text) : Type 0 where
  pub short : length name < n
  pub plain : All Allowed name
  pub other : All (λ s. streq name s ≡ false) devices

not_reserved-Allowed : (c : ℕ) → is_reserved c ≡ false → Allowed c
unfolding contains
not_reserved-Allowed c h = ground arith

underscore-Allowed : Allowed b'_'
underscore-Allowed = ground arith

replace_reserved_plain : (s : Text) → All Allowed (replace_reserved s)
unfolding replace_reserved
replace_reserved_plain [] = tt
replace_reserved_plain (c ∷ s) = elim (Bool-cases (is_reserved c)) [
  | inl e ↦ rw e (underscore-Allowed, replace_reserved_plain s)
  | inr e ↦ rw e (not_reserved-Allowed c e, replace_reserved_plain s)
]

length-replace_reserved : (s : Text) → length (replace_reserved s) ≡ length s
unfolding replace_reserved
length-replace_reserved [] = refl
length-replace_reserved (c ∷ s) = ap suc (length-replace_reserved s)

abbrev Unlike : Text → List Text → Type 0
Unlike fname names = All (λ s. streq fname s ≡ false) names

replace_special-Unlike :
    (n : ℕ) (names : List Text) (fname : Text)
    → Unlike fname names
    → replace_special n names fname ≡ fname
unfolding replace_special
replace_special-Unlike n [] fname h = refl
replace_special-Unlike n (s ∷ names) fname h =
    rw (h.0, replace_special) (replace_special-Unlike n names fname h.1)

take-tmp : (n : ℕ) → 4 ≤ n → take (n - 1) (codes "TMP") ≡ codes "TMP"
take-tmp n h = take_of_le (n - 1) (codes "TMP") (omega arith)

-- A name that none of the names is, or else "TMP".
replace_special-cases :
    (n : ℕ) (names : List Text) (fname : Text)
    → 4 ≤ n
    → Unlike (codes "TMP") names
    → Unlike fname names ⊎ (replace_special n names fname ≡ codes "TMP")
unfolding replace_special
replace_special-cases n [] fname h k = inl tt
replace_special-cases n (s ∷ names) fname h k = elim (Bool-cases (streq fname s)) [
  | inl e ↦
      inr (rw (e, take-tmp n h, replace_special) (replace_special-Unlike n names (codes "TMP") k.1))
  | inr e ↦ elim (replace_special-cases n names fname h k.1) [
    | inl other ↦ inl (e, other)
    | inr tmp ↦ inr (rw (e, replace_special) tmp)
  ]
]

tmp-Unlike : Unlike (codes "TMP") special
unfolding streq
tmp-Unlike = (
  refl,
  (
    refl,
    (
      refl,
      (
        refl,
        (
          refl,
          (
            refl,
            (
              refl,
              (
                refl,
                (
                  refl,
                  (
                    refl,
                    (
                      refl,
                      (
                        refl,
                        (
                          refl,
                          (
                            refl,
                            (refl, (refl, (refl, (refl, (refl, (refl, (refl, (refl, tt)))))))),
                          ),
                        ),
                      ),
                    ),
                  ),
                ),
              ),
            ),
          ),
        ),
      ),
    ),
  ),
)

tmp-Allowed : All Allowed (codes "TMP")
tmp-Allowed = (ground arith, (ground arith, (ground arith, tt)))

-- A name that fits is clean when it is sanitized, if there is room for "TMP".
pub sanitize_filename-Clean :
    (n : ℕ) (fname : Text) → 4 ≤ n → length fname < n → Clean n (sanitize_filename n fname)
unfolding sanitize_filename contains
sanitize_filename-Clean n fname h l =
    let s = replace_reserved fname in
    elim (replace_special-cases n special s h tmp-Unlike) [
      | inl other ↦ rw (replace_special-Unlike n special s other) (record {
        short = omega (arith, length-replace_reserved fname, l);
        plain = replace_reserved_plain fname;
        other = other;
      })
      | inr tmp ↦ rw tmp (record { short = omega arith; plain = tmp-Allowed; other = tmp-Unlike })
    ]

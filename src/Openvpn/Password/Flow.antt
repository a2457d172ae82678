-- ===== src/Openvpn/Password/Flow.antt =====
-- openvpn.c: a dynamic challenge from its announcement to its dialog.
use openvpn_gui.Base.{ℕ, ◌≡◌, refl, Bool, true, false, Option, none, some, [], ◌∷◌, ◌++◌, arith}
use openvpn_gui.Base.Text.{Text, codes, strbegins, contains}
use openvpn_gui.Conn.{Conn}
use openvpn_gui.Openvpn.Challenge.{AuthParam, parse_dynamic_cr}
use openvpn_gui.Base.Tokens.{cut_off, strstr}
use openvpn_gui.Openvpn.Password.{verification_failed, auth_request, ask_input, on_password}

cut_off-append :
    (str : Text) → contains str b'\'' ≡ false → cut_off (str ++ codes "']") (codes "']") ≡ str
unfolding cut_off strbegins contains
cut_off-append [] h = refl
cut_off-append (c ∷ str) h = ground (arith, cut_off-append str)

module _ (base64 : Text → Option Text) (strtoul : Text → ℕ) (otp : Bool) where
  announced :
      (c : Conn) (str : Text)
      → contains str b'\'' ≡ false
      → on_password base64 strtoul otp true c
          (codes "Verification Failed: 'Auth' ['CRV1:" ++ (str ++ codes "']"))
        ≡ (record c { dynamic_cr = some str }, none)
  unfolding on_password verification_failed strbegins strstr
  announced c str h = rw (cut_off-append str h) refl

  asked :
      (c : Conn) (param : Option AuthParam) (challenge : Text)
      → parse_dynamic_cr base64 true challenge ≡ param
      → c.dynamic_cr ≡ some challenge
      → let out = on_password base64 strtoul otp true c (codes "Need 'Auth' username/password") in
        (out.0.dynamic_cr ≡ none) × (out.1 ≡ ask_input base64 strtoul otp true param)
  unfolding on_password auth_request strbegins strstr
  asked c none challenge p e = rw (e, p, auth_request) (refl, refl)
  asked c (some param) challenge p e = rw (e, p, auth_request) (refl, refl)

  -- A failed verification that announces a dynamic challenge without a quote opens no dialog. The next
  -- request for a user name, when memory lasts, opens the dialog for exactly what `parse_dynamic_cr`
  -- reads from that challenge, or none where it fails, and the challenge is not kept for another.
  pub on_password-parse_dynamic_cr :
      (c : Conn) (str : Text)
      → contains str b'\'' ≡ false
      → let first =
          on_password base64 strtoul otp true c
            (codes "Verification Failed: 'Auth' ['CRV1:" ++ (str ++ codes "']")) in
        let next =
          on_password base64 strtoul otp true first.0 (codes "Need 'Auth' username/password") in
        (first.1 ≡ none)
        × (next.0.dynamic_cr ≡ none)
        × (next.1 ≡ ask_input base64 strtoul otp true (parse_dynamic_cr base64 true str))
  on_password-parse_dynamic_cr c str h =
      let next = asked (record c { dynamic_cr = some str }) _ str refl refl in
      rw (announced c str h) (refl, next.0, next.1)

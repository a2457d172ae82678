-- ===== src/Openvpn/Challenge/RoundTrip.antt =====
-- openvpn.c: the requests of the daemon are read as they are written.
use openvpn_gui.Base.{ℕ, ◌≡◌, refl, true, not, Option, some, ◌∷◌, ◌++◌}
use openvpn_gui.Base.Text.{Text, codes, streq, strbegins, contains}
use openvpn_gui.Base.Tokens.{Plain, strtok-append, strtok_skip, strtok_all}
use openvpn_gui.Openvpn.Challenge.{
  no_param, cr_tokens, with_user, dynamic_cr_of, parse_dynamic_cr, request_tokens, request_of,
  parse_input_request, or_id,
}

cr_tokens_lem :
    (f i u c : ℕ) (flags id user challenge : Text)
    → Plain (codes ":") (f ∷ flags)
    → Plain (codes ":") (i ∷ id)
    → Plain (codes ":") (u ∷ user)
    → cr_tokens ((f ∷ flags) ++ b':' ∷ ((i ∷ id) ++ b':' ∷ ((u ∷ user) ++ b':' ∷ c ∷ challenge)))
      ≡ some (f ∷ flags, i ∷ id, u ∷ user, c ∷ challenge)
unfolding contains cr_tokens
cr_tokens_lem f i u c flags id user challenge hf hi hu =
    let colon = codes ":" in
    let s3 = c ∷ challenge in
    let s2 = (u ∷ user) ++ b':' ∷ s3 in
    let s1 = (i ∷ id) ++ b':' ∷ s2 in
    rw
      (
        strtok-append colon flags s1 f b':' hf refl,
        strtok-append colon id s2 i b':' hi refl,
        strtok-append colon user s3 u b':' hu refl,
        strtok_all c challenge,
        cr_tokens,
      )
      refl

-- A dynamic challenge "flags:id:user:challenge", whose first three parts are not empty and have no
-- colon, whose user is base64, and whose challenge is not empty but may have colons, is read, when
-- memory lasts, as that id, the decoded user and that challenge, with an echo and a response
-- wanted where the flags have an 'E' and an 'R'.
pub parse_dynamic_cr_lem :
    (base64 : Text → Option Text) (f i u c : ℕ) (flags id user challenge decoded : Text)
    → Plain (codes ":") (f ∷ flags)
    → Plain (codes ":") (i ∷ id)
    → Plain (codes ":") (u ∷ user)
    → base64 (u ∷ user) ≡ some decoded
    → parse_dynamic_cr base64 true
        ((f ∷ flags) ++ b':' ∷ ((i ∷ id) ++ b':' ∷ ((u ∷ user) ++ b':' ∷ c ∷ challenge)))
      ≡ some (record no_param {
        user = decoded;
        id = i ∷ id;
        str = c ∷ challenge;
        cr_type_crv1 = true;
        cr_echo = contains (f ∷ flags) b'E';
        cr_response = contains (f ∷ flags) b'R';
      })
unfolding parse_dynamic_cr dynamic_cr_of with_user
parse_dynamic_cr_lem base64 f i u c flags id user challenge decoded hf hi hu e =
    rw (cr_tokens_lem f i u c flags id user challenge hf hi hu, e) refl

pub request_tokens_lem :
    (i w : ℕ) (id what text : Text)
    → Plain (codes "'") (i ∷ id)
    → Plain (codes " ") (w ∷ what)
    → request_tokens (
        codes "Need"
        ++ b' '
          ∷ b'\''
          ∷ ((i ∷ id) ++ b'\'' ∷ b' ' ∷ ((w ∷ what) ++ b' ' ∷ (codes "MSG:" ++ text))))
      ≡ some (codes "Need", i ∷ id, w ∷ what, some (codes "MSG:" ++ text))
unfolding contains request_tokens
request_tokens_lem i w id what text hi hw =
    let s3 = codes "MSG:" ++ text in
    let s2 = (w ∷ what) ++ b' ' ∷ s3 in
    let s1 = (i ∷ id) ++ b'\'' ∷ b' ' ∷ s2 in
    rw
      (
        strtok-append (codes " ") (codes "eed") (b'\'' ∷ s1) b'N' b' '
            (refl, (refl, (refl, (refl, tt)))) refl,
        strtok_skip (codes "'") s1 b'\'' refl,
        strtok-append (codes "'") id (b' ' ∷ s2) i b'\'' hi refl,
        strtok_skip (codes " ") s2 b' ' refl,
        strtok-append (codes " ") what s3 w b' ' hw refl,
        strtok_all b'M' (codes "SG:" ++ text),
        request_tokens,
      )
      refl

-- A request "Need 'id' password MSG:text", when memory lasts and the id is not empty and has no
-- quote, is read as that id, described by the text or, where there is none, by the id; it asks for
-- the password of the private key where the id says so, and for that of a token otherwise.
pub parse_input_request_lem :
    (i : ℕ) (id text : Text)
    → Plain (codes "'") (i ∷ id)
    → let pkey = streq (i ∷ id) (codes "Private Key") in
      parse_input_request true (
        codes "Need"
        ++ b' '
          ∷ b'\''
          ∷ ((i ∷ id) ++ b'\'' ∷ b' ' ∷ (codes "password" ++ b' ' ∷ (codes "MSG:" ++ text))))
      ≡ some (record no_param {
        id = i ∷ id;
        str = or_id (i ∷ id) text;
        pass_pkey = pkey;
        pass_token = not pkey;
      })
unfolding parse_input_request request_of contains streq strbegins
parse_input_request_lem i id text h =
    rw
      (request_tokens_lem i b'p' id (codes "assword") text h
        (refl, (refl, (refl, (refl, (refl, (refl, (refl, (refl, tt)))))))))
      refl

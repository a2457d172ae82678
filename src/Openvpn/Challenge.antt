-- ===== src/Openvpn/Challenge.antt =====
-- openvpn.c: the challenge and password requests of the daemon. A failure is `none`, and what is then
-- set in the request is not looked at; the lines that it writes to the status log are left out. `memory` is false where `strdup` fails; the base64 decoder of
-- Windows is the argument `base64`. `auth_param_t` is zero before the call.
pub mod RoundTrip
use openvpn_gui.Base.Tokens.{strtok}
use mathlib.Core.List.{append-nil, append_assoc, map-append}
use mathlib.Core.Option.{some-injective}
use mathlib.Core.Path.{subst}
use openvpn_gui.Base.{
  ℕ, zero, suc, ◌+◌, ◌-◌, ◌*◌, ◌/◌, ◌%◌, ◌^◌, ◌≤◌, ◌<◌, ◌≡◌, ◌≢◌, ◌↔◌, refl, ap, ◌∙◌, sym, Bool,
  true, false, not, ◌&&◌, ◌||◌, Option, none, some, List, [], ◌∷◌, ◌++◌, map, if◌then◌else◌,
  Bool-cases, Option-cases, Ordering-cases, Ordering, ◌⊎◌, inl, inr, arith, length, length-append,
  length-concat, drop, take, replicate, drop-append, leb, ltb, leb→le, ltb→lt, lt→ltb, ◌==◌,
  ==_refl, ==_iff, All, All-append,
}
use openvpn_gui.Base.Text.{
  Text, codes, streq, strbegins, contains, before, after?, skip_while, text_at, streq_iff,
  streq_refl, strbegins-append, split_at, contains-before, before-append, after?-append,
  before_of_not-contains, after?_of_not-contains, not-contains_of_after?,
}

pub record AuthParam : Type 0 where
  pub user : Text
  pub id : Text
  pub str : Text
  pub cr_type_crv1 : Bool
  pub cr_type_crtext : Bool
  pub cr_type_scrv1 : Bool
  pub cr_type_concat : Bool
  pub cr_echo : Bool
  pub cr_response : Bool
  pub pass_pkey : Bool
  pub pass_token : Bool
  pub string_pkcs11 : Bool

abbrev pub no_param : AuthParam
no_param = record {
  user = [];
  id = [];
  str = [];
  cr_type_crv1 = false;
  cr_type_crtext = false;
  cr_type_scrv1 = false;
  cr_type_concat = false;
  cr_echo = false;
  cr_response = false;
  pass_pkey = false;
  pass_token = false;
  string_pkcs11 = false;
}

-- The four tokens of `parse_dynamic_cr`; the last one is the whole trailing text.
unfoldable pub cr_tokens : Text → Option (Text × Text × Text × Text)
cr_tokens str = elim (strtok (codes ":") str) [
  | none ↦ none
  | some (flags, s1) ↦ elim (strtok (codes ":") s1) [
    | none ↦ none
    | some (id, s2) ↦ elim (strtok (codes ":") s2) [
      | none ↦ none
      | some (user, s3) ↦ elim (strtok [] s3) [
        | none ↦ none
        | some (challenge, s4) ↦ some (flags, id, user, challenge)
      ]
    ]
  ]
]

unfoldable pub with_user : Bool → Text → Text → Text → Option Text → Option AuthParam
with_user memory flags id challenge none = none
with_user memory flags id challenge (some user) =
    if memory
    then some (record no_param {
      user = user;
      id = id;
      str = challenge;
      cr_type_crv1 = true;
      cr_echo = contains flags b'E';
      cr_response = contains flags b'R';
    })
    else none

unfoldable pub dynamic_cr_of :
    (Text → Option Text) → Bool → Option (Text × Text × Text × Text) → Option AuthParam
unfolding with_user
dynamic_cr_of base64 memory none = none
dynamic_cr_of base64 memory (some (flags, id, user, challenge)) =
    with_user memory flags id challenge (base64 user)

-- `parse_dynamic_cr`.
unfoldable pub parse_dynamic_cr : (Text → Option Text) → Bool → Text → Option AuthParam
unfolding cr_tokens dynamic_cr_of
parse_dynamic_cr base64 memory str = dynamic_cr_of base64 memory (cr_tokens str)

-- `parse_crtext`.
unfoldable pub parse_crtext : Bool → Text → Option AuthParam
parse_crtext memory str = elim (after? b':' str) [
  | none ↦ none
  | some challenge ↦
      if memory
      then some (record no_param {
        str = challenge;
        cr_type_crtext = true;
        cr_echo = contains (before b':' str) b'E';
        cr_response = contains (before b':' str) b'R';
      })
      else none
]

-- The tokens of `parse_input_request`; the last one may be NULL.
unfoldable pub request_tokens : Text → Option (Text × Text × Text × Option Text)
request_tokens msg = elim (strtok (codes " ") msg) [
  | none ↦ none
  | some (need, s1) ↦ elim (strtok (codes "'") s1) [
    | none ↦ none
    | some (id, s2) ↦ elim (strtok (codes " ") s2) [
      | none ↦ none
      | some (what, s3) ↦ elim (strtok [] s3) [
        | none ↦ some (need, id, what, none)
        | some (text, s4) ↦ some (need, id, what, some text)
      ]
    ]
  ]
]

abbrev pub or_id : Text → Text → Text
or_id id [] = id
or_id id (c ∷ text) = c ∷ text

-- The last token without "MSG:", or the id where nothing is left.
abbrev pub description : Text → Option Text → Text
description id none = id
description id (some text) = or_id id (if strbegins text (codes "MSG:") then drop 4 text else text)

unfoldable pub request_of : Bool → Option (Text × Text × Text × Option Text) → Option AuthParam
request_of memory none = none
request_of memory (some (need, id, what, text)) =
    let param = record no_param { id = id; str = description id text } in
    let pkey = streq id (codes "Private Key") in
    let set =
      if streq what (codes "password")
      then record param { pass_pkey = pkey; pass_token = not pkey }
      else record param {
        string_pkcs11 = streq what (codes "string") && streq id (codes "pkcs11-id-request");
      } in
    if streq need (codes "Need") && memory then some set else none

-- `parse_input_request`.
unfoldable pub parse_input_request : Bool → Text → Option AuthParam
unfolding request_tokens request_of
parse_input_request memory msg = request_of memory (request_tokens msg)

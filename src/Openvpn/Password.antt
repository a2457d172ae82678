-- ===== src/Openvpn/Password.antt =====
-- openvpn.c: `OnPassword`. The dialog that it opens, and what it is given, is its result; `strtoul` and
-- the base64 decoder are arguments. `memory` is false where an allocation fails.
pub mod Flow
use openvpn_gui.Base.Tokens.{strstr, cut_off, found}
use mathlib.Core.List.{append-nil, append_assoc, map-append}
use mathlib.Core.Option.{some-injective}
use mathlib.Core.Path.{subst}
use openvpn_gui.Base.{
  ℕ, zero, suc, ◌+◌, ◌-◌, ◌*◌, ◌/◌, ◌%◌, ◌^◌, ◌≤◌, ◌<◌, ◌≡◌, ◌≢◌, ◌↔◌, refl, ap, ◌∙◌, sym, Bool,
  true, false, not, ◌&&◌, ◌||◌, Option, none, some, List, [], ◌∷◌, ◌++◌, map, if◌then◌else◌,
  Bool-cases, Option-cases, Ordering-cases, Ordering, ◌⊎◌, inl, inr, arith, length, length-append,
  length-concat, drop, take, replicate, drop-append, leb, ltb, leb→le, ltb→lt, lt→ltb, ◌==◌,
  ==_refl, ==_iff, All, All-append,
}
use openvpn_gui.Base.Text.{
  Text, codes, streq, strbegins, contains, before, after?, skip_while, text_at, streq_iff,
  streq_refl, strbegins-append, split_at, contains-before, before-append, after?-append,
  before_of_not-contains, after?_of_not-contains, not-contains_of_after?,
}
use openvpn_gui.Conn.{Conn, emit, status_log}
use openvpn_gui.Openvpn.Challenge.{AuthParam, no_param, parse_dynamic_cr, parse_input_request}

pub data Request : Type 0 where
  challenge_dialog auth_challenge_dialog auth_dialog : AuthParam → Request
  passphrase_dialog http_proxy_query socks_proxy_query : Request

-- The challenge behind "CRV1:", up to "']".
abbrev pub saved_challenge : Bool → Option Text → Option Text
saved_challenge memory none = none
saved_challenge memory (some s) = if memory then some (cut_off (drop 5 s) (codes "']")) else none

unfoldable pub verification_failed : Bool → Text → Conn → Conn
verification_failed memory msg c = record c {
  dynamic_cr = saved_challenge memory (strstr msg (codes "CRV1:"));
}

-- The dialog for a dynamic challenge, or the line for one that cannot be parsed.
abbrev pub ask_challenge : Conn → Option AuthParam → Conn × Option Request
ask_challenge c none = (
  record (emit (status_log (codes "GUI> Error parsing dynamic challenge string")) c) {
    dynamic_cr = none;
  },
  none,
)
ask_challenge c (some param) = (record c { dynamic_cr = none }, some (challenge_dialog param))

-- What stands from "SC:" on, if it is longer than 5 characters.
abbrev pub static_challenge : Option Text → Option Text
static_challenge none = none
static_challenge (some s) = if ltb 5 (length s) then some s else none

module _ (base64 : Text → Option Text) (strtoul : Text → ℕ)
    (auth_pass_concat_otp memory : Bool) where
  abbrev pub static_param : Text → AuthParam
  static_param s =
      let flags = strtoul (drop 3 s) in
      let concat = (flags / 2) % 2 == 1 in
      record no_param {
        cr_type_concat = concat;
        cr_type_scrv1 = not concat;
        cr_echo = flags % 2 == 1;
        str = drop 5 s;
      }

  -- The request for a user name without a dynamic challenge, on its static challenge.
  unfoldable pub ask_auth : Option Text → Request
  ask_auth (some s) = auth_challenge_dialog (static_param s)
  ask_auth none =
      if auth_pass_concat_otp
      then auth_challenge_dialog (record no_param { cr_echo = true; cr_type_concat = true })
      else auth_dialog no_param

  unfoldable pub auth_request : Text → Conn → Option Text → Conn × Option Request
  unfolding ask_auth
  auth_request msg c (some challenge) = ask_challenge c (parse_dynamic_cr base64 memory challenge)
  auth_request msg c none = (c, some (ask_auth (static_challenge (strstr msg (codes "SC:")))))

  abbrev out_of_memory : Conn → Conn
  out_of_memory c =
      emit (status_log (codes "GUI> Error: Out of memory - ignoring user-auth request")) c

  abbrev pub ask_input : Option AuthParam → Option Request
  ask_input none = none
  ask_input (some param) = some (challenge_dialog param)

  -- `OnPassword`.
  unfoldable pub on_password : Conn → Text → Conn × Option Request
  unfolding verification_failed auth_request
  on_password c msg =
      if strbegins msg (codes "Verification Failed")
      then (verification_failed memory msg c, none)
      else if found (strstr msg (codes "'Auth'"))
      then (if memory then auth_request msg c c.dynamic_cr else (out_of_memory c, none))
      else if found (strstr msg (codes "'Private Key'"))
      then (c, some passphrase_dialog)
      else if found (strstr msg (codes "'HTTP Proxy'"))
      then (c, some http_proxy_query)
      else if found (strstr msg (codes "'SOCKS Proxy'"))
      then (c, some socks_proxy_query)
      else if strbegins msg (codes "Need '")
      then (if memory
          then (c, ask_input (parse_input_request memory msg))
          else (out_of_memory c, none))
      else (c, none)

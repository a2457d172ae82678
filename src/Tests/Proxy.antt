-- ===== src/Tests/Proxy.antt =====
-- The properties of proxy.c at concrete inputs.
use openvpn_gui.Base.{ℕ, zero, suc, ◌≡◌, refl, false, Option, none, some, [], length}
use openvpn_gui.Base.Text.{Text, codes, strbegins, contains, after?, skip_while}
use openvpn_gui.Base.Tokens.{strtok, strstr, token_of, behind_token}
use openvpn_gui.Proxy.{
  Proxy, https_url, parse_proxy_string, parse_tokens, token_scheme, server_of, host_and_port,
  bracketed, split_last, proxy_for,
}
use openvpn_gui.Proxy.Ends.{parse_proxy_string-ends}

abbrev settings : Text
settings = codes "ftp=f:1; https=h:8080"

settings_plain : contains settings b'[' ≡ false
unfolding contains
settings_plain = refl

parse_proxy_string-ends_example :
    (result : Option Proxy) × (parse_proxy_string (suc (length settings)) (some settings) https_url
      ≡ some result)
parse_proxy_string-ends_example = parse_proxy_string-ends settings https_url settings_plain

chosen :
    parse_proxy_string (suc (length settings)) (some settings) https_url
    ≡ some (some (record { type = codes "HTTP"; host = codes "h"; port = codes "8080" }))
unfolding parse_proxy_string parse_tokens token_scheme server_of host_and_port split_last proxy_for
    strtok strstr token_of behind_token contains strbegins skip_while after?
chosen = refl

-- A bracket that is not closed is looked at for ever.
unclosed : (fuel : ℕ) → parse_tokens fuel https_url https_url (some (codes "https=[a", [])) ≡ none
unfolding parse_tokens token_scheme server_of host_and_port bracketed strstr contains strbegins
    after?
unclosed zero = refl
unclosed (suc fuel) = unclosed fuel

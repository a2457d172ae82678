-- ===== src/Proxy.antt =====
-- proxy.c: the proxy that OnProxy tells the daemon, from the settings or from what Windows answers. That
-- answer is an argument, NULL where there is none.
pub mod Ends
use mathlib.Core.List.{append-nil, append_assoc, map-append}
use mathlib.Core.Option.{some-injective}
use mathlib.Core.Path.{subst}
use openvpn_gui.Base.{
  ℕ, zero, suc, ◌+◌, ◌-◌, ◌*◌, ◌/◌, ◌%◌, ◌^◌, ◌≤◌, ◌<◌, ◌≡◌, ◌≢◌, ◌↔◌, refl, ap, ◌∙◌, sym, Bool,
  true, false, not, ◌&&◌, ◌||◌, Option, none, some, List, [], ◌∷◌, ◌++◌, map, if◌then◌else◌,
  Bool-cases, Option-cases, Ordering-cases, Ordering, ◌⊎◌, inl, inr, arith, length, length-append,
  length-concat, drop, take, replicate, drop-append, leb, ltb, leb→le, ltb→lt, lt→ltb, ◌==◌,
  ==_refl, ==_iff, All, All-append,
}
use openvpn_gui.Base.Text.{
  Text, codes, streq, strbegins, contains, before, after?, skip_while, text_at, streq_iff,
  streq_refl, strbegins-append, split_at, contains-before, before-append, after?-append,
  before_of_not-contains, after?_of_not-contains, not-contains_of_after?,
}
use openvpn_gui.Base.Tokens.{strtok, strstr, found}
use openvpn_gui.Conn.{Conn, regular}
use openvpn_gui.Manage.{management_command}

pub data UrlScheme : Type 0 where
  https_url socks_url : UrlScheme

-- `UrlSchemeStr`.
abbrev pub url_scheme_str : UrlScheme → Text
url_scheme_str https_url = codes "https"
url_scheme_str socks_url = codes "socks"

abbrev pub is_https : UrlScheme → Bool
is_https https_url = true
is_https socks_url = false

-- What the daemon is told: type, host and port.
pub record Proxy : Type 0 where
  pub type : Text
  pub host : Text
  pub port : Text

-- The scheme that a token is good for, when `first` is the one that was looked for and `scheme` the one
-- that is looked for now.
unfoldable pub token_scheme : UrlScheme → UrlScheme → Text → Option UrlScheme
token_scheme first scheme token =
    if contains token b'=' || found (strstr token (codes "://"))
    then (if strbegins token (url_scheme_str first)
        then some scheme
        else if is_https scheme && strbegins token (codes "socks")
        then some socks_url
        else none)
    else if is_https scheme
    then some https_url
    else none

-- The token without its scheme.
unfoldable pub server_of : Text → Text
server_of token = elim (strstr token (codes "://")) [
  | some css ↦ drop 3 css
  | none ↦ elim (after? b'=' token) [ none ↦ token | some server ↦ server ]
]

-- What stands before and behind the last colon (`wcsrchr`).
unfoldable pub split_last : Text → Option (Text × Text)
split_last [] = none
split_last (c ∷ s) = elim (split_last s) [
  | some (host, port) ↦ some (c ∷ host, port)
  | none ↦ if c == b':' then some ([], s) else none
]

-- The host, and the port if one is given; `none` for a bracket that is not closed.
unfoldable pub bracketed : Text → Option (Text × Option Text)
bracketed server = elim (after? b']' server) [
  | none ↦ none
  | some end ↦
      some (before b']' server, if strbegins end (codes ":") then some (drop 1 end) else none)
]

unfoldable pub host_and_port : Text → Option (Text × Option Text)
host_and_port server =
    if strbegins server (codes "[") then bracketed (drop 1 server) else elim (split_last server) [
      | none ↦ some (server, none)
      | some (host, port) ↦ some (host, some port)
    ]

unfoldable pub proxy_for : UrlScheme → Text × Option Text → Proxy
proxy_for scheme (host, given) = record {
  type = if is_https scheme then codes "HTTP" else codes "SOCKS";
  host = host;
  port = elim given [
    | some port ↦ port
    | none ↦ if is_https scheme then codes "80" else codes "1080"
  ];
}

-- The loop of `ParseProxyString`, `none` where it does not end in so many rounds. A token with a bracket
-- that is not closed is looked at again.
unfoldable pub parse_tokens :
    ℕ → UrlScheme → UrlScheme → Option (Text × Text) → Option (Option Proxy)
parse_tokens zero first scheme at = none
parse_tokens (suc fuel) first scheme none = some none
parse_tokens (suc fuel) first scheme (some (token, rest)) = elim (token_scheme first scheme token) [
  | none ↦ parse_tokens fuel first scheme (strtok (codes "; ") rest)
  | some matched ↦ elim (host_and_port (server_of token)) [
    | none ↦ parse_tokens fuel first matched (some (token, rest))
    | some server ↦ some (some (proxy_for matched server))
  ]
]

-- `ParseProxyString` in so many rounds: the proxy it sets, if any.
unfoldable pub parse_proxy_string : ℕ → Option Text → UrlScheme → Option (Option Proxy)
parse_proxy_string fuel none scheme = some none
parse_proxy_string fuel (some proxy_str) scheme =
    parse_tokens fuel scheme scheme (strtok (codes "; ") proxy_str)

pub data ProxySource : Type 0 where
  config windows : ProxySource
  manual_http manual_socks : Text → Text → ProxySource

abbrev pub no_proxy : Proxy
no_proxy = record { type = codes "NONE"; host = []; port = [] }

abbrev pub is_tcp : Text → Bool
is_tcp proto = streq proto (codes "TCP")

abbrev pub or_none : Option Proxy → Proxy
or_none none = no_proxy
or_none (some proxy) = proxy

-- `QueryWindowsProxySettings` and how many rounds the loop is given.
module _ (memory : Bool) (query_windows_proxy : UrlScheme → Text → Option Text) (fuel : ℕ) where
  unfoldable pub chosen_proxy : ProxySource → Text → Text → Option Proxy
  chosen_proxy config proto host = some no_proxy
  chosen_proxy (manual_http address port) proto host = some (
      if is_tcp proto
      then record { type = codes "HTTP"; host = address; port = port }
      else no_proxy)
  chosen_proxy (manual_socks address port) proto host =
      some (record { type = codes "SOCKS"; host = address; port = port })
  chosen_proxy windows proto host =
      let scheme = if is_tcp proto then https_url else socks_url in
      elim (parse_proxy_string fuel (query_windows_proxy scheme host) scheme) [
        | none ↦ none
        | some proxy ↦ some (or_none proxy)
      ]

  -- The command, in 128 characters with its NUL.
  unfoldable pub proxy_command : Proxy → Text
  proxy_command proxy =
      take 127
        (codes "proxy " ++ (proxy.type ++ (codes " " ++ (proxy.host ++ (codes " " ++ proxy.port)))))

  -- Protocol and host of "REMOTE_NO,PROTOCOL,HOST".
  unfoldable pub remote_of : Text → Option (Text × Text)
  remote_of line = elim (after? b',' line) [
    | none ↦ none
    | some remote ↦ elim (after? b',' remote) [
      | none ↦ none
      | some [] ↦ none
      | some (c ∷ host) ↦ some (before b',' remote, c ∷ host)
    ]
  ]

  -- `OnProxy`; `none` where it does not return.
  unfoldable pub on_proxy : ProxySource → Text → Conn → Option Conn
  on_proxy source line c = elim (remote_of line) [
    | none ↦ some c
    | some (proto, host) ↦ elim (chosen_proxy source proto host) [
      | none ↦ none
      | some proxy ↦ some (record c {
        manage = (management_command memory c.manage (proxy_command proxy) none regular).0;
      })
    ]
  ]

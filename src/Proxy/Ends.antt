-- ===== src/Proxy/Ends.antt =====
-- proxy.c: when ParseProxyString ends.
use openvpn_gui.Base.{
  ℕ, zero, suc, ◌≤◌, ◌<◌, ◌≡◌, refl, false, Option, none, some, [], ◌∷◌, Option-cases, inl, inr,
  arith, length,
}
use openvpn_gui.Base.Text.{Text, codes, strbegins, contains, after?}
use openvpn_gui.Base.Tokens.{
  strtok, strstr, Shorter, strtok-Shorter, Lacks, strtok-Lacks, not-contains-drop,
  not-contains-after?, not-contains-strstr,
}
use openvpn_gui.Proxy.{
  UrlScheme, Proxy, token_scheme, server_of, split_last, host_and_port, proxy_for, parse_tokens,
  parse_proxy_string,
}

server_of-lacks :
    (token : Text) → contains token b'[' ≡ false → contains (server_of token) b'[' ≡ false
unfolding server_of
server_of-lacks token h = elim (Option-cases (strstr token (codes "://"))) [
  | inr (css, e) ↦
      rw (e, server_of)
        (not-contains-drop b'[' 3 css (not-contains-strstr b'[' token (codes "://") css h e))
  | inl e ↦ elim (Option-cases (after? b'=' token)) [
    | inl k ↦ rw (e, k, server_of) h
    | inr (server, k) ↦ rw (e, k, server_of) (not-contains-after? b'[' b'=' token server h k)
  ]
]

not-begins_of_lacks :
    (server : Text) → contains server b'[' ≡ false → strbegins server (codes "[") ≡ false
unfolding strbegins contains
not-begins_of_lacks [] h = refl
not-begins_of_lacks (c ∷ s) h = ground arith

-- Without an opening bracket there is always a host.
host_and_port-lacks :
    (server : Text)
    → contains server b'[' ≡ false
    → (result : Text × Option Text) × (host_and_port server ≡ some result)
unfolding host_and_port
host_and_port-lacks server h =
    let plain = not-begins_of_lacks server h in
    elim (Option-cases (split_last server)) [
      | inl e ↦ rw (plain, e, host_and_port) ((server, none), refl)
      | inr ((host, port), e) ↦ rw (plain, e, host_and_port) ((host, some port), refl)
    ]

-- How many tokens there can be.
abbrev rounds : Option (Text × Text) → ℕ
rounds none = 0
rounds (some (token, rest)) = suc (length rest)

rounds-Shorter : (n : ℕ) (at : Option (Text × Text)) → Shorter n at → rounds at ≤ n
rounds-Shorter n none h = omega arith
rounds-Shorter n (some (token, rest)) h = omega arith

parse_tokens-ends :
    (fuel : ℕ) (first scheme : UrlScheme) (at : Option (Text × Text))
    → rounds at < fuel
    → Lacks b'[' at
    → (result : Option Proxy) × (parse_tokens fuel first scheme at ≡ some result)
unfolding parse_tokens
parse_tokens-ends zero first scheme at l h = absurd (omega arith)
parse_tokens-ends (suc fuel) first scheme none l h = (none, refl)
parse_tokens-ends (suc fuel) first scheme (some (token, rest)) l h =
    elim (Option-cases (token_scheme first scheme token)) [
      | inl e ↦
          let next = strtok (codes "; ") rest in
          let fewer = rounds-Shorter (length rest) next (strtok-Shorter (codes "; ") rest) in
          rw (e, parse_tokens)
            (parse_tokens-ends fuel first scheme next (omega (arith, l, fewer))
              (strtok-Lacks b'[' (codes "; ") rest h.1))
      | inr (matched, e) ↦
          let (server, k) = host_and_port-lacks (server_of token) (server_of-lacks token h.0) in
          rw (e, k, parse_tokens) (some (proxy_for matched server), refl)
    ]

-- ParseProxyString ends on every string that has no '[', in as many rounds as the string has characters
-- and one more.
pub parse_proxy_string-ends :
    (proxy_str : Text) (scheme : UrlScheme)
    → contains proxy_str b'[' ≡ false
    → (result : Option Proxy) × (parse_proxy_string (suc (length proxy_str)) (some proxy_str) scheme
        ≡ some result)
unfolding parse_proxy_string
parse_proxy_string-ends proxy_str scheme h =
    let at = strtok (codes "; ") proxy_str in
    let few = rounds-Shorter (length proxy_str) at (strtok-Shorter (codes "; ") proxy_str) in
    parse_tokens-ends (suc (length proxy_str)) scheme scheme at (omega (arith, few))
      (strtok-Lacks b'[' (codes "; ") proxy_str h)

-- ===== src/Openvpn/Requests.antt =====
-- openvpn.c: the notifications NEED-OK, NEED-STR and INFOMSG. What Windows does with a text is an argument:
-- `wide` whether `Widen` has memory for it, `open_url` whether a browser opens. What is shown to the user is
-- the second result of OnInfoMsg.
pub mod NeedOk
use mathlib.Core.List.{append-nil, append_assoc, map-append}
use mathlib.Core.Option.{some-injective}
use mathlib.Core.Path.{subst}
use openvpn_gui.Base.{
  ℕ, zero, suc, ◌+◌, ◌-◌, ◌*◌, ◌/◌, ◌%◌, ◌^◌, ◌≤◌, ◌<◌, ◌≡◌, ◌≢◌, ◌↔◌, refl, ap, ◌∙◌, sym, Bool,
  true, false, not, ◌&&◌, ◌||◌, Option, none, some, List, [], ◌∷◌, ◌++◌, map, if◌then◌else◌,
  Bool-cases, Option-cases, Ordering-cases, Ordering, ◌⊎◌, inl, inr, arith, length, length-append,
  length-concat, drop, take, replicate, drop-append, leb, ltb, leb→le, ltb→lt, lt→ltb, ◌==◌,
  ==_refl, ==_iff, All, All-append,
}
use openvpn_gui.Base.Text.{
  Text, codes, streq, strbegins, contains, before, after?, skip_while, text_at, streq_iff,
  streq_refl, strbegins-append, split_at, contains-before, before-append, after?-append,
  before_of_not-contains, after?_of_not-contains, not-contains_of_after?,
}
use openvpn_gui.Base.Tokens.{strstr}
use openvpn_gui.Conn.{Conn, regular, emit, message_box, status_log}
use openvpn_gui.Openvpn.{Gui, command}
use openvpn_gui.Openvpn.Window.{stop_openvpn}
use openvpn_gui.Openvpn.Challenge.{AuthParam, parse_input_request, parse_crtext}
use openvpn_gui.Pkcs11.{Library, Pkcs11List, on_pkcs11}

abbrev pub gui_log : Text → Conn → Conn
gui_log text c = emit (status_log (codes "GUI> " ++ text)) c

-- The answer to a NEED-OK request, and the size of its buffer.
unfoldable pub needok_answer : Bool → Text → Text
needok_answer ok id = codes "needok '" ++ (id ++ (if ok then codes "' ok" else codes "' cancel"))

abbrev pub needok_size : Text → ℕ
needok_size id = length id + length (codes "needok ' ' cancel")

unfoldable pub need_ok_failed : Conn → Conn
need_ok_failed c =
    stop_openvpn
      (gui_log (codes "Error: out of memory while processing NEED-OK. Sending stop signal") c)

module _ (gui : Gui) (wide : Text → Bool) (ok : Bool) where
  -- The question that the user answers with OK or not.
  unfoldable pub ask_ok : AuthParam → Conn → Conn
  ask_ok param c =
      let asked = emit message_box c in
      let refused = command gui (codes "auth-retry none") none regular asked in
      if wide param.str && gui.memory
      then command gui (needok_answer ok param.id) none regular (if ok then asked else refused)
      else need_ok_failed c

  -- `OnNeedOk`; `allocated` where there is memory for the request.
  unfoldable pub on_need_ok : Bool → Text → Conn → Conn
  on_need_ok allocated msg c =
      if allocated
      then elim (parse_input_request gui.memory msg) [ none ↦ c | some param ↦ ask_ok param c ]
      else need_ok_failed c

-- `OnNeedStr`, where the dialog for certificates leaves `chosen` behind and ends with OK or not.
unfoldable pub on_need_str : Library → Bool → Pkcs11List → Bool → Text → Conn → Conn
on_need_str w memory chosen ok msg c = elim (strstr msg (codes "Need 'pkcs11-id-request'")) [
  | some request ↦ on_pkcs11 w memory chosen ok c
  | none ↦ gui_log (codes "Error: Received NEED-STR message -- not implemented") c
]

pub data Info : Type 0 where
  qr_dialog browser : Text → Info
  crtext_dialog : AuthParam → Info

module _ (memory use_qr : Bool) (widen : Text → Option Text) (open_url : Text → Bool) where
  -- The URL of a message, with a line for flags that are not supported.
  unfoldable pub web_auth : Text → Conn → Conn × Option Text
  web_auth msg c = elim (after? b':' msg) [
    | none ↦ (c, none)
    | some url ↦ elim (before b':' msg) [
      | [] ↦ (c, widen url)
      | f ∷ flags ↦ elim (widen (f ∷ flags)) [
        | none ↦ (c, widen url)
        | some shown ↦ (
          emit (status_log (codes "GUI> Unsupported flags in WEB_AUTH request ignored: " ++ shown))
              c,
          widen url,
        )
      ]
    ]
  ]

  unfoldable pub url_of : Text → Conn → Conn × Option Text
  url_of msg c =
      if strbegins msg (codes "OPEN_URL:")
      then (c, widen (drop 9 msg))
      else if strbegins msg (codes "WEB_AUTH:")
      then web_auth (drop 9 msg) c
      else (c, none)

  unfoldable pub show_url : Text → Conn → Conn × Option Info
  show_url url c =
      if use_qr
      then (c, some (qr_dialog url))
      else if open_url url
      then (c, some (browser url))
      else (gui_log (codes "Error: failed to open url from info msg") c, none)

  unfoldable pub show_crtext : Text → Conn → Conn × Option Info
  show_crtext msg c =
      if not (strbegins msg (codes "CR_TEXT:"))
      then (c, none)
      else if not memory
      then (gui_log (codes "Error: Out of memory - ignoring CR_TEXT request") c, none)
      else elim (parse_crtext memory (drop 8 msg)) [
        | none ↦ (gui_log (codes "Error parsing crtext string") c, none)
        | some param ↦ (c, some (crtext_dialog param))
      ]

  -- `OnInfoMsg`.
  unfoldable pub on_info_msg : Text → Conn → Conn × Option Info
  on_info_msg msg c =
      let (c1, url) = url_of msg c in
      elim url [ some shown ↦ show_url shown c1 | none ↦ show_crtext msg c1 ]

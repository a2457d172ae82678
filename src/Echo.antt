-- ===== src/Echo.antt =====
-- echo.c: messages that the server sends for the user, and the history that mutes repeated ones.
-- `Widen`, SHA1 over the text and the title (`none` where `md_init` fails) and the success of
-- `SendMessageTimeout` to the message window are the fields of `EchoWin`. `memory` is false where
-- the allocation of a history item fails. The digest has 20 bytes.
pub mod History
pub mod Mute
use mathlib.Core.List.{append-nil, append_assoc, map-append}
use mathlib.Core.Option.{some-injective}
use mathlib.Core.Path.{subst}
use openvpn_gui.Base.{
  ℕ, zero, suc, ◌+◌, ◌-◌, ◌*◌, ◌/◌, ◌%◌, ◌^◌, ◌≤◌, ◌<◌, ◌≡◌, ◌≢◌, ◌↔◌, refl, ap, ◌∙◌, sym, Bool,
  true, false, not, ◌&&◌, ◌||◌, Option, none, some, List, [], ◌∷◌, ◌++◌, map, if◌then◌else◌,
  Bool-cases, Option-cases, Ordering-cases, Ordering, ◌⊎◌, inl, inr, arith, length, length-append,
  length-concat, drop, take, replicate, drop-append, leb, ltb, leb→le, ltb→lt, lt→ltb, ◌==◌,
  ==_refl, ==_iff, All, All-append,
}
use openvpn_gui.Base.Text.{
  Text, codes, streq, strbegins, contains, before, after?, skip_while, text_at, streq_iff,
  streq_refl, strbegins-append, split_at, contains-before, before-append, after?-append,
  before_of_not-contains, after?_of_not-contains, not-contains_of_after?,
}
use openvpn_gui.Conn.{
  Fingerprint, EchoMsg, Conn, Output, emit, status_log, echo_window, echo_balloon,
}

pub record EchoWin : Type 0 where
  pub widen : Text → Option Text
  pub sha1 : Text → Text → Option Text
  pub window_exists : Bool
  pub window_answers : Bool

-- `CLEAR(c->echo_msg.fp)`.
abbrev pub cleared_fp : Fingerprint
cleared_fp = record { digest = replicate 20 0; timestamp = 0 }

abbrev pub text_or_empty : Option Text → Text
text_or_empty none = []
text_or_empty (some t) = t

abbrev pub with_digest : Fingerprint → Option Text → Fingerprint
with_digest fp none = fp
with_digest fp (some d) = record fp { digest = d }

-- `echo_msg_add_fp`.
unfoldable pub echo_msg_add_fp : EchoWin → EchoMsg → ℕ → EchoMsg
echo_msg_add_fp win msg timestamp = record msg {
  fp =
      with_digest (record msg.fp { timestamp = timestamp })
        (win.sha1 (text_or_empty msg.text) (text_or_empty msg.title));
}

-- `echo_msg_recall`: the first item with the digest.
unfoldable pub echo_msg_recall : Text → List Fingerprint → Option Fingerprint
echo_msg_recall digest [] = none
echo_msg_recall digest (fp ∷ hist) =
    if streq fp.digest digest then some fp else echo_msg_recall digest hist

unfoldable pub echo_msg_history_add : Bool → List Fingerprint → Fingerprint → List Fingerprint
echo_msg_history_add memory head fp = if memory then fp ∷ head else head

-- The assignment through the pointer that `echo_msg_recall` returns.
unfoldable pub set_timestamp : Text → ℕ → List Fingerprint → List Fingerprint
set_timestamp digest time [] = []
set_timestamp digest time (fp ∷ hist) =
    if streq fp.digest digest
    then record fp { timestamp = time } ∷ hist
    else fp ∷ set_timestamp digest time hist

abbrev pub save_found : Bool → EchoMsg → Option Fingerprint → EchoMsg
save_found memory msg none = record msg { history = echo_msg_history_add memory msg.history msg.fp }
save_found memory msg (some found) = record msg {
  history = set_timestamp msg.fp.digest msg.fp.timestamp msg.history;
}

unfoldable pub echo_msg_save : Bool → EchoMsg → EchoMsg
echo_msg_save memory msg = save_found memory msg (echo_msg_recall msg.fp.digest msg.history)

-- `o.popup_mute_interval * 3600` is a product of 32 bits.
abbrev pub mute_seconds : ℕ → ℕ
mute_seconds interval = (interval * 3600) % 2 ^ 32

abbrev pub is_recent : ℕ → ℕ → Option Fingerprint → Bool
is_recent interval now none = false
is_recent interval now (some fp) = ltb now (fp.timestamp + mute_seconds interval)

unfoldable pub echo_msg_repeated : ℕ → EchoMsg → Bool
echo_msg_repeated interval msg =
    is_recent interval msg.fp.timestamp (echo_msg_recall msg.fp.digest msg.history)

-- What `echo_msg_persist` writes to the registry: at most 100 items, none where there are none.
unfoldable pub echo_msg_persist : List Fingerprint → Option (List Fingerprint)
echo_msg_persist [] = none
echo_msg_persist (fp ∷ hist) = some (take 100 (fp ∷ hist))

-- The loop of `echo_msg_load` over the items read.
unfoldable pub echo_msg_load : List Fingerprint → List Fingerprint → List Fingerprint
unfolding echo_msg_history_add
echo_msg_load history [] = history
echo_msg_load history (fp ∷ items) = echo_msg_load (echo_msg_history_add true history fp) items

-- `echo_msg_append` once the text is wide; `realloc` fails where `memory` is false.
unfoldable pub echo_msg_append : EchoWin → Bool → Conn → Text → Bool → Conn
echo_msg_append win memory c msg addnl =
    let eol = if addnl then codes "\r\n" else [] in
    elim (win.widen msg) [
      | none ↦ emit (status_log (codes "Error: out of memory while processing echo msg")) c
      | some wmsg ↦
          if memory
          then record c {
            echo_msg = record c.echo_msg {
              text = some (text_or_empty c.echo_msg.text ++ wmsg ++ eol);
            };
          }
          else emit (status_log (codes "Error: out of memory while processing echo msg")) c
    ]

pub data EchoType : Type 0 where
  window notify : EchoType

-- The title, or the text that stands in for it, and whether memory ran out.
unfoldable pub set_title : EchoWin → Conn → Text → Conn
set_title win c title = elim (win.widen title) [
  | some wtitle ↦ record c { echo_msg = record c.echo_msg { title = some wtitle } }
  | none ↦
      let c' =
        emit (status_log (codes "Error: out of memory converting echo message title to widechar"))
          c in
      record c' { echo_msg = record c'.echo_msg { title = some (codes "Message from server") } }
]

unfoldable pub show_message : EchoWin → EchoType → Conn → Conn
show_message win window c =
    if win.window_exists && win.window_answers
    then emit echo_window c
    else if win.window_exists
    then emit
        (status_log
          (codes "GUI> Failed to display echo message: " ++ text_or_empty c.echo_msg.title))
        c
    else c
show_message win notify c = emit echo_balloon c

unfoldable pub echo_msg_display : EchoWin → Bool → ℕ → Conn → ℕ → Text → EchoType → Conn
unfolding set_title show_message
echo_msg_display win memory interval c timestamp title type =
    let titled = set_title win c title in
    let c' = record titled { echo_msg = echo_msg_add_fp win titled.echo_msg timestamp } in
    let shown = show_message win type c' in
    if c'.disable_echo_msg || echo_msg_repeated interval c'.echo_msg
    then c'
    else record shown { echo_msg = echo_msg_save memory shown.echo_msg }

-- `echo_msg_clear` with `clear_history` false.
unfoldable pub clear_message : EchoMsg → EchoMsg
clear_message msg = record msg { fp = cleared_fp; text = none; title = none }

-- What is persisted, and the message left.
unfoldable pub echo_msg_clear : Bool → EchoMsg → Option (List Fingerprint) × EchoMsg
unfolding clear_message echo_msg_persist
echo_msg_clear false msg = (none, clear_message msg)
echo_msg_clear true msg =
    (echo_msg_persist msg.history, record (clear_message msg) { history = [] })

-- `echo_msg_process` on the text that `url_decode` gave, `none` where it ran out of memory.
unfoldable pub echo_msg_process : EchoWin → Bool → ℕ → Conn → ℕ → Option Text → Conn
unfolding echo_msg_append echo_msg_display clear_message
echo_msg_process win memory interval c timestamp none =
    emit (status_log (codes "Error in url_decode of echo message")) c
echo_msg_process win memory interval c timestamp (some msg) =
    let displayed = λ (type : EchoType).
      let c' = echo_msg_display win memory interval c timestamp (drop 11 msg) type in
      record c' { echo_msg = clear_message c'.echo_msg } in
    if strbegins msg (codes "msg ")
    then echo_msg_append win memory c (drop 4 msg) true
    else if streq msg (codes "msg")
    then echo_msg_append win memory c (drop 3 msg) true
    else if strbegins msg (codes "msg-n ")
    then echo_msg_append win memory c (drop 6 msg) false
    else if strbegins msg (codes "msg-window ")
    then displayed window
    else if strbegins msg (codes "msg-notify ")
    then displayed notify
    else emit
        (status_log
          (take 255 (codes "WARNING: Unknown ECHO directive '" ++ msg ++ codes "' ignored.")))
        c

-- ===== src/Openvpn.antt =====
-- openvpn.c: the handlers of the daemon's banner, hold and state. `Gui` holds the options that the
-- handlers read, the answers of Windows, and `ValidateManagementDaemon`, which asks Windows for the
-- process behind the port. `to_wide n` is `MultiByteToWideChar` into a buffer that holds `n`
-- characters, `none` where it fails; `memory` is false where a command cannot be allocated. Texts
-- that are only looked up in the resources stand in `Status`; the effects are the `Output`s.
pub mod Exit
pub mod Window
pub mod States
pub mod Stop
pub mod Up
pub mod Challenge
pub mod Password
pub mod Service
pub mod Requests
use mathlib.Core.List.{append-nil, append_assoc, map-append}
use mathlib.Core.Option.{some-injective}
use mathlib.Core.Path.{subst}
use openvpn_gui.Base.{
  ℕ, zero, suc, ◌+◌, ◌-◌, ◌*◌, ◌/◌, ◌%◌, ◌^◌, ◌≤◌, ◌<◌, ◌≡◌, ◌≢◌, ◌↔◌, refl, ap, ◌∙◌, sym, Bool,
  true, false, not, ◌&&◌, ◌||◌, Option, none, some, List, [], ◌∷◌, ◌++◌, map, if◌then◌else◌,
  Bool-cases, Option-cases, Ordering-cases, Ordering, ◌⊎◌, inl, inr, arith, length, length-append,
  length-concat, drop, take, replicate, drop-append, leb, ltb, leb→le, ltb→lt, lt→ltb, ◌==◌,
  ==_refl, ==_iff, All, All-append,
}
use openvpn_gui.Base.Text.{
  Text, codes, streq, strbegins, contains, before, after?, skip_while, text_at, streq_iff,
  streq_refl, strbegins-append, split_at, contains-before, before-append, after?-append,
  before_of_not-contains, after?_of_not-contains, not-contains_of_after?,
}
use openvpn_gui.Conn.{
  ConnState, disconnected, onhold, connecting, reconnecting, connected, disconnecting, suspending,
  suspended, resuming, detaching, detached, CmdType, regular, combined, Handler, on_log_line_fn,
  on_echo_fn, on_state_change_fn, Conn, Manage, Output, emit, emits, posted, wm_stop, wm_close,
  wm_restart, wm_release, wm_detach, Posted, Status, Icon, icon_connected, icon_connecting,
  icon_disconnected, state_connected, state_route_error, state_reconnecting, state_disconnected,
  state_failed, state_failed_reconn, state_suspended, state_onhold, state_wait_term, status_text,
  status_log, menu_status, tray_icon, tray_update, status_icon, ip_text, show_window, balloon,
  connect_script, disconnect_script, stop_event, stop_timer, kill_timer, terminate_process,
  notify_state, message_box, close_qr,
}
use openvpn_gui.Manage.{management_command, close_management}
use openvpn_gui.Echo.{clear_message}

pub record Gui : Type 0 where
  pub silent_connection : Bool
  pub show_balloon : ℕ
  pub enable_persistent : ℕ
  pub atoi : Text → ℕ
  pub to_wide : ℕ → Text → Option Text
  pub memory : Bool
  pub valid_daemon : Bool
  pub wsa_startup : Bool
  pub socket : Bool
  pub async_select : Bool
  pub time : ℕ

abbrev pub command : Gui → Text → Option Handler → CmdType → Conn → Conn
command gui text handler type c = record c {
  manage = (management_command gui.memory c.manage text handler type).0;
}

-- `OnReady`.
unfoldable pub on_ready : Gui → Conn → Conn
on_ready gui c =
    let c1 = command gui (codes "state on") none regular c in
    let c2 = command gui (codes "log on all") (some on_log_line_fn) combined c1 in
    let c3 = command gui (codes "echo on all") (some on_echo_fn) combined c2 in
    let c4 = command gui (codes "bytecount 5") none regular c3 in
    let c5 = command gui (codes "state") (some on_state_change_fn) regular c4 in
    if c5.daemon_persistent && (gui.enable_persistent == 2)
    then record c5 { auto_connect = true }
    else c5

abbrev pub is_state : ConnState → ConnState → Bool
is_state disconnected disconnected = true
is_state onhold onhold = true
is_state connecting connecting = true
is_state reconnecting reconnecting = true
is_state connected connected = true
is_state disconnecting disconnecting = true
is_state suspending suspending = true
is_state suspended suspended = true
is_state resuming resuming = true
is_state detaching detaching = true
is_state detached detached = true
is_state _ _ = false

-- `OnHold`.
unfoldable pub on_hold : Gui → Conn → Conn
on_hold gui c =
    let c1 = record c { restart_enabled = true } in
    let released =
      command gui (codes "hold release") none regular
        (command gui (codes "hold off") none regular (record c1 { disconnect_enabled = true })) in
    if c.daemon_persistent && (is_state c.state disconnecting || is_state c.state resuming)
    then emits
        (menu_status onhold
          ∷ status_text state_onhold
          ∷ status_icon icon_disconnected
          ∷ tray_update onhold
          ∷ [])
        (record c1 { state = onhold; disconnect_enabled = false })
    else released

-- The text behind the next four commas.
unfoldable pub skip_commas : ℕ → Text → Option Text
skip_commas zero s = some s
skip_commas (suc n) s = elim (after? b',' s) [ none ↦ none | some rest ↦ skip_commas n rest ]

abbrev pub set_ip : Option Text → Conn → Conn
set_ip (some ip) c = record c { ip = ip }
set_ip none c =
    record (emit (status_log (codes "GUI> Failed to extract the assigned ipv4 address")) c) {
      ip = [];
    }

abbrev pub set_ipv6 : Option Text → Conn → Conn
set_ipv6 (some ip) c = record c { ipv6 = ip }
set_ipv6 none c =
    record (emit (status_log (codes "GUI> Failed to extract the assigned ipv6 address")) c) {
      ipv6 = [];
    }

-- `parse_assigned_ip`.
unfoldable pub parse_assigned_ip : Gui → Conn → Text → Conn
unfolding skip_commas
parse_assigned_ip gui c msg =
    let cleared = record c { ip = []; ipv6 = [] } in
    let ipv4 = before b',' msg in
    let c1 = if length ipv4 == 0 then cleared else set_ip (gui.to_wide 15 ipv4) cleared in
    elim (after? b',' msg) [
      | none ↦ cleared
      | some rest ↦ elim (skip_commas 4 rest) [
        | none ↦ c1
        | some ipv6 ↦ set_ipv6 (gui.to_wide 44 ipv6) c1
      ]
    ]

-- `wcs_concat2` of misc.c, into a buffer of `len` characters.
unfoldable pub wcs_concat2 : ℕ → Text → Text → Text → Text
wcs_concat2 len [] src2 sep = if leb len (length src2) then [] else src2
wcs_concat2 len (a ∷ src1) [] sep = if leb len (length (a ∷ src1)) then [] else a ∷ src1
wcs_concat2 len (a ∷ src1) (b ∷ src2) sep =
    let dest = (a ∷ src1) ++ sep ++ (b ∷ src2) in if leb len (length dest) then [] else dest

abbrev pub wants_balloon : Gui → ConnState → Bool
wants_balloon gui connecting = not (gui.show_balloon == 0)
wants_balloon gui resuming = not (gui.show_balloon == 0)
wants_balloon gui reconnecting = gui.show_balloon == 2
wants_balloon gui _ = false

-- The part of `OnStateChange` for a connection that is up, with or without route errors.
unfoldable pub now_connected : Gui → Conn → Text → Bool → Conn
unfolding wcs_concat2
now_connected gui c time success =
    let ip = wcs_concat2 64 c.ip c.ipv6 (codes ", ") in
    let c1 =
      if not c.daemon_persistent && (is_state c.state connecting || is_state c.state resuming)
      then emit connect_script c
      else c in
    let c2 = if wants_balloon gui c.state then emit (balloon success ip) c1 else c1 in
    let c3 = record c2 {
      connected_since = gui.atoi time;
      failed_psw_attempts = 0;
      failed_auth_attempts = 0;
      state = connected;
    } in
    let c4 =
      emits
        (menu_status connected
          ∷ tray_icon connected
          ∷ status_text state_connected
          ∷ ip_text ip
          ∷ [])
        c3 in
    if success
    then emits (status_icon icon_connected ∷ show_window false ∷ []) c4
    else emit (status_text state_route_error) c4

unfoldable pub daemon_connected : Gui → Conn → Text → Text → Text → Conn
unfolding parse_assigned_ip now_connected
daemon_connected gui c time message rest =
    let c1 = parse_assigned_ip gui c rest in
    let shown = emit (show_window true) c1 in
    if streq message (codes "SUCCESS")
    then now_connected gui c1 time true
    else if streq message (codes "ROUTE_ERROR")
    then now_connected gui
        (emit
          (status_log (
            codes
              "ERROR: Some routes were not successfully added. The connection may not function correctly"))
          shown)
        time false
    else emit (status_log (codes "ERROR: Connection completed with critical errors.")) shown

abbrev pub count_failure : Conn → Text → Conn
count_failure c message =
    if streq message (codes "auth-failure")
    then record c { failed_auth_attempts = c.failed_auth_attempts + 1 }
    else if streq message (codes "private-key-password-failure")
    then record c { failed_psw_attempts = c.failed_psw_attempts + 1 }
    else c

abbrev pub has_text : Option Text → Bool
has_text none = false
has_text (some t) = true

unfoldable pub daemon_reconnecting : Conn → Text → Conn
unfolding clear_message
daemon_reconnecting c message =
    let c1 = if has_text c.dynamic_cr then c else count_failure c message in
    let c2 = record c1 { echo_msg = clear_message c1.echo_msg } in
    let moved =
      emits
        (tray_update reconnecting
          ∷ status_text state_reconnecting
          ∷ ip_text []
          ∷ status_icon icon_connecting
          ∷ [])
        (record c2 { state = reconnecting }) in
    emit close_qr (if is_state c.state connected then moved else c2)

-- `OnStateChange` on the four parts of its message.
unfoldable pub daemon_state_changed : Gui → Conn → Text → Text → Text → Text → Conn
unfolding daemon_connected daemon_reconnecting
daemon_state_changed gui c time state message rest =
    let c1 = record (emit (notify_state state) c) { daemon_state = take 19 state } in
    if streq state (codes "CONNECTED")
    then daemon_connected gui c1 time message rest
    else if streq state (codes "RECONNECTING")
    then daemon_reconnecting c1 message
    else if streq state (codes "ASSIGN_IP")
    then emit close_qr c1
    else emit (tray_update c1.state) c1

-- The parts of a state message; `none` where a comma is missing.
unfoldable pub state_fields : Text → Option (Text × Text × Text × Text)
state_fields msg = elim (after? b',' msg) [
  | none ↦ none
  | some tail ↦ elim (after? b',' tail) [
    | none ↦ none
    | some tail' ↦ elim (after? b',' tail') [
      | none ↦ none
      | some rest ↦ some (before b',' msg, before b',' tail, before b',' tail', rest)
    ]
  ]
]

unfoldable pub change_state : Gui → Conn → Option (Text × Text × Text × Text) → Conn
unfolding daemon_state_changed
change_state gui c none = c
change_state gui c (some (time, state, message, rest)) =
    daemon_state_changed gui c time state message rest

-- `OnStateChange`; `none` is a NULL message.
unfoldable pub on_state_change : Gui → Conn → Option Text → Conn
unfolding state_fields change_state
on_state_change gui c none = c
on_state_change gui c (some msg) = change_state gui c (state_fields msg)

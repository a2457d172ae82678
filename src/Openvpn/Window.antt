-- ===== src/Openvpn/Window.antt =====
-- openvpn.c: requests to stop, detach and release a connection, and the messages of the status
-- window that carry them out. manage.c: `OpenManagement`.
use openvpn_gui.Base.{ℕ, ◌+◌, Bool, true, false, not, ◌||◌, none, [], ◌∷◌, if◌then◌else◌, ltb}
use openvpn_gui.Base.Text.{codes}
use openvpn_gui.Conn.{
  onhold, connecting, reconnecting, disconnecting, suspending, detaching, regular, Conn, emit,
  emits, posted, wm_stop, wm_release, wm_detach, icon_connecting, state_reconnecting,
  state_wait_term, status_text, status_log, menu_status, status_icon, ip_text, disconnect_script,
  stop_event, stop_timer, kill_timer, terminate_process, message_box,
}
use openvpn_gui.Manage.{close_management}
use openvpn_gui.Openvpn.{Gui, command, is_state, on_hold}
use openvpn_gui.Openvpn.Exit.{on_stop, show_unless_silent}

-- `max_connect_time`.
abbrev pub max_connect_time : ℕ
max_connect_time = 15

-- `OpenManagement`; the result of `connect` is not looked at.
unfoldable pub open_management : Gui → Conn → Conn × Bool
open_management gui c =
    let opened = record c { manage = record c.manage { connected = 0; sk = gui.socket } } in
    if not gui.wsa_startup
    then (c, false)
    else if not gui.socket || not gui.async_select
    then (opened, false)
    else (
      record opened { manage = record opened.manage { timeout = gui.time + max_connect_time } },
      true,
    )

-- `StopOpenVPN`.
unfoldable pub stop_openvpn : Conn → Conn
stop_openvpn c = emit (posted wm_stop) c

-- `DetachOpenVPN`.
unfoldable pub detach_openvpn : Conn → Conn
detach_openvpn c =
    if c.daemon_persistent then emit (posted wm_detach) (record c { auto_connect = false }) else c

-- `ReleaseOpenVPN`.
unfoldable pub release_openvpn : Conn → Conn
release_openvpn c = if is_state c.state onhold then emit (posted wm_release) c else c

-- `OnTimeout`.
unfoldable pub on_timeout : Gui → Conn → Conn
unfolding open_management stop_openvpn
on_timeout gui c =
    let c1 =
      emits
        (status_log (codes "GUI> Connection to management interface failed")
          ∷ status_log (codes "GUI> Retrying. Press disconnect to abort")
          ∷ [])
        (show_unless_silent gui c) in
    let (c2, opened) = open_management gui (record c1 { state = connecting }) in
    if opened then c2 else stop_openvpn (emit message_box c2)

-- `OnMgmtValidate`.
unfoldable pub on_mgmt_validate : Gui → Conn → Conn
unfolding stop_openvpn
on_mgmt_validate gui c =
    if gui.valid_daemon
    then c
    else stop_openvpn (record c { manage = close_management (record c.manage { password = [] }) })

-- `DisconnectDaemon`.
unfoldable pub disconnect_daemon : Gui → Conn → Conn
disconnect_daemon gui c =
    if c.daemon_persistent
    then (if ltb 1 c.manage.connected
        then command gui (codes "signal SIGHUP") none regular (
            command gui (codes "hold on") none regular
              (command gui (codes "forget-passwords") none regular c))
        else on_stop gui c)
    else emits (stop_event ∷ stop_timer ∷ []) c

-- The messages that `StatusDialogFunc` acts on with the connection's state.
pub data Message : Type 0 where
  release_message stop_message detach_message suspend_message : Message
  stop_timer_message restart_message : Message

abbrev pub without_buttons : Conn → Conn
without_buttons c = record c { disconnect_enabled = false; restart_enabled = false }

unfoldable pub window_message : Gui → Conn → Message → Conn
unfolding disconnect_daemon
window_message gui c release_message = on_hold gui (
    emits (status_text state_reconnecting ∷ ip_text [] ∷ status_icon icon_connecting ∷ [])
      (record c { state = reconnecting }))
window_message gui c stop_message =
    let c1 = record c { state = disconnecting } in
    let c2 = if c.daemon_persistent then c1 else emit disconnect_script c1 in
    if not c.disconnect_enabled || is_state c.state onhold
    then c
    else disconnect_daemon gui
        (emits (menu_status disconnecting ∷ status_text state_wait_term ∷ []) (without_buttons c2))
window_message gui c detach_message = on_stop gui (without_buttons (record c { state = detaching }))
window_message gui c suspend_message =
    emits (menu_status disconnecting ∷ status_text state_wait_term ∷ stop_event ∷ stop_timer ∷ [])
      (without_buttons (record c { state = suspending }))
window_message gui c stop_timer_message =
    on_stop gui (emits (terminate_process ∷ kill_timer ∷ []) c)
window_message gui c restart_message =
    let restarted =
      emits (status_text state_reconnecting ∷ ip_text [] ∷ status_icon icon_connecting ∷ [])
        (command gui (codes "signal SIGHUP") none regular (record c { state = reconnecting })) in
    show_unless_silent gui (if c.restart_enabled then restarted else c)

-- ===== src/Openvpn/Exit.antt =====
-- openvpn.c: `OnStop`, the handler of the end of the daemon.
use openvpn_gui.Base.{true, false, List, [], ◌∷◌, if◌then◌else◌}
use openvpn_gui.Conn.{
  ConnState, disconnected, onhold, connecting, reconnecting, connected, disconnecting, suspending,
  suspended, resuming, detaching, detached, Conn, Output, emit, emits, posted, wm_close, Status,
  icon_disconnected, state_disconnected, state_failed, state_failed_reconn, state_suspended,
  status_text, menu_status, tray_update, status_icon, show_window, message_box,
}
use openvpn_gui.Openvpn.{Gui}

-- The window is brought to the front unless connections are to be silent.
abbrev pub show_unless_silent : Gui → Conn → Conn
show_unless_silent gui c = if gui.silent_connection then c else emit (show_window true) c

-- The cases of `OnStop` that report a lost or failed connection; `shown` is what they change in the
-- tray and in the status window.
abbrev pub report_stop : Gui → List Output → Conn → Conn
report_stop gui shown c = emits (message_box ∷ posted wm_close ∷ []) (
    show_unless_silent gui (
      emits shown
        (record c { state = disconnected; disconnect_enabled = false; restart_enabled = false })))

abbrev pub report_failed : Gui → Status → Conn → Conn
report_failed gui text c =
    report_stop gui
      (tray_update disconnecting ∷ status_icon icon_disconnected ∷ status_text text ∷ []) c

unfoldable pub stop_in : Gui → ConnState → Conn → Conn
stop_in gui connected c =
    report_stop gui
      (tray_update disconnected
        ∷ status_text state_disconnected
        ∷ status_icon icon_disconnected
        ∷ [])
      (record c { failed_psw_attempts = 0; failed_auth_attempts = 0 })
stop_in gui resuming c = report_failed gui state_failed c
stop_in gui connecting c = report_failed gui state_failed c
stop_in gui reconnecting c = report_failed gui state_failed_reconn c
stop_in gui disconnecting c =
    emits (tray_update disconnected ∷ status_text state_disconnected ∷ posted wm_close ∷ [])
      (record c {
        failed_psw_attempts = 0;
        failed_auth_attempts = 0;
        state = disconnected;
        auto_connect = if c.daemon_persistent then false else c.auto_connect;
      })
stop_in gui onhold c =
    emits (tray_update disconnected ∷ posted wm_close ∷ []) (record c { state = disconnected })
stop_in gui detaching c =
    emits (tray_update disconnected ∷ posted wm_close ∷ []) (record c { state = disconnected })
stop_in gui suspending c =
    emits (tray_update suspended ∷ status_text state_suspended ∷ [])
      (record c { state = suspended })
stop_in gui disconnected c = c
stop_in gui suspended c = c
stop_in gui detached c = c

-- `OnStop`.
unfoldable pub on_stop : Gui → Conn → Conn
unfolding stop_in
on_stop gui c = stop_in gui c.state (emit (menu_status disconnected) c)

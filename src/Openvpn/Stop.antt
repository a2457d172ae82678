-- ===== src/Openvpn/Stop.antt =====
-- openvpn.c: stopping a connection, by its daemon, by the user, and for a daemon that is not ours.
use openvpn_gui.Base.{
  ◌≡◌, refl, true, false, [], ◌∷◌, ◌++◌, if◌then◌else◌, Bool-cases, inl, inr, arith,
}
use openvpn_gui.Conn.{
  ConnState, disconnected, onhold, connecting, reconnecting, connected, disconnecting, suspending,
  suspended, resuming, detaching, detached, Conn, emit, posted, wm_stop, menu_status,
}
use openvpn_gui.Manage.Close.{IsClosed, close_management-IsClosed}
use openvpn_gui.Openvpn.{Gui, is_state}
use openvpn_gui.Openvpn.Exit.{stop_in, on_stop}
use openvpn_gui.Openvpn.Window.{on_mgmt_validate, window_message, stop_message, disconnect_daemon}

stop_in-twice :
    (gui : Gui) (s : ConnState) (c : Conn)
    → c.state ≡ s
    → on_stop gui (stop_in gui s c) ≡ emit (menu_status disconnected) (stop_in gui s c)
unfolding on_stop stop_in
stop_in-twice gui connected c e = elim (Bool-cases gui.silent_connection) [
  | inl h ↦ rw h refl
  | inr h ↦ rw h refl
]
stop_in-twice gui resuming c e = elim (Bool-cases gui.silent_connection) [
  | inl h ↦ rw h refl
  | inr h ↦ rw h refl
]
stop_in-twice gui connecting c e = elim (Bool-cases gui.silent_connection) [
  | inl h ↦ rw h refl
  | inr h ↦ rw h refl
]
stop_in-twice gui reconnecting c e = elim (Bool-cases gui.silent_connection) [
  | inl h ↦ rw h refl
  | inr h ↦ rw h refl
]
stop_in-twice gui disconnecting c e = refl
stop_in-twice gui onhold c e = refl
stop_in-twice gui detaching c e = refl
stop_in-twice gui suspending c e = refl
stop_in-twice gui disconnected c e = rw e refl
stop_in-twice gui suspended c e = rw e refl
stop_in-twice gui detached c e = rw e refl

-- The end of the process is handled once: a second `OnStop`, which the closing of the management
-- interface and the end of the process can both cause, changes nothing but the menu's entry, and
-- shows, posts and counts nothing more.
pub on_stop-twice :
    (gui : Gui) (c : Conn)
    → on_stop gui (on_stop gui c) ≡ emit (menu_status disconnected) (on_stop gui c)
unfolding on_stop
on_stop-twice gui c = stop_in-twice gui c.state (emit (menu_status disconnected) c) refl

-- A request to stop, where the button for it is enabled and the connection is not on hold, and the
-- end of the process after it, leave the connection disconnected with its failures forgotten,
-- whether the daemon is ours or persistent; a persistent one is not connected to again by itself.
pub stop_message-on_stop :
    (gui : Gui) (c : Conn)
    → c.disconnect_enabled ≡ true
    → is_state c.state onhold ≡ false
    → let c' = on_stop gui (window_message gui c stop_message) in
      (c'.state ≡ disconnected)
      × (c'.disconnect_enabled ≡ false)
      × (c'.auto_connect ≡ (if c.daemon_persistent then false else c.auto_connect))
      × (c'.failed_auth_attempts ≡ 0)
      × (c'.failed_psw_attempts ≡ 0)
unfolding on_stop window_message disconnect_daemon stop_in
stop_message-on_stop gui c enabled busy = ground arith

-- A daemon that does not pass the validation: the password is cleared, an open management
-- interface is closed for good with nothing sent, and a stop is posted. Nothing happens to a valid
-- one.
pub on_mgmt_validate-IsClosed :
    (gui : Gui) (c : Conn)
    → c.manage.sk ≡ true
    → let c' = on_mgmt_validate gui c in
      (gui.valid_daemon ≡ true → c' ≡ c)
      × (gui.valid_daemon ≡ false
          → IsClosed (record c.manage { password = [] }) c'.manage
            × (c'.out ≡ c.out ++ posted wm_stop ∷ []))
unfolding on_mgmt_validate
on_mgmt_validate-IsClosed gui c sk = (
  λ valid. rw valid refl,
  λ bad. rw bad ((close_management-IsClosed (record c.manage { password = [] })).0 sk, refl),
)

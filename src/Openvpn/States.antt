-- ===== src/Openvpn/States.antt =====
-- openvpn.c: the states of a connection under any sequence of events.
use openvpn_gui.Base.{
  ◌≡◌, refl, ◌∙◌, Bool, true, false, ◌||◌, Option, none, some, List, [], ◌∷◌, if◌then◌else◌,
  Bool-cases, inl, inr, arith, take,
}
use openvpn_gui.Base.Text.{Text}
use openvpn_gui.Conn.{
  emits, icon_connecting, ip_text, reconnecting, state_reconnecting, status_icon, status_text,
  disconnecting, disconnect_script, state_wait_term, detaching, terminate_process, kill_timer,
  notify_state, disconnected, menu_status, emit, ConnState, onhold, Conn,
}
use openvpn_gui.Openvpn.{
  Gui, is_state, on_ready, on_hold, on_state_change, change_state, state_fields,
  daemon_state_changed, daemon_connected, daemon_reconnecting, now_connected, parse_assigned_ip,
  set_ip, set_ipv6,
}
use openvpn_gui.Openvpn.Exit.{on_stop, stop_in}
use openvpn_gui.Openvpn.Window.{
  Message, release_message, stop_message, detach_message, suspend_message, stop_timer_message,
  restart_message, window_message, on_timeout, on_mgmt_validate, disconnect_daemon, open_management,
  without_buttons,
}

pub data Event : Type 0 where
  ready_event hold_event exit_event timeout_event validate_event : Event
  state_event : Option Text → Event
  message_event : Message → Event

unfoldable pub handle : Gui → Conn → Event → Conn
handle gui c ready_event = on_ready gui c
handle gui c hold_event = on_hold gui c
handle gui c exit_event = on_stop gui c
handle gui c timeout_event = on_timeout gui c
handle gui c validate_event = on_mgmt_validate gui c
handle gui c (state_event msg) = on_state_change gui c msg
handle gui c (message_event m) = window_message gui c m

-- The answers of Windows may differ from one event to the next.
unfoldable pub handle_all : Conn → List (Gui × Event) → Conn
handle_all c [] = c
handle_all c ((gui, e) ∷ es) = handle_all (handle gui c e) es

-- What every handler keeps: only a persistent daemon is put on hold.
pub record Keeps (c c' : Conn) : Type 0 where
  pub persistent : c'.daemon_persistent ≡ c.daemon_persistent
  pub held :
      is_state c'.state onhold ≡ true → (is_state c.state onhold || c.daemon_persistent) ≡ true

stop_in-Keeps : (gui : Gui) (s : ConnState) (c : Conn) → Keeps c (stop_in gui s c)
unfolding stop_in
stop_in-Keeps gui s c = ground arith

on_hold-Keeps : (gui : Gui) (c : Conn) → Keeps c (on_hold gui c)
unfolding on_hold
on_hold-Keeps gui c = ground arith

on_timeout-Keeps : (gui : Gui) (c : Conn) → Keeps c (on_timeout gui c)
unfolding on_timeout open_management
on_timeout-Keeps gui c = ground arith

now_connected-Keeps :
    (gui : Gui) (c : Conn) (time : Text) (success : Bool)
    → Keeps c (now_connected gui c time success)
unfolding now_connected
now_connected-Keeps gui c time success = ground arith

Keeps-trans : {a b c : Conn} → Keeps a b → Keeps b c → Keeps a c
Keeps-trans {a = a} p q = record {
  persistent = q.persistent ∙ p.persistent;
  held = λ h. elim (Bool-cases a.daemon_persistent) [
    | inl kept ↦ ground arith
    | inr dropped ↦ ground (arith, q.held h, p.held, p.persistent)
  ];
}

set_ip-Keeps : (ip : Option Text) (c : Conn) → Keeps c (set_ip ip c)
set_ip-Keeps none c = ground arith
set_ip-Keeps (some ip) c = ground arith

set_ipv6-Keeps : (ip : Option Text) (c : Conn) → Keeps c (set_ipv6 ip c)
set_ipv6-Keeps none c = ground arith
set_ipv6-Keeps (some ip) c = ground arith

daemon_reconnecting-Keeps : (c : Conn) (message : Text) → Keeps c (daemon_reconnecting c message)
unfolding daemon_reconnecting
daemon_reconnecting-Keeps c message = ground arith

on_ready-Keeps : (gui : Gui) (c : Conn) → Keeps c (on_ready gui c)
unfolding on_ready
on_ready-Keeps gui c = ground arith

on_mgmt_validate-Keeps : (gui : Gui) (c : Conn) → Keeps c (on_mgmt_validate gui c)
unfolding on_mgmt_validate
on_mgmt_validate-Keeps gui c = ground arith

on_stop-Keeps : (gui : Gui) (c : Conn) → Keeps c (on_stop gui c)
unfolding on_stop
on_stop-Keeps gui c =
    let k = stop_in-Keeps gui c.state (emit (menu_status disconnected) c) in
    record { persistent = k.persistent; held = k.held }

parse_assigned_ip-Keeps :
    (gui : Gui) (c : Conn) (msg : Text) → Keeps c (parse_assigned_ip gui c msg)
unfolding parse_assigned_ip
parse_assigned_ip-Keeps gui c msg = ground arith

daemon_connected-Keeps :
    (gui : Gui) (c : Conn) (time message rest : Text)
    → Keeps c (daemon_connected gui c time message rest)
unfolding daemon_connected
daemon_connected-Keeps gui c time message rest =
    ground (arith, parse_assigned_ip-Keeps gui c rest, now_connected-Keeps gui)

daemon_state_changed-Keeps :
    (gui : Gui) (c : Conn) (time state message rest : Text)
    → Keeps c (daemon_state_changed gui c time state message rest)
unfolding daemon_state_changed
daemon_state_changed-Keeps gui c time state message rest =
    let c' = record (emit (notify_state state) c) { daemon_state = take 19 state } in
    ground
      (arith, daemon_connected-Keeps gui c' time message rest, daemon_reconnecting-Keeps c' message)

change_state-Keeps :
    (gui : Gui) (c : Conn) (fields : Option (Text × Text × Text × Text))
    → Keeps c (change_state gui c fields)
unfolding change_state
change_state-Keeps gui c none = ground arith
change_state-Keeps gui c (some (time, state, message, rest)) =
    daemon_state_changed-Keeps gui c time state message rest

on_state_change-Keeps :
    (gui : Gui) (c : Conn) (msg : Option Text) → Keeps c (on_state_change gui c msg)
unfolding on_state_change
on_state_change-Keeps gui c none = ground arith
on_state_change-Keeps gui c (some msg) = change_state-Keeps gui c (state_fields msg)

disconnect_daemon-Keeps : (gui : Gui) (c : Conn) → Keeps c (disconnect_daemon gui c)
unfolding disconnect_daemon
disconnect_daemon-Keeps gui c = ground (arith, on_stop-Keeps gui c)

window_message-Keeps : (gui : Gui) (c : Conn) (m : Message) → Keeps c (window_message gui c m)
unfolding window_message
window_message-Keeps gui c release_message =
    let c' =
      emits (status_text state_reconnecting ∷ ip_text [] ∷ status_icon icon_connecting ∷ [])
        (record c { state = reconnecting }) in
    ground (arith, on_hold-Keeps gui c')
window_message-Keeps gui c stop_message =
    let c1 = record c { state = disconnecting } in
    let c2 = if c.daemon_persistent then c1 else emit disconnect_script c1 in
    let c3 =
      emits (menu_status disconnecting ∷ status_text state_wait_term ∷ []) (without_buttons c2) in
    ground (arith, disconnect_daemon-Keeps gui c3)
window_message-Keeps gui c detach_message =
    ground (arith, on_stop-Keeps gui (without_buttons (record c { state = detaching })))
window_message-Keeps gui c suspend_message = ground arith
window_message-Keeps gui c stop_timer_message =
    ground (arith, on_stop-Keeps gui (emits (terminate_process ∷ kill_timer ∷ []) c))
window_message-Keeps gui c restart_message = ground arith

handle-Keeps : (gui : Gui) (c : Conn) (e : Event) → Keeps c (handle gui c e)
unfolding handle
handle-Keeps gui c ready_event = on_ready-Keeps gui c
handle-Keeps gui c hold_event = on_hold-Keeps gui c
handle-Keeps gui c exit_event = on_stop-Keeps gui c
handle-Keeps gui c timeout_event = on_timeout-Keeps gui c
handle-Keeps gui c validate_event = on_mgmt_validate-Keeps gui c
handle-Keeps gui c (state_event msg) = on_state_change-Keeps gui c msg
handle-Keeps gui c (message_event m) = window_message-Keeps gui c m

-- Whatever the daemon reports, the user asks for and Windows answers, in any order: a connection
-- that is not on hold at first and whose daemon was started by the program is never on hold
-- afterwards, and no event makes its daemon a persistent one or the other way round.
pub handle_all-onhold :
    (c : Conn) (events : List (Gui × Event))
    → let c' = handle_all c events in
      (c'.daemon_persistent ≡ c.daemon_persistent)
      × (is_state c.state onhold ≡ false
          → c.daemon_persistent ≡ false
          → is_state c'.state onhold ≡ false)
unfolding handle_all
handle_all-onhold c [] = (refl, λ h d. h)
handle_all-onhold c ((gui, e) ∷ events) =
    let k = handle-Keeps gui c e in
    let rest = handle_all-onhold (handle gui c e) events in
    (rest.0 ∙ k.persistent, λ h d. rest.1 (ground (arith, k.held)) (k.persistent ∙ d))

-- ===== src/Openvpn/Up.antt =====
-- openvpn.c: what makes a connection a connected one.
use openvpn_gui.Base.{
  ◌≡◌, refl, ap, ◌∙◌, Bool, true, false, ◌||◌, none, some, List, [], ◌∷◌, ◌++◌, if◌then◌else◌,
  Bool-cases, Option-cases, inl, inr, arith, take, All,
}
use openvpn_gui.Base.Text.{Text, codes, streq, strbegins, before, after?, streq_iff, split_at}
use openvpn_gui.Conn.{
  emits, emit, ConnState, connected, Conn, icon_connecting, ip_text, reconnecting,
  state_reconnecting, status_icon, status_text, disconnecting, disconnect_script, state_wait_term,
  detaching, terminate_process, kill_timer, notify_state, menu_status, disconnected,
}
use openvpn_gui.Openvpn.{
  Gui, is_state, on_ready, on_hold, on_state_change, change_state, state_fields,
  daemon_state_changed, daemon_connected, daemon_reconnecting, parse_assigned_ip,
}
use openvpn_gui.Openvpn.Exit.{on_stop, stop_in}
use openvpn_gui.Openvpn.Window.{
  Message, release_message, stop_message, detach_message, suspend_message, stop_timer_message,
  restart_message, window_message, on_timeout, on_mgmt_validate, disconnect_daemon, open_management,
  without_buttons,
}
use openvpn_gui.Openvpn.States.{
  Event, ready_event, hold_event, exit_event, timeout_event, validate_event, state_event,
  message_event, handle, handle_all,
}

-- A state message that says that the connection is up, with or without route errors.
unfoldable pub announces : Text → Bool
announces msg = elim (after? b',' msg) [
  | none ↦ false
  | some tail ↦
      strbegins tail (codes "CONNECTED,SUCCESS,") || strbegins tail (codes "CONNECTED,ROUTE_ERROR,")
]

unfoldable pub event_announces : Event → Bool
unfolding announces
event_announces (state_event (some msg)) = announces msg
event_announces _ = false

abbrev Stays : Conn → Conn → Type 0
Stays c c' = is_state c'.state connected ≡ true → is_state c.state connected ≡ true

stop_in-Stays : (gui : Gui) (s : ConnState) (c : Conn) → Stays c (stop_in gui s c)
unfolding stop_in
stop_in-Stays gui s c = ground arith

on_stop-Stays : (gui : Gui) (c : Conn) → Stays c (on_stop gui c)
unfolding on_stop
on_stop-Stays gui c = stop_in-Stays gui c.state (emit (menu_status disconnected) c)

on_hold-Stays : (gui : Gui) (c : Conn) → Stays c (on_hold gui c)
unfolding on_hold
on_hold-Stays gui c = ground arith

on_timeout-Stays : (gui : Gui) (c : Conn) → Stays c (on_timeout gui c)
unfolding on_timeout open_management
on_timeout-Stays gui c = ground arith

parse_assigned_ip-Stays :
    (gui : Gui) (c : Conn) (msg : Text) → Stays c (parse_assigned_ip gui c msg)
unfolding parse_assigned_ip
parse_assigned_ip-Stays gui c msg = ground arith

daemon_reconnecting-Stays : (c : Conn) (message : Text) → Stays c (daemon_reconnecting c message)
unfolding daemon_reconnecting
daemon_reconnecting-Stays c message = ground arith

disconnect_daemon-Stays : (gui : Gui) (c : Conn) → Stays c (disconnect_daemon gui c)
unfolding disconnect_daemon
disconnect_daemon-Stays gui c = ground (arith, on_stop-Stays gui c)

on_ready-Stays : (gui : Gui) (c : Conn) → Stays c (on_ready gui c)
unfolding on_ready
on_ready-Stays gui c = ground arith

on_mgmt_validate-Stays : (gui : Gui) (c : Conn) → Stays c (on_mgmt_validate gui c)
unfolding on_mgmt_validate
on_mgmt_validate-Stays gui c = ground arith

window_message-Stays : (gui : Gui) (c : Conn) (m : Message) → Stays c (window_message gui c m)
unfolding window_message
window_message-Stays gui c release_message =
    let c' =
      emits (status_text state_reconnecting ∷ ip_text [] ∷ status_icon icon_connecting ∷ [])
        (record c { state = reconnecting }) in
    ground (arith, on_hold-Stays gui c')
window_message-Stays gui c stop_message =
    let c1 = record c { state = disconnecting } in
    let c2 = if c.daemon_persistent then c1 else emit disconnect_script c1 in
    let c3 =
      emits (menu_status disconnecting ∷ status_text state_wait_term ∷ []) (without_buttons c2) in
    ground (arith, disconnect_daemon-Stays gui c3)
window_message-Stays gui c detach_message =
    ground (arith, on_stop-Stays gui (without_buttons (record c { state = detaching })))
window_message-Stays gui c suspend_message = ground arith
window_message-Stays gui c stop_timer_message =
    ground (arith, on_stop-Stays gui (emits (terminate_process ∷ kill_timer ∷ []) c))
window_message-Stays gui c restart_message = ground arith

-- The message is not one of those that come with a usable connection.
abbrev Unusable : Text → Type 0
Unusable message = (streq message (codes "SUCCESS") || streq message (codes "ROUTE_ERROR")) ≡ false

daemon_connected-Stays :
    (gui : Gui) (c : Conn) (time message rest : Text)
    → Unusable message
    → Stays c (daemon_connected gui c time message rest)
unfolding daemon_connected
daemon_connected-Stays gui c time message rest bad =
    ground (arith, parse_assigned_ip-Stays gui c rest)

daemon_state_changed-Stays :
    (gui : Gui) (c : Conn) (time state message rest : Text)
    → (streq state (codes "CONNECTED") ≡ true → Unusable message)
    → Stays c (daemon_state_changed gui c time state message rest)
unfolding daemon_state_changed
daemon_state_changed-Stays gui c time state message rest bad =
    let c' = record (emit (notify_state state) c) { daemon_state = take 19 state } in
    elim (Bool-cases (streq state (codes "CONNECTED"))) [
      | inl same ↦ rw same (daemon_connected-Stays gui c' time message rest (bad same))
      | inr other ↦ ground (arith, daemon_reconnecting-Stays c' message)
    ]

begins-usable :
    (tail rest : Text)
    → after? b',' tail ≡ some rest
    → (streq (before b',' tail) (codes "SUCCESS") || streq (before b',' tail) (codes "ROUTE_ERROR"))
      ≡ true
    → (strbegins (codes "CONNECTED" ++ b',' ∷ tail) (codes "CONNECTED,SUCCESS,")
        || strbegins (codes "CONNECTED" ++ b',' ∷ tail) (codes "CONNECTED,ROUTE_ERROR,"))
      ≡ true
unfolding strbegins
begins-usable tail rest e h = elim (Bool-cases (streq (before b',' tail) (codes "SUCCESS"))) [
  | inl success ↦
      let is : before b',' tail ≡ codes "SUCCESS" =
        (streq_iff (before b',' tail) (codes "SUCCESS")).0 success in
      rw (split_at b',' tail rest e ∙ ap (λ t. t ++ b',' ∷ rest) is) refl
  | inr other ↦
      let route : streq (before b',' tail) (codes "ROUTE_ERROR") ≡ true =
        ground (arith, h, other) in
      let is : before b',' tail ≡ codes "ROUTE_ERROR" =
        (streq_iff (before b',' tail) (codes "ROUTE_ERROR")).0 route in
      rw (split_at b',' tail rest e ∙ ap (λ t. t ++ b',' ∷ rest) is) refl
]

usable-announces :
    (msg tail tail' rest : Text)
    → after? b',' msg ≡ some tail
    → after? b',' tail ≡ some tail'
    → after? b',' tail' ≡ some rest
    → streq (before b',' tail) (codes "CONNECTED") ≡ true
    → (streq (before b',' tail') (codes "SUCCESS")
        || streq (before b',' tail') (codes "ROUTE_ERROR"))
      ≡ true
    → announces msg ≡ true
unfolding announces
usable-announces msg tail tail' rest e e' e'' same usable =
    let whole : tail ≡ codes "CONNECTED" ++ b',' ∷ tail' =
      split_at b',' tail tail' e'
      ∙ ap (λ t. t ++ b',' ∷ tail') ((streq_iff (before b',' tail) (codes "CONNECTED")).0 same) in
    rw (e, whole, announces) (begins-usable tail' rest e'' usable)

quiet-Unusable :
    (msg tail tail' rest : Text)
    → after? b',' msg ≡ some tail
    → after? b',' tail ≡ some tail'
    → after? b',' tail' ≡ some rest
    → announces msg ≡ false
    → streq (before b',' tail) (codes "CONNECTED") ≡ true
    → Unusable (before b',' tail')
quiet-Unusable msg tail tail' rest e e' e'' quiet same =
    ground (arith, quiet, usable-announces msg tail tail' rest e e' e'' same)

change_state-Stays :
    (gui : Gui) (c : Conn) (msg : Text)
    → announces msg ≡ false
    → Stays c (change_state gui c (state_fields msg))
unfolding change_state state_fields
change_state-Stays gui c msg quiet = elim (Option-cases (after? b',' msg)) [
  | inl e ↦ rw (e, change_state, state_fields) (λ h. h)
  | inr (tail, e) ↦ elim (Option-cases (after? b',' tail)) [
    | inl e' ↦ rw (e, e', change_state, state_fields) (λ h. h)
    | inr (tail', e') ↦ elim (Option-cases (after? b',' tail')) [
      | inl e'' ↦ rw (e, e', e'', change_state, state_fields) (λ h. h)
      | inr (rest, e'') ↦
          rw (e, e', e'', change_state, state_fields)
            (daemon_state_changed-Stays gui c (before b',' msg) (before b',' tail)
              (before b',' tail') rest (quiet-Unusable msg tail tail' rest e e' e'' quiet))
    ]
  ]
]

handle-Stays :
    (gui : Gui) (c : Conn) (e : Event) → event_announces e ≡ false → Stays c (handle gui c e)
unfolding handle event_announces on_state_change
handle-Stays gui c ready_event q = on_ready-Stays gui c
handle-Stays gui c hold_event q = on_hold-Stays gui c
handle-Stays gui c exit_event q = on_stop-Stays gui c
handle-Stays gui c timeout_event q = on_timeout-Stays gui c
handle-Stays gui c validate_event q = on_mgmt_validate-Stays gui c
handle-Stays gui c (state_event none) q = λ h. h
handle-Stays gui c (state_event (some msg)) q = change_state-Stays gui c msg q
handle-Stays gui c (message_event m) q = window_message-Stays gui c m

-- No sequence of events makes a connection connected, unless one of them is a state message of the
-- daemon whose second field is CONNECTED and whose third is SUCCESS or ROUTE_ERROR.
pub handle_all-connected :
    (c : Conn) (events : List (Gui × Event))
    → All (λ (e : Gui × Event). event_announces e.1 ≡ false) events
    → is_state c.state connected ≡ false
    → is_state (handle_all c events).state connected ≡ false
unfolding handle_all
handle_all-connected c [] quiet h = h
handle_all-connected c ((gui, e) ∷ events) quiet h =
    handle_all-connected (handle gui c e) events quiet.1
      (ground (arith, handle-Stays gui c e quiet.0))

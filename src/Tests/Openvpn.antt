-- ===== src/Tests/Openvpn.antt =====
-- The properties of openvpn.c at concrete inputs.
use openvpn_gui.Base.{
  ℕ, ◌≡◌, refl, true, false, Option, none, some, List, [], ◌∷◌, ◌++◌, length, take,
}
use openvpn_gui.Base.Text.{Text, codes, streq, strbegins, contains, after?, skip_while}
use openvpn_gui.Conn.{onhold, connected, disconnected, emit, menu_status}
use openvpn_gui.Openvpn.{Gui, is_state}
use openvpn_gui.Openvpn.Exit.{on_stop}
use openvpn_gui.Openvpn.Window.{window_message, stop_message, restart_message}
use openvpn_gui.Openvpn.Stop.{on_stop-twice, stop_message-on_stop}
use openvpn_gui.Openvpn.States.{
  Event, hold_event, state_event, message_event, handle_all, handle_all-onhold,
}
use openvpn_gui.Openvpn.Up.{event_announces, handle_all-connected}
use openvpn_gui.Base.Tokens.{strtok, token_of, behind_token}
use openvpn_gui.Openvpn.Challenge.{
  no_param, parse_dynamic_cr, parse_input_request, cr_tokens, dynamic_cr_of,
}
use openvpn_gui.Openvpn.Challenge.RoundTrip.{parse_dynamic_cr_lem, parse_input_request_lem}
use openvpn_gui.Openvpn.Password.{on_password, ask_input}
use openvpn_gui.Openvpn.Password.Flow.{on_password-parse_dynamic_cr}
use openvpn_gui.Tests.Manage.{conn}

abbrev pub gui : Gui
gui = record {
  silent_connection = true;
  show_balloon = 1;
  enable_persistent = 0;
  atoi = length;
  to_wide = λ (n : ℕ) (s : Text). some (take n s);
  memory = true;
  valid_daemon = false;
  wsa_startup = true;
  socket = true;
  async_select = true;
  time = 7;
}

on_stop-twice_example :
    on_stop gui (on_stop gui conn) ≡ emit (menu_status disconnected) (on_stop gui conn)
on_stop-twice_example = on_stop-twice gui conn

stop_message-on_stop_example :
    let c' = on_stop gui (window_message gui conn stop_message) in
    (c'.state ≡ disconnected)
    × (c'.disconnect_enabled ≡ false)
    × (c'.auto_connect ≡ false)
    × (c'.failed_auth_attempts ≡ 0)
    × (c'.failed_psw_attempts ≡ 0)
stop_message-on_stop_example = stop_message-on_stop gui conn refl refl

-- The daemon asks to be released, reports an error, and the user asks to restart.
abbrev events : List (Gui × Event)
events =
    (gui, hold_event)
    ∷ (gui, state_event (some (codes "1,CONNECTED,ERROR,10.8.0.2,,,,")))
    ∷ (gui, message_event restart_message)
    ∷ []

handle_all-onhold_example :
    ((handle_all conn events).daemon_persistent ≡ false)
    × (is_state conn.state onhold ≡ false
        → conn.daemon_persistent ≡ false
        → is_state (handle_all conn events).state onhold ≡ false)
handle_all-onhold_example = handle_all-onhold conn events

handle_all-connected_example : is_state (handle_all conn events).state connected ≡ false
unfolding event_announces after? strbegins
handle_all-connected_example = handle_all-connected conn events (refl, (refl, (refl, tt))) refl

abbrev reversed : Text → Option Text
reversed [] = none
reversed (c ∷ s) = some (s ++ c ∷ [])

parse_dynamic_cr_lem_example :
    parse_dynamic_cr reversed true (codes "R,E:id7:ejo:PIN: now")
    ≡ some (record no_param {
      user = codes "joe";
      id = codes "id7";
      str = codes "PIN: now";
      cr_type_crv1 = true;
      cr_echo = true;
      cr_response = true;
    })
unfolding contains
parse_dynamic_cr_lem_example =
    parse_dynamic_cr_lem reversed b'R' b'i' b'e' b'P' (codes ",E") (codes "d7") (codes "jo")
      (codes "IN: now") (codes "joe") (refl, (refl, (refl, tt))) (refl, (refl, (refl, tt)))
      (refl, (refl, (refl, tt))) refl

-- The tokens move up when the id is empty.
empty_id : parse_dynamic_cr reversed true (codes "R,E::ejo:PIN") ≡ none
unfolding parse_dynamic_cr cr_tokens strtok token_of behind_token skip_while contains dynamic_cr_of
empty_id = refl

parse_input_request_lem_example :
    parse_input_request true (codes "Need 'My Card' password MSG:PIN of card")
    ≡ some (record no_param { id = codes "My Card"; str = codes "PIN of card"; pass_token = true })
unfolding contains streq
parse_input_request_lem_example =
    parse_input_request_lem b'M' (codes "y Card") (codes "PIN of card")
      (refl, (refl, (refl, (refl, (refl, (refl, (refl, tt)))))))

on_password-parse_dynamic_cr_example :
    let first =
      on_password reversed length false true conn
        (codes "Verification Failed: 'Auth' ['CRV1:" ++ (codes "R,E:id7:ejo:PIN" ++ codes "']")) in
    let next =
      on_password reversed length false true first.0 (codes "Need 'Auth' username/password") in
    (first.1 ≡ none)
    × (next.0.dynamic_cr ≡ none)
    × (next.1
        ≡ ask_input reversed length false true
            (parse_dynamic_cr reversed true (codes "R,E:id7:ejo:PIN")))
unfolding contains
on_password-parse_dynamic_cr_example =
    on_password-parse_dynamic_cr reversed length false conn (codes "R,E:id7:ejo:PIN") refl

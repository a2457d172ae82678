-- ===== src/Tests/Restart.antt =====
-- The properties of the restart list in main.c at concrete inputs.
use openvpn_gui.Base.{
  ◌<◌, ◌≡◌, refl, true, false, none, some, List, [], ◌∷◌, map, arith, length, All,
}
use openvpn_gui.Base.Text.{codes, streq, contains, streq_refl}
use openvpn_gui.Conn.{connected, disconnected}
use openvpn_gui.Restart.{Session, save_auto_restart_list, load_auto_restart_list}
use openvpn_gui.Restart.Active.{restarted}
use openvpn_gui.Restart.RoundTrip.{Apart, load_auto_restart_list-save_auto_restart_list}

abbrev session_a : Session
session_a = record {
  config_file = codes "a.ovpn";
  config_name = codes "a";
  state = connected;
  daemon_persistent = false;
  auto_connect = false;
}

abbrev session_b : Session
session_b = record {
  config_file = codes "b.ovpn";
  config_name = codes "b";
  state = disconnected;
  daemon_persistent = false;
  auto_connect = false;
}

abbrev sessions : List Session
sessions = session_a ∷ session_b ∷ []

sessions-Proper :
    All (λ c. (0 < length c.config_name) × (contains c.config_name 0 ≡ false)) sessions
unfolding contains
sessions-Proper = ((omega arith, refl), ((omega arith, refl), tt))

sessions-Apart : Apart streq streq_refl sessions
unfolding streq
sessions-Apart = (((refl, refl), tt), (tt, tt))

load_auto_restart_list-save_auto_restart_list_example :
    load_auto_restart_list streq true (save_auto_restart_list true true none sessions) sessions
    ≡ some (map restarted sessions)
load_auto_restart_list-save_auto_restart_list_example =
    load_auto_restart_list-save_auto_restart_list streq streq_refl none sessions sessions-Proper
      sessions-Apart

-- ===== src/Tests/Manage.antt =====
-- The properties of manage.c at concrete inputs.
use openvpn_gui.Base.{
  ◌≡◌, refl, sym, ap, Bool, true, false, Option, none, some, [], ◌∷◌, ◌++◌, arith,
}
use openvpn_gui.Base.Text.{Text, codes, strbegins, after?, before}
use openvpn_gui.Conn.{
  Conn, Manage, Cmd, Handler, MsgType, regular, combined, log, on_log_line_fn, connecting, emit,
  status_log,
}
use openvpn_gui.Manage.{send_command, close_management}
use openvpn_gui.Manage.Queue.{stream, IsQueue, send_command-stream}
use openvpn_gui.Manage.Close.{IsClosed, close_management-IsClosed}
use openvpn_gui.Manage.Read.{
  Read, done, fault, no_fuel, on_read, read_loop, take_line, handle_line, ◌>>=◌,
}
use openvpn_gui.Manage.Read.Keeps.{Clear}
use openvpn_gui.Manage.Read.Chunks.{on_read-append}
use openvpn_gui.Manage.Read.Total.{ends, ends-on_management}
use openvpn_gui.Manage.Events.{fd_read, on_management}
use openvpn_gui.Echo.{cleared_fp}

abbrev waiting : Cmd
waiting = record { buf = codes "state on\n"; size = 9; handler = none; type = regular }

abbrev logging : Cmd
logging = record {
  buf = codes "log on\n";
  size = 7;
  handler = some on_log_line_fn;
  type = combined;
}

-- An interface whose socket takes 4 bytes, then nothing, then the rest.
abbrev busy : Manage
busy = record {
  sk = true;
  timeout = 20;
  password = codes "pw";
  saved = codes ">INFO:";
  cmd_queue = waiting ∷ logging ∷ [];
  connected = 2;
  sends = 4 ∷ 0 ∷ 9 ∷ [];
  sent = codes "hold\n";
  freed = [];
}

abbrev pub conn : Conn
conn = record {
  manage = busy;
  state = connecting;
  daemon_persistent = false;
  auto_connect = false;
  failed_psw_attempts = 0;
  failed_auth_attempts = 1;
  connected_since = 0;
  dynamic_cr = none;
  disable_echo_msg = false;
  echo_msg = record { fp = cleared_fp; title = none; text = none; history = [] };
  daemon_state = [];
  ip = [];
  ipv6 = [];
  disconnect_enabled = true;
  restart_enabled = true;
  out = [];
}

-- Handlers that write what they are given to the status log.
abbrev run_logging : Handler → Option Text → Conn → Conn
run_logging h none c = c
run_logging h (some msg) c = emit (status_log msg) c

abbrev log_table : MsgType → Option Handler
log_table log = some on_log_line_fn
log_table _ = none

run_logging-Clear :
    (h : Handler) (msg : Option Text) (c : Conn) → Clear c → Clear (run_logging h msg c)
run_logging-Clear h none c k = k
run_logging-Clear h (some msg) c k = record { none_saved = k.none_saved }

busy-IsQueue : IsQueue busy
busy-IsQueue = (omega arith, (omega arith, tt))

send_command-stream_example :
    (stream (send_command busy) ≡ stream busy) × IsQueue (send_command busy)
send_command-stream_example = send_command-stream busy busy-IsQueue

close_management-IsClosed_example :
    (busy.sk ≡ true → IsClosed busy (close_management busy))
    × (busy.sk ≡ false → close_management busy ≡ busy)
close_management-IsClosed_example = close_management-IsClosed busy

abbrev valid_in : Read → Bool
valid_in (done c) = c.manage.sk
valid_in fault = true
valid_in no_fuel = true

-- No line of the first read closes the socket.
still_valid :
    (c : Conn)
    → on_read run_logging log_table true true (codes "5") (some (codes "x\r\n>LOG:1,I")) conn
      ≡ done c
    → c.manage.sk ≡ true
unfolding on_read read_loop take_line handle_line strbegins after? before
still_valid c e = sym (ap valid_in e)

on_read-append_example :
    (on_read run_logging log_table true true (codes "5") (some (codes "x\r\n>LOG:1,I")) conn
      >>= on_read run_logging log_table true true (codes "5") (some (codes ",up\r\n")))
    ≡ on_read run_logging log_table true true
        (codes "5")
        (some (codes "x\r\n>LOG:1,I" ++ codes ",up\r\n"))
        conn
on_read-append_example =
    on_read-append run_logging log_table (codes "5") run_logging-Clear b'x' b','
      (codes "\r\n>LOG:1,I") (codes "up\r\n") conn refl still_valid

ends-on_management_example :
    ends (
      on_management run_logging log_table true true
        (codes "5")
        5
        (fd_read (some (codes "ENTER PASSWORD:\n\n")))
        conn)
    ≡ true
ends-on_management_example =
    ends-on_management run_logging log_table (codes "5") true true 5
      (fd_read (some (codes "ENTER PASSWORD:\n\n"))) conn

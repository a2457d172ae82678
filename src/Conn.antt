-- ===== src/Conn.antt =====
-- options.h, manage.h, echo.h: the connection, its enumerations, and the record of what it shows.
-- `connection_t` is `Conn`, `c->manage` is `Manage`; a bit of `c->flags` is a Boolean field. What
-- the program hands to the outside (commands posted to its window, lines of the status log, windows
-- and dialogs) is appended to `out`, so that the order of these effects can be read off.
use openvpn_gui.Base.{ℕ, Bool, Option, List, [], ◌∷◌, ◌++◌}
use openvpn_gui.Base.Text.{Text}

-- `conn_state_t`.
pub data ConnState : Type 0 where
  disconnected onhold connecting reconnecting connected disconnecting : ConnState
  suspending suspended resuming detaching detached : ConnState

-- `mgmt_cmd_type`.
pub data CmdType : Type 0 where
  regular combined : CmdType

-- `mgmt_rtmsg_type`.
pub data MsgType : Type 0 where
  ready stop bytecount echo hold log password proxy state needok needstr : MsgType
  pkcs11_id_count infomsg timeout validate : MsgType

-- The functions that a `mgmt_msg_func` points to.
pub data Handler : Type 0 where
  on_ready_fn on_hold_fn on_log_line_fn on_state_change_fn on_password_fn on_proxy_fn on_stop_fn
        on_need_ok_fn :
      Handler
  on_need_str_fn on_echo_fn on_byte_count_fn on_info_msg_fn on_timeout_fn on_mgmt_validate_fn :
      Handler
  pkcs11_count_recv_fn pkcs11_entry_recv_fn : Handler

-- `mgmt_cmd_t`: `buf` is the memory of `command`, of which the first `size` bytes are to be sent.
pub record Cmd : Type 0 where
  pub buf : Text
  pub size : ℕ
  pub handler : Option Handler
  pub type : CmdType

-- `sk` is false for `INVALID_SOCKET`. The circular list from `cmd_queue` on is a list with its head
-- first. `saved_size` is the length of `saved`. Of the world outside there is: what the coming
-- calls of `send` accept (0 for an error or a socket that would block, and when the list is over),
-- the bytes that were accepted, and the contents of the command buffers when they were freed.
pub record Manage : Type 0 where
  pub sk : Bool
  pub timeout : ℕ
  pub password : Text
  pub saved : Text
  pub cmd_queue : List Cmd
  pub connected : ℕ
  pub sends : List ℕ
  pub sent : Text
  pub freed : List Text

-- What is posted or sent to the status window.
pub data Posted : Type 0 where
  wm_stop wm_close wm_restart wm_release wm_detach : Posted

pub data Icon : Type 0 where
  icon_connected icon_connecting icon_disconnected : Icon

-- The texts of the status window and its icons, as far as the code chooses among them.
pub data Status : Type 0 where
  state_connected state_route_error state_reconnecting state_disconnected state_failed : Status
  state_failed_reconn state_suspended state_onhold state_wait_term : Status

pub data Output : Type 0 where
  posted : Posted → Output
  status_text : Status → Output
  status_log : Text → Output
  menu_status : ConnState → Output
  tray_icon : ConnState → Output
  tray_update : ConnState → Output
  status_icon : Icon → Output
  ip_text : Text → Output
  show_window : Bool → Output
  balloon : Bool → Text → Output
  connect_script : Output
  disconnect_script : Output
  stop_event : Output
  stop_timer : Output
  kill_timer : Output
  notify_state : Text → Output
  terminate_process : Output
  message_box : Output
  close_qr : Output
  echo_window : Output
  echo_balloon : Output
  reconnect : Output

-- `struct echo_msg_fp`.
pub record Fingerprint : Type 0 where
  pub digest : Text
  pub timestamp : ℕ

-- `struct echo_msg`. `none` is a NULL pointer; `txtlen` is the length of the text.
pub record EchoMsg : Type 0 where
  pub fp : Fingerprint
  pub title : Option Text
  pub text : Option Text
  pub history : List Fingerprint

pub record Conn : Type 0 where
  pub manage : Manage
  pub state : ConnState
  pub daemon_persistent : Bool
  pub auto_connect : Bool
  pub failed_psw_attempts : ℕ
  pub failed_auth_attempts : ℕ
  pub connected_since : ℕ
  pub dynamic_cr : Option Text
  pub disable_echo_msg : Bool
  pub echo_msg : EchoMsg
  pub daemon_state : Text
  pub ip : Text
  pub ipv6 : Text
  -- whether the buttons ID_DISCONNECT and ID_RESTART of the status window are enabled
  pub disconnect_enabled : Bool
  pub restart_enabled : Bool
  pub out : List Output

-- The effect `o` on the world outside.
abbrev pub emit : Output → Conn → Conn
emit o c = record c { out = c.out ++ o ∷ [] }

abbrev pub emits : List Output → Conn → Conn
emits os c = record c { out = c.out ++ os }

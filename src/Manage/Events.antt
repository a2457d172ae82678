-- ===== src/Manage/Events.antt =====
-- manage.c: `OnManagement`, which Windows calls with an event of the management socket.
use openvpn_gui.Base.{ℕ, Bool, true, false, ◌||◌, Option, some, [], ◌++◌, if◌then◌else◌, take, ltb}
use openvpn_gui.Base.Text.{Text, codes}
use openvpn_gui.Conn.{
  Conn, Handler, MsgType, log, stop, timeout, validate, disconnected, emit, reconnect,
}
use openvpn_gui.Openvpn.{is_state}
use openvpn_gui.Manage.{send_command, close_management}
use openvpn_gui.Manage.Read.{Read, done, call, call_or_fault, on_read, with_manage}

-- FD_CONNECT with or without an error, FD_READ with what the socket gives, FD_WRITE, FD_CLOSE.
pub data SocketEvent : Type 0 where
  fd_connect : Bool → SocketEvent
  fd_read : Option Text → SocketEvent
  fd_write fd_close : SocketEvent

module _ (run : Handler → Option Text → Conn → Conn) (table : MsgType → Option Handler) where
  -- The line that tells of the waiting; `now` is the time printed.
  abbrev waiting : Text → Text
  waiting now = take 255 (now ++ codes ",W,Waiting for the management interface to come up")

  -- FD_CONNECT with an error, at the time `time`.
  unfoldable pub connect_failed : Text → ℕ → Conn → Read
  connect_failed now time c =
      let told =
        if c.daemon_persistent then call run table (table log) (some (waiting now)) c else c in
      let closed = with_manage c (close_management c.manage) in
      if c.daemon_persistent || ltb time c.manage.timeout
      then done (emit reconnect told)
      else if is_state c.state disconnected
      then done closed
      else call_or_fault run table (table timeout) (some []) closed

  -- The event of a socket that belongs to the connection.
  unfoldable pub on_event : Bool → Bool → Text → ℕ → SocketEvent → Conn → Read
  unfolding connect_failed
  on_event alloc memory now time (fd_connect true) c = connect_failed now time c
  on_event alloc memory now time (fd_connect false) c = done (
      call run table (table validate) (some []) (with_manage c (record c.manage { connected = 1 })))
  on_event alloc memory now time (fd_read bytes) c = on_read run table alloc memory now bytes c
  on_event alloc memory now time fd_write c = done (with_manage c (send_command c.manage))
  on_event alloc memory now time fd_close c =
      done (call run table (table stop) (some []) (with_manage c (close_management c.manage)))

  -- `GetConnByManagement` finds the connection by its socket, which is invalid once it is closed.
  unfoldable pub on_management : Bool → Bool → Text → ℕ → SocketEvent → Conn → Read
  unfolding on_event
  on_management alloc memory now time event c =
      if c.manage.sk then on_event alloc memory now time event c else done c

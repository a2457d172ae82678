-- ===== src/Manage/Saved.antt =====
-- manage.c: sending and queueing leave the input that is saved alone.
use openvpn_gui.Base.{
  ◌≡◌, refl, Bool, true, false, Option, List, [], ◌∷◌, Bool-cases, inl, inr, arith,
}
use openvpn_gui.Base.Text.{Text}
use openvpn_gui.Conn.{Manage, Cmd, CmdType, Handler}
use openvpn_gui.Manage.{
  send_head, send_first, send_command, append_command, new_command, management_command, remove_head,
  unqueue_first, unqueue_command, close_management,
}
use openvpn_gui.Manage.Close.{close_management-IsClosed}

send_first-saved : (m : Manage) (queue : List Cmd) → (send_first m queue).saved ≡ m.saved
unfolding send_first send_head
send_first-saved m [] = refl
send_first-saved m (cmd ∷ queue) = ground arith

send_command-saved : (m : Manage) → (send_command m).saved ≡ m.saved
unfolding send_command
send_command-saved m = send_first-saved m m.cmd_queue

append_command-saved :
    (m : Manage) (cmd : Cmd) (queue : List Cmd) → (append_command m cmd queue).saved ≡ m.saved
unfolding append_command
append_command-saved m cmd [] = send_command-saved (record m { cmd_queue = cmd ∷ [] })
append_command-saved m cmd (head ∷ queue) = refl

pub management_command-saved :
    (memory : Bool) (m : Manage) (command : Text) (handler : Option Handler) (type : CmdType)
    → (management_command memory m command handler type).0.saved ≡ m.saved
unfolding management_command
management_command-saved true m command handler type =
    append_command-saved m (new_command command handler type) m.cmd_queue
management_command-saved false m command handler type = refl

remove_head-saved :
    (m : Manage) (cmd : Cmd) (queue : List Cmd) → (remove_head m cmd queue).saved ≡ m.saved
unfolding remove_head
remove_head-saved m cmd [] = refl
remove_head-saved m cmd (next ∷ queue) = send_command-saved (record m { cmd_queue = next ∷ queue })

unqueue_first-saved : (m : Manage) (queue : List Cmd) → (unqueue_first m queue).0.saved ≡ m.saved
unfolding unqueue_first
unqueue_first-saved m [] = refl
unqueue_first-saved m (cmd ∷ queue) = ground (arith, remove_head-saved m cmd queue)

pub unqueue_command-saved : (m : Manage) → (unqueue_command m).0.saved ≡ m.saved
unfolding unqueue_command
unqueue_command-saved m = unqueue_first-saved m m.cmd_queue

pub close_management-saved : (m : Manage) → m.saved ≡ [] → (close_management m).saved ≡ []
close_management-saved m h = elim (Bool-cases m.sk) [
  | inl open_socket ↦ ((close_management-IsClosed m).0 open_socket).no_saved
  | inr closed ↦ rw ((close_management-IsClosed m).1 closed) h
]

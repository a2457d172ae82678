-- ===== src/Options/Add.antt =====
-- options.c: the options of the command line, `add_option` and `parse_argv`. `_ttoi` is an argument, its
-- value as 32 bits. Messages are left out; the program exits behind those of errors.
use openvpn_gui.Base.{
  ℕ, zero, suc, Bool, true, not, ◌||◌, Option, none, some, List, [], ◌∷◌, ◌++◌, if◌then◌else◌,
  length, drop, take, ltb, ◌==◌,
}
use openvpn_gui.Base.Text.{Text, codes, streq, strbegins}

pub data Action : Type 0 where
  no_action ovpn_start ovpn_import ovpn_stop ovpn_restart ovpn_showstatus ovpn_silent : Action
  ovpn_stopall ovpn_exit ovpn_rescan : Action

-- The members of `options_t` that the command line sets.
pub record GuiOptions : Type 0 where
  pub auto_connect : List Text
  pub action : Action
  pub action_arg : Text
  pub exe_path : Text
  pub config_dir : Text
  pub ext_string : Text
  pub log_dir : Text
  pub priority_string : Text
  pub log_viewer : Text
  pub editor : Text
  pub log_append : Bool
  pub iservice_admin : Bool
  pub show_script_window : Bool
  pub silent_connection : Bool
  pub disable_popup_messages : Bool
  pub show_balloon : ℕ
  pub connectscript_timeout : ℕ
  pub disconnectscript_timeout : ℕ
  pub preconnectscript_timeout : ℕ
  pub config_menu_view : ℕ
  pub popup_mute_interval : ℕ
  pub mgmt_port_offset : ℕ

-- The options that take one argument.
pub data Setting : Type 0 where
  set_connect set_import set_exe_path set_config_dir set_ext_string set_log_dir : Setting
  set_priority_string set_log_append set_iservice_admin set_log_viewer set_editor : Setting
  set_deprecated set_show_balloon set_show_script_window set_silent_connection : Setting
  set_connectscript_timeout set_disconnectscript_timeout set_preconnectscript_timeout : Setting
  set_config_menu_view set_popup_mute_interval set_mgmt_port_offset : Setting

abbrev pub settings : List (Text × Setting)
settings =
    (codes "connect", set_connect)
    ∷ (codes "import", set_import)
    ∷ (codes "exe_path", set_exe_path)
    ∷ (codes "config_dir", set_config_dir)
    ∷ (codes "ext_string", set_ext_string)
    ∷ (codes "log_dir", set_log_dir)
    ∷ (codes "priority_string", set_priority_string)
    ∷ (codes "append_string", set_log_append)
    ∷ (codes "log_append", set_log_append)
    ∷ (codes "iservice_admin", set_iservice_admin)
    ∷ (codes "log_viewer", set_log_viewer)
    ∷ (codes "editor", set_editor)
    ∷ (codes "allow_edit", set_deprecated)
    ∷ (codes "allow_service", set_deprecated)
    ∷ (codes "allow_password", set_deprecated)
    ∷ (codes "allow_proxy", set_deprecated)
    ∷ (codes "show_balloon", set_show_balloon)
    ∷ (codes "service_only", set_deprecated)
    ∷ (codes "show_script_window", set_show_script_window)
    ∷ (codes "silent_connection", set_silent_connection)
    ∷ (codes "passphrase_attempts", set_deprecated)
    ∷ (codes "connectscript_timeout", set_connectscript_timeout)
    ∷ (codes "disconnectscript_timeout", set_disconnectscript_timeout)
    ∷ (codes "preconnectscript_timeout", set_preconnectscript_timeout)
    ∷ (codes "config_menu_view", set_config_menu_view)
    ∷ (codes "popup_mute_interval", set_popup_mute_interval)
    ∷ (codes "management_port_offset", set_mgmt_port_offset)
    ∷ []

unfoldable pub setting_in : List (Text × Setting) → Text → Option Setting
setting_in [] name = none
setting_in ((known, setting) ∷ table) name =
    if streq name known then some setting else setting_in table name

-- The first option to connect is an action too.
unfoldable pub add_connect : Text → GuiOptions → GuiOptions
add_connect profile o = elim o.auto_connect [
  | [] ↦ record o { auto_connect = profile ∷ []; action = ovpn_start; action_arg = profile }
  | known ∷ more ↦ record o { auto_connect = (known ∷ more) ++ profile ∷ [] }
]

-- The options and the number of arguments that were used, or the code that the program exits with.
pub data Added : Type 0 where
  exits : ℕ → Added
  added : ℕ → GuiOptions → Added

-- The options at the end, or the code of the exit.
pub data Parsed : Type 0 where
  parsed : GuiOptions → Parsed
  exited : ℕ → Parsed

abbrev pub is_option : Text → Bool
is_option arg = strbegins arg (codes "--")

-- The arguments of an option: what follows it, at most `n`, up to the next option.
unfoldable pub option_args : ℕ → List Text → List Text
option_args zero argv = []
option_args (suc n) [] = []
option_args (suc n) (arg ∷ argv) =
    let more = option_args n argv in if is_option arg then [] else arg ∷ more

module _ (ttoi : Text → ℕ) where
  abbrev pub is_set : Text → Bool
  is_set value = not (ttoi value == 0)

  -- The arrays of paths have 260 characters, the others 16 and 64, each with a NUL.
  unfoldable pub apply_setting : Setting → Text → GuiOptions → GuiOptions
  apply_setting set_connect value o = add_connect value o
  apply_setting set_import value o = record o { action = ovpn_import; action_arg = value }
  apply_setting set_exe_path value o = record o { exe_path = take 259 value }
  apply_setting set_config_dir value o = record o { config_dir = take 259 value }
  apply_setting set_ext_string value o = record o { ext_string = take 15 value }
  apply_setting set_log_dir value o = record o { log_dir = take 259 value }
  apply_setting set_priority_string value o = record o { priority_string = take 63 value }
  apply_setting set_log_append value o = record o { log_append = is_set value }
  apply_setting set_iservice_admin value o = record o { iservice_admin = is_set value }
  apply_setting set_log_viewer value o = record o { log_viewer = take 259 value }
  apply_setting set_editor value o = record o { editor = take 259 value }
  apply_setting set_deprecated value o = o
  apply_setting set_show_balloon value o = record o { show_balloon = ttoi value }
  apply_setting set_show_script_window value o = record o { show_script_window = is_set value }
  apply_setting set_silent_connection value o = record o { silent_connection = is_set value }
  apply_setting set_connectscript_timeout value o = record o { connectscript_timeout = ttoi value }
  apply_setting set_disconnectscript_timeout value o = record o {
    disconnectscript_timeout = ttoi value;
  }
  apply_setting set_preconnectscript_timeout value o = record o {
    preconnectscript_timeout = ttoi value;
  }
  apply_setting set_config_menu_view value o = record o { config_menu_view = ttoi value }
  apply_setting set_popup_mute_interval value o = record o { popup_mute_interval = ttoi value }
  apply_setting set_mgmt_port_offset value o =
      if ltb (ttoi value) 1 || ltb 61000 (ttoi value)
      then o
      else record o { mgmt_port_offset = ttoi value }

  -- The commands to a running instance that name a profile or a file.
  unfoldable pub add_named : Text → Text → GuiOptions → Option GuiOptions
  add_named command arg o =
      if streq command (codes "connect")
      then some (record (add_connect arg o) { action = ovpn_start; action_arg = arg })
      else if streq command (codes "disconnect")
      then some (record o { action = ovpn_stop; action_arg = arg })
      else if streq command (codes "reconnect")
      then some (record o { action = ovpn_restart; action_arg = arg })
      else if streq command (codes "status")
      then some (record o { action = ovpn_showstatus; action_arg = arg })
      else if streq command (codes "import")
      then some (record o { action = ovpn_import; action_arg = arg })
      else none

  -- The other commands; `silent_connection` uses an argument though it may have none.
  unfoldable pub add_plain : Text → Text → GuiOptions → Added
  add_plain command flag o =
      if streq command (codes "silent_connection")
      then added 2 (record o { action = ovpn_silent; action_arg = flag })
      else if streq command (codes "disconnect_all")
      then added 1 (record o { action = ovpn_stopall })
      else if streq command (codes "exit")
      then added 1 (record o { action = ovpn_exit })
      else if streq command (codes "rescan")
      then added 1 (record o { action = ovpn_rescan })
      else exits 1

  unfoldable pub add_command : List Text → GuiOptions → Added
  add_command [] o = exits 1
  add_command (command ∷ []) o = add_plain command (codes "1") o
  add_command (command ∷ arg ∷ more) o = elim (add_named command arg o) [
    | some new ↦ added 2 new
    | none ↦ add_plain command arg o
  ]

  unfoldable pub add_setting : Option Setting → List Text → GuiOptions → Added
  add_setting none args o = exits 1
  add_setting (some setting) [] o = exits 1
  add_setting (some setting) (value ∷ more) o = added 1 (apply_setting setting value o)

  -- `add_option` for the option `name`, whose arguments are p[1] up to the first NULL.
  unfoldable pub add_option : Text → List Text → GuiOptions → Added
  add_option name args o =
      if streq name (codes "help")
      then exits 0
      else if streq name (codes "command")
      then add_command args o
      else if streq name (codes "disable_popup_messages")
      then added 0 (record o { disable_popup_messages = true })
      else add_setting (setting_in settings name) args o

  -- The loop of `parse_argv` behind the name of the program, `none` where it does not end in so many
  -- rounds; an option has at most MAX_PARMS - 1 arguments.
  unfoldable pub parse_args : ℕ → List Text → GuiOptions → Option Parsed
  parse_args zero argv o = none
  parse_args (suc fuel) [] o = some (parsed o)
  parse_args (suc fuel) (arg ∷ argv) o =
      elim (if is_option arg then add_option (drop 2 arg) (option_args 4 argv) o else exits 0) [
        | exits code ↦ some (exited code)
        | added used new ↦ parse_args fuel (drop used argv) new
      ]

  -- `parse_argv`.
  unfoldable pub parse_argv : List Text → GuiOptions → Option Parsed
  parse_argv argv o = parse_args (suc (length argv)) (drop 1 argv) o

-- ===== src/Tests/Options.antt =====
-- The properties of options.c at concrete inputs.
use openvpn_gui.Base.{ℕ, ◌-◌, ◌≡◌, refl, false, some, [], ◌∷◌}
use openvpn_gui.Base.Text.{Text, codes, streq, strbegins, contains, before, skip_while}
use openvpn_gui.Options.{
  overflow, process_command_line, count_args, store_args, next_arg, arg_at, argv_of,
}
use openvpn_gui.Options.Add.{
  GuiOptions, no_action, set_log_dir, setting_in, parsed, exited, parse_args, parse_argv,
  option_args, add_option, add_command, add_plain,
}
use openvpn_gui.Options.Settings.{Given, written, pairs, parse_argv-written}
use openvpn_gui.Options.Expected.{expected}
use openvpn_gui.Options.Words.{words, argv_words, process_command_line-words}

line_plain : contains (codes "gui --connect a") b'"' ≡ false
unfolding contains
line_plain = refl

process_command_line-words_example :
    process_command_line (codes "gui --connect a") ≡ argv_words (words (codes "gui --connect a"))
process_command_line-words_example = process_command_line-words (codes "gui --connect a") line_plain

-- Quoted arguments that touch are counted once and stored twice.
touching_quotes : process_command_line (codes "\"a\"\"b\"") ≡ overflow
unfolding process_command_line argv_of count_args skip_while store_args next_arg arg_at before
touching_quotes = refl

abbrev number : Text → ℕ
number [] = 0
number (c ∷ s) = c - b'0'

abbrev unset : GuiOptions
unset = record {
  auto_connect = [];
  action = no_action;
  action_arg = [];
  exe_path = [];
  config_dir = [];
  ext_string = [];
  log_dir = [];
  priority_string = [];
  log_viewer = [];
  editor = [];
  log_append = false;
  iservice_admin = false;
  show_script_window = false;
  silent_connection = false;
  disable_popup_messages = false;
  show_balloon = 1;
  connectscript_timeout = 0;
  disconnectscript_timeout = 0;
  preconnectscript_timeout = 0;
  config_menu_view = 0;
  popup_mute_interval = 24;
  mgmt_port_offset = 25340;
}

log_given : Given
unfolding setting_in streq strbegins
log_given = record {
  name = codes "log_dir";
  setting = set_log_dir;
  value = codes "logs";
  known = refl;
  plain = refl;
}

parse_argv-written_example :
    parse_argv number (codes "gui" ∷ written (log_given ∷ [])) unset
    ≡ some (parsed (expected number (pairs (log_given ∷ [])) unset))
parse_argv-written_example = parse_argv-written number (codes "gui") (log_given ∷ []) unset

-- `--command silent_connection` without an argument swallows the option behind it.
swallowed :
    parse_argv number
      (codes "gui"
        ∷ codes "--command"
        ∷ codes "silent_connection"
        ∷ codes "--connect"
        ∷ codes "a"
        ∷ [])
      unset
    ≡ some (exited 0)
unfolding parse_argv parse_args option_args add_option add_command add_plain streq strbegins
swallowed = refl

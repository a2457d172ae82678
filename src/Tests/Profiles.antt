-- ===== src/Tests/Profiles.antt =====
-- The properties of openvpn_config.c at concrete inputs.
use mathlib.Core.Path.{subst}
use openvpn_gui.Base.{
  ℕ, ◌≤◌, ◌≡◌, ◌↔◌, refl, true, false, Option, none, some, List, [], ◌∷◌, if◌then◌else◌, Bool-cases,
  ◌⊎◌, inl, inr, arith, length, All,
}
use openvpn_gui.Base.Text.{Text, codes, streq, strbegins, streq_refl}
use mathlib.Core.List.{Memᴰ}
use mathlib.Core.List.Memᴰ.{head, tail}
use openvpn_gui.Profiles.{
  Files, Find, ScanOptions, Configs, match_of, new_group, config_already_exists, build_file_list0,
}
use openvpn_gui.Profiles.Groups.{
  build_file_list, activate_config_groups, group_at, activate_all, squash, squash_parent, counted,
  count_groups, change_group, count_configs, activate_up,
}
use openvpn_gui.Profiles.Formed.{HasRoots, RootsMade, build_file_list-WellFormed}
use openvpn_gui.Profiles.Keeps.{WellFormed, ShortNames, parents}
use openvpn_gui.Profiles.Above.{is_active, Linked, parent_at}
use openvpn_gui.Profiles.Active.{activate_config_groups-Linked}
use openvpn_gui.Profiles.Reached.{Reach, in_folder, below}
use openvpn_gui.Profiles.Found.{build_file_list0-Reach, build_file_list0_lem}
use openvpn_gui.Profiles.Origin.{Reached}

abbrev folder : List Find
folder =
    (record { is_dir = false; file_name = codes "a.ovpn" })
    ∷ (record { is_dir = true; file_name = codes "b" })
    ∷ []

abbrev below_b : List Find
below_b = (record { is_dir = false; file_name = codes "b.ovpn" }) ∷ []

abbrev has_files : Text → Option (List Find)
has_files dir =
    if streq dir (codes "c")
    then some folder
    else if streq dir (codes "c\\b")
    then some below_b
    else none

-- Two folders; names are compared with case, which is one way to compare them.
abbrev files : Files
files = record {
  icase_eq = streq;
  find_files = has_files;
  can_read = λ path. true;
  same_path = streq;
  auth_pass_saved = λ name. true;
  key_pass_saved = λ name. false;
}

abbrev options : ScanOptions
options = record {
  config_dir = codes "c";
  global_config_dir = codes "g";
  config_auto_dir = codes "auto";
  ext_string = codes "ovpn";
  log_dir = codes "log";
  global_log_dir = codes "glog";
  mgmt_port_offset = 25340;
  enable_persistent = 2;
  service_connected = true;
  auto_connect_names = codes "a" ∷ [];
  disable_save_passwords = false;
  disable_popup_messages = false;
  silent_connection = false;
}

abbrev start : Configs
start = record {
  profiles = [];
  num_configs = 0;
  groups = [];
  issue_warnings = true;
  root_gp = 0;
  system_gp = 0;
  persistent_gp = 0;
  messages = [];
}

abbrev Fits : Option (List Find) → Type 0
Fits none = Unit
Fits (some finds) = All (λ find. length find.file_name ≤ 259) finds

has_files-Fits : (dir : Text) → Fits (has_files dir)
has_files-Fits dir = elim (Bool-cases (streq dir (codes "c"))) [
  | inl k ↦ rw k (omega arith, (omega arith, tt))
  | inr k ↦ elim (Bool-cases (streq dir (codes "c\\b"))) [
    | inl l ↦ rw (k, l) (omega arith, tt)
    | inr l ↦ rw (k, l) tt
  ]
]

files-ShortNames : ShortNames files
files-ShortNames dir finds e = subst Fits e (has_files-Fits dir)

start-WellFormed : WellFormed files options start
start-WellFormed = record {
  counted = refl;
  numbered = tt;
  distinct = tt;
  grouped = tt;
  ordered = tt;
}

start-HasRoots : HasRoots start
unfolding HasRoots
start-HasRoots = inl refl

build_file_list-WellFormed_example :
    WellFormed files options (build_file_list files options start)
    × RootsMade (build_file_list files options start)
build_file_list-WellFormed_example =
    build_file_list-WellFormed files options files-ShortNames start start-WellFormed start-HasRoots

build_file_list0_lem_example :
    ((folder file : Text)
      → Reach files options 1 (codes "c") folder file
      → config_already_exists files file
          (build_file_list0 files options 1 true true (codes "c") 0 start).profiles
        ≡ true)
    × All
        (λ c. Memᴰ c start.profiles ⊎ Reached files options 1 (codes "c") c)
        (build_file_list0 files options 1 true true (codes "c") 0 start).profiles
build_file_list0_lem_example =
    build_file_list0_lem files options streq_refl files-ShortNames 1 true true (codes "c") 0 start

b_reached : Reach files options 1 (codes "c") (codes "c\\b") (codes "b.ovpn")
unfolding streq match_of strbegins
b_reached =
    below 0 (codes "c") folder (record { is_dir = true; file_name = codes "b" }) (codes "c\\b")
      (codes "b.ovpn") refl (tail (head refl)) refl
      (in_folder 0 (codes "c\\b") below_b (record { is_dir = false; file_name = codes "b.ovpn" })
        refl (head refl) refl refl)

b_listed :
    config_already_exists files
      (codes "b.ovpn")
      (build_file_list0 files options 1 true true (codes "c") 0 start).profiles
    ≡ true
b_listed =
    build_file_list0-Reach files options streq_refl files-ShortNames 1 true true (codes "c")
      (codes "c\\b") (codes "b.ovpn") b_reached 0 start

-- One profile, in the second of three groups below the root.
abbrev grouped : Configs
grouped = record start {
  profiles =
      (record {
        config_file = codes "a.ovpn";
        config_name = codes "a";
        profile_dir = codes "c";
        log_path = [];
        auto_connect = false;
        group = 2;
        id = 0;
        port = 25340;
        daemon_persistent = false;
        save_auth_pass = false;
        save_key_pass = false;
        disable_save_pass = false;
        disable_echo_msg = false;
        config_disabled = false;
      })
      ∷ [];
  num_configs = 1;
  groups =
      new_group (codes "ROOT") none
      ∷ new_group (codes "x") (some 0)
      ∷ new_group (codes "y") (some 1)
      ∷ new_group (codes "z") (some 0)
      ∷ [];
}

grouped-WellFormed : WellFormed files options grouped
grouped-WellFormed = record {
  counted = refl;
  numbered = ((refl, refl), tt);
  distinct = (tt, tt);
  grouped = (omega arith, tt);
  ordered = (tt, (omega arith, (omega arith, (omega arith, tt))));
}

activate_config_groups-Linked_example :
    (is_active (activate_config_groups files grouped).groups 1 ≡ true) ↔ (
      (◌≡◌ {A = ℕ} 1 0)
      ⊎ Linked
          (parent_at (parents grouped.groups))
          1
          (activate_config_groups files grouped).profiles)
activate_config_groups-Linked_example =
    activate_config_groups-Linked files options grouped grouped-WellFormed (omega arith) 1

x_active : is_active (activate_config_groups files grouped).groups 1 ≡ true
unfolding activate_config_groups group_at activate_all squash squash_parent counted count_groups
    change_group count_configs streq activate_up
x_active = refl

z_inactive : is_active (activate_config_groups files grouped).groups 3 ≡ false
unfolding activate_config_groups group_at activate_all squash squash_parent counted count_groups
    change_group count_configs streq activate_up
z_inactive = refl

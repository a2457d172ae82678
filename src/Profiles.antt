-- ===== src/Profiles.antt =====
-- openvpn_config.c: the list of profiles and the scan of the folders for them, with DisableSavePasswords
-- and DisablePopupMessages of options.c. What Windows answers is the record `Files`; a folder is taken
-- to answer the two scans of one visit alike. Where memory is out, the program ends.
pub mod Groups
pub mod Keeps
pub mod Scan
pub mod Tree
pub mod Formed
pub mod Reached
pub mod Found
pub mod Origin
pub mod Above
pub mod Counted
pub mod Active
use mathlib.Core.List.{append-nil, append_assoc, map-append}
use mathlib.Core.Option.{some-injective}
use mathlib.Core.Path.{subst}
use openvpn_gui.Base.{
  ℕ, zero, suc, ◌+◌, ◌-◌, ◌*◌, ◌/◌, ◌%◌, ◌^◌, ◌≤◌, ◌<◌, ◌≡◌, ◌≢◌, ◌↔◌, refl, ap, ◌∙◌, sym, Bool,
  true, false, not, ◌&&◌, ◌||◌, Option, none, some, List, [], ◌∷◌, ◌++◌, map, if◌then◌else◌,
  Bool-cases, Option-cases, Ordering-cases, Ordering, ◌⊎◌, inl, inr, arith, length, length-append,
  length-concat, drop, take, replicate, drop-append, leb, ltb, leb→le, ltb→lt, lt→ltb, ◌==◌,
  ==_refl, ==_iff, All, All-append,
}
use openvpn_gui.Base.Text.{
  Text, codes, streq, strbegins, contains, before, after?, skip_while, text_at, streq_iff,
  streq_refl, strbegins-append, split_at, contains-before, before-append, after?-append,
  before_of_not-contains, after?_of_not-contains, not-contains_of_after?,
}
use openvpn_gui.Base.Tokens.{strstr, found}

-- `WIN32_FIND_DATA`: a folder or a file, and its name.
pub record Find : Type 0 where
  pub is_dir : Bool
  pub file_name : Text

-- The answers of Windows: whether names are equal without case, what a folder has in it (`none` where
-- `FindFirstFile` fails), whether a file can be read, whether two paths are the same, and whether a
-- profile's passwords are saved.
pub record Files : Type 0 where
  pub icase_eq : Text → Text → Bool
  pub find_files : Text → Option (List Find)
  pub can_read : Text → Bool
  pub same_path : Text → Text → Bool
  pub auth_pass_saved : Text → Bool
  pub key_pass_saved : Text → Bool

-- The members of `options_t` that the scan reads.
pub record ScanOptions : Type 0 where
  pub config_dir : Text
  pub global_config_dir : Text
  pub config_auto_dir : Text
  pub ext_string : Text
  pub log_dir : Text
  pub global_log_dir : Text
  pub mgmt_port_offset : ℕ
  pub enable_persistent : ℕ
  pub service_connected : Bool
  pub auto_connect_names : List Text
  pub disable_save_passwords : Bool
  pub disable_popup_messages : Bool
  pub silent_connection : Bool

-- The members of `connection_t` that the scan sets.
pub record Profile : Type 0 where
  pub config_file : Text
  pub config_name : Text
  pub profile_dir : Text
  pub log_path : Text
  pub auto_connect : Bool
  pub group : ℕ
  pub id : ℕ
  pub port : ℕ
  pub daemon_persistent : Bool
  pub save_auth_pass : Bool
  pub save_key_pass : Bool
  pub disable_save_pass : Bool
  pub disable_echo_msg : Bool
  pub config_disabled : Bool

-- `config_group_t`; its id is its place in the array, and its parent is `none` for -1.
pub record Group : Type 0 where
  pub name : Text
  pub parent : Option ℕ
  pub active : Bool
  pub children : ℕ

pub data Message : Type 0 where
  config_exists : Text → Message
  no_configs : Message
  logic_error : Message
  passwords_deleted : Text → Message

-- The list behind `o.chead`, first profile first, the array `o.groups`, and the static variables.
pub record Configs : Type 0 where
  pub profiles : List Profile
  pub num_configs : ℕ
  pub groups : List Group
  pub issue_warnings : Bool
  pub root_gp : ℕ
  pub system_gp : ℕ
  pub persistent_gp : ℕ
  pub messages : List Message

pub data Match : Type 0 where
  match_false match_file match_dir : Match

pub Match-cases : (m : Match) → (m ≡ match_file) ⊎ ((m ≡ match_dir) ⊎ (m ≡ match_false))
Match-cases match_file = inl refl
Match-cases match_dir = inr (inl refl)
Match-cases match_false = inr (inr refl)

-- `_sntprintf_0(path, L"%ls\\%ls", dir, file)` into MAX_PATH characters.
abbrev pub path_in : Text → Text → Text
path_in dir file = take 259 (dir ++ b'\\' ∷ file)

abbrev pub new_group : Text → Option ℕ → Group
new_group name parent = record {
  name = take 39 name;
  parent = parent;
  active = false;
  children = 0;
}

-- `NewConfigGroup`: the id of the new group, or the parent where no groups are added.
unfoldable pub new_config_group : Text → ℕ → Bool → Configs → ℕ × Configs
new_config_group name parent add st =
    if add
    then (length st.groups, record st { groups = st.groups ++ new_group name (some parent) ∷ [] })
    else (parent, st)

module _ (w : Files) where
  -- `match`: a name that is longer than '.' and the extension and ends in them.
  unfoldable pub match_of : Find → Text → Match
  match_of find ext =
      let i = length find.file_name - length ext - 1 in
      if find.is_dir
      then match_dir
      else if length ext == 0
      then match_file
      else if ltb 0 i
          && (strbegins (drop i find.file_name) (codes ".")
              && w.icase_eq (drop (suc i) find.file_name) ext)
      then match_file
      else match_false

  -- `CheckReadAccess`.
  abbrev pub check_read_access : Text → Text → Bool
  check_read_access dir file = w.can_read (path_in dir file)

  -- `ConfigAlreadyExists`.
  unfoldable pub config_already_exists : Text → List Profile → Bool
  config_already_exists newconfig [] = false
  config_already_exists newconfig (c ∷ cs) =
      if w.icase_eq c.config_file newconfig then true else config_already_exists newconfig cs

  -- The loop over `o.auto_connect`.
  unfoldable pub is_auto_connect : Text → Text → List Text → Bool
  is_auto_connect file name [] = false
  is_auto_connect file name (a ∷ rest) =
      if w.icase_eq file a || w.icase_eq name a then true else is_auto_connect file name rest

  module _ (o : ScanOptions) where
    -- The profile that `AddConfigFileToList` makes.
    unfoldable pub new_profile : ℕ → ℕ → Text → Text → Profile
    new_profile id group filename config_dir =
        let file = take 259 filename in
        let name = take (length file - length o.ext_string - 1) file in
        let persistent = found (strstr config_dir o.config_auto_dir) in
        record {
          config_file = file;
          config_name = name;
          profile_dir = take 259 config_dir;
          log_path =
              path_in (if persistent then o.global_log_dir else o.log_dir) (name ++ codes ".log");
          auto_connect =
              (persistent && (o.enable_persistent == 2))
              || is_auto_connect file name o.auto_connect_names;
          group = group;
          id = id;
          port = (o.mgmt_port_offset + id) % 65536;
          daemon_persistent = persistent;
          save_auth_pass = not o.disable_save_passwords && w.auth_pass_saved name;
          save_key_pass = not o.disable_save_passwords && w.key_pass_saved name;
          disable_save_pass = o.disable_save_passwords;
          disable_echo_msg = o.disable_popup_messages;
          config_disabled = false;
        }

    -- `AddConfigFileToList`.
    unfoldable pub add_config_file_to_list : ℕ → Text → Text → Configs → Configs
    add_config_file_to_list group filename config_dir st =
        let c = new_profile st.num_configs group filename config_dir in
        record st {
          profiles = st.profiles ++ c ∷ [];
          num_configs = suc st.num_configs;
          messages =
              if o.disable_save_passwords
              then st.messages ++ passwords_deleted c.config_name ∷ []
              else st.messages;
        }

    -- A file that matches, in the first loop of `BuildFileList0`.
    unfoldable pub scan_config : Bool → Text → ℕ → Text → Configs → Configs
    scan_config warn config_dir group file st =
        let added = add_config_file_to_list group file config_dir st in
        if config_already_exists file st.profiles
        then (if warn then record st { messages = st.messages ++ config_exists file ∷ [] } else st)
        else if check_read_access config_dir file
        then added
        else st

    -- One round of that loop.
    unfoldable pub scan_file : Bool → Text → ℕ → Find → Configs → Configs
    scan_file warn config_dir group find st = elim (match_of find o.ext_string) [
      | match_file ↦ scan_config warn config_dir group find.file_name st
      | _ ↦ st
    ]

    unfoldable pub scan_files : Bool → Text → ℕ → List Find → Configs → Configs
    scan_files warn config_dir group [] st = st
    scan_files warn config_dir group (find ∷ finds) st =
        scan_files warn config_dir group finds (scan_file warn config_dir group find st)

    -- A folder to go into: neither a file nor "." nor "..".
    abbrev pub is_subdir : Find → Bool
    is_subdir find = elim (match_of find o.ext_string) [
      | match_dir ↦
          not (streq find.file_name (codes ".")) && not (streq find.file_name (codes ".."))
      | _ ↦ false
    ]

    -- The second loop of `BuildFileList0`; `visit` is its call on a folder.
    unfoldable pub scan_dirs :
        (Text → ℕ → Configs → Configs) → Bool → Text → ℕ → List Find → Configs → Configs
    scan_dirs visit add config_dir group [] st = st
    scan_dirs visit add config_dir group (find ∷ finds) st =
        let sub = new_config_group find.file_name group add st in
        let after = visit (path_in config_dir find.file_name) sub.0 sub.1 in
        scan_dirs visit add config_dir group finds (if is_subdir find then after else st)

    -- `BuildFileList0`, with the flags to warn of duplicates and to add groups.
    unfoldable pub build_file_list0 : ℕ → Bool → Bool → Text → ℕ → Configs → Configs
    build_file_list0 zero warn add config_dir group st = elim (w.find_files config_dir) [
      | none ↦ st
      | some finds ↦ scan_files warn config_dir group finds st
    ]
    build_file_list0 (suc depth) warn add config_dir group st = elim (w.find_files config_dir) [
      | none ↦ st
      | some finds ↦
          scan_dirs (build_file_list0 depth warn add) add config_dir group finds
            (scan_files warn config_dir group finds st)
    ]

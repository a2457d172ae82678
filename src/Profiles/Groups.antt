-- ===== src/Profiles/Groups.antt =====
-- openvpn_config.c: `ActivateConfigGroups` and `BuildFileList`. A group outside the array, which the
-- program would read beyond its end, is left alone.
use openvpn_gui.Base.{
  ℕ, zero, suc, ◌-◌, Bool, true, false, not, ◌&&◌, Option, none, some, List, [], ◌∷◌, ◌++◌, map,
  if◌then◌else◌, length, ltb, ◌==◌,
}
use openvpn_gui.Base.Text.{codes, streq}
use openvpn_gui.Profiles.{
  Files, ScanOptions, Profile, Group, Configs, no_configs, logic_error, new_group,
  check_read_access, build_file_list0,
}

unfoldable pub group_at : List Group → ℕ → Option Group
group_at [] i = none
group_at (g ∷ gs) zero = some g
group_at (g ∷ gs) (suc i) = group_at gs i

unfoldable pub change_group : (Group → Group) → ℕ → List Group → List Group
change_group f i [] = []
change_group f zero (g ∷ gs) = f g ∷ gs
change_group f (suc i) (g ∷ gs) = g ∷ change_group f i gs

abbrev pub add_child : Group → Group
add_child g = record g { children = suc g.children }

abbrev pub remove_child : Group → Group
remove_child g = record g { children = g.children - 1 }

abbrev pub activated : Group → Group
activated g = record g { active = true }

abbrev pub deactivated : Group → Group
deactivated g = record g { active = false }

abbrev pub without_children : Group → Group
without_children g = record g { children = 0 }

-- The profiles that each group has.
unfoldable pub count_configs : List Profile → List Group → List Group
count_configs [] gs = gs
count_configs (c ∷ cs) gs = count_configs cs (change_group add_child c.group gs)

abbrev pub parent_of : Option Group → Option ℕ
parent_of none = none
parent_of (some g) = g.parent

abbrev pub add_child_at : Option ℕ → List Group → List Group
add_child_at none gs = gs
add_child_at (some p) gs = change_group add_child p gs

-- The groups from the number `i` on: each is counted by its parent and deactivated.
unfoldable pub count_groups : ℕ → ℕ → List Group → List Group
count_groups zero i gs = gs
count_groups (suc n) i gs =
    count_groups n (suc i)
      (change_group deactivated i (add_child_at (parent_of (group_at gs i)) gs))

-- The parent that a profile moves to, which is the only child of a group of its name.
unfoldable pub squash_parent : Profile → Option Group → Option ℕ
squash_parent c none = none
squash_parent c (some g) = elim g.parent [
  | none ↦ none
  | some p ↦ if (g.children == 1) && streq g.name c.config_name then some p else none
]

unfoldable pub squash : List Profile → List Group → List Profile × List Group
squash [] gs = ([], gs)
squash (c ∷ cs) gs = elim (squash_parent c (group_at gs c.group)) [
  | none ↦ let rest = squash cs gs in (c ∷ rest.0, rest.1)
  | some p ↦
      let rest = squash cs (change_group remove_child c.group gs) in
      ((record c { group = p }) ∷ rest.0, rest.1)
]

-- The walk from a group to the root; a group's parent stands in front of it, so that as many steps as
-- there are groups are enough.
unfoldable pub activate_up : ℕ → Option ℕ → List Group → List Group
activate_up zero at gs = gs
activate_up (suc fuel) none gs = gs
activate_up (suc fuel) (some i) gs =
    activate_up fuel (parent_of (group_at gs i)) (change_group activated i gs)

unfoldable pub activate_all : List Profile → List Group → List Group
activate_all [] gs = gs
activate_all (c ∷ cs) gs = activate_all cs (activate_up (length gs) (some c.group) gs)

-- The groups with the numbers of their children, and all but the root inactive.
unfoldable pub counted : List Profile → List Group → List Group
counted cs gs =
    count_groups (length gs - 1) 1
      (count_configs cs (map without_children (change_group activated 0 gs)))

-- The three groups that a first scan starts with.
abbrev pub first_groups : Configs → Configs
first_groups st = record st {
  groups =
      new_group (codes "ROOT") none
      ∷ new_group (codes "Persistent Profiles") (some 0)
      ∷ new_group (codes "System Profiles") (some 0)
      ∷ [];
  root_gp = 0;
  persistent_gp = 1;
  system_gp = 2;
}

unfoldable pub warn_none : Bool → Configs → Configs
warn_none warn st =
    if (st.num_configs == 0) && warn
    then record st { messages = st.messages ++ no_configs ∷ [] }
    else st

abbrev pub started : Configs → Configs
started st = if st.num_configs == 0 then first_groups st else st

abbrev pub warns : ScanOptions → Configs → Bool
warns o st = if o.silent_connection then false else st.issue_warnings

module _ (w : Files) where
  abbrev pub read_checked : Profile → Profile
  read_checked c = record c {
    config_disabled = not (check_read_access w c.profile_dir c.config_file);
  }

  -- `ActivateConfigGroups`.
  unfoldable pub activate_config_groups : Configs → Configs
  activate_config_groups st =
      let squashed = squash st.profiles (counted st.profiles st.groups) in
      record st {
        profiles = map read_checked squashed.0;
        groups = activate_all squashed.0 squashed.1;
      }

  module _ (o : ScanOptions) where
    -- The three scans of `BuildFileList`.
    unfoldable pub scan_all : Bool → Bool → Configs → Configs
    scan_all warn add st =
        let own = build_file_list0 w o 20 warn add o.config_dir st.root_gp st in
        let all =
          if w.same_path o.global_config_dir o.config_dir
          then own
          else build_file_list0 w o 20 warn add o.global_config_dir st.system_gp own in
        if (o.service_connected && ltb 0 o.enable_persistent)
          && not (w.same_path o.config_auto_dir o.config_dir)
        then build_file_list0 w o 20 warn add o.config_auto_dir st.persistent_gp all
        else all

    -- `BuildFileList`.
    unfoldable pub build_file_list : Configs → Configs
    build_file_list st =
        let first = started st in
        let warn = warns o st in
        if first.persistent_gp == 1
        then record (activate_config_groups
            (warn_none warn (scan_all warn (st.num_configs == 0) first))) { issue_warnings = false }
        else record first { issue_warnings = warn; messages = first.messages ++ logic_error ∷ [] }

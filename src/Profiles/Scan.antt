-- ===== src/Profiles/Scan.antt =====
-- openvpn_config.c: the scans of `BuildFileList0` keep the list of profiles well-formed.
use mathlib.Core.List.{map-append}
use openvpn_gui.Base.{
  ℕ, zero, suc, ◌≤◌, ◌<◌, refl, Bool, true, false, some, List, [], ◌∷◌, ◌++◌, Bool-cases,
  Option-cases, inl, inr, arith, length, length-concat, length-map, All,
}
use openvpn_gui.Base.Text.{Text}
use openvpn_gui.Profiles.{
  Files, Find, ScanOptions, Configs, Message, match_of, check_read_access, config_already_exists,
  add_config_file_to_list, scan_file, scan_files, new_group, new_config_group, is_subdir, scan_dirs,
  build_file_list0, path_in, scan_config, Match-cases,
}
use openvpn_gui.Profiles.Keeps.{
  parents, ShortNames, WellFormed, Kept, Kept-refl, Kept-trans, with_messages, HasGroup-weaken,
  Parents-concat, add_config_file_to_list-WellFormed,
}

module _ (w : Files) (o : ScanOptions) where
  scan_config-Kept :
      (warn : Bool) (dir : Text) (group : ℕ) (file : Text) (st : Configs)
      → length file ≤ 259
      → group < length st.groups
      → WellFormed w o st
      → Kept w o st (scan_config w o warn dir group file st)
  unfolding scan_config add_config_file_to_list
  scan_config-Kept warn dir group file st short h wf =
      elim (Bool-cases (config_already_exists w file st.profiles)) [
        | inl e ↦ elim (Bool-cases warn) [
          | inl k ↦
              rw (e, k) (with_messages w o st (st.messages ++ Message.config_exists file ∷ []) wf)
          | inr k ↦ rw (e, k) (Kept-refl w o st wf)
        ]
        | inr e ↦ elim (Bool-cases (check_read_access w dir file)) [
          | inl k ↦
              let add = add_config_file_to_list w o group file dir st in
              let kept : Kept w o st add = record {
                formed = add_config_file_to_list-WellFormed w o group file dir st short e h wf;
                grown = omega arith;
                same_root = refl;
                same_system = refl;
                same_persistent = refl;
              } in
              rw (e, k) kept
          | inr k ↦ rw (e, k) (Kept-refl w o st wf)
        ]
      ]

  scan_file-Kept :
      (warn : Bool) (dir : Text) (group : ℕ) (find : Find) (st : Configs)
      → length find.file_name ≤ 259
      → group < length st.groups
      → WellFormed w o st
      → Kept w o st (scan_file w o warn dir group find st)
  unfolding scan_file
  scan_file-Kept warn dir group find st short h wf =
      elim (Match-cases (match_of w find o.ext_string)) [
        | inl e ↦ rw (e, scan_file) (scan_config-Kept warn dir group find.file_name st short h wf)
        | inr (inl e) ↦ rw (e, scan_file) (Kept-refl w o st wf)
        | inr (inr e) ↦ rw (e, scan_file) (Kept-refl w o st wf)
      ]

  scan_files-Kept :
      (warn : Bool) (dir : Text) (group : ℕ) (finds : List Find) (st : Configs)
      → All (λ find. length find.file_name ≤ 259) finds
      → group < length st.groups
      → WellFormed w o st
      → Kept w o st (scan_files w o warn dir group finds st)
  unfolding scan_files
  scan_files-Kept warn dir group [] st short h wf = Kept-refl w o st wf
  scan_files-Kept warn dir group (find ∷ finds) st short h wf =
      let one = scan_file-Kept warn dir group find st short.0 h wf in
      let st1 = scan_file w o warn dir group find st in
      Kept-trans w o st st1 (scan_files w o warn dir group finds st1) one
        (scan_files-Kept warn dir group finds st1 short.1 (omega (arith, one.grown)) one.formed)

  -- A visit of a folder keeps the state, whatever existing group it adds to.
  abbrev pub Visits : (Text → ℕ → Configs → Configs) → Type 0
  Visits visit =
      (dir : Text) (group : ℕ) (st : Configs)
      → group < length st.groups
      → WellFormed w o st
      → Kept w o st (visit dir group st)

  new_config_group-Kept :
      (name : Text) (parent : ℕ) (add : Bool) (st : Configs)
      → parent < length st.groups
      → WellFormed w o st
      → Kept w o st (new_config_group name parent add st).1
        × ((new_config_group name parent add st).0
            < length (new_config_group name parent add st).1.groups)
  unfolding new_config_group
  new_config_group-Kept name parent false st h wf = (Kept-refl w o st wf, h)
  new_config_group-Kept name parent true st h wf =
      let g = new_group name (some parent) in
      let more = length-concat st.groups g in
      (
        record {
          formed = record {
            counted = wf.counted;
            numbered = wf.numbered;
            distinct = wf.distinct;
            grouped =
                HasGroup-weaken (length st.groups) (length (st.groups ++ g ∷ [])) st.profiles
                  (omega (arith, more)) wf.grouped;
            ordered = rw map-append (
                Parents-concat 0 (parents st.groups) (some parent) wf.ordered
                  (omega (arith, h, length-map (λ x. x.parent) st.groups)));
          };
          grown = omega (arith, more);
          same_root = refl;
          same_system = refl;
          same_persistent = refl;
        },
        omega (arith, more),
      )

  scan_dirs-Kept :
      (visit : Text → ℕ → Configs → Configs) (add : Bool) (dir : Text) (group : ℕ)
      (finds : List Find) (st : Configs)
      → Visits visit
      → group < length st.groups
      → WellFormed w o st
      → Kept w o st (scan_dirs w o visit add dir group finds st)
  unfolding scan_dirs
  scan_dirs-Kept visit add dir group [] st v h wf = Kept-refl w o st wf
  scan_dirs-Kept visit add dir group (find ∷ finds) st v h wf =
      let sub = new_config_group find.file_name group add st in
      let made = new_config_group-Kept find.file_name group add st h wf in
      let path = path_in dir find.file_name in
      let visited = v path sub.0 sub.1 made.1 made.0.formed in
      let st1 = visit path sub.0 sub.1 in
      let both = Kept-trans w o st sub.1 st1 made.0 visited in
      elim (Bool-cases (is_subdir w o find)) [
        | inl e ↦
            rw (e, scan_dirs)
              (Kept-trans w o st st1 (scan_dirs w o visit add dir group finds st1) both (
                scan_dirs-Kept visit add dir group finds st1 v (omega (arith, both.grown))
                  both.formed))
        | inr e ↦ rw (e, scan_dirs) (scan_dirs-Kept visit add dir group finds st v h wf)
      ]

  -- A scan of a folder keeps the list well-formed.
  pub build_file_list0-Kept :
      (depth : ℕ) (warn add : Bool) → ShortNames w → Visits (build_file_list0 w o depth warn add)
  unfolding build_file_list0
  build_file_list0-Kept zero warn add short dir group st h wf =
      elim (Option-cases (w.find_files dir)) [
        | inl e ↦ rw (e, build_file_list0) (Kept-refl w o st wf)
        | inr (finds, e) ↦
            rw (e, build_file_list0)
              (scan_files-Kept warn dir group finds st (short dir finds e) h wf)
      ]
  build_file_list0-Kept (suc depth) warn add short dir group st h wf =
      elim (Option-cases (w.find_files dir)) [
        | inl e ↦ rw (e, build_file_list0) (Kept-refl w o st wf)
        | inr (finds, e) ↦
            let files = scan_files-Kept warn dir group finds st (short dir finds e) h wf in
            let st1 = scan_files w o warn dir group finds st in
            let visit = build_file_list0 w o depth warn add in
            rw (e, build_file_list0)
              (Kept-trans w o st st1 (scan_dirs w o visit add dir group finds st1) files (
                scan_dirs-Kept visit add dir group finds st1
                  (build_file_list0-Kept depth warn add short) (omega (arith, files.grown))
                  files.formed))
      ]

-- ===== src/Profiles/Reached.antt =====
-- openvpn_config.c: the profiles that a scan of a folder reaches, and that no scan loses one.
use mathlib.Core.List.{Memᴰ}
use openvpn_gui.Base.{
  ℕ, zero, suc, ◌≡◌, Bool, true, false, some, List, [], ◌∷◌, ◌++◌, Bool-cases, Option-cases, inl,
  inr, arith,
}
use openvpn_gui.Base.Text.{Text}
use openvpn_gui.Profiles.{
  Files, Find, ScanOptions, Profile, Configs, match_file, match_of, check_read_access,
  config_already_exists, new_profile, add_config_file_to_list, scan_file, scan_files,
  new_config_group, is_subdir, scan_dirs, build_file_list0, path_in, scan_config, Match-cases,
}

module _ (w : Files) (o : ScanOptions) where
  -- A readable profile in a folder, or in one of those below it that as many steps reach: the folder
  -- where the scan starts, that of the profile, and its file name.
  pub data Reach : ℕ → Text → Text → Text → Type 0 where
    in_folder :
        (depth : ℕ) (dir : Text) (finds : List Find) (find : Find)
        → w.find_files dir ≡ some finds
        → Memᴰ find finds
        → match_of w find o.ext_string ≡ match_file
        → check_read_access w dir find.file_name ≡ true
        → Reach depth dir dir find.file_name
    below :
        (depth : ℕ) (dir : Text) (finds : List Find) (find : Find) (folder file : Text)
        → w.find_files dir ≡ some finds
        → Memᴰ find finds
        → is_subdir w o find ≡ true
        → Reach depth (path_in dir find.file_name) folder file
        → Reach (suc depth) dir folder file

  abbrev pub Listed : Text → Configs → Type 0
  Listed file st = config_already_exists w file st.profiles ≡ true

  exists-concat :
      (file : Text) (cs : List Profile) (c : Profile)
      → config_already_exists w file cs ≡ true
      → config_already_exists w file (cs ++ c ∷ []) ≡ true
  unfolding config_already_exists
  exists-concat file [] c h = absurd ground arith
  exists-concat file (d ∷ cs) c h = ground (arith, exists-concat file cs c)

  pub exists_last :
      (file : Text) (cs : List Profile) (c : Profile)
      → w.icase_eq c.config_file file ≡ true
      → config_already_exists w file (cs ++ c ∷ []) ≡ true
  unfolding config_already_exists
  exists_last file [] c h = ground arith
  exists_last file (d ∷ cs) c h = ground (arith, exists_last file cs c)

  module _ (file : Text) where
    scan_config_still :
        (warn : Bool) (dir : Text) (group : ℕ) (new : Text) (st : Configs)
        → Listed file st
        → Listed file (scan_config w o warn dir group new st)
    unfolding scan_config add_config_file_to_list
    scan_config_still warn dir group new st h =
        let c = new_profile w o st.num_configs group new dir in
        elim (Bool-cases (config_already_exists w new st.profiles)) [
          | inl e ↦ elim (Bool-cases warn) [ inl k ↦ rw (e, k) h | inr k ↦ rw (e, k) h ]
          | inr e ↦ elim (Bool-cases (check_read_access w dir new)) [
            | inl k ↦ rw (e, k) (exists-concat file st.profiles c h)
            | inr k ↦ rw (e, k) h
          ]
        ]

    scan_file_still :
        (warn : Bool) (dir : Text) (group : ℕ) (find : Find) (st : Configs)
        → Listed file st
        → Listed file (scan_file w o warn dir group find st)
    unfolding scan_file
    scan_file_still warn dir group find st h = elim (Match-cases (match_of w find o.ext_string)) [
      | inl e ↦ rw (e, scan_file) (scan_config_still warn dir group find.file_name st h)
      | inr (inl e) ↦ rw (e, scan_file) h
      | inr (inr e) ↦ rw (e, scan_file) h
    ]

    pub scan_files_still :
        (warn : Bool) (dir : Text) (group : ℕ) (finds : List Find) (st : Configs)
        → Listed file st
        → Listed file (scan_files w o warn dir group finds st)
    unfolding scan_files
    scan_files_still warn dir group [] st h = h
    scan_files_still warn dir group (find ∷ finds) st h =
        scan_files_still warn dir group finds (scan_file w o warn dir group find st)
          (scan_file_still warn dir group find st h)

    new_config_group_still :
        (name : Text) (parent : ℕ) (add : Bool) (st : Configs)
        → Listed file st
        → Listed file (new_config_group name parent add st).1
    unfolding new_config_group
    new_config_group_still name parent true st h = h
    new_config_group_still name parent false st h = h

    abbrev pub Still : (Text → ℕ → Configs → Configs) → Type 0
    Still visit =
        (dir : Text) (group : ℕ) (st : Configs) → Listed file st → Listed file (visit dir group st)

    pub scan_dirs-Still :
        (visit : Text → ℕ → Configs → Configs) (add : Bool) (dir : Text) (group : ℕ)
        (finds : List Find) (st : Configs)
        → Still visit
        → Listed file st
        → Listed file (scan_dirs w o visit add dir group finds st)
    unfolding scan_dirs
    scan_dirs-Still visit add dir group [] st v h = h
    scan_dirs-Still visit add dir group (find ∷ finds) st v h =
        let sub = new_config_group find.file_name group add st in
        let path = path_in dir find.file_name in
        let visited = v path sub.0 sub.1 (new_config_group_still find.file_name group add st h) in
        elim (Bool-cases (is_subdir w o find)) [
          | inl e ↦
              rw (e, scan_dirs)
                (scan_dirs-Still visit add dir group finds (visit path sub.0 sub.1) v visited)
          | inr e ↦ rw (e, scan_dirs) (scan_dirs-Still visit add dir group finds st v h)
        ]

    pub build_file_list0-Still :
        (depth : ℕ) (warn add : Bool) → Still (build_file_list0 w o depth warn add)
    unfolding build_file_list0
    build_file_list0-Still zero warn add dir group st h = elim (Option-cases (w.find_files dir)) [
      | inl e ↦ rw (e, build_file_list0) h
      | inr (finds, e) ↦ rw (e, build_file_list0) (scan_files_still warn dir group finds st h)
    ]
    build_file_list0-Still (suc depth) warn add dir group st h =
        elim (Option-cases (w.find_files dir)) [
          | inl e ↦ rw (e, build_file_list0) h
          | inr (finds, e) ↦
              rw (e, build_file_list0)
                (scan_dirs-Still (build_file_list0 w o depth warn add) add dir group finds
                  (scan_files w o warn dir group finds st) (build_file_list0-Still depth warn add)
                  (scan_files_still warn dir group finds st h))
        ]

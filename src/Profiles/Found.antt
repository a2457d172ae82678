-- ===== src/Profiles/Found.antt =====
-- openvpn_config.c: the scan of a folder finds the readable profiles down to the given depth, and no others.
use mathlib.Core.List.{Memᴰ}
use mathlib.Core.Path.{subst}
use openvpn_gui.Base.{
  ℕ, zero, suc, ◌≤◌, ◌≡◌, sym, Bool, true, List, [], ◌∷◌, if◌then◌else◌, Bool-cases, ◌⊎◌, inl, inr,
  length, take_of_le, All,
}
use openvpn_gui.Base.Text.{Text}
use mathlib.Core.List.Memᴰ.{head, tail}
use openvpn_gui.Profiles.{
  Files, Find, ScanOptions, Configs, match_file, match_of, check_read_access, config_already_exists,
  new_profile, add_config_file_to_list, scan_file, scan_files, new_config_group, is_subdir,
  scan_dirs, build_file_list0, path_in, scan_config,
}
use openvpn_gui.Profiles.Keeps.{ShortNames}
use openvpn_gui.Profiles.Reached.{
  Reach, in_folder, below, Listed, exists_last, scan_files_still, scan_dirs-Still,
  build_file_list0-Still, Still,
}
use openvpn_gui.Profiles.Origin.{Reached, build_file_list0-Reached}

module _ (w : Files) (o : ScanOptions) (same : (file : Text) → w.icase_eq file file ≡ true) where
  scan_config_lists :
      (warn : Bool) (dir : Text) (group : ℕ) (file : Text) (st : Configs)
      → length file ≤ 259
      → check_read_access w dir file ≡ true
      → Listed w o file (scan_config w o warn dir group file st)
  unfolding scan_config add_config_file_to_list new_profile
  scan_config_lists warn dir group file st short r =
      let c = new_profile w o st.num_configs group file dir in
      elim (Bool-cases (config_already_exists w file st.profiles)) [
        | inl e ↦ elim (Bool-cases warn) [ inl k ↦ rw (e, k) e | inr k ↦ rw (e, k) e ]
        | inr e ↦
            rw (e, r)
              (exists_last w o file st.profiles c (rw (take_of_le 259 file short) (same file)))
      ]

  scan_files_lists :
      (warn : Bool) (dir : Text) (group : ℕ) (finds : List Find) (find : Find) (st : Configs)
      → All (λ f. length f.file_name ≤ 259) finds
      → Memᴰ find finds
      → match_of w find o.ext_string ≡ match_file
      → check_read_access w dir find.file_name ≡ true
      → Listed w o find.file_name (scan_files w o warn dir group finds st)
  unfolding scan_files scan_file
  scan_files_lists warn dir group [] find st short m k r = elim m [ ]
  scan_files_lists warn dir group (f ∷ finds) find st short (head e) m r =
      let here = subst (λ g. match_of w g o.ext_string ≡ match_file) e m in
      let listed : Listed w o find.file_name (scan_file w o warn dir group f st) =
        rw (here, scan_file)
          (subst (λ g. Listed w o g.file_name (scan_config w o warn dir group f.file_name st))
            (sym e)
            (scan_config_lists warn dir group f.file_name st short.0
              (subst (λ g. check_read_access w dir g.file_name ≡ true) e r))) in
      scan_files_still w o find.file_name warn dir group finds (scan_file w o warn dir group f st)
        listed
  scan_files_lists warn dir group (f ∷ finds) find st short (tail t) m r =
      scan_files_lists warn dir group finds find (scan_file w o warn dir group f st) short.1 t m r

  scan_dirs_lists :
      (visit : Text → ℕ → Configs → Configs) (add : Bool) (dir : Text) (group : ℕ)
      (finds : List Find) (find : Find) (file : Text) (st : Configs)
      → Still w o file visit
      → ((g : ℕ) (s : Configs) → Listed w o file (visit (path_in dir find.file_name) g s))
      → Memᴰ find finds
      → is_subdir w o find ≡ true
      → Listed w o file (scan_dirs w o visit add dir group finds st)
  unfolding scan_dirs
  scan_dirs_lists visit add dir group [] find file st still v m s = elim m [ ]
  scan_dirs_lists visit add dir group (f ∷ finds) find file st still v (head e) s =
      let sub = new_config_group f.file_name group add st in
      let path = path_in dir f.file_name in
      let there =
        subst (λ x. Listed w o file (visit (path_in dir x.file_name) sub.0 sub.1)) e
          (v sub.0 sub.1) in
      rw (subst (λ x. is_subdir w o x ≡ true) e s, scan_dirs)
        (scan_dirs-Still w o file visit add dir group finds (visit path sub.0 sub.1) still there)
  scan_dirs_lists visit add dir group (f ∷ finds) find file st still v (tail t) s =
      let sub = new_config_group f.file_name group add st in
      let next = if is_subdir w o f then visit (path_in dir f.file_name) sub.0 sub.1 else st in
      scan_dirs_lists visit add dir group finds find file next still v t s

  -- Where no name has more than 259 characters and each equals itself without case, a scan of a folder
  -- to some depth lists a file of the name, without case, of every profile that can be read in the
  -- folder, or in one below it that the depth reaches.
  pub build_file_list0-Reach :
      ShortNames w
      → (depth : ℕ) (warn add : Bool) (dir folder file : Text) → Reach w o depth dir folder file
      → (group : ℕ) (st : Configs)
      → config_already_exists w file (build_file_list0 w o depth warn add dir group st).profiles
        ≡ true
  unfolding build_file_list0
  build_file_list0-Reach short zero warn add dir folder file (in_folder _ _ finds find e m k r)
        group st =
      rw (e, build_file_list0)
        (scan_files_lists warn dir group finds find st (short dir finds e) m k r)
  build_file_list0-Reach short (suc depth) warn add dir folder file
        (in_folder _ _ finds find e m k r) group st =
      rw (e, build_file_list0)
        (scan_dirs-Still w o find.file_name (build_file_list0 w o depth warn add) add dir group
          finds (scan_files w o warn dir group finds st)
          (build_file_list0-Still w o find.file_name depth warn add)
          (scan_files_lists warn dir group finds find st (short dir finds e) m k r))
  build_file_list0-Reach short (suc depth) warn add dir folder file
        (below _ _ finds find _ _ e m s reach) group st =
      rw (e, build_file_list0)
        (scan_dirs_lists (build_file_list0 w o depth warn add) add dir group finds find file
          (scan_files w o warn dir group finds st) (build_file_list0-Still w o file depth warn add)
          (build_file_list0-Reach short depth warn add (path_in dir find.file_name) folder file
            reach)
          m s)

  -- Where no name has more than 259 characters and each equals itself without case, a scan of a folder to
  -- some depth loses no name and invents no profile: for every profile that can be read in the folder, or
  -- in one below it that the depth reaches, the list has a profile of its file name, without case; and
  -- every profile of the list was there before, or has the file name and the folder of one of those.
  pub build_file_list0_lem :
      ShortNames w
      → (depth : ℕ) (warn add : Bool) (dir : Text) (group : ℕ) (st : Configs)
      → ((folder file : Text)
          → Reach w o depth dir folder file
          → config_already_exists w file (build_file_list0 w o depth warn add dir group st).profiles
            ≡ true)
        × All
            (λ c. Memᴰ c st.profiles ⊎ Reached w o depth dir c)
            (build_file_list0 w o depth warn add dir group st).profiles
  build_file_list0_lem short depth warn add dir group st = (
    λ folder file reach. build_file_list0-Reach short depth warn add dir folder file reach group st,
    build_file_list0-Reached w o depth warn add dir group st,
  )

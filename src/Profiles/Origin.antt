-- ===== src/Profiles/Origin.antt =====
-- openvpn_config.c: every profile that a scan of a folder adds is one that it reaches.
use mathlib.Core.List.{Memᴰ}
use mathlib.Core.List.Memᴰ.{head, tail}
use openvpn_gui.Base.{
  ℕ, zero, suc, ◌≡◌, refl, Bool, true, false, List, [], ◌∷◌, Bool-cases, Option-cases, ◌⊎◌, inl,
  inr, take, All, All-append,
}
use openvpn_gui.Base.Text.{Text}
use openvpn_gui.Profiles.{
  Files, Find, ScanOptions, Profile, Configs, match_file, match_of, check_read_access,
  config_already_exists, new_profile, add_config_file_to_list, scan_file, scan_files,
  new_config_group, is_subdir, scan_dirs, build_file_list0, path_in, scan_config, Match-cases,
}
use openvpn_gui.Profiles.Reached.{Reach, in_folder, below}

module _ (w : Files) (o : ScanOptions) where
  module _ (P : Profile → Type 0) where
    -- A property of all profiles.
    abbrev Each : Configs → Type 0
    Each st = All P st.profiles

    -- The profile made of a file in a folder has the property.
    abbrev Fine : Text → Text → Type 0
    Fine folder file = (id group : ℕ) → P (new_profile w o id group file folder)

    scan_config-Each :
        (warn : Bool) (dir : Text) (group : ℕ) (file : Text) (st : Configs)
        → (check_read_access w dir file ≡ true → Fine dir file)
        → Each st
        → Each (scan_config w o warn dir group file st)
    unfolding scan_config add_config_file_to_list
    scan_config-Each warn dir group file st fine h =
        let c = new_profile w o st.num_configs group file dir in
        elim (Bool-cases (config_already_exists w file st.profiles)) [
          | inl e ↦ elim (Bool-cases warn) [ inl k ↦ rw (e, k) h | inr k ↦ rw (e, k) h ]
          | inr e ↦ elim (Bool-cases (check_read_access w dir file)) [
            | inl k ↦
                rw (e, k) (All-append P st.profiles (c ∷ []) h (fine k st.num_configs group, tt))
            | inr k ↦ rw (e, k) h
          ]
        ]

    -- What the files of a folder that match and can be read satisfy.
    abbrev FilesFine : Text → List Find → Type 0
    FilesFine dir finds =
        (find : Find)
        → Memᴰ find finds
        → match_of w find o.ext_string ≡ match_file
        → check_read_access w dir find.file_name ≡ true
        → Fine dir find.file_name

    scan_file-Each :
        (warn : Bool) (dir : Text) (group : ℕ) (find : Find) (st : Configs)
        → (match_of w find o.ext_string ≡ match_file
            → check_read_access w dir find.file_name ≡ true
            → Fine dir find.file_name)
        → Each st
        → Each (scan_file w o warn dir group find st)
    unfolding scan_file
    scan_file-Each warn dir group find st fine h =
        elim (Match-cases (match_of w find o.ext_string)) [
          | inl e ↦ rw (e, scan_file) (scan_config-Each warn dir group find.file_name st (fine e) h)
          | inr (inl e) ↦ rw (e, scan_file) h
          | inr (inr e) ↦ rw (e, scan_file) h
        ]

    scan_files-Each :
        (warn : Bool) (dir : Text) (group : ℕ) (finds : List Find) (st : Configs)
        → FilesFine dir finds
        → Each st
        → Each (scan_files w o warn dir group finds st)
    unfolding scan_files
    scan_files-Each warn dir group [] st fine h = h
    scan_files-Each warn dir group (find ∷ finds) st fine h =
        scan_files-Each warn dir group finds (scan_file w o warn dir group find st)
          (λ f m. fine f (tail m)) (scan_file-Each warn dir group find st (fine find (head refl)) h)

    new_config_group-Each :
        (name : Text) (parent : ℕ) (add : Bool) (st : Configs)
        → Each st
        → Each (new_config_group name parent add st).1
    unfolding new_config_group
    new_config_group-Each name parent true st h = h
    new_config_group-Each name parent false st h = h

    scan_dirs-Each :
        (visit : Text → ℕ → Configs → Configs) (add : Bool) (dir : Text) (group : ℕ)
        (finds : List Find) (st : Configs)
        → ((find : Find)
            → Memᴰ find finds
            → is_subdir w o find ≡ true
            → (sub : ℕ) (before : Configs) → Each before
            → Each (visit (path_in dir find.file_name) sub before))
        → Each st
        → Each (scan_dirs w o visit add dir group finds st)
    unfolding scan_dirs
    scan_dirs-Each visit add dir group [] st v h = h
    scan_dirs-Each visit add dir group (find ∷ finds) st v h =
        let sub = new_config_group find.file_name group add st in
        let path = path_in dir find.file_name in
        elim (Bool-cases (is_subdir w o find)) [
          | inl e ↦
              let kept = new_config_group-Each find.file_name group add st h in
              rw (e, scan_dirs)
                (scan_dirs-Each visit add dir group finds (visit path sub.0 sub.1)
                  (λ f m. v f (tail m)) (v find (head refl) e sub.0 sub.1 kept))
          | inr e ↦
              rw (e, scan_dirs)
                (scan_dirs-Each visit add dir group finds st (λ f m. v f (tail m)) h)
        ]

    build_file_list0-Each :
        (depth : ℕ) (warn add : Bool) (dir : Text)
        → ((folder file : Text) → Reach w o depth dir folder file → Fine folder file)
        → (group : ℕ) (st : Configs) → Each st
        → Each (build_file_list0 w o depth warn add dir group st)
    unfolding build_file_list0
    build_file_list0-Each zero warn add dir fine group st h =
        elim (Option-cases (w.find_files dir)) [
          | inl e ↦ rw (e, build_file_list0) h
          | inr (finds, e) ↦
              rw (e, build_file_list0)
                (scan_files-Each warn dir group finds st
                  (λ f m k r. fine dir f.file_name (in_folder zero dir finds f e m k r)) h)
        ]
    build_file_list0-Each (suc depth) warn add dir fine group st h =
        elim (Option-cases (w.find_files dir)) [
          | inl e ↦ rw (e, build_file_list0) h
          | inr (finds, e) ↦
              rw (e, build_file_list0)
                (scan_dirs-Each (build_file_list0 w o depth warn add) add dir group finds
                  (scan_files w o warn dir group finds st)
                  (λ f m s.
                    build_file_list0-Each depth warn add (path_in dir f.file_name)
                      (λ folder file reach.
                        fine folder file (below depth dir finds f folder file e m s reach)))
                  (scan_files-Each warn dir group finds st
                    (λ f m k r. fine dir f.file_name (in_folder (suc depth) dir finds f e m k r))
                    h))
        ]

  -- The profile of a readable file that the scan reaches, with its name and folder.
  abbrev pub Reached : ℕ → Text → Profile → Type 0
  Reached depth dir c =
      (folder : Text) × (file : Text) × Reach w o depth dir folder file
      × (c.config_file ≡ take 259 file)
      × (c.profile_dir ≡ take 259 folder)

  all_in : (P : Profile → Type 0) (cs : List Profile) → ((c : Profile) → Memᴰ c cs → P c) → All P cs
  all_in P [] h = tt
  all_in P (c ∷ cs) h = (h c (head refl), all_in P cs (λ d m. h d (tail m)))

  pub build_file_list0-Reached :
      (depth : ℕ) (warn add : Bool) (dir : Text) (group : ℕ) (st : Configs)
      → All
          (λ c. Memᴰ c st.profiles ⊎ Reached depth dir c)
          (build_file_list0 w o depth warn add dir group st).profiles
  unfolding new_profile
  build_file_list0-Reached depth warn add dir group st =
      build_file_list0-Each (λ c. Memᴰ c st.profiles ⊎ Reached depth dir c) depth warn add dir
        (λ folder file reach id g. inr (folder, file, reach, refl, refl)) group st
        (all_in (λ c. Memᴰ c st.profiles ⊎ Reached depth dir c) st.profiles (λ c m. inl m))

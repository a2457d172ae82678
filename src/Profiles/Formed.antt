-- ===== src/Profiles/Formed.antt =====
-- openvpn_config.c: BuildFileList keeps the list of profiles and the tree of groups well-formed.
use mathlib.Core.Path.{subst}
use openvpn_gui.Base.{
  ℕ, zero, suc, ◌≤◌, ◌≡◌, refl, ap, ◌∙◌, sym, Bool, true, not, ◌&&◌, Option, none, some, List, [],
  ◌∷◌, ◌++◌, map, if◌then◌else◌, Bool-cases, ◌⊎◌, inl, inr, arith, length, length-map, ltb, ◌==◌,
  All,
}
use openvpn_gui.Profiles.{Files, ScanOptions, Profile, Group, Configs, Message, build_file_list0}
use openvpn_gui.Profiles.Keeps.{
  key, parents, Parents, HasGroup, ShortNames, WellFormed, Kept, Kept-refl, Kept-trans,
  with_messages, HasGroup-weaken,
}
use openvpn_gui.Profiles.Scan.{build_file_list0-Kept}
use openvpn_gui.Profiles.Tree.{
  change_group_keeps, counted-parents, length_of_parents, squash-key, squash-HasGroup, squash_keeps,
}
use openvpn_gui.Profiles.Groups.{
  activated, group_at, parent_of, change_group, activate_up, activate_all, counted, squash,
  activate_config_groups, read_checked, scan_all, warn_none, started, warns, first_groups,
  build_file_list,
}

module _ {ℓ} {A : Type ℓ} (view : Group → A)
    (same : (g : Group) → view (activated g) ≡ view g) where
  pub activate_up_keeps :
      (fuel : ℕ) (at : Option ℕ) (gs : List Group) → map view (activate_up fuel at gs) ≡ map view gs
  unfolding activate_up
  activate_up_keeps zero at gs = refl
  activate_up_keeps (suc fuel) none gs = refl
  activate_up_keeps (suc fuel) (some i) gs =
      activate_up_keeps fuel (parent_of (group_at gs i)) (change_group activated i gs)
      ∙ change_group_keeps view activated same i gs

  activate_all_keeps :
      (cs : List Profile) (gs : List Group) → map view (activate_all cs gs) ≡ map view gs
  unfolding activate_all
  activate_all_keeps [] gs = refl
  activate_all_keeps (c ∷ cs) gs =
      activate_all_keeps cs (activate_up (length gs) (some c.group) gs)
      ∙ activate_up_keeps (length gs) (some c.group) gs

-- The groups of the root, of the persistent and of the system profiles stand where they are expected,
-- except before the first scan.
pub record RootsMade (st : Configs) : Type 0 where
  pub made : 3 ≤ length st.groups
  pub root : st.root_gp ≡ 0
  pub system : st.system_gp ≡ 2
  pub persistent : st.persistent_gp ≡ 1

unfoldable pub HasRoots : Configs → Type 0
HasRoots st = (st.num_configs ≡ 0) ⊎ RootsMade st

All_of_empty {ℓ} : {A : Type 0} (P : A → Type ℓ) (xs : List A) → length xs ≡ 0 → All P xs
All_of_empty P [] h = tt
All_of_empty P (x ∷ xs) h = absurd (omega arith)

module _ (w : Files) where
  read_checked-key : (cs : List Profile) → map key (map (read_checked w) cs) ≡ map key cs
  read_checked-key [] = refl
  read_checked-key (c ∷ cs) = ap (◌∷◌ (key c)) (read_checked-key cs)

  read_checked-HasGroup :
      (n : ℕ) (cs : List Profile) → All (HasGroup n) cs → All (HasGroup n) (map (read_checked w) cs)
  read_checked-HasGroup n [] h = tt
  read_checked-HasGroup n (c ∷ cs) h = (h.0, read_checked-HasGroup n cs h.1)

  activate_config_groups-Kept :
      (o : ScanOptions) (st : Configs)
      → WellFormed w o st
      → Kept w o st (activate_config_groups w st)
  unfolding activate_config_groups
  activate_config_groups-Kept o st wf =
      let view : Group → Option ℕ = λ g. g.parent in
      let start = counted st.profiles st.groups in
      let squashed = squash st.profiles start in
      let final = activate_all squashed.0 squashed.1 in
      let ps = counted-parents st.profiles st.groups in
      let same : parents final ≡ parents st.groups =
        activate_all_keeps view (λ g. refl) squashed.0 squashed.1
        ∙ squash_keeps view (λ g. refl) (λ g. refl) st.profiles start
        ∙ ps in
      let keys = read_checked-key squashed.0 ∙ squash-key st.profiles start in
      let many = length_of_parents st.groups final (sym same) in
      let start_many = length_of_parents st.groups start (sym ps) in
      let groups = squash-HasGroup st.profiles start (subst (Parents 0) (sym ps) wf.ordered) (
        HasGroup-weaken (length st.groups) (length start) st.profiles (omega (arith, start_many))
          wf.grouped) in
      record {
        formed = record {
          counted =
              wf.counted
              ∙ sym (length-map key st.profiles)
              ∙ ap length (sym keys)
              ∙ length-map key (map (read_checked w) squashed.0);
          numbered = rw keys wf.numbered;
          distinct = rw keys wf.distinct;
          grouped =
              HasGroup-weaken (length start) (length final) (map (read_checked w) squashed.0)
                (omega (arith, many, start_many))
                (read_checked-HasGroup (length start) squashed.0 groups);
          ordered = rw same wf.ordered;
        };
        grown = omega (arith, many);
        same_root = refl;
        same_system = refl;
        same_persistent = refl;
      }

  module _ (o : ScanOptions) (short : ShortNames w) where
    started-WellFormed :
        (st : Configs)
        → WellFormed w o st
        → HasRoots st
        → WellFormed w o (started st) × RootsMade (started st)
    unfolding HasRoots
    started-WellFormed st wf h = elim (Bool-cases (st.num_configs == 0)) [
      | inl e ↦
          let formed : WellFormed w o (first_groups st) = record {
            counted = wf.counted;
            numbered = wf.numbered;
            distinct = wf.distinct;
            grouped = All_of_empty (HasGroup 3) st.profiles (ground (arith, wf.counted));
            ordered = (tt, (omega arith, (omega arith, tt)));
          } in
          let roots : RootsMade (first_groups st) = record {
            made = omega arith;
            root = refl;
            system = refl;
            persistent = refl;
          } in
          rw e (formed, roots)
      | inr e ↦ elim h [ inl z ↦ absurd ground arith | inr made ↦ rw e (wf, made) ]
    ]

    warn_none-Kept :
        (warn : Bool) (st : Configs) → WellFormed w o st → Kept w o st (warn_none warn st)
    unfolding warn_none
    warn_none-Kept warn st wf = elim (Bool-cases ((st.num_configs == 0) && warn)) [
      | inl e ↦ rw e (with_messages w o st (st.messages ++ Message.no_configs ∷ []) wf)
      | inr e ↦ rw e (Kept-refl w o st wf)
    ]

    scan_all-Kept :
        (warn add : Bool) (st : Configs)
        → WellFormed w o st
        → RootsMade st
        → Kept w o st (scan_all w o warn add st)
    unfolding scan_all
    scan_all-Kept warn add st wf r =
        let scan = build_file_list0-Kept w o 20 warn add short in
        let own = build_file_list0 w o 20 warn add o.config_dir st.root_gp st in
        let k1 = scan o.config_dir st.root_gp st (omega (arith, r.made, r.root)) wf in
        let global = build_file_list0 w o 20 warn add o.global_config_dir st.system_gp own in
        let k2 =
          scan o.global_config_dir st.system_gp own (omega (arith, r.made, r.system, k1.grown))
            k1.formed in
        let same = w.same_path o.global_config_dir o.config_dir in
        let all = if same then own else global in
        let k3 : Kept w o st all = elim (Bool-cases same) [
          | inl e ↦ rw e k1
          | inr e ↦ rw e (Kept-trans w o st own global k1 k2)
        ] in
        let auto =
          (o.service_connected && ltb 0 o.enable_persistent)
          && not (w.same_path o.config_auto_dir o.config_dir) in
        let last = build_file_list0 w o 20 warn add o.config_auto_dir st.persistent_gp all in
        let k4 =
          scan o.config_auto_dir st.persistent_gp all
            (omega (arith, r.made, r.persistent, k3.grown)) k3.formed in
        elim (Bool-cases auto) [ inl e ↦ rw e (Kept-trans w o st all last k3 k4) | inr e ↦ rw e k3 ]

    -- BuildFileList keeps, whatever the folders have in them, a state in which the profiles are
    -- numbered in order with their ports behind the offset, in 16 bits, no file name equals a later
    -- one without case, every profile stands in a group that exists, and every group comes after its
    -- parent; and the three groups it starts with are in place behind it. The names that Windows
    -- gives have at most 259 characters; before the first scan the groups need not be there.
    pub build_file_list-WellFormed :
        (st : Configs)
        → WellFormed w o st
        → HasRoots st
        → WellFormed w o (build_file_list w o st) × RootsMade (build_file_list w o st)
    unfolding build_file_list
    build_file_list-WellFormed st wf h =
        let first = started-WellFormed st wf h in
        let warn = warns o st in
        let scanned = scan_all-Kept warn (st.num_configs == 0) (started st) first.0 first.1 in
        let st1 = scan_all w o warn (st.num_configs == 0) (started st) in
        let warned = warn_none-Kept warn st1 scanned.formed in
        let st2 = warn_none warn st1 in
        let active = activate_config_groups-Kept o st2 warned.formed in
        let kept =
          Kept-trans w o (started st) st2 (activate_config_groups w st2)
            (Kept-trans w o (started st) st1 st2 scanned warned) active in
        let ours : ((started st).persistent_gp == 1) ≡ true = ground (arith, first.1.persistent) in
        let formed = kept.formed in
        rw ours (
          record {
            counted = formed.counted;
            numbered = formed.numbered;
            distinct = formed.distinct;
            grouped = formed.grouped;
            ordered = formed.ordered;
          },
          record {
            made = omega (arith, kept.grown, first.1.made);
            root = kept.same_root ∙ first.1.root;
            system = kept.same_system ∙ first.1.system;
            persistent = kept.same_persistent ∙ first.1.persistent;
          },
        )

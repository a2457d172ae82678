-- ===== src/Profiles/Keeps.antt =====
-- openvpn_config.c: what the list of profiles always is: the profiles are numbered in order, have different file
-- names and stand in groups that exist, and every group comes after its parent.
use mathlib.Core.List.{map-append}
use mathlib.Core.Path.{subst}
use openvpn_gui.Base.{
  ℕ, suc, ◌+◌, ◌%◌, ◌≤◌, ◌<◌, ◌≡◌, refl, ap, ◌∙◌, sym, false, Option, none, some, List, [], ◌∷◌,
  ◌++◌, map, Bool-cases, inl, inr, arith, length, length-concat, length-map, take_of_le, All,
  All-append,
}
use openvpn_gui.Base.Text.{Text}
use openvpn_gui.Profiles.{
  new_profile, Message, add_config_file_to_list, Files, Find, ScanOptions, Profile, Group, Configs,
  config_already_exists,
}

-- A parent, if any, that comes before the number `i`.
abbrev pub Below : ℕ → Option ℕ → Type 0
Below i none = Unit
Below i (some p) = p < i

-- The parents of the groups from the number `i` on come before them.
abbrev pub Parents : ℕ → List (Option ℕ) → Type 0
Parents i [] = Unit
Parents i (p ∷ ps) = Below i p × Parents (suc i) ps

abbrev pub parents : List Group → List (Option ℕ)
parents gs = map (λ g. g.parent) gs

abbrev pub HasGroup : ℕ → Profile → Type 0
HasGroup n c = c.group < n

-- What tells profiles apart: file name, id and port.
pub record Key : Type 0 where
  pub file : Text
  pub id : ℕ
  pub port : ℕ

abbrev pub key : Profile → Key
key c = record { file = c.config_file; id = c.id; port = c.port }

-- The profiles are numbered from `i` on, and the ports with them, in 16 bits.
abbrev pub Ids : ℕ → ℕ → List Key → Type 0
Ids offset i [] = Unit
Ids offset i (k ∷ ks) = ((k.id ≡ i) × (k.port ≡ (offset + i) % 65536)) × Ids offset (suc i) ks

module _ (w : Files) where
  abbrev pub Other : Text → Key → Type 0
  Other file k = w.icase_eq k.file file ≡ false

  -- No file name equals a later one without case.
  abbrev pub Distinct : List Key → Type 0
  Distinct [] = Unit
  Distinct (k ∷ ks) = All (λ l. w.icase_eq k.file l.file ≡ false) ks × Distinct ks

  -- `cFileName` has MAX_PATH characters with its NUL.
  abbrev pub ShortNames : Type 0
  ShortNames =
      (dir : Text) (finds : List Find)
      → w.find_files dir ≡ some finds
      → All (λ find. length find.file_name ≤ 259) finds

  pub record WellFormed (o : ScanOptions) (st : Configs) : Type 0 where
    pub counted : st.num_configs ≡ length st.profiles
    pub numbered : Ids o.mgmt_port_offset 0 (map key st.profiles)
    pub distinct : Distinct (map key st.profiles)
    pub grouped : All (HasGroup (length st.groups)) st.profiles
    pub ordered : Parents 0 (parents st.groups)

  Distinct-concat :
      (ks : List Key) (k : Key) → Distinct ks → All (Other k.file) ks → Distinct (ks ++ k ∷ [])
  Distinct-concat [] k h e = (tt, tt)
  Distinct-concat (l ∷ ks) k h e = (
    All-append (λ m. w.icase_eq l.file m.file ≡ false) ks (k ∷ []) h.0 (e.0, tt),
    Distinct-concat ks k h.1 e.1,
  )

  Other-config_already_exists :
      (file : Text) (cs : List Profile)
      → config_already_exists w file cs ≡ false
      → All (Other file) (map key cs)
  unfolding config_already_exists
  Other-config_already_exists file [] h = tt
  Other-config_already_exists file (c ∷ cs) h = elim (Bool-cases (w.icase_eq c.config_file file)) [
    | inl e ↦ absurd ground arith
    | inr e ↦ (e, Other-config_already_exists file cs (ground arith))
  ]

Ids-concat :
    (offset i : ℕ) (ks : List Key) (k : Key)
    → Ids offset i ks
    → k.id ≡ i + length ks
    → k.port ≡ (offset + (i + length ks)) % 65536
    → Ids offset i (ks ++ k ∷ [])
Ids-concat offset i [] k h e p =
    ((omega arith, p ∙ ap (λ n. (offset + n) % 65536) (omega arith)), tt)
Ids-concat offset i (l ∷ ks) k h e p = (
  h.0,
  Ids-concat offset (suc i) ks k h.1 (omega arith)
      (p ∙ ap (λ n. (offset + n) % 65536) (omega arith)),
)

pub Parents-concat :
    (i : ℕ) (ps : List (Option ℕ)) (p : Option ℕ)
    → Parents i ps
    → Below (i + length ps) p
    → Parents i (ps ++ p ∷ [])
Parents-concat i [] p h k = (subst (λ n. Below n p) (omega arith) k, tt)
Parents-concat i (x ∷ ps) p h k =
    (h.0, Parents-concat (suc i) ps p h.1 (subst (λ n. Below n p) (omega arith) k))

pub HasGroup-weaken :
    (n m : ℕ) (cs : List Profile) → n ≤ m → All (HasGroup n) cs → All (HasGroup m) cs
HasGroup-weaken n m [] le h = tt
HasGroup-weaken n m (c ∷ cs) le h = (omega (arith, h.0), HasGroup-weaken n m cs le h.1)

module _ (w : Files) (o : ScanOptions) where
  pub add_config_file_to_list-WellFormed :
      (group : ℕ) (file dir : Text) (st : Configs)
      → length file ≤ 259
      → config_already_exists w file st.profiles ≡ false
      → group < length st.groups
      → WellFormed w o st
      → WellFormed w o (add_config_file_to_list w o group file dir st)
  unfolding add_config_file_to_list new_profile
  add_config_file_to_list-WellFormed group file dir st short new h wf =
      let c = new_profile w o st.num_configs group file dir in
      let many = length-map key st.profiles in
      let others =
        subst (λ f. All (Other w f) (map key st.profiles)) (sym (take_of_le 259 file short))
          (Other-config_already_exists w file st.profiles new) in
      record {
        counted = omega (arith, wf.counted, length-concat st.profiles c);
        numbered = rw map-append (
            Ids-concat o.mgmt_port_offset 0 (map key st.profiles) (key c) wf.numbered
              (omega (arith, wf.counted, many))
              (ap (λ n. (o.mgmt_port_offset + n) % 65536) (omega (arith, wf.counted, many))));
        distinct =
            rw map-append (Distinct-concat w (map key st.profiles) (key c) wf.distinct others);
        grouped = All-append (HasGroup (length st.groups)) st.profiles (c ∷ []) wf.grouped (h, tt);
        ordered = wf.ordered;
      }

  -- A scan keeps the groups, or adds some behind them.
  pub record Kept (st new : Configs) : Type 0 where
    pub formed : WellFormed w o new
    pub grown : length st.groups ≤ length new.groups
    pub same_root : new.root_gp ≡ st.root_gp
    pub same_system : new.system_gp ≡ st.system_gp
    pub same_persistent : new.persistent_gp ≡ st.persistent_gp

  pub Kept-refl : (st : Configs) → WellFormed w o st → Kept st st
  Kept-refl st wf = record {
    formed = wf;
    grown = omega arith;
    same_root = refl;
    same_system = refl;
    same_persistent = refl;
  }

  pub Kept-trans : (a b c : Configs) → Kept a b → Kept b c → Kept a c
  Kept-trans a b c h k = record {
    formed = k.formed;
    grown = omega (arith, h.grown, k.grown);
    same_root = k.same_root ∙ h.same_root;
    same_system = k.same_system ∙ h.same_system;
    same_persistent = k.same_persistent ∙ h.same_persistent;
  }

  pub with_messages :
      (st : Configs) (ms : List Message) → WellFormed w o st → Kept st (record st { messages = ms })
  with_messages st ms wf = record {
    formed = record {
      counted = wf.counted;
      numbered = wf.numbered;
      distinct = wf.distinct;
      grouped = wf.grouped;
      ordered = wf.ordered;
    };
    grown = omega arith;
    same_root = refl;
    same_system = refl;
    same_persistent = refl;
  }

-- ===== src/Options/Expected.antt =====
-- options.c: what options with one argument set, described by their names alone, and that `add_option`
-- does so for each option of its table.
use mathlib.Core.Option.{some-injective}
use mathlib.Core.Path.{subst}
use openvpn_gui.Base.{
  ℕ, ◌≡◌, refl, ap, sym, ◌∙◌, Bool, true, false, not, ◌||◌, ◌==◌, ltb, take, if◌then◌else◌, All,
  some, List, [], ◌∷◌, ◌++◌, Bool-cases, inl, inr,
}
use openvpn_gui.Base.Text.{Text, codes, streq, streq_iff}
use openvpn_gui.Options.Add.{
  GuiOptions, Action, ovpn_start, ovpn_import, Setting, set_connect, set_mgmt_port_offset,
  add_connect, settings, setting_in, apply_setting,
}

-- Whether the name is one of these.
abbrev pub one_of : List Text → Text → Bool
one_of [] name = false
one_of (known ∷ more) name = if streq name known then true else one_of more name

-- An option and its value.
abbrev pub Pair : Type 0
Pair = Text × Text

-- What the values of the options `names` make of `d` in their order, each by `f`.
abbrev pub set_by : {A : Type 0} → (Text → A → A) → List Text → List Pair → A → A
set_by f names [] d = d
set_by f names ((name, value) ∷ more) d =
    set_by f names more (if one_of names name then f value d else d)

-- The last value of an option, cut to `n` characters.
abbrev pub text_of : ℕ → Text → List Pair → Text → Text
text_of n name given d = set_by (λ value old. take n value) (name ∷ []) given d

-- The profiles to connect.
abbrev pub profiles_of : List Pair → List Text → List Text
profiles_of given d = set_by (λ value old. old ++ value ∷ []) (codes "connect" ∷ []) given d

abbrev pub if_first : {A : Type 0} → List Text → A → A → A
if_first [] new old = new
if_first (profile ∷ more) new old = old

-- The action: that of the last import, or of the first profile to connect, whichever comes last.
abbrev pub action_of : {A : Type 0} → (Action → Text → A) → List Pair → List Text → A → A
action_of act [] profiles d = d
action_of act ((name, value) ∷ more) profiles d =
    if streq name (codes "connect")
    then action_of act more (profiles ++ value ∷ []) (if_first profiles (act ovpn_start value) d)
    else if streq name (codes "import")
    then action_of act more profiles (act ovpn_import value)
    else action_of act more profiles d

-- What holds of every place of a table holds of what is found in it.
pub setting_in-All :
    (P : Text → Setting → Type 0) (table : List (Text × Setting)) (name : Text) (setting : Setting)
    → All (λ known. P known.0 known.1) table
    → setting_in table name ≡ some setting
    → P name setting
unfolding setting_in
setting_in-All P [] name setting all found = absurd (cc)
setting_in-All P ((known, other) ∷ table) name setting all found =
    elim (Bool-cases (streq name known)) [
      | inl e ↦
          let same = (streq_iff name known).0 e in
          let first : setting_in ((known, other) ∷ table) name ≡ some other =
            rw (e, setting_in) refl in
          subst (λ s. P name s) (some-injective _ _ (sym first ∙ found))
            (subst (λ n. P n other) (sym same) all.0)
      | inr e ↦
          let later : setting_in ((known, other) ∷ table) name ≡ setting_in table name =
            rw (e, setting_in) refl in
          setting_in-All P table name setting all.1 (sym later ∙ found)
    ]

-- A proof for the first place and one for the others.
infixr 4 ◌▹◌
◌▹◌ : {A B : Type 0} → A → B → A × B
a ▹ b = (a, b)

module _ (ttoi : Text → ℕ) where
  -- The last value of an option as a number, or as a flag.
  abbrev pub number_of : Text → List Pair → ℕ → ℕ
  number_of name given d = set_by (λ value old. ttoi value) (name ∷ []) given d

  abbrev pub flag_of : List Text → List Pair → Bool → Bool
  flag_of names given d = set_by (λ value old. not (ttoi value == 0)) names given d

  -- The last value that is a port offset.
  abbrev pub offset_of : List Pair → ℕ → ℕ
  offset_of given d =
      set_by (λ value old. if ltb (ttoi value) 1 || ltb 61000 (ttoi value) then old else ttoi value)
        (codes "management_port_offset" ∷ []) given d

  -- The options that settings given in some order leave, member by member.
  abbrev pub expected : List Pair → GuiOptions → GuiOptions
  expected given o = record {
    auto_connect = profiles_of given o.auto_connect;
    action = action_of (λ act value. act) given o.auto_connect o.action;
    action_arg = action_of (λ act value. value) given o.auto_connect o.action_arg;
    exe_path = text_of 259 (codes "exe_path") given o.exe_path;
    config_dir = text_of 259 (codes "config_dir") given o.config_dir;
    ext_string = text_of 15 (codes "ext_string") given o.ext_string;
    log_dir = text_of 259 (codes "log_dir") given o.log_dir;
    priority_string = text_of 63 (codes "priority_string") given o.priority_string;
    log_viewer = text_of 259 (codes "log_viewer") given o.log_viewer;
    editor = text_of 259 (codes "editor") given o.editor;
    log_append = flag_of (codes "append_string" ∷ codes "log_append" ∷ []) given o.log_append;
    iservice_admin = flag_of (codes "iservice_admin" ∷ []) given o.iservice_admin;
    show_script_window = flag_of (codes "show_script_window" ∷ []) given o.show_script_window;
    silent_connection = flag_of (codes "silent_connection" ∷ []) given o.silent_connection;
    disable_popup_messages = o.disable_popup_messages;
    show_balloon = number_of (codes "show_balloon") given o.show_balloon;
    connectscript_timeout = number_of (codes "connectscript_timeout") given o.connectscript_timeout;
    disconnectscript_timeout =
        number_of (codes "disconnectscript_timeout") given o.disconnectscript_timeout;
    preconnectscript_timeout =
        number_of (codes "preconnectscript_timeout") given o.preconnectscript_timeout;
    config_menu_view = number_of (codes "config_menu_view") given o.config_menu_view;
    popup_mute_interval = number_of (codes "popup_mute_interval") given o.popup_mute_interval;
    mgmt_port_offset = offset_of given o.mgmt_port_offset;
  }

  -- One setting first, and then the others.
  abbrev pub Step : Text → Setting → Type 0
  Step name setting =
      (value : Text) (more : List Pair) (o : GuiOptions)
      → expected more (apply_setting ttoi setting value o) ≡ expected ((name, value) ∷ more) o

  add_connect-first :
      (value : Text) (o : GuiOptions)
      → add_connect value o ≡ record o {
        auto_connect = o.auto_connect ++ value ∷ [];
        action = if_first o.auto_connect ovpn_start o.action;
        action_arg = if_first o.auto_connect value o.action_arg;
      }
  unfolding add_connect
  add_connect-first value o = same o.auto_connect
    where
      same :
          (known : List Text)
          → (elim known [
            | [] ↦ record o { auto_connect = value ∷ []; action = ovpn_start; action_arg = value }
            | k ∷ more ↦ record o { auto_connect = (k ∷ more) ++ value ∷ [] }
          ])
            ≡ record o {
              auto_connect = known ++ value ∷ [];
              action = if_first known ovpn_start o.action;
              action_arg = if_first known value o.action_arg;
            }
      same [] = refl
      same (k ∷ more) = refl

  Step-connect : Step (codes "connect") set_connect
  unfolding streq apply_setting
  Step-connect value more o = ap (expected more) (add_connect-first value o)

  Step-offset : Step (codes "management_port_offset") set_mgmt_port_offset
  unfolding streq apply_setting
  Step-offset value more o =
      ap (expected more) (same (ltb (ttoi value) 1 || ltb 61000 (ttoi value)))
    where
      same :
          (bad : Bool)
          → (if bad then o else record o { mgmt_port_offset = ttoi value })
            ≡ record o { mgmt_port_offset = if bad then o.mgmt_port_offset else ttoi value }
      same true = refl
      same false = refl

  pub Step-all : All (λ known. Step known.0 known.1) settings
  unfolding streq apply_setting
  Step-all =
      Step-connect
      ▹ (λ value more o. refl)
      ▹ (λ value more o. refl)
      ▹ (λ value more o. refl)
      ▹ (λ value more o. refl)
      ▹ (λ value more o. refl)
      ▹ (λ value more o. refl)
      ▹ (λ value more o. refl)
      ▹ (λ value more o. refl)
      ▹ (λ value more o. refl)
      ▹ (λ value more o. refl)
      ▹ (λ value more o. refl)
      ▹ (λ value more o. refl)
      ▹ (λ value more o. refl)
      ▹ (λ value more o. refl)
      ▹ (λ value more o. refl)
      ▹ (λ value more o. refl)
      ▹ (λ value more o. refl)
      ▹ (λ value more o. refl)
      ▹ (λ value more o. refl)
      ▹ (λ value more o. refl)
      ▹ (λ value more o. refl)
      ▹ (λ value more o. refl)
      ▹ (λ value more o. refl)
      ▹ (λ value more o. refl)
      ▹ (λ value more o. refl)
      ▹ Step-offset
      ▹ tt

-- ===== src/Options/Settings.antt =====
-- options.c: the options that are written on the command line are read back.
use mathlib.Core.Path.{subst}
use openvpn_gui.Base.{
  ℕ, zero, suc, ◌<◌, ◌≡◌, refl, ap, ◌∙◌, false, none, some, List, [], ◌∷◌, ◌++◌, Bool-cases, inl,
  inr, arith, length,
}
use openvpn_gui.Base.Text.{Text, codes, streq, strbegins, streq_iff, strbegins-append}
use openvpn_gui.Options.Add.{
  GuiOptions, Setting, settings, setting_in, apply_setting, added, add_setting, add_option,
  option_args, parsed, parse_args, parse_argv,
}
use openvpn_gui.Options.Expected.{Pair, expected, Step, Step-all, setting_in-All}

-- An option with its argument, which does not look like an option.
pub record Given : Type 0 where
  pub name : Text
  pub setting : Setting
  pub value : Text
  pub known : setting_in settings name ≡ some setting
  pub plain : strbegins value (codes "--") ≡ false

abbrev pub written : List Given → List Text
written [] = []
written (given ∷ more) = (codes "--" ++ given.name) ∷ given.value ∷ written more

-- The options and their values.
abbrev pub pairs : List Given → List Pair
pairs [] = []
pairs (given ∷ more) = (given.name, given.value) ∷ pairs more

-- A name that is in no place of the table is not that of a setting.
not-setting :
    (name other : Text) (setting : Setting)
    → setting_in settings other ≡ none
    → setting_in settings name ≡ some setting
    → streq name other ≡ false
not-setting name other setting absent known = elim (Bool-cases (streq name other)) [
  | inr e ↦ e
  | inl e ↦
      let same = (streq_iff name other).0 e in
      let found = subst (λ n. setting_in settings n ≡ some setting) same known in
      absurd ground arith
]

no_help : setting_in settings (codes "help") ≡ none
unfolding setting_in streq
no_help = refl

no_command : setting_in settings (codes "command") ≡ none
unfolding setting_in streq
no_command = refl

no_popup : setting_in settings (codes "disable_popup_messages") ≡ none
unfolding setting_in streq
no_popup = refl

module _ (ttoi : Text → ℕ) where
  add_option-Given :
      (given : Given) (more : List Text) (o : GuiOptions)
      → add_option ttoi given.name (given.value ∷ more) o
        ≡ added 1 (apply_setting ttoi given.setting given.value o)
  unfolding add_option add_setting
  add_option-Given given more o =
      rw
        (
          not-setting given.name (codes "help") given.setting no_help given.known,
          not-setting given.name (codes "command") given.setting no_command given.known,
          not-setting given.name (codes "disable_popup_messages") given.setting no_popup
              given.known,
          given.known,
        )
        refl

  parse_args-Given :
      (fuel : ℕ) (givens : List Given) (o : GuiOptions)
      → length (written givens) < fuel
      → parse_args ttoi fuel (written givens) o ≡ some (parsed (expected ttoi (pairs givens) o))
  unfolding parse_args option_args
  parse_args-Given zero givens o h = absurd (omega arith)
  parse_args-Given (suc fuel) [] o h = refl
  parse_args-Given (suc fuel) (given ∷ givens) o h =
      let marked = strbegins-append (codes "--") given.name in
      let new = apply_setting ttoi given.setting given.value o in
      let args = option_args 3 (written givens) in
      let step =
        setting_in-All (Step ttoi) settings given.name given.setting (Step-all ttoi) given.known in
      rw (marked, given.plain, add_option-Given given args o, parse_args)
        (parse_args-Given fuel givens new (omega (arith, h)))
      ∙ ap (λ o'. some (parsed o')) (step given.value (pairs givens) o)

  -- A command line of the program's name and any options of the table, each with an argument that does not
  -- begin with "--", is read: every path and text has the last value given for the option of its name,
  -- cut to its array, every number and flag that of the last value, the port offset the last one in
  -- its range, the profiles to connect are added in order, and the action is that of the last import or
  -- of the first profile in the list, if it comes later; what is not given stays. The loop ends.
  pub parse_argv-written :
      (program : Text) (givens : List Given) (o : GuiOptions)
      → parse_argv ttoi (program ∷ written givens) o
        ≡ some (parsed (expected ttoi (pairs givens) o))
  unfolding parse_argv
  parse_argv-written program givens o =
      parse_args-Given (suc (suc (length (written givens)))) givens o (omega arith)

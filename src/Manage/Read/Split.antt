-- ===== src/Manage/Read/Split.antt =====
-- manage.c: a line that is complete in the bytes read so far is the same line when more arrive.
use openvpn_gui.Base.{
  ℕ, ◌<◌, ◌≡◌, refl, ◌∙◌, Bool, true, false, Option, none, some, ◌++◌, Bool-cases, inl, inr, length,
}
use openvpn_gui.Base.Text.{
  after?-append_right, strbegins-append_left, strbegins-append_of_after?, length-after?, Text,
  strbegins, contains, before,
}
use openvpn_gui.Manage.Read.{prompt, cut_at, take_line}

cut_at-some :
    (asked : Bool) (c : ℕ) (line : Text) (found : Option Text) {b : Bool} {l rest : Text}
    → cut_at asked c line found ≡ some (b, l, rest)
    → (found ≡ some rest) × (asked ≡ b) × (before c line ≡ l)
cut_at-some asked c line none h = cc
cut_at-some asked c line (some r) h = (cc, cc, cc)

pub take_line-length :
    (line : Text) {asked : Bool} {l rest : Text}
    → take_line line ≡ some (asked, l, rest)
    → length rest < length line
unfolding take_line
take_line-length line h = elim (Bool-cases (strbegins line prompt)) [
  | inl yes_prompt ↦ length-after? b':' line _ (cut_at-some true b':' line _ (rw yes_prompt at h)).0
  | inr no_prompt ↦
      length-after? b'\n' line _ (cut_at-some false b'\n' line _ (rw no_prompt at h)).0
]

pub take_line-append :
    (line more : Text) {asked : Bool} {l rest : Text}
    → take_line line ≡ some (asked, l, rest)
    → take_line (line ++ more) ≡ some (asked, l, rest ++ more)
unfolding take_line
take_line-append line more h = elim (Bool-cases (strbegins line prompt)) [
  | inl begins ↦
      let (found, flag, cut) = cut_at-some true b':' line _ (rw begins at h) in
      let (found', cut') = after?-append_right b':' line more _ found in
      rw (strbegins-append_left line more prompt begins) (rw (found', cut', cut, flag) refl)
  | inr other ↦
      let (found, flag, cut) = cut_at-some false b'\n' line _ (rw other at h) in
      let (found', cut') = after?-append_right b'\n' line more _ found in
      let still =
        strbegins-append_of_after? b'\n' line more prompt _ (unfold contains in refl) found
        ∙ other in
      rw still (rw (found', cut', cut, flag) refl)
]

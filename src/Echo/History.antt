-- ===== src/Echo/History.antt =====
-- echo.c: the history of messages.
use mathlib.Core.Path.{subst}
use openvpn_gui.Base.{
  ℕ, ◌≡◌, refl, ap, ◌∙◌, sym, Bool, true, false, Option, none, some, List, [], ◌∷◌, if◌then◌else◌,
  Bool-cases, inl, inr, arith, All,
}
use openvpn_gui.Base.Text.{Text, streq, streq_iff, streq_refl}
use openvpn_gui.Conn.{Fingerprint, EchoMsg}
use openvpn_gui.Echo.{
  echo_msg_recall, echo_msg_history_add, set_timestamp, echo_msg_save, save_found,
}

-- No item of the history has this digest.
abbrev pub Fresh : Text → List Fingerprint → Type 0
Fresh digest hist = All (λ fp. streq fp.digest digest ≡ false) hist

-- The digests of the history differ from each other.
abbrev pub Distinct : List Fingerprint → Type 0
Distinct [] = Unit
Distinct (fp ∷ hist) = Fresh fp.digest hist × Distinct hist

recall-Fresh :
    (digest : Text) (hist : List Fingerprint)
    → echo_msg_recall digest hist ≡ none
    → Fresh digest hist
unfolding echo_msg_recall
recall-Fresh digest [] h = tt
recall-Fresh digest (fp ∷ hist) h = ground (arith, recall-Fresh digest hist)

Fresh-set_timestamp :
    (digest other : Text) (time : ℕ) (hist : List Fingerprint)
    → Fresh digest hist
    → Fresh digest (set_timestamp other time hist)
unfolding set_timestamp
Fresh-set_timestamp digest other time [] h = tt
Fresh-set_timestamp digest other time (fp ∷ hist) h =
    ground (arith, Fresh-set_timestamp digest other time hist h.1)

Distinct-set_timestamp :
    (digest : Text) (time : ℕ) (hist : List Fingerprint)
    → Distinct hist
    → Distinct (set_timestamp digest time hist)
unfolding set_timestamp
Distinct-set_timestamp digest time [] h = tt
Distinct-set_timestamp digest time (fp ∷ hist) h = ground (
  arith,
  Fresh-set_timestamp fp.digest digest time hist h.0,
  Distinct-set_timestamp digest time hist h.1,
)

save_found-Distinct :
    (memory : Bool) (msg : EchoMsg) (found : Option Fingerprint)
    → echo_msg_recall msg.fp.digest msg.history ≡ found
    → Distinct msg.history
    → Distinct (save_found memory msg found).history
unfolding echo_msg_history_add
save_found-Distinct true msg none e h = (recall-Fresh msg.fp.digest msg.history e, h)
save_found-Distinct false msg none e h = h
save_found-Distinct memory msg (some fp) e h =
    Distinct-set_timestamp msg.fp.digest msg.fp.timestamp msg.history h

-- Saving a message keeps the digests of the history distinct, whether memory lasts or not.
pub echo_msg_save-Distinct :
    (memory : Bool) (msg : EchoMsg)
    → Distinct msg.history
    → Distinct (echo_msg_save memory msg).history
unfolding echo_msg_save
echo_msg_save-Distinct memory msg h = save_found-Distinct memory msg _ refl h

abbrev pub timestamp_of : Option Fingerprint → Option ℕ
timestamp_of none = none
timestamp_of (some fp) = some fp.timestamp

-- The timestamp that the history remembers for a digest.
abbrev pub remembered : Text → List Fingerprint → Option ℕ
remembered digest hist = timestamp_of (echo_msg_recall digest hist)

remembered_same :
    (digest : Text) (time : ℕ) (hist : List Fingerprint) {found : Fingerprint}
    → echo_msg_recall digest hist ≡ some found
    → remembered digest (set_timestamp digest time hist) ≡ some time
unfolding echo_msg_recall set_timestamp
remembered_same digest time [] h = cc
remembered_same digest time (fp ∷ hist) {found} h = elim (Bool-cases (streq fp.digest digest)) [
  | inl same ↦ rw (same, same) refl
  | inr other ↦
      rw (other, other) (remembered_same digest time hist {found = found} (sym (rw other refl) ∙ h))
]

remembered_other :
    (digest d : Text) (time : ℕ) (hist : List Fingerprint)
    → streq digest d ≡ false
    → remembered d (set_timestamp digest time hist) ≡ remembered d hist
unfolding echo_msg_recall set_timestamp
remembered_other digest d time [] h = refl
remembered_other digest d time (fp ∷ hist) h = elim (Bool-cases (streq fp.digest digest)) [
  | inl same ↦
      let differs : streq fp.digest d ≡ false =
        ap (λ t. streq t d) ((streq_iff fp.digest digest).0 same) ∙ h in
      rw (same, differs) refl
  | inr other ↦ elim (Bool-cases (streq fp.digest d)) [
    | inl here ↦ rw (other, here) refl
    | inr there ↦ rw (other, there) (remembered_other digest d time hist h)
  ]
]

save_found-remembered :
    (msg : EchoMsg) (found : Option Fingerprint)
    → echo_msg_recall msg.fp.digest msg.history ≡ found
    → remembered msg.fp.digest (save_found true msg found).history ≡ some msg.fp.timestamp
unfolding echo_msg_history_add echo_msg_recall
save_found-remembered msg none e = rw (streq_refl msg.fp.digest) refl
save_found-remembered msg (some fp) e = remembered_same msg.fp.digest msg.fp.timestamp msg.history e

save_found-others :
    (memory : Bool) (msg : EchoMsg) (found : Option Fingerprint) (d : Text)
    → streq msg.fp.digest d ≡ false
    → remembered d (save_found memory msg found).history ≡ remembered d msg.history
unfolding echo_msg_history_add echo_msg_recall
save_found-others true msg none d h = rw h refl
save_found-others false msg none d h = refl
save_found-others memory msg (some fp) d h =
    remembered_other msg.fp.digest d msg.fp.timestamp msg.history h

-- After a message is saved, when memory lasts, the history gives its timestamp for its digest, and
-- for any other digest what it gave before.
pub echo_msg_recall-echo_msg_save :
    (msg : EchoMsg) (d : Text)
    → let hist = (echo_msg_save true msg).history in
      remembered d hist
      ≡ (if streq msg.fp.digest d then some msg.fp.timestamp else remembered d msg.history)
unfolding echo_msg_save
echo_msg_recall-echo_msg_save msg d = elim (Bool-cases (streq msg.fp.digest d)) [
  | inl same ↦ rw same (
      subst (λ t. remembered t (echo_msg_save true msg).history ≡ some msg.fp.timestamp)
        ((streq_iff msg.fp.digest d).0 same) (save_found-remembered msg _ refl))
  | inr other ↦ rw other (save_found-others true msg _ d other)
]

-- ===== src/Echo/Mute.antt =====
-- echo.c: a message that was shown is muted for the interval of the options.
use mathlib.Core.Option.{some-injective}
use openvpn_gui.Base.{
  ℕ, ◌+◌, ◌*◌, ◌^◌, ◌<◌, ◌≡◌, refl, ap, ◌∙◌, true, Option, none, some, arith, ltb,
}
use openvpn_gui.Base.Text.{streq_refl}
use openvpn_gui.Conn.{Fingerprint, EchoMsg}
use openvpn_gui.Echo.{echo_msg_save, echo_msg_repeated, mute_seconds, is_recent}
use openvpn_gui.Echo.History.{timestamp_of, echo_msg_recall-echo_msg_save}

is_recent_lem :
    (interval now time : ℕ) (found : Option Fingerprint)
    → timestamp_of found ≡ some time
    → is_recent interval now found ≡ ltb now (time + mute_seconds interval)
is_recent_lem interval now time none e = cc
is_recent_lem interval now time (some fp) e =
    ap (λ t. ltb now (t + mute_seconds interval)) (some-injective _ _ e)

-- A message that is shown and saved, when memory lasts, counts as repeated in a message of the
-- same digest at a later time exactly while less than the interval, in hours, has passed since,
-- if the interval has no more seconds than 32 bits hold.
pub echo_msg_repeated-echo_msg_save :
    (interval now : ℕ) (msg : EchoMsg)
    → interval * 3600 < 2 ^ 32
    → echo_msg_repeated interval (record (echo_msg_save true msg) {
      fp = record { digest = msg.fp.digest; timestamp = now };
    })
      ≡ ltb now (msg.fp.timestamp + interval * 3600)
unfolding echo_msg_repeated
echo_msg_repeated-echo_msg_save interval now msg fits =
    is_recent_lem interval now msg.fp.timestamp _
      (echo_msg_recall-echo_msg_save msg msg.fp.digest ∙ rw (streq_refl msg.fp.digest) refl)
    ∙ ap (λ s. ltb now (msg.fp.timestamp + s)) (omega arith)

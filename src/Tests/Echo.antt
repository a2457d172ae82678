-- ===== src/Tests/Echo.antt =====
-- The properties of echo.c, and of the decoding of its messages, at concrete inputs.
use openvpn_gui.Base.{ℕ, ◌+◌, ◌*◌, ◌≡◌, refl, Bool, true, ◌||◌, some, [], ◌∷◌, arith, ltb, ◌==◌}
use openvpn_gui.Base.Text.{codes, streq, contains}
use openvpn_gui.Conn.{EchoMsg, Fingerprint}
use openvpn_gui.Misc.{url_decode}
use openvpn_gui.Misc.UrlDecode.{encode, url_decode-encode}
use openvpn_gui.Config.{tokenize}
use openvpn_gui.Config.Words.{line_words, texts}
use openvpn_gui.Config.Refine.{tokenize-line_words}
use openvpn_gui.Config.Bounds.{Fits, tokenize-Fits}
use openvpn_gui.Echo.{echo_msg_save, echo_msg_repeated, echo_msg_recall}
use openvpn_gui.Echo.History.{remembered, echo_msg_recall-echo_msg_save}
use openvpn_gui.Echo.Mute.{echo_msg_repeated-echo_msg_save}

abbrev old : Fingerprint
old = record { digest = codes "d1"; timestamp = 5 }

abbrev message : EchoMsg
message = record {
  fp = record { digest = codes "d2"; timestamp = 9 };
  title = some (codes "News");
  text = some (codes "Hello");
  history = old ∷ record { digest = codes "d2"; timestamp = 3 } ∷ [];
}

echo_msg_recall-echo_msg_save_example :
    remembered (codes "d1") (echo_msg_save true message).history ≡ some 5
unfolding streq echo_msg_recall
echo_msg_recall-echo_msg_save_example = echo_msg_recall-echo_msg_save message (codes "d1")

echo_msg_repeated-echo_msg_save_example :
    echo_msg_repeated 24
      (record (echo_msg_save true message) { fp = record { digest = codes "d2"; timestamp = 100 } })
    ≡ ltb 100 (9 + 24 * 3600)
echo_msg_repeated-echo_msg_save_example =
    echo_msg_repeated-echo_msg_save 24 100 message (omega arith)

abbrev is_space_or_percent : ℕ → Bool
is_space_or_percent c = (c == b' ') || (c == b'%')

url_decode-encode_example :
    url_decode true (encode is_space_or_percent (codes "100% of")) ≡ some (codes "100% of")
unfolding contains
url_decode-encode_example =
    url_decode-encode is_space_or_percent (codes "100% of") refl
      (
        omega arith,
        (
          omega arith,
          (omega arith, (omega arith, (omega arith, (omega arith, (omega arith, tt))))),
        ),
      )
      refl

tokenize-line_words_example :
    texts (tokenize (codes "cert 'a b' # c")) ≡ line_words (codes "cert 'a b' # c")
tokenize-line_words_example = tokenize-line_words (codes "cert 'a b' # c")

tokenize-Fits_example : Fits 14 (tokenize (codes "cert 'a b' # c"))
tokenize-Fits_example = tokenize-Fits (codes "cert 'a b' # c")

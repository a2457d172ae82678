-- ===== src/Tests/Requests.antt =====
-- The properties of the service's messages and of the requests in openvpn.c at concrete inputs.
use openvpn_gui.Base.{
  ℕ, ◌≡◌, refl, ◌<◌, map, drop, Option, none, Bool, true, false, ◌||◌, some, List, [], ◌∷◌, ◌++◌,
  arith, length, ◌==◌,
}
use openvpn_gui.Base.Text.{Text, codes, skip_while}
use openvpn_gui.Openvpn.Service.{on_service, service_error, is_process_id}
use openvpn_gui.Openvpn.Service.Lines.{spaced, terminated, shown_line, with_out, on_service-lines}
use openvpn_gui.Tests.Manage.{conn}
use openvpn_gui.Tests.Openvpn.{gui}

abbrev white : ℕ → Bool
white c = (c == b' ') || ((c == 13) || (c == 10))

abbrev no_number : Text → Option ℕ
no_number s = none

abbrev zero_number : Text → Option ℕ
zero_number s = some 0

abbrev started : Text
started = codes "0x00000000\n\n a\nb c"

not_process_id : is_process_id white gui zero_number no_number 0 (drop 11 started) ≡ false
unfolding is_process_id
not_process_id = ground arith

some_shown : 0 < length (skip_while white (drop 11 started))
unfolding skip_while
some_shown = omega arith

on_service-lines_example :
    (lines : List Text) × (on_service white gui zero_number no_number (some started) conn
      ≡ some (
          service_error white gui 0
            (with_out white refl refl refl conn (map (shown_line white refl refl refl) lines))))
    × (terminated white refl refl refl lines
        ≡ spaced white refl refl refl (skip_while white (drop 11 started)) ++ b' ' ∷ [])
on_service-lines_example =
    on_service-lines white refl refl refl gui zero_number no_number started 0 conn refl
      not_process_id some_shown

abbrev wide : Text → Bool
wide s = true

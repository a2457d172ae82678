-- ===== src/Openvpn/Requests/NeedOk.antt =====
-- openvpn.c: the answer to a NEED-OK request.
use openvpn_gui.Base.{◌+◌, ◌≤◌, Bool, true, false, ◌∷◌, ◌++◌, arith, length, length-append}
use openvpn_gui.Base.Text.{Text, codes}
use openvpn_gui.Conn.{Conn}
use openvpn_gui.Openvpn.Requests.{needok_answer, needok_size}

-- An answer fits its buffer with its NUL.
pub needok_answer_fits : (ok : Bool) (id : Text) → length (needok_answer ok id) + 1 ≤ needok_size id
unfolding needok_answer
needok_answer_fits true id = omega (arith, length-append id (codes "' ok"))
needok_answer_fits false id = omega (arith, length-append id (codes "' cancel"))

-- The request for the id, with the tag `what`.
abbrev pub need_request : Text → Text → Text → Text
need_request id what text =
    codes "Need" ++ b' ' ∷ b'\'' ∷ (id ++ b'\'' ∷ b' ' ∷ (what ++ b' ' ∷ (codes "MSG:" ++ text)))

abbrev pub answers : Bool → Text → Text
answers true id = needok_answer true id ++ codes "\n"
answers false id = codes "auth-retry none\n" ++ (needok_answer false id ++ codes "\n")

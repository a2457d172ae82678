-- ===== src/Tests/Pkcs11.antt =====
-- The properties of pkcs11.c at concrete inputs.
use openvpn_gui.Base.{
  ℕ, ◌+◌, ◌-◌, ◌*◌, ◌%◌, ◌^◌, ◌≡◌, refl, true, false, ◌||◌, Option, none, some, [], ◌∷◌, ◌++◌,
  if◌then◌else◌, arith, length, drop, ltb, ◌==◌,
}
use openvpn_gui.Base.Text.{Text, codes, strbegins, contains, skip_while}
use openvpn_gui.Base.Tokens.{strtok, strstr, token_of, behind_token}
use openvpn_gui.Manage.Queue.{stream, IsQueue}
use openvpn_gui.Pkcs11.{Library, Pkcs11Entry, no_entry, read_fields, any_dangling}
use openvpn_gui.Pkcs11.Filled.{Answers, filling, asked, requests, pkcs11_list-filled}
use openvpn_gui.Tests.Manage.{conn}

-- Without spaces and quotes.
unfoldable bare : Text → Text
bare [] = []
bare (c ∷ s) = if (c == b' ') || (c == b'\'') then bare s else c ∷ bare s

unfoldable value : ℕ → Text → ℕ
value n [] = n
value n (c ∷ s) = if ltb c b'0' then n else value (10 * n + (c - b'0')) s

abbrev decoded : Text → Option Text
decoded s = if length s == 0 then none else some s

abbrev library : Library
library = record {
  str_trim = bare;
  strtoul = value 0;
  digits = λ n. (b'0' + n) ∷ [];
  decode_certificate = decoded;
}

abbrev message : Text
message = codes ">PKCS11ID-ENTRY:'0', ID:'a', BLOB:'b'"

abbrev entry : Pkcs11Entry
entry = record { id = some (codes "a"); cert = some (codes "b"); dangling = false }

message-Answers : Answers library 1 0 message entry
unfolding strtok skip_while contains token_of behind_token strbegins bare value read_fields strstr
message-Answers = record {
  rest = codes " ID:'a', BLOB:'b'";
  token = codes "'0'";
  begins = refl;
  cut = refl;
  number = refl;
  fields = refl;
}

conn-IsQueue : IsQueue conn.manage
conn-IsQueue = (omega arith, (omega arith, tt))

count_begins : strbegins (codes ">PKCS11ID-COUNT:1") (codes ">PKCS11ID-COUNT:") ≡ true
unfolding strbegins
count_begins = refl

count_value : value 0 (drop 16 (codes ">PKCS11ID-COUNT:1")) % 2 ^ 32 ≡ 1
unfolding value
count_value = refl

pkcs11_list-filled_example :
    let s = filling library (codes ">PKCS11ID-COUNT:1") ((message, entry) ∷ []) conn in
    (s.1 ≡ asked library 1 (entry ∷ []) true)
    × (stream s.0.manage
        ≡ stream conn.manage ++ (codes "pkcs11-id-count\n" ++ requests library 1 0))
pkcs11_list-filled_example =
    pkcs11_list-filled library conn (codes ">PKCS11ID-COUNT:1") ((message, entry) ∷ []) conn-IsQueue
      (omega arith) count_begins count_value (message-Answers, tt)

-- A certificate that cannot be decoded leaves the entry with members that are freed again.
undecoded : Pkcs11Entry
undecoded = (read_fields library true 99 (codes "ID:'a', BLOB:''") no_entry).0

freed_twice : any_dangling (undecoded ∷ []) ≡ true
unfolding undecoded any_dangling read_fields strtok skip_while contains token_of behind_token
    strbegins bare strstr
freed_twice = refl

-- ===== src/Tests/Import.antt =====
-- The properties of as.c at concrete inputs.
use openvpn_gui.Base.{◌≡◌, refl, Bool, true, false, Option, some, [], ◌∷◌, if◌then◌else◌, arith}
use openvpn_gui.Base.Text.{Text, codes, streq, strbegins, contains, skip_while}
use openvpn_gui.Base.Tokens.{strtok, strstr, token_of, behind_token}
use openvpn_gui.Import.{
  overflow, content, extract_filename_from_header, sanitize_filename, find_filename, filename_of,
  widened_name, replace_special, replace_reserved, overflow, download_profile_content,
}
use openvpn_gui.Import.Clean.{Clean}
use openvpn_gui.Import.Chunks.{crosses, joined, download_profile_content-crosses}

abbrev same_text : Text → Text
same_text s = s

abbrev widened : Bool → Text → Option Text
widened utf8 s = some s

-- A part behind the one with the name hides it.
hidden_name :
    extract_filename_from_header same_text same_text widened (some (codes "filename=a;b")) [] 260
    ≡ some (false, [])
unfolding extract_filename_from_header find_filename strtok skip_while contains strstr token_of
    strbegins behind_token filename_of widened_name sanitize_filename replace_special streq
    replace_reserved
hidden_name = refl

special_kept : sanitize_filename 260 (codes "CON.ovpn") ≡ codes "CON.ovpn"
unfolding sanitize_filename replace_special streq replace_reserved contains
special_kept = refl

download_profile_content-crosses_example :
    download_profile_content true (some (codes "ab") ∷ some (codes "c") ∷ some [] ∷ []) ≡ (
      if crosses 0 (codes "ab" ∷ codes "c" ∷ [])
      then overflow
      else content (joined (codes "ab" ∷ codes "c" ∷ [])))
download_profile_content-crosses_example =
    download_profile_content-crosses (codes "ab" ∷ codes "c" ∷ []) []
      (omega arith, (omega arith, tt))

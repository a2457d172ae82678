-- ===== src/Openvpn/Service.antt =====
-- openvpn.c: the messages of the service and of the process. `iswspace`, the numbers that `swscanf` reads
-- and the exit code of the process are arguments.
pub mod Lines
use mathlib.Core.List.{append-nil, append_assoc, map-append}
use mathlib.Core.Option.{some-injective}
use mathlib.Core.Path.{subst}
use openvpn_gui.Base.{
  ℕ, zero, suc, ◌+◌, ◌-◌, ◌*◌, ◌/◌, ◌%◌, ◌^◌, ◌≤◌, ◌<◌, ◌≡◌, ◌≢◌, ◌↔◌, refl, ap, ◌∙◌, sym, Bool,
  true, false, not, ◌&&◌, ◌||◌, Option, none, some, List, [], ◌∷◌, ◌++◌, map, if◌then◌else◌,
  Bool-cases, Option-cases, Ordering-cases, Ordering, ◌⊎◌, inl, inr, arith, length, length-append,
  length-concat, drop, take, replicate, drop-append, leb, ltb, leb→le, ltb→lt, lt→ltb, ◌==◌,
  ==_refl, ==_iff, All, All-append,
}
use openvpn_gui.Base.Text.{
  Text, codes, streq, strbegins, contains, before, after?, skip_while, text_at, streq_iff,
  streq_refl, strbegins-append, split_at, contains-before, before-append, after?-append,
  before_of_not-contains, after?_of_not-contains, not-contains_of_after?,
}
use openvpn_gui.Base.Tokens.{strstr, found}
use openvpn_gui.Conn.{Conn, emit, status_log}
use openvpn_gui.Openvpn.{Gui}
use openvpn_gui.Openvpn.Exit.{on_stop}

-- A line end becomes a space.
abbrev pub unbroken : ℕ → ℕ
unbroken c = if (c == 13) || (c == 10) then b' ' else c

-- What stands before and behind the last space, when one more character follows.
abbrev pub grown : Option (Text × Text) → ℕ → Option (Text × Text)
grown none c = none
grown (some (before, behind)) c = some (before, behind ++ c ∷ [])

abbrev pub is_cut : Option (Text × Text) → Bool
is_cut none = false
is_cut (some cut) = true

-- The line, and what follows it.
abbrev pub divided : Option (Text × Text) → Text → Text → Text × Option Text
divided none rest seen = (seen ++ rest, none)
divided (some (before, behind)) rest seen = (before, some (behind ++ rest))

module _ (iswspace : ℕ → Bool) where
  -- The loop of `WrapLine` behind `i` characters, which are `seen`; `next` is the last space in them.
  unfoldable pub wrap_from : ℕ → Option (Text × Text) → Text → Text → Text × Option Text
  wrap_from i next seen [] = (seen, none)
  wrap_from i next seen (c ∷ line) =
      let d = unbroken c in
      let last = if iswspace d then some (seen, []) else grown next d in
      let on = wrap_from (suc i) last (seen ++ d ∷ []) line in
      if is_cut next && ltb 80 i then divided next (d ∷ line) seen else on

  -- `WrapLine`.
  unfoldable pub wrap_line : Text → Text × Option Text
  wrap_line line = wrap_from 0 none [] line

  -- The loop of `OnService` over the lines, `none` where it does not end in so many rounds.
  unfoldable pub service_lines : ℕ → Text → Option (List Text)
  service_lines zero p = none
  service_lines (suc fuel) [] = some []
  service_lines (suc fuel) (c ∷ p) =
      let (line, next) = wrap_line (c ∷ p) in
      elim next [
        | none ↦ some (line ∷ [])
        | some rest ↦ elim (service_lines fuel rest) [
          | none ↦ none
          | some lines ↦ some (line ∷ lines)
        ]
      ]

  abbrev pub log_service : Text → Conn → Conn
  log_service line c = emit (status_log (codes "IService> " ++ line)) c

  unfoldable pub log_lines : List Text → Conn → Conn
  log_lines [] c = c
  log_lines (line ∷ lines) c = log_lines lines (log_service line c)

  -- An error of the service before the management interface is connected.
  unfoldable pub service_error : Gui → ℕ → Conn → Conn
  service_error gui err c =
      if err == 0
      then c
      else if err == 536870913
      then on_stop gui (log_service (codes "OpenVPN not started due to previous errors") c)
      else if err == 536870912
      then on_stop gui (log_service (codes "Check the log file for details") c)
      else on_stop gui c

  module _ (gui : Gui) (scan_err : Text → Option ℕ) (scan_pid : Text → Option ℕ) where
    -- Whether the message is the process id of a started daemon.
    unfoldable pub is_process_id : ℕ → Text → Bool
    is_process_id err p =
        ((err == 0) && found (strstr p (codes "\nProcess ID")))
        && elim (scan_pid p) [ none ↦ false | some pid ↦ not (pid == 0) ]

    unfoldable pub service_message : ℕ → Text → Conn → Option Conn
    service_message err p c =
        let shown = skip_while iswspace p in
        if is_process_id err p then some c else elim (service_lines (suc (length shown)) shown) [
          | none ↦ none
          | some lines ↦ some (service_error gui err (log_lines lines c))
        ]

    -- `OnService` for the message that was read, NULL where it cannot be copied.
    unfoldable pub on_service : Option Text → Conn → Option Conn
    on_service none c = some c
    on_service (some buf) c = elim (scan_err buf) [
      | none ↦ some c
      | some err ↦ service_message err (drop 11 buf) c
    ]

-- `OnProcess` for the exit code, `none` where the process runs.
unfoldable pub on_process : Gui → (ℕ → Text) → Option ℕ → Conn → Conn
on_process gui digits none c = c
on_process gui digits (some err) c = on_stop gui (
    emit
      (status_log (
        codes "OpenVPN GUI> "
        ++ take 255 (
            codes "OpenVPN terminated with exit code "
            ++ (digits err ++ codes ". See the log file for details"))))
      c)

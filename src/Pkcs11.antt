-- ===== src/Pkcs11.antt =====
-- pkcs11.c: the list of certificates that is asked from the daemon. `StrTrimA`, `strtoul`, the decimal
-- digits of `snprintf` and the certificate that Windows makes of base64 text are the record `Library`;
-- `memory` is false where an allocation fails. The status log shows the messages.
pub mod Filled
use mathlib.Core.List.{append-nil, append_assoc, map-append}
use mathlib.Core.Option.{some-injective}
use mathlib.Core.Path.{subst}
use openvpn_gui.Base.{
  ℕ, zero, suc, ◌+◌, ◌-◌, ◌*◌, ◌/◌, ◌%◌, ◌^◌, ◌≤◌, ◌<◌, ◌≡◌, ◌≢◌, ◌↔◌, refl, ap, ◌∙◌, sym, Bool,
  true, false, not, ◌&&◌, ◌||◌, Option, none, some, List, [], ◌∷◌, ◌++◌, map, if◌then◌else◌,
  Bool-cases, Option-cases, Ordering-cases, Ordering, ◌⊎◌, inl, inr, arith, length, length-append,
  length-concat, drop, take, replicate, drop-append, leb, ltb, leb→le, ltb→lt, lt→ltb, ◌==◌,
  ==_refl, ==_iff, All, All-append,
}
use openvpn_gui.Base.Text.{
  Text, codes, streq, strbegins, contains, before, after?, skip_while, text_at, streq_iff,
  streq_refl, strbegins-append, split_at, contains-before, before-append, after?-append,
  before_of_not-contains, after?_of_not-contains, not-contains_of_after?,
}
use openvpn_gui.Base.Tokens.{strtok, strstr}
use openvpn_gui.Conn.{
  Conn, Manage, Handler, CmdType, regular, pkcs11_count_recv_fn, pkcs11_entry_recv_fn, emit,
  status_log,
}
use openvpn_gui.Manage.{management_command}

pub record Library : Type 0 where
  pub str_trim : Text → Text
  pub strtoul : Text → ℕ
  pub digits : ℕ → Text
  pub decode_certificate : Text → Option Text

-- `pkcs11_entry`; `dangling` where its members were freed and are still pointed to.
pub record Pkcs11Entry : Type 0 where
  pub id : Option Text
  pub cert : Option Text
  pub dangling : Bool

abbrev pub no_entry : Pkcs11Entry
no_entry = record { id = none; cert = none; dangling = false }

-- `pkcs11_list`, with a field for each bit of `state`; `pe` is `none` for NULL.
pub record Pkcs11List : Type 0 where
  pub count : ℕ
  pub selected : ℕ
  pub get_count : Bool
  pub get_entry : Bool
  pub filled : Bool
  pub is_selected : Bool
  pub pe : Option (List Pkcs11Entry)

abbrev pub cleared_list : Pkcs11List
cleared_list = record {
  count = 0;
  selected = 0;
  get_count = false;
  get_entry = false;
  filled = false;
  is_selected = false;
  pe = none;
}

unfoldable pub any_dangling : List Pkcs11Entry → Bool
any_dangling [] = false
any_dangling (entry ∷ entries) = entry.dangling || any_dangling entries

-- `pkcs11_list_clear`, and whether it frees something twice.
unfoldable pub pkcs11_list_clear : Pkcs11List → Pkcs11List × Bool
pkcs11_list_clear l =
    (cleared_list, elim l.pe [ none ↦ false | some entries ↦ any_dangling entries ])

-- `pkcs11_list_alloc`.
unfoldable pub pkcs11_list_alloc : Bool → Pkcs11List → Pkcs11List
pkcs11_list_alloc memory l = elim l.pe [
  | some entries ↦ l
  | none ↦
      if ltb 0 l.count && memory then record l { pe = some (replicate l.count no_entry) } else l
]

unfoldable pub entry_at : List Pkcs11Entry → ℕ → Option Pkcs11Entry
entry_at [] i = none
entry_at (entry ∷ entries) zero = some entry
entry_at (entry ∷ entries) (suc i) = entry_at entries i

unfoldable pub set_entry : Pkcs11Entry → ℕ → List Pkcs11Entry → List Pkcs11Entry
set_entry new i [] = []
set_entry new zero (entry ∷ entries) = new ∷ entries
set_entry new (suc i) (entry ∷ entries) = entry ∷ set_entry new i entries

module _ (w : Library) (memory : Bool) where
  -- The loop over the fields of an entry, and whether it came to their end. Each round takes at least
  -- one character, so that one round more than there are is enough.
  unfoldable pub read_fields : ℕ → Text → Pkcs11Entry → Pkcs11Entry × Bool
  read_fields zero p pe = (pe, true)
  read_fields (suc fuel) p pe = elim (strtok (codes ",") p) [
    | none ↦ (pe, true)
    | some (token, rest) ↦ elim (strstr token (codes "ID:")) [
      | some tmp ↦
          let id = if memory then some (w.str_trim (drop 3 tmp)) else none in
          read_fields fuel rest (record pe { id = id })
      | none ↦ elim (strstr token (codes "BLOB:")) [
        | none ↦ read_fields fuel rest pe
        | some tmp ↦ elim (w.decode_certificate (w.str_trim (drop 5 tmp))) [
          | none ↦ (record pe { dangling = true }, false)
          | some cert ↦ read_fields fuel rest (record pe { cert = some cert })
        ]
      ]
    ]
  ]

  -- The entry of the array, which a message for a number below the count refers to.
  unfoldable pub parse_at :
      Text → ℕ → List Pkcs11Entry → Option Pkcs11Entry → Option ℕ × List Pkcs11Entry
  parse_at rest i entries none = (none, entries)
  parse_at rest i entries (some pe) =
      let (new, whole) = read_fields (suc (length rest)) rest pe in
      (if whole then some i else none, set_entry new i entries)

  -- `pkcs11_entry_parse`: the number of the entry, or `none` for -1. Without an array there is no
  -- request for an entry.
  unfoldable pub parse_token :
      Option (Text × Text) → ℕ → List Pkcs11Entry → Option ℕ × List Pkcs11Entry
  parse_token none count entries = (none, entries)
  parse_token (some (token, rest)) count entries =
      let i = w.strtoul (w.str_trim token) % 2 ^ 32 in
      if leb count i then (none, entries) else parse_at rest i entries (entry_at entries i)

  unfoldable pub pkcs11_entry_parse : Text → Pkcs11List → Option ℕ × Pkcs11List
  pkcs11_entry_parse data_text l = elim l.pe [
    | none ↦ (none, l)
    | some entries ↦
        let (index, new) = parse_token (strtok (codes ",") data_text) l.count entries in
        if memory then (index, record l { pe = some new }) else (none, l)
  ]

  abbrev pub log_line : Text → Conn → Conn
  log_line text c = emit (status_log (codes "GUI> " ++ text)) c

  -- `pkcs11_count_recv`; `msg` is `none` for NULL.
  unfoldable pub received_count : Option Text → Option ℕ
  received_count none = none
  received_count (some msg) =
      if strbegins msg (codes ">PKCS11ID-COUNT:")
      then some (w.strtoul (drop 16 msg) % 2 ^ 32)
      else none

  abbrev pub mark_empty : Pkcs11List → Pkcs11List
  mark_empty l = if l.count == 0 then record l { filled = true } else l

  unfoldable pub pkcs11_count_recv : Option Text → Conn × Pkcs11List → Conn × Pkcs11List
  pkcs11_count_recv msg (c, l) = elim (received_count msg) [
    | some count ↦ (c, mark_empty (record l { count = count }))
    | none ↦ (
      log_line (codes "Invalid pkcs11-id-count ignored") c,
      mark_empty (record l { get_count = false }),
    )
  ]

  unfoldable pub received_entry : Option Text → Pkcs11List → Option ℕ × Pkcs11List
  received_entry none l = (none, l)
  received_entry (some msg) l =
      if strbegins msg (codes ">PKCS11ID-ENTRY:")
      then pkcs11_entry_parse (drop 16 msg) l
      else (none, l)

  -- `pkcs11_entry_recv`.
  unfoldable pub entry_received : Conn → Option ℕ × Pkcs11List → Conn × Pkcs11List
  entry_received c (none, l) = (log_line (codes "Invalid pkcs11 entry ignored.") c, l)
  entry_received c (some index, l) =
      (c, if suc index == l.count then record l { filled = true } else l)

  unfoldable pub pkcs11_entry_recv : Option Text → Conn × Pkcs11List → Conn × Pkcs11List
  pkcs11_entry_recv msg (c, l) = entry_received c (received_entry msg l)

  abbrev pub give_command : Text → Option Handler → Conn → Conn
  give_command text handler c = record c {
    manage = (management_command memory c.manage text handler regular).0;
  }

  -- The commands for the entries from the number `i` on.
  unfoldable pub get_entries : ℕ → ℕ → Conn → Conn
  get_entries zero i c = c
  get_entries (suc n) i c =
      get_entries n (suc i) (
        give_command (take 24 (codes "pkcs11-id-get " ++ w.digits i)) (some pkcs11_entry_recv_fn) c)

  -- `pkcs11_list_update`.
  unfoldable pub ask_entries : Conn → Pkcs11List → Conn × Pkcs11List
  ask_entries c l = elim l.pe [
    | none ↦ (
      log_line (codes "Out of memory for pkcs11 entry list") c,
      record l { count = 0; filled = true },
    )
    | some entries ↦ (get_entries l.count 0 c, record l { get_entry = true })
  ]

  unfoldable pub pkcs11_list_update : Conn × Pkcs11List → Conn × Pkcs11List
  pkcs11_list_update (c, l) =
      if not l.get_count
      then (
        give_command (codes "pkcs11-id-count") (some pkcs11_count_recv_fn) c,
        record l { get_count = true },
      )
      else if ltb 0 l.count && not l.get_entry
      then ask_entries c (pkcs11_list_alloc memory l)
      else (c, l)

  -- `pkcs11_id_send`.
  unfoldable pub pkcs11_id_send : Option Text → Conn → Conn
  pkcs11_id_send id c =
      let sent : Text = elim id [ none ↦ [] | some text ↦ text ] in
      if memory
      then give_command (codes "needstr 'pkcs11-id-request' '" ++ sent ++ codes "'") none c
      else give_command (codes "needstr 'pkcs11-id-request' ''") none
          (log_line (codes "Out of memory in pkcs11_id_send") c)

  -- `OnPkcs11`, when the dialog leaves the list `chosen` behind and ends with OK or not.
  unfoldable pub on_pkcs11 : Pkcs11List → Bool → Conn → Conn
  on_pkcs11 chosen ok c =
      let id : Option Text = elim chosen.pe [
        | none ↦ none
        | some entries ↦ elim (entry_at entries chosen.selected) [ none ↦ none | some pe ↦ pe.id ]
      ] in
      if (ok && chosen.is_selected) && ltb chosen.selected chosen.count
      then pkcs11_id_send id c
      else c

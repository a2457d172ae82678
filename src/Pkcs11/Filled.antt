-- ===== src/Pkcs11/Filled.antt =====
-- pkcs11.c: the list is filled by the answers of the daemon.
use mathlib.Core.List.{append-nil, append_assoc}
use mathlib.Core.Path.{subst}
use openvpn_gui.Base.{
  ℕ, zero, suc, ◌+◌, ◌%◌, ◌^◌, ◌<◌, ◌≡◌, refl, ap, ◌∙◌, sym, Bool, true, false, Option, some, List,
  [], ◌∷◌, ◌++◌, Bool-cases, inl, inr, arith, length, length-concat, drop, take, replicate, leb,
  ltb, ◌==◌,
}
use openvpn_gui.Base.Text.{Text, codes, strbegins}
use openvpn_gui.Conn.{Conn, Handler, regular, pkcs11_count_recv_fn, pkcs11_entry_recv_fn}
use openvpn_gui.Manage.Queue.{stream, IsQueue, management_command-stream}
use openvpn_gui.Pkcs11.{
  Library, Pkcs11Entry, no_entry, Pkcs11List, cleared_list, pkcs11_list_alloc, entry_at, set_entry,
  read_fields, parse_at, parse_token, pkcs11_entry_parse, received_count, pkcs11_count_recv,
  received_entry, entry_received, pkcs11_entry_recv, give_command, get_entries, ask_entries,
  pkcs11_list_update,
}
use openvpn_gui.Base.Tokens.{strtok}

module _ (w : Library) where
  -- The message is an entry with this number below the count, whose fields can all be read.
  pub record Answers (count i : ℕ) (msg : Text) (entry : Pkcs11Entry) : Type 0 where
    pub rest : Text
    pub token : Text
    pub begins : strbegins msg (codes ">PKCS11ID-ENTRY:") ≡ true
    pub cut : strtok (codes ",") (drop 16 msg) ≡ some (token, rest)
    pub number : w.strtoul (w.str_trim token) % 2 ^ 32 ≡ i
    pub fields : read_fields w true (suc (length rest)) rest no_entry ≡ (entry, true)

  -- The messages answer for the entries from the number `i` on, one after the other.
  abbrev pub AllAnswer : ℕ → ℕ → List (Text × Pkcs11Entry) → Type 0
  AllAnswer count i [] = Unit
  AllAnswer count i ((msg, entry) ∷ answers) =
      Answers count i msg entry × AllAnswer count (suc i) answers

  unfoldable pub receive_all : List (Text × Pkcs11Entry) → Conn × Pkcs11List → Conn × Pkcs11List
  receive_all [] s = s
  receive_all ((msg, entry) ∷ answers) s =
      receive_all answers (pkcs11_entry_recv w true (some msg) s)

  abbrev pub entries_of : List (Text × Pkcs11Entry) → List Pkcs11Entry
  entries_of [] = []
  entries_of ((msg, entry) ∷ answers) = entry ∷ entries_of answers

  entry_at-append :
      (done : List Pkcs11Entry) (e : Pkcs11Entry) (todo : List Pkcs11Entry)
      → entry_at (done ++ e ∷ todo) (length done) ≡ some e
  unfolding entry_at
  entry_at-append [] e todo = refl
  entry_at-append (d ∷ done) e todo = entry_at-append done e todo

  set_entry-append :
      (done : List Pkcs11Entry) (e new : Pkcs11Entry) (todo : List Pkcs11Entry)
      → set_entry new (length done) (done ++ e ∷ todo) ≡ done ++ new ∷ todo
  unfolding set_entry
  set_entry-append [] e new todo = refl
  set_entry-append (d ∷ done) e new todo = ap (◌∷◌ d) (set_entry-append done e new todo)

  abbrev pub asked : ℕ → List Pkcs11Entry → Bool → Pkcs11List
  asked count entries filled = record cleared_list {
    count = count;
    get_count = true;
    get_entry = true;
    filled = filled;
    pe = some entries;
  }

  recv-Answers :
      (c : Conn) (count : ℕ) (done : List Pkcs11Entry) (msg : Text) (entry : Pkcs11Entry) (n : ℕ)
      → count ≡ length done + suc n
      → Answers count (length done) msg entry
      → pkcs11_entry_recv w true
          (some msg)
          (c, asked count (done ++ replicate (suc n) no_entry) false)
        ≡ (c, asked count (done ++ entry ∷ replicate n no_entry) (n == 0))
  unfolding pkcs11_entry_recv received_entry pkcs11_entry_parse parse_token parse_at entry_received
  recv-Answers c count done msg entry n e a =
      let todo = replicate n no_entry in
      let below : leb count (length done) ≡ false = ground (arith, e) in
      let last : (suc (length done) == count) ≡ (n == 0) = ground (arith, e) in
      rw
        (
          a.begins,
          a.cut,
          a.number,
          below,
          entry_at-append done no_entry todo,
          a.fields,
          set_entry-append done no_entry entry todo,
          last,
        )
        (elim (Bool-cases (n == 0)) [ inl z ↦ rw z refl | inr z ↦ rw z refl ])

  receive_all-AllAnswer :
      (c : Conn) (count : ℕ) (done : List Pkcs11Entry) (answers : List (Text × Pkcs11Entry))
      → count ≡ length done + length answers
      → AllAnswer count (length done) answers
      → receive_all answers
          (c, asked count (done ++ replicate (length answers) no_entry) (length answers == 0))
        ≡ (c, asked count (done ++ entries_of answers) true)
  unfolding receive_all
  receive_all-AllAnswer c count done [] e a = refl
  receive_all-AllAnswer c count done ((msg, entry) ∷ answers) e a =
      let more = length-concat done entry in
      let first_step =
        recv-Answers c count done msg entry (length answers) (omega (arith, e)) a.0 in
      let ih =
        receive_all-AllAnswer c count (done ++ entry ∷ []) answers (omega (arith, e, more))
          (subst (λ n. AllAnswer count n answers) (sym more) a.1) in
      let waits : (suc (length answers) == 0) ≡ false = ground arith in
      let todo = replicate (length answers) no_entry in
      let flag = length answers == 0 in
      let start : receive_all answers (c, asked count (done ++ entry ∷ todo) flag)
          ≡ (c, asked count (done ++ entry ∷ entries_of answers) true) =
        rw
          (
            sym (append_assoc done (entry ∷ []) todo),
            sym (append_assoc done (entry ∷ []) (entries_of answers)),
          )
          ih in
      rw waits (ap (receive_all answers) first_step ∙ start)

  -- The requests for the entries from the number `i` on.
  abbrev pub requests : ℕ → ℕ → Text
  requests zero i = []
  requests (suc n) i =
      (take 24 (codes "pkcs11-id-get " ++ w.digits i) ++ b'\n' ∷ []) ++ requests n (suc i)

  give_command-stream :
      (text : Text) (handler : Option Handler) (c : Conn)
      → IsQueue c.manage
      → IsQueue (give_command w true text handler c).manage
        × (stream (give_command w true text handler c).manage
            ≡ stream c.manage ++ text ++ b'\n' ∷ [])
  give_command-stream text handler c h =
      let (queue, whole, done) = management_command-stream true c.manage text handler regular h in
      (queue, whole)

  get_entries-stream :
      (n i : ℕ) (c : Conn)
      → IsQueue c.manage
      → stream (get_entries w true n i c).manage ≡ stream c.manage ++ requests n i
  unfolding get_entries
  get_entries-stream zero i c h = sym (append-nil (stream c.manage))
  get_entries-stream (suc n) i c h =
      let text = take 24 (codes "pkcs11-id-get " ++ w.digits i) in
      let next = give_command w true text (some pkcs11_entry_recv_fn) c in
      let (queue, whole) = give_command-stream text (some pkcs11_entry_recv_fn) c h in
      get_entries-stream n (suc i) next queue
      ∙ ap (λ t. t ++ requests n (suc i)) whole
      ∙ append_assoc (stream c.manage ++ text) (b'\n' ∷ []) (requests n (suc i))
      ∙ append_assoc (stream c.manage) text (b'\n' ∷ requests n (suc i))
      ∙ ap (λ t. stream c.manage ++ t) (sym (append_assoc text (b'\n' ∷ []) (requests n (suc i))))

  -- The answers of the daemon to the requests of `pkcs11_list_update`.
  abbrev pub filling : Text → List (Text × Pkcs11Entry) → Conn → Conn × Pkcs11List
  filling count_msg answers c =
      let counted =
        pkcs11_count_recv w true (some count_msg) (pkcs11_list_update w true (c, cleared_list)) in
      receive_all answers (pkcs11_list_update w true counted)

  -- From a cleared list, while memory lasts: pkcs11_list_update asks for the count, and when the daemon
  -- gives one that is not 0, asks for that many entries, numbered from 0; when the daemon answers each of
  -- them in order with an entry that can be read, the list is filled with exactly these entries, and
  -- nothing else was given to the management interface.
  pub pkcs11_list-filled :
      (c : Conn) (count_msg : Text) (answers : List (Text × Pkcs11Entry))
      → IsQueue c.manage
      → 0 < length answers
      → strbegins count_msg (codes ">PKCS11ID-COUNT:") ≡ true
      → w.strtoul (drop 16 count_msg) % 2 ^ 32 ≡ length answers
      → AllAnswer (length answers) 0 answers
      → ((filling count_msg answers c).1 ≡ asked (length answers) (entries_of answers) true)
        × (stream (filling count_msg answers c).0.manage
            ≡ stream c.manage ++ (codes "pkcs11-id-count\n" ++ requests (length answers) 0))
  unfolding pkcs11_list_update pkcs11_count_recv received_count ask_entries pkcs11_list_alloc
  pkcs11_list-filled c count_msg answers h some_answers b n a =
      let count = length answers in
      let c1 = give_command w true (codes "pkcs11-id-count") (some pkcs11_count_recv_fn) c in
      let c2 = get_entries w true count 0 c1 in
      let waits : (count == 0) ≡ false = ground arith in
      let any : ltb 0 count ≡ true = ground arith in
      let announced : received_count w true (some count_msg) ≡ some count = rw (b, n) refl in
      let known = record cleared_list { count = count; get_count = true } in
      let counted : pkcs11_count_recv w true (some count_msg)
            (pkcs11_list_update w true (c, cleared_list))
          ≡ (c1, known) =
        rw (announced, waits, pkcs11_count_recv) refl in
      let asking : pkcs11_list_update w true (c1, known)
          ≡ (c2, asked count (replicate count no_entry) false) =
        rw any refl in
      let requested = ap (pkcs11_list_update w true) counted ∙ asking in
      let received = receive_all-AllAnswer c2 count [] answers (omega arith) a in
      let start : receive_all answers (c2, asked count (replicate count no_entry) false)
          ≡ (c2, asked count (entries_of answers) true) =
        subst
          (λ f.
            receive_all answers (c2, asked count (replicate count no_entry) f)
            ≡ (c2, asked count (entries_of answers) true))
          waits received in
      let result = ap (receive_all answers) requested ∙ start in
      let (queue, whole) =
        give_command-stream (codes "pkcs11-id-count") (some pkcs11_count_recv_fn) c h in
      (
        ap (λ s. s.1) result,
        ap (λ s. stream s.0.manage) result
            ∙ get_entries-stream count 0 c1 queue
            ∙ ap (λ t. t ++ requests count 0) whole
            ∙ ap (λ t. t ++ requests count 0)
                (append_assoc (stream c.manage) (codes "pkcs11-id-count") (b'\n' ∷ []))
            ∙ append_assoc (stream c.manage) (codes "pkcs11-id-count\n") (requests count 0),
      )

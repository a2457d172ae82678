-- ===== src/Openvpn/Service/Lines.antt =====
-- openvpn.c: the lines that OnService writes hold the text of its message.
use mathlib.Core.List.{append-nil, append_assoc, map-append}
use mathlib.Core.Path.{subst}
use openvpn_gui.Base.{
  ℕ, zero, suc, ◌<◌, ◌≡◌, refl, ap, ◌∙◌, sym, Bool, true, Option, none, some, List, [], ◌∷◌, ◌++◌,
  map, drop, false, if◌then◌else◌, Bool-cases, Option-cases, inl, inr, arith, length, length-append,
  length-map, ltb, ◌==◌, ==_iff,
}
use openvpn_gui.Base.Text.{Text, codes, skip_while}
use openvpn_gui.Conn.{Conn, Output, status_log}
use openvpn_gui.Openvpn.{Gui}
use openvpn_gui.Openvpn.Service.{
  unbroken, grown, wrap_from, wrap_line, service_lines, log_lines, log_service, service_error,
  service_message, is_process_id, on_service,
}

module _ (iswspace : ℕ → Bool) (space : iswspace b' ' ≡ true) (cr : iswspace 13 ≡ true)
    (lf : iswspace 10 ≡ true) where
  -- Every space is written alike.
  abbrev pub spaced : Text → Text
  spaced s = map (λ c. if iswspace c then b' ' else c) s

  abbrev pub spaced_char : ℕ → ℕ
  spaced_char c = if iswspace c then b' ' else c

  spaced_char-unbroken : (c : ℕ) → spaced_char (unbroken c) ≡ spaced_char c
  spaced_char-unbroken c = elim (Bool-cases (c == 13)) [
    | inl e ↦
        subst (λ n. spaced_char (unbroken n) ≡ spaced_char n) (sym ((==_iff c 13).0 e))
          (rw (space, cr) refl)
    | inr e ↦ elim (Bool-cases (c == 10)) [
      | inl k ↦
          subst (λ n. spaced_char (unbroken n) ≡ spaced_char n) (sym ((==_iff c 10).0 k))
            (rw (space, lf) refl)
      | inr k ↦ rw (e, k) refl
    ]
  ]

  spaced-append : (a b : Text) → spaced (a ++ b) ≡ spaced a ++ spaced b
  spaced-append a b = map-append spaced_char a b

  -- The last space is where it is remembered.
  abbrev Cut : Option (Text × Text) → Text → Type 0
  Cut none seen = Unit
  Cut (some (front, back)) seen = spaced front ++ (b' ' ∷ spaced back) ≡ spaced seen

  abbrev pub WrappedBy : Option Text → Text → Text → Type 0
  WrappedBy none line whole = spaced line ≡ spaced whole
  WrappedBy (some rest) line whole =
      (spaced line ++ (b' ' ∷ spaced rest) ≡ spaced whole)
      × (0 < length rest)
      × (length rest < length whole)

  abbrev pub Wrapped : Text × Option Text → Text → Type 0
  Wrapped r whole = WrappedBy r.1 r.0 whole

  Wrapped-same :
      (r : Text × Option Text) (v w : Text) → spaced v ≡ spaced w → Wrapped r v → Wrapped r w
  Wrapped-same (line, none) v w e h = h ∙ e
  Wrapped-same (line, some rest) v w e (h, some_rest, shorter) =
      let long = ap length e in
      (
        h ∙ e,
        some_rest,
        omega (arith, shorter, long, length-map spaced_char v, length-map spaced_char w),
      )

  Cut-more :
      (next : Option (Text × Text)) (seen : Text) (d : ℕ)
      → Cut next seen
      → Cut (grown next d) (seen ++ d ∷ [])
  Cut-more none seen d h = tt
  Cut-more (some (front, back)) seen d h =
      ap (λ t. spaced front ++ (b' ' ∷ t)) (spaced-append back (d ∷ []))
      ∙ sym (append_assoc (spaced front) (b' ' ∷ spaced back) (spaced (d ∷ [])))
      ∙ ap (λ t. t ++ spaced (d ∷ [])) h
      ∙ sym (spaced-append seen (d ∷ []))

  Cut-grown :
      (next : Option (Text × Text)) (seen : Text) (d : ℕ)
      → Cut next seen
      → Cut (if iswspace d then some (seen, []) else grown next d) (seen ++ d ∷ [])
  Cut-grown next seen d h = elim (Bool-cases (iswspace d)) [
    | inl e ↦
        let blank : spaced (d ∷ []) ≡ b' ' ∷ [] = rw e refl in
        rw e (sym (spaced-append seen (d ∷ []) ∙ ap (λ t. spaced seen ++ t) blank))
    | inr e ↦ rw e (Cut-more next seen d h)
  ]

  whole_unbroken :
      (seen : Text) (c : ℕ) (line : Text)
      → spaced (seen ++ unbroken c ∷ line) ≡ spaced (seen ++ c ∷ line)
  whole_unbroken seen c line =
      spaced-append seen (unbroken c ∷ line)
      ∙ ap (λ x. spaced seen ++ (x ∷ spaced line)) (spaced_char-unbroken c)
      ∙ sym (spaced-append seen (c ∷ line))

  divided-Wrapped :
      (front back seen : Text) (c : ℕ) (line : Text)
      → Cut (some (front, back)) seen
      → Wrapped (front, some (back ++ unbroken c ∷ line)) (seen ++ c ∷ line)
  divided-Wrapped front back seen c line h =
      let rest = unbroken c ∷ line in
      let longer = length-append back rest in
      let long = length-append seen (c ∷ line) in
      let measured = ap length h in
      (
        ap (λ t. spaced front ++ (b' ' ∷ t)) (spaced-append back rest)
            ∙ sym (append_assoc (spaced front) (b' ' ∷ spaced back) (spaced rest))
            ∙ ap (λ t. t ++ spaced rest) h
            ∙ sym (spaced-append seen rest)
            ∙ whole_unbroken seen c line,
        omega (arith, longer),
        omega (
          arith,
          longer,
          long,
          measured,
          length-append (spaced front) (b' ' ∷ spaced back),
          length-map spaced_char back,
          length-map spaced_char seen,
        ),
      )

  step :
      (seen : Text) (c : ℕ) (line : Text) (r : Text × Option Text)
      → Wrapped r ((seen ++ unbroken c ∷ []) ++ line)
      → Wrapped r (seen ++ c ∷ line)
  step seen c line r h =
      Wrapped-same r ((seen ++ unbroken c ∷ []) ++ line) (seen ++ c ∷ line)
        (ap spaced (append_assoc seen (unbroken c ∷ []) line) ∙ whole_unbroken seen c line) h

  wrap_from-Wrapped :
      (i : ℕ) (next : Option (Text × Text)) (seen line : Text)
      → Cut next seen
      → Wrapped (wrap_from iswspace i next seen line) (seen ++ line)
  unfolding wrap_from
  wrap_from-Wrapped i next seen [] h = ap spaced (sym (append-nil seen))
  wrap_from-Wrapped i none seen (c ∷ line) h =
      let d = unbroken c in
      step seen c line
        (wrap_from iswspace (suc i) (if iswspace d then some (seen, []) else none) (seen ++ d ∷ [])
          line)
        (wrap_from-Wrapped (suc i) (if iswspace d then some (seen, []) else none) (seen ++ d ∷ [])
          line (Cut-grown none seen d h))
  wrap_from-Wrapped i (some (front, back)) seen (c ∷ line) h =
      let d = unbroken c in
      let last : Option (Text × Text) =
        if iswspace d then some (seen, []) else some (front, back ++ d ∷ []) in
      let r : Text × Option Text = wrap_from iswspace (suc i) last (seen ++ d ∷ []) line in
      let ih : Wrapped r ((seen ++ d ∷ []) ++ line) =
        wrap_from-Wrapped (suc i) last (seen ++ d ∷ []) line
          (Cut-grown (some (front, back)) seen d h) in
      elim (Bool-cases (ltb 80 i)) [
        | inl e ↦ rw e (divided-Wrapped front back seen c line h)
        | inr e ↦ rw e (step seen c line r ih)
      ]

  wrap_line-Wrapped : (line : Text) → Wrapped (wrap_line iswspace line) line
  unfolding wrap_line
  wrap_line-Wrapped line = wrap_from-Wrapped 0 none [] line tt

  -- The lines, each with a space behind it.
  abbrev pub terminated : List Text → Text
  terminated [] = []
  terminated (line ∷ lines) = spaced line ++ (b' ' ∷ terminated lines)

  -- `WrapLine` makes what is left shorter, and the loop over a message that is not empty ends with lines
  -- that are the message, each written with one space in the place of the white space behind it, where
  -- every white space, line ends included, is taken for a space.
  pub service_lines-all :
      (fuel : ℕ) (p : Text)
      → 0 < length p
      → length p < fuel
      → (lines : List Text) × (service_lines iswspace fuel p ≡ some lines)
        × (terminated lines ≡ spaced p ++ b' ' ∷ [])
  unfolding service_lines
  service_lines-all zero p some_text h = absurd (omega arith)
  service_lines-all (suc fuel) [] some_text h = absurd (omega arith)
  service_lines-all (suc fuel) (c ∷ p) some_text h =
      let whole = c ∷ p in
      let r = wrap_line iswspace whole in
      let wrapped = wrap_line-Wrapped whole in
      elim (Option-cases r.1) [
        | inl e ↦
            let last = subst (λ n. WrappedBy n r.0 whole) e wrapped in
            rw (e, service_lines) (r.0 ∷ [], refl, ap (λ t. t ++ b' ' ∷ []) last)
        | inr (rest, e) ↦
            let (same, any, shorter) = subst (λ n. WrappedBy n r.0 whole) e wrapped in
            let (lines, done, text) = service_lines-all fuel rest any (omega (arith, h, shorter)) in
            rw (e, done, service_lines)
              (
                r.0 ∷ lines,
                refl,
                ap (λ t. spaced r.0 ++ (b' ' ∷ t)) text
                    ∙ sym (append_assoc (spaced r.0) (b' ' ∷ spaced rest) (b' ' ∷ []))
                    ∙ ap (λ t. t ++ b' ' ∷ []) same,
              )
      ]

  -- What the status log shows of a line.
  abbrev pub shown_line : Text → Output
  shown_line line = status_log (codes "IService> " ++ line)

  abbrev pub with_out : Conn → List Output → Conn
  with_out c new = record c { out = c.out ++ new }

  with_out-cons :
      (c : Conn) (o : Output) (os : List Output)
      → with_out (with_out c (o ∷ [])) os ≡ with_out c (o ∷ os)
  with_out-cons c o os = ap (λ out. record c { out = out }) (append_assoc c.out (o ∷ []) os)

  log_lines-out :
      (lines : List Text) (c : Conn)
      → log_lines iswspace lines c ≡ with_out c (map shown_line lines)
  unfolding log_lines
  log_lines-out [] c = ap (λ out. record c { out = out }) (sym (append-nil c.out))
  log_lines-out (line ∷ lines) c =
      log_lines-out lines (log_service iswspace line c)
      ∙ with_out-cons c (shown_line line) (map shown_line lines)

  module _ (gui : Gui) (scan_err : Text → Option ℕ) (scan_pid : Text → Option ℕ) where
    -- Where a space, CR and LF are white space to `iswspace`:
    -- For a message with an error number that is no process id and that has some text behind the number
    -- and white space, OnService shows this text in the status log, one entry for each of its lines and
    -- in order, and then treats the error number. The lines are the text, each with one space in the
    -- place of the white space that it was cut at, where every white space, line ends included, is taken
    -- for a space. Its loop ends.
    pub on_service-lines :
        (buf : Text) (err : ℕ) (c : Conn)
        → scan_err buf ≡ some err
        → is_process_id iswspace gui scan_err scan_pid err (drop 11 buf) ≡ false
        → 0 < length (skip_while iswspace (drop 11 buf))
        → (lines : List Text) × (on_service iswspace gui scan_err scan_pid (some buf) c
            ≡ some (service_error iswspace gui err (with_out c (map shown_line lines))))
          × (terminated lines ≡ spaced (skip_while iswspace (drop 11 buf)) ++ b' ' ∷ [])
    unfolding on_service service_message
    on_service-lines buf err c scanned other any =
        let shown = skip_while iswspace (drop 11 buf) in
        let (lines, done, text) = service_lines-all (suc (length shown)) shown any (omega arith) in
        (
          lines,
          rw (scanned, on_service, other, service_message, done)
              (ap (λ c'. some (service_error iswspace gui err c')) (log_lines-out lines c)),
          text,
        )

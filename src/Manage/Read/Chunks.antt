-- ===== src/Manage/Read/Chunks.antt =====
-- manage.c: how the socket cuts its bytes into reads does not matter.
use mathlib.Core.List.{append_assoc}
use openvpn_gui.Base.{
  ℕ, zero, suc, ◌<◌, ◌≡◌, refl, ap, ◌∙◌, sym, Bool, true, Option, none, some, [], ◌∷◌, ◌++◌, arith,
  length, length-append,
}
use openvpn_gui.Base.Text.{Text}
use openvpn_gui.Conn.{Conn, Handler, MsgType}
use openvpn_gui.Manage.Read.{
  Read, done, fault, no_fuel, ◌>>=◌, take_line, handle_line, on_line, read_loop, clear_saved,
  on_read,
}
use openvpn_gui.Manage.Read.Keeps.{Clear, handle_line-Clear}
use openvpn_gui.Manage.Read.Split.{take_line-length, take_line-append}

bind_assoc : (r : Read) (f g : Conn → Read) → ((r >>= f) >>= g) ≡ (r >>= λ c. f c >>= g)
bind_assoc (done c) f g = refl
bind_assoc fault f g = refl
bind_assoc no_fuel f g = refl

bind-congr :
    (r : Read) (f g : Conn → Read) → ((c : Conn) → r ≡ done c → f c ≡ g c) → (r >>= f) ≡ (r >>= g)
bind-congr (done c) f g h = h c refl
bind-congr fault f g h = refl
bind-congr no_fuel f g h = refl

module _ (run : Handler → Option Text → Conn → Conn) (table : MsgType → Option Handler)
    (now : Text) where
  -- The loop goes on alike with any fuel above the number of bytes.
  on_line-fuel :
      (f g : ℕ) (line : Text) (c : Conn) (taken : Option (Bool × Text × Text))
      → ((rest : Text) (c' : Conn)
          → length rest < length line
          → read_loop run table true now f rest c' ≡ read_loop run table true now g rest c')
      → take_line line ≡ taken
      → on_line run table (read_loop run table true now f) true now line c taken
        ≡ on_line run table (read_loop run table true now g) true now line c taken
  on_line-fuel f g line c none same e = refl
  on_line-fuel f g line c (some (asked, l, rest)) same e =
      bind-congr (handle_line run table true now asked l c) _ _
        (λ c' h. same rest c' (take_line-length line e))

  read_loop-fuel :
      (f g : ℕ) (line : Text) (c : Conn)
      → length line < f
      → length line < g
      → read_loop run table true now f line c ≡ read_loop run table true now g line c
  unfolding read_loop
  read_loop-fuel zero g line c h k = absurd (omega arith)
  read_loop-fuel (suc f) zero line c h k = absurd (omega arith)
  read_loop-fuel (suc f) (suc g) [] c h k = refl
  read_loop-fuel (suc f) (suc g) (x ∷ line) c h k =
      on_line-fuel f g (x ∷ line) c _
        (λ rest c' less. read_loop-fuel f g rest c' (omega arith) (omega arith)) refl

  -- What a later read does with the bytes `more`, after what is saved.
  abbrev then_read : Text → Conn → Read
  then_read more c =
      let line = c.manage.saved ++ more in
      read_loop run table true now (suc (length line)) line (clear_saved c)

  -- On a valid socket.
  on_read_valid :
      (x : ℕ) (bytes : Text) (c : Conn)
      → c.manage.sk ≡ true
      → on_read run table true true now (some (x ∷ bytes)) c ≡ then_read (x ∷ bytes) c
  unfolding on_read
  on_read_valid x bytes c valid = rw valid refl

  clear_saved-Clear : (c : Conn) → Clear c → clear_saved c ≡ c
  clear_saved-Clear c k = λ i. record c { manage = record c.manage { saved = sym k.none_saved i } }

  then_read-Clear :
      (more : Text) (c : Conn)
      → Clear c
      → then_read more c ≡ read_loop run table true now (suc (length more)) more c
  then_read-Clear more c k = rw (clear_saved-Clear c k) (rw k.none_saved)

  module _
      (run-Clear : (h : Handler) (msg : Option Text) (c : Conn)
        → Clear c
        → Clear (run h msg c)) where
    read_loop-append :
        (f : ℕ) (line more : Text) (c : Conn)
        → length (line ++ more) < f
        → Clear c
        → read_loop run table true now f (line ++ more) c
          ≡ (read_loop run table true now f line c >>= then_read more)
    unfolding read_loop
    read_loop-append zero line more c h k = absurd (omega arith)
    read_loop-append (suc f) [] more c h k =
        read_loop-fuel (suc f) (suc (length more)) more c h (omega arith)
        ∙ sym (then_read-Clear more c k)
    read_loop-append (suc f) (x ∷ line) more c h k =
        step (take_line (x ∷ line)) refl (λ rest c'. read_loop-append f rest more c')
      where
        step :
            (taken : Option (Bool × Text × Text))
            → take_line (x ∷ line) ≡ taken
            → ((rest : Text) (c' : Conn)
                → length (rest ++ more) < f
                → Clear c'
                → read_loop run table true now f (rest ++ more) c'
                  ≡ (read_loop run table true now f rest c' >>= then_read more))
            → read_loop run table true now (suc f) ((x ∷ line) ++ more) c
              ≡ (read_loop run table true now (suc f) (x ∷ line) c >>= then_read more)
        step none e ih =
            let line' = (x ∷ line) ++ more in
            let loop = read_loop run table true now in
            loop_to_then
            ∙ sym (
                ap (λ t. on_line run table (loop f) true now (x ∷ line) c t >>= then_read more) e
                ∙ ap (loop (suc (length line')) line') (clear_saved-Clear c k))
          where
            loop_to_then :
                read_loop run table true now (suc f) ((x ∷ line) ++ more) c
                ≡ read_loop run table true now
                    (suc (length ((x ∷ line) ++ more)))
                    ((x ∷ line) ++ more)
                    c
            loop_to_then =
                read_loop-fuel (suc f) (suc (length ((x ∷ line) ++ more))) ((x ∷ line) ++ more) c h
                  (omega arith)
        step (some (asked, l, rest)) e ih =
            let line' = (x ∷ line) ++ more in
            let loop = read_loop run table true now in
            let handled = handle_line run table true now asked l c in
            let clear = handle_line-Clear run table run-Clear true now asked l c k in
            let shorter = take_line-length (x ∷ line) e in
            ap (on_line run table (loop f) true now line' c) (take_line-append (x ∷ line) more e)
            ∙ bind-congr handled _ _ (λ c' eq.
              ih rest c'
                (omega (arith, shorter, length-append rest more, length-append (x ∷ line) more))
                (clear.of_done c' eq))
            ∙ sym (
                ap (λ t. on_line run table (loop f) true now (x ∷ line) c t >>= then_read more) e
                ∙ bind_assoc handled (loop f rest) (then_read more))

    -- Two reads do what one read of all their bytes does, when memory lasts: whatever lines, prompts
    -- and partial lines the bytes hold, wherever they are cut, and if a fault ends the first read.
    -- The handlers are any functions that leave no saved input where there was none, and the socket is
    -- valid, also after the first read, so that the second takes place.
    pub on_read-append :
        (x y : ℕ) (bytes more : Text) (c : Conn)
        → c.manage.sk ≡ true
        → ((c' : Conn)
            → on_read run table true true now (some (x ∷ bytes)) c ≡ done c'
            → c'.manage.sk ≡ true)
        → (on_read run table true true now (some (x ∷ bytes)) c
            >>= on_read run table true true now (some (y ∷ more)))
          ≡ on_read run table true true now (some ((x ∷ bytes) ++ y ∷ more)) c
    on_read-append x y bytes more c valid still =
        let line = c.manage.saved ++ x ∷ bytes in
        let line' = line ++ y ∷ more in
        let loop = read_loop run table true now in
        let clear : Clear (clear_saved c) = record { none_saved = refl } in
        bind-congr (on_read run table true true now (some (x ∷ bytes)) c) _ _
          (λ c' e. on_read_valid y more c' (still c' e))
        ∙ ap (λ r. r >>= then_read (y ∷ more)) (on_read_valid x bytes c valid)
        ∙ ap (λ r. r >>= then_read (y ∷ more))
            (read_loop-fuel (suc (length line)) (suc (length line')) line (clear_saved c)
              (omega arith) (omega (arith, length-append line (y ∷ more))))
        ∙ sym (
            read_loop-append (suc (length line')) line (y ∷ more) (clear_saved c) (omega arith)
              clear)
        ∙ ap (λ t. loop (suc (length t)) t (clear_saved c))
            (append_assoc c.manage.saved (x ∷ bytes) (y ∷ more))
        ∙ sym (on_read_valid x (bytes ++ y ∷ more) c valid)

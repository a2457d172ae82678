-- ===== src/Misc/Escape.antt =====
-- misc.c: what `escape_string` returns.
use mathlib.Core.List.{append-nil, append_assoc}
use openvpn_gui.Base.{
  arith, ℕ, suc, ◌≡◌, ap, ◌∙◌, Bool, true, some, [], ◌∷◌, ◌++◌, if◌then◌else◌, Bool-cases, inl, inr,
}
use openvpn_gui.Base.Text.{Text, contains}
use openvpn_gui.Misc.{escapes, escape_loop, escape_string}

-- The text with a backslash in front of each quote, backslash and space.
unfoldable pub escaped : Text → Text
escaped [] = []
escaped (c ∷ s) = if contains escapes c then b'\\' ∷ c ∷ escaped s else c ∷ escaped s

escape_loop-escaped :
    (memory : ℕ → Bool) (n : ℕ) (kept todo : Text)
    → ((k : ℕ) → memory k ≡ true)
    → escape_loop memory n kept todo ≡ some (kept ++ escaped todo)
unfolding escape_loop escaped
escape_loop-escaped memory n kept [] h = rw append-nil
escape_loop-escaped memory n kept (c ∷ todo) h = elim (Bool-cases (contains escapes c)) [
  | inl special ↦ rw special (
      rw (h n) (
        escape_loop-escaped memory (suc n) (kept ++ b'\\' ∷ c ∷ []) todo h
        ∙ ap some (append_assoc kept (b'\\' ∷ c ∷ []) (escaped todo))))
  | inr plain ↦ rw plain (
      escape_loop-escaped memory n (kept ++ c ∷ []) todo h
      ∙ ap some (append_assoc kept (c ∷ []) (escaped todo)))
]

-- With memory at hand `escape_string` returns the text with a backslash in front of each double
-- quote, backslash and space, and nothing else changed.
pub escape_string-escaped :
    (memory : ℕ → Bool) (input : Text)
    → ((k : ℕ) → memory k ≡ true)
    → escape_string memory input ≡ some (escaped input)
unfolding escape_string
escape_string-escaped memory input h = rw (h 0) (escape_loop-escaped memory 1 [] input h)

escape_loop-some :
    (memory : ℕ → Bool) (n : ℕ) (kept todo : Text) {e : Text}
    → escape_loop memory n kept todo ≡ some e
    → e ≡ kept ++ escaped todo
unfolding escape_loop escaped
escape_loop-some memory n kept [] h = rw append-nil (ground arith)
escape_loop-some memory n kept (c ∷ todo) h = elim (Bool-cases (contains escapes c)) [
  | inl special ↦ rw special (
      escape_loop-some memory (suc n) (kept ++ b'\\' ∷ c ∷ []) todo (ground arith)
      ∙ append_assoc kept (b'\\' ∷ c ∷ []) (escaped todo))
  | inr plain ↦ rw plain (
      escape_loop-some memory n (kept ++ c ∷ []) todo (ground arith)
      ∙ append_assoc kept (c ∷ []) (escaped todo))
]

-- Whatever `escape_string` returns, if memory lasts, is the escaped text.
pub escape_string-some :
    (memory : ℕ → Bool) (input : Text) {e : Text}
    → escape_string memory input ≡ some e
    → e ≡ escaped input
unfolding escape_string
escape_string-some memory input h = escape_loop-some memory 1 [] input (ground arith)

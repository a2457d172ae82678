-- ===== src/Import/Chunks.antt =====
-- as.c: when a download fits its buffer.
use mathlib.Core.List.{append-nil, append_assoc}
use openvpn_gui.Base.{
  ℕ, ◌+◌, ◌*◌, ◌/◌, ◌%◌, ◌<◌, ◌≡◌, refl, sym, Bool, true, false, ◌||◌, Option, some, List, [], ◌∷◌,
  ◌++◌, map, if◌then◌else◌, Bool-cases, inl, inr, arith, length, length-append, leb, ltb, ◌==◌, All,
}
use openvpn_gui.Base.Text.{Text}
use openvpn_gui.Import.{content, overflow, read_chunk_len, download_loop, download_profile_content}

-- A read that starts behind `pos` bytes goes beyond the next multiple of READ_CHUNK_LEN.
unfoldable pub crosses : ℕ → List Text → Bool
crosses pos [] = false
crosses pos (bytes ∷ reads) =
    ltb read_chunk_len (pos % read_chunk_len + length bytes) || crosses (pos + length bytes) reads

unfoldable pub joined : List Text → Text
joined [] = []
joined (bytes ∷ reads) = bytes ++ joined reads

abbrev pub NotEmpty : Text → Type 0
NotEmpty bytes = 0 < length bytes

-- The size is the next multiple of READ_CHUNK_LEN.
download_loop-crosses :
    (reads : List Text) (rest : List (Option Text)) (got : Text) (size : ℕ)
    → All NotEmpty reads
    → size ≡ length got / 65536 * 65536 + 65536
    → download_loop true (map some reads ++ some [] ∷ rest) got size
      ≡ (if crosses (length got) reads then overflow else content (got ++ joined reads))
unfolding download_loop crosses joined
download_loop-crosses [] rest got size h e =
    let fits : ltb size (length got + 0) ≡ false = ground arith in rw (fits, append-nil) refl
download_loop-crosses (bytes ∷ reads) rest got size h e =
    let stop = length got + length bytes in
    let together = length-append got bytes in
    let ih = download_loop-crosses reads rest (got ++ bytes) in
    let some_bytes : (length bytes == 0) ≡ false = ground (arith, h.0) in
    elim (Bool-cases (ltb size stop)) [
      | inl k ↦
          let crossed : ltb 65536 (length got % 65536 + length bytes) ≡ true = ground arith in
          rw (k, crossed) refl
      | inr k ↦
          let crossed : ltb 65536 (length got % 65536 + length bytes) ≡ false = ground arith in
          elim (Bool-cases (leb size stop)) [
            | inl l ↦
                let le : size ≡ stop = ground arith in
                rw (k, crossed, some_bytes, l)
                  (rw (sym together, sym (append_assoc got bytes (joined reads)))
                    (ih (size + 65536) h.1 (omega (arith, together, e, le))))
            | inr l ↦
                let lt : stop < size = ground arith in
                rw (k, crossed, some_bytes, l)
                  (rw (sym together, sym (append_assoc got bytes (joined reads)))
                    (ih size h.1 (omega (arith, together, e, lt))))
          ]
    ]

-- Reads that are not empty, up to an empty one, while memory lasts: the download gives their bytes in
-- order, unless one of them goes beyond a multiple of READ_CHUNK_LEN, counted from the start; that one
-- has been written beyond the end of the buffer.
pub download_profile_content-crosses :
    (reads : List Text) (rest : List (Option Text))
    → All NotEmpty reads
    → download_profile_content true (map some reads ++ some [] ∷ rest)
      ≡ (if crosses 0 reads then overflow else content (joined reads))
unfolding download_profile_content
download_profile_content-crosses reads rest h = download_loop-crosses reads rest [] 65536 h refl

-- ===== src/Ipc/SocketIo/Lines.antt =====
-- What `readLine` reads does not depend on how the stream is cut into chunks.
use musi_tui.Base.{
  ◌≡◌, refl, ◌∙◌, sym, ap, Bool, true, false, List, [], ◌∷◌, ◌++◌, some, arith, inl, inr, length,
  length-append, ltb, Bool-cases, if◌then◌else◌, append_assoc, append-nil,
}
use musi_tui.Base.Text.{Text}
use musi_tui.Ipc.SocketIo.{
  Recv, received, recv_interrupted, recv_failed, closed, ReadResult, line, too_long, k_max_line,
  chunk_of, has_newline, first_line, newline, read_from, read_line,
}

-- The script of a stream that delivers bytes, with no error and no end among them.
unfoldable pub delivers : List Recv → Bool
delivers [] = true
delivers (received c s ∷ script) = delivers script
delivers (recv_interrupted ∷ script) = delivers script
delivers (recv_failed ∷ script) = false
delivers (closed ∷ script) = false

unfoldable pub stream : List Recv → Text
stream [] = []
stream (received c s ∷ script) = chunk_of c s ++ stream script
stream (recv_interrupted ∷ script) = stream script
stream (recv_failed ∷ script) = []
stream (closed ∷ script) = []

abbrev pub verdict : Text → ReadResult
verdict l = if ltb k_max_line (length l) then too_long else line l

first_line-append_full : (s t : Text) → has_newline s ≡ true → first_line (s ++ t) ≡ first_line s
first_line-append_full [] t h = cc
first_line-append_full (c ∷ s) t h = ground (arith, first_line-append_full s t)

first_line-append_bare :
    (s t : Text)
    → has_newline s ≡ false
    → (first_line s ≡ s) × (first_line (s ++ t) ≡ s ++ first_line t)
first_line-append_bare [] t h = (refl, refl)
first_line-append_bare (c ∷ s) t h = ground (arith, first_line-append_bare s t)

verdict_long : (l t : Text) → ltb k_max_line (length l) ≡ true → verdict (l ++ t) ≡ too_long
verdict_long l t h = ground (arith, length-append l t)

read_from-stream :
    (script rest : List Recv) (out : Text)
    → delivers script ≡ true
    → ltb k_max_line (length out) ≡ false
    → read_from out (script ++ closed ∷ rest) ≡ some (verdict (out ++ first_line (stream script)))
unfolding read_from delivers stream
read_from-stream [] rest out clean short = rw (append-nil out, short) refl
read_from-stream (recv_interrupted ∷ script) rest out clean short =
    read_from-stream script rest out clean short
read_from-stream (recv_failed ∷ script) rest out clean short = cc
read_from-stream (closed ∷ script) rest out clean short = cc
read_from-stream (received c s ∷ script) rest out clean short =
    let ch = chunk_of c s in
    elim (Bool-cases (has_newline ch)) [
      | inl ends ↦ elim (Bool-cases (ltb k_max_line (length (out ++ first_line ch)))) [
        | inl long ↦ rw (first_line-append_full ch (stream script) ends, long, read_from) refl
        | inr fits ↦ rw (first_line-append_full ch (stream script) ends, fits, ends, read_from) refl
      ]
      | inr goes_on ↦
          let (whole, split) = first_line-append_bare ch (stream script) goes_on in
          elim (Bool-cases (ltb k_max_line (length (out ++ ch)))) [
            | inl long ↦
                rw (whole, split, long, read_from)
                  (ap some (
                    sym (verdict_long (out ++ ch) (first_line (stream script)) long)
                    ∙ ap verdict (append_assoc out ch (first_line (stream script)))))
            | inr fits ↦
                rw (whole, split, fits, goes_on, read_from)
                  (read_from-stream script rest (out ++ ch) clean fits
                    ∙ ap (λ l. some (verdict l)) (append_assoc out ch (first_line (stream script))))
          ]
    ]

-- However the peer's bytes are cut into chunks, and however often a call is interrupted: once they
-- have all come and the peer has closed, the line read is the bytes before the first newline, or
-- all of them if there is none, unless that is more than 4096 bytes.
pub read_line-stream :
    (script rest : List Recv)
    → delivers script ≡ true
    → read_line (script ++ closed ∷ rest) ≡ some (verdict (first_line (stream script)))
unfolding read_line
read_line-stream script rest clean = read_from-stream script rest [] clean refl

read_from-line :
    (script rest : List Recv) (out : Text)
    → delivers script ≡ true
    → ltb k_max_line (length out) ≡ false
    → has_newline (stream script) ≡ true
    → read_from out (script ++ rest) ≡ some (verdict (out ++ first_line (stream script)))
unfolding read_from delivers stream
read_from-line [] rest out clean short ends = cc
read_from-line (recv_interrupted ∷ script) rest out clean short ends =
    read_from-line script rest out clean short ends
read_from-line (recv_failed ∷ script) rest out clean short ends = cc
read_from-line (closed ∷ script) rest out clean short ends = cc
read_from-line (received c s ∷ script) rest out clean short ends =
    let ch = chunk_of c s in
    elim (Bool-cases (has_newline ch)) [
      | inl here ↦ elim (Bool-cases (ltb k_max_line (length (out ++ first_line ch)))) [
        | inl long ↦ rw (first_line-append_full ch (stream script) here, long, read_from) refl
        | inr fits ↦ rw (first_line-append_full ch (stream script) here, fits, here, read_from) refl
      ]
      | inr goes_on ↦
          let (whole, split) = first_line-append_bare ch (stream script) goes_on in
          elim (Bool-cases (ltb k_max_line (length (out ++ ch)))) [
            | inl long ↦
                rw (whole, split, long, read_from)
                  (ap some (
                    sym (verdict_long (out ++ ch) (first_line (stream script)) long)
                    ∙ ap verdict (append_assoc out ch (first_line (stream script)))))
            | inr fits ↦
                rw (whole, split, fits, goes_on, read_from)
                  (read_from-line script rest (out ++ ch) clean fits
                      (later ch (stream script) goes_on ends)
                    ∙ ap (λ l. some (verdict l)) (append_assoc out ch (first_line (stream script))))
          ]
    ]
  where
    later :
        (s t : Text) → has_newline s ≡ false → has_newline (s ++ t) ≡ true → has_newline t ≡ true
    later [] t h e = e
    later (d ∷ s) t h e = ground (arith, later s t)

-- Once a newline has come, what the peer does afterwards plays no part.
pub read_line-line :
    (script rest : List Recv)
    → delivers script ≡ true
    → has_newline (stream script) ≡ true
    → read_line (script ++ rest) ≡ some (verdict (first_line (stream script)))
unfolding read_line
read_line-line script rest clean ends = read_from-line script rest [] clean refl ends

first_line-line :
    (l : Text)
    → has_newline l ≡ false
    → (first_line (l ++ newline ∷ []) ≡ l) × (has_newline (l ++ newline ∷ []) ≡ true)
first_line-line [] h = (refl, refl)
first_line-line (c ∷ l) h = ground (arith, first_line-line l)

-- A line and its newline are read as the line, however they are cut.
pub read_line-sent :
    (script rest : List Recv) (l : Text)
    → delivers script ≡ true
    → stream script ≡ l ++ newline ∷ []
    → has_newline l ≡ false
    → read_line (script ++ rest) ≡ some (verdict l)
read_line-sent script rest l clean sent bare =
    let (whole, ends) = first_line-line l bare in
    read_line-line script rest clean (rw (sent, ends) refl)
    ∙ ap (λ t. some (verdict t)) (ap first_line sent ∙ whole)

-- ===== src/Player/DecodeThread/Stream.antt =====
-- No sample is lost or moved on the way from the decoder through the ring.
use musi_tui.Base.{
  ℕ, ◌-◌, ◌*◌, ◌≤◌, min, ◌≡◌, refl, ◌∙◌, sym, ap, Bool, true, false, List, [], ◌∷◌, ◌++◌,
  append_assoc, arith, All, ltb, if◌then◌else◌, length, take, take-append-drop,
}
use musi_tui.Util.RingBuffer.{RingBuffer, read, write, available_to_write}
use musi_tui.Util.RingBuffer.Invariant.{IsValid, used, capacity-le}
use musi_tui.Util.RingBuffer.Fifo.{
  contents, write_refines, write-IsValid, read-IsValid, length-contents,
}
use musi_tui.Util.RingBuffer.Reads.{read_refines}
use musi_tui.Player.DecodeThread.{DecodeLoop, take_chunk, decode_round}

-- A chunk is at most as long as what `decodeFrames` is asked for.
abbrev pub FitsIn : ℕ → List ℕ → Type 0
FitsIn needed chunk = length chunk ≤ needed

pub concat : List (List ℕ) → List ℕ
concat [] = []
concat (c ∷ cs) = c ++ concat cs

-- What runs next: a round of the loop, a read of so many samples by the callback, or a stop.
pub data Turn : Type 0 where
  decodes : Turn
  reads : ℕ → Turn
  stops : Turn

module _ (chunk_frames channels : ℕ) where
  -- The samples that the turns hand to the callback, and the loop after them. Once the loop has
  -- ended, it does nothing more.
  pub play_out : List Turn → DecodeLoop → List ℕ × DecodeLoop
  play_out [] d = ([], d)
  play_out (decodes ∷ turns) d =
      play_out turns (if d.running then decode_round chunk_frames channels d else d)
  play_out (reads n ∷ turns) d =
      let (heard, after) = play_out turns (record d { ring = (read d.ring n).0 }) in
      ((read d.ring n).1 ++ heard, after)
  play_out (stops ∷ turns) d = play_out turns (record d { stop_requested = true })

  -- The ring is well formed, and what the decoder still has comes in chunks that fit.
  pub record IsReady (k : ℕ) (d : DecodeLoop) : Type 0 where
    pub ring : IsValid k d.ring
    pub chunks : All (FitsIn (chunk_frames * channels)) d.decoder

  -- What is still to be heard: what the ring holds, and what the decoder has.
  abbrev pub ahead : DecodeLoop → List ℕ
  ahead d = contents d.ring ++ concat d.decoder

  take_whole : (xs : List ℕ) → take (length xs) xs ≡ xs
  take_whole [] = refl
  take_whole (x ∷ xs) = ap (λ t. x ∷ t) (take_whole xs)

  room :
      {k : ℕ} (r : RingBuffer) (chunk : List ℕ)
      → IsValid k r
      → ltb (available_to_write r) (chunk_frames * channels) ≡ false
      → length chunk ≤ chunk_frames * channels
      → contents (write r chunk (length chunk)).0 ≡ contents r ++ chunk
  unfolding available_to_write
  room {k} r chunk v enough fits =
      let left : length chunk ≤ r.capacity - used r =
        ground (arith, v.power, v.bounded, capacity-le v.exponent) in
      ap (λ (p : List ℕ × ℕ). p.0) (write_refines chunk (length chunk) v (omega arith))
      ∙ ap (λ n. contents r ++ take n chunk) {y = length chunk}
          (omega (arith, length-contents r, left))
      ∙ ap (λ t. contents r ++ t) (take_whole chunk)

  take_chunk-ahead :
      {k : ℕ} (cs : List (List ℕ)) (d : DecodeLoop)
      → IsValid k d.ring
      → ltb (available_to_write d.ring) (chunk_frames * channels) ≡ false
      → All (FitsIn (chunk_frames * channels)) cs
      → ahead (take_chunk cs (record d { decoder = cs })) ≡ contents d.ring ++ concat cs
  unfolding take_chunk concat
  take_chunk-ahead [] d v enough fits = refl
  take_chunk-ahead ([] ∷ cs) d v enough fits = refl
  take_chunk-ahead ((x ∷ xs) ∷ cs) d v enough (fit, fits) =
      ap (λ t. t ++ concat cs) (room d.ring (x ∷ xs) v enough fit)
      ∙ append_assoc (contents d.ring) (x ∷ xs) (concat cs)

  take_chunk-IsReady :
      {k : ℕ} (cs : List (List ℕ)) (d : DecodeLoop)
      → IsValid k d.ring
      → All (FitsIn (chunk_frames * channels)) cs
      → IsReady k (take_chunk cs (record d { decoder = cs }))
  unfolding take_chunk
  take_chunk-IsReady [] d v fits = record { ring = v; chunks = tt }
  take_chunk-IsReady ([] ∷ cs) d v (fit, fits) = record { ring = v; chunks = fits }
  take_chunk-IsReady ((x ∷ xs) ∷ cs) d v (fit, fits) = record {
    ring = write-IsValid (x ∷ xs) (length (x ∷ xs)) v;
    chunks = fits;
  }

  decode_round-IsReady :
      {k : ℕ} (d : DecodeLoop)
      → IsReady k d
      → IsReady k (decode_round chunk_frames channels d)
        × (ahead (decode_round chunk_frames channels d) ≡ ahead d)
  unfolding decode_round
  decode_round-IsReady {k} d v =
      by_tests d.stop_requested (ltb (available_to_write d.ring) (chunk_frames * channels)) refl
    where
      by_tests :
          (asked full : Bool)
          → ltb (available_to_write d.ring) (chunk_frames * channels) ≡ full
          → let after =
              if asked
              then record d { running = false }
              else if full
              then d
              else take_chunk d.decoder d in
            IsReady k after × (ahead after ≡ ahead d)
      by_tests true full h = (record { ring = v.ring; chunks = v.chunks }, refl)
      by_tests false true h = (v, refl)
      by_tests false false h = (
        take_chunk-IsReady d.decoder d v.ring v.chunks,
        take_chunk-ahead d.decoder d v.ring h v.chunks,
      )

  turn-IsReady :
      {k : ℕ} (runs : Bool) (d : DecodeLoop)
      → IsReady k d
      → let after = if runs then decode_round chunk_frames channels d else d in
        IsReady k after × (ahead after ≡ ahead d)
  turn-IsReady true d v = decode_round-IsReady d v
  turn-IsReady false d v = (v, refl)

  -- However the rounds of the loop, the reads of the callback and a stop come one after the other:
  -- what the callback has been given, what the ring holds and what the decoder still has are, in
  -- this order, what the ring held and the decoder had at the start.
  pub play_out-ahead :
      (turns : List Turn) {k : ℕ} (d : DecodeLoop)
      → IsReady k d
      → let (heard, after) = play_out turns d in heard ++ ahead after ≡ ahead d
  unfolding play_out
  play_out-ahead [] d v = refl
  play_out-ahead (decodes ∷ turns) d v =
      let (ready, same) = turn-IsReady d.running d v in
      play_out-ahead turns (if d.running then decode_round chunk_frames channels d else d) ready
      ∙ same
  play_out-ahead (reads n ∷ turns) d v =
      let after = record d { ring = (read d.ring n).0 } in
      append_assoc (read d.ring n).1 (play_out turns after).0 (ahead (play_out turns after).1)
      ∙ ap (λ t. (read d.ring n).1 ++ t)
          (play_out-ahead turns after (record { ring = read-IsValid n v.ring; chunks = v.chunks }))
      ∙ sym (append_assoc (read d.ring n).1 (contents (read d.ring n).0) (concat d.decoder))
      ∙ ap (λ t. t ++ concat d.decoder) (handed_over v.ring)
    where
      handed_over :
          {j : ℕ}
          → IsValid j d.ring
          → (read d.ring n).1 ++ contents (read d.ring n).0 ≡ contents d.ring
      handed_over w =
          ap (λ (p : List ℕ × List ℕ). p.1 ++ p.0) (read_refines n w)
          ∙ take-append-drop (min n (length (contents d.ring))) (contents d.ring)
  play_out-ahead (stops ∷ turns) d v =
      play_out-ahead turns (record d { stop_requested = true })
        (record { ring = v.ring; chunks = v.chunks })

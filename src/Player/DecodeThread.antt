-- ===== src/Player/DecodeThread.antt =====
-- src/player/DecodeThread.cpp: the loop that decodes into the ring buffer, a round at a time. The
-- audio callback reads from the ring between the rounds. What `decodeFrames` gives, call after call,
-- is a list; when it has run out, the calls give nothing.
pub mod Stream
mod Tests
use musi_tui.Base.{
  ℕ, ◌*◌, Bool, true, false, List, [], ◌∷◌, Option, ltb, if◌then◌else◌, length, is_empty,
}
use musi_tui.Util.RingBuffer.{RingBuffer, write, available_to_write}

pub record DecodeLoop : Type 0 where
  pub ring : RingBuffer
  pub decoder : List (List ℕ)
  pub end_of_stream : Bool
  pub running : Bool
  pub stop_requested : Bool

-- What follows on a call of `decodeFrames`; one that gives no frames ends the loop.
unfoldable pub take_chunk : List (List ℕ) → DecodeLoop → DecodeLoop
take_chunk [] d = record d { end_of_stream = true; running = false }
take_chunk ([] ∷ rest) d = record d { end_of_stream = true; running = false; decoder = rest }
take_chunk ((x ∷ xs) ∷ rest) d = record d {
  ring = (write d.ring (x ∷ xs) (length (x ∷ xs))).0;
  decoder = rest;
}

-- One round of `decodeLoop`, by the frames of a chunk and the channels. It sleeps where the ring has
-- no room for a whole chunk.
unfoldable pub decode_round : ℕ → ℕ → DecodeLoop → DecodeLoop
unfolding take_chunk
decode_round chunk_frames channels d =
    if d.stop_requested
    then record d { running = false }
    else if ltb (available_to_write d.ring) (chunk_frames * channels)
    then d
    else take_chunk d.decoder d

-- `start`
unfoldable pub start : RingBuffer → List (List ℕ) → DecodeLoop
start ring decoder = record {
  ring = ring;
  decoder = decoder;
  end_of_stream = false;
  running = true;
  stop_requested = false;
}

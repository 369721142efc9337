-- ===== src/Player/DecodeThread/Tests.antt =====
-- A short stream through a small ring, and the theorem at a concrete input.
use musi_tui.Base.{◌≡◌, refl, [], ◌∷◌, ◌++◌, List, arith}
use musi_tui.Util.RingBuffer.{RingBuffer}
use musi_tui.Util.RingBuffer.Invariant.{IsValid}
use musi_tui.Player.DecodeThread.{DecodeLoop, start}
use musi_tui.Player.DecodeThread.Stream.{
  IsReady, Turn, decodes, reads, stops, play_out, ahead, play_out-ahead,
}

abbrev ring : RingBuffer
ring = record { capacity = 4; mask = 3; buffer = 0 ∷ 0 ∷ 0 ∷ 0 ∷ []; write_pos = 0; read_pos = 0 }

ring-IsValid : IsValid 2 ring
ring-IsValid = record {
  exponent = omega arith;
  power = refl;
  low_mask = refl;
  storage = refl;
  write_fits = omega arith;
  read_fits = omega arith;
  bounded = omega arith;
}

-- Two channels, a frame at a time.
abbrev loop : DecodeLoop
loop = start ring ((1 ∷ 2 ∷ []) ∷ (3 ∷ 4 ∷ []) ∷ (5 ∷ 6 ∷ []) ∷ [])

loop-IsReady : IsReady 1 2 2 loop
unfolding start
loop-IsReady = record {
  ring = ring-IsValid;
  chunks = (omega arith, (omega arith, (omega arith, tt)));
}

-- The third round finds the ring full.
abbrev turns : List Turn
turns = decodes ∷ decodes ∷ decodes ∷ reads 3 ∷ decodes ∷ reads 8 ∷ decodes ∷ stops ∷ []

play_out-ahead_example :
    let (heard, after) = play_out 1 2 turns loop in heard ++ ahead 1 2 after ≡ ahead 1 2 loop
play_out-ahead_example = play_out-ahead 1 2 turns loop loop-IsReady

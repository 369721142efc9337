-- ===== src/Util/RingBuffer/Tests.antt =====
-- Runs of the ring, and its theorems at concrete rings.
use musi_tui.Base.{ℕ, ◌-◌, ◌^◌, ◌≤◌, ◌≡◌, refl, List, [], ◌∷◌, arith}
use musi_tui.Util.RingBuffer.{RingBuffer, next_power_of_two}
use musi_tui.Util.RingBuffer.Capacity.{next_power_of_two_least}
use musi_tui.Util.RingBuffer.Invariant.{IsValid}
use musi_tui.Util.RingBuffer.Fifo.{contents}
use musi_tui.Util.RingBuffer.Calls.{
  Call, writes, reads, clears, wrote, got, cleared, run, queue_run, run_refines,
}

-- Three samples across the end of the buffer, and positions about to pass 2 ^ 64.
abbrev wrapped : RingBuffer
wrapped = record {
  capacity = 4;
  mask = 3;
  buffer = 9 ∷ 0 ∷ 7 ∷ 8 ∷ [];
  write_pos = 1;
  read_pos = 2 ^ 64 - 2;
}

wrapped-IsValid : IsValid 2 wrapped
wrapped-IsValid = record {
  exponent = omega arith;
  power = refl;
  low_mask = refl;
  storage = refl;
  write_fits = omega arith;
  read_fits = omega arith;
  bounded = omega arith;
}

contents-wrapped : contents wrapped ≡ 7 ∷ 8 ∷ 9 ∷ []
contents-wrapped = refl

capacities :
    (next_power_of_two 0 ≡ 1) × (next_power_of_two 5 ≡ 8) × (next_power_of_two 768000 ≡ 2 ^ 20)
unfolding next_power_of_two
capacities = (refl, refl, refl)

abbrev script : List Call
script = writes (1 ∷ 2 ∷ []) ∷ reads 3 ∷ reads 9 ∷ clears ∷ reads 1 ∷ []

run-wrapped :
    queue_run 4 (contents wrapped) script
    ≡ wrote 1 ∷ got (7 ∷ 8 ∷ 9 ∷ []) ∷ got (1 ∷ []) ∷ cleared ∷ got [] ∷ []
unfolding queue_run
run-wrapped = refl

next_power_of_two_least_example :
    (k : ℕ) × (next_power_of_two 768000 ≡ 2 ^ k)
    × (k ≤ 63)
    × (768000 ≤ 2 ^ k)
    × ((j : ℕ) → 768000 ≤ 2 ^ j → k ≤ j)
next_power_of_two_least_example = next_power_of_two_least 768000 (omega arith) (omega arith)

run_refines_example : run wrapped script ≡ queue_run 4 (7 ∷ 8 ∷ 9 ∷ []) script
run_refines_example = run_refines script wrapped-IsValid

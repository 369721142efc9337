-- ===== src/Util/RingBuffer/Calls.antt =====
-- Sequences of calls on one ring, and what a caller sees of them.
use musi_tui.Base.{ℕ, zero, suc, ◌^◌, ◌≤◌, ◌≡◌, refl, ◌∙◌, ap, List, [], ◌∷◌, arith, length}
use musi_tui.Util.RingBuffer.Capacity.{next_power_of_two_least}
use musi_tui.Util.RingBuffer.{RingBuffer, init, next_power_of_two, replicate, write, read, clear}
use musi_tui.Util.RingBuffer.Invariant.{IsValid, capacity-le, capacity_pos}
use musi_tui.Util.RingBuffer.Fifo.{
  contents, queue_write, queue_read, write-IsValid, read-IsValid, write_refines,
}
use musi_tui.Util.RingBuffer.Reads.{read_refines}

pub data Call : Type 0 where
  writes : List ℕ → Call
  reads : ℕ → Call
  clears : Call

-- What a call returns: the count of a write, the samples of a read.
pub data Reply : Type 0 where
  wrote : ℕ → Reply
  got : List ℕ → Reply
  cleared : Reply

pub step : RingBuffer → Call → RingBuffer × Reply
step r (writes samples) = let (r', n) = write r samples (length samples) in (r', wrote n)
step r (reads count) = let (r', out) = read r count in (r', got out)
step r clears = (clear r, cleared)

pub run : RingBuffer → List Call → List Reply
run r [] = []
run r (c ∷ cs) = let (r', reply) = step r c in reply ∷ run r' cs

abbrev pub queue_step : ℕ → List ℕ → Call → List ℕ × Reply
queue_step capacity q (writes samples) =
    let (q', n) = queue_write capacity q samples (length samples) in (q', wrote n)
queue_step capacity q (reads count) = let (q', out) = queue_read q count in (q', got out)
queue_step capacity q clears = ([], cleared)

unfoldable pub queue_run : ℕ → List ℕ → List Call → List Reply
queue_run capacity q [] = []
queue_run capacity q (c ∷ cs) =
    let (q', reply) = queue_step capacity q c in reply ∷ queue_run capacity q' cs

-- Every call keeps the representation invariant.
pub step-IsValid : {k : ℕ} {r : RingBuffer} (c : Call) → IsValid k r → IsValid k (step r c).0
unfolding step clear
step-IsValid (writes samples) v = write-IsValid samples (length samples) v
step-IsValid (reads count) v = read-IsValid count v
step-IsValid {k} {r} clears v = record {
  exponent = v.exponent;
  power = v.power;
  low_mask = v.low_mask;
  storage = v.storage;
  write_fits = omega arith;
  read_fits = omega arith;
  bounded = omega arith;
}

capacity-write :
    (r : RingBuffer) (samples : List ℕ) (count : ℕ)
    → (write r samples count).0.capacity ≡ r.capacity
unfolding write
capacity-write r samples count = ground arith

capacity-read : (r : RingBuffer) (count : ℕ) → (read r count).0.capacity ≡ r.capacity
unfolding read
capacity-read r count = ground arith

capacity-step : (r : RingBuffer) (c : Call) → (step r c).0.capacity ≡ r.capacity
unfolding step
capacity-step r (writes samples) = capacity-write r samples (length samples)
capacity-step r (reads count) = capacity-read r count
capacity-step r clears = unfold clear in refl

step_refines :
    {k : ℕ} {r : RingBuffer} (c : Call)
    → IsValid k r
    → let (r', reply) = step r c in (contents r', reply) ≡ queue_step r.capacity (contents r) c
unfolding step
step_refines {k} {r} (writes samples) v =
    ap (λ (p : List ℕ × ℕ). let z : List ℕ × Reply = (p.0, wrote p.1) in z)
      (write_refines samples (length samples) v (omega arith))
step_refines (reads count) v =
    ap (λ (p : List ℕ × List ℕ). let z : List ℕ × Reply = (p.0, got p.1) in z)
      (read_refines count v)
step_refines clears v = unfold clear in refl

-- No sequence of writes, reads and clears tells the ring from the bounded queue of its contents.
pub run_refines :
    (cs : List Call) {k : ℕ} {r : RingBuffer}
    → IsValid k r
    → run r cs ≡ queue_run r.capacity (contents r) cs
unfolding run queue_run
run_refines [] v = refl
run_refines (c ∷ cs) {r = r} v =
    rw (run_refines cs (step-IsValid c v), ← step_refines c v, capacity-step)

length-replicate : (n : ℕ) → length (replicate n) ≡ n
length-replicate zero = refl
length-replicate (suc n) = ap suc (length-replicate n)

-- A new ring for a request of up to 2 ^ 63 samples holds at least that many and is empty.
pub init_usable :
    (n : ℕ)
    → n ≤ 2 ^ 63
    → (k : ℕ) × IsValid k (init n) × (n ≤ (init n).capacity) × (contents (init n) ≡ [])
unfolding init
init_usable zero h =
    let one : next_power_of_two 0 ≡ 1 = unfold next_power_of_two in refl in
    (0, rw one (omega arith), omega arith, refl)
init_usable (suc n) h =
    let (k, e, small, holds, least) = next_power_of_two_least (suc n) (omega arith) h in
    (
      k,
      record {
        exponent = small;
        power = e;
        low_mask = omega (arith, e, capacity-le small, capacity_pos k);
        storage = length-replicate (next_power_of_two (suc n)) ∙ e;
        write_fits = omega arith;
        read_fits = omega arith;
        bounded = omega arith;
      },
      omega (arith, e, holds),
      refl,
    )

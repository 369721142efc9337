-- ===== src/Util/RingBuffer/Fifo.antt =====
-- The ring against a bounded queue of samples, oldest first.
use Prim.Native.Nat.{bit_and}
use native.Mathlib.Nat.{mod-lt}
use musi_tui.Base.{
  ℕ, ◌+◌, ◌-◌, ◌%◌, ◌≤◌, ◌<◌, min, ◌≡◌, ◌∙◌, sym, ap, ap₂, List, ◌++◌, arith, length, ltb, ◌==◌,
  if◌then◌else◌, get_or, take, drop, Bool-cases, inl, inr, false, append-nil,
}
use musi_tui.Base.Tabulate.{tabulate, tabulate_ext, tabulate-add, length-tabulate, take-eq-tabulate}
use musi_tui.Util.RingBuffer.{RingBuffer, sub_size, add_size, copy_in, store_samples, write, read}
use musi_tui.Util.RingBuffer.Invariant.{
  IsValid, used, capacity_pos, capacity-le, wrap_index, write_index, read_index, index_linked,
}
use musi_tui.Util.RingBuffer.Copies.{length-copy_in, get_or-store_samples}

-- The sample `j` places behind the oldest.
abbrev pub place : RingBuffer → ℕ → ℕ
place r j = get_or r.buffer ((r.read_pos % r.capacity + j) % r.capacity) 0

-- The samples held, oldest first.
abbrev pub contents : RingBuffer → List ℕ
contents r = tabulate (used r) (place r)

-- The queue that the ring stands for: a write takes what fits, a read gives what is there.
abbrev pub queue_write : ℕ → List ℕ → List ℕ → ℕ → List ℕ × ℕ
queue_write capacity q samples count =
    let n = min count (capacity - length q) in (q ++ take n samples, n)

abbrev pub queue_read : List ℕ → ℕ → List ℕ × List ℕ
queue_read q count = (drop (min count (length q)) q, take (min count (length q)) q)

module _ {k : ℕ} {r : RingBuffer} (v : IsValid k r) where
  -- How much of `count` samples a write takes.
  abbrev accepted : ℕ → ℕ
  accepted count = min count (sub_size r.capacity (used r))

  accepted-eq : (count : ℕ) → accepted count ≡ min count (r.capacity - used r)
  accepted-eq count = omega (arith, v.power, v.bounded, capacity-le v.exponent)

  abbrev pub head : ℕ
  head = r.read_pos % r.capacity

  pub head-lt : head < r.capacity
  head-lt = mod-lt r.read_pos (omega (arith, v.power, capacity_pos k))

  write_index-eq : bit_and r.write_pos r.mask ≡ (head + used r) % r.capacity
  write_index-eq =
      write_index v ∙ index_linked v ∙ ap (λ c. (r.read_pos % c + used r) % c) (sym v.power)

  pub read_index-eq : bit_and r.read_pos r.mask ≡ head
  read_index-eq = read_index v ∙ ap (λ c. r.read_pos % c) (sym v.power)

  -- Place `j` of the queue after `n` more samples are stored behind it.
  stored :
      (samples : List ℕ) (n : ℕ)
      → n ≤ length samples
      → used r + n ≤ r.capacity
      → (j : ℕ) → j < used r + n
      → get_or (store_samples r (bit_and r.write_pos r.mask) samples n) ((head + j) % r.capacity) 0
        ≡ (if ltb j (used r)
            then get_or r.buffer ((head + j) % r.capacity) 0
            else get_or samples (j - used r) 0)
  stored samples n given fits j h =
      let pos = capacity_pos k in
      let u =
        wrap_index (head + used r) r.capacity (omega (arith, v.power)) (omega (arith, head-lt)) in
      let p = wrap_index (head + j) r.capacity (omega (arith, v.power)) (omega (arith, head-lt)) in
      rw write_index-eq (
        ground (
          arith,
          u,
          p,
          head-lt,
          get_or-store_samples r ((head + used r) % r.capacity) n samples (omega arith)
              (mod-lt (head + used r) (omega (arith, v.power)))
              (omega (arith, v.power, capacity-le v.exponent)) (v.storage ∙ sym v.power) given
              ((head + j) % r.capacity) (mod-lt (head + j) (omega (arith, v.power))),
        ))

  length-store_samples :
      (i : ℕ) (samples : List ℕ) (n : ℕ) → length (store_samples r i samples n) ≡ length r.buffer
  unfolding store_samples
  length-store_samples i samples n =
      let first = min n (sub_size r.capacity i) in
      let once = copy_in r.buffer i (take first samples) in
      ground (
        arith,
        length-copy_in r.buffer i (take first samples),
        length-copy_in once 0 (take (n - first) (drop first samples)),
      )

-- Every write keeps the invariant.
pub write-IsValid :
    {k : ℕ} {r : RingBuffer} (samples : List ℕ) (count : ℕ)
    → IsValid k r
    → IsValid k (write r samples count).0
unfolding write
write-IsValid {k} {r} samples count v = ground (
  arith,
  capacity-le v.exponent,
  length-store_samples v (bit_and r.write_pos r.mask) samples
      (min count (sub_size r.capacity (used r))),
)

pub read-IsValid : {k : ℕ} {r : RingBuffer} (count : ℕ) → IsValid k r → IsValid k (read r count).0
unfolding read
read-IsValid {k} {r} count v = ground (arith, capacity-le v.exponent)

module _ {k : ℕ} {r : RingBuffer} (v : IsValid k r) (samples : List ℕ) (n : ℕ)
    (given : n ≤ length samples) (fits : used r + n ≤ r.capacity) where
  abbrev after_write : RingBuffer
  after_write = record r {
    buffer = store_samples r (bit_and r.write_pos r.mask) samples n;
    write_pos = add_size r.write_pos n;
  }

  used-after_write : used after_write ≡ used r + n
  used-after_write = omega (arith, v.power, v.write_fits, v.read_fits, capacity-le v.exponent)

  contents-after_write : contents after_write ≡ contents r ++ take n samples
  contents-after_write =
      ap (λ t. tabulate t (place after_write)) used-after_write
      ∙ sym (tabulate-add (used r) n (place after_write))
      ∙ ap₂ ◌++◌
          (tabulate_ext (used r) (place after_write) (place r)
            (λ j b. stored v samples n given fits j (omega arith) ∙ ground arith))
          (tabulate_ext n (λ j. place after_write (used r + j)) (λ j. get_or samples j 0)
              (λ j b. stored v samples n given fits (used r + j) (omega arith) ∙ ground arith)
            ∙ sym (take-eq-tabulate n samples 0 given))

pub length-contents : (r : RingBuffer) → length (contents r) ≡ used r
length-contents r = length-tabulate (used r) _

write_none :
    {k : ℕ} {r : RingBuffer} (v : IsValid k r) (samples : List ℕ) (count : ℕ)
    → accepted v count ≡ 0
    → write r samples count ≡ (r, 0)
unfolding write
write_none v samples count e = rw e

write_some :
    {k : ℕ} {r : RingBuffer} (v : IsValid k r) (samples : List ℕ) (count : ℕ)
    → (accepted v count == 0) ≡ false
    → write r samples count ≡ (
      record r {
        buffer = store_samples r (bit_and r.write_pos r.mask) samples (accepted v count);
        write_pos = add_size r.write_pos (accepted v count);
      },
      accepted v count,
    )
unfolding write
write_some v samples count e = rw e

-- The ring after a write holds the samples that fitted behind the old ones, in order, and the
-- number returned is how many fitted.
pub write_refines :
    {k : ℕ} {r : RingBuffer} (samples : List ℕ) (count : ℕ)
    → IsValid k r
    → count ≤ length samples
    → let (r', n) = write r samples count in
      (contents r', n) ≡ queue_write r.capacity (contents r) samples count
write_refines {k} {r} samples count v given =
    let free = accepted-eq v count in
    let fits : used r + accepted v count ≤ r.capacity = omega (arith, v.power, v.bounded) in
    elim (Bool-cases (accepted v count == 0)) [
      | inl nothing ↦
          rw (write_none v samples count (ground arith), length-contents)
            (ground (arith, free, append-nil (contents r)))
      | inr more ↦
          rw (write_some v samples count more, length-contents)
            (ground
              (arith, free, contents-after_write v samples (accepted v count) (omega arith) fits))
    ]

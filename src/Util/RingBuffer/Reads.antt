-- ===== src/Util/RingBuffer/Reads.antt =====
-- What `read` takes out of the ring, and whole sequences of calls.
use Prim.Native.Nat.{bit_and}
use native.Mathlib.Nat.{mod-add-mod}
use musi_tui.Base.{
  ℕ, ◌+◌, ◌-◌, ◌%◌, ◌^◌, ◌≤◌, ◌<◌, min, ◌≡◌, ◌∙◌, sym, ap, [], arith, ltb, ◌==◌, if◌then◌else◌,
  get_or, take, drop, Bool-cases, inl, inr, false,
}
use musi_tui.Base.Tabulate.{tabulate, tabulate_ext, tabulate-add, take-tabulate, drop-tabulate}
use musi_tui.Util.RingBuffer.{RingBuffer, sub_size, add_size, copy_out, load_samples, read}
use musi_tui.Util.RingBuffer.Invariant.{IsValid, used, capacity-le, wrap_index, mod-size_mod}
use musi_tui.Util.RingBuffer.Copies.{copy_out-eq-tabulate}
use musi_tui.Util.RingBuffer.Fifo.{
  contents, queue_read, length-contents, head, head-lt, read_index-eq, place,
}

module _ {k : ℕ} {r : RingBuffer} (v : IsValid k r) (n : ℕ) (held : n ≤ used r) where
  ahead : used r ≤ r.capacity
  ahead = omega (arith, v.bounded, v.power)

  abbrev first : ℕ
  first = min n (r.capacity - head v)

  place_wrap :
      (j : ℕ)
      → j < r.capacity
      → (head v + j) % r.capacity
        ≡ (if ltb (head v + j) r.capacity then head v + j else head v + j - r.capacity)
  place_wrap j h = wrap_index (head v + j) r.capacity (omega arith) (omega (arith, head-lt v))

  -- The first copy stops at the end of the buffer, the second goes on from its start.
  copy_first : copy_out r.buffer (head v) first ≡ tabulate first (place r)
  copy_first =
      copy_out-eq-tabulate r.buffer (head v) first (omega (arith, head-lt v, v.storage, v.power))
      ∙ tabulate_ext first _ (place r)
          (λ j b. ap (λ i. get_or r.buffer i 0) (ground (arith, place_wrap j, ahead)))

  copy_second : copy_out r.buffer 0 (n - first) ≡ tabulate (n - first) (λ j. place r (first + j))
  copy_second =
      copy_out-eq-tabulate r.buffer 0 (n - first) (omega (arith, v.storage, v.power, ahead))
      ∙ tabulate_ext (n - first) _ (λ j. place r (first + j))
          (λ j b. ap (λ i. get_or r.buffer i 0) (ground (arith, place_wrap (first + j), ahead)))

  load_samples-eq : load_samples r (head v) n ≡ tabulate n (place r)
  unfolding load_samples
  load_samples-eq =
      let exact : min n (sub_size r.capacity (head v)) ≡ first =
        omega (arith, head-lt v, v.power, capacity-le v.exponent) in
      rw exact (elim (Bool-cases (ltb 0 (n - first))) [
        | inl round ↦
            rw (round, copy_first, copy_second)
              (tabulate-add first (n - first) (place r)
                ∙ ap (λ t. tabulate t (place r)) (omega arith))
        | inr straight ↦ rw (straight, copy_first) (ap (λ t. tabulate t (place r)) (ground arith))
      ])

  load_samples-take : load_samples r (bit_and r.read_pos r.mask) n ≡ take n (contents r)
  load_samples-take =
      ap (λ i. load_samples r i n) (read_index-eq v)
      ∙ load_samples-eq
      ∙ sym (take-tabulate n (used r) (place r) held)

  abbrev after_read : RingBuffer
  after_read = record r { read_pos = add_size r.read_pos n }

  used-after_read : used after_read ≡ used r - n
  used-after_read = omega (arith, v.power, v.write_fits, v.read_fits, capacity-le v.exponent)

  place-after_read : (j : ℕ) → place after_read j ≡ place r (n + j)
  place-after_read j =
      ap (λ i. get_or r.buffer ((i + j) % r.capacity) 0)
        (ap (λ c. (r.read_pos + n) % 2 ^ 64 % c) v.power
          ∙ mod-size_mod (r.read_pos + n) v.exponent
          ∙ ap (λ c. (r.read_pos + n) % c) (sym v.power))
      ∙ ap (λ i. get_or r.buffer i 0)
          (mod-add-mod (r.read_pos + n) r.capacity j
            ∙ ap (λ i. i % r.capacity) {x = r.read_pos + n + j} {y = r.read_pos + (n + j)}
                (omega arith)
            ∙ sym (mod-add-mod r.read_pos r.capacity (n + j)))

  contents-after_read : contents after_read ≡ drop n (contents r)
  contents-after_read =
      ap (λ t. tabulate t (place after_read)) used-after_read
      ∙ tabulate_ext (used r - n) (place after_read) (λ j. place r (n + j))
          (λ j b. place-after_read j)
      ∙ sym (drop-tabulate n (used r) (place r) held)

read_none : (r : RingBuffer) (count : ℕ) → min count (used r) ≡ 0 → read r count ≡ (r, [])
unfolding read
read_none r count e = rw e

read_some :
    (r : RingBuffer) (count : ℕ)
    → (min count (used r) == 0) ≡ false
    → read r count ≡ (
      record r { read_pos = add_size r.read_pos (min count (used r)) },
      load_samples r (bit_and r.read_pos r.mask) (min count (used r)),
    )
unfolding read
read_some r count e = rw e

-- A read hands over the oldest samples, as many as asked for and held, in order, and keeps the rest.
pub read_refines :
    {k : ℕ} {r : RingBuffer} (count : ℕ)
    → IsValid k r
    → let (r', out) = read r count in (contents r', out) ≡ queue_read (contents r) count
read_refines {k} {r} count v = elim (Bool-cases (min count (used r) == 0)) [
  | inl nothing ↦ rw (read_none r count (ground arith), length-contents) (ground arith)
  | inr more ↦
      rw (read_some r count more, length-contents)
        (ground (
          arith,
          contents-after_read v (min count (used r)) (omega arith),
          load_samples-take v (min count (used r)) (omega arith),
        ))
]

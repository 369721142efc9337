-- ===== src/Util/RingBuffer.antt =====
-- src/util/RingBuffer.h at `RingBuffer<int16_t>`, the instance that the player uses.
-- A `std::size_t` is a number below 2 ^ 64, with its wrap-around written out.
pub mod Capacity
pub mod Invariant
mod Copies
pub mod Fifo
pub mod Reads
pub mod Calls
mod Tests
use Prim.Native.Nat.{bit_and, bit_or}
use musi_tui.Base.{
  ℕ, zero, suc, ◌+◌, ◌-◌, ◌/◌, ◌%◌, ◌^◌, min, List, [], ◌∷◌, ◌++◌, Bool, ◌==◌, ltb, if◌then◌else◌,
  set, take, drop, length,
}

-- Samples are only moved, never computed with, so a sample is any number.
pub record RingBuffer : Type 0 where
  pub capacity : ℕ
  pub mask : ℕ
  pub buffer : List ℕ
  pub write_pos : ℕ
  pub read_pos : ℕ

abbrev pub size_mod : ℕ
size_mod = 2 ^ 64

-- `std::size_t` subtraction and addition
abbrev pub sub_size : ℕ → ℕ → ℕ
sub_size a b = (a + size_mod - b) % size_mod

abbrev pub add_size : ℕ → ℕ → ℕ
add_size a b = (a + b) % size_mod

-- `n |= n >> k`
abbrev pub smear : ℕ → ℕ → ℕ
smear k n = bit_or n (n / 2 ^ k)

pub next_power_of_two : ℕ → ℕ
next_power_of_two n =
    if n == 0
    then 1
    else add_size (smear 32 (smear 16 (smear 8 (smear 4 (smear 2 (smear 1 (sub_size n 1))))))) 1

abbrev replicate : ℕ → List ℕ
replicate zero = []
replicate (suc n) = 0 ∷ replicate n

pub init : ℕ → RingBuffer
init requested = record {
  capacity = next_power_of_two requested;
  mask = sub_size (next_power_of_two requested) 1;
  buffer = replicate (next_power_of_two requested);
  write_pos = 0;
  read_pos = 0;
}

pub available_to_read : RingBuffer → ℕ
available_to_read r = sub_size r.write_pos r.read_pos

unfoldable pub available_to_write : RingBuffer → ℕ
available_to_write r = sub_size r.capacity (sub_size r.write_pos r.read_pos)

pub is_empty_buffer : RingBuffer → Bool
unfolding available_to_read
is_empty_buffer r = available_to_read r == 0

-- `memcpy` into the buffer at an index, and out of it.
pub copy_in : List ℕ → ℕ → List ℕ → List ℕ
copy_in buf i [] = buf
copy_in buf i (x ∷ xs) = copy_in (set buf i x) (i + 1) xs

abbrev pub copy_out : List ℕ → ℕ → ℕ → List ℕ
copy_out buf i n = take n (drop i buf)

-- Both copies of `write`: to the end of the buffer, and the rest from its start.
pub store_samples : RingBuffer → ℕ → List ℕ → ℕ → List ℕ
store_samples r index samples to_write =
    let first_part = min to_write (sub_size r.capacity index) in
    let second_part = to_write - first_part in
    let once = copy_in r.buffer index (take first_part samples) in
    if ltb 0 second_part then copy_in once 0 (take second_part (drop first_part samples)) else once

-- The result is the new buffer and the number of samples written. The caller's array holds
-- `count` samples at least, so the list that stands for it is that long.
pub write : RingBuffer → List ℕ → ℕ → RingBuffer × ℕ
write r samples count =
    let available = sub_size r.capacity (sub_size r.write_pos r.read_pos) in
    let to_write = min count available in
    if to_write == 0 then (r, 0) else (
      record r {
        buffer = store_samples r (bit_and r.write_pos r.mask) samples to_write;
        write_pos = add_size r.write_pos to_write;
      },
      to_write,
    )

-- Both copies of `read`.
pub load_samples : RingBuffer → ℕ → ℕ → List ℕ
load_samples r index to_read =
    let first_part = min to_read (sub_size r.capacity index) in
    let second_part = to_read - first_part in
    let once = copy_out r.buffer index first_part in
    if ltb 0 second_part then once ++ copy_out r.buffer 0 second_part else once

-- The result is the new buffer, and what goes to the caller's array.
pub read : RingBuffer → ℕ → RingBuffer × List ℕ
read r count =
    let available = sub_size r.write_pos r.read_pos in
    let to_read = min count available in
    if to_read == 0 then (r, []) else (
      record r { read_pos = add_size r.read_pos to_read },
      load_samples r (bit_and r.read_pos r.mask) to_read,
    )

pub clear : RingBuffer → RingBuffer
clear r = record r { write_pos = 0; read_pos = 0 }

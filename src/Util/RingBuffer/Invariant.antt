-- ===== src/Util/RingBuffer/Invariant.antt =====
-- The representation invariant of the ring: positions count modulo 2 ^ 64, the capacity is a
-- power of two, and never more than the capacity lies between the positions.
use Prim.Native.Nat.{bit_and}
use native.Mathlib.Nat.{
  mod-mod_of_dvd, mod-lt, one-le-pow, mod-add-mod, mod-eq_of_lt, pow-le-pow_right, mod-eq-sub-mod,
  dvd-mul_right, pow-suc,
}
use musi_tui.Base.{
  ℕ, zero, suc, ◌+◌, ◌-◌, ◌*◌, ◌%◌, ◌^◌, ◌≤◌, ◌<◌, ◌≡◌, ◌∙◌, sym, ap, arith, length, ltb,
  if◌then◌else◌, dec_lt,
}
use musi_tui.Base.Bits.{bit_and_low_mask}
use musi_tui.Util.RingBuffer.{RingBuffer, sub_size}

-- `k` is the exponent of the capacity.
pub record IsValid (k : ℕ) (r : RingBuffer) : Type 0 where
  pub exponent : k ≤ 63
  pub power : r.capacity ≡ 2 ^ k
  pub low_mask : r.mask ≡ 2 ^ k - 1
  pub storage : length r.buffer ≡ 2 ^ k
  pub write_fits : r.write_pos < 2 ^ 64
  pub read_fits : r.read_pos < 2 ^ 64
  pub bounded : sub_size r.write_pos r.read_pos ≤ 2 ^ k

-- The number of samples held.
abbrev pub used : RingBuffer → ℕ
used r = sub_size r.write_pos r.read_pos

pub capacity_pos : (k : ℕ) → 0 < 2 ^ k
capacity_pos k = one-le-pow k 2 (omega arith)

pub capacity-le : {k : ℕ} → k ≤ 63 → 2 ^ k ≤ 2 ^ 63
capacity-le {k} h = pow-le-pow_right {n = 2} (omega arith) {i = k} {j = 63} h

pub pow-add : (k j : ℕ) → 2 ^ (k + j) ≡ 2 ^ k * 2 ^ j
pow-add k zero = ap (λ t. 2 ^ t) {x = k + 0} {y = k} (omega arith) ∙ omega arith
pow-add k (suc j) =
    ap (λ t. 2 ^ t) {x = k + suc j} {y = suc (k + j)} (omega arith)
    ∙ omega
        (arith, pow-suc 2 (k + j), ap (λ t. t * 2) (pow-add k j), ap (λ t. 2 ^ k * t) (pow-suc 2 j))

-- Reducing modulo 2 ^ 64 first changes no index.
pub mod-size_mod : {k : ℕ} (a : ℕ) → k ≤ 63 → a % 2 ^ 64 % 2 ^ k ≡ a % 2 ^ k
mod-size_mod {k} a h = mod-mod_of_dvd (2 ^ k) a (
    rw (ap (λ t. 2 ^ t) {x = 64} {y = k + (64 - k)} (omega arith), pow-add k (64 - k))
      (dvd-mul_right (2 ^ k) (2 ^ (64 - k))))

-- An index below twice the capacity goes round at most once.
pub wrap_index : (a c : ℕ) → 0 < c → a < c + c → a % c ≡ (if ltb a c then a else a - c)
wrap_index a c pos h = elim (dec_lt a c) [
  | yes small ↦ ground (arith, mod-eq_of_lt small)
  | no large ↦ ground (
    arith,
    mod-eq-sub-mod {n = a} {m = c} (omega arith),
    mod-eq_of_lt {n = a - c} {m = c} (omega arith),
  )
]

module _ {k : ℕ} {r : RingBuffer} (v : IsValid k r) where
  pub write_index : bit_and r.write_pos r.mask ≡ r.write_pos % 2 ^ k
  write_index = ap (λ t. bit_and r.write_pos t) v.low_mask ∙ bit_and_low_mask k r.write_pos

  pub read_index : bit_and r.read_pos r.mask ≡ r.read_pos % 2 ^ k
  read_index = ap (λ t. bit_and r.read_pos t) v.low_mask ∙ bit_and_low_mask k r.read_pos

  -- The write index is `used` places after the read index.
  pub index_linked : r.write_pos % 2 ^ k ≡ (r.read_pos % 2 ^ k + used r) % 2 ^ k
  index_linked =
      ap (λ t. t % 2 ^ k) {y = (r.read_pos + used r) % 2 ^ 64}
        (omega (arith, v.write_fits, v.read_fits))
      ∙ mod-size_mod (r.read_pos + used r) v.exponent
      ∙ sym (mod-add-mod r.read_pos (2 ^ k) (used r))

  pub index_bounds : (r.write_pos % 2 ^ k < 2 ^ k) × (r.read_pos % 2 ^ k < 2 ^ k)
  index_bounds = (mod-lt r.write_pos (capacity_pos k), mod-lt r.read_pos (capacity_pos k))

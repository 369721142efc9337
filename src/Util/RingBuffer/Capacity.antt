-- ===== src/Util/RingBuffer/Capacity.antt =====
-- `nextPowerOfTwo`: the smallest power of two that holds the requested capacity.
use Prim.Native.Nat.{bit_or}
use native.Mathlib.Nat.{
  pow-suc, one-le-pow, mul-le-mul_right, div-le_self, mod-lt, mod-add-div', div-lt_iff_lt-mul,
  le-div_iff_mul-le, pow-le-pow_right,
}
use musi_tui.Base.{
  ℕ, zero, suc, ◌+◌, ◌-◌, ◌*◌, ◌/◌, ◌%◌, ◌^◌, ◌≤◌, ◌<◌, ◌≡◌, refl, ◌∙◌, sym, ap, subst, arith,
  dec_le, ◌==◌, false,
}
use musi_tui.Base.Bits.{bit_or_low}
use musi_tui.Util.RingBuffer.Invariant.{pow-add}
use musi_tui.Util.RingBuffer.{smear, next_power_of_two, sub_size, add_size}

-- `x | y` is at least both, and stays below a power of two that bounds both.
bit_or_bounds :
    (w x y : ℕ) → x < 2 ^ w → y < 2 ^ w → (x ≤ bit_or x y) × (y ≤ bit_or x y) × (bit_or x y < 2 ^ w)
bit_or_bounds zero zero zero hx hy = omega arith
bit_or_bounds zero (suc x) y hx hy = absurd (omega arith)
bit_or_bounds zero zero (suc y) hx hy = absurd (omega arith)
bit_or_bounds (suc w) x y hx hy = omega (
  arith,
  bit_or_low x y,
  bit_or_bounds w (x / 2) (y / 2) (omega (arith, pow-suc 2 w)) (omega (arith, pow-suc 2 w)),
  pow-suc 2 w,
)

bit_or-zero_fuel : (n x : ℕ) → x ≤ n → bit_or x 0 ≡ x
bit_or-zero_fuel n zero h = refl
bit_or-zero_fuel zero (suc x) h = absurd (omega arith)
bit_or-zero_fuel (suc n) (suc x) h =
    omega (arith, bit_or_low (suc x) 0, bit_or-zero_fuel n (suc x / 2) (omega arith))

-- A second operand below `2 ^ s` leaves the digits from place `s` on alone.
bit_or_high :
    (s q x y : ℕ) → x < 2 ^ s → y < 2 ^ s → bit_or (q * 2 ^ s + x) y ≡ q * 2 ^ s + bit_or x y
bit_or_high zero q zero zero hx hy =
    bit_or-zero_fuel (q * 1 + 0) (q * 1 + 0) (omega arith) ∙ omega arith
bit_or_high zero q (suc x) y hx hy = absurd (omega arith)
bit_or_high zero q zero (suc y) hx hy = absurd (omega arith)
bit_or_high (suc s) q x y hx hy =
    let half = ap (λ (t : ℕ). q * t) (pow-suc 2 s) in
    let parts : ((q * 2 ^ suc s + x) / 2 ≡ q * 2 ^ s + x / 2) × ((q * 2 ^ suc s + x) % 2 ≡ x % 2) =
      omega (arith, half) in
    omega (
      arith,
      half,
      bit_or_low (q * 2 ^ suc s + x) y,
      ap (λ (t : ℕ). bit_or t (y / 2)) parts.0,
      parts.1,
      bit_or_low x y,
      bit_or_high s q (x / 2) (y / 2) (omega (arith, pow-suc 2 s)) (omega (arith, pow-suc 2 s)),
    )

-- The `w` binary digits of `x` begin with `m` ones.
abbrev HasOnes : ℕ → ℕ → ℕ → Type 0
HasOnes w m x = (x < 2 ^ w) × (2 ^ w ≤ x + 2 ^ (w - m))

pow-sub : (w s : ℕ) → s ≤ w → 2 ^ w ≡ 2 ^ (w - s) * 2 ^ s
pow-sub w s h = ap (λ t. 2 ^ t) {x = w} {y = w - s + s} (omega arith) ∙ pow-add (w - s) s

-- The shifted number begins with as many ones as there are in front of it.
shifted : (x p s t : ℕ) → 0 < p → p * s ≤ x + s → s ≤ p * t → s ≤ x / p + t
shifted x p s t pos ones fits = omega (arith, (le-div_iff_mul-le pos).1 (enough))
  where
    enough : (s - t) * p ≤ x
    enough = grind arith

high_part : (x p s : ℕ) → 0 < s → p * s ≤ x + s → p * s ≤ x / s * s + s
high_part x zero s pos ones = omega arith
high_part x (suc p) s pos ones =
    let below : p * s ≤ x = omega arith in
    let less : p * s ≤ x / s * s = mul-le-mul_right s ((le-div_iff_mul-le pos).1 below) in
    omega arith

module _ (w m x : ℕ) (small : m ≤ w) (below : x < 2 ^ w) (ones : 2 ^ w ≤ x + 2 ^ (w - m)) where
  abbrev p : ℕ
  p = 2 ^ m

  abbrev s : ℕ
  s = 2 ^ (w - m)

  split : 2 ^ w ≡ p * s
  split = ap (λ t. 2 ^ t) {x = w} {y = m + (w - m)} (omega arith) ∙ pow-add m (w - m)

  shift_below : x / p < s
  shift_below = (div-lt_iff_lt-mul (one-le-pow m 2 (omega arith))).1 (omega (arith, split))

  smear_split : smear m x ≡ x / s * s + bit_or (x % s) (x / p)
  smear_split =
      ap (λ t. bit_or t (x / p)) (sym (mod-add-div' x s) ∙ omega arith)
      ∙ bit_or_high (w - m) (x / s) (x % s) (x / p) (mod-lt x (one-le-pow (w - m) 2 (omega arith)))
          shift_below

  room : s ≤ p * 2 ^ (w - (m + m))
  room =
      rw (← pow-add m (w - (m + m)))
        (pow-le-pow_right {n = 2} (omega arith) {i = w - m} {j = m + (w - (m + m))} (omega arith))

  -- The bound splits at place `w - m`: ones before it stay, and the shifted ones follow it.
  smear_small : HasOnes w (m + m) (smear m x)
  smear_small =
      let pos = one-le-pow m 2 (omega arith) in
      let s_pos = one-le-pow (w - m) 2 (omega arith) in
      (
        ((bit_or_bounds w x (x / p) below (le_trans' below)).2),
        omega (
          arith,
          split,
          smear_split,
          high_part x p s s_pos (omega (arith, split)),
          shifted x p s (2 ^ (w - (m + m))) pos (omega (arith, split)) room,
          (bit_or_bounds (w - m) (x % s) (x / p) (mod-lt x s_pos) shift_below).1,
        ),
      )
    where
      le_trans' : x < 2 ^ w → x / p < 2 ^ w
      le_trans' h = omega (arith, div-le_self x p)

-- `x | x >> m` doubles the number of ones.
smear-HasOnes : (w m x : ℕ) → HasOnes w m x → HasOnes w (m + m) (smear m x)
smear-HasOnes w m x (below, ones) = elim (dec_le m w) [
  | yes small ↦ smear_small w m x small below ones
  | no large ↦
      let ends : (w - m ≡ 0) × (w - (m + m) ≡ 0) = omega arith in
      let kept = bit_or_bounds w x (x / 2 ^ m) below (omega (arith, div-le_self x (2 ^ m))) in
      let full : 2 ^ w ≤ x + 1 = subst (λ t. 2 ^ w ≤ x + 2 ^ t) ends.0 ones in
      (kept.2, rw (ends.1) (omega (arith, kept.0)))
]

-- The place of the highest one of a positive number.
top_one : (f x : ℕ) → x ≤ f → 0 < x → (w : ℕ) × (2 ^ w ≤ x) × (x < 2 ^ suc w)
top_one zero x h pos = absurd (omega arith)
top_one (suc f) x h pos = elim (dec_le x 1) [
  | yes one ↦ (0, omega arith, omega arith)
  | no more ↦
      let (w, low, high) = top_one f (x / 2) (omega arith) (omega arith) in
      (suc w, omega (arith, pow-suc 2 w), omega (arith, pow-suc 2 (suc w)))
]

top_one-HasOnes : (w x : ℕ) → 2 ^ w ≤ x → x < 2 ^ suc w → HasOnes (suc w) 1 x
top_one-HasOnes w x low high = (
  high,
  subst (λ t. 2 ^ suc w ≤ x + 2 ^ t) {x = w} {y = suc w - 1} (omega arith)
      (omega (arith, pow-suc 2 w)),
)

abbrev smear_all : ℕ → ℕ
smear_all x = smear 32 (smear 16 (smear 8 (smear 4 (smear 2 (smear 1 x)))))

-- Six rounds fill every place below the highest one of a 64-bit number.
smear_all-eq : (w x : ℕ) → w ≤ 64 → HasOnes w 1 x → smear_all x + 1 ≡ 2 ^ w
smear_all-eq w x fits h =
    let one = smear-HasOnes w 1 x h in
    let two = smear-HasOnes w 2 (smear 1 x) one in
    let three = smear-HasOnes w 4 (smear 2 (smear 1 x)) two in
    let four = smear-HasOnes w 8 (smear 4 (smear 2 (smear 1 x))) three in
    let five = smear-HasOnes w 16 (smear 8 (smear 4 (smear 2 (smear 1 x)))) four in
    let six = smear-HasOnes w 32 (smear 16 (smear 8 (smear 4 (smear 2 (smear 1 x))))) five in
    let filled : (smear_all x < 2 ^ w) × (2 ^ w ≤ smear_all x + 1) =
      (six.0, subst (λ t. 2 ^ w ≤ smear_all x + 2 ^ t) {x = w - 64} {y = 0} (omega arith) six.1) in
    omega (arith, filled)

pow-lt_inv : (a b : ℕ) → 2 ^ a < 2 ^ b → a < b
pow-lt_inv a b h = elim (dec_le b a) [
  | yes le ↦ absurd (omega (arith, pow-le-pow_right {n = 2} (omega arith) {i = b} {j = a} le))
  | no more ↦ omega arith
]

next_power_of_two-smear_all :
    (n : ℕ) → 0 < n → n ≤ 2 ^ 63 → next_power_of_two n ≡ add_size (smear_all (n - 1)) 1
unfolding next_power_of_two
next_power_of_two-smear_all n pos fits =
    let previous : sub_size n 1 ≡ n - 1 = omega arith in
    let positive : (n == 0) ≡ false = ground arith in rw (previous, positive)

-- For a request from 1 to 2 ^ 63 the capacity is a power of two that holds the request, and no
-- smaller power does.
pub next_power_of_two_least :
    (n : ℕ)
    → 0 < n
    → n ≤ 2 ^ 63
    → (k : ℕ) × (next_power_of_two n ≡ 2 ^ k)
      × (k ≤ 63)
      × (n ≤ 2 ^ k)
      × ((j : ℕ) → n ≤ 2 ^ j → k ≤ j)
next_power_of_two_least n pos fits = elim (dec_le n 1) [
  | yes one ↦ (
    0,
    ap next_power_of_two {y = 1} (omega arith) ∙ unfold next_power_of_two in refl,
    omega arith,
    one,
    λ j h. omega arith,
  )
  | no more ↦
      let (w, low, high) = top_one n (n - 1) (omega arith) (omega arith) in
      let small : w < 63 = pow-lt_inv w 63 (omega arith) in
      let filled =
        smear_all-eq (suc w) (n - 1) (omega arith) (top_one-HasOnes w (n - 1) low high) in
      let cap = pow-le-pow_right {n = 2} (omega arith) {i = suc w} {j = 63} small in
      (
        suc w,
        next_power_of_two-smear_all n pos fits ∙ omega (arith, filled, cap),
        small,
        omega arith,
        λ j h. pow-lt_inv w j (omega arith),
      )
]

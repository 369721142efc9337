-- ===== src/Util/RingBuffer/Copies.antt =====
-- What the two `memcpy` of `write` and of `read` move, place by place.
use musi_tui.Base.{
  ℕ, zero, suc, ◌+◌, ◌-◌, ◌^◌, ◌≤◌, ◌<◌, min, ◌≡◌, refl, ◌∙◌, ap, List, [], ◌∷◌, ◌&&◌, arith,
  length, length-set, length-take, length-drop, ltb, leb, if◌then◌else◌, ℕ_discrete, get_or, set,
  take, drop, get_or-set_self, get_or-set_ne,
}
use musi_tui.Base.Tabulate.{tabulate, tabulate_ext, take-eq-tabulate, get_or-take, get_or-drop}
use musi_tui.Util.RingBuffer.{RingBuffer, sub_size, copy_in, copy_out, store_samples}

pub length-copy_in : (buf : List ℕ) (i : ℕ) (xs : List ℕ) → length (copy_in buf i xs) ≡ length buf
unfolding copy_in
length-copy_in buf i [] = refl
length-copy_in buf i (x ∷ xs) = length-copy_in (set buf i x) (i + 1) xs ∙ length-set buf i x

get_or-copy_in_outside :
    (buf : List ℕ) (i : ℕ) (xs : List ℕ) (j : ℕ)
    → j < i
    → get_or (copy_in buf i xs) j 0 ≡ get_or buf j 0
unfolding copy_in
get_or-copy_in_outside buf i [] j h = refl
get_or-copy_in_outside buf i (x ∷ xs) j h =
    get_or-copy_in_outside (set buf i x) (i + 1) xs j (omega arith)
    ∙ get_or-set_ne buf {i = i} {j = j} x 0 (λ e. omega arith)

get_or_later : (x : ℕ) (xs : List ℕ) (n : ℕ) → 0 < n → get_or (x ∷ xs) n 0 ≡ get_or xs (n - 1) 0
get_or_later x xs zero h = absurd (omega arith)
get_or_later x xs (suc n) h = ap (λ t. get_or xs t 0) {x = n} {y = suc n - 1} (omega arith)

pub get_or-copy_in :
    (buf : List ℕ) (i : ℕ) (xs : List ℕ) (j : ℕ)
    → i + length xs ≤ length buf
    → get_or (copy_in buf i xs) j 0
      ≡ (if leb i j && ltb j (i + length xs) then get_or xs (j - i) 0 else get_or buf j 0)
unfolding copy_in
get_or-copy_in buf i [] j h = ground arith
get_or-copy_in buf i (x ∷ xs) j h = elim (ℕ_discrete i j) [
  | yes e ↦ ground (
    arith,
    get_or-copy_in_outside (set buf i x) (i + 1) xs j (omega arith),
    get_or-set_self buf i x 0 (omega arith),
  )
  | no ne ↦ ground (
    arith,
    get_or-copy_in (set buf i x) (i + 1) xs j (omega (arith, length-set buf i x)),
    get_or-set_ne buf {i = i} {j = j} x 0 ne,
    get_or_later x xs (j - i),
  )
]

-- Reading `n` places from `i` on, inside the buffer.
pub copy_out-eq-tabulate :
    (buf : List ℕ) (i n : ℕ)
    → i + n ≤ length buf
    → copy_out buf i n ≡ tabulate n (λ j. get_or buf (i + j) 0)
copy_out-eq-tabulate buf i n h =
    take-eq-tabulate n (drop i buf) 0 (omega (arith, length-drop i buf))
    ∙ tabulate_ext n _ _ (λ j b. get_or-drop i j buf 0)

module _ (r : RingBuffer) (index n : ℕ) (samples : List ℕ) (fits : n ≤ r.capacity)
    (inside : index < r.capacity) (small : r.capacity ≤ 2 ^ 63)
    (room : length r.buffer ≡ r.capacity) (given : n ≤ length samples) where
  abbrev first : ℕ
  first = min n (sub_size r.capacity index)

  abbrev once : List ℕ
  once = copy_in r.buffer index (take first samples)

  abbrev rest : List ℕ
  rest = take (n - first) (drop first samples)

  first-eq : first ≡ min n (r.capacity - index)
  first-eq = omega arith

  length-first : length (take first samples) ≡ first
  length-first = omega (arith, length-take first samples)

  length-rest : length rest ≡ n - first
  length-rest =
      omega (arith, length-take (n - first) (drop first samples), length-drop first samples)

  get_or-once :
      (j : ℕ)
      → get_or once j 0 ≡ (
          if leb index j && ltb j (index + first)
          then get_or samples (j - index) 0
          else get_or r.buffer j 0)
  get_or-once j = ground (
    arith,
    get_or-copy_in r.buffer index (take first samples) j (omega (arith, length-first)),
    length-first,
    get_or-take first (j - index) samples 0,
  )

  get_or-twice :
      (j : ℕ)
      → get_or (copy_in once 0 rest) j 0
        ≡ (if ltb j (n - first) then get_or samples (first + j) 0 else get_or once j 0)
  get_or-twice j = ground (
    arith,
    get_or-copy_in once 0 rest j
        (omega (arith, length-rest, length-copy_in r.buffer index (take first samples))),
    length-rest,
    get_or-take (n - first) j (drop first samples) 0,
    get_or-drop first j samples 0,
  )

  -- The sample that `write` leaves at place `j`: the one `j - index` places into the input, going
  -- round at the capacity, or the old one.
  pub get_or-store_samples :
      (j : ℕ)
      → j < r.capacity
      → get_or (store_samples r index samples n) j 0 ≡ (
          if leb index j && ltb j (index + n)
          then get_or samples (j - index) 0
          else if ltb (j + r.capacity) (index + n)
          then get_or samples (j + r.capacity - index) 0
          else get_or r.buffer j 0)
  unfolding store_samples
  get_or-store_samples j h = ground (arith, get_or-once j, get_or-twice j, first-eq)

-- ===== src/Util/PathValidator/Utf8.antt =====
-- What `isValidUtf8` lets through, against the encoding of code points.
mod Lead
use Prim.Native.Nat.{bit_and}
use musi_tui.Base.{
  ℕ, zero, suc, ◌+◌, ◌-◌, ◌*◌, ◌/◌, ◌%◌, ◌≤◌, ◌<◌, ◌≡◌, refl, ap, ap₂, ◌∙◌, sym, inl, inr, Bool,
  true, false, not, ◌&&◌, ◌||◌, ◌==◌, ltb, leb, List, [], ◌∷◌, ◌++◌, Option, none, some,
  Option-cases, Bool-cases, ℕ_discrete, length, get_or, All, arith, if◌then◌else◌,
}
use musi_tui.Base.Text.{Text}
use musi_tui.Util.Json.RoundTrip.{IsByte}
use musi_tui.Util.PathValidator.{sequence_after, utf8_from, is_valid_utf8}
use musi_tui.Util.PathValidator.Utf8.Lead.{IsContinuation, Follows, sequence_after-Follows}

-- The bytes of a code point, in the shortest form.
unfoldable pub encode : ℕ → Text
encode cp =
    if ltb cp 0x80
    then cp ∷ []
    else if ltb cp 0x800
    then (0xC0 + cp / 64) ∷ (0x80 + cp % 64) ∷ []
    else if ltb cp 0x10000
    then (0xE0 + cp / 4096) ∷ (0x80 + cp / 64 % 64) ∷ (0x80 + cp % 64) ∷ []
    else (0xF0 + cp / 262144)
      ∷ (0x80 + cp / 4096 % 64)
      ∷ (0x80 + cp / 64 % 64)
      ∷ (0x80 + cp % 64)
      ∷ []

unfoldable pub encode_all : List ℕ → Text
encode_all [] = []
encode_all (cp ∷ cps) = encode cp ++ encode_all cps

-- The encodings, from the bits that each byte carries.
encode-two :
    (x y : ℕ) → 2 ≤ x → x < 32 → y < 64 → encode (x * 64 + y) ≡ (0xC0 + x) ∷ (0x80 + y) ∷ []
unfolding encode
encode-two x y low high hy =
    let above : ltb (x * 64 + y) 0x80 ≡ false = ground arith in
    let inside : ltb (x * 64 + y) 0x800 ≡ true = ground arith in
    rw (above, inside) (ap₂ (λ p q. p ∷ q ∷ []) (omega arith) (omega arith))

encode-three :
    (x y z : ℕ)
    → 32 ≤ x * 64 + y
    → x < 16
    → y < 64
    → z < 64
    → encode (x * 4096 + y * 64 + z) ≡ (0xE0 + x) ∷ (0x80 + y) ∷ (0x80 + z) ∷ []
unfolding encode
encode-three x y z low hx hy hz =
    let cp = x * 4096 + y * 64 + z in
    let above : ltb cp 0x80 ≡ false = ground arith in
    let above' : ltb cp 0x800 ≡ false = ground arith in
    let inside : ltb cp 0x10000 ≡ true = ground arith in
    rw (above, above', inside)
      (ap₂ (λ p q. p ∷ q) (omega arith) (ap₂ (λ p q. p ∷ q ∷ []) (omega arith) (omega arith)))

encode-four :
    (x y z w : ℕ)
    → 16 ≤ x * 64 + y
    → y < 64
    → z < 64
    → w < 64
    → encode (x * 262144 + y * 4096 + z * 64 + w)
      ≡ (0xF0 + x) ∷ (0x80 + y) ∷ (0x80 + z) ∷ (0x80 + w) ∷ []
unfolding encode
encode-four x y z w low hy hz hw =
    let cp = x * 262144 + y * 4096 + z * 64 + w in
    let above : ltb cp 0x80 ≡ false = ground arith in
    let above' : ltb cp 0x800 ≡ false = ground arith in
    let above'' : ltb cp 0x10000 ≡ false = ground arith in
    rw (above, above', above'')
      (ap₂ (λ p q. p ∷ q) (omega arith)
        (ap₂ (λ p q. p ∷ q) (omega arith) (ap₂ (λ p q. p ∷ q ∷ []) (omega arith) (omega arith))))

-- The first sequence of a text that is accepted encodes a code point, and the rest is accepted.
Begins : Text → Type 0
Begins s =
    (cp : ℕ) × (rest : Text) × (cp < 0x110000)
    × (encode cp ++ rest ≡ s)
    × (utf8_from 0 rest ≡ true)
    × (length rest < length s)
    × All IsByte rest

begins :
    (c : ℕ) (s : Text) (n : ℕ)
    → Follows c s (some n)
    → utf8_from n s ≡ true
    → All IsByte s
    → Begins (c ∷ s)
unfolding utf8_from Begins
begins c s zero f ok bytes =
    let inside : ltb c 0x80 ≡ true = ground (arith, f) in
    (c, s, omega (arith, f), unfold encode in rw inside refl, ok, omega arith, bytes)
begins c s (suc (suc (suc (suc n)))) f ok bytes = absurd f
begins c [] (suc zero) f ok bytes = absurd (omega (arith, f.2))
begins c [] (suc (suc zero)) f ok bytes = absurd (omega (arith, f.2))
begins c [] (suc (suc (suc zero))) f ok bytes = absurd (omega (arith, f.2))
begins c (b ∷ []) (suc (suc zero)) f ok bytes = absurd (omega (arith, f.2))
begins c (b ∷ []) (suc (suc (suc zero))) f ok bytes = absurd (omega (arith, f.2))
begins c (b ∷ d ∷ []) (suc (suc (suc zero))) f ok bytes = absurd (omega (arith, f.2))
begins c (b ∷ s) (suc zero) (low, high, long, (h, h')) ok bytes =
    let x = c - 0xC0 in
    let y = b - 0x80 in
    (
      x * 64 + y,
      s,
      omega (arith, high, h'),
      ap (λ t. t ++ s)
          (encode-two x y (omega (arith, low)) (omega (arith, high)) (omega (arith, h'))
            ∙ ap₂ (λ p q. p ∷ q ∷ []) (omega (arith, low)) (omega (arith, h))),
      ok,
      omega arith,
      bytes.1,
    )
begins c (b ∷ d ∷ s) (suc (suc zero)) (low, high, long, (h, h'), (k, k'), shortest) ok bytes =
    let x = c - 0xE0 in
    let y = b - 0x80 in
    let z = d - 0x80 in
    let enough : 32 ≤ x * 64 + y = elim (ℕ_discrete c 0xE0) [
      | yes first ↦ omega (arith, shortest first, first)
      | no other ↦ ground (arith, low, other)
    ] in
    (
      x * 4096 + y * 64 + z,
      s,
      omega (arith, high, h', k'),
      ap (λ t. t ++ s)
          (encode-three x y z enough (omega (arith, high)) (omega (arith, h')) (omega (arith, k'))
            ∙ ap₂ (λ p q. p ∷ q) (omega (arith, low))
                (ap₂ (λ p q. p ∷ q ∷ []) (omega (arith, h)) (omega (arith, k)))),
      ok,
      omega arith,
      bytes.1.1,
    )
begins c (b ∷ d ∷ e ∷ s) (suc (suc (suc zero)))
      (low, high, long, (h, h'), (k, k'), (m, m'), shortest, largest) ok bytes =
    let x = c - 0xF0 in
    let y = b - 0x80 in
    let z = d - 0x80 in
    let w = e - 0x80 in
    let enough : 16 ≤ x * 64 + y = elim (ℕ_discrete c 0xF0) [
      | yes first ↦ omega (arith, shortest first, first)
      | no other ↦ ground (arith, low, other)
    ] in
    let in_range : x * 64 + y < 272 = elim (ℕ_discrete c 0xF4) [
      | yes last ↦ omega (arith, largest last, last)
      | no other ↦ ground (arith, high, other, h')
    ] in
    (
      x * 262144 + y * 4096 + z * 64 + w,
      s,
      omega (arith, in_range, k', m'),
      ap (λ t. t ++ s)
          (encode-four x y z w enough (omega (arith, h')) (omega (arith, k')) (omega (arith, m'))
            ∙ ap₂ (λ p q. p ∷ q) (omega (arith, low))
                (ap₂ (λ p q. p ∷ q) (omega (arith, h))
                  (ap₂ (λ p q. p ∷ q ∷ []) (omega (arith, k)) (omega (arith, m))))),
      ok,
      omega arith,
      bytes.1.1.1,
    )

-- The encodings of code points, one after the other. Surrogates are among them.
pub IsEncoded : Text → Type 0
IsEncoded s = (cps : List ℕ) × All (λ cp. cp < 0x110000) cps × (encode_all cps ≡ s)

apart : false ≡ true → ⊥
apart e = cc

first_sequence :
    (c : ℕ) (s : Text) → All IsByte (c ∷ s) → utf8_from 0 (c ∷ s) ≡ true → Begins (c ∷ s)
unfolding utf8_from
first_sequence c s (byte, bytes) ok = elim (Option-cases (sequence_after c s)) [
  | inl refused ↦ let never : false ≡ true = rw (utf8_from, refused) at ok in absurd (apart never)
  | inr (n, e) ↦
      begins c s n (rw e at (sequence_after-Follows c s byte bytes)) (rw (utf8_from, e) at ok) bytes
]

IsEncoded-upto :
    (fuel : ℕ) (s : Text) → length s ≤ fuel → All IsByte s → utf8_from 0 s ≡ true → IsEncoded s
unfolding IsEncoded encode_all Begins
IsEncoded-upto fuel [] enough bytes ok = ([], tt, refl)
IsEncoded-upto zero (c ∷ s) enough bytes ok = absurd (omega (arith, enough))
IsEncoded-upto (suc fuel) (c ∷ s) enough bytes ok =
    let (cp, rest, inside, e, ok', shorter, bytes') = first_sequence c s bytes ok in
    let (cps, each, e') = IsEncoded-upto fuel rest (omega (arith, enough, shorter)) bytes' ok' in
    (cp ∷ cps, (inside, each), ap (λ t. encode cp ++ t) e' ∙ e)

pub is_valid_utf8-IsEncoded : (s : Text) → All IsByte s → is_valid_utf8 s ≡ true → IsEncoded s
unfolding is_valid_utf8
is_valid_utf8-IsEncoded s bytes ok = IsEncoded-upto (length s) s (omega arith) bytes ok

-- ===== src/Util/PathValidator/Utf8/Lead.antt =====
-- What the first byte of a sequence, and the tests behind it, say of the bytes.
use Prim.Native.Nat.{bit_and}
use musi_tui.Base.{
  ℕ, zero, suc, ◌≤◌, ◌<◌, ◌≡◌, refl, ap, ◌∙◌, inl, inr, Bool, true, false, not, ◌&&◌, ◌||◌, ◌==◌,
  ltb, leb, [], ◌∷◌, Option, none, some, Bool-cases, ℕ_discrete, length, get_or, All, arith,
  if◌then◌else◌,
}
use musi_tui.Base.Text.{Text}
use musi_tui.Util.Json.RoundTrip.{IsByte}
use musi_tui.Util.PathValidator.{sequence_after}

-- A test that every number below a bound passes.
all_below : ℕ → (ℕ → Bool) → Bool
all_below zero p = true
all_below (suc n) p = p n && all_below n p

below : (n : ℕ) (p : ℕ → Bool) (c : ℕ) → all_below n p ≡ true → c < n → p c ≡ true
unfolding all_below
below zero p c h inside = absurd (omega (arith, inside))
below (suc n) p c h inside = elim (ℕ_discrete c n) [
  | yes here ↦ ap p here ∙ ground arith
  | no there ↦ below n p c (ground arith) (omega (arith, inside, there))
]

abbrev agrees : Bool → Bool → Bool
agrees true b = b
agrees false b = not b

abbrev pub IsContinuation : ℕ → Type 0
IsContinuation b = (0x80 ≤ b) × (b < 0xC0)

-- What the number of bytes that follow `c` says of them.
abbrev pub Follows : ℕ → Text → Option ℕ → Type 0
Follows c s none = Unit
Follows c s (some zero) = c < 0x80
Follows c s (some (suc zero)) =
    (0xC2 ≤ c) × (c < 0xE0) × (0 < length s) × IsContinuation (get_or s 0 0)
Follows c s (some (suc (suc zero))) =
    (0xE0 ≤ c)
    × (c < 0xF0)
    × (1 < length s)
    × IsContinuation (get_or s 0 0)
    × IsContinuation (get_or s 1 0)
    × (c ≡ 0xE0 → 0xA0 ≤ get_or s 0 0)
Follows c s (some (suc (suc (suc zero)))) =
    (0xF0 ≤ c)
    × (c ≤ 0xF4)
    × (2 < length s)
    × IsContinuation (get_or s 0 0)
    × IsContinuation (get_or s 1 0)
    × IsContinuation (get_or s 2 0)
    × (c ≡ 0xF0 → 0x90 ≤ get_or s 0 0)
    × (c ≡ 0xF4 → get_or s 0 0 ≤ 0x8F)
Follows c s (some (suc (suc (suc (suc n))))) = ⊥

get_or-byte : (s : Text) (i : ℕ) → All IsByte s → get_or s i 0 < 256
get_or-byte [] i bytes = omega arith
get_or-byte (c ∷ s) zero bytes = bytes.0
get_or-byte (c ∷ s) (suc i) bytes = get_or-byte s i bytes.1

agrees-true : (a b : Bool) → agrees a b ≡ true → a ≡ true → b ≡ true
agrees-true true b h e = h
agrees-true false b h e = cc

-- The leading byte of a sequence of two, of three and of four, and a byte that continues one.
two-lead : (c : ℕ) → c < 256 → (bit_and c 0xE0 == 0xC0) ≡ true → (0xC0 ≤ c) × (c < 0xE0)
two-lead c byte e =
    let m : agrees (bit_and c 0xE0 == 0xC0) (leb 0xC0 c && ltb c 0xE0) ≡ true =
      below 256 (λ c. agrees (bit_and c 0xE0 == 0xC0) (leb 0xC0 c && ltb c 0xE0)) c
        (unfold all_below in refl) byte in
    let b = agrees-true _ _ m e in ground (arith, b)

three-lead : (c : ℕ) → c < 256 → (bit_and c 0xF0 == 0xE0) ≡ true → (0xE0 ≤ c) × (c < 0xF0)
three-lead c byte e =
    let m : agrees (bit_and c 0xF0 == 0xE0) (leb 0xE0 c && ltb c 0xF0) ≡ true =
      below 256 (λ c. agrees (bit_and c 0xF0 == 0xE0) (leb 0xE0 c && ltb c 0xF0)) c
        (unfold all_below in refl) byte in
    let b = agrees-true _ _ m e in ground (arith, b)

four-lead : (c : ℕ) → c < 256 → (bit_and c 0xF8 == 0xF0) ≡ true → (0xF0 ≤ c) × (c < 0xF8)
four-lead c byte e =
    let m : agrees (bit_and c 0xF8 == 0xF0) (leb 0xF0 c && ltb c 0xF8) ≡ true =
      below 256 (λ c. agrees (bit_and c 0xF8 == 0xF0) (leb 0xF0 c && ltb c 0xF8)) c
        (unfold all_below in refl) byte in
    let b = agrees-true _ _ m e in ground (arith, b)

continuation : (c : ℕ) → c < 256 → not (bit_and c 0xC0 == 0x80) ≡ false → IsContinuation c
continuation c byte e =
    let m : agrees (bit_and c 0xC0 == 0x80) (leb 0x80 c && ltb c 0xC0) ≡ true =
      below 256 (λ c. agrees (bit_and c 0xC0 == 0x80) (leb 0x80 c && ltb c 0xC0)) c
        (unfold all_below in refl) byte in
    let b = agrees-true _ _ m (not_false _ e) in ground (arith, b)
  where
    not_false : (b : Bool) → not b ≡ false → b ≡ true
    not_false true e = refl
    not_false false e = cc

none_of_three : (a b c : Bool) → (a || b || c) ≡ false → (a ≡ false) × (b ≡ false) × (c ≡ false)
none_of_three true b c e = cc
none_of_three false true c e = cc
none_of_three false false c e = (refl, refl, e)

none_of_four :
    (a b c d : Bool)
    → (a || b || c || d) ≡ false
    → (a ≡ false) × (b ≡ false) × (c ≡ false) × (d ≡ false)
none_of_four true b c d e = cc
none_of_four false b c d e = let (f, g, h) = none_of_three b c d e in (refl, f, g, h)

none_of_seven :
    (a b c d x y z : Bool)
    → (a || b || c || d || x || y || z) ≡ false
    → (a ≡ false)
      × (b ≡ false)
      × (c ≡ false)
      × (d ≡ false)
      × (x ≡ false)
      × (y ≡ false)
      × (z ≡ false)
none_of_seven true b c d x y z e = cc
none_of_seven false true c d x y z e = cc
none_of_seven false false true d x y z e = cc
none_of_seven false false false d x y z e =
    let (f, g, h, i) = none_of_four d x y z e in (refl, refl, refl, f, g, h, i)

pub sequence_after-Follows :
    (c : ℕ) (s : Text) → c < 256 → All IsByte s → Follows c s (sequence_after c s)
unfolding sequence_after
sequence_after-Follows c s byte bytes =
    let b1 = get_or s 0 0 in
    let b2 = get_or s 1 0 in
    let b3 = get_or s 2 0 in
    elim (Bool-cases (leb c 0x7F)) [
      | inl ascii ↦ rw ascii (ground (arith, ascii))
      | inr more ↦ elim (Bool-cases (bit_and c 0xE0 == 0xC0)) [
        | inl two ↦ rw (more, two) (after_two c s byte bytes two)
        | inr not_two ↦ elim (Bool-cases (bit_and c 0xF0 == 0xE0)) [
          | inl three ↦ rw (more, not_two, three) (after_three c s byte bytes three)
          | inr not_three ↦ elim (Bool-cases (bit_and c 0xF8 == 0xF0)) [
            | inl four ↦ rw (more, not_two, not_three, four) (after_four c s byte bytes four)
            | inr not_four ↦ rw (more, not_two, not_three, not_four) tt
          ]
        ]
      ]
    ]
  where
    after_two :
        (c : ℕ) (s : Text)
        → c < 256
        → All IsByte s
        → (bit_and c 0xE0 == 0xC0) ≡ true
        → Follows c s (
            if ltb (length s) 1 || not (bit_and (get_or s 0 0) 0xC0 == 0x80) || ltb c 0xC2
            then none
            else some 1)
    after_two c s byte bytes two =
        let b1 = get_or s 0 0 in
        elim (Bool-cases (ltb (length s) 1 || not (bit_and b1 0xC0 == 0x80) || ltb c 0xC2)) [
          | inl bad ↦ rw bad tt
          | inr good ↦
              let (a, e, f) =
                none_of_three (ltb (length s) 1) (not (bit_and b1 0xC0 == 0x80)) (ltb c 0xC2)
                  good in
              rw good (
                ground (arith, f),
                (two-lead c byte two).1,
                ground (arith, a),
                continuation b1 (get_or-byte s 0 bytes) e,
              )
        ]

    after_three :
        (c : ℕ) (s : Text)
        → c < 256
        → All IsByte s
        → (bit_and c 0xF0 == 0xE0) ≡ true
        → Follows c s (
            if ltb (length s) 2
              || not (bit_and (get_or s 0 0) 0xC0 == 0x80)
              || not (bit_and (get_or s 1 0) 0xC0 == 0x80)
              || (c == 0xE0 && ltb (get_or s 0 0) 0xA0)
            then none
            else some 2)
    after_three c s byte bytes three =
        let b1 = get_or s 0 0 in
        let b2 = get_or s 1 0 in
        elim (Bool-cases (
          ltb (length s) 2
          || not (bit_and b1 0xC0 == 0x80)
          || not (bit_and b2 0xC0 == 0x80)
          || (c == 0xE0 && ltb b1 0xA0))) [
            | inl bad ↦ rw bad tt
            | inr good ↦
                let (a, e, f, g) =
                  none_of_four (ltb (length s) 2) (not (bit_and b1 0xC0 == 0x80))
                    (not (bit_and b2 0xC0 == 0x80)) (c == 0xE0 && ltb b1 0xA0) good in
                let lead = three-lead c byte three in
                rw good (
                  lead.0,
                  lead.1,
                  ground (arith, a),
                  continuation b1 (get_or-byte s 0 bytes) e,
                  continuation b2 (get_or-byte s 1 bytes) f,
                  λ h. ground (arith, g, h),
                )
          ]

    after_four :
        (c : ℕ) (s : Text)
        → c < 256
        → All IsByte s
        → (bit_and c 0xF8 == 0xF0) ≡ true
        → Follows c s (
            if ltb (length s) 3
              || not (bit_and (get_or s 0 0) 0xC0 == 0x80)
              || not (bit_and (get_or s 1 0) 0xC0 == 0x80)
              || not (bit_and (get_or s 2 0) 0xC0 == 0x80)
              || (c == 0xF0 && ltb (get_or s 0 0) 0x90)
              || ltb 0xF4 c
              || (c == 0xF4 && ltb 0x8F (get_or s 0 0))
            then none
            else some 3)
    after_four c s byte bytes four =
        let b1 = get_or s 0 0 in
        let b2 = get_or s 1 0 in
        let b3 = get_or s 2 0 in
        elim (Bool-cases (
          ltb (length s) 3
          || not (bit_and b1 0xC0 == 0x80)
          || not (bit_and b2 0xC0 == 0x80)
          || not (bit_and b3 0xC0 == 0x80)
          || (c == 0xF0 && ltb b1 0x90)
          || ltb 0xF4 c
          || (c == 0xF4 && ltb 0x8F b1))) [
            | inl bad ↦ rw bad tt
            | inr good ↦
                let (a, e, f, g, h, i, j) =
                  none_of_seven (ltb (length s) 3) (not (bit_and b1 0xC0 == 0x80))
                    (not (bit_and b2 0xC0 == 0x80)) (not (bit_and b3 0xC0 == 0x80))
                    (c == 0xF0 && ltb b1 0x90) (ltb 0xF4 c) (c == 0xF4 && ltb 0x8F b1) good in
                rw good (
                  (four-lead c byte four).0,
                  ground (arith, i),
                  ground (arith, a),
                  continuation b1 (get_or-byte s 0 bytes) e,
                  continuation b2 (get_or-byte s 1 bytes) f,
                  continuation b3 (get_or-byte s 2 bytes) g,
                  λ k. ground (arith, h, k),
                  λ k. ground (arith, j, k),
                )
          ]

-- ===== src/Message/Grow.antt =====
-- `NextOfTwoSize` of source/base/messageloop/message.cpp.
use native.Mathlib.Nat.{pow-le-pow_right}
use ffnetwork.Common.{dec_lt, ℕ, ◌+◌, ◌-◌, ◌*◌, ◌%◌, ◌^◌, ◌≤◌, ◌<◌, ◌≡◌, arith, ◌==◌, false}
use ffnetwork.Common.Smear.{IsOnes, IsSmeared-start, IsSmeared-step, smeared-IsOnes}
use ffnetwork.Message.{smear, next_of_two_size}

spread : ℕ → ℕ
spread n = smear 16 (smear 8 (smear 4 (smear 2 (smear 1 n))))

spread-IsOnes : (n : ℕ) → n < 2 ^ 32 → IsOnes 32 n (spread n)
unfolding spread
spread-IsOnes n h = smeared-IsOnes 32 n _ h (
    IsSmeared-step 16 n _ (
      IsSmeared-step 8 n _
        (IsSmeared-step 4 n _ (IsSmeared-step 2 n _ (IsSmeared-step 1 n n (IsSmeared-start n))))))

next_of_two_size-pos : (x : ℕ) → 0 < x → next_of_two_size x ≡ (spread (x - 1) + 1) % 2 ^ 32
unfolding next_of_two_size spread
next_of_two_size-pos x h = let test : (x == 0) ≡ false = ground arith in rw (test)

-- There is no power of two between 2^31 and 2^32.
pow_gap : (k : ℕ) → 2 ^ k < 2 ^ 32 → 2 ^ k ≤ 2 ^ 31
pow_gap k h = elim (dec_lt k 32) [
  | yes small ↦ pow-le-pow_right {n = 2} (omega arith) {i = k} {j = 31} (omega arith)
  | no large ↦
      let too_big : 2 ^ 32 ≤ 2 ^ k =
        pow-le-pow_right {n = 2} (omega arith) {i = 32} {j = k} (omega arith) in
      absurd (omega arith)
]

-- From 1 to 2^31 `NextOfTwoSize` gives the least power of two that is not below its argument.
pub next_of_two_size_lem :
    (x : ℕ)
    → 0 < x
    → x ≤ 2 ^ 31
    → (k : ℕ) × (next_of_two_size x ≡ 2 ^ k) × (x ≤ 2 ^ k) × (2 ^ k < 2 * x) × (2 ^ k ≤ 2 ^ 31)
next_of_two_size_lem x pos small =
    let r = spread-IsOnes (x - 1) (omega arith) in
    let below : 2 ^ r.exponent < 2 * x = omega (arith, r.ones, r.below) in
    (
      r.exponent,
      omega (arith, next_of_two_size-pos x pos, r.ones),
      omega (arith, r.ones, r.above),
      below,
      pow_gap r.exponent (omega (arith, r.ones, r.below)),
    )

-- Above 2^31 it wraps to 0.
pub next_of_two_size_wraps : (x : ℕ) → 2 ^ 31 < x → x < 2 ^ 32 → next_of_two_size x ≡ 0
next_of_two_size_wraps x big fits =
    let r = spread-IsOnes (x - 1) (omega arith) in
    omega (arith, next_of_two_size-pos x (omega arith), r.full (omega arith))

-- ===== src/Common/Smear.antt =====
-- `x |= x >> 1; x |= x >> 2; …`: each step doubles the distance over which the digits are spread.
use Prim.Native.Nat.{max, bit_or}
use native.Mathlib.Nat.{pow-suc, zero-add, suc-add, add-suc, div-le_self}
use ffnetwork.Common.{
  ℕ, zero, suc, ◌+◌, ◌-◌, ◌*◌, ◌/◌, ◌%◌, ◌^◌, ◌≤◌, ◌<◌, ◌≡◌, refl, ◌∙◌, ap, arith,
}
use ffnetwork.Common.Bits.{bit_at, halve, halve-eq-div, bit_at-halve, bit_at-bit_or}

-- Whether one of the `w` digits from the `i`-th on is set.
pub reach : ℕ → ℕ → ℕ → ℕ
reach zero i n = 0
reach (suc w) i n = max (bit_at i n) (reach w (suc i) n)

reach-add : (v w i n : ℕ) → reach (v + w) i n ≡ max (reach v i n) (reach w (v + i) n)
unfolding reach
reach-add zero w i n =
    omega
      (arith, ap (λ (k : ℕ). reach k i n) (zero-add w), ap (λ (k : ℕ). reach w k n) (zero-add i))
reach-add (suc v) w i n = omega (
  arith,
  ap (λ (k : ℕ). reach k i n) (suc-add v w),
  ap (λ (k : ℕ). reach w k n) (suc-add v i),
  ap (λ (k : ℕ). reach w k n) (add-suc v i),
  reach-add v w (suc i) n,
)

-- Digit `i` of `y` says whether one of `w` digits of `n` is set.
abbrev pub IsSmeared : ℕ → ℕ → ℕ → Type 0
IsSmeared w n y = (i : ℕ) → bit_at i y ≡ reach w i n

pub IsSmeared-start : (n : ℕ) → IsSmeared 1 n n
unfolding reach
IsSmeared-start n i = omega arith

pub IsSmeared-step : (w n y : ℕ) → IsSmeared w n y → IsSmeared (w + w) n (bit_or y (y / 2 ^ w))
IsSmeared-step w n y h i = rw (
  bit_at-bit_or i y (y / 2 ^ w),
  ← halve-eq-div w y,
  bit_at-halve w i y,
  h i,
  h (w + i),
  reach-add w w i n,
)

abbrev sign : ℕ → ℕ
sign zero = 0
sign (suc n) = 1

reach-suc : (w i n : ℕ) → reach w (suc i) n ≡ reach w i (n / 2)
unfolding reach bit_at
reach-suc zero i n = refl
reach-suc (suc w) i n = rw (reach-suc w (suc i) n)

reach-halve : (w i n : ℕ) → reach w i n ≡ reach w 0 (halve i n)
unfolding halve
reach-halve w zero n = refl
reach-halve w (suc i) n = reach-suc w i n ∙ reach-halve w i (n / 2)

reach-eq-sign : (w n : ℕ) → n < 2 ^ w → reach w 0 n ≡ sign n
unfolding reach bit_at
reach-eq-sign zero zero h = refl
reach-eq-sign zero (suc n) h = absurd (omega arith)
reach-eq-sign (suc w) n h =
    let half : n / 2 < 2 ^ w = omega (arith, pow-suc 2 w) in
    ground (arith, reach-suc w 0 n, reach-eq-sign w (n / 2) half)

zero_digits : (f y : ℕ) → y ≤ f → ((i : ℕ) → bit_at i y ≡ 0) → y ≡ 0
unfolding bit_at
zero_digits zero y h z = omega arith
zero_digits (suc f) y h z =
    ground (arith, z 0, zero_digits f (y / 2) (ground (arith, z 0)) (λ i. z (suc i)))

-- What the smeared number is: all ones, up to the highest digit of `n`.
pub record IsOnes (w n y : ℕ) : Type 0 where
  pub exponent : ℕ
  pub ones : y + 1 ≡ 2 ^ exponent
  pub above : n ≤ y
  pub below : y ≤ 2 * n - 1
  pub width : y < 2 ^ w
  pub full : 2 ^ w ≤ 2 * n → y + 1 ≡ 2 ^ w

halve-zero : (i : ℕ) → halve i 0 ≡ 0
unfolding halve
halve-zero zero = refl
halve-zero (suc i) = halve-zero i

full_suc :
    (w n y : ℕ)
    → y % 2 ≡ 1
    → y / 2 < 2 ^ w
    → (2 ^ w ≤ 2 * (n / 2) → y / 2 + 1 ≡ 2 ^ w)
    → 2 ^ suc w ≤ 2 * n
    → y + 1 ≡ 2 ^ suc w
full_suc zero n y odd width half p = omega arith
full_suc (suc v) n y odd width half p =
    let h : y / 2 + 1 ≡ 2 ^ suc v = half (omega (arith, pow-suc 2 v, pow-suc 2 (suc v))) in
    omega (arith, pow-suc 2 (suc v))

filled-IsOnes : (w n y : ℕ) → n < 2 ^ w → ((i : ℕ) → bit_at i y ≡ sign (halve i n)) → IsOnes w n y
unfolding bit_at halve
filled-IsOnes w zero y h d =
    let y-zero : y ≡ 0 = zero_digits y y (omega arith) (λ i. d i ∙ ap sign (halve-zero i)) in
    record {
      exponent = 0;
      ones = omega arith;
      above = omega arith;
      below = omega arith;
      width = omega arith;
      full = λ p. omega arith;
    }
filled-IsOnes zero (suc m) y h d = absurd (omega arith)
filled-IsOnes (suc w) (suc m) y h d =
    let half : suc m / 2 < 2 ^ w = omega (arith, pow-suc 2 w) in
    let r = filled-IsOnes w (suc m / 2) (y / 2) half (λ i. d (suc i)) in
    record {
      exponent = suc r.exponent;
      ones = omega (arith, d 0, r.ones, pow-suc 2 r.exponent);
      above = omega (arith, d 0, r.above);
      below = omega (arith, d 0, r.below);
      width = omega (arith, d 0, r.width, pow-suc 2 w);
      full = λ p. full_suc w (suc m) y (d 0) r.width r.full p;
    }

-- A number below 2^w that is smeared over `w` digits.
pub smeared-IsOnes : (w n y : ℕ) → n < 2 ^ w → IsSmeared w n y → IsOnes w n y
smeared-IsOnes w n y h s = filled-IsOnes w n y h λ i.
    s i ∙ reach-halve w i n ∙ reach-eq-sign w (halve i n) (rw (halve-eq-div i n) (le_trans_lt i))
  where
    le_trans_lt : (i : ℕ) → n / 2 ^ i < 2 ^ w
    le_trans_lt i = omega (arith, div-le_self n (2 ^ i))

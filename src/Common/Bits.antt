-- ===== src/Common/Bits.antt =====
-- The binary digits of a number, and `|` on them.
use Prim.Native.Nat.{max, bit_or, digits, bit_or-bitwise}
use native.Mathlib.Nat.{pow-suc, zero-add, suc-add, div-div-eq-div-mul}
use ffnetwork.Common.{ℕ, zero, suc, ◌+◌, ◌*◌, ◌/◌, ◌%◌, ◌^◌, ◌≤◌, ◌≡◌, refl, sym, ◌∙◌, ap, arith}

-- The recursion behind `bit_or`, whose first argument is fuel.
abbrev or_digits : ℕ → ℕ → ℕ → ℕ
or_digits fuel a b = digits (λ d. d) max fuel a b

or_digits_zero : (f b : ℕ) → or_digits f 0 b ≡ b
or_digits_zero zero b = refl
or_digits_zero (suc f) b = refl

or_digits_enough : (f g a b : ℕ) → a ≤ f → a ≤ g → or_digits f a b ≡ or_digits g a b
or_digits_enough f g zero b p q = or_digits_zero f b ∙ sym (or_digits_zero g b)
or_digits_enough zero g (suc a) b p q = absurd (omega arith)
or_digits_enough (suc f) zero (suc a) b p q = absurd (omega arith)
or_digits_enough (suc f) (suc g) (suc a) b p q =
    rw (or_digits_enough f g (suc a / 2) (b / 2) (omega arith) (omega arith))

-- The lowest digit, and the others.
pub bit_or_halves : (a b : ℕ) → bit_or a b ≡ 2 * bit_or (a / 2) (b / 2) + max (a % 2) (b % 2)
bit_or_halves zero b = omega (arith, bit_or-bitwise 0 b, bit_or-bitwise 0 (b / 2))
bit_or_halves (suc a) b =
    let rest = or_digits_enough a (suc a / 2) (suc a / 2) (b / 2) (omega arith) (omega arith) in
    omega (arith, rest, bit_or-bitwise (suc a) b, bit_or-bitwise (suc a / 2) (b / 2))

-- Digit `i` of a number.
unfoldable pub bit_at : ℕ → ℕ → ℕ
bit_at zero n = n % 2
bit_at (suc i) n = bit_at i (n / 2)

-- A number without its lowest digits.
unfoldable pub halve : ℕ → ℕ → ℕ
halve zero n = n
halve (suc s) n = halve s (n / 2)

pub halve-eq-div : (s n : ℕ) → halve s n ≡ n / 2 ^ s
unfolding halve
halve-eq-div zero n = omega arith
halve-eq-div (suc s) n =
    halve-eq-div s (n / 2)
    ∙ div-div-eq-div-mul n 2 (2 ^ s)
    ∙ ap (λ (d : ℕ). n / d) (omega (arith, pow-suc 2 s))

pub bit_at-halve : (s i n : ℕ) → bit_at i (halve s n) ≡ bit_at (s + i) n
unfolding halve bit_at
bit_at-halve zero i n = rw zero-add
bit_at-halve (suc s) i n = rw suc-add (bit_at-halve s i (n / 2))

pub bit_at-bit_or : (i a b : ℕ) → bit_at i (bit_or a b) ≡ max (bit_at i a) (bit_at i b)
unfolding bit_at
bit_at-bit_or zero a b = omega (arith, bit_or_halves a b)
bit_at-bit_or (suc i) a b =
    let half : bit_or a b / 2 ≡ bit_or (a / 2) (b / 2) = omega (arith, bit_or_halves a b) in
    rw half (bit_at-bit_or i (a / 2) (b / 2))

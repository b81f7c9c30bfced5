-- ===== src/Common/Slices.antt =====
-- Cutting lists at a position.
use ffnetwork.Common.{
  ℕ, zero, suc, ◌+◌, ◌≤◌, ◌≡◌, refl, ap, List, [], ◌∷◌, ◌++◌, arith, length, take, drop,
}

module _ {ℓ} {A : Type ℓ} where
  pub take-append_le : (n : ℕ) (xs ys : List A) → n ≤ length xs → take n (xs ++ ys) ≡ take n xs
  take-append_le zero xs ys h = refl
  take-append_le (suc n) [] ys h = absurd (omega arith)
  take-append_le (suc n) (x ∷ xs) ys h = ap (◌∷◌ x) (take-append_le n xs ys (omega arith))

  pub take_all : (n : ℕ) (xs : List A) → length xs ≤ n → take n xs ≡ xs
  take_all zero [] h = refl
  take_all zero (x ∷ xs) h = absurd (omega arith)
  take_all (suc n) [] h = refl
  take_all (suc n) (x ∷ xs) h = ap (◌∷◌ x) (take_all n xs (omega arith))

  pub take-append_eq : (n : ℕ) (xs ys : List A) → length xs ≡ n → take n (xs ++ ys) ≡ xs
  take-append_eq zero [] ys h = refl
  take-append_eq zero (x ∷ xs) ys h = absurd (omega arith)
  take-append_eq (suc n) [] ys h = absurd (omega arith)
  take-append_eq (suc n) (x ∷ xs) ys h = ap (◌∷◌ x) (take-append_eq n xs ys (omega arith))

  pub drop-append_eq : (n : ℕ) (xs ys : List A) → length xs ≡ n → drop n (xs ++ ys) ≡ ys
  drop-append_eq zero [] ys h = refl
  drop-append_eq zero (x ∷ xs) ys h = absurd (omega arith)
  drop-append_eq (suc n) [] ys h = absurd (omega arith)
  drop-append_eq (suc n) (x ∷ xs) ys h = drop-append_eq n xs ys (omega arith)

  -- A slice of a prefix is the slice of the whole.
  pub take-drop-take :
      (n k m : ℕ) (xs : List A) → k + n ≤ m → take n (drop k (take m xs)) ≡ take n (drop k xs)
  take-drop-take zero k m xs h = refl
  take-drop-take (suc n) zero zero xs h = absurd (omega arith)
  take-drop-take (suc n) zero (suc m) [] h = refl
  take-drop-take (suc n) zero (suc m) (x ∷ xs) h =
      ap (◌∷◌ x) (take-drop-take n zero m xs (omega arith))
  take-drop-take (suc n) (suc k) zero xs h = absurd (omega arith)
  take-drop-take (suc n) (suc k) (suc m) [] h = refl
  take-drop-take (suc n) (suc k) (suc m) (x ∷ xs) h = take-drop-take (suc n) k m xs (omega arith)

  pub drop-drop : (n k s : ℕ) (xs : List A) → s ≡ k + n → drop n (drop k xs) ≡ drop s xs
  drop-drop n zero s xs h = ap (λ i. drop i xs) (omega (arith, h))
  drop-drop n (suc k) zero xs h = absurd (omega arith)
  drop-drop zero (suc k) (suc s) [] h = refl
  drop-drop (suc n) (suc k) (suc s) [] h = refl
  drop-drop n (suc k) (suc s) (x ∷ xs) h = drop-drop n k s xs (omega arith)

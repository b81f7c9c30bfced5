-- ===== src/Common/Maps.antt =====
-- Finite maps as association lists: `std::map` and `std::unordered_map`, whose iteration order is
-- the order of the list.
use mathlib.Core.Path.{subst}
use ffnetwork.Common.{
  ℕ, ◌≡◌, ◌≢◌, refl, Bool, true, false, Option, none, some, List, [], ◌∷◌, arith, ◌==◌, Bool-cases,
  inl, inr, if◌then◌else◌, ◌&&◌,
}

-- A type of keys, with the test by which a map tells them apart.
pub record Key {ℓ} (K : Type ℓ) : Type ℓ where
  pub same : K → K → Bool
  pub same_sound : (i j : K) → same i j ≡ true → i ≡ j
  pub same_refl : (k : K) → same k k ≡ true

pub number_sound : (i j : ℕ) → (i == j) ≡ true → i ≡ j
number_sound i j h = ground arith

pub number_refl : (k : ℕ) → (k == k) ≡ true
number_refl k = ground arith

instance abbrev pub number_key : Key ℕ
number_key = record { same = ◌==◌; same_sound = number_sound; same_refl = number_refl }

-- Byte strings.
abbrev pub same_bytes : List ℕ → List ℕ → Bool
same_bytes [] [] = true
same_bytes [] (c ∷ t) = false
same_bytes (b ∷ s) [] = false
same_bytes (b ∷ s) (c ∷ t) = b == c && same_bytes s t

pub bytes_sound : (s t : List ℕ) → same_bytes s t ≡ true → s ≡ t
bytes_sound [] [] h = refl
bytes_sound [] (c ∷ t) h = cc
bytes_sound (b ∷ s) [] h = cc
bytes_sound (b ∷ s) (c ∷ t) h = ground (arith, bytes_sound s t, number_sound b c)

pub bytes_refl : (s : List ℕ) → same_bytes s s ≡ true
bytes_refl [] = refl
bytes_refl (b ∷ s) = ground (arith, bytes_refl s)

instance abbrev pub bytes_key : Key (List ℕ)
bytes_key = record { same = same_bytes; same_sound = bytes_sound; same_refl = bytes_refl }

module _ {ℓ κ} {K : Type ℓ} {V : Type κ} ⦃d : Key K⦄ where
  unfoldable pub lookup : K → List (K × V) → Option V
  lookup k [] = none
  lookup k (b ∷ m) = if d.same b.0 k then some b.1 else lookup k m

  -- An old key keeps its place.
  unfoldable pub insert : K → V → List (K × V) → List (K × V)
  insert k v [] = (k, v) ∷ []
  insert k v (b ∷ m) = if d.same b.0 k then (b.0, v) ∷ m else b ∷ insert k v m

  unfoldable pub erase : K → List (K × V) → List (K × V)
  erase k [] = []
  erase k (b ∷ m) = if d.same b.0 k then erase k m else b ∷ erase k m

  pub lookup-insert :
      (k j : K) (v : V) (m : List (K × V))
      → lookup j (insert k v m) ≡ (if d.same k j then some v else lookup j m)
  unfolding lookup insert
  lookup-insert k j v [] = refl
  lookup-insert k j v (b ∷ m) =
      ground
        (arith, d.same_sound k j, d.same_sound b.0 k, d.same_sound b.0 j, lookup-insert k j v m)

  pub lookup-erase :
      (k j : K) (m : List (K × V))
      → lookup j (erase k m) ≡ (if d.same k j then none else lookup j m)
  unfolding lookup erase
  lookup-erase k j [] = ground arith
  lookup-erase k j (b ∷ m) =
      ground (arith, d.same_sound k j, d.same_sound b.0 k, d.same_sound b.0 j, lookup-erase k j m)

  pub insert-insert :
      (k : K) (v w : V) (m : List (K × V)) → insert k v (insert k w m) ≡ insert k v m
  unfolding insert
  insert-insert k v w [] = ground (arith, d.same_refl k)
  insert-insert k v w (b ∷ m) = ground (arith, insert-insert k v w m)

  -- Writing what is there changes nothing.
  pub insert-lookup : (k : K) (v : V) (m : List (K × V)) → lookup k m ≡ some v → insert k v m ≡ m
  unfolding lookup insert
  insert-lookup k v [] h = cc
  insert-lookup k v (b ∷ m) h = ground (arith, insert-lookup k v m)

  pub lookup-insert_self : (k : K) (v : V) (m : List (K × V)) → lookup k (insert k v m) ≡ some v
  lookup-insert_self k v m = ground (arith, lookup-insert k k v m, d.same_refl k)

  -- A property of every binding.
  abbrev pub AllOf {μ} : (K → V → Type μ) → List (K × V) → Type (ℓ ⊔ κ ⊔ μ)
  AllOf P m = (k : K) (v : V) → lookup k m ≡ some v → P k v

  pub AllOf-insert {μ} :
      (P : K → V → Type μ) (k : K) (v : V) (m : List (K × V))
      → P k v
      → AllOf P m
      → AllOf P (insert k v m)
  AllOf-insert P k v m p a j w h = elim (Bool-cases (d.same k j)) [
    | inl hit ↦
        let new : v ≡ w = ground (arith, lookup-insert k j v m) in
        rw (← d.same_sound k j hit, ← new) p
    | inr miss ↦ a j w (ground (arith, lookup-insert k j v m))
  ]

  -- Only the other bindings need to have it.
  pub AllOf-insert_apart {μ} :
      (P : K → V → Type μ) (k : K) (v : V) (m : List (K × V))
      → P k v
      → ((j : K) (w : V) → d.same k j ≡ false → lookup j m ≡ some w → P j w)
      → AllOf P (insert k v m)
  AllOf-insert_apart P k v m p a j w h = elim (Bool-cases (d.same k j)) [
    | inl hit ↦
        let same : k ≡ j = d.same_sound k j hit in
        let value : v ≡ w = ground (arith, lookup-insert k j v m) in
        subst (λ i. P i w) same (subst (λ x. P k x) value p)
    | inr miss ↦ a j w miss (ground (arith, lookup-insert k j v m))
  ]

  pub AllOf-erase {μ} :
      (P : K → V → Type μ) (k : K) (m : List (K × V)) → AllOf P m → AllOf P (erase k m)
  AllOf-erase P k m a j w h = a j w (ground (arith, lookup-erase k j m))

pub number_miss : (i j : ℕ) → i ≢ j → (i == j) ≡ false
number_miss i j h = ground arith

pub number_other : (i j : ℕ) → (i == j) ≡ false → i ≢ j
number_other i j h = ground arith

-- Other numbers keep what they have.
pub lookup-insert_other {κ} :
    {V : Type κ} (k j : ℕ) (x : V) (m : List (ℕ × V)) → k ≢ j → lookup j (insert k x m) ≡ lookup j m
lookup-insert_other k j x m ne = ground (arith, lookup-insert k j x m, number_miss k j ne)

pub lookup-erase_other {κ} :
    {V : Type κ} (k j : ℕ) (m : List (ℕ × V)) → k ≢ j → lookup j (erase k m) ≡ lookup j m
lookup-erase_other k j m ne = ground (arith, lookup-erase k j m, number_miss k j ne)

-- ===== src/UniqueObject/Ownership.antt =====
-- Every value that a `UniqueObject` of source/base/unique_object.h owned leaves it once.
use mathlib.Core.List.{append_assoc, append-nil, map-append}
use ffnetwork.Common.{
  ℕ, ◌≡◌, refl, sym, ap, ◌∙◌, Bool, true, false, ◌==◌, List, [], ◌∷◌, ◌++◌, map, Outcome-cases,
  Fault, ok, err, check_failed, if◌then◌else◌, Bool-cases, inl, inr, arith, not, ◌||◌,
}
use ffnetwork.UniqueObject.{
  Owner, Use, resets, releases, freed, released, exit_value, free_if_necessary, reset, release,
  destroy, use_owner, use_all, move_assign, new_owner,
}

module _ (invalid : ℕ) where
  -- The value, if it is valid.
  abbrev pub valid : ℕ → List ℕ
  valid v = if v == invalid then [] else v ∷ []

  abbrev pub left : Owner → List ℕ
  left o = map exit_value o.exits

  -- The valid values that the uses bring to the owner.
  unfoldable pub acquired : List Use → List ℕ
  acquired [] = []
  acquired (resets v ∷ us) = valid v ++ acquired us
  acquired (releases ∷ us) = acquired us

  -- What left the owner and what it holds.
  abbrev owned : Owner → List ℕ
  owned o = left o ++ valid o.value

  free-left : (o : Owner) → left (free_if_necessary invalid o) ≡ owned o
  unfolding free_if_necessary
  free-left o = elim (Bool-cases (o.value == invalid)) [
    | inl none_held ↦ rw none_held (sym (append-nil (left o)))
    | inr held ↦ rw held (map-append exit_value o.exits (freed o.value ∷ []))
  ]

  nothing_valid : valid invalid ≡ []
  nothing_valid = let same : (invalid == invalid) ≡ true = ground arith in rw same

  release-left : (o : Owner) → left (release invalid o).0 ≡ owned o
  unfolding release
  release-left o = elim (Bool-cases (o.value == invalid)) [
    | inl none_held ↦ rw none_held (sym (append-nil (left o)))
    | inr held ↦ rw held (map-append exit_value o.exits (released o.value ∷ []))
  ]

  release-owned : (o : Owner) → owned (release invalid o).0 ≡ owned o
  unfolding release
  release-owned o =
      ap (λ l. left (release invalid o).0 ++ l) nothing_valid
      ∙ append-nil (left (release invalid o).0)
      ∙ release-left o

  abbrev replaced : ℕ → Owner → Owner
  replaced v o = record (free_if_necessary invalid o) { value = v }

  abbrev may_reset : ℕ → Owner → Bool
  may_reset v o = o.value == invalid || not (o.value == v)

  reset-ok : (v : ℕ) (o : Owner) → may_reset v o ≡ true → reset invalid v o ≡ ok (replaced v o)
  unfolding reset
  reset-ok v o h = rw (h, reset)

  reset-err : (v : ℕ) (o : Owner) → may_reset v o ≡ false → reset invalid v o ≡ err check_failed
  unfolding reset
  reset-err v o h = rw (h, reset)

  reset-owned : (v : ℕ) (o o' : Owner) → reset invalid v o ≡ ok o' → owned o' ≡ owned o ++ valid v
  reset-owned v o o' e = elim (Bool-cases (may_reset v o)) [
    | inl may ↦
        let both = sym (reset-ok v o may) ∙ e in
        let same : replaced v o ≡ o' = cc in
        ap owned (sym same) ∙ ap (λ l. l ++ valid v) (free-left o)
    | inr may_not ↦ let both = sym (reset-err v o may_not) ∙ e in absurd cc
  ]

  use_all-ok :
      (u : Use) (us : List Use) (o o' : Owner)
      → use_owner invalid u o ≡ ok o'
      → use_all invalid (u ∷ us) o ≡ use_all invalid us o'
  unfolding use_all
  use_all-ok u us o o' h = rw h

  use_all-err :
      (u : Use) (us : List Use) (o : Owner) (f : Fault)
      → use_owner invalid u o ≡ err f
      → use_all invalid (u ∷ us) o ≡ err f
  unfolding use_all
  use_all-err u us o f h = rw h

  use_owner-owned :
      (u : Use) (o o' : Owner)
      → use_owner invalid u o ≡ ok o'
      → owned o' ≡ owned o ++ acquired (u ∷ [])
  unfolding use_owner acquired
  use_owner-owned (resets v) o o' e =
      reset-owned v o o' e ∙ ap (λ l. owned o ++ l) (sym (append-nil (valid v)))
  use_owner-owned releases o o' e =
      let same : (release invalid o).0 ≡ o' = cc in
      ap owned (sym same) ∙ release-owned o ∙ sym (append-nil (owned o))

  acquired-cons : (u : Use) (us : List Use) → acquired (u ∷ us) ≡ acquired (u ∷ []) ++ acquired us
  unfolding acquired
  acquired-cons (resets v) us = ap (λ l. l ++ acquired us) (sym (append-nil (valid v)))
  acquired-cons releases us = refl

  use_all-owned :
      (us : List Use) (o o' : Owner)
      → use_all invalid us o ≡ ok o'
      → owned o' ≡ owned o ++ acquired us
  unfolding use_all acquired
  use_all-owned [] o o' e =
      let same : o ≡ o' = cc in ap owned (sym same) ∙ sym (append-nil (owned o))
  use_all-owned (u ∷ us) o o' e = elim (Outcome-cases (use_owner invalid u o)) [
    | inl (o1, h) ↦
        use_all-owned us o1 o' (sym (use_all-ok u us o o1 h) ∙ e)
        ∙ ap (λ l. l ++ acquired us) (use_owner-owned u o o1 h)
        ∙ append_assoc (owned o) (acquired (u ∷ [])) (acquired us)
        ∙ ap (λ l. owned o ++ l) (sym (acquired-cons u us))
    | inr (f, h) ↦ let both = sym (use_all-err u us o f h) ∙ e in absurd cc
  ]

  -- When an owner has been reset and released in any order, without an abort, and is destroyed,
  -- every valid value that it was given has left it exactly once, by a `Free` or by a `release`, in
  -- the order in which they came.
  pub destroy-use_all :
      (v : ℕ) (us : List Use) (o : Owner)
      → use_all invalid us (new_owner v) ≡ ok o
      → left (destroy invalid o) ≡ valid v ++ acquired us
  unfolding destroy
  destroy-use_all v us o e = free-left o ∙ use_all-owned us (new_owner v) o e

  -- A move assignment between owners of different values, or to an owner of none, moves the
  -- value: what the target held is freed, and the source holds none.
  pub move_assign_lem :
      (o other : Owner)
      → may_reset other.value o ≡ true
      → (o' other' : Owner) × (move_assign invalid o other ≡ ok (o', other'))
        × (o'.value ≡ other.value)
        × (left o' ≡ left o ++ valid o.value)
        × (other'.value ≡ invalid)
        × (left other' ≡ left other ++ valid other.value)
  unfolding move_assign release
  move_assign_lem o other h = (
    replaced other.value o,
    (release invalid other).0,
    rw (reset-ok other.value o h),
    refl,
    free-left o,
    refl,
    release-left other,
  )

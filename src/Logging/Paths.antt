-- ===== src/Logging/Paths.antt =====
-- The file names in the messages of source/base/logging.cpp.
use ffnetwork.Common.{
  ℕ, zero, suc, ◌≡◌, refl, ap, ◌∙◌, Bool, false, ◌==◌, [], ◌∷◌, ◌++◌, none, some, All, Bool-cases,
  inl, inr, ◌⊎◌, arith,
}
use ffnetwork.Logging.{Bytes, is_dots, strip_dots, after_slash, strip_path}

abbrev pub NoSlash : Bytes → Type 0
NoSlash = All (λ c. (c == b'/') ≡ false)

after_slash-cases :
    (p : Bytes)
    → ((after_slash p ≡ none) × NoSlash p)
      ⊎ ((dir rest : Bytes) × (after_slash p ≡ some rest) × (p ≡ dir ++ b'/' ∷ rest) × NoSlash rest)
unfolding after_slash
after_slash-cases [] = inl (refl, tt)
after_slash-cases (c ∷ p) = elim (after_slash-cases p) [
  | inr (dir, rest, found, split, clean) ↦ inr (c ∷ dir, rest, rw found, ap (◌∷◌ c) split, clean)
  | inl (missing, clean) ↦ elim (Bool-cases (c == b'/')) [
    | inl hit ↦
        let slash : c ≡ b'/' = ground arith in
        inr ([], p, rw (missing, hit), ap (λ x. x ∷ p) slash, clean)
    | inr miss ↦ inl (rw (missing, miss), (miss, clean))
  ]
]

-- `StripPath` returns what follows the last slash, or the whole path if it has none.
pub strip_path_lem :
    (p : Bytes)
    → NoSlash (strip_path p)
      × ((strip_path p ≡ p) ⊎ ((dir : Bytes) × (p ≡ dir ++ b'/' ∷ strip_path p)))
unfolding strip_path
strip_path_lem p = elim (after_slash-cases p) [
  | inl (missing, clean) ↦ (rw (missing, strip_path) clean, inl (rw (missing, strip_path)))
  | inr (dir, rest, found, split, clean) ↦
      (rw (found, strip_path) clean, inr (dir, rw (found, strip_path) split))
]

-- "../", as often as this.
abbrev pub dots : ℕ → Bytes
dots zero = []
dots (suc n) = b'.' ∷ b'.' ∷ b'/' ∷ dots n

abbrev pub starts_with_dots : Bytes → Bool
starts_with_dots [] = false
starts_with_dots (a ∷ []) = false
starts_with_dots (a ∷ b ∷ []) = false
starts_with_dots (a ∷ b ∷ c ∷ p) = is_dots a b c

-- `StripDots` takes every "../" off the front of the path, and nothing else.
pub strip_dots_lem :
    (p : Bytes) → (n : ℕ) × (p ≡ dots n ++ strip_dots p) × (starts_with_dots (strip_dots p) ≡ false)
unfolding strip_dots
strip_dots_lem [] = (0, refl, refl)
strip_dots_lem (a ∷ []) = (0, refl, refl)
strip_dots_lem (a ∷ b ∷ []) = (0, refl, refl)
strip_dots_lem (a ∷ b ∷ c ∷ p) = elim (Bool-cases (is_dots a b c)) [
  | inl hit ↦
      let (n, split, clean) = strip_dots_lem p in
      let first : a ≡ b'.' = ground arith in
      let second : b ≡ b'.' = ground arith in
      let third : c ≡ b'/' = ground arith in
      (
        suc n,
        rw hit (
            ap (λ x. x ∷ b ∷ c ∷ p) first
            ∙ ap (λ x. b'.' ∷ x ∷ c ∷ p) second
            ∙ ap (λ x. b'.' ∷ b'.' ∷ x ∷ p) third
            ∙ ap (λ x. b'.' ∷ b'.' ∷ b'/' ∷ x) split),
        rw hit clean,
      )
  | inr miss ↦ (0, rw miss refl, rw miss miss)
]

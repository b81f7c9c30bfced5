-- ===== src/UniqueObject.antt =====
-- source/base/unique_object.h: `UniqueObject`, the owner of one value. Values are numbers, and which
-- is `InvalidValue` is an argument. An owner records the valid values that left it: by the `Free` of
-- its traits, or by `release`.
pub mod Ownership
mod Tests
use ffnetwork.Common.{
  ℕ, Bool, not, ◌==◌, ◌||◌, if◌then◌else◌, List, [], ◌∷◌, ◌++◌, Outcome, ok, check_failed, ◌>>=◌,
  ◌>>◌, guard,
}

pub data Exit : Type 0 where
  freed released : ℕ → Exit

abbrev pub exit_value : Exit → ℕ
exit_value (freed v) = v
exit_value (released v) = v

pub record Owner : Type 0 where
  pub value : ℕ
  pub exits : List Exit

abbrev pub new_owner : ℕ → Owner
new_owner value = record { value = value; exits = [] }

-- What is done to an owner.
pub data Use : Type 0 where
  resets : ℕ → Use
  releases : Use

module _ (invalid : ℕ) where
  unfoldable pub free_if_necessary : Owner → Owner
  free_if_necessary o =
      if o.value == invalid
      then o
      else record { value = invalid; exits = o.exits ++ freed o.value ∷ [] }

  unfoldable pub reset : ℕ → Owner → Outcome Owner
  unfolding free_if_necessary
  reset value o = do
    guard (o.value == invalid || not (o.value == value)) check_failed
    ok (record (free_if_necessary o) { value = value })

  unfoldable pub release : Owner → Owner × ℕ
  release o = (
    record {
      value = invalid;
      exits = if o.value == invalid then o.exits else o.exits ++ released o.value ∷ [];
    },
    o.value,
  )

  -- The move assignment, from another owner to this one.
  unfoldable pub move_assign : Owner → Owner → Outcome (Owner × Owner)
  unfolding release reset
  move_assign o other = do let (other', value) = release other; o' ← reset value o; ok (o', other')

  -- The constructor from another owner.
  unfoldable pub move_owner : Owner → Owner × Owner
  unfolding release
  move_owner other = let (other', value) = release other in (new_owner value, other')

  -- `swap`
  abbrev pub swap_owners : Owner → Owner → Owner × Owner
  swap_owners o other = (record o { value = other.value }, record other { value = o.value })

  -- The destructor.
  unfoldable pub destroy : Owner → Owner
  unfolding free_if_necessary
  destroy o = free_if_necessary o

  unfoldable pub use_owner : Use → Owner → Outcome Owner
  unfolding reset release
  use_owner (resets v) o = reset v o
  use_owner releases o = ok (release o).0

  unfoldable pub use_all : List Use → Owner → Outcome Owner
  unfolding use_owner
  use_all [] o = ok o
  use_all (u ∷ us) o = do o' ← use_owner u o; use_all us o'

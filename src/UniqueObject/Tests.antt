-- ===== src/UniqueObject/Tests.antt =====
-- A concrete owner (source/base/unique_object.h).
use ffnetwork.Common.{◌≡◌, refl, List, [], ◌∷◌, ok}
use ffnetwork.UniqueObject.{
  Owner, Use, resets, releases, new_owner, free_if_necessary, reset, release, destroy, use_owner,
  use_all,
}
use ffnetwork.UniqueObject.Ownership.{left, acquired, destroy-use_all}

abbrev uses : List Use
uses = resets 3 ∷ releases ∷ resets 4 ∷ []

uses_run : (o : Owner) × (use_all 0 uses (new_owner 2) ≡ ok o)
unfolding use_all use_owner reset release free_if_necessary
uses_run = (_, refl)

destroy-use_all_example : left 0 (destroy 0 uses_run.0) ≡ 2 ∷ 3 ∷ 4 ∷ []
unfolding acquired
destroy-use_all_example = destroy-use_all 0 2 uses uses_run.0 uses_run.1

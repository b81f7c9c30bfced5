-- ===== src/Common/Text.antt =====
-- Text literals as byte strings.
use Prim.Native.Char.{code}
use Prim.Native.String.{String}
use ffnetwork.Common.{ℕ, List, [], ◌∷◌}

-- The code points of a text: its bytes, if it is ASCII.
abbrev pub codes : String → List ℕ
codes String.[] = []
codes (String.◌∷◌ c s) = code c ∷ codes s

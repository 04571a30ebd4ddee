-- ===== src/Prelude/Text.antt =====
-- ASCII texts as lists of bytes.
use Prim.Native.Char.{code}
use Prim.Native.String
use pocol_vm.Prelude.{ℕ, List, [], ◌∷◌}

abbrev pub codes : String.String → List ℕ
codes String.[] = []
codes (String.◌∷◌ c s) = code c ∷ codes s

-- ===== src/Prelude/Texts.antt =====
-- The bytes of an ASCII text.
use Prim.Native.Char.{code}
use Prim.Native.Nat.{ℕ}
use Prim.Native.String.{String}
use mathlib.Core.List.{List, [], ◌∷◌}

abbrev pub bytes_of : String → List ℕ
bytes_of String.[] = []
bytes_of (String.◌∷◌ c rest) = code c ∷ bytes_of rest

-- ===== src/Prelude/Codes.antt =====
-- C string literals. A C string is modelled by the bytes before its terminating NUL.
use Prim.Native.Nat.{ℕ}
use Prim.Native.Char.{code}
use Prim.Native.String.{String}
use mathlib.Core.List.{List, [], ◌∷◌}

-- The bytes of an ASCII literal.
unfoldable pub text : String → List ℕ
text String.[] = []
text (String.◌∷◌ c s) = code c ∷ text s

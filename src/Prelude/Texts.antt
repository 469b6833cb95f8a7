-- ===== src/Prelude/Texts.antt =====
-- String literals as bytes.
use Prim.Native.Char.{code}
use Prim.Native.String.{String}
use Prim.Native.Nat.{ℕ}
use mathlib.Core.List.{List, [], ◌∷◌}

-- The bytes of an ASCII literal.
abbrev pub ascii : String → List ℕ
ascii String.[] = []
ascii (String.◌∷◌ letter letters) = code letter ∷ ascii letters

-- ===== src/Prelude/Text.antt =====
-- String literals of the source, as lists of bytes.
use Prim.Native.Char.{code}
use Prim.Native.String.{String}
use mathlib.Core.List.{[], ◌∷◌}
use mcache.Prelude.Bytes.{Str}

-- the bytes of an ASCII text
abbrev pub codes : String → Str
codes String.[] = []
codes (String.◌∷◌ c s) = code c ∷ codes s

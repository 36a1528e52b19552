-- ===== src/Prelude/Texts.antt =====
-- Texts that the program puts together from parts.
use Prim.Native.String
use Prim.Native.String.{String}
use mathlib.Core.List.{List, [], ◌∷◌}

-- An f-string, from its parts.
abbrev pub concat : List String → String
concat [] = ""
concat (s ∷ ss) = String.◌++◌ s (concat ss)

-- ===== src/Prelude/Chars.antt =====
-- Tests on the characters of a text.
use Prim.Native.Nat.{ℕ, zero, suc}
use Prim.Native.Char.{code}
use Prim.Native.String.{String, [], ◌∷◌}
use mathlib.Core.Bool.{Bool, false, ◌&&◌, ◌||◌}
use text.Mathlib.Text.{◌==◌}
use cyber_sage.Prelude.Tests.{nat_eq}

-- `text[:n]`
unfoldable pub first_chars : ℕ → String → String
first_chars zero s = []
first_chars (suc n) [] = []
first_chars (suc n) (c ∷ s) = c ∷ first_chars n s

-- `len(text) <= n`
unfoldable pub has_length_within : ℕ → String → Bool
unfolding first_chars
has_length_within n s = first_chars n s == s

-- `".." in text`
unfoldable pub has_dots : String → Bool
has_dots [] = false
has_dots (c ∷ []) = false
has_dots (c ∷ d ∷ s) = (nat_eq (code c) b'.' && nat_eq (code d) b'.') || has_dots (d ∷ s)

-- `"/" in text`
unfoldable pub has_slash : String → Bool
has_slash [] = false
has_slash (c ∷ s) = nat_eq (code c) b'/' || has_slash s

-- ===== src/Base/Text.antt =====
-- Python's `str` as the program tests it: length in code points, `strip`, identifiers.
use Prim.Native.Nat.{ℕ, suc}
use Prim.Native.Char.{code}
use Prim.Native.String.{String}
use mathlib.Core.Bool.{Bool, true, false, ◌&&◌, ◌||◌}
use cadrig.Base.Tests.{leb, eqb}

-- `len(s)`
abbrev pub count : String → ℕ
count String.[] = 0
count (String.◌∷◌ c s) = suc (count s)

abbrev pub between : ℕ → ℕ → ℕ → Bool
between lo hi c = leb lo c && leb c hi

-- The code points that `str.strip` removes.
abbrev pub is_space : ℕ → Bool
is_space c =
    between 9 13 c
    || between 28 32 c
    || eqb c 133
    || eqb c 160
    || eqb c 5760
    || between 8192 8202 c
    || between 8232 8233 c
    || eqb c 8239
    || eqb c 8287
    || eqb c 12288

-- `not s.strip()`
unfoldable pub is_blank : String → Bool
is_blank String.[] = true
is_blank (String.◌∷◌ c s) = is_space (code c) && is_blank s

-- `s.startswith(p)`
abbrev pub starts_with : String → String → Bool
starts_with s String.[] = true
starts_with String.[] (String.◌∷◌ c p) = false
starts_with (String.◌∷◌ d s) (String.◌∷◌ c p) = eqb (code d) (code c) && starts_with s p

-- `s.endswith(p)`
abbrev pub ends_with : String → String → Bool
ends_with String.[] p = starts_with String.[] p
ends_with (String.◌∷◌ c s) p =
    (starts_with (String.◌∷◌ c s) p && eqb (count (String.◌∷◌ c s)) (count p)) || ends_with s p

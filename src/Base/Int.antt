-- ===== src/Base/Int.antt =====
-- Python's integers over the native numbers, with the comparisons that the program makes.
use Prim.Native.Nat.{ℕ, ◌+◌, ◌-◌}
use mathlib.Core.Bool.{Bool, true, false}
use cadrig.Base.Tests.{leb, eqb, if◌then◌else◌}

-- `negsuc n` is -(n + 1).
pub data ℤ : Type 0 where
  pos : ℕ → ℤ
  negsuc : ℕ → ℤ

-- `a <= b`
abbrev pub le_int : ℤ → ℤ → Bool
le_int (pos a) (pos b) = leb a b
le_int (pos a) (negsuc b) = false
le_int (negsuc a) (pos b) = true
le_int (negsuc a) (negsuc b) = leb b a

-- `a == b`
abbrev pub eq_int : ℤ → ℤ → Bool
eq_int (pos a) (pos b) = eqb a b
eq_int (pos a) (negsuc b) = false
eq_int (negsuc a) (pos b) = false
eq_int (negsuc a) (negsuc b) = eqb a b

-- `m - n` of two naturals
abbrev pub difference : ℕ → ℕ → ℤ
difference m n = if leb n m then pos (m - n) else negsuc (n - m - 1)

-- `a + b`
abbrev pub add_int : ℤ → ℤ → ℤ
add_int (pos a) (pos b) = pos (a + b)
add_int (pos a) (negsuc b) = difference a (b + 1)
add_int (negsuc a) (pos b) = difference b (a + 1)
add_int (negsuc a) (negsuc b) = negsuc (a + b + 1)

-- `-a`
abbrev pub negate : ℤ → ℤ
negate (pos a) = difference 0 a
negate (negsuc a) = pos (a + 1)

-- `max(a, b)`
abbrev pub max_int : ℤ → ℤ → ℤ
max_int a b = if le_int a b then b else a

-- `max(a, 0)`
abbrev pub at_least_zero : ℤ → ℕ
at_least_zero (pos a) = a
at_least_zero (negsuc a) = 0

-- ===== src/Verify/Equality.antt =====
-- Python's `==` on JSON values, and `_equivalent` of verification.py. The identity test that `==` on
-- containers makes first is left out: it differs at a NaN only.
use cadrig.Base.{
  Bool, true, false, ◌&&◌, Option, none, some, [], ◌∷◌, ◌==◌, length, eqb, ℤ, pos, eq_int, Result,
  ok, err, ◌>>=◌, overflow_error, type_error,
}
use cadrig.Base.Dict
use cadrig.Base.Dict.{Dict}
use cadrig.Json.{
  Json, null, bool, int, float, str, arr, obj, Items, nil, cons, Fields, end, field, entries, Float,
  FloatOps, le_float, eq_float,
}

-- A number, as `==` compares it: `True` is 1.
pub data Number : Type 0 where
  whole : ℤ → Number
  real : Float → Number

number_of : Json → Option Number
number_of (bool true) = some (whole (pos 1))
number_of (bool false) = some (whole (pos 0))
number_of (int n) = some (whole n)
number_of (float x) = some (real x)
number_of _ = none

module _ (ops : FloatOps) where
  eq_number : Number → Number → Bool
  eq_number (whole m) (whole n) = eq_int m n
  eq_number (whole m) (real y) = elim (ops.to_int y) [ none ↦ false | some n ↦ eq_int m n ]
  eq_number (real x) (whole n) = elim (ops.to_int x) [ none ↦ false | some m ↦ eq_int m n ]
  eq_number (real x) (real y) = eq_float x y

  eq_scalar : Json → Json → Bool
  unfolding number_of eq_number
  eq_scalar a b = elim (number_of a) [
    | none ↦ false
    | some m ↦ elim (number_of b) [ none ↦ false | some n ↦ eq_number m n ]
  ]

  unfoldable mutual
    unfolding eq_scalar

    pub eq_json : Json → Json → Bool
    eq_json null null = true
    eq_json (str s) (str t) = s == t
    eq_json (arr xs) (arr ys) = eq_items xs ys
    eq_json (obj fs) (obj gs) =
        eqb (length (entries fs)) (length (entries gs)) && eq_fields fs (entries gs)
    eq_json (bool a) b = eq_scalar (bool a) b
    eq_json (int a) b = eq_scalar (int a) b
    eq_json (float a) b = eq_scalar (float a) b
    eq_json _ _ = false

    eq_items : Items → Items → Bool
    eq_items nil nil = true
    eq_items (cons x xs) (cons y ys) = eq_json x y && eq_items xs ys
    eq_items _ _ = false

    eq_fields : Fields → Dict Json → Bool
    eq_fields end d = true
    eq_fields (field k v fs) d =
        elim (Dict.get d k) [ none ↦ false | some w ↦ eq_json v w ] && eq_fields fs d

  -- `a == b` of two dicts of values
  included : Dict Json → Dict Json → Bool
  included [] d = true
  included ((k, v) ∷ r) d =
      elim (Dict.get d k) [ none ↦ false | some w ↦ eq_json v w ] && included r d

  unfoldable pub eq_dict : Dict Json → Dict Json → Bool
  unfolding included
  eq_dict a b = eqb (length a) (length b) && included a b

  -- `float(x)` of an integer or a float
  to_float : Json → Option (Result Float)
  to_float (int n) = some (elim (ops.of_int n) [ none ↦ err overflow_error | some x ↦ ok x ])
  to_float (float x) = some (ok x)
  to_float _ = none

  abbrev is_bool : Json → Bool
  is_bool (bool b) = true
  is_bool _ = false

  close : Result Float → Result Float → Result Float → Result Bool
  close a e t = do x ← a; y ← e; z ← t; ok (le_float (ops.distance x y) z)

  -- The tolerance is a number: `__post_init__` of the predicate has checked it.
  tolerance_of : Json → Result Float
  unfolding to_float
  tolerance_of j = elim (to_float j) [ none ↦ err type_error | some r ↦ r ]

  numbers_close : Json → Json → Json → Option (Result Float) → Option (Result Float) → Result Bool
  unfolding close tolerance_of
  numbers_close actual expected tolerance (some a) (some e) = close a e (tolerance_of tolerance)
  numbers_close actual expected tolerance _ _ = ok (eq_json actual expected)

  -- `_equivalent(actual, expected, tolerance)`
  unfoldable pub equivalent : Json → Json → Json → Result Bool
  unfolding numbers_close to_float
  equivalent actual expected tolerance = elim (is_bool actual) [
    | true ↦ ok (eq_json actual expected)
    | false ↦ elim (is_bool expected) [
      | true ↦ ok (eq_json actual expected)
      | false ↦ numbers_close actual expected tolerance (to_float actual) (to_float expected)
    ]
  ]

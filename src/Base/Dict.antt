-- ===== src/Base/Dict.antt =====
-- Python's `dict` with string keys, in insertion order.
use Prim.Native.String.{String}
use mathlib.Core.Path.{◌≡◌, refl}
use mathlib.Core.Logic.{◌≢◌, ◌⊎◌, inl, inr}
use mathlib.Core.Bool.{Bool, true, false}
use mathlib.Core.Option.{Option, none, some}
use mathlib.Core.List.{List, [], ◌∷◌}
use native.Mathlib.Omega.{arith}
use text.Mathlib.Text.{◌==◌}
use text.Mathlib.TextEquality.{eq_iff}
use text.Mathlib.TextPositions.{eq_refl}
use cadrig.Base.Tests.{Bool-cases, if◌then◌else◌}

abbrev pub Dict {ℓ} : Type ℓ → Type ℓ
Dict V = List (String × V)

module _ {ℓ} {V : Type ℓ} where
  abbrev pub keys : Dict V → List String
  keys [] = []
  keys ((k, v) ∷ d) = k ∷ keys d

  abbrev pub values : Dict V → List V
  values [] = []
  values ((k, v) ∷ d) = v ∷ values d

  -- `d.get(k)`
  unfoldable pub get : Dict V → String → Option V
  get [] k = none
  get ((j, v) ∷ d) k = if j == k then some v else get d k

  -- `d[k] = v`: a key that is there keeps its place.
  unfoldable pub put : Dict V → String → V → Dict V
  put [] k v = (k, v) ∷ []
  put ((j, w) ∷ d) k v = if j == k then (k, v) ∷ d else (j, w) ∷ put d k v

  -- `del d[k]`. Every entry of the key goes; a real dict has one.
  unfoldable pub remove : Dict V → String → Dict V
  remove [] k = []
  remove ((j, w) ∷ d) k = let rest = remove d k in if j == k then rest else (j, w) ∷ rest

  -- `k in d`
  abbrev pub has : Dict V → String → Bool
  has d k = elim (get d k) [ none ↦ false | some v ↦ true ]

  pub get-put :
      (d : Dict V) (k i : String) (new : V)
      → get (put d k new) i ≡ (if k == i then some new else get d i)
  unfolding get put
  get-put [] k i new = refl
  get-put ((j, w) ∷ d) k i new =
      ground (arith, eq_iff k i, eq_iff j k, eq_iff j i, get-put d k i new)

  pub get-remove :
      (d : Dict V) (k j : String) → get (remove d k) j ≡ (if k == j then none else get d j)
  unfolding get remove
  get-remove [] k j = ground arith
  get-remove ((i, w) ∷ d) k j = ground (arith, eq_iff k j, eq_iff i k, eq_iff i j, get-remove d k j)

module _ {ℓ} {V : Type ℓ} where
  pub get-put_self : (d : Dict V) (k : String) (v : V) → get (put d k v) k ≡ some v
  get-put_self d k v = rw get-put (rw eq_refl)

  pub get-put_ne : (d : Dict V) (k j : String) (v : V) → k ≢ j → get (put d k v) j ≡ get d j
  get-put_ne d k j v h = rw get-put (ground (arith, eq_iff k j))

  pub get-remove_self : (d : Dict V) (k : String) → get (remove d k) k ≡ none
  get-remove_self d k = rw get-remove (rw eq_refl)

  pub get-remove_ne : (d : Dict V) (k j : String) → k ≢ j → get (remove d k) j ≡ get d j
  get-remove_ne d k j h = rw get-remove (ground (arith, eq_iff k j))

pub key_cases : (j k : String) → (j ≡ k) ⊎ (j ≢ k)
key_cases j k = elim (Bool-cases (j == k)) [
  | inl e ↦ inl ((eq_iff j k).0 e)
  | inr e ↦ inr (ground (arith, eq_iff j k))
]

module _ {ℓ} {V : Type ℓ} where
  pub get-put_cases :
      (d : Dict V) (k j : String) (v w : V)
      → get (put d k v) j ≡ some w
      → ((k ≡ j) × (v ≡ w)) ⊎ ((k ≢ j) × (get d j ≡ some w))
  get-put_cases d k j v w h = ground (arith, get-put d k j v, eq_iff k j)

  pub get-remove_cases :
      (d : Dict V) (k j : String) (w : V)
      → get (remove d k) j ≡ some w
      → (k ≢ j) × (get d j ≡ some w)
  get-remove_cases d k j w h = ground (arith, get-remove d k j, eq_iff k j)

pub get-empty {ℓ} : {V : Type ℓ} (k : String) → get {V = V} [] k ≡ none
unfolding get
get-empty k = refl

pub ruleset dict_laws = (get-empty, get-put, get-remove)

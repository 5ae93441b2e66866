-- ===== src/Registry.antt =====
-- src/cadrig/registry.py: the adapters by id. An
-- adapter is of any type that tells its metadata; a plugin that cannot be loaded is left out.
use Prim.Native.String.{compare}
use text.Mathlib.Text.{is_lt}
use cadrig.Base.{
  ◌⊎◌, ◌≡◌, refl, ap, ◌∙◌, String, true, ◌||◌, Bool-cases, Option-cases, inl, inr, Option, none,
  some, List, [], ◌∷◌, contains, arith, ◌==◌, eq_iff, if◌then◌else◌, key_error, Result, ok, err,
}
use cadrig.Base.Dict
use cadrig.Base.Dict.{Dict, get-put}
use cadrig.Contracts.{AdapterMetadata}
use cadrig.Agent.{find_adapter}

module _ {A : Type 0} (metadata : A → AdapterMetadata) where
  -- What `register` raises: `TypeError` or `ValueError`.
  pub data Registered : Type 0 where
    registered not_an_adapter already_registered : Registered

  -- `register(adapter)`; `none` stands for a value that is no adapter.
  unfoldable pub register : Dict A → Option A → Registered × Dict A
  register adapters none = (not_an_adapter, adapters)
  register adapters (some a) =
      if Dict.has adapters (metadata a).adapter_id
      then (already_registered, adapters)
      else (registered, Dict.put adapters (metadata a).adapter_id a)

  -- `get(adapter_id)`
  unfoldable pub get_adapter : Dict A → String → Result A
  get_adapter adapters adapter_id = elim (Dict.get adapters adapter_id) [
    | none ↦ err (key_error adapter_id)
    | some a ↦ ok a
  ]

  -- `sorted(adapters)`; strings are ordered by their code points.
  abbrev insert_key : String → List String → List String
  insert_key k [] = k ∷ []
  insert_key k (j ∷ js) =
      let rest = insert_key k js in if is_lt (compare j k) then j ∷ rest else k ∷ j ∷ js

  abbrev pub sorted_keys : List String → List String
  sorted_keys [] = []
  sorted_keys (k ∷ ks) = insert_key k (sorted_keys ks)

  abbrev pub metadata_at : Dict A → List String → List AdapterMetadata
  metadata_at adapters [] = []
  metadata_at adapters (k ∷ ks) =
      let rest = metadata_at adapters ks in
      elim (Dict.get adapters k) [ none ↦ rest | some a ↦ metadata a ∷ rest ]

  -- `capabilities()`
  unfoldable pub capabilities : Dict A → List AdapterMetadata
  capabilities adapters = metadata_at adapters (sorted_keys (Dict.keys adapters))

  -- The registries that `register` builds.
  pub data Built : Dict A → Type 0 where
    empty : Built []
    grown : (adapters : Dict A) (a : Option A) → Built adapters → Built (register adapters a).1

  key_of :
      (adapters : Dict A)
      → Built adapters
      → (k : String) (a : A) → Dict.get adapters k ≡ some a
      → (metadata a).adapter_id ≡ k
  unfolding Dict.get register
  key_of _ empty k a h = absurd (cc)
  key_of _ (grown adapters none b) k a h = key_of adapters b k a h
  key_of _ (grown adapters (some c) b) k a h =
      elim (Bool-cases (Dict.has adapters (metadata c).adapter_id)) [
        | inl e ↦ key_of adapters b k a (rw (e, register) at h)
        | inr e ↦
            let i = (metadata c).adapter_id in
            let g : Dict.get (Dict.put adapters i c) k ≡ some a = rw (e, register) at h in
            ground (arith, g, get-put adapters i k c, eq_iff i k, key_of adapters b k a)
      ]

  insert_contains :
      (i k : String) (ks : List String) → contains i (insert_key k ks) ≡ (i == k || contains i ks)
  insert_contains i k [] = refl
  insert_contains i k (j ∷ js) = grind (arith, insert_contains i k js)

  sorted_contains : (i : String) (ks : List String) → contains i (sorted_keys ks) ≡ contains i ks
  sorted_contains i [] = refl
  sorted_contains i (k ∷ ks) =
      insert_contains i k (sorted_keys ks) ∙ ap (λ b. i == k || b) (sorted_contains i ks)

  found_at :
      (adapters : Dict A) (b : Built adapters) (i : String) (a : A) (ks : List String)
      → Dict.get adapters i ≡ some a
      → contains i ks ≡ true
      → find_adapter i (metadata_at adapters ks) ≡ some (metadata a)
  found_at adapters b i a [] h c = absurd (cc)
  found_at adapters b i a (k ∷ ks) h c = elim (Option-cases (Dict.get adapters k)) [
    | inl e ↦ rw (e, metadata_at) (found_at adapters b i a ks h (grind (arith, eq_iff i k)))
    | inr (x, e) ↦
        rw (e, metadata_at)
          (grind (
            arith,
            e,
            h,
            eq_iff i k,
            eq_iff k i,
            key_of adapters b k x e,
            found_at adapters b i a ks h,
          ))
  ]

  missing_at :
      (adapters : Dict A) (b : Built adapters) (i : String) (ks : List String)
      → Dict.get adapters i ≡ none
      → find_adapter i (metadata_at adapters ks) ≡ none
  missing_at adapters b i [] h = refl
  missing_at adapters b i (k ∷ ks) h = elim (Option-cases (Dict.get adapters k)) [
    | inl e ↦ rw (e, metadata_at) (missing_at adapters b i ks h)
    | inr (x, e) ↦
        rw (e, metadata_at)
          (grind (arith, e, h, eq_iff k i, key_of adapters b k x e, missing_at adapters b i ks h))
  ]

  -- A key that is there is in the list of the keys.
  contains-keys :
      (adapters : Dict A) (i : String) (a : A)
      → Dict.get adapters i ≡ some a
      → contains i (Dict.keys adapters) ≡ true
  unfolding Dict.get
  contains-keys [] i a h = absurd (cc)
  contains-keys ((k, x) ∷ d) i a h = grind (arith, eq_iff i k, eq_iff k i, contains-keys d i a)

  -- In a registry that `register` built, the search for an id among `capabilities` finds exactly the
  -- metadata of the adapter that `get` returns for the id, and nothing where `get` raises `KeyError`.
  pub capabilities-get_adapter :
      (adapters : Dict A) (i : String)
      → Built adapters
      → ((a : A) × (get_adapter adapters i ≡ ok a)
          × (find_adapter i (capabilities adapters) ≡ some (metadata a)))
        ⊎ ((get_adapter adapters i ≡ err (key_error i))
            × (find_adapter i (capabilities adapters) ≡ none))
  unfolding get_adapter capabilities
  capabilities-get_adapter adapters i b = elim (Option-cases (Dict.get adapters i)) [
    | inl e ↦ inr (rw (e, get_adapter) refl, missing_at adapters b i _ e)
    | inr (a, e) ↦ inl (
      a,
      rw (e, get_adapter) refl,
      found_at adapters b i a _ e
          (sorted_contains i (Dict.keys adapters) ∙ contains-keys adapters i a e),
    )
  ]

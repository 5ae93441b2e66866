-- ===== src/Base/Errors.antt =====
-- Python's exceptions as values: a function that may raise returns a `Result`.
use Prim.Native.String.{String}
use mathlib.Core.Path.{◌≡◌, refl}
use mathlib.Core.Logic.{◌⊎◌, inl, inr}
use mathlib.Core.Bool.{Bool, true, false}
use mathlib.Core.List.{List, [], ◌∷◌}

-- The messages of `ContractError`, one constructor for each place that raises it.
pub data Fault : Type 0 where
  not_identifier too_long : String → Fault
  parameters_not_object unknown_action_fields : Fault
  missing_action_field : String → Fault
  unknown_action_kind unknown_plan_fields missing_plan_fields actions_not_array : Fault
  unsupported_schema bad_base_revision no_actions duplicate_action_ids : Fault
  predicate_parameters_not_object value_missing bad_tolerance bad_count bad_maximum : Fault
  unknown_predicate_fields unknown_predicate_kind : Fault
  missing_predicate_field : String → Fault
  empty_intent no_requirements duplicate_predicate_ids : Fault
  invalid_requirements invalid_invariants : Fault
  unknown_contract_fields missing_contract_fields : Fault
  requirements_not_array invariants_not_array empty_message : Fault

pub data Error : Type 0 where
  contract_error : Fault → Error
  type_error attribute_error overflow_error assertion_error name_error runtime_error value_error :
      Error
  -- any other exception, by the name of its class
  other_error : String → Error
  key_error : String → Error

-- What a call gives: the exception that it raises, or its value.
pub data Result {ℓ} (A : Type ℓ) : Type ℓ where
  err : Error → Result A
  ok : A → Result A

-- `if not b: raise ContractError(...)`
abbrev pub require : Bool → Fault → Result (Unit {0})
require true fault = ok tt
require false fault = err (contract_error fault)

infixl 5 ◌>>=◌ ◌>>◌
-- An exception of the first call ends both.
abbrev pub ◌>>=◌ {ℓ κ} : {A : Type ℓ} {B : Type κ} → Result A → (A → Result B) → Result B
err raised >>= next = err raised
ok value >>= next = next value

abbrev pub ◌>>◌ {κ} : {C : Type κ} → Result (Unit {0}) → Result C → Result C
check >> next = check >>= λ _. next

-- `tuple(f(x) for x in xs)`: the first element that raises ends it.
abbrev pub traverse {ℓ κ} : {A : Type ℓ} {B : Type κ} → (A → Result B) → List A → Result (List B)
traverse f [] = ok []
traverse f (x ∷ xs) = let rest = traverse f xs in f x >>= λ y. rest >>= λ ys. ok (y ∷ ys)

-- A chain that returns has a first call that returned.
pub >>=-eq-ok {ℓ κ} :
    {A : Type ℓ} {B : Type κ} (call : Result A) (next : A → Result B) {result : B}
    → (call >>= next) ≡ ok result
    → (value : A) × (call ≡ ok value) × (next value ≡ ok result)
>>=-eq-ok (err raised) next h = cc
>>=-eq-ok (ok value) next h = (value, refl, h)

pub Result-cases {ℓ} :
    {A : Type ℓ} (r : Result A) → ((e : Error) × (r ≡ err e)) ⊎ ((a : A) × (r ≡ ok a))
Result-cases (err e) = inl (e, refl)
Result-cases (ok a) = inr (a, refl)

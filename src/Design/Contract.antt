-- ===== src/Design/Contract.antt =====
-- `DesignContract` of design_contracts.py.
use cadrig.Base.{
  String, Bool, true, false, not, List, [], ◌∷◌, ◌++◌, ◌==◌, map, all, unique, if◌then◌else◌,
  contract_error, Result, ok, err, ◌>>=◌, ◌>>◌, require, traverse, unsupported_schema, empty_intent,
  no_requirements, duplicate_predicate_ids, invalid_requirements, invalid_invariants,
  unknown_contract_fields, missing_contract_fields, requirements_not_array, invariants_not_array,
}
use cadrig.Base.Text.{is_blank}
use cadrig.Base.Dict.{Dict}
use cadrig.Json.{Json, null, str, arr, Fields, entries, items}
use cadrig.Contracts.{require_identifier, null_list, has_extras, has_missing, get_or}
use cadrig.Design.Predicates.{DesignPredicate, is_requirement, is_invariant, predicate_from_dict}

abbrev pub design_schema_version : String
design_schema_version = "1.0.0"

pub record DesignContract : Type 0 where
  pub contract_id : String
  pub intent : String
  pub document_id : String
  pub requirements : List DesignPredicate
  pub invariants : List DesignPredicate
  pub schema_version : String

-- `isinstance(intent, str) and intent.strip()`
intent_of : Json → Result String
intent_of (str s) = if is_blank s then err (contract_error empty_intent) else ok s
intent_of _ = err (contract_error empty_intent)

schema_matches : Json → Bool
schema_matches (str s) = s == design_schema_version
schema_matches _ = false

-- `DesignContract(...)` with `__post_init__`
unfoldable pub make_contract :
    Json → Json → Json → Json → List DesignPredicate → List DesignPredicate → Result DesignContract
unfolding intent_of schema_matches
make_contract schema_version contract_id intent document_id requirements invariants = do
  c ← require_identifier contract_id "contract_id"
  d ← require_identifier document_id "document_id"
  i ← intent_of intent
  require (schema_matches schema_version) unsupported_schema
  require (not (null_list requirements)) no_requirements
  require (unique (map (λ p. p.predicate_id) (requirements ++ invariants))) duplicate_predicate_ids
  require (all (λ p. is_requirement p.kind) requirements) invalid_requirements
  require (all (λ p. is_invariant p.kind) invariants) invalid_invariants
  ok (record {
    contract_id = c;
    intent = i;
    document_id = d;
    requirements = requirements;
    invariants = invariants;
    schema_version = design_schema_version;
  })

predicates_of : Json → Result (List DesignPredicate)
predicates_of (arr xs) = traverse predicate_from_dict (items xs)
predicates_of _ = ok []

is_array : Json → Bool
is_array (arr xs) = true
is_array _ = false

abbrev contract_fields : List String
contract_fields =
    "schema_version" ∷ "contract_id" ∷ "intent" ∷ "document_id" ∷ "requirements" ∷ "invariants" ∷ []

contract_of_entries : Dict Json → Result DesignContract
unfolding make_contract predicates_of is_array
contract_of_entries d =
    if has_extras contract_fields d
    then err (contract_error unknown_contract_fields)
    else if has_missing contract_fields d
    then err (contract_error missing_contract_fields)
    else do
      require (is_array (get_or d "requirements" null)) requirements_not_array
      require (is_array (get_or d "invariants" null)) invariants_not_array
      requirements ← predicates_of (get_or d "requirements" null)
      invariants ← predicates_of (get_or d "invariants" null)
      make_contract (get_or d "schema_version" null) (get_or d "contract_id" null)
          (get_or d "intent" null) (get_or d "document_id" null) requirements invariants

-- `DesignContract.from_dict(payload)` of an object
unfoldable pub contract_from_dict : Fields → Result DesignContract
unfolding contract_of_entries
contract_from_dict fs = contract_of_entries (entries fs)

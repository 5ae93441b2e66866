-- ===== src/Design/Predicates.antt =====
-- `PredicateKind` and `DesignPredicate` of design_contracts.py.
use cadrig.Base.{
  String, Bool, true, false, Option, none, some, List, [], ◌∷◌, ◌==◌, if◌then◌else◌, pos,
  contract_error, Result, ok, err, ◌>>=◌, ◌>>◌, require, predicate_parameters_not_object,
  value_missing, bad_tolerance, bad_count, bad_maximum, unknown_predicate_fields,
  unknown_predicate_kind, missing_predicate_field,
}
use cadrig.Base.Dict
use cadrig.Base.Dict.{Dict}
use cadrig.Json.{Json, null, int, float, str, obj, end, nan, place, entries}
use cadrig.Contracts.{require_identifier, has_extras, get_or, foreign_error}

pub data PredicateKind : Type 0 where
  document_exists feature_exists feature_absent feature_count parameter_equals revision_advanced
        preserve_feature preserve_parameter max_feature_delta :
      PredicateKind

-- `PredicateKind(value)`; `none` is `ValueError`
unfoldable pub predicate_kind_of : String → Option PredicateKind
predicate_kind_of s =
    if s == "document_exists"
    then some document_exists
    else if s == "feature_exists"
    then some feature_exists
    else if s == "feature_absent"
    then some feature_absent
    else if s == "feature_count"
    then some feature_count
    else if s == "parameter_equals"
    then some parameter_equals
    else if s == "revision_advanced"
    then some revision_advanced
    else if s == "preserve_feature"
    then some preserve_feature
    else if s == "preserve_parameter"
    then some preserve_parameter
    else if s == "max_feature_delta"
    then some max_feature_delta
    else none

-- `kind in REQUIREMENT_KINDS`
abbrev pub is_requirement : PredicateKind → Bool
is_requirement preserve_feature = false
is_requirement preserve_parameter = false
is_requirement max_feature_delta = false
is_requirement _ = true

-- `kind in INVARIANT_KINDS`
abbrev pub is_invariant : PredicateKind → Bool
is_invariant preserve_feature = true
is_invariant preserve_parameter = true
is_invariant max_feature_delta = true
is_invariant _ = false

pub record DesignPredicate : Type 0 where
  pub predicate_id : String
  pub kind : PredicateKind
  pub parameters : Dict Json

-- `_identifier(parameters.get(k), name)`
identifier_parameter : Dict Json → String → String → Result (Unit {0})
identifier_parameter d k name = require_identifier (get_or d k null) name >>= λ s. ok tt

-- A number that is no `bool` and not below 0. A NaN is not below 0.
tolerance_fits : Json → Bool
tolerance_fits (int (pos n)) = true
tolerance_fits (float nan) = true
tolerance_fits (float (place (pos n))) = true
tolerance_fits _ = false

-- An integer that is no `bool` and not below 0
natural_fits : Json → Bool
natural_fits (int (pos n)) = true
natural_fits _ = false

optional_feature_type : Json → Result (Unit {0})
optional_feature_type null = ok tt
optional_feature_type j = require_identifier j "feature_type" >>= λ s. ok tt

-- `_validate_parameters`
unfoldable pub validate_parameters : PredicateKind → Dict Json → Result (Unit {0})
unfolding identifier_parameter tolerance_fits natural_fits optional_feature_type
validate_parameters feature_exists d = identifier_parameter d "feature_id" "feature_id"
validate_parameters feature_absent d = identifier_parameter d "feature_id" "feature_id"
validate_parameters preserve_feature d = identifier_parameter d "feature_id" "feature_id"
validate_parameters preserve_parameter d = do
  identifier_parameter d "feature_id" "feature_id"
  identifier_parameter d "name" "parameter name"
validate_parameters parameter_equals d = do
  identifier_parameter d "feature_id" "feature_id"
  identifier_parameter d "name" "parameter name"
  require (Dict.has d "value") value_missing
  require (tolerance_fits (get_or d "tolerance" (float (place (pos 0))))) bad_tolerance
validate_parameters feature_count d = do
  require (natural_fits (get_or d "count" null)) bad_count
  optional_feature_type (get_or d "feature_type" null)
validate_parameters max_feature_delta d =
    require (natural_fits (get_or d "maximum" null)) bad_maximum
validate_parameters document_exists d = ok tt
validate_parameters revision_advanced d = ok tt

predicate_parameters : Json → Result (Dict Json)
predicate_parameters (obj fs) = ok (entries fs)
predicate_parameters _ = err (contract_error predicate_parameters_not_object)

-- `DesignPredicate(...)` with `__post_init__`
unfoldable pub make_predicate : Json → PredicateKind → Json → Result DesignPredicate
unfolding predicate_parameters validate_parameters
make_predicate predicate_id kind parameters = do
  i ← require_identifier predicate_id "predicate_id"
  d ← predicate_parameters parameters
  validate_parameters kind d
  ok (record { predicate_id = i; kind = kind; parameters = d })

-- `PredicateKind(payload["kind"])` of any value
predicate_kind : Json → Option PredicateKind
predicate_kind (str s) = predicate_kind_of s
predicate_kind _ = none

-- `except ValueError`: every `ContractError` is one, so those of `__post_init__` are renamed too.
rename : Result DesignPredicate → Result DesignPredicate
rename (err (contract_error f)) = err (contract_error unknown_predicate_kind)
rename r = r

abbrev predicate_fields : List String
predicate_fields = "predicate_id" ∷ "kind" ∷ "parameters" ∷ []

-- The body of the `try` of `from_dict`
try_predicate : Dict Json → Result DesignPredicate
unfolding predicate_kind rename
try_predicate d = elim (Dict.get d "predicate_id") [
  | none ↦ err (contract_error (missing_predicate_field "predicate_id"))
  | some i ↦ elim (Dict.get d "kind") [
    | none ↦ err (contract_error (missing_predicate_field "kind"))
    | some k ↦ elim (predicate_kind k) [
      | none ↦ err (contract_error unknown_predicate_kind)
      | some kind ↦ rename (make_predicate i kind (get_or d "parameters" (obj end)))
    ]
  ]
]

-- `DesignPredicate.from_dict(item)`
unfoldable pub predicate_from_dict : Json → Result DesignPredicate
unfolding try_predicate make_predicate
predicate_from_dict (obj fs) =
    if has_extras predicate_fields (entries fs)
    then err (contract_error unknown_predicate_fields)
    else try_predicate (entries fs)
predicate_from_dict j = err (foreign_error predicate_fields unknown_predicate_fields j)

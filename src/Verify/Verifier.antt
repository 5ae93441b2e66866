-- ===== src/Verify/Verifier.antt =====
-- `ContractVerifier` of verification.py. Issues carry their codes and not the texts of messages.
use mathlib.Core.Option
use cadrig.Base.{
  ℕ, ◌-◌, String, Bool, true, false, not, ◌&&◌, Option, none, some, List, [], ◌∷◌, ◌++◌, ◌==◌, map,
  keep, length, ltb, leb, pos, key_error, type_error, Result, ok, err, ◌>>=◌, traverse,
}
use cadrig.Base.Dict
use cadrig.Base.Dict.{Dict}
use cadrig.Json.{Json, null, int, float, str, place, FloatOps}
use cadrig.Contracts.{
  FeatureSnapshot, DocumentSnapshot, Diagnostic, ExecutionReceipt, status_accepted, get_or,
  null_list,
}
use cadrig.Design.{
  DesignPredicate, DesignContract, PredicateKind, document_exists, feature_exists, feature_absent,
  feature_count, parameter_equals, revision_advanced, preserve_feature, preserve_parameter,
  max_feature_delta,
}
use cadrig.Verify.Equality.{eq_json, eq_dict, equivalent}

pub record VerificationIssue : Type 0 where
  pub predicate_id : String
  pub code : String

pub record VerificationReport : Type 0 where
  pub accepted : Bool
  pub issues : List VerificationIssue
  pub before_hash : Option String
  pub after_hash : Option String

-- `{feature.feature_id: feature for feature in features}`
unfoldable pub put_features : Dict FeatureSnapshot → List FeatureSnapshot → Dict FeatureSnapshot
put_features d [] = d
put_features d (f ∷ fs) = put_features (Dict.put d f.feature_id f) fs

unfoldable pub by_id : List FeatureSnapshot → Dict FeatureSnapshot
unfolding put_features
by_id fs = put_features [] fs

-- `_failure(predicate, code)`
abbrev pub issue : DesignPredicate → String → Result (Option VerificationIssue)
issue p code = ok (some (record { predicate_id = p.predicate_id; code = code }))

abbrev pub pass : Result (Option VerificationIssue)
pass = ok none

abbrev pub pass_if : Bool → DesignPredicate → String → Result (Option VerificationIssue)
pass_if true p code = pass
pass_if false p code = issue p code

-- `parameters[k]`
unfoldable pub parameter : DesignPredicate → String → Result Json
parameter p k = elim (Dict.get p.parameters k) [ none ↦ err (key_error k) | some v ↦ ok v ]

-- A parameter that `__post_init__` has checked to be a text.
unfoldable pub text_parameter : DesignPredicate → String → Result String
text_parameter p k = elim (Dict.get p.parameters k) [ some (str s) ↦ ok s | _ ↦ err type_error ]

abbrev pub revision_of : Option DocumentSnapshot → ℕ
revision_of none = 0
revision_of (some s) = s.revision

-- `feature_type is None or feature.feature_type == feature_type`
abbrev pub type_matches : Json → FeatureSnapshot → Bool
type_matches null f = true
type_matches (str t) f = f.feature_type == t
type_matches _ f = false

-- `abs(len(after) - len(before)) <= maximum`
abbrev pub delta_fits : ℕ → ℕ → Json → Bool
delta_fits m n (int (pos maximum)) = leb (m - n) maximum && leb (n - m) maximum
delta_fits m n _ = false

module _ (ops : FloatOps) where
  -- The branch PARAMETER_EQUALS, once the feature is looked up.
  unfoldable pub parameter_check :
      DesignPredicate → Option FeatureSnapshot → Result (Option VerificationIssue)
  unfolding text_parameter parameter
  parameter_check p none = issue p "FEATURE_MISSING"
  parameter_check p (some f) = do
    name ← text_parameter p "name"
    elim (Dict.get f.parameters name) [
      | none ↦ issue p "PARAMETER_MISSING"
      | some actual ↦ do
        expected ← parameter p "value"
        same ←
            equivalent ops actual expected (get_or p.parameters "tolerance" (float (place (pos 0))))
        pass_if same p "PARAMETER_MISMATCH"
    ]

  -- The branches of `_evaluate_requirement` that need the document.
  unfoldable pub requirement_in :
      PredicateKind → DesignPredicate → DocumentSnapshot → Result (Option VerificationIssue)
  unfolding parameter_check text_parameter parameter by_id
  requirement_in feature_exists p after = do
    i ← text_parameter p "feature_id"
    pass_if (Dict.has (by_id after.features) i) p "FEATURE_MISSING"
  requirement_in feature_absent p after = do
    i ← text_parameter p "feature_id"
    pass_if (not (Dict.has (by_id after.features) i)) p "FEATURE_PRESENT"
  requirement_in feature_count p after = do
    count ← parameter p "count"
    pass_if
        (eq_json ops
          (int (
            pos (
              length
                (keep (type_matches (get_or p.parameters "feature_type" null)) after.features))))
          count)
        p "FEATURE_COUNT_MISMATCH"
  requirement_in parameter_equals p after = do
    i ← text_parameter p "feature_id"
    parameter_check p (Dict.get (by_id after.features) i)
  requirement_in _ p after = issue p "UNSUPPORTED_REQUIREMENT"

  requirement_of :
      PredicateKind
      → DesignPredicate
      → Option DocumentSnapshot
      → Option DocumentSnapshot
      → Result (Option VerificationIssue)
  unfolding requirement_in
  requirement_of document_exists p before none = issue p "DOCUMENT_MISSING"
  requirement_of document_exists p before (some after) = pass
  requirement_of revision_advanced p before none = issue p "REVISION_NOT_ADVANCED"
  requirement_of revision_advanced p before (some after) =
      pass_if (ltb (revision_of before) after.revision) p "REVISION_NOT_ADVANCED"
  requirement_of kind p before none = issue p "DOCUMENT_MISSING"
  requirement_of kind p before (some after) = requirement_in kind p after

  -- `_evaluate_requirement`
  unfoldable pub evaluate_requirement :
      DesignPredicate
      → Option DocumentSnapshot
      → Option DocumentSnapshot
      → Result (Option VerificationIssue)
  unfolding requirement_of
  evaluate_requirement p before after = requirement_of p.kind p before after

  -- `a == b` of two features
  unfoldable pub eq_feature : FeatureSnapshot → FeatureSnapshot → Bool
  eq_feature f g =
      f.feature_id == g.feature_id
      && f.feature_type == g.feature_type
      && eq_dict ops f.parameters g.parameters

  abbrev preserved : Option FeatureSnapshot → Option FeatureSnapshot → Bool
  preserved (some f) (some g) = eq_feature f g
  preserved _ _ = false

  -- `before.get(name) == after.get(name)`, where a missing value is `None`
  abbrev same_parameter : String → Option FeatureSnapshot → Option FeatureSnapshot → Bool
  same_parameter name (some f) (some g) = elim (Dict.get f.parameters name) [
    | none ↦ false
    | some v ↦ eq_json ops v (get_or g.parameters name null)
  ]
  same_parameter name _ _ = false

  invariant_of :
      PredicateKind
      → DesignPredicate
      → DocumentSnapshot
      → DocumentSnapshot
      → Result (Option VerificationIssue)
  unfolding text_parameter parameter by_id eq_feature
  invariant_of preserve_feature p before after = do
    i ← text_parameter p "feature_id"
    pass_if (preserved (Dict.get (by_id before.features) i) (Dict.get (by_id after.features) i)) p
        "FEATURE_CHANGED"
  invariant_of preserve_parameter p before after = do
    i ← text_parameter p "feature_id"
    name ← text_parameter p "name"
    pass_if
        (same_parameter name (Dict.get (by_id before.features) i)
          (Dict.get (by_id after.features) i))
        p "PARAMETER_CHANGED"
  invariant_of max_feature_delta p before after = do
    maximum ← parameter p "maximum"
    pass_if (delta_fits (length before.features) (length after.features) maximum) p
        "FEATURE_DELTA_EXCEEDED"
  invariant_of _ p before after = issue p "UNSUPPORTED_INVARIANT"

  -- `_evaluate_invariant`
  unfoldable pub evaluate_invariant :
      DesignPredicate
      → Option DocumentSnapshot
      → Option DocumentSnapshot
      → Result (Option VerificationIssue)
  unfolding invariant_of
  evaluate_invariant p (some before) (some after) = invariant_of p.kind p before after
  evaluate_invariant p _ _ = issue p "INVARIANT_STATE_UNAVAILABLE"

-- The issues that the loop collects.
abbrev pub present : List (Option VerificationIssue) → List VerificationIssue
present [] = []
present (none ∷ r) = present r
present (some i ∷ r) = i ∷ present r

abbrev pub execution_issues : ExecutionReceipt → List VerificationIssue
execution_issues r = elim (status_accepted r.status) [
  | true ↦ []
  | false ↦ elim (null_list r.diagnostics) [
    | true ↦ record { predicate_id = "execution"; code = "EXECUTION_REFUSED" } ∷ []
    | false ↦
        map (λ (d : Diagnostic). record { predicate_id = "execution"; code = d.code }) r.diagnostics
  ]
]

module _ (ops : FloatOps) (content_hash : DocumentSnapshot → String) where
  -- `verify(contract, receipt)`
  unfoldable pub verify : DesignContract → ExecutionReceipt → Result VerificationReport
  verify contract receipt = do
    requirements ←
        traverse (λ p. evaluate_requirement ops p receipt.before receipt.after)
          contract.requirements
    invariants ←
        traverse (λ p. evaluate_invariant ops p receipt.before receipt.after) contract.invariants
    let issues = execution_issues receipt ++ (present requirements ++ present invariants)
    ok (record {
      accepted = null_list issues;
      issues = issues;
      before_hash = Option.map content_hash receipt.before;
      after_hash = Option.map content_hash receipt.after;
    })

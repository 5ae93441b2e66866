-- ===== src/Tests/Verification.antt =====
-- The verifier at a receipt that holds the sample box.
use cadrig.Base.{ℕ, ◌≡◌, refl, ◌↔◌, true, false, none, some, List, [], ◌∷◌, ok, pos}
use cadrig.Base.Dict
use cadrig.Json.{str, int, float, place}
use cadrig.Contracts.{ExecutionReceipt, DocumentSnapshot, FeatureSnapshot, applied}
use cadrig.Design.{
  DesignContract, DesignPredicate, feature_exists, parameter_equals, max_feature_delta,
  revision_advanced, feature_absent,
}
use cadrig.Verify.{
  VerificationReport, verify, evaluate_requirement, evaluate_invariant, parameter, text_parameter,
  by_id, equivalent,
}
use cadrig.Verify.Acceptance.{Passes, verify-Passes}
use cadrig.Verify.Presence.{is_listed, feature_exists-listed, feature_absent-listed}
use cadrig.Tests.Samples.{whole_floats, hash_of}

abbrev snapshot_with : ℕ → List FeatureSnapshot → DocumentSnapshot
snapshot_with n fs = record { document_id = "part"; revision = n; features = fs }

abbrev box_feature : FeatureSnapshot
box_feature = record {
  feature_id = "base";
  feature_type = "box";
  parameters = ("width", float (place (pos 80))) ∷ [];
}

abbrev box_receipt : ExecutionReceipt
box_receipt = record {
  receipt_id = "r1";
  plan_id = "p1";
  adapter_id = "memory";
  status = applied;
  diagnostics = [];
  before = some (snapshot_with 1 []);
  after = some (snapshot_with 2 (box_feature ∷ []));
}

abbrev box_contract : DesignContract
box_contract = record {
  contract_id = "c1";
  intent = "a box";
  document_id = "part";
  requirements =
      record {
        predicate_id = "q1";
        kind = feature_exists;
        parameters = ("feature_id", str "base") ∷ [];
      }
      ∷ record {
        predicate_id = "q2";
        kind = parameter_equals;
        parameters =
            ("feature_id", str "base") ∷ ("name", str "width") ∷ ("value", int (pos 80)) ∷ [];
      }
      ∷ record { predicate_id = "q3"; kind = revision_advanced; parameters = [] }
      ∷ [];
  invariants =
      record {
        predicate_id = "i1";
        kind = max_feature_delta;
        parameters = ("maximum", int (pos 1)) ∷ [];
      }
      ∷ [];
  schema_version = "1.0.0";
}

abbrev box_report : VerificationReport
box_report = record {
  accepted = true;
  issues = [];
  before_hash = some "part";
  after_hash = some "part";
}

box_verified : verify whole_floats hash_of box_contract box_receipt ≡ ok box_report
unfolding verify evaluate_requirement evaluate_invariant parameter text_parameter by_id equivalent
    Dict.get Dict.put
box_verified = refl

verify-Passes_example : (true ≡ true) ↔ Passes whole_floats hash_of box_contract box_receipt
verify-Passes_example =
    verify-Passes whole_floats hash_of box_contract box_receipt box_report box_verified

abbrev base_exists : DesignPredicate
base_exists = record {
  predicate_id = "q1";
  kind = feature_exists;
  parameters = ("feature_id", str "base") ∷ [];
}

abbrev lid_absent : DesignPredicate
lid_absent = record {
  predicate_id = "q4";
  kind = feature_absent;
  parameters = ("feature_id", str "lid") ∷ [];
}

base_named : Dict.get base_exists.parameters "feature_id" ≡ some (str "base")
unfolding Dict.get
base_named = refl

lid_named : Dict.get lid_absent.parameters "feature_id" ≡ some (str "lid")
unfolding Dict.get
lid_named = refl

feature_exists-listed_example :
    (evaluate_requirement whole_floats base_exists none (some (snapshot_with 2 (box_feature ∷ [])))
      ≡ ok none)
    ↔ (is_listed "base" (box_feature ∷ []) ≡ true)
feature_exists-listed_example =
    feature_exists-listed whole_floats base_exists "base" base_named none
      (snapshot_with 2 (box_feature ∷ [])) refl

feature_absent-listed_example :
    (evaluate_requirement whole_floats lid_absent none (some (snapshot_with 2 (box_feature ∷ [])))
      ≡ ok none)
    ↔ (is_listed "lid" (box_feature ∷ []) ≡ false)
feature_absent-listed_example =
    feature_absent-listed whole_floats lid_absent "lid" lid_named none
      (snapshot_with 2 (box_feature ∷ [])) refl

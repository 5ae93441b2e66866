-- ===== src/Tests/Samples.antt =====
-- Sample data: integers stand for the floats that they are equal to.
use cadrig.Base.{◌+◌, ◌-◌, String, Option, none, some, [], ◌∷◌, ℤ, pos, negsuc}
use cadrig.Json.{int, str, Float, nan, place, FloatOps}
use cadrig.Contracts.{Action, ActionPlan, create_document, add_box, set_parameter, DocumentSnapshot}

abbrev gap : ℤ → ℤ → ℤ
gap (pos a) (pos b) = pos ((a - b) + (b - a))
gap (negsuc a) (negsuc b) = pos ((a - b) + (b - a))
gap (pos a) (negsuc b) = pos (a + b + 1)
gap (negsuc a) (pos b) = pos (a + b + 1)

abbrev distance_of : Float → Float → Float
distance_of (place a) (place b) = place (gap a b)
distance_of _ _ = nan

abbrev int_of : Float → Option ℤ
int_of nan = none
int_of (place n) = some n

abbrev pub whole_floats : FloatOps
whole_floats = record { of_int = λ n. some (place n); distance = distance_of; to_int = int_of }

abbrev pub create : Action
create = record { action_id = "a1"; kind = create_document; target_id = none; parameters = [] }

abbrev pub box : Action
box = record {
  action_id = "a2";
  kind = add_box;
  target_id = none;
  parameters =
      ("feature_id", str "base")
      ∷ ("width", int (pos 80))
      ∷ ("depth", int (pos 45))
      ∷ ("height", int (pos 12))
      ∷ [];
}

abbrev pub create_plan : ActionPlan
create_plan = record {
  plan_id = "p1";
  document_id = "part";
  base_revision = 0;
  actions = create ∷ box ∷ [];
  schema_version = "1.0.0";
}

abbrev pub widen : Action
widen = record {
  action_id = "b1";
  kind = set_parameter;
  target_id = some "base";
  parameters = ("name", str "width") ∷ ("value", int (pos 90)) ∷ [];
}

abbrev pub widen_plan : ActionPlan
widen_plan = record {
  plan_id = "p2";
  document_id = "part";
  base_revision = 1;
  actions = widen ∷ [];
  schema_version = "1.0.0";
}

abbrev pub hash_of : DocumentSnapshot → String
hash_of s = s.document_id

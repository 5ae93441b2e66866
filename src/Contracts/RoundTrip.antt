-- ===== src/Contracts/RoundTrip.antt =====
-- A valid plan survives `to_dict` and `from_dict`.
use cadrig.Base.{
  String, ◌≡◌, refl, true, Option, none, some, List, [], ◌∷◌, map, arith, All, ok, traverse, eq_iff,
}
use cadrig.Base.Dict
use cadrig.Base.Dict.{Dict}
use cadrig.Json.{Json, str, items, items_of}
use cadrig.Json.Entries.{HasDistinctKeys, entries-fields_of}
use cadrig.Contracts.Kinds.{ActionKind, kind_of, kind_value, create_document}
use cadrig.Contracts.Identifier.{require_identifier, is_identifier}
use cadrig.Contracts.Plan.{
  Action, ActionPlan, action_from_dict, plan_from_dict, action_to_dict, plan_to_dict,
  schema_version_1,
}
use cadrig.Contracts.Parsing.{ActionIsValid, TargetIsValid, IsValid}

kind_of-kind_value : (k : ActionKind) → kind_of (kind_value k) ≡ some k
unfolding kind_of
kind_of-kind_value create_document = refl
kind_of-kind_value _ = refl

require_identifier-str :
    (s name : String) → is_identifier s ≡ true → require_identifier (str s) name ≡ ok s
unfolding require_identifier
require_identifier-str s name h = ground arith

module _ (id : String) (k : ActionKind) (p : Dict Json) (h : is_identifier id ≡ true)
    (u : HasDistinctKeys p) where
  action_round_trip :
      (t : Option String)
      → TargetIsValid t
      → let a : Action = record { action_id = id; kind = k; target_id = t; parameters = p } in
        action_from_dict (action_to_dict a) ≡ ok a
  unfolding action_from_dict action_to_dict Dict.get Dict.put
  action_round_trip none v =
      ground (
        arith,
        kind_of-kind_value k,
        require_identifier-str id "action_id" h,
        entries-fields_of p u,
      )
  action_round_trip (some t) v = ground (
    arith,
    kind_of-kind_value k,
    require_identifier-str id "action_id" h,
    require_identifier-str t "target_id" v,
    entries-fields_of p u,
  )

actions_round_trip :
    (actions : List Action)
    → All ActionIsValid actions
    → traverse action_from_dict (items (items_of (map action_to_dict actions))) ≡ ok actions
actions_round_trip [] v = refl
actions_round_trip (a ∷ actions) (v, vs) =
    rw
      (
        action_round_trip a.action_id a.kind a.parameters v.action_id v.parameters a.target_id
            v.target_id,
        actions_round_trip actions vs,
      )
      refl

-- `ActionPlan.from_dict(plan.to_dict())` is the plan, for every valid plan.
pub plan_from_dict-plan_to_dict :
    (p : ActionPlan) → IsValid p → plan_from_dict (plan_to_dict p) ≡ ok p
unfolding plan_from_dict plan_to_dict Dict.get Dict.put
plan_from_dict-plan_to_dict p v = ground (
  arith,
  actions_round_trip p.actions v.actions,
  require_identifier-str p.plan_id "plan_id" v.plan_id,
  require_identifier-str p.document_id "document_id" v.document_id,
  eq_iff p.schema_version schema_version_1,
)

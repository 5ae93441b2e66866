-- ===== src/Contracts/Parsing.antt =====
-- What `ActionPlan.from_dict` accepts.
use cadrig.Base.{
  String, ◌≡◌, refl, subst, ◌≢◌, Bool, true, false, not, Option, none, some, List, [], ◌∷◌, map,
  arith, unique, All, Result, ok, err, >>=-eq-ok, traverse, Error, Fault, require, if◌then◌else◌,
  unsupported_schema, no_actions, duplicate_action_ids,
}
use cadrig.Base.Dict.{Dict}
use cadrig.Json.{Json, null, Fields, end, str, arr, obj, entries, items}
use cadrig.Json.Entries.{HasDistinctKeys, entries-HasDistinctKeys}
use cadrig.Contracts.Kinds.{ActionKind}
use cadrig.Contracts.Identifier.{require_identifier, is_identifier}
use cadrig.Contracts.Plan.{
  Action, ActionPlan, action_from_dict, plan_from_dict, schema_version_1, make_action, make_plan,
  actions_of, action_of_entries, optional_identifier, parameters_of, action_fields, plan_fields,
  action_field, kind_field, revision_of, schema_matches,
}
use cadrig.Contracts.Payload.{has_extras, has_missing, get_or, null_list}

abbrev pub TargetIsValid : Option String → Type 0
TargetIsValid none = Unit
TargetIsValid (some t) = is_identifier t ≡ true

pub record ActionIsValid (a : Action) : Type 0 where
  pub action_id : is_identifier a.action_id ≡ true
  pub target_id : TargetIsValid a.target_id
  pub parameters : HasDistinctKeys a.parameters

-- What `__post_init__` demands of a plan and of its actions.
pub record IsValid (p : ActionPlan) : Type 0 where
  pub plan_id : is_identifier p.plan_id ≡ true
  pub document_id : is_identifier p.document_id ≡ true
  pub schema_version : p.schema_version ≡ schema_version_1
  pub not_empty : p.actions ≢ []
  pub unique_ids : unique (map (λ a. a.action_id) p.actions) ≡ true
  pub actions : All ActionIsValid p.actions

identifier-valid :
    (j : Json) (name : String) {s : String}
    → require_identifier j name ≡ ok s
    → is_identifier s ≡ true
unfolding require_identifier
identifier-valid (str t) name h = ground arith
identifier-valid _ name h = absurd (cc)

optional-valid : (j : Json) {t : Option String} → optional_identifier j ≡ ok t → TargetIsValid t
unfolding optional_identifier
optional-valid null {t} h = let same : none ≡ t = cc h in subst TargetIsValid same tt
optional-valid j {t} h =
    let (s, p, q) = >>=-eq-ok (require_identifier j "target_id") _ h in
    let same : some s ≡ t = cc q in subst TargetIsValid same (identifier-valid j "target_id" p)

parameters-distinct : (j : Json) {d : Dict Json} → parameters_of j ≡ ok d → HasDistinctKeys d
unfolding parameters_of
parameters-distinct (obj fs) {d} h =
    let same : entries fs ≡ d = cc h in subst HasDistinctKeys same (entries-HasDistinctKeys fs)
parameters-distinct _ h = absurd (cc)

make_action-IsValid :
    (i : Json) (k : ActionKind) (t p : Json) {a : Action}
    → make_action i k t p ≡ ok a
    → ActionIsValid a
unfolding make_action
make_action-IsValid i k t p {a} h =
    let (i', p1, q1) = >>=-eq-ok (require_identifier i "action_id") _ h in
    let (t', p2, q2) = >>=-eq-ok (optional_identifier t) _ q1 in
    let (d, p3, q3) = >>=-eq-ok (parameters_of p) _ q2 in
    let made : Action = record { action_id = i'; kind = k; target_id = t'; parameters = d } in
    let same : made ≡ a = cc q3 in
    subst ActionIsValid same record {
      action_id = identifier-valid i "action_id" p1;
      target_id = optional-valid t p2;
      parameters = parameters-distinct p p3;
    }

traverse-All {ℓ} :
    {A B : Type 0} (P : B → Type ℓ) (f : A → Result B)
    → ((x : A) (y : B) → f x ≡ ok y → P y)
    → (xs : List A) (ys : List B) → traverse f xs ≡ ok ys
    → All P ys
traverse-All P f h [] [] e = tt
traverse-All P f h [] (y ∷ ys) e = absurd (cc)
traverse-All P f h (x ∷ xs) ys e =
    let (y, p, q) = >>=-eq-ok (f x) _ e in
    let (ys', p', q') = >>=-eq-ok (traverse f xs) _ q in
    let same : y ∷ ys' ≡ ys = cc q' in subst (All P) same (h x y p, traverse-All P f h xs ys' p')

else_of_ok {ℓ} :
    {A : Type ℓ} (b : Bool) (e : Error) (m : Result A) {a : A}
    → (if b then err e else m) ≡ ok a
    → m ≡ ok a
else_of_ok true e m h = absurd (cc)
else_of_ok false e m h = h

ne_of_null_list {ℓ} : {A : Type ℓ} (xs : List A) → not (null_list xs) ≡ true → xs ≢ []
ne_of_null_list [] h e = absurd (cc)
ne_of_null_list (x ∷ xs) h e = absurd (cc)

action_of_entries-IsValid :
    (d : Dict Json) {a : Action} → action_of_entries d ≡ ok a → ActionIsValid a
unfolding action_of_entries
action_of_entries-IsValid d h =
    let h' = else_of_ok (has_extras action_fields d) _ _ h in
    let (j, p1, q1) = >>=-eq-ok (action_field d "kind") _ h' in
    let (k, p2, q2) = >>=-eq-ok (kind_field j) _ q1 in
    let (i, p3, q3) = >>=-eq-ok (action_field d "action_id") _ q2 in
    make_action-IsValid i k (get_or d "target_id" null) (get_or d "parameters" (obj end)) q3

action_from_dict-IsValid : (j : Json) (a : Action) → action_from_dict j ≡ ok a → ActionIsValid a
unfolding action_from_dict
action_from_dict-IsValid (obj fs) a h = action_of_entries-IsValid (entries fs) h
action_from_dict-IsValid _ a h = absurd (cc)

actions_of-All :
    (j : Json) (actions : List Action) → actions_of j ≡ ok actions → All ActionIsValid actions
unfolding actions_of
actions_of-All (arr xs) actions h =
    traverse-All ActionIsValid action_from_dict action_from_dict-IsValid (items xs) actions h
actions_of-All _ actions h = absurd (cc)

require-true : (b : Bool) (e : Fault) {u : Unit {0}} → require b e ≡ ok u → b ≡ true
require-true true e h = refl
require-true false e h = absurd (cc)

make_plan-IsValid :
    (v i d r : Json) (actions : List Action) {p : ActionPlan}
    → All ActionIsValid actions
    → make_plan v i d r actions ≡ ok p
    → IsValid p
unfolding make_plan
make_plan-IsValid v i d r actions {p} valid h =
    let (i', p1, q1) = >>=-eq-ok (require_identifier i "plan_id") _ h in
    let (d', p2, q2) = >>=-eq-ok (require_identifier d "document_id") _ q1 in
    let (u1, p3, q3) = >>=-eq-ok (require (schema_matches v) unsupported_schema) _ q2 in
    let (r', p4, q4) = >>=-eq-ok (revision_of r) _ q3 in
    let (u2, p5, q5) = >>=-eq-ok (require (not (null_list actions)) no_actions) _ q4 in
    let (u3, p6, q6) =
      >>=-eq-ok (require (unique (map (λ a. a.action_id) actions)) duplicate_action_ids) _ q5 in
    let made : ActionPlan = record {
      plan_id = i';
      document_id = d';
      base_revision = r';
      actions = actions;
      schema_version = schema_version_1;
    } in
    let same : made ≡ p = cc q6 in
    subst IsValid same record {
      plan_id = identifier-valid i "plan_id" p1;
      document_id = identifier-valid d "document_id" p2;
      schema_version = refl;
      not_empty = ne_of_null_list actions (require-true _ no_actions p5);
      unique_ids = require-true _ duplicate_action_ids p6;
      actions = valid;
    }

-- Every plan that `ActionPlan.from_dict` returns has what `__post_init__` demands: identifiers for the
-- plan, the document, every action and every target, the supported schema version, at least one
-- action, distinct action ids, and parameters with distinct names.
pub plan_from_dict-IsValid :
    (payload : Fields) (p : ActionPlan) → plan_from_dict payload ≡ ok p → IsValid p
unfolding plan_from_dict
plan_from_dict-IsValid payload p h =
    let d = entries payload in
    let h1 = else_of_ok (has_extras plan_fields d) _ _ h in
    let h2 = else_of_ok (has_missing plan_fields d) _ _ h1 in
    let (actions, p1, q1) = >>=-eq-ok (actions_of (get_or d "actions" null)) _ h2 in
    make_plan-IsValid (get_or d "schema_version" null) (get_or d "plan_id" null)
      (get_or d "document_id" null) (get_or d "base_revision" null) actions
      (actions_of-All (get_or d "actions" null) actions p1) q1

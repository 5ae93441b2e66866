-- ===== src/Agent/Model.antt =====
-- `ContractCompiler.compile` of contract_compiler.py and `ActionGraphPlanner.propose` of
-- action_graph.py, with a language model's reply as an argument. The prompts are left out.
use cadrig.Base.{
  ℕ, String, Bool, true, false, not, Option, none, some, List, [], ◌∷◌, ◌==◌, all, eqb,
  if◌then◌else◌, Error, contract_error, Fault, Result, ok, err,
}
use cadrig.Base.Text.{is_blank}
use cadrig.Json.{Json, obj, Fields}
use cadrig.Contracts.{
  Action, ActionPlan, AdapterMetadata, create_document, Diagnostic, DocumentSnapshot,
  plan_from_dict, supports, same_kind,
}
use cadrig.Design.{DesignContract, contract_from_dict}
use cadrig.Verify.{VerificationIssue}

-- What `json.loads(model.complete(...))` gives: a value, `JSONDecodeError`, or `ModelError`.
pub data Reply : Type 0 where
  payload : Json → Reply
  not_json model_failed : Reply

-- `ContractCompilationError` and `ActionPlanningError`, one constructor for each place that raises.
pub data Refusal : Type 0 where
  blank_intent no_json no_model not_object : Refusal
  invalid : Fault → Refusal
  changed_intent changed_document changed_revision unsupported_actions missing_create : Refusal

-- A value, one of those two errors, or another exception.
pub data Proposal (A : Type 0) : Type 0 where
  proposed : A → Proposal A
  rejected : Refusal → Proposal A
  crashed : Error → Proposal A

-- `from_dict` under `except ContractError`
abbrev pub parsed : {A : Type 0} → Result A → (A → Proposal A) → Proposal A
parsed (ok a) check = check a
parsed (err (contract_error f)) check = rejected (invalid f)
parsed (err e) check = crashed e

abbrev pub with_object : {A : Type 0} → Reply → (Fields → Proposal A) → Proposal A
with_object (payload (obj fs)) k = k fs
with_object (payload j) k = rejected not_object
with_object not_json k = rejected no_json
with_object model_failed k = rejected no_model

pub record ContractContext : Type 0 where
  pub intent : String
  pub document_id : String
  pub snapshot : Option DocumentSnapshot
  pub adapter : AdapterMetadata

check_contract : ContractContext → DesignContract → Proposal DesignContract
check_contract context contract =
    if contract.intent == context.intent
    then (if contract.document_id == context.document_id
        then proposed contract
        else rejected changed_document)
    else rejected changed_intent

-- `compile(context)`
unfoldable pub compile : ContractContext → Reply → Proposal DesignContract
unfolding check_contract
compile context reply =
    if is_blank context.intent
    then rejected blank_intent
    else with_object reply (λ fs. parsed (contract_from_dict fs) (check_contract context))

-- The items of `repair_feedback`
pub data Feedback : Type 0 where
  graph_invalid : Refusal → Feedback
  diagnosed : Diagnostic → Feedback
  issued : VerificationIssue → Feedback

pub record ActionGraphContext : Type 0 where
  pub contract : DesignContract
  pub snapshot : Option DocumentSnapshot
  pub adapter : AdapterMetadata
  pub repair_feedback : List Feedback

-- `context.base_revision`
abbrev pub base_revision : Option DocumentSnapshot → ℕ
base_revision none = 0
base_revision (some s) = s.revision

abbrev begins_with_create : Option DocumentSnapshot → List Action → Bool
begins_with_create (some s) actions = true
begins_with_create none [] = false
begins_with_create none (a ∷ actions) = same_kind a.kind create_document

check_plan : ActionGraphContext → ActionPlan → Proposal ActionPlan
check_plan context plan =
    if not (plan.document_id == context.contract.document_id)
    then rejected changed_document
    else if not (eqb plan.base_revision (base_revision context.snapshot))
    then rejected changed_revision
    else if not (all (λ a. supports context.adapter.supported_actions a.kind) plan.actions)
    then rejected unsupported_actions
    else if begins_with_create context.snapshot plan.actions
    then proposed plan
    else rejected missing_create

-- `propose(context)`
unfoldable pub propose : ActionGraphContext → Reply → Proposal ActionPlan
unfolding check_plan
propose context reply = with_object reply (λ fs. parsed (plan_from_dict fs) (check_plan context))

-- ===== src/Tests/Agents.antt =====
-- Runs of the agent over the memory adapter, with models that always give the same reply.
use Prim.Native.String.{String}
use text.Mathlib.TextLemmas.{cons≢nil, tail-eq_of_cons-eq}
use cadrig.Base.{
  arith, ◌+◌, ◌≤◌, ℕ, zero, suc, ◌≡◌, refl, sym, ap, ◌≢◌, Bool, true, false, Option, none, some,
}
use cadrig.Base.Dict
use cadrig.Base.Text.{is_blank}
use cadrig.Json.{Json, str, obj, arr, end, field, nil, cons}
use cadrig.Contracts.{
  ExecutionReceipt, plan_to_dict, plan_from_dict, kind_of, require_identifier, check_identifier,
  feature_snapshot, document_snapshot, supports,
}
use cadrig.Design.{contract_from_dict, predicate_from_dict, predicate_kind_of}
use cadrig.Verify.{verify, evaluate_requirement}
use cadrig.Memory.{execute, validate, observe, snapshot, snapshot_opt, apply_all, apply_action}
use cadrig.Agent.{
  Engine, IsLawful, Reply, payload, not_json, ContractContext, ActionGraphContext, Outcome,
  AgentRun, AgentRunStatus, committed, refused_run, finished, agent_error, escaped, final, run,
  compile, propose,
}
use cadrig.Agent.MemoryEngine.{Host, new_host, memory_engine, memory_engine-IsLawful, host_execute}
use cadrig.Agent.Safety.Contracts.{run_committed-Passes}
use cadrig.Agent.Safety.Repairs.{run-bounded}
use cadrig.Agent.Safety.Planners.{run_alike}
use cadrig.Agent.Safety.Numbering.{is_numbered}
use cadrig.Agent.Safety.Traces.{run-numbered}
use cadrig.Verify.Acceptance.{Passes}
use cadrig.Agent.Safety.Passes.{Committed}
use cadrig.Agent.Safety.Runs.{run_preview, run_uncommitted, run_committed, run_committed-apply}
use cadrig.Tests.Samples.{whole_floats, create_plan, hash_of}

abbrev ids : ℕ → String
ids zero = "r"
ids (suc n) = String.◌∷◌ "r" (ids n)

ids_not_short : (n : ℕ) → ids n ≢ ""
ids_not_short zero e = cons≢nil e
ids_not_short (suc n) e = cons≢nil e

ids_distinct : (m n : ℕ) → ids m ≡ ids n → m ≡ n
ids_distinct zero zero e = refl
ids_distinct zero (suc n) e = absurd (ids_not_short n (sym (tail-eq_of_cons-eq e)))
ids_distinct (suc m) zero e = absurd (ids_not_short m (tail-eq_of_cons-eq e))
ids_distinct (suc m) (suc n) e = ap suc (ids_distinct m n (tail-eq_of_cons-eq e))

abbrev engine : Engine
engine = memory_engine whole_floats ids ids_distinct

abbrev lawful : IsLawful engine
lawful = memory_engine-IsLawful whole_floats ids ids_distinct

abbrev host : Host whole_floats ids ids_distinct
host = new_host whole_floats ids ids_distinct

-- One requirement: the document exists.
abbrev contract_reply : Json
contract_reply = obj (
    field "schema_version" (str "1.0.0") (
      field "contract_id" (str "c1") (
        field "intent" (str "a box") (
          field "document_id" (str "part") (
            field "requirements"
              (arr (
                cons
                  (obj (
                    field "predicate_id" (str "q1")
                      (field "kind" (str "document_exists") (field "parameters" (obj end) end))))
                  nil))
              (field "invariants" (arr nil) end))))))

abbrev compiler : ContractContext → Reply
compiler context = payload contract_reply

abbrev planner : ℕ → ActionGraphContext → Reply
planner n context = payload (obj (plan_to_dict create_plan))

abbrev lost_planner : ℕ → ActionGraphContext → Reply
lost_planner n context = not_json

abbrev outcome_of : (ℕ → ActionGraphContext → Reply) → Bool → Outcome engine.State
outcome_of p apply = run engine whole_floats hash_of p compiler 2 "a box" "memory" "part" apply host

abbrev status_of : {S : Type 0} → Outcome S → Option AgentRunStatus
status_of (finished r s) = some r.status
status_of _ = none

commit_status : status_of (outcome_of planner true) ≡ some committed
unfolding run plan_to_dict Dict.get Dict.put is_blank kind_of require_identifier check_identifier
    feature_snapshot document_snapshot host_execute validate observe snapshot snapshot_opt apply_all
    apply_action execute verify compile propose supports plan_from_dict contract_from_dict
    predicate_kind_of predicate_from_dict evaluate_requirement
commit_status = refl

refused_status : status_of (outcome_of lost_planner true) ≡ some refused_run
unfolding run Dict.get Dict.put is_blank require_identifier check_identifier validate observe
    snapshot_opt compile propose contract_from_dict predicate_kind_of predicate_from_dict
refused_status = refl

-- The run and the state of an outcome with a status.
abbrev EndsAs : {S : Type 0} → Outcome S → AgentRunStatus → Type 0
EndsAs {S = S} o c = (r : AgentRun) × (s : S) × (o ≡ finished r s) × (r.status ≡ c)

ends_as : {S : Type 0} (o : Outcome S) (c : AgentRunStatus) → status_of o ≡ some c → EndsAs o c
ends_as (finished r s) c e = (r, s, refl, cc)
ends_as (agent_error events s) c e = absurd (cc)
ends_as (escaped x s) c e = absurd (cc)

abbrev commit_end : EndsAs (outcome_of planner true) committed
commit_end = ends_as (outcome_of planner true) committed commit_status

abbrev refused_end : EndsAs (outcome_of lost_planner true) refused_run
refused_end = ends_as (outcome_of lost_planner true) refused_run refused_status

not_committed : refused_end.0.status ≢ committed
not_committed e = absurd (cc (e, refused_end.3))

memory_engine-IsLawful_example : IsLawful engine
memory_engine-IsLawful_example = memory_engine-IsLawful whole_floats ids ids_distinct

run_preview_example : lawful.Same (final (outcome_of planner false)) host
run_preview_example =
    run_preview engine lawful whole_floats hash_of planner compiler 2 "a box" "memory" "part" false
      host refl

run_uncommitted_example : lawful.Same refused_end.1 host
run_uncommitted_example =
    run_uncommitted engine lawful whole_floats hash_of lost_planner compiler 2 "a box" "memory"
      "part" true host refused_end.0 refused_end.1 refused_end.2 not_committed

run_committed_example :
    Committed engine lawful whole_floats hash_of host "memory" commit_end.0 commit_end.1
run_committed_example =
    run_committed engine lawful whole_floats hash_of planner compiler 2 "a box" "memory" "part" true
      host commit_end.0 commit_end.1 commit_end.2 commit_end.3

run_committed-apply_example : true ≡ true
run_committed-apply_example =
    run_committed-apply engine lawful whole_floats hash_of planner compiler 2 "a box" "memory"
      "part" true host commit_end.0 commit_end.1 commit_end.2 commit_end.3

run_committed-Passes_example :
    (receipt : ExecutionReceipt) × (commit_end.0.receipt ≡ some receipt)
    × Passes whole_floats hash_of commit_end.0.contract receipt
run_committed-Passes_example =
    run_committed-Passes engine lawful whole_floats hash_of planner compiler 2 "a box" "memory"
      "part" true host commit_end.0 commit_end.1 commit_end.2 commit_end.3

run-bounded_example : (1 ≤ commit_end.0.attempts) × (commit_end.0.attempts ≤ 2 + 1)
run-bounded_example =
    run-bounded engine whole_floats hash_of planner commit_end.0 commit_end.1 compiler 2 "a box"
      "memory" "part" true host commit_end.2

-- A planner that gives a plan only after three attempts.
abbrev late_planner : ℕ → ActionGraphContext → Reply
late_planner zero context = not_json
late_planner (suc zero) context = not_json
late_planner (suc (suc zero)) context = not_json
late_planner (suc (suc (suc zero))) context = not_json
late_planner (suc (suc (suc (suc n)))) context = planner n context

late : (m : ℕ) (c : ActionGraphContext) → 1 ≤ m → m ≤ 2 + 1 → late_planner m c ≡ lost_planner m c
late zero c p q = refl
late (suc zero) c p q = refl
late (suc (suc zero)) c p q = refl
late (suc (suc (suc zero))) c p q = refl
late (suc (suc (suc (suc n)))) c p q = absurd (omega arith)

run_alike_example : outcome_of late_planner true ≡ outcome_of lost_planner true
run_alike_example =
    run_alike engine whole_floats hash_of late_planner lost_planner compiler 2 "a box" "memory"
      "part" true host late

run-numbered_example : is_numbered 0 commit_end.0.events ≡ true
run-numbered_example =
    run-numbered engine whole_floats hash_of planner commit_end.0 commit_end.1 compiler 2 "a box"
      "memory" "part" true host commit_end.2

-- ===== src/Scheduler/Run.antt =====
-- One attempt of the loop of `_run_cohort_locked` of scheduler.py. What the outside does at an attempt is an argument, so are the
-- ids of the attempts; the states that are written to cohort.json are collected in order.
use mathlib.Core.Option as Option
use cadrig.Base.{ℕ, suc, String, Bool, true, false, Option, none, some, List, [], ◌∷◌, ◌++◌, length}
use cadrig.Base.Dict
use cadrig.Base.Dict.{Dict}
use cadrig.Scheduler.Config.{Decimals, CohortConfig}
use cadrig.Scheduler.Usage.{Usage, Trace, ProviderUsage, no_usage, usage_cost, cost_reservation}
use cadrig.Scheduler.State.{
  TaskStatus, task_running, task_completed, task_failed, attempt_running, attempt_completed,
  attempt_failed, Attempt, Task, CohortState, priced, recalculate,
}
use cadrig.Scheduler.Budget.{usage_left, dir_or}

-- How `run_official_baseline` ends: with a directory, with `RuntimeError` and the newest directory that
-- there is, or with another exception.
pub data Launch : Type 0 where
  launched : String → Launch
  launch_failed : Option String → Launch
  launch_escaped : Launch

-- What the outside does at one attempt. `none` for the verification, and `false` for the publication,
-- is an exception; the hashes are those of the candidate before and after it is published.
pub record Outside : Type 0 where
  pub launch : Launch
  pub trace : Option Trace
  pub provider : Option ProviderUsage
  pub verification : Option Bool
  pub source_candidate : Option String
  pub publishes : Bool
  pub published_candidate : Option String

-- The states that were saved, and the state at which the process goes on, unless an exception ended it.
pub record Saves (S : Type 0) : Type 0 where
  pub saved : List S
  pub current : Option S

abbrev pub saving : {S : Type 0} → S → Saves S → Saves S
saving s r = record r { saved = s ∷ r.saved }

module _ (D : Decimals) (c : CohortConfig D.Amount) where
  -- The attempt that is appended before the provider is called.
  abbrev pub new_attempt : String → Attempt D.Amount
  new_attempt id = record {
    attempt_id = id;
    status = attempt_running;
    run_dir = none;
    reserved_tokens = c.max_tokens_per_task;
    reserved_cost = cost_reservation D c;
    debit_tokens = c.max_tokens_per_task;
    debit_cost = cost_reservation D c;
    cost = none;
    usage = no_usage;
    candidate_sha256 = none;
  }

  -- `attempt["usage"] = ...` and the debit that follows it
  abbrev pub debited : Usage → Attempt D.Amount → Attempt D.Amount
  debited u a = elim u.trace_found [
    | true ↦ record a {
      usage = u;
      debit_tokens = u.total;
      debit_cost = Option.map D.stored (usage_cost D c u);
    }
    | false ↦ elim u.provider_usage_found [
      | true ↦ record a {
        usage = u;
        debit_tokens = u.total;
        debit_cost = Option.map D.stored (usage_cost D c u);
      }
      | false ↦ record a { usage = u }
    ]
  ]

  abbrev pub settled : Option String → Outside → Attempt D.Amount → Attempt D.Amount
  settled dir o a = record (debited (usage_left dir o.trace o.provider) a) {
    run_dir = dir_or dir none;
  }

  abbrev pub failed_attempt : Attempt D.Amount → Attempt D.Amount
  failed_attempt a = record a { status = attempt_failed }

  abbrev pub completed_attempt : String → Attempt D.Amount → Attempt D.Amount
  completed_attempt hash a = record a { status = attempt_completed; candidate_sha256 = some hash }

  -- The task with its last attempt replaced.
  abbrev pub with_last : TaskStatus → Task D.Amount → Attempt D.Amount → Task D.Amount
  with_last status t a = record t { status = status; attempts = t.attempts ++ (a ∷ []) }

  abbrev pub put_task : CohortState D.Amount → String → Task D.Amount → CohortState D.Amount
  put_task s id t = record s { tasks = Dict.put s.tasks id t }

  -- The state after an attempt that the verification or the publication refused.
  abbrev pub failing :
      CohortState D.Amount → String → Task D.Amount → Attempt D.Amount → CohortState D.Amount
  failing s id t a = put_task s id (with_last task_failed t (failed_attempt a))

  abbrev pub ends_with : CohortState D.Amount → Saves (CohortState D.Amount)
  ends_with s = record { saved = s ∷ []; current = some s }

  abbrev pub raises : Saves (CohortState D.Amount)
  raises = record { saved = []; current = none }

  -- The publication of a candidate that was verified.
  unfoldable pub publish :
      CohortState D.Amount
      → String
      → Task D.Amount
      → Attempt D.Amount
      → String
      → Outside
      → Saves (CohortState D.Amount)
  publish s id t a hash o = elim o.publishes [
    | false ↦ raises
    | true ↦ elim o.published_candidate [
      | none ↦ ends_with (failing s id t (completed_attempt hash a))
      | some h ↦ ends_with (
          put_task s id (record (with_last task_completed t (completed_attempt hash a)) {
            candidate_sha256 = some h;
          }))
    ]
  ]

  -- The verification of an attempt that returned a directory.
  unfoldable pub verify_attempt :
      CohortState D.Amount
      → String
      → Task D.Amount
      → Attempt D.Amount
      → Outside
      → Saves (CohortState D.Amount)
  unfolding publish
  verify_attempt s id t a o = elim o.verification [
    | none ↦ raises
    | some false ↦ ends_with (failing s id t a)
    | some true ↦ elim o.source_candidate [
      | none ↦ ends_with (failing s id t a)
      | some hash ↦ publish s id t a hash o
    ]
  ]

  -- The state after the accounting of an attempt that has ended.
  abbrev pub accounted :
      CohortState D.Amount → String → Task D.Amount → Attempt D.Amount → CohortState D.Amount
  accounted s id t a = recalculate D c (put_task s id (with_last task_running t a))

  -- After the reservation is saved: the attempt, its accounting, and its verification.
  unfoldable pub finish_attempt :
      CohortState D.Amount
      → String
      → Task D.Amount
      → Attempt D.Amount
      → Outside
      → Saves (CohortState D.Amount)
  unfolding verify_attempt recalculate
  finish_attempt s id t a o = elim o.launch [
    | launch_escaped ↦ raises
    | launch_failed dir ↦
        let b = priced D c (settled dir o a) in ends_with (failing (accounted s id t b) id t b)
    | launched dir ↦
        let b = priced D c (settled (some dir) o a) in verify_attempt (accounted s id t b) id t b o
  ]

  -- `attempt_number`
  abbrev pub attempt_number : Task D.Amount → ℕ
  attempt_number t = suc (length t.attempts)

  -- The reservation, which is saved before the provider is called, and the attempt.
  unfoldable pub run_attempt :
      CohortState D.Amount
      → String
      → Task D.Amount
      → String
      → Outside
      → Saves (CohortState D.Amount)
  unfolding finish_attempt recalculate
  run_attempt s id t attempt_id o =
      let reserved = accounted s id t (new_attempt attempt_id) in
      saving reserved (finish_attempt reserved id t (priced D c (new_attempt attempt_id)) o)

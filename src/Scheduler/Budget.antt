-- ===== src/Scheduler/Budget.antt =====
-- The reservations of a cohort: what is admitted, and what a crash leaves reserved.
use cadrig.Base.{
  ◌+◌, String, Bool, true, false, Option, none, some, List, [], ◌∷◌, map, any, ltb, if◌then◌else◌,
}
use cadrig.Base.Dict.{Dict}
use cadrig.Scheduler.Config.{Decimals, CohortConfig}
use cadrig.Scheduler.Usage.{Usage, Trace, ProviderUsage, trace_usage, reservation, cost_reservation}
use cadrig.Scheduler.State.{
  attempt_running, attempt_abandoned, task_failed, Attempt, Task, CohortState, CohortStatus,
  stopped_token_budget, stopped_cost_budget, recalculate,
}

-- What an attempt left on the disk.
pub record Remains : Type 0 where
  pub run_dir : Option String
  pub trace : Option Trace
  pub provider : Option ProviderUsage

-- `_trace_usage(run_dir, ...)`: without a directory there is no trace.
abbrev pub usage_left : Option String → Option Trace → Option ProviderUsage → Usage
usage_left none trace provider = trace_usage none provider
usage_left (some dir) trace provider = trace_usage trace provider

abbrev pub is_running : {A : Type 0} → Attempt A → Bool
is_running a = elim a.status [ attempt_running ↦ true | _ ↦ false ]

-- The directory that was recorded, unless there is one on the disk.
abbrev pub dir_or : Option String → Option String → Option String
dir_or (some dir) old = some dir
dir_or none old = old

module _ (D : Decimals) (c : CohortConfig D.Amount) where
  abbrev cost_exceeded : CohortState D.Amount → D.Amount → D.Amount → Bool
  cost_exceeded s reserve budget =
      D.exceeds
        (D.plus (elim s.accounting.debited_cost_usd [ none ↦ D.zero_amount | some used ↦ used ])
          reserve)
        budget

  abbrev cost_stop : CohortState D.Amount → Option D.Amount → Option D.Amount → Option CohortStatus
  cost_stop s (some budget) (some reserve) =
      if cost_exceeded s reserve budget then some stopped_cost_budget else none
  cost_stop s _ _ = none

  -- `_reserve_allowed`; a status is the reason for which the cohort stops. A cost budget comes with
  -- rates, so that there is a reservation.
  unfoldable pub reserve_allowed : CohortState D.Amount → Option CohortStatus
  reserve_allowed s =
      if ltb c.total_token_budget (s.accounting.debited_tokens + c.max_tokens_per_task)
      then some stopped_token_budget
      else cost_stop s c.total_cost_budget_usd (reservation D c)

  -- One attempt under `_reconcile_abandoned_attempts`
  abbrev pub abandoned : (String → Remains) → Attempt D.Amount → Attempt D.Amount
  abandoned left a =
      if is_running a
      then record a {
        status = attempt_abandoned;
        run_dir = dir_or (left a.attempt_id).run_dir a.run_dir;
        usage =
            usage_left (left a.attempt_id).run_dir (left a.attempt_id).trace
              (left a.attempt_id).provider;
        debit_tokens = c.max_tokens_per_task;
        debit_cost = cost_reservation D c;
      }
      else a

  abbrev pub reconciled_task : (String → Remains) → Task D.Amount → Task D.Amount
  reconciled_task left t =
      if any is_running t.attempts
      then record t { status = task_failed; attempts = map (abandoned left) t.attempts }
      else t

  abbrev pub reconciled_tasks : (String → Remains) → Dict (Task D.Amount) → Dict (Task D.Amount)
  reconciled_tasks left [] = []
  reconciled_tasks left ((k, t) ∷ d) = (k, reconciled_task left t) ∷ reconciled_tasks left d

  -- The tasks that the reconciliation returns
  abbrev pub abandoned_tasks : Dict (Task D.Amount) → List String
  abandoned_tasks [] = []
  abandoned_tasks ((k, t) ∷ d) =
      let rest = abandoned_tasks d in if any is_running t.attempts then k ∷ rest else rest

  -- `_reconcile_abandoned_attempts`
  unfoldable pub reconcile :
      (String → Remains) → CohortState D.Amount → CohortState D.Amount × List String
  unfolding recalculate
  reconcile left s = (
    recalculate D c (record s { tasks = reconciled_tasks left s.tasks }),
    abandoned_tasks s.tasks,
  )

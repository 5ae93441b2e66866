-- ===== src/Scheduler/Loop.antt =====
-- `_run_cohort_locked` of scheduler.py: the loop over the tasks of a cohort.
use cadrig.Base.{
  ℕ, ◌-◌, String, Bool, true, false, Option, none, some, List, [], ◌∷◌, ◌++◌, length, keep, all,
  contains, if◌then◌else◌,
}
use cadrig.Base.Dict
use cadrig.Base.Dict.{Dict}
use cadrig.Scheduler.Config.{Decimals, CohortConfig}
use cadrig.Scheduler.State.{
  task_completed, task_failed, CohortStatus, cohort_running, cohort_completed, cohort_partial, Task,
  CohortState, recalculate, load_state, Stored, no_state,
}
use cadrig.Scheduler.Budget.{Remains, reserve_allowed, reconcile}
use cadrig.Scheduler.Run.{Outside, Saves, saving, run_attempt, attempt_number}

-- The outside of a process: what an interrupted attempt left, the ids and the results of the attempts
-- by task and number, whether a completed task passes its verification again, and whether the sanity
-- checker is there.
pub record World : Type 0 where
  pub checker_found : Bool
  pub remains : String → Remains
  pub attempt_ids : String → ℕ → String
  pub outside : String → ℕ → Outside
  pub still_verified : String → Option String → Bool

abbrev pub task_is_completed : {A : Type 0} → Task A → Bool
task_is_completed t = elim t.status [ task_completed ↦ true | _ ↦ false ]

abbrev task_is_failed : {A : Type 0} → Task A → Bool
task_is_failed t = elim t.status [ task_failed ↦ true | _ ↦ false ]

abbrev pub cohort_is_running : {A : Type 0} → CohortState A → Bool
cohort_is_running s = elim s.status [ cohort_running ↦ true | _ ↦ false ]

-- What the loop does next, after one task: it goes on, breaks, or an exception ends it. The list has
-- the states that were saved.
pub data Turned (S : Type 0) : Type 0 where
  goes_on : List S → S → Turned S
  breaks : S → Turned S
  crashes : List S → Turned S

pub record CohortResult (Amount : Type 0) : Type 0 where
  pub status : CohortStatus
  pub completed : ℕ
  pub failed : ℕ
  pub pending : ℕ
  pub total_tokens : ℕ
  pub cost_usd : Option Amount

module _ (D : Decimals) (c : CohortConfig D.Amount) (w : World) where
  abbrev pub after_attempt : Saves (CohortState D.Amount) → Turned (CohortState D.Amount)
  after_attempt r = elim r.current [ none ↦ crashes r.saved | some s ↦ goes_on r.saved s ]

  -- The body of the loop for a task that is not completed.
  unfoldable pub open_turn :
      List String → CohortState D.Amount → String → Task D.Amount → Turned (CohortState D.Amount)
  unfolding run_attempt reserve_allowed
  open_turn abandoned s id t = elim (contains id abandoned) [
    | true ↦ goes_on [] s
    | false ↦ elim (reserve_allowed D c s) [
      | some status ↦ breaks (record s { status = status })
      | none ↦ after_attempt (
          run_attempt D c s id t (w.attempt_ids id (attempt_number D c t))
            (w.outside id (attempt_number D c t)))
    ]
  ]

  -- The body of the loop
  unfoldable pub turn : List String → CohortState D.Amount → String → Turned (CohortState D.Amount)
  unfolding open_turn
  turn abandoned s id = elim (Dict.get s.tasks id) [
    | none ↦ crashes []
    | some t ↦ elim (task_is_completed t) [
      | true ↦ elim (w.still_verified id t.candidate_sha256) [
        | true ↦ goes_on [] s
        | false ↦ crashes []
      ]
      | false ↦ open_turn abandoned s id t
    ]
  ]

  abbrev pub saving_all :
      List (CohortState D.Amount) → Saves (CohortState D.Amount) → Saves (CohortState D.Amount)
  saving_all saved r = record r { saved = saved ++ r.saved }

  -- The loop. The fixtures are distinct, so that the tasks attempted now are those of the start.
  unfoldable pub turns :
      List String → CohortState D.Amount → List String → Saves (CohortState D.Amount)
  unfolding turn
  turns abandoned s [] = record { saved = []; current = some s }
  turns abandoned s (id ∷ ids) = elim (turn abandoned s id) [
    | crashes saved ↦ record { saved = saved; current = none }
    | breaks s' ↦ record { saved = []; current = some s' }
    | goes_on saved s' ↦ saving_all saved (turns abandoned s' ids)
  ]

  -- The status after the loop
  abbrev pub concluded : CohortState D.Amount → CohortState D.Amount
  concluded s =
      if all task_is_completed (Dict.values s.tasks)
      then record s { status = cohort_completed }
      else if cohort_is_running s
      then record s { status = cohort_partial }
      else s

  abbrev pub conclude : Saves (CohortState D.Amount) → Saves (CohortState D.Amount)
  conclude r = elim r.current [
    | none ↦ r
    | some s ↦
        let t = concluded (recalculate D c s) in
        record { saved = r.saved ++ (t ∷ []); current = some t }
  ]

  -- A new cohort is saved as it is made.
  abbrev pub first_saves : Stored D.Amount → CohortState D.Amount → List (CohortState D.Amount)
  first_saves (no_state others) s = s ∷ []
  first_saves _ s = []

  -- `_run_cohort_locked`; `none` is the `ValueError` of a missing checker or of the saved state.
  unfoldable pub run_cohort : String → Stored D.Amount → Option (Saves (CohortState D.Amount))
  unfolding turns recalculate reconcile load_state
  run_cohort fingerprint stored = elim w.checker_found [
    | false ↦ none
    | true ↦ elim (load_state D c fingerprint stored) [
      | none ↦ none
      | some s ↦
          let (reconciled, abandoned) = reconcile D c w.remains s in
          let started = record reconciled { status = cohort_running } in
          some (
            saving_all (first_saves stored s)
              (saving started (conclude (turns abandoned started c.fixtures))))
    ]
  ]

  -- `CohortResult` of the last state
  unfoldable pub cohort_result : CohortState D.Amount → CohortResult D.Amount
  cohort_result s =
      let tasks = Dict.values s.tasks in
      let completed = length (keep task_is_completed tasks) in
      let failed = length (keep task_is_failed tasks) in
      record {
        status = s.status;
        completed = completed;
        failed = failed;
        pending = length tasks - completed - failed;
        total_tokens = s.accounting.total_tokens;
        cost_usd = s.accounting.cost_usd;
      }

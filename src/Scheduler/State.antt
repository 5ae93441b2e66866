-- ===== src/Scheduler/State.antt =====
-- The state of a cohort (cohort.json), its accounting, and how it is loaded. Times and messages are
-- left out.
use mathlib.Core.Option as Option
use cadrig.Base.{
  ℕ, ◌+◌, ◌-◌, String, Bool, Option, none, some, List, [], ◌∷◌, map, ◌==◌, if◌then◌else◌,
}
use cadrig.Base.Dict.{Dict}
use cadrig.Scheduler.Config.{Decimals, CohortConfig}
use cadrig.Scheduler.Usage.{Usage, usage_cost}

pub data TaskStatus : Type 0 where
  task_pending task_running task_completed task_failed : TaskStatus

pub data AttemptStatus : Type 0 where
  attempt_running attempt_abandoned attempt_completed attempt_failed : AttemptStatus

pub data CohortStatus : Type 0 where
  cohort_ready cohort_running cohort_completed cohort_partial : CohortStatus
  stopped_token_budget stopped_cost_budget : CohortStatus

pub record Attempt (Amount : Type 0) : Type 0 where
  pub attempt_id : String
  pub status : AttemptStatus
  pub run_dir : Option String
  pub reserved_tokens : ℕ
  pub reserved_cost : Option Amount
  pub debit_tokens : ℕ
  pub debit_cost : Option Amount
  pub cost : Option Amount
  pub usage : Usage
  pub candidate_sha256 : Option String

pub record Task (Amount : Type 0) : Type 0 where
  pub status : TaskStatus
  pub attempts : List (Attempt Amount)
  pub candidate_sha256 : Option String

-- `usage` and `budget_accounting`
pub record Accounting (Amount : Type 0) : Type 0 where
  pub prompt_tokens : ℕ
  pub completion_tokens : ℕ
  pub unclassified_tokens : ℕ
  pub total_tokens : ℕ
  pub cost_usd : Option Amount
  pub debited_tokens : ℕ
  pub unverified_reserved_tokens : ℕ
  pub debited_cost_usd : Option Amount
  pub unverified_reserved_cost_usd : Option Amount

pub record CohortState (Amount : Type 0) : Type 0 where
  pub config_fingerprint : String
  pub status : CohortStatus
  pub tasks : Dict (Task Amount)
  pub accounting : Accounting Amount

-- The attempts of every task, in order.
abbrev pub attempts_sum : {A : Type 0} → (Attempt A → ℕ) → List (Attempt A) → ℕ
attempts_sum f [] = 0
attempts_sum f (a ∷ rest) = f a + attempts_sum f rest

abbrev pub tasks_sum : {A : Type 0} → (Attempt A → ℕ) → Dict (Task A) → ℕ
tasks_sum f [] = 0
tasks_sum f ((k, t) ∷ d) = attempts_sum f t.attempts + tasks_sum f d

module _ (D : Decimals) (c : CohortConfig D.Amount) where
  -- `attempt["cost_usd"] = float(attempt_cost)`
  abbrev pub priced : Attempt D.Amount → Attempt D.Amount
  priced a = elim (usage_cost D c a.usage) [
    | none ↦ a
    | some cost ↦ record a { cost = some (D.stored cost) }
  ]

  abbrev pub priced_task : Task D.Amount → Task D.Amount
  priced_task t = record t { attempts = map priced t.attempts }

  abbrev pub priced_tasks : Dict (Task D.Amount) → Dict (Task D.Amount)
  priced_tasks [] = []
  priced_tasks ((k, t) ∷ d) = (k, priced_task t) ∷ priced_tasks d

  abbrev or_zero : Option D.Amount → D.Amount
  or_zero none = D.zero_amount
  or_zero (some a) = a

  abbrev cost_of_attempts :
      (Attempt D.Amount → Option D.Amount) → List (Attempt D.Amount) → D.Amount
  cost_of_attempts f [] = D.zero_amount
  cost_of_attempts f (a ∷ rest) = D.plus (or_zero (f a)) (cost_of_attempts f rest)

  abbrev cost_of_tasks : (Attempt D.Amount → Option D.Amount) → Dict (Task D.Amount) → D.Amount
  cost_of_tasks f [] = D.zero_amount
  cost_of_tasks f ((k, t) ∷ d) = D.plus (cost_of_attempts f t.attempts) (cost_of_tasks f d)

  -- An amount, when the configuration has rates.
  abbrev with_rates : D.Amount → Option D.Amount
  with_rates a = Option.map (λ _. a) c.input_usd_per_million

  -- The two dictionaries that `_recalculate_usage` computes.
  abbrev pub accounting_of : Dict (Task D.Amount) → Accounting D.Amount
  accounting_of tasks =
      let total = tasks_sum (λ a. a.usage.total) tasks in
      let debited = tasks_sum (λ a. a.debit_tokens) tasks in
      let cost = cost_of_tasks (λ a. usage_cost D c a.usage) tasks in
      let debited_cost = cost_of_tasks (λ a. a.debit_cost) tasks in
      record {
        prompt_tokens = tasks_sum (λ a. a.usage.prompt) tasks;
        completion_tokens = tasks_sum (λ a. a.usage.completion) tasks;
        unclassified_tokens = tasks_sum (λ a. a.usage.unclassified) tasks;
        total_tokens = total;
        cost_usd = with_rates (D.stored cost);
        debited_tokens = debited;
        unverified_reserved_tokens = debited - total;
        debited_cost_usd = with_rates (D.stored debited_cost);
        unverified_reserved_cost_usd =
            with_rates (D.stored (D.greater (D.minus debited_cost cost) D.zero_amount));
      }

  -- `_recalculate_usage`
  unfoldable pub recalculate : CohortState D.Amount → CohortState D.Amount
  recalculate s = record s { tasks = priced_tasks s.tasks; accounting = accounting_of s.tasks }

  abbrev pub new_tasks : List String → Dict (Task D.Amount)
  new_tasks [] = []
  new_tasks (f ∷ fs) =
      (f, record { status = task_pending; attempts = []; candidate_sha256 = none }) ∷ new_tasks fs

  -- `_initial_state`; the fingerprint of the configuration is a hash, an argument here.
  unfoldable pub initial_state : String → CohortState D.Amount
  initial_state fingerprint = record {
    config_fingerprint = fingerprint;
    status = cohort_ready;
    tasks = new_tasks c.fixtures;
    accounting = record {
      prompt_tokens = 0;
      completion_tokens = 0;
      unclassified_tokens = 0;
      total_tokens = 0;
      cost_usd = with_rates D.zero_amount;
      debited_tokens = 0;
      unverified_reserved_tokens = 0;
      debited_cost_usd = with_rates D.zero_amount;
      unverified_reserved_cost_usd = with_rates D.zero_amount;
    };
  }

-- The directory of a cohort: without cohort.json, and whether other files are in it; with a file that
-- is no JSON object; with a state.
pub data Stored (Amount : Type 0) : Type 0 where
  no_state : Bool → Stored Amount
  unreadable : Stored Amount
  saved_state : CohortState Amount → Stored Amount

module _ (D : Decimals) (c : CohortConfig D.Amount) where
  -- `_load_state`; `none` is its `ValueError`.
  unfoldable pub load_state : String → Stored D.Amount → Option (CohortState D.Amount)
  unfolding initial_state
  load_state fingerprint (no_state others) =
      if others then none else some (initial_state D c fingerprint)
  load_state fingerprint unreadable = none
  load_state fingerprint (saved_state s) =
      if s.config_fingerprint == fingerprint then some s else none

-- ===== src/Tests/Cohorts.antt =====
-- A cohort of two tasks, whose attempts report 30 tokens more than their cap of 100.
use cadrig.Base.{
  ℕ, ◌+◌, ◌*◌, ◌-◌, ◌≡◌, refl, arith, true, false, none, some, List, [], ◌∷◌, ◌++◌, ltb, leb,
  if◌then◌else◌,
}
use cadrig.Base.Dict
use cadrig.Scheduler.{
  Decimals, CohortConfig, CohortState, World, Outside, launched, Saves, no_state, run_cohort,
  trace_usage, usage_cost, reservation, initial_state,
}
use cadrig.Scheduler.Safety.Attempts.{WellBudgeted}
use cadrig.Scheduler.Safety.Processes.{IsCapped}
use cadrig.Scheduler.Safety.Cohorts.{Reached, created, reached-WellBudgeted}

-- Whole numbers in place of decimals; a million tokens are one thousand here.
abbrev whole : Decimals
whole = record {
  Amount = ℕ;
  zero_amount = 0;
  of_count = λ n. n;
  plus = λ a b. a + b;
  times = λ a b. a * b;
  minus = λ a b. a - b;
  greater = λ a b. if leb a b then b else a;
  over_million = λ a. a;
  exceeds = λ a b. ltb b a;
  stored = λ a. a;
}

abbrev two_tasks : CohortConfig ℕ
two_tasks = record {
  fixtures = "t1" ∷ "t2" ∷ [];
  model = "m";
  total_token_budget = 250;
  max_tokens_per_task = 100;
  max_iterations = none;
  max_tokens_per_call = none;
  max_duration = none;
  input_usd_per_million = some 2;
  output_usd_per_million = some 3;
  total_cost_budget_usd = some 1000;
}

abbrev good_outside : Outside
good_outside = record {
  launch = launched "run";
  trace = none;
  provider = some (record {
    rejected_call_count = 0;
    prompt_tokens = 60;
    completion_tokens = 30;
    unclassified_tokens = 40;
    total_tokens = 130;
  });
  verification = some true;
  source_candidate = some "h";
  publishes = true;
  published_candidate = some "h";
}

abbrev world : World
world = record {
  checker_found = true;
  remains = λ id. record { run_dir = none; trace = none; provider = none };
  attempt_ids = λ id n. id;
  outside = λ id n. good_outside;
  still_verified = λ id h. true;
}

world-IsCapped : IsCapped whole two_tasks 30 world
unfolding trace_usage
world-IsCapped id n = omega arith

abbrev saves : Saves (CohortState ℕ)
saves = elim (run_cohort whole two_tasks world "f" (no_state false)) [
  | none ↦ record { saved = []; current = none }
  | some r ↦ r
]

abbrev from_second : {A : Type 0} → List A → List A
from_second [] = []
from_second (x ∷ xs) = xs

abbrev or_else : {A : Type 0} → A → List A → A
or_else a [] = a
or_else a (x ∷ xs) = x

abbrev first_state : CohortState ℕ
first_state = initial_state whole two_tasks "f"

-- The saved states in order: the new cohort, its start, and two for each of the two attempts; the one
-- that is looked at here follows the first reservation.
abbrev reserved_state : CohortState ℕ
reserved_state = or_else first_state (from_second (from_second saves.saved))

reserved_debit : reserved_state.accounting.debited_tokens ≡ 100
unfolding run_cohort Dict.get reservation Dict.put usage_cost trace_usage
reserved_debit = refl

-- Without its first five elements, and those
abbrev late : {A : Type 0} → List A → List A
late (a ∷ b ∷ c ∷ d ∷ e ∷ xs) = xs
late xs = []

abbrev early : {A : Type 0} → List A → List A
early (a ∷ b ∷ c ∷ d ∷ e ∷ xs) = a ∷ b ∷ c ∷ d ∷ e ∷ []
early xs = xs

-- The state after both attempts
abbrev overrun_state : CohortState ℕ
overrun_state = or_else first_state (late saves.saved)

overrun_debit : overrun_state.accounting.debited_tokens ≡ 260
unfolding run_cohort Dict.get reservation Dict.put usage_cost trace_usage
overrun_debit = refl

saves_run : run_cohort whole two_tasks world "f" (no_state false) ≡ some saves
unfolding run_cohort Dict.get reservation Dict.put usage_cost trace_usage
saves_run = refl

saves_shape : saves.saved ≡ early saves.saved ++ (overrun_state ∷ from_second (late saves.saved))
unfolding run_cohort Dict.get reservation Dict.put usage_cost trace_usage
saves_shape = refl

overrun-Reached : Reached whole two_tasks 30 "f" overrun_state
overrun-Reached =
    created world false saves (early saves.saved) (from_second (late saves.saved)) overrun_state
      world-IsCapped saves_run saves_shape

reached-WellBudgeted_example : WellBudgeted whole two_tasks 30 overrun_state
reached-WellBudgeted_example =
    reached-WellBudgeted whole two_tasks 30 "f" overrun_state overrun-Reached

-- ===== src/Scheduler/Config.antt =====
-- `CadgenbenchCohortConfig` of scheduler.py with `__post_init__`, and `validate_task_id` of common.py.
-- A negative bound is refused the way 0 is, so that the bounds are naturals here.
use Prim.Native.Char.{code}
use cadrig.Base.{
  ℕ, String, Bool, true, false, not, ◌&&◌, ◌||◌, Option, none, some, List, all, unique, leb, ltb,
  eqb, if◌then◌else◌,
}
use cadrig.Base.Text.{count, between, is_blank}
use cadrig.Json.{Float, not_positive_float}
use cadrig.Contracts.{null_list}

-- The exact decimals of the module `decimal`, which stand for prices and costs.
pub record Decimals : Type 1 where
  pub Amount : Type 0
  pub zero_amount : Amount
  pub of_count : ℕ → Amount
  pub plus : Amount → Amount → Amount
  pub times : Amount → Amount → Amount
  pub minus : Amount → Amount → Amount
  pub greater : Amount → Amount → Amount
  pub over_million : Amount → Amount
  pub exceeds : Amount → Amount → Bool
  -- `Decimal(str(float(a)))`
  pub stored : Amount → Amount

pub record CohortConfig (Amount : Type 0) : Type 0 where
  pub fixtures : List String
  pub model : String
  pub total_token_budget : ℕ
  pub max_tokens_per_task : ℕ
  pub max_iterations : Option ℕ
  pub max_tokens_per_call : Option ℕ
  pub max_duration : Option Float
  pub input_usd_per_million : Option Amount
  pub output_usd_per_million : Option Amount
  pub total_cost_budget_usd : Option Amount

-- The `ValueError`s of `__post_init__`
pub data ConfigFault : Type 0 where
  no_fixtures duplicate_fixtures unsafe_task_id blank_model no_token_budget task_over_budget :
      ConfigFault
  bound_not_positive unpaired_rates negative_amount cost_without_rates : ConfigFault

abbrev is_alphanumeric : ℕ → Bool
is_alphanumeric c = between 48 57 c || between 65 90 c || between 97 122 c

-- `.`, `_` and `-`
abbrev is_task_char : ℕ → Bool
is_task_char c = is_alphanumeric c || eqb c 46 || eqb c 95 || eqb c 45

abbrev task_chars : String → Bool
task_chars String.[] = true
task_chars (String.◌∷◌ c s) = is_task_char (code c) && task_chars s

-- `_SAFE_TASK_ID.fullmatch(task_id)`
unfoldable pub is_task_id : String → Bool
is_task_id String.[] = false
is_task_id (String.◌∷◌ c s) = is_alphanumeric (code c) && task_chars s && leb (count s) 127

abbrev is_present {ℓ} : {A : Type ℓ} → Option A → Bool
is_present none = false
is_present (some a) = true

abbrev not_above_zero : Option ℕ → Bool
not_above_zero none = false
not_above_zero (some n) = leb n 0

abbrev duration_not_above_zero : Option Float → Bool
duration_not_above_zero none = false
duration_not_above_zero (some x) = not_positive_float x

module _ (D : Decimals) where
  abbrev is_negative : Option D.Amount → Bool
  is_negative none = false
  is_negative (some a) = D.exceeds D.zero_amount a

  -- `__post_init__`; `none` when nothing is wrong
  unfoldable pub config_fault : CohortConfig D.Amount → Option ConfigFault
  unfolding is_task_id
  config_fault c =
      if null_list c.fixtures
      then some no_fixtures
      else if not (unique c.fixtures)
      then some duplicate_fixtures
      else if not (all is_task_id c.fixtures)
      then some unsafe_task_id
      else if is_blank c.model
      then some blank_model
      else if leb c.total_token_budget 0 || leb c.max_tokens_per_task 0
      then some no_token_budget
      else if ltb c.total_token_budget c.max_tokens_per_task
      then some task_over_budget
      else if not_above_zero c.max_iterations
          || not_above_zero c.max_tokens_per_call
          || duration_not_above_zero c.max_duration
      then some bound_not_positive
      else if (is_present c.input_usd_per_million && not (is_present c.output_usd_per_million))
          || (not (is_present c.input_usd_per_million) && is_present c.output_usd_per_million)
      then some unpaired_rates
      else if is_negative c.input_usd_per_million
          || is_negative c.output_usd_per_million
          || is_negative c.total_cost_budget_usd
      then some negative_amount
      else if is_present c.total_cost_budget_usd && not (is_present c.input_usd_per_million)
      then some cost_without_rates
      else none

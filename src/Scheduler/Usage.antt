-- ===== src/Scheduler/Usage.antt =====
-- `_trace_usage` and `_usage_cost` of scheduler.py.
use mathlib.Core.Option as Option
use cadrig.Base.{
  ℕ, Bool, true, false, Option, none, some, List, [], ◌∷◌, ℤ, pos, add_int, negate, max_int,
  at_least_zero,
}
use cadrig.Scheduler.Config.{Decimals, CohortConfig}

-- A turn of trace.json: a count that is missing is 0, one that is no integer is `none`.
pub record Turn : Type 0 where
  pub prompt_tokens : Option ℤ
  pub completion_tokens : Option ℤ

-- trace.json as `read_json` gives it: the turns that are objects, none if `turns` is no array. An empty
-- object counts as no file, here and in the next.
pub record Trace : Type 0 where
  pub turns : List Turn
  pub total_tokens : Option ℤ

-- provider_usage.json, which `_record_provider_usage` of official_cli.py writes: its counts are sums
-- of naturals.
pub record ProviderUsage : Type 0 where
  pub rejected_call_count : ℕ
  pub prompt_tokens : ℕ
  pub completion_tokens : ℕ
  pub unclassified_tokens : ℕ
  pub total_tokens : ℕ

pub record Usage : Type 0 where
  pub trace_found : Bool
  pub provider_usage_found : Bool
  pub rejected_calls : ℕ
  pub prompt : ℕ
  pub completion : ℕ
  pub unclassified : ℕ
  pub total : ℕ

abbrev pub no_usage : Usage
no_usage = record {
  trace_found = false;
  provider_usage_found = false;
  rejected_calls = 0;
  prompt = 0;
  completion = 0;
  unclassified = 0;
  total = 0;
}

abbrev int_or_zero : Option ℤ → ℤ
int_or_zero none = pos 0
int_or_zero (some n) = n

abbrev prompt_sum : List Turn → ℤ
prompt_sum [] = pos 0
prompt_sum (t ∷ ts) = add_int (int_or_zero t.prompt_tokens) (prompt_sum ts)

abbrev completion_sum : List Turn → ℤ
completion_sum [] = pos 0
completion_sum (t ∷ ts) = add_int (int_or_zero t.completion_tokens) (completion_sum ts)

-- The usage that a trace tells, when the provider has left none.
abbrev pub usage_of_turns : Bool → List Turn → Option ℤ → Usage
usage_of_turns found turns reported =
    let prompt = prompt_sum turns in
    let completion = completion_sum turns in
    let total = max_int (add_int prompt completion) (int_or_zero reported) in
    record {
      trace_found = found;
      provider_usage_found = false;
      rejected_calls = 0;
      prompt = at_least_zero prompt;
      completion = at_least_zero completion;
      unclassified = at_least_zero (add_int (add_int total (negate prompt)) (negate completion));
      total = at_least_zero total;
    }

abbrev is_found : Option Trace → Bool
is_found none = false
is_found (some t) = true

-- `_trace_usage`, on the two files as `read_json` gives them
unfoldable pub trace_usage : Option Trace → Option ProviderUsage → Usage
trace_usage trace (some p) = record {
  trace_found = is_found trace;
  provider_usage_found = true;
  rejected_calls = p.rejected_call_count;
  prompt = p.prompt_tokens;
  completion = p.completion_tokens;
  unclassified = p.unclassified_tokens;
  total = p.total_tokens;
}
trace_usage none none = usage_of_turns false [] (some (pos 0))
trace_usage (some t) none = usage_of_turns true t.turns t.total_tokens

module _ (D : Decimals) where
  abbrev cost_at : Usage → Option D.Amount → Option D.Amount → Option D.Amount
  cost_at u (some input) (some output) = some (
      D.over_million (
        D.plus
          (D.plus (D.times (D.of_count u.prompt) input) (D.times (D.of_count u.completion) output))
          (D.times (D.of_count u.unclassified) (D.greater input output))))
  cost_at u _ _ = none

  -- `_usage_cost`
  unfoldable pub usage_cost : CohortConfig D.Amount → Usage → Option D.Amount
  usage_cost c u = cost_at u c.input_usd_per_million c.output_usd_per_million

  abbrev reservation_at : ℕ → Option D.Amount → Option D.Amount → Option D.Amount
  reservation_at tokens (some input) (some output) =
      some (D.over_million (D.times (D.of_count tokens) (D.greater input output)))
  reservation_at tokens _ _ = none

  -- `Decimal(max_tokens_per_task) * max_rate / _MILLION`
  unfoldable pub reservation : CohortConfig D.Amount → Option D.Amount
  reservation c =
      reservation_at c.max_tokens_per_task c.input_usd_per_million c.output_usd_per_million

  -- `_cost_reservation`
  unfoldable pub cost_reservation : CohortConfig D.Amount → Option D.Amount
  unfolding reservation
  cost_reservation c = Option.map D.stored (reservation c)

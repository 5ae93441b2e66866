-- ===== src/Scheduler/Safety/Launches.antt =====
-- The launch of an attempt, and the attempt with its reservation.
use cadrig.Base.{
  ℕ, ◌+◌, ◌≤◌, String, ◌≡◌, refl, subst, inl, inr, Bool-cases, Option, none, some, All, arith,
}
use cadrig.Base.Dict
use cadrig.Scheduler.Config.{Decimals, CohortConfig}
use cadrig.Scheduler.Usage.{Usage}
use cadrig.Scheduler.State.{Attempt, Task, CohortState, priced}
use cadrig.Scheduler.Budget.{usage_left, reserve_allowed}
use cadrig.Scheduler.Run.{
  Launch, launched, launch_failed, launch_escaped, Outside, new_attempt, debited, settled,
  accounted, failed_attempt, finish_attempt, run_attempt,
}
use cadrig.Scheduler.Debits.{
  debits_of, debits-get, IsReserved, AreReserved-get, others-AreOthersReserved, priced-debit,
}
use cadrig.Scheduler.Safety.Attempts.{
  dir_of, usage_of, WellBudgeted, SafeSaves, Carries, accounted-Carries, accounted-WellBudgeted,
  written, verify_attempt-Safe,
}

module _ (D : Decimals) (c : CohortConfig D.Amount) (over : ℕ) where
  module _ (id : String) (rest : ℕ) where
    module _ (t : Task D.Amount) (old : All (IsReserved D c) t.attempts) (o : Outside)
        (capped : (usage_of o).total ≤ c.max_tokens_per_task + over) where
      -- An attempt that has ended is debited with at most `over` more than its reservation.
      settled-debit :
          (u : Usage) (a : Attempt D.Amount)
          → u.total ≤ c.max_tokens_per_task + over
          → a.debit_tokens ≡ c.max_tokens_per_task
          → (debited D c u a).debit_tokens ≤ c.max_tokens_per_task + over
      settled-debit u a le e = elim (Bool-cases u.trace_found) [
        | inl p ↦ rw (p, debited) le
        | inr p ↦ elim (Bool-cases u.provider_usage_found) [
          | inl q ↦ rw (p, debited) (rw (q, debited) le)
          | inr q ↦ rw (p, debited) (rw (q, debited) (omega (arith, e)))
        ]
      ]

      module _ (s : CohortState D.Amount) (a : Attempt D.Amount)
          (h : Carries D c over id rest s.tasks)
          (le : debits_of t.attempts + c.max_tokens_per_task + rest ≤ c.total_token_budget)
          (whole : a.debit_tokens ≡ c.max_tokens_per_task) where
        ended-within :
            (dir : Option String)
            → (usage_left dir o.trace o.provider).total ≤ c.max_tokens_per_task + over
            → debits_of t.attempts + (priced D c (settled D c dir o a)).debit_tokens + rest
              ≤ c.total_token_budget + over
        ended-within dir cap = omega (
          arith,
          priced-debit D c (settled D c dir o a),
          settled-debit (usage_left dir o.trace o.provider) a cap whole,
          le,
        )

        launch_cases :
            (l : Launch) → o.launch ≡ l → SafeSaves D c over (finish_attempt D c s id t a o)
        unfolding finish_attempt
        launch_cases launch_escaped e =
            rw (e, finish_attempt) record { saved = tt; current = λ x q. absurd (cc) }
        launch_cases (launch_failed dir) e =
            let cap : (usage_left dir o.trace o.provider).total ≤ c.max_tokens_per_task + over =
              subst
                (λ l.
                  (usage_left (dir_of l) o.trace o.provider).total ≤ c.max_tokens_per_task + over)
                e capped in
            rw (e, finish_attempt)
              (written D c over id rest t old s (priced D c (settled D c dir o a)) h
                (ended-within dir cap) _ (failed_attempt D c (priced D c (settled D c dir o a)))
                refl refl refl)
        launch_cases (launched dir) e =
            let cap : (usage_left (some dir) o.trace o.provider).total
                ≤ c.max_tokens_per_task + over =
              subst
                (λ l.
                  (usage_left (dir_of l) o.trace o.provider).total ≤ c.max_tokens_per_task + over)
                e capped in
            rw (e, finish_attempt)
              (verify_attempt-Safe D c over id rest t old s
                (priced D c (settled D c (some dir) o a)) h (ended-within (some dir) cap) o)

  -- A task is only admitted with its whole reservation within the budget.
  pub reserve_allowed-within :
      (s : CohortState D.Amount)
      → reserve_allowed D c s ≡ none
      → s.accounting.debited_tokens + c.max_tokens_per_task ≤ c.total_token_budget
  unfolding reserve_allowed
  reserve_allowed-within s e = ground arith

  pub run_attempt-Safe :
      (s : CohortState D.Amount) (id : String) (t : Task D.Amount) (attempt_id : String)
      (o : Outside)
      → WellBudgeted D c over s
      → Dict.get s.tasks id ≡ some t
      → reserve_allowed D c s ≡ none
      → (usage_of o).total ≤ c.max_tokens_per_task + over
      → SafeSaves D c over (run_attempt D c s id t attempt_id o)
  unfolding run_attempt
  run_attempt-Safe s id t attempt_id o w found allowed capped =
      let (rest, sum) = debits-get s.tasks id t found in
      let old = AreReserved-get D c s.tasks id t w.reserved found in
      let h : Carries D c over id rest s.tasks = record {
        task = t;
        found = found;
        sum = sum;
        reserved = others-AreOthersReserved D c id s.tasks w.reserved;
      } in
      let le : debits_of t.attempts + c.max_tokens_per_task + rest ≤ c.total_token_budget =
        omega (arith, reserve_allowed-within s allowed, w.debited_tokens, sum) in
      let a = new_attempt D c attempt_id in
      let r =
        launch_cases id rest t old o capped (accounted D c s id t a) (priced D c a)
          (accounted-Carries D c over id rest t old s a h) le (priced-debit D c a) o.launch refl in
      record {
        saved = (
          accounted-WellBudgeted D c over id rest t old s a h (inr refl) (omega (arith, le)),
          r.saved,
        );
        current = r.current;
      }

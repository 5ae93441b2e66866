-- ===== src/Scheduler/Safety/Attempts.antt =====
-- One attempt under the budget.
use cadrig.Base.{
  ℕ, ◌+◌, ◌≤◌, String, ◌≡◌, refl, sym, subst, inl, inr, true, false, Bool-cases, Option-cases,
  Option, none, some, [], ◌∷◌, ◌++◌, All, arith,
}
use cadrig.Base.Dict
use cadrig.Base.Dict.{Dict, get-put_self}
use cadrig.Scheduler.Config.{Decimals, CohortConfig}
use cadrig.Scheduler.Usage.{Usage}
use cadrig.Scheduler.State.{
  task_running, Attempt, Task, CohortState, priced_task, priced_tasks, recalculate,
}
use cadrig.Scheduler.Budget.{is_running, usage_left}
use cadrig.Scheduler.Run.{
  Launch, launched, launch_failed, launch_escaped, Outside, Saves, with_last, put_task, ends_with,
  raises, accounted, completed_attempt, failed_attempt, publish, verify_attempt,
}
use cadrig.Scheduler.Debits.{
  debits_of, debits, debits_of-append, All-snoc, debits-put, IsReserved, AreReserved,
  AreOthersReserved, put-AreOthersReserved, put-AreReserved, priced_tasks-AreOthersReserved,
  priced_tasks-debits, priced_tasks-AreReserved, priced_tasks-get, priced_task-debits,
}

-- The directory that an attempt left.
abbrev pub dir_of : Launch → Option String
dir_of (launched dir) = some dir
dir_of (launch_failed dir) = dir
dir_of launch_escaped = none

-- The usage that the scheduler reads after an attempt.
abbrev pub usage_of : Outside → Usage
usage_of o = usage_left (dir_of o.launch) o.trace o.provider

pub some-inj {ℓ} : {A : Type ℓ} {a b : A} → some a ≡ some b → a ≡ b
some-inj e = cc

module _ (D : Decimals) (c : CohortConfig D.Amount) (over : ℕ) where
  -- The accounting tells the debits, they are within the budget, and what runs is reserved.
  pub record WellBudgeted (s : CohortState D.Amount) : Type 0 where
    pub debited_tokens : s.accounting.debited_tokens ≡ debits s.tasks
    pub within : debits s.tasks ≤ c.total_token_budget + over
    pub reserved : AreReserved D c s.tasks

  -- Every state that was saved, and the one that is left.
  pub record SafeSaves (r : Saves (CohortState D.Amount)) : Type 0 where
    pub saved : All WellBudgeted r.saved
    pub current : (s : CohortState D.Amount) → r.current ≡ some s → WellBudgeted s

  pub recalculate-WellBudgeted :
      (s : CohortState D.Amount)
      → AreReserved D c s.tasks
      → debits s.tasks ≤ c.total_token_budget + over
      → WellBudgeted (recalculate D c s)
  unfolding recalculate
  recalculate-WellBudgeted s h le = record {
    debited_tokens = sym (priced_tasks-debits D c s.tasks);
    within = omega (arith, priced_tasks-debits D c s.tasks, le);
    reserved = priced_tasks-AreReserved D c s.tasks h;
  }

  module _ (id : String) (rest : ℕ) where
    -- The task is there, and the other tasks are debited with `rest`.
    pub record Carries (d : Dict (Task D.Amount)) : Type 0 where
      pub task : Task D.Amount
      pub found : Dict.get d id ≡ some task
      pub sum : debits d ≡ debits_of task.attempts + rest
      pub reserved : AreOthersReserved D c id d

    put-Carries :
        (d : Dict (Task D.Amount)) (t : Task D.Amount) → Carries d → Carries (Dict.put d id t)
    put-Carries d t h = record {
      task = t;
      found = get-put_self d id t;
      sum = omega (arith, debits-put d id h.task t h.found, h.sum);
      reserved = put-AreOthersReserved D c id d t h.reserved;
    }

    priced-Carries : (d : Dict (Task D.Amount)) → Carries d → Carries (priced_tasks D c d)
    priced-Carries d h = record {
      task = priced_task D c h.task;
      found = priced_tasks-get D c d id h.task h.found;
      sum = omega (arith, priced_tasks-debits D c d, priced_task-debits D c h.task, h.sum);
      reserved = priced_tasks-AreOthersReserved D c id d h.reserved;
    }

    module _ (t : Task D.Amount) (old : All (IsReserved D c) t.attempts) where
      last-debits :
          (a : Attempt D.Amount)
          → debits_of (t.attempts ++ (a ∷ [])) ≡ debits_of t.attempts + a.debit_tokens
      last-debits a = omega (arith, debits_of-append t.attempts (a ∷ []))

      pub accounted-Carries :
          (s : CohortState D.Amount) (a : Attempt D.Amount)
          → Carries s.tasks
          → Carries (accounted D c s id t a).tasks
      unfolding recalculate
      accounted-Carries s a h = priced-Carries _ (put-Carries s.tasks _ h)

      accounted-debited :
          (s : CohortState D.Amount) (a : Attempt D.Amount)
          → Carries s.tasks
          → (accounted D c s id t a).accounting.debited_tokens
            ≡ debits_of t.attempts + a.debit_tokens + rest
      unfolding recalculate
      accounted-debited s a h = omega (
        arith,
        debits-put s.tasks id h.task (with_last D c task_running t a) h.found,
        h.sum,
        last-debits a,
      )

      -- The reservation
      pub accounted-WellBudgeted :
          (s : CohortState D.Amount) (a : Attempt D.Amount)
          → Carries s.tasks
          → IsReserved D c a
          → debits_of t.attempts + a.debit_tokens + rest ≤ c.total_token_budget + over
          → WellBudgeted (accounted D c s id t a)
      accounted-WellBudgeted s a h p le =
          recalculate-WellBudgeted (put_task D c s id (with_last D c task_running t a))
            (put-AreReserved D c id s.tasks _ h.reserved
              (All-snoc (IsReserved D c) t.attempts old p))
            (omega (
              arith,
              debits-put s.tasks id h.task (with_last D c task_running t a) h.found,
              h.sum,
              last-debits a,
              le,
            ))

      -- A last write of the task, with an attempt `b` of the same debit.
      put-WellBudgeted :
          (s : CohortState D.Amount) (new : Task D.Amount) (a b : Attempt D.Amount)
          → Carries s.tasks
          → s.accounting.debited_tokens ≡ debits_of t.attempts + a.debit_tokens + rest
          → debits_of t.attempts + a.debit_tokens + rest ≤ c.total_token_budget + over
          → new.attempts ≡ t.attempts ++ (b ∷ [])
          → b.debit_tokens ≡ a.debit_tokens
          → is_running b ≡ false
          → WellBudgeted (put_task D c s id new)
      put-WellBudgeted s new a b h e le shape same p = record {
        debited_tokens = omega (arith, total, e);
        within = omega (arith, total, le);
        reserved =
            put-AreReserved D c id s.tasks new h.reserved
              (rw shape (All-snoc (IsReserved D c) t.attempts old (inl p)));
      }
        where
          total : debits (Dict.put s.tasks id new) ≡ debits_of t.attempts + a.debit_tokens + rest
          total =
              let q : debits_of new.attempts ≡ debits_of t.attempts + b.debit_tokens =
                rw shape (last-debits b) in
              omega (arith, debits-put s.tasks id h.task new h.found, h.sum, q, same)

      module _ (s : CohortState D.Amount) (a : Attempt D.Amount) (h : Carries s.tasks)
          (le : debits_of t.attempts + a.debit_tokens + rest ≤ c.total_token_budget + over) where
        abbrev after : CohortState D.Amount
        after = accounted D c s id t a

        pub written :
            (new : Task D.Amount) (b : Attempt D.Amount)
            → new.attempts ≡ t.attempts ++ (b ∷ [])
            → b.debit_tokens ≡ a.debit_tokens
            → is_running b ≡ false
            → SafeSaves (ends_with D c (put_task D c after id new))
        written new b shape same p =
            let w : WellBudgeted (put_task D c after id new) =
              put-WellBudgeted after new a b (accounted-Carries s a h) (accounted-debited s a h) le
                shape same p in
            record { saved = (w, tt); current = λ x e. subst WellBudgeted (some-inj e) w }

        pub nothing : SafeSaves (raises D c)
        nothing = record { saved = tt; current = λ x e. absurd (cc) }

        publish-Safe : (hash : String) (o : Outside) → SafeSaves (publish D c after id t a hash o)
        unfolding publish
        publish-Safe hash o = elim (Bool-cases o.publishes) [
          | inr e ↦ rw (e, publish) nothing
          | inl e ↦ elim (Option-cases o.published_candidate) [
            | inl q ↦
                rw (e, publish)
                  (rw (q, publish)
                    (written _ (failed_attempt D c (completed_attempt D c hash a)) refl refl refl))
            | inr (x, q) ↦
                rw (e, publish)
                  (rw (q, publish) (written _ (completed_attempt D c hash a) refl refl refl))
          ]
        ]

        pub verify_attempt-Safe : (o : Outside) → SafeSaves (verify_attempt D c after id t a o)
        unfolding verify_attempt
        verify_attempt-Safe o = elim (Option-cases o.verification) [
          | inl e ↦ rw (e, verify_attempt) nothing
          | inr (false, e) ↦
              rw (e, verify_attempt) (written _ (failed_attempt D c a) refl refl refl)
          | inr (true, e) ↦ elim (Option-cases o.source_candidate) [
            | inl q ↦
                rw (e, verify_attempt)
                  (rw (q, verify_attempt) (written _ (failed_attempt D c a) refl refl refl))
            | inr (hash, q) ↦ rw (e, verify_attempt) (rw (q, verify_attempt) (publish-Safe hash o))
          ]
        ]

-- ===== src/Scheduler/Safety/Cohorts.antt =====
-- A cohort over any number of processes, interrupted or not.
use cadrig.Base.{
  ℕ, String, ◌≡◌, refl, sym, ◌∙◌, subst, inl, inr, Bool, true, false, Bool-cases, Option-cases,
  none, some, List, [], ◌∷◌, ◌++◌, All, arith, all, ◌==◌,
}
use cadrig.Base.Dict
use cadrig.Base.Dict.{Dict}
use cadrig.Scheduler.Config.{Decimals, CohortConfig}
use cadrig.Scheduler.State.{
  CohortState, initial_state, new_tasks, cohort_running, Stored, no_state, unreadable, saved_state,
  load_state,
}
use cadrig.Scheduler.Budget.{reconcile, reconciled_tasks}
use cadrig.Scheduler.Run.{Saves, saving}
use cadrig.Scheduler.Loop.{
  World, task_is_completed, cohort_is_running, turns, saving_all, concluded, conclude, first_saves,
  run_cohort,
}
use cadrig.Scheduler.Debits.{debits, AreReserved}
use cadrig.Scheduler.Reconciliation.{reconciled_tasks-debits, reconciled_tasks-AreReserved}
use cadrig.Scheduler.Safety.Attempts.{WellBudgeted, SafeSaves, recalculate-WellBudgeted, some-inj}
use cadrig.Scheduler.Safety.Processes.{
  All-append, status-WellBudgeted, recalculated-WellBudgeted, IsCapped, turns-Safe,
}

All-middle {ℓ κ} : {A : Type ℓ} (P : A → Type κ) (l m : List A) (a : A) → All P (l ++ (a ∷ m)) → P a
All-middle P [] m a (p, h) = p
All-middle P (b ∷ l) m a (p, h) = All-middle P l m a h

module _ (D : Decimals) (c : CohortConfig D.Amount) (over : ℕ) where
  module _ (w : World) (capped : IsCapped D c over w) where
    concluded-WellBudgeted :
        (s : CohortState D.Amount)
        → WellBudgeted D c over s
        → WellBudgeted D c over (concluded D c w s)
    concluded-WellBudgeted s h = elim (Bool-cases (all task_is_completed (Dict.values s.tasks))) [
      | inl e ↦ rw (e, concluded) (status-WellBudgeted D c over s _ refl refl h)
      | inr e ↦ elim (Bool-cases (cohort_is_running s)) [
        | inl p ↦
            rw (e, concluded) (rw (p, concluded) (status-WellBudgeted D c over s _ refl refl h))
        | inr p ↦ rw (e, concluded) (rw (p, concluded) h)
      ]
    ]

    conclude-saved :
        (r : Saves (CohortState D.Amount))
        → SafeSaves D c over r
        → All (WellBudgeted D c over) (conclude D c w r).saved
    conclude-saved r h = elim (Option-cases r.current) [
      | inl e ↦ rw (e, conclude) h.saved
      | inr (s, e) ↦
          rw (e, conclude)
            (All-append (WellBudgeted D c over) r.saved _ h.saved
              (concluded-WellBudgeted _ (recalculated-WellBudgeted D c over s (h.current s e)), tt))
    ]

    reconcile-WellBudgeted :
        (s : CohortState D.Amount)
        → WellBudgeted D c over s
        → WellBudgeted D c over (reconcile D c w.remains s).0
    unfolding reconcile
    reconcile-WellBudgeted s h =
        recalculate-WellBudgeted D c over
          (record s { tasks = reconciled_tasks D c w.remains s.tasks })
          (reconciled_tasks-AreReserved D c w.remains s.tasks h.reserved)
          (omega (arith, reconciled_tasks-debits D c w.remains s.tasks h.reserved, h.within))

    abbrev started : CohortState D.Amount → CohortState D.Amount
    started s = record (reconcile D c w.remains s).0 { status = cohort_running }

    abbrev saves_from : Stored D.Amount → CohortState D.Amount → Saves (CohortState D.Amount)
    saves_from stored s = saving_all D c w (first_saves D c w stored s) (
        saving (started s)
          (conclude D c w (turns D c w (reconcile D c w.remains s).1 (started s) c.fixtures)))

    first_saves-Safe :
        (stored : Stored D.Amount) (s : CohortState D.Amount)
        → WellBudgeted D c over s
        → All (WellBudgeted D c over) (first_saves D c w stored s)
    first_saves-Safe (no_state others) s h = (h, tt)
    first_saves-Safe unreadable s h = tt
    first_saves-Safe (saved_state t) s h = tt

    saves_from-Safe :
        (stored : Stored D.Amount) (s : CohortState D.Amount)
        → WellBudgeted D c over s
        → All (WellBudgeted D c over) (saves_from stored s).saved
    saves_from-Safe stored s h =
        let start =
          status-WellBudgeted D c over (reconcile D c w.remains s).0 (started s) refl refl
            (reconcile-WellBudgeted s h) in
        All-append (WellBudgeted D c over) (first_saves D c w stored s) _
          (first_saves-Safe stored s h)
          (
            start,
            conclude-saved _ (
                turns-Safe D c over w capped (reconcile D c w.remains s).1 (started s) c.fixtures
                  start),
          )

    -- From a state that is well budgeted, loaded or new.
    started-Safe :
        (fingerprint : String) (stored : Stored D.Amount) (s : CohortState D.Amount)
        (r : Saves (CohortState D.Amount))
        → load_state D c fingerprint stored ≡ some s
        → WellBudgeted D c over s
        → run_cohort D c w fingerprint stored ≡ some r
        → All (WellBudgeted D c over) r.saved
    unfolding run_cohort
    started-Safe fingerprint stored s r e h run = elim (Bool-cases w.checker_found) [
      | inr p ↦
          let q : run_cohort D c w fingerprint stored ≡ none = rw (p, run_cohort) refl in
          absurd (cc)
      | inl p ↦
          let q : run_cohort D c w fingerprint stored ≡ some (saves_from stored s) =
            rw (p, run_cohort) (rw (e, run_cohort) refl) in
          subst (λ x. All (WellBudgeted D c over) x.saved) (some-inj (sym q ∙ run))
            (saves_from-Safe stored s h)
    ]

    -- `_initial_state`
    new_tasks-debits : (fs : List String) → debits (new_tasks D c fs) ≡ 0
    new_tasks-debits [] = refl
    new_tasks-debits (f ∷ fs) = omega (arith, new_tasks-debits fs)

    new_tasks-AreReserved : (fs : List String) → AreReserved D c (new_tasks D c fs)
    new_tasks-AreReserved [] = tt
    new_tasks-AreReserved (f ∷ fs) = (tt, new_tasks-AreReserved fs)

    initial_state-WellBudgeted :
        (fingerprint : String) → WellBudgeted D c over (initial_state D c fingerprint)
    unfolding initial_state
    initial_state-WellBudgeted fingerprint = record {
      debited_tokens = sym (new_tasks-debits c.fixtures);
      within = omega (arith, new_tasks-debits c.fixtures);
      reserved = new_tasks-AreReserved c.fixtures;
    }

    new_cohort :
        (fingerprint : String) (others : Bool) (r : Saves (CohortState D.Amount))
        → run_cohort D c w fingerprint (no_state others) ≡ some r
        → All (WellBudgeted D c over) r.saved
    unfolding run_cohort load_state
    new_cohort fingerprint false r run =
        started-Safe fingerprint (no_state false) (initial_state D c fingerprint) r refl
          (initial_state-WellBudgeted fingerprint) run
    new_cohort fingerprint true r run = elim (Bool-cases w.checker_found) [
      | inr p ↦
          let q : run_cohort D c w fingerprint (no_state true) ≡ none = rw (p, run_cohort) refl in
          absurd (cc)
      | inl p ↦
          let q : run_cohort D c w fingerprint (no_state true) ≡ none = rw (p, run_cohort) refl in
          absurd (cc)
    ]

    old_cohort :
        (fingerprint : String) (s : CohortState D.Amount) (r : Saves (CohortState D.Amount))
        → WellBudgeted D c over s
        → run_cohort D c w fingerprint (saved_state s) ≡ some r
        → All (WellBudgeted D c over) r.saved
    unfolding run_cohort load_state
    old_cohort fingerprint s r h run = elim (Bool-cases (s.config_fingerprint == fingerprint)) [
      | inl e ↦ started-Safe fingerprint (saved_state s) s r (rw (e, load_state) refl) h run
      | inr e ↦ elim (Bool-cases w.checker_found) [
        | inr p ↦
            let q : run_cohort D c w fingerprint (saved_state s) ≡ none = rw (p, run_cohort) refl in
            absurd (cc)
        | inl p ↦
            let q : run_cohort D c w fingerprint (saved_state s) ≡ none =
              rw (p, run_cohort) (rw (e, load_state) refl) in
            absurd (cc)
      ]
    ]

  -- The states that stand in cohort.json, over any number of processes: any of those that a process
  -- saved is the one that it leaves when it is interrupted.
  pub data Reached (fingerprint : String) : CohortState D.Amount → Type 0 where
    created :
        (w : World) (others : Bool) (r : Saves (CohortState D.Amount))
        (earlier later : List (CohortState D.Amount)) (s : CohortState D.Amount)
        → IsCapped D c over w
        → run_cohort D c w fingerprint (no_state others) ≡ some r
        → r.saved ≡ earlier ++ (s ∷ later)
        → Reached fingerprint s
    resumed :
        (w : World) (old : CohortState D.Amount) (r : Saves (CohortState D.Amount))
        (earlier later : List (CohortState D.Amount)) (s : CohortState D.Amount)
        → Reached fingerprint old
        → IsCapped D c over w
        → run_cohort D c w fingerprint (saved_state old) ≡ some r
        → r.saved ≡ earlier ++ (s ∷ later)
        → Reached fingerprint s

  -- In every state that a cohort saves, over any number of processes and interruptions, the accounting
  -- tells the sum of the debits of all attempts; the sum exceeds the token budget by no more than
  -- `over`, where no attempt is reported to have used more than `over` tokens beyond its cap, so that
  -- the overruns of several attempts do not add up, and without overruns the sum is within the budget;
  -- and an attempt that is marked as running is debited with its whole reservation.
  pub reached-WellBudgeted :
      (fingerprint : String) (s : CohortState D.Amount)
      → Reached fingerprint s
      → WellBudgeted D c over s
  reached-WellBudgeted fingerprint s (created w others r earlier later s' capped run shape) =
      All-middle (WellBudgeted D c over) earlier later s
        (subst (All (WellBudgeted D c over)) shape (new_cohort w capped fingerprint others r run))
  reached-WellBudgeted fingerprint s (resumed w old r earlier later s' before capped run shape) =
      All-middle (WellBudgeted D c over) earlier later s (
        subst (All (WellBudgeted D c over)) shape
          (old_cohort w capped fingerprint old r (reached-WellBudgeted fingerprint old before) run))

-- ===== src/Scheduler/Safety/Processes.antt =====
-- The loop of a process.
use cadrig.Base.{
  ℕ, ◌+◌, ◌≤◌, String, ◌≡◌, refl, subst, inl, inr, Bool-cases, Option-cases, some, List, [], ◌∷◌,
  ◌++◌, All, contains,
}
use cadrig.Base.Dict
use cadrig.Base.Dict.{Dict}
use cadrig.Scheduler.Config.{Decimals, CohortConfig}
use cadrig.Scheduler.State.{Task, CohortState, recalculate}
use cadrig.Scheduler.Budget.{reserve_allowed}
use cadrig.Scheduler.Run.{Saves, attempt_number}
use cadrig.Scheduler.Loop.{
  World, task_is_completed, Turned, goes_on, breaks, crashes, after_attempt, open_turn, turn, turns,
}
use cadrig.Scheduler.Safety.Attempts.{
  usage_of, WellBudgeted, SafeSaves, recalculate-WellBudgeted, some-inj,
}
use cadrig.Scheduler.Safety.Launches.{run_attempt-Safe}

pub All-append {ℓ κ} :
    {A : Type ℓ} (P : A → Type κ) (l m : List A) → All P l → All P m → All P (l ++ m)
All-append P [] m h k = k
All-append P (a ∷ l) m (p, h) k = (p, All-append P l m h k)

module _ (D : Decimals) (c : CohortConfig D.Amount) (over : ℕ) where
  -- Any status is as good.
  pub status-WellBudgeted :
      (s t : CohortState D.Amount)
      → t.tasks ≡ s.tasks
      → t.accounting ≡ s.accounting
      → WellBudgeted D c over s
      → WellBudgeted D c over t
  status-WellBudgeted s t p q w = record {
    debited_tokens = rw (p, q) w.debited_tokens;
    within = rw p w.within;
    reserved = rw p w.reserved;
  }

  pub recalculated-WellBudgeted :
      (s : CohortState D.Amount)
      → WellBudgeted D c over s
      → WellBudgeted D c over (recalculate D c s)
  recalculated-WellBudgeted s w = recalculate-WellBudgeted D c over s w.reserved w.within

  -- No attempt is reported to have used more than `over` tokens beyond its cap, which it is given as
  -- CADRIG_ATTEMPT_TOKEN_CAP and may exceed by its last call of the model.
  abbrev pub IsCapped : World → Type 0
  IsCapped w =
      (id : String) (n : ℕ) → (usage_of (w.outside id n)).total ≤ c.max_tokens_per_task + over

  abbrev SafeTurn : Turned (CohortState D.Amount) → Type 0
  SafeTurn (goes_on saved s) = All (WellBudgeted D c over) saved × WellBudgeted D c over s
  SafeTurn (breaks s) = WellBudgeted D c over s
  SafeTurn (crashes saved) = All (WellBudgeted D c over) saved

  module _ (w : World) (capped : IsCapped w) where
    after_attempt-Safe :
        (r : Saves (CohortState D.Amount)) → SafeSaves D c over r → SafeTurn (after_attempt D c w r)
    after_attempt-Safe r h = elim (Option-cases r.current) [
      | inl e ↦ rw (e, after_attempt) h.saved
      | inr (s, e) ↦ rw (e, after_attempt) (h.saved, h.current s e)
    ]

    open_turn-Safe :
        (abandoned : List String) (s : CohortState D.Amount) (id : String) (t : Task D.Amount)
        → WellBudgeted D c over s
        → Dict.get s.tasks id ≡ some t
        → SafeTurn (open_turn D c w abandoned s id t)
    unfolding open_turn
    open_turn-Safe abandoned s id t h found = elim (Bool-cases (contains id abandoned)) [
      | inl e ↦ rw (e, open_turn) (tt, h)
      | inr e ↦ elim (Option-cases (reserve_allowed D c s)) [
        | inr (status, p) ↦
            rw (e, open_turn) (rw (p, open_turn) (status-WellBudgeted s _ refl refl h))
        | inl p ↦
            rw (e, open_turn)
              (rw (p, open_turn)
                (after_attempt-Safe _ (
                  run_attempt-Safe D c over s id t _ _ h found p
                    (capped id (attempt_number D c t)))))
      ]
    ]

    turn-Safe :
        (abandoned : List String) (s : CohortState D.Amount) (id : String)
        → WellBudgeted D c over s
        → SafeTurn (turn D c w abandoned s id)
    unfolding turn
    turn-Safe abandoned s id h = elim (Option-cases (Dict.get s.tasks id)) [
      | inl e ↦ rw (e, turn) tt
      | inr (t, e) ↦ elim (Bool-cases (task_is_completed t)) [
        | inr p ↦ rw (e, turn) (rw (p, turn) (open_turn-Safe abandoned s id t h e))
        | inl p ↦ elim (Bool-cases (w.still_verified id t.candidate_sha256)) [
          | inl q ↦ rw (e, turn) (rw (p, turn) (rw (q, turn) (tt, h)))
          | inr q ↦ rw (e, turn) (rw (p, turn) (rw (q, turn) tt))
        ]
      ]
    ]

    pub turns-Safe :
        (abandoned : List String) (s : CohortState D.Amount) (ids : List String)
        → WellBudgeted D c over s
        → SafeSaves D c over (turns D c w abandoned s ids)
    unfolding turns
    turns-Safe abandoned s [] h = record {
      saved = tt;
      current = λ t e. subst (WellBudgeted D c over) (some-inj e) h;
    }
    turns-Safe abandoned s (id ∷ ids) h =
        go (turn D c w abandoned s id) refl (turn-Safe abandoned s id h)
          (λ t. turns-Safe abandoned t ids)
      where
        go :
            (x : Turned (CohortState D.Amount))
            → turn D c w abandoned s id ≡ x
            → SafeTurn x
            → ((t : CohortState D.Amount)
                → WellBudgeted D c over t
                → SafeSaves D c over (turns D c w abandoned t ids))
            → SafeSaves D c over (turns D c w abandoned s (id ∷ ids))
        go (crashes saved) e p ih = rw (e, turns) record { saved = p; current = λ t q. absurd (cc) }
        go (breaks t) e p ih =
            rw (e, turns)
              record { saved = tt; current = λ u q. subst (WellBudgeted D c over) (some-inj q) p }
        go (goes_on saved t) e (p, q) ih =
            rw (e, turns)
              record {
                saved = All-append (WellBudgeted D c over) saved _ p (ih t q).saved;
                current = (ih t q).current;
              }

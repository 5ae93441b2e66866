-- ===== src/Scheduler/Reconciliation.antt =====
-- The debits under `_reconcile_abandoned_attempts`.
use cadrig.Base.{String, ◌≡◌, refl, sym, inl, inr, Bool-cases, List, [], ◌∷◌, map, any, All, arith}
use cadrig.Base.Dict.{Dict}
use cadrig.Scheduler.Config.{Decimals, CohortConfig}
use cadrig.Scheduler.State.{Attempt, Task}
use cadrig.Scheduler.Budget.{is_running, abandoned, reconciled_tasks, Remains}
use cadrig.Scheduler.Debits.{debits_of, debits, IsReserved, AreReserved}
use cadrig.Scheduler.Budget.{abandoned, reconciled_tasks, Remains}

module _ (D : Decimals) (c : CohortConfig D.Amount) where
  module _ (left : String → Remains) where
    abandoned-debit :
        (a : Attempt D.Amount)
        → IsReserved D c a
        → (abandoned D c left a).debit_tokens ≡ a.debit_tokens
    abandoned-debit a (inl e) = rw e refl
    abandoned-debit a (inr e) = elim (Bool-cases (is_running a)) [
      | inl f ↦ rw f (sym e)
      | inr f ↦ rw f refl
    ]

    abandoned-IsReserved : (a : Attempt D.Amount) → IsReserved D c (abandoned D c left a)
    abandoned-IsReserved a = elim (Bool-cases (is_running a)) [
      | inl f ↦ rw f (inr refl)
      | inr f ↦ rw f (inl f)
    ]

    abandoned_list-debits :
        (l : List (Attempt D.Amount))
        → All (IsReserved D c) l
        → debits_of (map (abandoned D c left) l) ≡ debits_of l
    abandoned_list-debits [] h = refl
    abandoned_list-debits (a ∷ l) (p, h) =
        omega (arith, abandoned-debit a p, abandoned_list-debits l h)

    abandoned_list-IsReserved :
        (l : List (Attempt D.Amount)) → All (IsReserved D c) (map (abandoned D c left) l)
    abandoned_list-IsReserved [] = tt
    abandoned_list-IsReserved (a ∷ l) = (abandoned-IsReserved a, abandoned_list-IsReserved l)

    -- A crash leaves its whole reservation.
    pub reconciled_tasks-debits :
        (d : Dict (Task D.Amount))
        → AreReserved D c d
        → debits (reconciled_tasks D c left d) ≡ debits d
    reconciled_tasks-debits [] h = refl
    reconciled_tasks-debits ((k, t) ∷ d) (p, h) = elim (Bool-cases (any is_running t.attempts)) [
      | inl e ↦
          rw e (omega (arith, abandoned_list-debits t.attempts p, reconciled_tasks-debits d h))
      | inr e ↦ rw e (omega (arith, reconciled_tasks-debits d h))
    ]

    pub reconciled_tasks-AreReserved :
        (d : Dict (Task D.Amount))
        → AreReserved D c d
        → AreReserved D c (reconciled_tasks D c left d)
    reconciled_tasks-AreReserved [] h = tt
    reconciled_tasks-AreReserved ((k, t) ∷ d) (p, h) =
        elim (Bool-cases (any is_running t.attempts)) [
          | inl e ↦ rw e (abandoned_list-IsReserved t.attempts, reconciled_tasks-AreReserved d h)
          | inr e ↦ rw e (p, reconciled_tasks-AreReserved d h)
        ]

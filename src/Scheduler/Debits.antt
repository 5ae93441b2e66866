-- ===== src/Scheduler/Debits.antt =====
-- The tokens that a cohort is debited with, under the operations on its tasks.
use cadrig.Base.{
  ℕ, ◌+◌, String, ◌≡◌, refl, sym, ◌⊎◌, inl, inr, Bool, true, false, Bool-cases, Option-cases, some,
  List, [], ◌∷◌, ◌++◌, map, All, arith, ◌==◌,
}
use text.Mathlib.TextPositions.{eq_refl}
use cadrig.Base.Dict
use cadrig.Base.Dict.{Dict, get-put_self}
use cadrig.Scheduler.Config.{Decimals, CohortConfig}
use cadrig.Scheduler.Usage.{usage_cost}
use cadrig.Scheduler.State.{
  Attempt, Task, attempts_sum, tasks_sum, priced, priced_task, priced_tasks,
}
use cadrig.Scheduler.Budget.{is_running}

abbrev pub debits_of : {A : Type 0} → List (Attempt A) → ℕ
debits_of attempts = attempts_sum (λ a. a.debit_tokens) attempts

abbrev pub debits : {A : Type 0} → Dict (Task A) → ℕ
debits d = tasks_sum (λ a. a.debit_tokens) d

pub debits_of-append :
    {A : Type 0} (l m : List (Attempt A)) → debits_of (l ++ m) ≡ debits_of l + debits_of m
debits_of-append [] m = omega arith
debits_of-append (a ∷ l) m = omega (arith, debits_of-append l m)

pub All-snoc {ℓ κ} :
    {A : Type ℓ} (P : A → Type κ) (l : List A) {a : A} → All P l → P a → All P (l ++ (a ∷ []))
All-snoc P [] h p = (p, tt)
All-snoc P (b ∷ l) (q, h) p = (q, All-snoc P l h p)

pub debits-put :
    {A : Type 0} (d : Dict (Task A)) (id : String) (t new : Task A)
    → Dict.get d id ≡ some t
    → debits (Dict.put d id new) + debits_of t.attempts ≡ debits d + debits_of new.attempts
unfolding Dict.get Dict.put
debits-put [] id t new h = absurd (cc)
debits-put ((j, u) ∷ d) id t new h = elim (Bool-cases (j == id)) [
  | inl e ↦ ground (arith, e, h)
  | inr e ↦
      let found : Dict.get d id ≡ some t = ground (arith, e, h) in
      ground (arith, e, debits-put d id t new found)
]

module _ (D : Decimals) (c : CohortConfig D.Amount) where
  -- A running attempt is debited with its whole reservation.
  abbrev pub IsReserved : Attempt D.Amount → Type 0
  IsReserved a = (is_running a ≡ false) ⊎ (a.debit_tokens ≡ c.max_tokens_per_task)

  abbrev pub AreReserved : Dict (Task D.Amount) → Type 0
  AreReserved [] = Unit
  AreReserved ((k, t) ∷ d) = All IsReserved t.attempts × AreReserved d

  abbrev Branch : Bool → Type 0 → Type 0 → Type 0
  Branch true P Q = P
  Branch false P Q = Q

  -- The running attempts of every task but one.
  abbrev pub AreOthersReserved : String → Dict (Task D.Amount) → Type 0
  AreOthersReserved id [] = Unit
  AreOthersReserved id ((k, t) ∷ d) =
      Branch (k == id) (AreReserved d) (All IsReserved t.attempts × AreOthersReserved id d)

  pub others-AreOthersReserved :
      (id : String) (d : Dict (Task D.Amount)) → AreReserved d → AreOthersReserved id d
  others-AreOthersReserved id [] h = tt
  others-AreOthersReserved id ((k, t) ∷ d) (p, h) = elim (Bool-cases (k == id)) [
    | inl e ↦ rw e h
    | inr e ↦ rw e (p, others-AreOthersReserved id d h)
  ]

  pub put-AreOthersReserved :
      (id : String) (d : Dict (Task D.Amount)) (new : Task D.Amount)
      → AreOthersReserved id d
      → AreOthersReserved id (Dict.put d id new)
  unfolding Dict.put
  put-AreOthersReserved id [] new h = rw eq_refl tt
  put-AreOthersReserved id ((k, t) ∷ d) new h = go (k == id) refl h (put-AreOthersReserved id d new)
    where
      go :
          (b : Bool)
          → (k == id) ≡ b
          → Branch b (AreReserved d) (All IsReserved t.attempts × AreOthersReserved id d)
          → (AreOthersReserved id d → AreOthersReserved id (Dict.put d id new))
          → AreOthersReserved id (Dict.put ((k, t) ∷ d) id new)
      go true e h ih = rw (e, Dict.put) (rw eq_refl h)
      go false e (p, h) ih = rw (e, Dict.put) (rw e (p, ih h))

  pub put-AreReserved :
      (id : String) (d : Dict (Task D.Amount)) (new : Task D.Amount)
      → AreOthersReserved id d
      → All IsReserved new.attempts
      → AreReserved (Dict.put d id new)
  unfolding Dict.put
  put-AreReserved id [] new h n = (n, tt)
  put-AreReserved id ((k, t) ∷ d) new h n = go (k == id) refl h (put-AreReserved id d new)
    where
      go :
          (b : Bool)
          → (k == id) ≡ b
          → Branch b (AreReserved d) (All IsReserved t.attempts × AreOthersReserved id d)
          → (AreOthersReserved id d → All IsReserved new.attempts → AreReserved (Dict.put d id new))
          → AreReserved (Dict.put ((k, t) ∷ d) id new)
      go true e h ih = rw (e, Dict.put) (n, h)
      go false e (p, h) ih = rw (e, Dict.put) (p, ih h n)

  pub AreReserved-get :
      (d : Dict (Task D.Amount)) (id : String) (t : Task D.Amount)
      → AreReserved d
      → Dict.get d id ≡ some t
      → All IsReserved t.attempts
  unfolding Dict.get
  AreReserved-get [] id t h p = absurd (cc)
  AreReserved-get ((j, u) ∷ d) id t (q, h) p = elim (Bool-cases (j == id)) [
    | inl e ↦ let same : u ≡ t = ground (arith, e, p) in rw (sym same) q
    | inr e ↦ AreReserved-get d id t h (ground (arith, e, p))
  ]

  pub priced-debit : (a : Attempt D.Amount) → (priced D c a).debit_tokens ≡ a.debit_tokens
  priced-debit a = elim (Option-cases (usage_cost D c a.usage)) [
    | inl e ↦ rw (e, priced) refl
    | inr (x, e) ↦ rw (e, priced) refl
  ]

  pub priced-IsReserved : (a : Attempt D.Amount) → IsReserved a → IsReserved (priced D c a)
  priced-IsReserved a h = elim (Option-cases (usage_cost D c a.usage)) [
    | inl e ↦ rw (e, priced) h
    | inr (x, e) ↦ rw (e, priced) h
  ]

  priced_list-debits : (l : List (Attempt D.Amount)) → debits_of (map (priced D c) l) ≡ debits_of l
  priced_list-debits [] = refl
  priced_list-debits (a ∷ l) = omega (arith, priced-debit a, priced_list-debits l)

  priced_list-IsReserved :
      (l : List (Attempt D.Amount)) → All IsReserved l → All IsReserved (map (priced D c) l)
  priced_list-IsReserved [] h = tt
  priced_list-IsReserved (a ∷ l) (p, h) = (priced-IsReserved a p, priced_list-IsReserved l h)

  pub priced_tasks-debits : (d : Dict (Task D.Amount)) → debits (priced_tasks D c d) ≡ debits d
  priced_tasks-debits [] = refl
  priced_tasks-debits ((k, t) ∷ d) =
      omega (arith, priced_list-debits t.attempts, priced_tasks-debits d)

  pub priced_tasks-AreReserved :
      (d : Dict (Task D.Amount)) → AreReserved d → AreReserved (priced_tasks D c d)
  priced_tasks-AreReserved [] h = tt
  priced_tasks-AreReserved ((k, t) ∷ d) (p, h) =
      (priced_list-IsReserved t.attempts p, priced_tasks-AreReserved d h)

  pub priced_tasks-AreOthersReserved :
      (id : String) (d : Dict (Task D.Amount))
      → AreOthersReserved id d
      → AreOthersReserved id (priced_tasks D c d)
  priced_tasks-AreOthersReserved id [] h = tt
  priced_tasks-AreOthersReserved id ((k, t) ∷ d) h =
      go (k == id) refl h (priced_tasks-AreOthersReserved id d)
    where
      go :
          (b : Bool)
          → (k == id) ≡ b
          → Branch b (AreReserved d) (All IsReserved t.attempts × AreOthersReserved id d)
          → (AreOthersReserved id d → AreOthersReserved id (priced_tasks D c d))
          → AreOthersReserved id (priced_tasks D c ((k, t) ∷ d))
      go true e h ih = rw e (priced_tasks-AreReserved d h)
      go false e (p, h) ih = rw e (priced_list-IsReserved t.attempts p, ih h)

  pub priced_tasks-get :
      (d : Dict (Task D.Amount)) (id : String) (t : Task D.Amount)
      → Dict.get d id ≡ some t
      → Dict.get (priced_tasks D c d) id ≡ some (priced_task D c t)
  unfolding Dict.get
  priced_tasks-get [] id t h = absurd (cc)
  priced_tasks-get ((j, u) ∷ d) id t h = elim (Bool-cases (j == id)) [
    | inl e ↦ let same : u ≡ t = ground (arith, e, h) in rw (e, Dict.get) (rw same refl)
    | inr e ↦
        let found : Dict.get d id ≡ some t = ground (arith, e, h) in
        rw (e, Dict.get) (priced_tasks-get d id t found)
  ]

  pub priced_task-debits :
      (t : Task D.Amount) → debits_of (priced_task D c t).attempts ≡ debits_of t.attempts
  priced_task-debits t = priced_list-debits t.attempts

pub debits-get :
    {A : Type 0} (d : Dict (Task A)) (id : String) (t : Task A)
    → Dict.get d id ≡ some t
    → (rest : ℕ) × (debits d ≡ debits_of t.attempts + rest)
unfolding Dict.get
debits-get [] id t h = absurd (cc)
debits-get ((j, u) ∷ d) id t h = elim (Bool-cases (j == id)) [
  | inl e ↦ (debits d, let same : u ≡ t = ground (arith, e, h) in rw same refl)
  | inr e ↦
      let (rest, p) = debits-get d id t (ground (arith, e, h)) in
      (debits_of u.attempts + rest, omega (arith, p))
]

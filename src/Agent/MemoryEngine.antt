-- ===== src/Agent/MemoryEngine.antt =====
-- The execution engine over a registry that holds the memory adapter, and its laws. `ids n` is the
-- n-th `uuid4`; no two are equal.
use cadrig.Base.{
  ℕ, ◌+◌, ◌≤◌, String, ◌≡◌, refl, ap, ◌∙◌, Bool, true, false, none, [], ◌∷◌, arith, ◌==◌,
  if◌then◌else◌, Error, key_error, Result, ok, err,
}
use cadrig.Base.Dict
use cadrig.Json.{FloatOps}
use cadrig.Contracts.{ActionPlan, ExecutionReceipt, status_accepted}
use cadrig.Memory.{Kernel, new_kernel, metadata, observe, validate, execute, rollback}
use cadrig.Memory.Atomic.{execute_atomic, execute_preview, execute-accepted, undo-execute}
use cadrig.Memory.Rollback.{rollback-execute, rollback-undo_none}
use cadrig.Agent.Interface.{Engine, IsLawful}

module _ (ops : FloatOps) (ids : ℕ → String) (distinct : (m n : ℕ) → ids m ≡ ids n → m ≡ n) where
  -- The kernel, and the number of ids drawn so far; the others stand in no undo record.
  pub record Host : Type 0 where
    pub kernel : Kernel
    pub drawn : ℕ
    pub fresh : (m : ℕ) → drawn ≤ m → Dict.get kernel.undo (ids m) ≡ none

  abbrev pub new_host : Host
  new_host = record { kernel = new_kernel; drawn = 0; fresh = λ m le. Dict.get-empty (ids m) }

  pub execute_fresh :
      (s : Host) (plan : ActionPlan) (dry : Bool) (m : ℕ)
      → s.drawn + 1 ≤ m
      → Dict.get (execute ops s.kernel (ids s.drawn) plan dry).1.undo (ids m) ≡ none
  execute_fresh s plan dry m le =
      undo-execute ops s.kernel (ids s.drawn) plan dry (ids m)
        (λ e. absurd (omega (arith, distinct s.drawn m e)))
      ∙ s.fresh m (omega arith)

  unfoldable pub host_execute : Host → ActionPlan → Bool → Result ExecutionReceipt × Host
  host_execute s plan dry =
      let o = execute ops s.kernel (ids s.drawn) plan dry in
      (o.0, record { kernel = o.1; drawn = s.drawn + 1; fresh = execute_fresh s plan dry })

  unfoldable pub host_rollback : Host → String → Result ExecutionReceipt × Host
  host_rollback s receipt_id =
      let o = rollback s.kernel (ids s.drawn) receipt_id in
      (
        o.0,
        record {
          kernel = o.1;
          drawn = s.drawn + 1;
          fresh = λ m le.
              rollback-undo_none s.kernel (ids s.drawn) receipt_id (ids m)
                (s.fresh m (omega arith));
        },
      )

  -- `registry.get(adapter_id)` raises `KeyError` for any other adapter.
  abbrev pub memory_engine : Engine
  memory_engine = record {
    State = Host;
    adapters = λ s. metadata ∷ [];
    observe = λ s a d. if a == "memory" then observe s.kernel d else err (key_error a);
    validate = λ s a p. if a == "memory" then ok (validate s.kernel p) else err (key_error a);
    execute = λ s a p dry. if a == "memory" then host_execute s p dry else (err (key_error a), s);
    rollback = λ s a id. if a == "memory" then host_rollback s id else (err (key_error a), s);
  }

  abbrev pub SameDocuments : Host → Host → Type 0
  SameDocuments s t = (j : String) → Dict.get s.kernel.documents j ≡ Dict.get t.kernel.documents j

  dry_law :
      (s : Host) (b : Bool) (e : Error) (p : ActionPlan)
      → SameDocuments (if b then host_execute s p true else (err e, s)).1 s
  unfolding host_execute
  dry_law s true e p = λ j. rw execute_preview refl
  dry_law s false e p = λ j. refl

  refused_law :
      (s : Host) (b : Bool) (e : Error) (p : ActionPlan) (r : ExecutionReceipt)
      → (if b then host_execute s p false else (err e, s)).0 ≡ ok r
      → status_accepted r.status ≡ false
      → SameDocuments (if b then host_execute s p false else (err e, s)).1 s
  unfolding host_execute
  refused_law s true e p r q f = λ j.
      ap (λ (k : Kernel). Dict.get k.documents j)
        (execute_atomic ops s.kernel (ids s.drawn) p false (λ r' q' a. cc))
  refused_law s false e p r q f = λ j. refl

  restore_law :
      (s : Host) (b : Bool) (e : Error) (p : ActionPlan) (r : ExecutionReceipt)
      → (if b then host_execute s p false else (err e, s)).0 ≡ ok r
      → status_accepted r.status ≡ true
      → let t = (if b then host_execute s p false else (err e, s)).1 in
        let o = (if b then host_rollback t r.receipt_id else (err e, t)) in
        (x : ExecutionReceipt) × (o.0 ≡ ok x)
        × (status_accepted x.status ≡ true)
        × SameDocuments o.1 s
  unfolding host_execute host_rollback
  restore_law s true e p r q f =
      let (a, i) = execute-accepted ops s.kernel (ids s.drawn) p r q f in
      let u =
        rollback-execute ops s.kernel (ids s.drawn) (ids (s.drawn + 1)) p r q a
          (s.fresh s.drawn (omega arith)) in
      rw i (u.receipt, u.outcome, rw u.status refl, u.restored.documents)
  restore_law s false e p r q f = absurd (cc)

  -- The memory adapter keeps what adapters/base.py promises: a preview and a refusal change no
  -- document, and a rollback right after a commit is accepted and restores every document.
  pub memory_engine-IsLawful : IsLawful memory_engine
  memory_engine-IsLawful = record {
    Same = SameDocuments;
    same_refl = λ s j. refl;
    same_trans = λ s t u p q j. p j ∙ q j;
    execute_dry = λ s a p. dry_law s (a == "memory") (key_error a) p;
    execute_refused = λ s a p r. refused_law s (a == "memory") (key_error a) p r;
    rollback_restores = λ s a p r. restore_law s (a == "memory") (key_error a) p r;
  }

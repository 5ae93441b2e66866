-- ===== src/Verify/Acceptance.antt =====
-- What an accepting report of `ContractVerifier.verify` means.
use cadrig.Base.{
  map, ◌≢◌, Bool-cases, inl, inr, subst, ◌≡◌, refl, sym, ap, ◌∙◌, ◌↔◌, true, false, Option, none,
  some, List, [], ◌∷◌, ◌++◌, All, Result, ok, traverse, >>=-eq-ok, String,
}
use cadrig.Json.{FloatOps}
use cadrig.Contracts.{DocumentSnapshot, ExecutionReceipt, Diagnostic, status_accepted, null_list}
use cadrig.Design.{DesignContract}
use cadrig.Verify.Verifier.{
  VerificationIssue, VerificationReport, evaluate_requirement, evaluate_invariant, present,
  execution_issues, verify,
}

present-none :
    (y : Option VerificationIssue) (zs : List (Option VerificationIssue))
    → present (y ∷ zs) ≡ []
    → (y ≡ none) × (present zs ≡ [])
present-none none zs e = (refl, e)
present-none (some i) zs e = absurd (cc)

ok-inj {ℓ} : {A : Type ℓ} {a b : A} → ok a ≡ ok b → a ≡ b
ok-inj e = cc

module _ {ℓ} {A : Type ℓ} (f : A → Result (Option VerificationIssue)) where
  -- The parts of a loop that raises nothing.
  traverse-cons :
      (x : A) (xs : List A) (ys : List (Option VerificationIssue))
      → traverse f (x ∷ xs) ≡ ok ys
      → (y : Option VerificationIssue) × (zs : List (Option VerificationIssue)) × (f x ≡ ok y)
        × (traverse f xs ≡ ok zs)
        × (y ∷ zs ≡ ys)
  traverse-cons x xs ys h =
      let (y, p, q) = >>=-eq-ok (f x) _ h in
      let (zs, p', q') = >>=-eq-ok (traverse f xs) _ q in (y, zs, p, p', ok-inj q')

  present-All :
      (xs : List A) (ys : List (Option VerificationIssue))
      → traverse f xs ≡ ok ys
      → present ys ≡ []
      → All (λ x. f x ≡ ok none) xs
  present-All [] ys h e = tt
  present-All (x ∷ xs) ys h e =
      let (y, zs, p, p', q) = traverse-cons x xs ys h in
      let (yn, zn) = present-none y zs (subst (λ l. present l ≡ []) (sym q) e) in
      (p ∙ ap ok yn, present-All xs zs p' zn)

  All-present :
      (xs : List A) (ys : List (Option VerificationIssue))
      → traverse f xs ≡ ok ys
      → All (λ x. f x ≡ ok none) xs
      → present ys ≡ []
  All-present [] ys h ps = subst (λ l. present l ≡ []) (ok-inj h) refl
  All-present (x ∷ xs) ys h (n, ps) =
      let (y, zs, p, p', q) = traverse-cons x xs ys h in
      let yn : y ≡ none = ok-inj (sym p ∙ n) in
      subst (λ l. present l ≡ []) q
        (subst (λ o. present (o ∷ zs) ≡ []) (sym yn) (All-present xs zs p' ps))

append-nil_parts {ℓ} : {A : Type ℓ} (xs ys : List A) → xs ++ ys ≡ [] → (xs ≡ []) × (ys ≡ [])
append-nil_parts [] ys h = (refl, h)
append-nil_parts (x ∷ xs) ys h = absurd (cc)

null_list-nil {ℓ} : {A : Type ℓ} (xs : List A) → null_list xs ≡ true → xs ≡ []
null_list-nil [] h = refl
null_list-nil (x ∷ xs) h = absurd (cc)

nil-null_list {ℓ} : {A : Type ℓ} (xs : List A) → xs ≡ [] → null_list xs ≡ true
nil-null_list xs h = rw h refl

map-nil {ℓ κ} : {A : Type ℓ} {B : Type κ} (f : A → B) (xs : List A) → map f xs ≡ [] → xs ≡ []
map-nil f [] h = refl
map-nil f (x ∷ xs) h = absurd (cc)

refused_issues :
    (r : ExecutionReceipt) (ds : List Diagnostic)
    → r.diagnostics ≡ ds
    → status_accepted r.status ≡ false
    → execution_issues r ≢ []
refused_issues r [] p e h = absurd (cc (rw (e, execution_issues) at h, p))
refused_issues r (d ∷ ds) p e h = absurd (cc (rw (e, execution_issues) at h, p))

execution_issues-accepted :
    (r : ExecutionReceipt) → execution_issues r ≡ [] → status_accepted r.status ≡ true
execution_issues-accepted r h = elim (Bool-cases (status_accepted r.status)) [
  | inl e ↦ e
  | inr e ↦ absurd (refused_issues r r.diagnostics refl e h)
]

accepted-execution_issues :
    (r : ExecutionReceipt) → status_accepted r.status ≡ true → execution_issues r ≡ []
accepted-execution_issues r h = rw (h, execution_issues) refl

module _ (ops : FloatOps) (content_hash : DocumentSnapshot → String) (contract : DesignContract)
    (r : ExecutionReceipt) where
  -- Every requirement and every invariant of the contract passes on the receipt.
  pub record Passes : Type 0 where
    pub accepted : status_accepted r.status ≡ true
    pub requirements :
        All (λ p. evaluate_requirement ops p r.before r.after ≡ ok none) contract.requirements
    pub invariants :
        All (λ p. evaluate_invariant ops p r.before r.after ≡ ok none) contract.invariants

  -- From the issues that the two loops collect.
  issues-Passes :
      (required kept : List (Option VerificationIssue))
      → traverse (λ p. evaluate_requirement ops p r.before r.after) contract.requirements
        ≡ ok required
      → traverse (λ p. evaluate_invariant ops p r.before r.after) contract.invariants ≡ ok kept
      → (null_list (execution_issues r ++ (present required ++ present kept)) ≡ true) ↔ Passes
  issues-Passes required kept p q = (
    λ a.
        let none_left =
          null_list-nil (execution_issues r ++ (present required ++ present kept)) a in
        let (e, rest) = append-nil_parts (execution_issues r) _ none_left in
        let (f, g) = append-nil_parts (present required) (present kept) rest in
        record {
          accepted = execution_issues-accepted r e;
          requirements = present-All _ contract.requirements required p f;
          invariants = present-All _ contract.invariants kept q g;
        },
    λ h. rw (accepted-execution_issues r h.accepted) (
        rw (All-present _ contract.requirements required p h.requirements)
          (rw (All-present _ contract.invariants kept q h.invariants) refl)),
  )

  -- When `verify` returns a report, it accepts if and only if the receipt is accepted and every requirement and every invariant
  -- of the contract is evaluated without an issue.
  pub verify-Passes :
      (report : VerificationReport)
      → verify ops content_hash contract r ≡ ok report
      → (report.accepted ≡ true) ↔ Passes
  unfolding verify
  verify-Passes report h =
      let (required, p, q) =
        >>=-eq-ok
          (traverse (λ p. evaluate_requirement ops p r.before r.after) contract.requirements) _ h in
      let (kept, p', q') =
        >>=-eq-ok (traverse (λ p. evaluate_invariant ops p r.before r.after) contract.invariants) _
          q in
      let same = ap (λ (x : VerificationReport). x.accepted) (ok-inj q') in
      let (forth, back) = issues-Passes required kept p p' in
      (λ a. forth (same ∙ a), λ w. sym same ∙ back w)

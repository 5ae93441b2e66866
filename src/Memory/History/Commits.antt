-- ===== src/Memory/History/Commits.antt =====
-- A commit of the next revision under a fresh receipt id keeps the undo records linked.
use mathlib.Core.Option.{some-injective}
use cadrig.Base.{
  ◌+◌, ◌≤◌, String, ◌≡◌, sym, ap, ◌∙◌, subst, ◌⊎◌, inl, inr, Option, none, some, arith, ok,
}
use cadrig.Base.Dict
use cadrig.Base.Dict.{key_cases, get-put_cases, get-put_self, get-put_ne}
use cadrig.Contracts.{DocumentSnapshot, ExecutionReceipt}
use cadrig.Memory.State.{Document, Kernel, UndoRecord, snapshot_opt}
use cadrig.Memory.Methods.{revision_of, commit}
use cadrig.Memory.History.Linked.{Linked, Has}

module _ (k : Kernel) (document_id : String) (d : Document) (receipt : ExecutionReceipt)
    (fresh : Dict.get k.undo receipt.receipt_id ≡ none)
    (next : d.revision ≡ revision_of (Dict.get k.documents document_id) + 1)
    (seen : snapshot_opt (some d) ≡ ok receipt.after)
    (replaced : snapshot_opt (Dict.get k.documents document_id) ≡ ok receipt.before)
    (h : Linked k) where
  abbrev old : Option Document
  old = Dict.get k.documents document_id

  abbrev k' : Kernel
  k' = commit k document_id d old receipt

  abbrev new_record : UndoRecord
  new_record = record {
    document_id = document_id;
    expected_revision = d.revision;
    before = old;
    original_receipt = receipt;
  }

  abbrev Split : String → UndoRecord → Type 0
  Split id r = ((receipt.receipt_id ≡ id) × (new_record ≡ r)) ⊎ Has k id r

  presence_cases : (id : String) (r : UndoRecord) → Has k' id r → Split id r
  presence_cases id r m = elim (get-put_cases k.undo receipt.receipt_id id new_record r m) [
    | inl (p, q) ↦ inl (p, q)
    | inr (p, q) ↦ inr q
  ]

  -- The record of an older commit of this document expects less than the new revision.
  below :
      (id : String) (r : UndoRecord)
      → Has k id r
      → document_id ≡ r.document_id
      → r.expected_revision + 1 ≤ d.revision
  below id r m e =
      let (o, there, le) = h.older id r m in
      let found : old ≡ some o = ap (Dict.get k.documents) e ∙ there in
      omega (arith, next, ap revision_of found)

  abbrev Older : UndoRecord → Type 0
  Older r =
      (x : Document) × (Dict.get k'.documents r.document_id ≡ some x)
      × (r.expected_revision ≤ x.revision)

  kept_under_commit : (id : String) (r : UndoRecord) → Split id r → Older r
  kept_under_commit id r (inl (p, q)) =
      subst Older q (d, get-put_self k.documents document_id d, omega arith)
  kept_under_commit id r (inr m) = elim (key_cases document_id r.document_id) [
    | inl e ↦ (d, rw (← e) (get-put_self k.documents document_id d), omega (arith, below id r m e))
    | inr ne ↦
        let (o, there, le) = h.older id r m in
        (o, get-put_ne k.documents document_id r.document_id d ne ∙ there, le)
  ]

  unique_commit :
      (id id' : String) (r r' : UndoRecord)
      → Split id r
      → Split id' r'
      → r.document_id ≡ r'.document_id
      → r.expected_revision ≡ r'.expected_revision
      → id ≡ id'
  unique_commit id id' r r' (inl (p, q)) (inl (p', q')) e f = sym p ∙ p'
  unique_commit id id' r r' (inl (p, q)) (inr m') e f =
      let same : document_id ≡ r'.document_id = ap (λ (x : UndoRecord). x.document_id) q ∙ e in
      absurd (omega (arith, below id' r' m' same, ap (λ (x : UndoRecord). x.expected_revision) q))
  unique_commit id id' r r' (inr m) (inl (p', q')) e f =
      let same : document_id ≡ r.document_id = ap (λ (x : UndoRecord). x.document_id) q' ∙ sym e in
      absurd (omega (arith, below id r m same, ap (λ (x : UndoRecord). x.expected_revision) q'))
  unique_commit id id' r r' (inr m) (inr m') e f = h.unique id id' r r' m m' e f

  abbrev Current : UndoRecord → Type 0
  Current r =
      (x : Document)
      → Dict.get k'.documents r.document_id ≡ some x
      → x.revision ≡ r.expected_revision
      → snapshot_opt (some x) ≡ ok r.original_receipt.after

  made_by_commit : (id : String) (r : UndoRecord) → Split id r → Current r
  made_by_commit id r (inl (p, q)) = subst Current q λ x there e.
      let same : d ≡ x =
        some-injective d x (sym (get-put_self k.documents document_id d) ∙ there) in
      subst (λ y. snapshot_opt (some y) ≡ ok receipt.after) same seen
  made_by_commit id r (inr m) = λ x there e.
      elim (get-put_cases k.documents document_id r.document_id d x there) [
        | inl (same, q) ↦
            absurd (omega (arith, below id r m same, ap (λ (y : Document). y.revision) q))
        | inr (ne, found) ↦ h.current id r x m found e
      ]

  stepped_commit :
      (id : String) (r : UndoRecord) → Split id r → r.expected_revision ≡ revision_of r.before + 1
  stepped_commit id r (inl (p, q)) =
      subst (λ (x : UndoRecord). x.expected_revision ≡ revision_of x.before + 1) q next
  stepped_commit id r (inr m) = h.stepped id r m

  replaced_commit :
      (id : String) (r : UndoRecord)
      → Split id r
      → snapshot_opt r.before ≡ ok r.original_receipt.before
  replaced_commit id r (inl (p, q)) =
      subst (λ (x : UndoRecord). snapshot_opt x.before ≡ ok x.original_receipt.before) q replaced
  replaced_commit id r (inr m) = h.replaced id r m

  observed_commit :
      (j : String) (x : Document)
      → Dict.get k'.documents j ≡ some x
      → (s : Option DocumentSnapshot) × (snapshot_opt (some x) ≡ ok s)
  observed_commit j x there = elim (get-put_cases k.documents document_id j d x there) [
    | inl (same, q) ↦ (receipt.after, subst (λ y. snapshot_opt (some y) ≡ ok receipt.after) q seen)
    | inr (ne, found) ↦ h.observed j x found
  ]

  -- The record of the revision before the commit is that of the document that it replaces.
  linked_old :
      (id : String) (r : UndoRecord)
      → Has k id r
      → r.document_id ≡ document_id
      → d.revision ≡ r.expected_revision + 1
      → snapshot_opt old ≡ ok r.original_receipt.after
  linked_old id r m e f =
      let (o, there, le) = h.older id r m in
      let found : old ≡ some o = ap (Dict.get k.documents) (sym e) ∙ there in
      let same : o.revision ≡ r.expected_revision = omega (arith, next, ap revision_of found) in
      rw found (h.current id r o m there same)

  linked_commit :
      (id id' : String) (r r' : UndoRecord)
      → Split id r
      → Split id' r'
      → r.document_id ≡ r'.document_id
      → r'.expected_revision ≡ r.expected_revision + 1
      → snapshot_opt r'.before ≡ ok r.original_receipt.after
  linked_commit id id' r r' (inl (p, q)) (inl (p', q')) e f = absurd (
      omega (
        arith,
        ap (λ (x : UndoRecord). x.expected_revision) q,
        ap (λ (x : UndoRecord). x.expected_revision) q',
      ))
  linked_commit id id' r r' (inl (p, q)) (inr m') e f =
      let same : document_id ≡ r'.document_id = ap (λ (x : UndoRecord). x.document_id) q ∙ e in
      absurd (omega (arith, below id' r' m' same, ap (λ (x : UndoRecord). x.expected_revision) q))
  linked_commit id id' r r' (inr m) (inl (p', q')) e f =
      subst (λ (x : UndoRecord). snapshot_opt x.before ≡ ok r.original_receipt.after) q'
        (linked_old id r m (e ∙ ap (λ (x : UndoRecord). x.document_id) (sym q'))
          (ap (λ (x : UndoRecord). x.expected_revision) q' ∙ f))
  linked_commit id id' r r' (inr m) (inr m') e f = h.linked id id' r r' m m' e f

  pub commit-Linked : Linked k'
  commit-Linked = record {
    older = λ id r m. kept_under_commit id r (presence_cases id r m);
    unique = λ id id' r r' m m'.
        unique_commit id id' r r' (presence_cases id r m) (presence_cases id' r' m');
    current = λ id r x m. made_by_commit id r (presence_cases id r m) x;
    linked = λ id id' r r' m m'.
        linked_commit id id' r r' (presence_cases id r m) (presence_cases id' r' m');
    stepped = λ id r m. stepped_commit id r (presence_cases id r m);
    replaced = λ id r m. replaced_commit id r (presence_cases id r m);
    observed = observed_commit;
  }

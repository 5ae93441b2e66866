-- ===== src/Memory/History/Restores.antt =====
-- A rollback keeps the undo records linked.
use mathlib.Core.Option.{some-injective}
use cadrig.Base.{
  ℕ, suc, ◌+◌, ◌≤◌, String, ◌≡◌, refl, sym, ap, ◌∙◌, ◌≢◌, inl, inr, Option, none, some, arith, ok,
}
use cadrig.Base.Dict
use cadrig.Base.Dict.{
  Dict, key_cases, get-put_cases, get-put_self, get-put_ne, get-remove_cases, get-remove_ne,
  get-remove_self,
}
use cadrig.Contracts.{DocumentSnapshot}
use cadrig.Memory.State.{Document, Kernel, UndoRecord, snapshot_opt}
use cadrig.Memory.Methods.{revision_of}
use cadrig.Memory.History.Linked.{Linked, Has}

-- The kernel after the record `r0` of `id0` is taken back: its document is what the record holds.
module _ (k : Kernel) (id0 : String) (r0 : UndoRecord) (c : Document) (documents : Dict Document)
    (known : Has k id0 r0) (here : Dict.get k.documents r0.document_id ≡ some c)
    (matches : c.revision ≡ r0.expected_revision)
    (put_back : Dict.get documents r0.document_id ≡ r0.before)
    (others : (j : String) → r0.document_id ≢ j → Dict.get documents j ≡ Dict.get k.documents j)
    (h : Linked k) where
  abbrev k' : Kernel
  k' = record { documents = documents; undo = Dict.remove k.undo id0 }

  -- Another record of the document expects less than the revision that is taken back.
  below :
      (id : String) (r : UndoRecord)
      → id0 ≢ id
      → Has k id r
      → r0.document_id ≡ r.document_id
      → r.expected_revision + 1 ≤ r0.expected_revision
  below id r ne m e =
      let (o, there, le) = h.older id r m in
      let same : c ≡ o = some-injective c o (sym here ∙ (ap (Dict.get k.documents) e ∙ there)) in
      let apart : r0.expected_revision ≢ r.expected_revision =
        λ f. ne (h.unique id0 id r0 r known m e f) in
      omega (arith, ap (λ (x : Document). x.revision) same)

  restored_some :
      (o : Option Document) (n : ℕ)
      → suc n ≤ revision_of o
      → (x : Document) × (o ≡ some x) × (suc n ≤ x.revision)
  restored_some none n le = absurd (omega arith)
  restored_some (some x) n le = (x, refl, le)

  older_restore :
      (id : String) (r : UndoRecord)
      → id0 ≢ id
      → Has k id r
      → (x : Document) × (Dict.get documents r.document_id ≡ some x)
        × (r.expected_revision ≤ x.revision)
  older_restore id r ne m = elim (key_cases r0.document_id r.document_id) [
    | inl e ↦
        let (x, p, le) =
          restored_some r0.before (revision_of r.before)
            (omega (arith, below id r ne m e, h.stepped id r m, h.stepped id0 r0 known)) in
        (x, ap (Dict.get documents) (sym e) ∙ (put_back ∙ p), omega (arith, h.stepped id r m))
    | inr apart ↦ let (o, there, le) = h.older id r m in (o, others r.document_id apart ∙ there, le)
  ]

  current_restore :
      (id : String) (r : UndoRecord) (x : Document)
      → id0 ≢ id
      → Has k id r
      → Dict.get documents r.document_id ≡ some x
      → x.revision ≡ r.expected_revision
      → snapshot_opt (some x) ≡ ok r.original_receipt.after
  current_restore id r x ne m there e = elim (key_cases r0.document_id r.document_id) [
    | inl same ↦
        let back : r0.before ≡ some x = sym put_back ∙ (ap (Dict.get documents) same ∙ there) in
        let step : r0.expected_revision ≡ r.expected_revision + 1 =
          omega (arith, h.stepped id0 r0 known, ap revision_of back) in
        rw (← back) (h.linked id id0 r r0 m known (sym same) step)
    | inr apart ↦ h.current id r x m (sym (others r.document_id apart) ∙ there) e
  ]

  observed_restore :
      (j : String) (x : Document)
      → Dict.get documents j ≡ some x
      → (s : Option DocumentSnapshot) × (snapshot_opt (some x) ≡ ok s)
  observed_restore j x there = elim (key_cases r0.document_id j) [
    | inl same ↦
        let back : r0.before ≡ some x = sym put_back ∙ (ap (Dict.get documents) same ∙ there) in
        (r0.original_receipt.before, rw (← back) (h.replaced id0 r0 known))
    | inr apart ↦ h.observed j x (sym (others j apart) ∙ there)
  ]

  pub restore-Linked : Linked k'
  restore-Linked = record {
    older = λ id r m. let (ne, m') = get-remove_cases k.undo id0 id r m in older_restore id r ne m';
    unique = λ id id' r r' m m'.
        h.unique id id' r r' (get-remove_cases k.undo id0 id r m).1
          (get-remove_cases k.undo id0 id' r' m').1;
    current = λ id r x m.
        let (ne, m') = get-remove_cases k.undo id0 id r m in current_restore id r x ne m';
    linked = λ id id' r r' m m'.
        h.linked id id' r r' (get-remove_cases k.undo id0 id r m).1
          (get-remove_cases k.undo id0 id' r' m').1;
    stepped = λ id r m. h.stepped id r (get-remove_cases k.undo id0 id r m).1;
    replaced = λ id r m. h.replaced id r (get-remove_cases k.undo id0 id r m).1;
    observed = observed_restore;
  }

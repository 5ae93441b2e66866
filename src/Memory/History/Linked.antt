-- ===== src/Memory/History/Linked.antt =====
-- The invariant that ties undo records to the documents and to one another.
use cadrig.Base.{◌+◌, ◌≤◌, String, ◌≡◌, Option, some, ok}
use cadrig.Base.Dict
use cadrig.Contracts.{DocumentSnapshot}
use cadrig.Memory.State.{Document, Kernel, UndoRecord, snapshot_opt}
use cadrig.Memory.Methods.{revision_of}

abbrev pub Has : Kernel → String → UndoRecord → Type 0
Has k id r = Dict.get k.undo id ≡ some r

pub record Linked (k : Kernel) : Type 0 where
  -- The document of a record is still there, at the revision that the record expects or later.
  pub older :
      (id : String) (r : UndoRecord)
      → Has k id r
      → (d : Document) × (Dict.get k.documents r.document_id ≡ some d)
        × (r.expected_revision ≤ d.revision)
  -- A document has one record for a revision.
  pub unique :
      (id id' : String) (r r' : UndoRecord)
      → Has k id r
      → Has k id' r'
      → r.document_id ≡ r'.document_id
      → r.expected_revision ≡ r'.expected_revision
      → id ≡ id'
  -- A document at the revision that a record expects is what its transaction committed.
  pub current :
      (id : String) (r : UndoRecord) (d : Document)
      → Has k id r
      → Dict.get k.documents r.document_id ≡ some d
      → d.revision ≡ r.expected_revision
      → snapshot_opt (some d) ≡ ok r.original_receipt.after
  -- What a record restores is what the record of the revision before committed.
  pub linked :
      (id id' : String) (r r' : UndoRecord)
      → Has k id r
      → Has k id' r'
      → r.document_id ≡ r'.document_id
      → r'.expected_revision ≡ r.expected_revision + 1
      → snapshot_opt r'.before ≡ ok r.original_receipt.after
  pub stepped :
      (id : String) (r : UndoRecord) → Has k id r → r.expected_revision ≡ revision_of r.before + 1
  -- What a record restores is what its receipt shows as the document before.
  pub replaced :
      (id : String) (r : UndoRecord)
      → Has k id r
      → snapshot_opt r.before ≡ ok r.original_receipt.before
  -- Every document has a snapshot.
  pub observed :
      (j : String) (d : Document)
      → Dict.get k.documents j ≡ some d
      → (s : Option DocumentSnapshot) × (snapshot_opt (some d) ≡ ok s)

-- ===== src/FreeCad/State.antt =====
-- `_RevisionState`, `_UndoRecord`, the fields of `FreeCADKernelAdapter`, `_get_document` and `observe`
-- of freecad.py. FreeCAD keeps no revisions: `observe` counts the changes that it sees.
use cadrig.Base.{
  ℕ, ◌+◌, String, Bool, Option, none, some, ◌==◌, Result, ok, err, ◌>>=◌, name_error, runtime_error,
  if◌then◌else◌,
}
use cadrig.Base.Dict
use cadrig.Base.Dict.{Dict}
use cadrig.Contracts.{DocumentSnapshot, ExecutionReceipt}
use cadrig.FreeCad.Host.{Host}
use cadrig.FreeCad.Objects.{snapshot}

pub record RevisionState : Type 0 where
  pub fingerprint : String
  pub revision : ℕ

pub record UndoRecord : Type 0 where
  pub document_id : String
  pub expected_revision : ℕ
  pub created_document : Bool
  pub original_receipt : ExecutionReceipt

-- The adapter with the state of the host
pub record Adapter (W : Type 0) : Type 0 where
  pub world : W
  pub revisions : Dict RevisionState
  pub undo : Dict UndoRecord

-- The state of a document whose fingerprint is `now`, from the one that is kept
abbrev pub tracked : Option RevisionState → String → RevisionState
tracked none now = record { fingerprint = now; revision = 0 }
tracked (some s) now =
    if s.fingerprint == now then s else record { fingerprint = now; revision = s.revision + 1 }

module _ {W Doc Obj : Type 0} (host : Host W Doc Obj) where
  -- `_get_document(document_id)`: `NameError` and `RuntimeError` are a missing document.
  abbrev or_missing : Result (Option Doc) → Result (Option Doc)
  or_missing (err name_error) = ok none
  or_missing (err runtime_error) = ok none
  or_missing r = r

  unfoldable pub get_document : W → String → Result (Option Doc)
  get_document w document_id = or_missing (host.get_document w document_id)

  -- `_fingerprint(snapshot)`
  abbrev pub fingerprint_of : DocumentSnapshot → String
  fingerprint_of s = host.hash_features s.features

  -- The part of `observe` for a document that is there
  unfoldable pub observe_document :
      Adapter W → String → Doc → Result (Option DocumentSnapshot) × Adapter W
  observe_document s document_id d = elim (snapshot host s.world d 0) [
    | err e ↦ (err e, s)
    | ok provisional ↦
        let now = tracked (Dict.get s.revisions document_id) (fingerprint_of provisional) in
        (
          snapshot host s.world d now.revision >>= λ shown. ok (some shown),
          record s { revisions = Dict.put s.revisions document_id now },
        )
  ]

  -- `observe(document_id)`. Writing back a state that has not changed is no change.
  unfoldable pub observe : Adapter W → String → Result (Option DocumentSnapshot) × Adapter W
  unfolding observe_document
  observe s document_id = elim (get_document s.world document_id) [
    | err e ↦ (err e, s)
    | ok none ↦ (ok none, record s { revisions = Dict.remove s.revisions document_id })
    | ok (some d) ↦ observe_document s document_id d
  ]

-- ===== src/Memory/State.antt =====
-- `_Feature`, `_Document`, `_UndoRecord`, the fields of `MemoryKernelAdapter`, and `_snapshot`.
-- `copy.deepcopy` is the identity on values, which nothing mutates here.
use cadrig.Base.{ℕ, String, Option, none, some, List, [], ◌∷◌, Result, ok, ◌>>=◌, traverse}
use cadrig.Base.Dict
use cadrig.Base.Dict.{Dict}
use cadrig.Json.{Json}
use cadrig.Contracts.{
  ActionKind, create_document, add_box, add_cylinder, set_parameter, delete_feature,
  FeatureSnapshot, DocumentSnapshot, ExecutionReceipt, AdapterMetadata, feature_snapshot,
  document_snapshot,
}

pub record Feature : Type 0 where
  pub feature_id : String
  pub feature_type : String
  pub parameters : Dict Json

pub record Document : Type 0 where
  pub document_id : String
  pub revision : ℕ
  pub features : Dict Feature

pub record UndoRecord : Type 0 where
  pub document_id : String
  pub expected_revision : ℕ
  pub before : Option Document
  pub original_receipt : ExecutionReceipt

pub record Kernel : Type 0 where
  pub documents : Dict Document
  pub undo : Dict UndoRecord

abbrev pub new_kernel : Kernel
new_kernel = record { documents = []; undo = [] }

-- `_SUPPORTED`
abbrev pub supported : List ActionKind
supported = create_document ∷ add_box ∷ add_cylinder ∷ set_parameter ∷ delete_feature ∷ []

-- `metadata`
abbrev pub metadata : AdapterMetadata
metadata = record { adapter_id = "memory"; supported_actions = supported }

abbrev snapshot_feature : Feature → Result FeatureSnapshot
snapshot_feature f = feature_snapshot f.feature_id f.feature_type f.parameters

-- `_snapshot(document)`; the constructors of the snapshots may raise `ContractError`
unfoldable pub snapshot : Document → Result DocumentSnapshot
snapshot d = do
  features ← traverse snapshot_feature (Dict.values d.features)
  document_snapshot d.document_id d.revision features

-- `self._snapshot(document) if document else None`
unfoldable pub snapshot_opt : Option Document → Result (Option DocumentSnapshot)
unfolding snapshot
snapshot_opt none = ok none
snapshot_opt (some d) = snapshot d >>= λ s. ok (some s)

-- `observe(document_id)`
unfoldable pub observe : Kernel → String → Result (Option DocumentSnapshot)
unfolding snapshot_opt
observe k document_id = snapshot_opt (Dict.get k.documents document_id)

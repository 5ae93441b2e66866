-- ===== src/Contracts/Snapshot.antt =====
-- `Diagnostic`, `FeatureSnapshot`, `DocumentSnapshot`, `AdapterMetadata` and `ExecutionReceipt` of
-- contracts.py. The texts of messages are left out: each is determined by the code beside it.
use cadrig.Base.{ℕ, String, Bool, true, false, Option, List, Result, ok, ◌>>=◌}
use cadrig.Base.Dict.{Dict}
use cadrig.Json.{Json}
use cadrig.Contracts.Kinds.{ActionKind, ExecutionStatus, refused}
use cadrig.Contracts.Identifier.{check_identifier}

pub record Diagnostic : Type 0 where
  pub code : String
  pub action_id : Option String

pub record FeatureSnapshot : Type 0 where
  pub feature_id : String
  pub feature_type : String
  pub parameters : Dict Json

-- `FeatureSnapshot(...)` with `__post_init__`
unfoldable pub feature_snapshot : String → String → Dict Json → Result FeatureSnapshot
feature_snapshot feature_id feature_type parameters = do
  i ← check_identifier feature_id "feature_id"
  t ← check_identifier feature_type "feature_type"
  ok (record { feature_id = i; feature_type = t; parameters = parameters })

pub record DocumentSnapshot : Type 0 where
  pub document_id : String
  pub revision : ℕ
  pub features : List FeatureSnapshot

-- `DocumentSnapshot(...)` with `__post_init__`; a revision is never negative here
unfoldable pub document_snapshot : String → ℕ → List FeatureSnapshot → Result DocumentSnapshot
document_snapshot document_id revision features = do
  d ← check_identifier document_id "document_id"
  ok (record { document_id = d; revision = revision; features = features })

pub record AdapterMetadata : Type 0 where
  pub adapter_id : String
  pub supported_actions : List ActionKind

pub record ExecutionReceipt : Type 0 where
  pub receipt_id : String
  pub plan_id : String
  pub adapter_id : String
  pub status : ExecutionStatus
  pub diagnostics : List Diagnostic
  pub before : Option DocumentSnapshot
  pub after : Option DocumentSnapshot

-- `receipt.accepted`
abbrev pub status_accepted : ExecutionStatus → Bool
status_accepted refused = false
status_accepted _ = true

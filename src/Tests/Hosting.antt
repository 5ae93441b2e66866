-- ===== src/Tests/Hosting.antt =====
-- The FreeCAD adapter on the sample host.
use cadrig.Base.{ℕ, ◌≤◌, ◌≡◌, refl, ◌≢◌, true, false, none, some, pos, [], ◌∷◌, ok, arith}
use cadrig.Base.Dict
use cadrig.Base.Text.{is_blank, count}
use cadrig.Json.{str, float, place}
use cadrig.Contracts.{
  dry_run, ExecutionReceipt, DocumentSnapshot, applied, feature_snapshot, document_snapshot,
  check_identifier, supports, same_kind,
}
use cadrig.Steps.{done}
use cadrig.FreeCad.Objects
use cadrig.FreeCad.Names
use cadrig.FreeCad.Parameters
use cadrig.FreeCad.Sketches
use cadrig.FreeCad.Preflight
use cadrig.FreeCad.Validate
use cadrig.FreeCad.Apply
use cadrig.FreeCad.State
use cadrig.FreeCad.State.{Adapter, observe}
use cadrig.FreeCad.Execute
use cadrig.FreeCad.Receipts.{receipt}
use cadrig.FreeCad.Rollback.{rollback}
use cadrig.FreeCad.Names.{internal_name}
use cadrig.FreeCad.Effects.{Receipt, execute_unapplied, execute-Receipt}
use cadrig.FreeCad.Changes.{Change, execute-Change}
use cadrig.FreeCad.Undoing.{Kept, rollback_keeps}
use cadrig.FreeCad.RoundTrip.{Reverted, rollback-Reverted}
use cadrig.FreeCad.Naming.{internal_name_lem}
use cadrig.FreeCad.Methods
use cadrig.FreeCad.Methods.{execute}
use cadrig.FreeCad.Observing.{observe_again}
use cadrig.FreeCad.Accepting.{Accepts, validate-Accepts}
use cadrig.Tests.Samples.{whole_floats, create_plan, widen_plan}
use cadrig.Tests.Host.{World, sample_host, empty_world}

abbrev start : Adapter World
start = record { world = empty_world; revisions = []; undo = [] }

abbrev made_state : Adapter World
made_state = (execute sample_host whole_floats start "r1" create_plan false).1

abbrev box_with : ℕ → ℕ → DocumentSnapshot
box_with width revision = record {
  document_id = "part";
  revision = revision;
  features =
      record {
        feature_id = "base";
        feature_type = "box";
        parameters =
            ("label", str "base")
            ∷ ("native_type", str "Part::Box")
            ∷ ("width", float (place (pos width)))
            ∷ ("depth", float (place (pos 45)))
            ∷ ("height", float (place (pos 12)))
            ∷ [];
      }
      ∷ [];
}

abbrev made_receipt : ExecutionReceipt
made_receipt = receipt "r1" "p1" applied [] none (some (box_with 80 1))

abbrev widened_receipt : ExecutionReceipt
widened_receipt = receipt "r2" "p2" applied [] (some (box_with 80 1)) (some (box_with 90 2))

create_validates : Validate.validate whole_floats none create_plan ≡ done []
unfolding Validate.validate Validate.check_actions Validate.check_action supports same_kind
    Preflight.preflight Preflight.check_feature Parameters.required_string Dict.get is_blank
    Validate.known_after Preflight.check_target Preflight.check_kind Parameters.positive_parameters
    Parameters.positive_number Validate.id_diagnostics Validate.stale_diagnostics
    Validate.creation_diagnostics
create_validates = refl

create_applies : (execute sample_host whole_floats start "r1" create_plan false).0 ≡ ok made_receipt
unfolding execute Methods.validate Methods.execute_checked Methods.execute_valid Methods.settle
    State.observe State.observe_document State.get_document Execute.attempt Execute.transact
    Execute.conclude Execute.perform Apply.apply_action Apply.apply_box Apply.recompute_and_inspect
    Apply.inspect Sketches.add_tagged Sketches.tag Sketches.ensure_property Objects.snapshot
    Objects.snapshot_of_object Objects.native_parameters Objects.shape_parameters
    Objects.feature_kind Objects.feature_id Names.internal_name Names.name_of_word feature_snapshot
    document_snapshot check_identifier Dict.put Dict.remove Validate.validate Validate.check_actions
    Validate.check_action supports same_kind Preflight.preflight Preflight.check_feature
    Parameters.required_string Dict.get is_blank Validate.known_after Preflight.check_target
    Preflight.check_kind Parameters.positive_parameters Parameters.positive_number
    Validate.id_diagnostics Validate.stale_diagnostics Validate.creation_diagnostics
create_applies = refl

abbrev preview_receipt_of : ExecutionReceipt
preview_receipt_of = receipt "r1" "p1" dry_run [] none (some (box_with 80 1))

create_previews :
    (execute sample_host whole_floats start "r1" create_plan true).0 ≡ ok preview_receipt_of
unfolding execute Methods.validate Methods.execute_checked Methods.execute_valid Methods.settle
    State.observe State.observe_document State.get_document Execute.attempt Execute.transact
    Execute.conclude Execute.perform Apply.apply_action Apply.apply_box Apply.recompute_and_inspect
    Apply.inspect Sketches.add_tagged Sketches.tag Sketches.ensure_property Objects.snapshot
    Objects.snapshot_of_object Objects.native_parameters Objects.shape_parameters
    Objects.feature_kind Objects.feature_id Names.internal_name Names.name_of_word feature_snapshot
    document_snapshot check_identifier Dict.put Dict.remove Validate.validate Validate.check_actions
    Validate.check_action supports same_kind Preflight.preflight Preflight.check_feature
    Parameters.required_string Dict.get is_blank Validate.known_after Preflight.check_target
    Preflight.check_kind Parameters.positive_parameters Parameters.positive_number
    Validate.id_diagnostics Validate.stale_diagnostics Validate.creation_diagnostics
create_previews = refl

widen_applies :
    (execute sample_host whole_floats made_state "r2" widen_plan false).0 ≡ ok widened_receipt
unfolding execute Methods.validate Methods.execute_checked Methods.execute_valid Methods.settle
    State.observe State.observe_document State.get_document Execute.attempt Execute.transact
    Execute.conclude Execute.perform Apply.apply_action Apply.apply_box Apply.recompute_and_inspect
    Apply.inspect Sketches.add_tagged Sketches.tag Sketches.ensure_property Objects.snapshot
    Objects.snapshot_of_object Objects.native_parameters Objects.shape_parameters
    Objects.feature_kind Objects.feature_id Names.internal_name Names.name_of_word feature_snapshot
    document_snapshot check_identifier Dict.put Dict.remove Validate.validate Validate.check_actions
    Validate.check_action supports same_kind Preflight.preflight Preflight.check_feature
    Parameters.required_string Dict.get is_blank Validate.known_after Preflight.check_target
    Preflight.check_kind Parameters.positive_parameters Parameters.positive_number
    Validate.id_diagnostics Validate.stale_diagnostics Validate.creation_diagnostics
    Apply.set_feature_parameter Sketches.required_object Objects.object_by_id Objects.find_object
    Parameters.finite_number Preflight.check_value
widen_applies = refl

abbrev widened_state : Adapter World
widened_state = (execute sample_host whole_floats made_state "r2" widen_plan false).1

-- The documents of the host after the widening, and after the undo
widened_document : State.get_document sample_host widened_state.world "part" ≡ ok (some "part")
unfolding execute Methods.validate Methods.execute_checked Methods.execute_valid Methods.settle
    State.observe State.observe_document State.get_document Execute.attempt Execute.transact
    Execute.conclude Execute.perform Apply.apply_action Apply.apply_box Apply.recompute_and_inspect
    Apply.inspect Sketches.add_tagged Sketches.tag Sketches.ensure_property Objects.snapshot
    Objects.snapshot_of_object Objects.native_parameters Objects.shape_parameters
    Objects.feature_kind Objects.feature_id Names.internal_name Names.name_of_word feature_snapshot
    document_snapshot check_identifier Dict.put Dict.remove Validate.validate Validate.check_actions
    Validate.check_action supports same_kind Preflight.preflight Preflight.check_feature
    Parameters.required_string Dict.get is_blank Validate.known_after Preflight.check_target
    Preflight.check_kind Parameters.positive_parameters Parameters.positive_number
    Validate.id_diagnostics Validate.stale_diagnostics Validate.creation_diagnostics
    Apply.set_feature_parameter Sketches.required_object Objects.object_by_id Objects.find_object
    Parameters.finite_number Preflight.check_value
widened_document = refl

made_document : State.get_document sample_host made_state.world "part" ≡ ok (some "part")
unfolding execute Methods.validate Methods.execute_checked Methods.execute_valid Methods.settle
    State.observe State.observe_document State.get_document Execute.attempt Execute.transact
    Execute.conclude Execute.perform Apply.apply_action Apply.apply_box Apply.recompute_and_inspect
    Apply.inspect Sketches.add_tagged Sketches.tag Sketches.ensure_property Objects.snapshot
    Objects.snapshot_of_object Objects.native_parameters Objects.shape_parameters
    Objects.feature_kind Objects.feature_id Names.internal_name Names.name_of_word feature_snapshot
    document_snapshot check_identifier Dict.put Dict.remove Validate.validate Validate.check_actions
    Validate.check_action supports same_kind Preflight.preflight Preflight.check_feature
    Parameters.required_string Dict.get is_blank Validate.known_after Preflight.check_target
    Preflight.check_kind Parameters.positive_parameters Parameters.positive_number
    Validate.id_diagnostics Validate.stale_diagnostics Validate.creation_diagnostics
made_document = refl

widened_snapshot : Objects.snapshot sample_host widened_state.world "part" 0 ≡ ok (box_with 90 0)
unfolding execute Methods.validate Methods.execute_checked Methods.execute_valid Methods.settle
    State.observe State.observe_document State.get_document Execute.attempt Execute.transact
    Execute.conclude Execute.perform Apply.apply_action Apply.apply_box Apply.recompute_and_inspect
    Apply.inspect Sketches.add_tagged Sketches.tag Sketches.ensure_property Objects.snapshot
    Objects.snapshot_of_object Objects.native_parameters Objects.shape_parameters
    Objects.feature_kind Objects.feature_id Names.internal_name Names.name_of_word feature_snapshot
    document_snapshot check_identifier Dict.put Dict.remove Validate.validate Validate.check_actions
    Validate.check_action supports same_kind Preflight.preflight Preflight.check_feature
    Parameters.required_string Dict.get is_blank Validate.known_after Preflight.check_target
    Preflight.check_kind Parameters.positive_parameters Parameters.positive_number
    Validate.id_diagnostics Validate.stale_diagnostics Validate.creation_diagnostics
    Apply.set_feature_parameter Sketches.required_object Objects.object_by_id Objects.find_object
    Parameters.finite_number Preflight.check_value
widened_snapshot = refl

abbrev undone_world : World
undone_world = (sample_host.undo widened_state.world "part").1

undo_restores : Objects.snapshot sample_host undone_world "part" 1 ≡ ok (box_with 80 1)
unfolding execute Methods.validate Methods.execute_checked Methods.execute_valid Methods.settle
    State.observe State.observe_document State.get_document Execute.attempt Execute.transact
    Execute.conclude Execute.perform Apply.apply_action Apply.apply_box Apply.recompute_and_inspect
    Apply.inspect Sketches.add_tagged Sketches.tag Sketches.ensure_property Objects.snapshot
    Objects.snapshot_of_object Objects.native_parameters Objects.shape_parameters
    Objects.feature_kind Objects.feature_id Names.internal_name Names.name_of_word feature_snapshot
    document_snapshot check_identifier Dict.put Dict.remove Validate.validate Validate.check_actions
    Validate.check_action supports same_kind Preflight.preflight Preflight.check_feature
    Parameters.required_string Dict.get is_blank Validate.known_after Preflight.check_target
    Preflight.check_kind Parameters.positive_parameters Parameters.positive_number
    Validate.id_diagnostics Validate.stale_diagnostics Validate.creation_diagnostics
    Apply.set_feature_parameter Sketches.required_object Objects.object_by_id Objects.find_object
    Parameters.finite_number Preflight.check_value
undo_restores = refl

observe_again_example :
    observe sample_host (observe sample_host made_state "part").1 "part"
    ≡ observe sample_host made_state "part"
observe_again_example = observe_again sample_host made_state "part"

previews_only :
    (r : ExecutionReceipt)
    → (execute sample_host whole_floats start "r1" create_plan true).0 ≡ ok r
    → r.status ≢ applied
previews_only r e = ground (arith, e, create_previews)

execute_unapplied_example :
    ((execute sample_host whole_floats start "r1" create_plan true).1.undo ≡ [])
    × ((execute sample_host whole_floats start "r1" create_plan true).1.revisions
        ≡ (observe sample_host start "part").1.revisions)
execute_unapplied_example =
    execute_unapplied sample_host whole_floats "r1" create_plan true start previews_only

nothing_observed : (observe sample_host start "part").0 ≡ ok none
unfolding State.observe State.get_document Dict.get
nothing_observed = refl

execute-Receipt_example :
    (r : ExecutionReceipt) × ((execute sample_host whole_floats start "r1" create_plan false).0
      ≡ ok r)
    × Receipt sample_host whole_floats "r1" create_plan false none r
execute-Receipt_example =
    execute-Receipt sample_host whole_floats "r1" create_plan false start none [] nothing_observed
      create_validates (λ x d p. (1, refl))

execute-Change_example :
    Change sample_host whole_floats start "r1" create_plan made_state made_receipt
execute-Change_example =
    execute-Change sample_host whole_floats start "r1" create_plan false made_receipt create_applies
      refl

rollback_keeps_example :
    Kept sample_host whole_floats made_state.undo "r1"
      (rollback sample_host whole_floats made_state "r3" "r1")
rollback_keeps_example = rollback_keeps sample_host whole_floats "r3" "r1" made_state

rollback-Reverted_example :
    Reverted sample_host whole_floats made_state "r2" widen_plan
      (box_with 80 1)
      undone_world
      (rollback sample_host whole_floats widened_state "r3" "r2")
rollback-Reverted_example =
    rollback-Reverted sample_host whole_floats made_state "r2" "r3" widen_plan false widened_receipt
      (box_with 90 2) (box_with 90 0) (box_with 80 1) "part" "part" true undone_world undone_world
      widen_applies refl refl made_document widened_document widened_snapshot refl refl refl
      undo_restores

validate-Accepts_example : Accepts none create_plan
validate-Accepts_example = validate-Accepts whole_floats none create_plan create_validates

internal_name_lem_example :
    (Names.is_document_id (internal_name "1 plate") ≡ true) × (count (internal_name "1 plate") ≤ 96)
internal_name_lem_example = internal_name_lem "1 plate"

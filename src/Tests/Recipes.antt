-- ===== src/Tests/Recipes.antt =====
-- Macros at concrete inputs: a reply, its review, and runs on the sample host.
use cadrig.Base.{
  String, ◌≡◌, refl, ap, ◌↔◌, true, not, ◌&&◌, none, some, List, [], ◌∷◌, map, contains, ok, err,
  ◌==◌, eq_iff, arith, runtime_error, if◌then◌else◌,
}
use cadrig.Base.Text.{is_blank}
use cadrig.Base.Dict
use cadrig.Base.Dict.{Dict, keys}
use cadrig.Json.{str, arr, obj, nil, end, field}
use cadrig.Agent.{Reply, payload}
use cadrig.Macros.Policy
use cadrig.Macros.Policy.{Parser, parsed, syntax_error, import_names, review}
use cadrig.Macros.Generation
use cadrig.Macros.Generation.{made, MacroArtifact, generate, repair, metadata_of}
use cadrig.Macros.Execution
use cadrig.Macros.Execution.{
  MacroHost, MacroReceipt, failed, applied, returned, document_names, names, execute,
}
use cadrig.Macros.Review.{HarmlessTree, review-nil}
use cadrig.Macros.Safety.{Generated, generate-Generated, repair-Generated}
use cadrig.Macros.Leftovers.{Guarded, Closes, execute-Guarded, execute_leaves}
use cadrig.Tests.Host.{World, Thing, sample_host}

abbrev sample_parser : Parser
sample_parser code =
    if code == "import Part" then parsed (import_names ("Part" ∷ []) 1 ∷ []) else syntax_error

abbrev reply : Reply
reply = payload (
    obj (
      field "name" (str "Plate") (
        field "description" (str "A plate")
          (field "code" (str "import Part") (field "assumptions" (arr nil) end)))))

abbrev plate : MacroArtifact
plate = record {
  name = "Plate";
  description = "A plate";
  code = "import Part";
  assumptions = [];
  diagnostics = [];
  metadata = metadata_of "1.1" "safe";
}

plate_generated : generate sample_parser "a plate" "1.1" "safe" reply ≡ made plate
unfolding generate Generation.artifact_of Generation.make_artifact Generation.check_review review
    Policy.review_nodes Policy.review_node Policy.check_import Policy.root_of Dict.get Dict.put
    is_blank
plate_generated = refl

review-nil_example :
    (review sample_parser "import Part" ≡ ok []) ↔ HarmlessTree (sample_parser "import Part")
review-nil_example = review-nil sample_parser "import Part"

generate-Generated_example : Generated sample_parser "safe" plate
generate-Generated_example =
    generate-Generated sample_parser "safe" "a plate" "1.1" reply plate plate_generated

abbrev repaired : MacroArtifact
repaired = record plate { metadata = Dict.put plate.metadata "repair_of" (str "Plate") }

second_reply_passes : repair sample_parser "a repair" plate "1.1" "safe" reply ≡ made repaired
unfolding repair generate Generation.artifact_of Generation.make_artifact Generation.check_review
    review Policy.review_nodes Policy.review_node Policy.check_import Policy.root_of Dict.get
    Dict.put is_blank
second_reply_passes = refl

repair-Generated_example :
    Generated sample_parser "safe" repaired
    × (Dict.get repaired.metadata "repair_of" ≡ some (str "Plate"))
repair-Generated_example =
    repair-Generated sample_parser "safe" "a repair" "1.1" plate reply repaired second_reply_passes

-- A macro that opens a document and raises.
abbrev sample_app : MacroHost World String Thing
sample_app = record {
  host = sample_host;
  active_document = λ w. none;
  list_documents = λ w. map (λ n. (n, n)) (keys w.documents);
  enable_undo = λ w d. (ok tt, w);
  save_copy = λ w d p. (ok tt, w);
  is_saved = λ w d p. true;
  run_code =
      λ w code. (err runtime_error, record w { documents = Dict.put w.documents "Unnamed" [] });
}

names_pairs : (ks : List String) → names (map (λ n. (n, n)) ks) ≡ ks
names_pairs [] = refl
names_pairs (k ∷ ks) = ap (λ r. k ∷ r) (names_pairs ks)

contains-remove {ℓ} :
    {V : Type ℓ} (d : Dict V) (n m : String)
    → contains m (keys (Dict.remove d n)) ≡ (contains m (keys d) && not (m == n))
unfolding Dict.remove
contains-remove [] n m = refl
contains-remove ((k, v) ∷ d) n m =
    ground (arith, contains-remove d n m, eq_iff k n, eq_iff m k, eq_iff m n)

sample_closes : Closes sample_app
sample_closes w n m =
    rw (names_pairs (keys (Dict.remove w.documents n)), names_pairs (keys w.documents))
      (contains-remove w.documents n m)

abbrev before : World
before = record { documents = ("part", []) ∷ []; kept = [] }

abbrev broken : MacroReceipt
broken = record {
  receipt_id = "m1";
  status = failed;
  macro_name = "Plate";
  document_name = none;
  error = some runtime_error;
}

plate_breaks : execute sample_app sample_parser "m1" plate true before ≡ (returned broken, before)
unfolding execute Execution.run_macro Execution.conclude Execution.try_macro Execution.abort_open
    Execution.close_all review Policy.review_nodes Policy.review_node Policy.check_import
    Policy.root_of Dict.put Dict.remove
plate_breaks = refl

execute-Guarded_example :
    Guarded sample_app sample_parser "m1" plate before true
      (execute sample_app sample_parser "m1" plate true before)
execute-Guarded_example = execute-Guarded sample_app sample_parser "m1" plate before true

execute_leaves_example : contains "part" (document_names sample_app before) ≡ true
execute_leaves_example =
    execute_leaves sample_app sample_parser "m1" plate before sample_closes (λ w d p. refl) true
      broken before "part" plate_breaks refl refl

-- ===== src/Macros/Execution.antt =====
-- `FreeCADMacroExecutor` of macros.py over FreeCAD's API. What a macro raises is an `Exception`. The
-- captured output, the time and the hash of the code are left out of the receipt; a fresh `uuid4` is
-- an argument.
use cadrig.Base.{
  String, Bool, true, false, not, ◌||◌, Option, none, some, List, [], ◌∷◌, keep, any, eqb, contains,
  Result, ok, err, Error, runtime_error, if◌then◌else◌,
}
use cadrig.Contracts.{null_list}
use cadrig.Steps.{Step, done, failure, raised}
use cadrig.FreeCad.Host.{Host}
use cadrig.FreeCad.Apply.{is_invalid}
use cadrig.FreeCad.Monad.{Cad, pure, step, answer, call, each, ◌>>=◌, ◌>>◌}
use cadrig.Macros.Policy.{Parser, MacroDiagnostic, review}
use cadrig.Macros.Generation.{MacroArtifact, syntax_only}

-- What the executor uses besides `Host`: `app.ActiveDocument`, `app.listDocuments()`, `UndoMode = 1`,
-- `document.saveCopy(path)` with the test that the file is there and not empty, and the macro itself,
-- `exec(compile(code, ...))`.
pub record MacroHost (W Doc Obj : Type 0) : Type 0 where
  pub host : Host W Doc Obj
  pub active_document : W → Option Doc
  pub list_documents : W → List (String × Doc)
  pub enable_undo : W → Doc → Result (Unit {0}) × W
  pub save_copy : W → Doc → String → Result (Unit {0}) × W
  pub is_saved : W → Doc → String → Bool
  pub run_code : W → String → Result (Unit {0}) × W

pub data MacroStatus : Type 0 where
  applied failed : MacroStatus

pub record MacroReceipt : Type 0 where
  pub receipt_id : String
  pub status : MacroStatus
  pub macro_name : String
  pub document_name : Option String
  pub error : Option Error

-- How `execute` ends: `MacroExecutionError` without approval, for a syntax error or without a backup,
-- another exception, or a receipt.
pub data Ended : Type 0 where
  not_approved has_syntax_error no_backup : Ended
  escaped : Error → Ended
  returned : MacroReceipt → Ended

abbrev pub names : {Doc : Type 0} → List (String × Doc) → List String
names [] = []
names ((n, d) ∷ ds) = n ∷ names ds

module _ {W Doc Obj : Type 0} (app : MacroHost W Doc Obj) where
  -- `self._document_names()`
  abbrev pub document_names : W → List String
  document_names w = names (app.list_documents w)

  abbrev is_bad : W → Obj → Bool
  is_bad w o = any app.host.is_broken (app.host.states w o) || is_invalid (app.host.shape w o)

  -- The part of `_recompute_and_inspect` for one document
  abbrev recompute_document : Doc → Cad W (Unit {0})
  recompute_document d = do
    result ← call (λ w. app.host.recompute w d)
    step (if result then done tt else raised runtime_error)
    λ w. step (if any (is_bad w) (app.host.objects w d) then raised runtime_error else done tt) w

  abbrev values_of : List (String × Doc) → List Doc
  values_of [] = []
  values_of ((n, d) ∷ ds) = d ∷ values_of ds

  -- `_recompute_and_inspect()`
  unfoldable pub recompute_and_inspect : Cad W (Unit {0})
  recompute_and_inspect w = each recompute_document (values_of (app.list_documents w)) w

  -- What precedes the transaction on an active document
  abbrev prepare : Doc → String → Cad W (Unit {0})
  prepare d name = do
    mode ← answer (λ w. app.host.undo_mode w d)
    if eqb mode 0 then call (λ v. app.enable_undo v d) else pure tt
    call (λ w. app.host.open_transaction w d name)

  -- `compile`, `exec` and the inspection
  abbrev run_and_inspect : String → Cad W (Unit {0})
  run_and_inspect code = call (λ w. app.run_code w code) >> recompute_and_inspect

  -- How the `try` ends: the exception, and whether a transaction is open then
  pub data Tried : Type 0 where
    succeeded : Tried
    broke : Error → Bool → Tried

  abbrev ended_in : Bool → Step (Unit {0}) × W → Tried × W
  ended_in open_now (done u, w) = (succeeded, w)
  ended_in open_now (failure d, w) = (broke runtime_error open_now, w)
  ended_in open_now (raised e, w) = (broke e open_now, w)

  abbrev with_transaction : Doc → String → Step (Unit {0}) × W → Tried × W
  with_transaction d code (done u, w) =
      ended_in true ((run_and_inspect code >> call (λ v. app.host.commit_transaction v d)) w)
  with_transaction d code (failure x, w) = (broke runtime_error false, w)
  with_transaction d code (raised e, w) = (broke e false, w)

  -- The whole `try`
  unfoldable pub try_macro : Option Doc → MacroArtifact → W → Tried × W
  try_macro none a w = ended_in false (run_and_inspect a.code w)
  try_macro (some d) a w = with_transaction d a.code (prepare d a.name w)

  -- The abort of an open transaction; its exceptions are only written down.
  unfoldable pub abort_open : Option Doc → Bool → W → W
  abort_open (some d) true w =
      ((call (λ v. app.host.abort_transaction v d) >> call (λ v. app.host.recompute v d)) w).1
  abort_open _ _ w = w

  -- `_close_new_documents`: exceptions are only written down.
  unfoldable pub close_all : List String → W → W
  close_all [] w = w
  close_all (n ∷ ns) w = close_all ns (app.host.close_document w n).1

  abbrev pub close_new : List String → W → W
  close_new before w = close_all (keep (λ n. not (contains n before)) (document_names w)) w

  abbrev pub receipt :
      String → MacroArtifact → Option String → MacroStatus → Option Error → MacroReceipt
  receipt id a document status error = record {
    receipt_id = id;
    status = status;
    macro_name = a.name;
    document_name = document;
    error = error;
  }

  -- The receipt for the end of the `try`, after the cleanup of a macro that broke
  unfoldable pub conclude :
      String → MacroArtifact → Option Doc → Option String → List String → Tried × W → Ended × W
  conclude id a active document before (succeeded, w) =
      (returned (receipt id a document applied none), w)
  conclude id a active document before (broke e open_now, w) = (
    returned (receipt id a document failed (some e)),
    close_new before (abort_open active open_now w),
  )

  unfoldable pub run_macro : String → MacroArtifact → Option Doc → Option String → W → Ended × W
  unfolding conclude
  run_macro id a active document w =
      conclude id a active document (document_names w) (try_macro active a w)

  abbrev pub backed_up : String → MacroArtifact → Doc → String → Result (Unit {0}) × W → Ended × W
  backed_up id a d document (err e, w) = (escaped e, w)
  backed_up id a d document (ok u, w) =
      if app.is_saved w d id then run_macro id a (some d) (some document) w else (no_backup, w)

  -- `_backup` of an active document, and the run
  abbrev pub with_backup : String → MacroArtifact → Option Doc → W → Ended × W
  with_backup id a none w = run_macro id a none none w
  with_backup id a (some d) w = backed_up id a d (app.host.document_name w d) (app.save_copy w d id)

  abbrev pub run_reviewed : String → MacroArtifact → Result (List MacroDiagnostic) → W → Ended × W
  run_reviewed id a (err e) w = (escaped e, w)
  run_reviewed id a (ok ds) w =
      if not (null_list (syntax_only ds))
      then (has_syntax_error, w)
      else with_backup id a (app.active_document w) w

  -- `execute(artifact, approved=approved)`
  unfoldable pub execute : Parser → String → MacroArtifact → Bool → W → Ended × W
  unfolding run_macro
  execute parse id a approved w =
      if not approved then (not_approved, w) else run_reviewed id a (review parse a.code) w

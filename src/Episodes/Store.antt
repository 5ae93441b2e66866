-- ===== src/Episodes/Store.antt =====
-- `EpisodeContext` and `EpisodeStore` of episodes.py. A directory is its files by name with their
-- contents, and the store the directories by path. Writing is the parameter `Writer`: what `json.dumps`
-- gives for a payload, whether writing or copying a file raises, and whether `os.replace` does, and
-- what `shutil.rmtree` with `ignore_errors` leaves of a directory.
use cadrig.Base.{
  any, String, Bool, true, false, ◌&&◌, Option, none, some, List, [], ◌∷◌, Result, ok, err, ◌>>=◌,
  other_error, if◌then◌else◌, ◌||◌,
}
use cadrig.Base.Text.{is_blank}
use cadrig.Base.Dict
use cadrig.Base.Dict.{Dict}
use cadrig.Json.{Json}
use cadrig.Episodes.Redaction.{redact}
use cadrig.Episodes.Paths.{safe_parts, joinpath, append_text, path_text, newline}

pub data EpisodeSplit : Type 0 where
  training regression evaluation : EpisodeSplit

-- `split.value`
abbrev pub split_value : EpisodeSplit → String
split_value training = "training"
split_value regression = "regression"
split_value evaluation = "evaluation"

pub record EpisodeContext : Type 0 where
  pub split : EpisodeSplit
  pub task_id : Option String
  pub task_source : String
  pub dataset_revision : Option String
  pub task_license : Option String
  pub training_eligible : Bool

-- The `ValueError`s of `__post_init__`
pub data ContextFault : Type 0 where
  eligible_evaluation blank_label blank_source : ContextFault

abbrev is_evaluation : EpisodeSplit → Bool
is_evaluation evaluation = true
is_evaluation _ = false

-- `value is not None and not value.strip()`
abbrev blank_when_given : Option String → Bool
blank_when_given none = false
blank_when_given (some s) = is_blank s

-- `EpisodeContext.__post_init__`
unfoldable pub context_fault : EpisodeContext → Option ContextFault
context_fault c =
    if is_evaluation c.split && c.training_eligible
    then some eligible_evaluation
    else if blank_when_given c.task_id
        || blank_when_given c.dataset_revision
        || blank_when_given c.task_license
    then some blank_label
    else if is_blank c.task_source
    then some blank_source
    else none

abbrev pub Directory : Type 0
Directory = Dict String

abbrev pub empty_folder : Directory
empty_folder = []

abbrev pub Files : Type 0
Files = Dict Directory

pub record Writer : Type 0 where
  pub lower : String → String
  -- whether the platform reads a part of a path as a drive
  pub names_drive : String → Bool
  -- `json.dumps` with an indent, and on one line
  pub dumps : Json → Result String
  pub dumps_line : Json → Result String
  -- `mkdir` of a directory that is not there
  pub mkdir : String → Result (Unit {0})
  pub write : String → String → Result (Unit {0})
  pub copy : String → String → Result String
  pub replace : String → String → Result (Unit {0})
  pub rmtree : String → Option Directory

-- How `_record` ends: with the episode, with an `EpisodeStoreError`, or with another exception of the
-- two `mkdir` before its `try`.
pub data Recorded : Type 0 where
  recorded : String → Recorded
  already_there : Recorded
  not_persisted : Recorded
  escaped : Recorded

module _ (io : Writer) where
  -- `_write_json(staging / name, redact_secrets(payload))`
  abbrev write_json : Directory → String → Json → Result Directory
  write_json d name payload = do
    s ← io.dumps (redact io.lower payload)
    u ← io.write name (append_text s newline)
    ok (Dict.put d name (append_text s newline))

  -- `for name, payload in payloads.items()`
  unfoldable pub write_payloads : Directory → List (String × Json) → Result Directory
  write_payloads d [] = ok d
  write_payloads d ((name, payload) ∷ payloads) =
      write_json d name payload >>= λ e. write_payloads e payloads

  -- The lines of trace.jsonl, by `_write_trace`
  unfoldable pub trace_text : List Json → Result String
  trace_text [] = ok ""
  trace_text (event ∷ events) =
      let rest = trace_text events in
      do
        line ← io.dumps_line (redact io.lower event)
        lines ← rest
        ok (append_text line (append_text newline lines))

  -- A copy at a path with a drive goes elsewhere, which is taken to be outside of the store.
  abbrev put_copy : Directory → List String → String → Directory
  put_copy d parts content =
      if any io.names_drive parts
      then d
      else Dict.put d (path_text (joinpath io.names_drive ("artifacts" ∷ []) parts)) content

  -- One artifact of `_copy_artifacts`; `io.copy` raises for a source that is no file
  abbrev copy_artifact : Directory → String → String → Result Directory
  copy_artifact d logical_name source = elim (safe_parts logical_name) [
    | none ↦ err (other_error "EpisodeStoreError")
    | some parts ↦ io.copy logical_name source >>= λ content. ok (put_copy d parts content)
  ]

  -- `_copy_artifacts(staging / "artifacts", artifacts)`
  unfoldable pub copy_artifacts : Directory → Dict String → Result Directory
  copy_artifacts d [] = ok d
  copy_artifacts d ((name, source) ∷ artifacts) =
      copy_artifact d name source >>= λ e. copy_artifacts e artifacts

  -- The files of an episode; the manifest is made from the files before it
  unfoldable pub episode_files :
      List (String × Json) → List Json → Dict String → (Directory → Json) → Result Directory
  unfolding write_payloads trace_text copy_artifacts
  episode_files payloads events artifacts manifest = do
    d ← write_payloads [] payloads
    text ← trace_text events
    u ← io.write "trace.jsonl" text
    e ← copy_artifacts (Dict.put d "trace.jsonl" text) artifacts
    write_json e "episode.json" (manifest e)

  -- The staging directory after `shutil.rmtree(staging, ignore_errors=True)`
  abbrev pub cleared : Files → String → Option Directory → Files
  cleared s staging none = Dict.remove s staging
  cleared s staging (some d) = Dict.put s staging d

  -- `shutil.rmtree(staging, ignore_errors=True)` and the `EpisodeStoreError`
  abbrev pub abandoned : Files → String → Directory → Recorded × Files
  abandoned s staging d =
      (not_persisted, cleared (Dict.put s staging d) staging (io.rmtree staging))

  -- `os.replace(staging, destination)`
  abbrev pub published : Files → String → String → Directory → Result (Unit {0}) → Recorded × Files
  published s staging target d (err e) = abandoned s staging d
  published s staging target d (ok u) =
      (recorded target, Dict.put (Dict.remove (Dict.put s staging d) staging) target d)

  abbrev pub stored : Files → String → String → Result Directory → Recorded × Files
  stored s staging target (err e) = abandoned s staging []
  stored s staging target (ok d) = published s staging target d (io.replace staging target)

  -- `day_root.mkdir(parents=True, exist_ok=True)`, from the outermost of the folders on
  unfoldable pub make_folders : Files → List String → Result (Unit {0}) × Files
  make_folders s [] = (ok tt, s)
  make_folders s (f ∷ folders) =
      let on_new = make_folders (Dict.put s f empty_folder) folders in
      let on_old = make_folders s folders in
      if Dict.has s f then on_old else elim (io.mkdir f) [ err e ↦ (err e, s) | ok u ↦ on_new ]

  -- `staging.mkdir()` and what follows; it raises for a directory that is there.
  unfoldable pub stage : Files → String → String → Result Directory → Recorded × Files
  stage s staging target files =
      if Dict.has s staging
      then (escaped, s)
      else elim (io.mkdir staging) [ err e ↦ (escaped, s) | ok u ↦ stored s staging target files ]

  abbrev pub staged :
      Result (Unit {0}) × Files → String → String → Result Directory → Recorded × Files
  staged (err e, t) staging target files = (escaped, t)
  staged (ok u, t) staging target files = stage t staging target files

  -- `_record(...)`, with the paths of the folders above the episode (the root, the split and the day),
  -- of the staging directory and of the destination
  unfoldable pub record_episode :
      Files
      → List String
      → String
      → String
      → List (String × Json)
      → List Json
      → Dict String
      → (Directory → Json)
      → Recorded × Files
  unfolding episode_files make_folders stage
  record_episode s folders staging target payloads events artifacts manifest =
      if Dict.has s target
      then (already_there, s)
      else staged (make_folders s folders) staging target
          (episode_files payloads events artifacts manifest)

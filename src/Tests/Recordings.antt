-- ===== src/Tests/Recordings.antt =====
-- Episodes at concrete inputs.
use cadrig.Base.{
  String, ◌≡◌, refl, ◌≢◌, false, none, some, List, [], ◌∷◌, ◌==◌, ok, err, runtime_error,
}
use cadrig.Base.Text.{count, is_blank}
use cadrig.Base.Dict
use cadrig.Json.{Json, str, obj, end, field}
use cadrig.Episodes.Paths
use cadrig.Episodes.Paths.{safe_parts, joinpath, newline}
use cadrig.Episodes.Redaction
use cadrig.Episodes.Redaction.{redact}
use cadrig.Episodes.Store
use cadrig.Episodes.Store.{Directory, Files, Writer, recorded, not_persisted, record_episode}
use cadrig.Episodes.Secrecy.{Shows, redact-Shows}
use cadrig.Episodes.Immutability.{Written, record_keeps, record_fails, record-Written}

newline_line : count newline ≡ 1
newline_line = refl

abbrev secret : Json
secret = obj (field "model" (str "m") (field "api-key" (str "k") end))

key_removed :
    redact (λ s. s) secret ≡ obj (field "model" (str "m") (field "api-key" (str "[REDACTED]") end))
unfolding redact Redaction.is_secret is_blank
key_removed = refl

redact-Shows_example : Shows (λ s. s) secret (redact (λ s. s) secret)
redact-Shows_example = redact-Shows (λ s. s) secret

-- A drive is not refused.
drive_passes : safe_parts "D:/x.png" ≡ some ("D:" ∷ "x.png" ∷ [])
unfolding safe_parts Paths.parts_of
drive_passes = refl

drive_leaves : joinpath (λ p. p == "D:") ("a" ∷ []) ("D:" ∷ "x.png" ∷ []) ≡ "D:" ∷ "x.png" ∷ []
unfolding joinpath
drive_leaves = refl

abbrev writer : Writer
writer = record {
  lower = λ s. s;
  names_drive = λ p. false;
  mkdir = λ path. ok tt;
  dumps = λ j. ok "{}";
  dumps_line = λ j. ok "{}";
  write = λ name s. ok tt;
  copy = λ name source. ok source;
  replace = λ from to. ok tt;
  rmtree = λ path. none;
}

-- A writer on which the last step fails
abbrev failing_writer : Writer
failing_writer = record writer { replace = λ from to. err runtime_error }

abbrev old : Files
old = ("training/day/e0", ("episode.json", "{}") ∷ []) ∷ []

abbrev payloads : List (String × Json)
payloads = ("contract.json", secret) ∷ []

record_keeps_example :
    Dict.get
      (record_episode writer old
        ("training" ∷ "training/day" ∷ [])
        "training/day/.e1.tmp"
        "training/day/e1"
        payloads
        []
        []
        (λ d. secret)).1
      "training/day/e0"
    ≡ some (("episode.json", "{}") ∷ [])
unfolding Dict.get
record_keeps_example =
    record_keeps writer old ("training" ∷ "training/day" ∷ []) "training/day/.e1.tmp"
      "training/day/e1" payloads [] [] (λ d. secret) "training/day/e0" (("episode.json", "{}") ∷ [])
      refl

not_written :
    (record_episode failing_writer old
      ("training" ∷ "training/day" ∷ [])
      "training/day/.e1.tmp"
      "training/day/e1"
      payloads
      []
      []
      (λ d. secret)).0
    ≡ not_persisted
unfolding record_episode Store.make_folders Store.stage Store.episode_files Store.write_payloads
    Store.trace_text Store.copy_artifacts Dict.get Dict.put
not_written = refl

never_recorded :
    (t : String)
    → (record_episode failing_writer old
        ("training" ∷ "training/day" ∷ [])
        "training/day/.e1.tmp"
        "training/day/e1"
        payloads
        []
        []
        (λ d. secret)).0
      ≢ recorded t
never_recorded t h = absurd (cc (not_written, h))

record_fails_example :
    Dict.get
      (record_episode failing_writer old
        ("training" ∷ "training/day" ∷ [])
        "training/day/.e1.tmp"
        "training/day/e1"
        payloads
        []
        []
        (λ d. secret)).1
      "training/day/.e1.tmp"
    ≡ Dict.get old "training/day/.e1.tmp"
record_fails_example =
    record_fails failing_writer old ("training" ∷ "training/day" ∷ []) "training/day/.e1.tmp"
      "training/day/e1" payloads [] [] (λ d. secret) never_recorded "training/day/.e1.tmp" refl
      (λ e. refl)

new_recorded :
    (record_episode writer old
      ("training" ∷ "training/day" ∷ [])
      "training/day/.e1.tmp"
      "training/day/e1"
      payloads
      []
      []
      (λ d. secret)).0
    ≡ recorded "training/day/e1"
unfolding record_episode Store.make_folders Store.stage Store.episode_files Store.write_payloads
    Store.trace_text Store.copy_artifacts Dict.get Dict.put
new_recorded = refl

record-Written_example :
    Written writer old
      ("training" ∷ "training/day" ∷ [])
      "training/day/.e1.tmp"
      "training/day/e1"
      payloads
      []
      []
      (λ d. secret)
      "training/day/e1"
      (record_episode writer old
        ("training" ∷ "training/day" ∷ [])
        "training/day/.e1.tmp"
        "training/day/e1"
        payloads
        []
        []
        (λ d. secret))
record-Written_example =
    record-Written writer old ("training" ∷ "training/day" ∷ []) "training/day/.e1.tmp"
      "training/day/e1" payloads [] [] (λ d. secret) "training/day/e1" new_recorded

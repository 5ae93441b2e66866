-- ===== src/Macros/Generation.antt =====
-- `MacroArtifact` and `FreeCADMacroGenerator` of macros.py, with a model's reply as an argument. The
-- prompts are left out.
use Prim.Native.Char.{code}
use cadrig.Base.{
  ℕ, String, Bool, true, false, not, ◌&&◌, ◌||◌, Option, some, List, [], ◌∷◌, ◌==◌, keep, all, leb,
  eqb, Error, Result, ok, err, if◌then◌else◌,
}
use cadrig.Base.Text.{between, count, is_blank}
use cadrig.Base.Dict
use cadrig.Base.Dict.{Dict}
use cadrig.Json.{Json, bool, str, arr, obj, items, entries}
use cadrig.Contracts.{has_extras, has_missing, null_list}
use cadrig.Agent.{Reply, payload, not_json, model_failed}
use cadrig.Macros.Policy.{Parser, MacroDiagnostic, review}

-- `MacroGenerationError`, one constructor for each place that raises, and `review_raised` for an
-- exception of the review
pub data MacroFault : Type 0 where
  bad_name empty_description empty_code empty_intent bad_mode model_error no_json no_object :
      MacroFault
  unknown_fields missing_fields bad_assumptions no_strings : MacroFault
  syntax_errors unsafe : List MacroDiagnostic → MacroFault
  review_raised : Error → MacroFault

pub data Made (A : Type 0) : Type 0 where
  made : A → Made A
  rejected : MacroFault → Made A

infixl 5 ◌>>=◌
abbrev pub ◌>>=◌ : {A B : Type 0} → Made A → (A → Made B) → Made B
made a >>= next = next a
rejected f >>= next = rejected f

pub record MacroArtifact : Type 0 where
  pub name : String
  pub description : String
  pub code : String
  pub assumptions : List String
  pub diagnostics : List MacroDiagnostic
  pub metadata : Dict Json

abbrev is_letter : ℕ → Bool
is_letter c = between b'A' b'Z' c || between b'a' b'z' c

abbrev is_name_character : ℕ → Bool
is_name_character c = is_letter c || between b'0' b'9' c || eqb c b' ' || eqb c b'_' || eqb c b'-'

abbrev is_name_text : String → Bool
is_name_text String.[] = true
is_name_text (String.◌∷◌ c s) = is_name_character (code c) && is_name_text s

-- `re.fullmatch(r"[A-Za-z][A-Za-z0-9 _-]{0,79}", s)`
abbrev pub is_macro_name : String → Bool
is_macro_name String.[] = false
is_macro_name (String.◌∷◌ c s) = is_letter (code c) && is_name_text s && leb (count s) 79

-- `MacroArtifact(...)` with `__post_init__`
unfoldable pub make_artifact : MacroArtifact → Made MacroArtifact
make_artifact a =
    if not (is_macro_name a.name)
    then rejected bad_name
    else if is_blank a.description
    then rejected empty_description
    else if is_blank a.code
    then rejected empty_code
    else made a

abbrev pub macro_fields : List String
macro_fields = "name" ∷ "description" ∷ "code" ∷ "assumptions" ∷ []

abbrev is_text : Json → Bool
is_text (str s) = true
is_text _ = false

abbrev text_of : Json → String
text_of (str s) = s
text_of _ = ""

abbrev texts_of : List Json → List String
texts_of [] = []
texts_of (j ∷ js) = text_of j ∷ texts_of js

-- `payload["assumptions"]`, a list of texts
abbrev pub assumptions_of : Option Json → Made (List String)
assumptions_of (some (arr xs)) =
    if all is_text (items xs) then made (texts_of (items xs)) else rejected bad_assumptions
assumptions_of _ = rejected bad_assumptions

-- A field that is a text
abbrev pub text_field : Option Json → Made String
text_field (some (str s)) = made s
text_field _ = rejected no_strings

-- `[item for item in diagnostics if item.code == "SYNTAX_ERROR"]`
abbrev pub syntax_only : List MacroDiagnostic → List MacroDiagnostic
syntax_only ds = keep (λ d. d.code == "SYNTAX_ERROR") ds

abbrev pub of_review : Result (List MacroDiagnostic) → Made (List MacroDiagnostic)
of_review (err e) = rejected (review_raised e)
of_review (ok ds) = made ds

-- The two checks of the diagnostics
unfoldable pub check_review : Bool → List MacroDiagnostic → Made (List MacroDiagnostic)
check_review safe ds =
    if not (null_list (syntax_only ds))
    then rejected (syntax_errors (syntax_only ds))
    else if safe && not (null_list ds)
    then rejected (unsafe ds)
    else made ds

abbrev pub metadata_of : String → String → Dict Json
metadata_of version mode =
    ("freecad_version", str version)
    ∷ ("policy_mode", str mode)
    ∷ ("auto_executed", bool false)
    ∷ []

module _ (parse : Parser) where
  unfoldable pub artifact_of : String → String → Dict Json → Made MacroArtifact
  unfolding make_artifact check_review
  artifact_of version mode d = do
    assumptions ← assumptions_of (Dict.get d "assumptions")
    name ← text_field (Dict.get d "name")
    description ← text_field (Dict.get d "description")
    code ← text_field (Dict.get d "code")
    found ← of_review (review parse code)
    diagnostics ← check_review (mode == "safe") found
    make_artifact (record {
      name = name;
      description = description;
      code = code;
      assumptions = assumptions;
      diagnostics = diagnostics;
      metadata = metadata_of version mode;
    })

  abbrev pub of_reply : String → String → Reply → Made MacroArtifact
  of_reply version mode model_failed = rejected model_error
  of_reply version mode not_json = rejected no_json
  of_reply version mode (payload (obj fs)) =
      let d = entries fs in
      if has_extras macro_fields d
      then rejected unknown_fields
      else if has_missing macro_fields d
      then rejected missing_fields
      else artifact_of version mode d
  of_reply version mode (payload j) = rejected no_object

  -- `generate(intent, ...)`
  unfoldable pub generate : String → String → String → Reply → Made MacroArtifact
  unfolding artifact_of
  generate intent version mode reply =
      if is_blank intent
      then rejected empty_intent
      else if not (mode == "safe" || mode == "review")
      then rejected bad_mode
      else of_reply version mode reply

  -- `repair(...)`, where `request` is the text of the request for a repair
  unfoldable pub repair : String → MacroArtifact → String → String → Reply → Made MacroArtifact
  unfolding generate
  repair request previous version mode reply = do
    repaired ← generate request version mode reply
    make_artifact
        (record repaired { metadata = Dict.put repaired.metadata "repair_of" (str previous.name) })

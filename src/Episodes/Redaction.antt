-- ===== src/Episodes/Redaction.antt =====
-- `redact_secrets` of episodes.py on JSON values. `lower` is Python's `str.lower`.
use Prim.Native.Char.{code}
use cadrig.Base.{String, Bool, ◌||◌, List, [], ◌∷◌, eqb, contains, if◌then◌else◌}
use cadrig.Base.Text.{is_space, is_blank, ends_with}
use cadrig.Json.{Json, null, bool, int, float, str, arr, obj, Items, nil, cons, Fields, end, field}

-- `_SECRET_KEYS`
abbrev pub secret_keys : List String
secret_keys =
    "api_key" ∷ "apikey" ∷ "authorization" ∷ "credential" ∷ "credentials" ∷ "password" ∷ "secret"
    ∷ "token" ∷ "access_token" ∷ "refresh_token" ∷ []

-- `s.lstrip()`, `s.rstrip()` and `s.replace("-", "_")`
abbrev strip_left : String → String
strip_left String.[] = ""
strip_left (String.◌∷◌ c s) =
    let rest = strip_left s in if is_space (code c) then rest else String.◌∷◌ c s

abbrev strip_right : String → String
strip_right String.[] = ""
strip_right (String.◌∷◌ c s) =
    let rest = strip_right s in if is_blank (String.◌∷◌ c s) then "" else String.◌∷◌ c rest

abbrev dashes : String → String
dashes String.[] = ""
dashes (String.◌∷◌ c s) =
    let rest = dashes s in if eqb (code c) b'-' then String.◌∷◌ "_" rest else String.◌∷◌ c rest

abbrev pub redacted : Json
redacted = str "[REDACTED]"

module _ (lower : String → String) where
  -- `str(key).strip().lower().replace("-", "_")`
  abbrev normalized : String → String
  normalized key = dashes (lower (strip_right (strip_left key)))

  -- `normalized in _SECRET_KEYS or normalized.endswith("_api_key")`
  unfoldable pub is_secret : String → Bool
  is_secret key = contains (normalized key) secret_keys || ends_with (normalized key) "_api_key"

  -- `redact_secrets(value)`
  unfoldable mutual
    pub redact : Json → Json
    redact (arr xs) = arr (redact_items xs)
    redact (obj fs) = obj (redact_fields fs)
    redact null = null
    redact (bool b) = bool b
    redact (int n) = int n
    redact (float x) = float x
    redact (str s) = str s

    pub redact_items : Items → Items
    redact_items nil = nil
    redact_items (cons x xs) = cons (redact x) (redact_items xs)

    pub redact_fields : Fields → Fields
    redact_fields end = end
    redact_fields (field k v fs) =
        let rest = redact_fields fs in
        let value = redact v in field k (if is_secret k then redacted else value) rest

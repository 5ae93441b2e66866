-- ===== src/FreeCad/Names.antt =====
-- `_SUPPORTED`, `_FEATURE_ACTIONS`, the pattern for document ids and `_internal_name` of
-- src/cadrig/adapters/freecad.py.
use Prim.Native.Char.{code}
use cadrig.Base.{
  ℕ, zero, suc, String, Bool, true, false, ◌&&◌, ◌||◌, List, [], ◌∷◌, eqb, if◌then◌else◌,
}
use cadrig.Base.Text.{between}
use cadrig.Contracts.{
  ActionKind, create_document, create_sketch, add_sketch_geometry, add_constraint, add_box,
  add_cylinder, extrude, boolean_cut, set_parameter, delete_feature,
}

-- `_SUPPORTED`
abbrev pub supported : List ActionKind
supported =
    create_document ∷ create_sketch ∷ add_sketch_geometry ∷ add_constraint ∷ add_box ∷ add_cylinder
    ∷ extrude ∷ boolean_cut ∷ set_parameter ∷ delete_feature ∷ []

-- `_FEATURE_ACTIONS`
abbrev pub feature_actions : List ActionKind
feature_actions = create_sketch ∷ add_box ∷ add_cylinder ∷ extrude ∷ boolean_cut ∷ []

-- `[A-Za-z_]` and `[A-Za-z0-9_]`
abbrev pub is_initial : ℕ → Bool
is_initial c = between b'A' b'Z' c || between b'a' b'z' c || eqb c b'_'

abbrev pub is_digit : ℕ → Bool
is_digit c = between b'0' b'9' c

abbrev pub is_word : ℕ → Bool
is_word c = is_initial c || is_digit c

abbrev pub is_word_text : String → Bool
is_word_text String.[] = true
is_word_text (String.◌∷◌ c s) = is_word (code c) && is_word_text s

-- `re.fullmatch(r"[A-Za-z_][A-Za-z0-9_]*", s)`
abbrev pub is_document_id : String → Bool
is_document_id String.[] = false
is_document_id (String.◌∷◌ c s) = is_initial (code c) && is_word_text s

-- `re.sub(r"[^A-Za-z0-9_]", "_", s)`
abbrev pub substitute : String → String
substitute String.[] = ""
substitute (String.◌∷◌ c s) =
    let rest = substitute s in if is_word (code c) then String.◌∷◌ c rest else String.◌∷◌ "_" rest

-- `s[:n]`
abbrev pub shorten : ℕ → String → String
shorten zero s = ""
shorten (suc n) String.[] = ""
shorten (suc n) (String.◌∷◌ c s) = String.◌∷◌ c (shorten n s)

-- `not s or s[0].isdigit()`; after the substitution a digit is one of the ASCII digits
abbrev pub needs_prefix : String → Bool
needs_prefix String.[] = true
needs_prefix (String.◌∷◌ c s) = is_digit (code c)

-- `f"Feature_{s}"`
abbrev pub with_prefix : String → String
with_prefix s = String.◌∷◌ "F" (
    String.◌∷◌ "e" (
      String.◌∷◌ "a"
        (String.◌∷◌ "t" (String.◌∷◌ "u" (String.◌∷◌ "r" (String.◌∷◌ "e" (String.◌∷◌ "_" s)))))))

unfoldable pub name_of_word : String → String
name_of_word s = shorten 96 (if needs_prefix s then with_prefix s else s)

-- `_internal_name`
unfoldable pub internal_name : String → String
unfolding name_of_word
internal_name feature_id = name_of_word (substitute feature_id)

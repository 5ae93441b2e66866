-- ===== src/Contracts/Payload.antt =====
-- What the `from_dict` methods of contracts.py and design_contracts.py share: `set(payload) - allowed`,
-- `required - set(payload)`, `payload.get`, and the exceptions for a payload that is no object.
use cadrig.Base.{
  String, Bool, true, false, not, ◌||◌, none, some, List, [], ◌∷◌, ◌==◌, all, any, keep, contains,
  if◌then◌else◌, Error, Fault, contract_error, type_error,
}
use cadrig.Base.Dict
use cadrig.Base.Dict.{Dict}
use cadrig.Json.{Json, null, bool, int, float, str, arr, obj, items}

abbrev pub null_list {ℓ} : {A : Type ℓ} → List A → Bool
null_list [] = true
null_list (x ∷ xs) = false

-- `set(payload) - allowed` is not empty
abbrev pub has_extras : List String → Dict Json → Bool
has_extras allowed d = any (λ k. not (contains k allowed)) (Dict.keys d)

-- `required - set(payload)` is not empty
abbrev pub has_missing : List String → Dict Json → Bool
has_missing required d = any (λ k. not (Dict.has d k)) required

-- `payload.get(k, j)`
abbrev pub get_or : Dict Json → String → Json → Json
get_or d k j = elim (Dict.get d k) [ none ↦ j | some v ↦ v ]

abbrev is_str : Json → Bool
is_str (str s) = true
is_str _ = false

abbrev is_number : Json → Bool
is_number (bool b) = true
is_number (int n) = true
is_number (float x) = true
is_number _ = false

abbrev is_null : Json → Bool
is_null null = true
is_null _ = false

abbrev unhashable : Json → Bool
unhashable (arr xs) = true
unhashable (obj fs) = true
unhashable _ = false

abbrev disallowed : List String → Json → Bool
disallowed allowed (str s) = not (contains s allowed)
disallowed allowed _ = true

-- `set(payload)`, `sorted(extras)` and `payload["kind"]` of a list: its members are hashed, those
-- that are no field names are sorted if there are any, and a list has no text as an index.
array_error : List String → Fault → List Json → Error
array_error allowed unknown xs =
    let extras = keep (disallowed allowed) xs in
    if any unhashable xs
    then type_error
    else if null_list extras
    then type_error
    else if all is_str extras || all is_number extras || all is_null extras
    then contract_error unknown
    else type_error

-- What `from_dict` raises for a payload that is no object. The characters of a text are no field
-- names, and what is neither an object, a list nor a text cannot be iterated over.
unfoldable pub foreign_error : List String → Fault → Json → Error
unfolding array_error
foreign_error allowed unknown (arr xs) = array_error allowed unknown (items xs)
foreign_error allowed unknown (str s) = if s == "" then type_error else contract_error unknown
foreign_error allowed unknown _ = type_error

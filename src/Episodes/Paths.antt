-- ===== src/Episodes/Paths.antt =====
-- `_copy_artifacts` and `_merge_artifacts` of episodes.py: the names of artifacts.
use Prim.Native.Char.{code}
use cadrig.Base.{
  String, Bool, not, ◌||◌, Option, none, some, List, [], ◌∷◌, ◌++◌, ◌==◌, eqb, any, keep, contains,
  if◌then◌else◌,
}
use cadrig.Base.Text.{starts_with}
use cadrig.Base.Dict
use cadrig.Base.Dict.{Dict, keys}
use cadrig.Contracts.{null_list}

abbrev pub append_text : String → String → String
append_text String.[] t = t
append_text (String.◌∷◌ c s) t = String.◌∷◌ c (append_text s t)

-- `"/".join(parts)`
abbrev pub path_text : List String → String
path_text [] = ""
path_text (p ∷ []) = p
path_text (p ∷ q ∷ parts) = append_text p (append_text "/" (path_text (q ∷ parts)))

-- The text of a line break
abbrev pub newline : String
newline = "\n"

-- `s.replace("\\", "/")`
abbrev pub slashes : String → String
slashes String.[] = ""
slashes (String.◌∷◌ c s) =
    let rest = slashes s in if eqb (code c) 92 then String.◌∷◌ "/" rest else String.◌∷◌ c rest

-- A character before the first part of a split
abbrev onto_first : Prim.Native.Char.Char → List String → List String
onto_first c [] = String.◌∷◌ c "" ∷ []
onto_first c (p ∷ parts) = String.◌∷◌ c p ∷ parts

-- `s.split("/")`
abbrev pub split_path : String → List String
split_path String.[] = "" ∷ []
split_path (String.◌∷◌ c s) =
    let rest = split_path s in if eqb (code c) b'/' then "" ∷ rest else onto_first c rest

-- `PurePosixPath(s).parts` of a path that is not absolute: empty parts and dots are dropped.
unfoldable pub parts_of : String → List String
parts_of s = keep (λ p. not (p == "" || p == ".")) (split_path s)

-- `logical.parts` of a name, or `EpisodeStoreError`
unfoldable pub safe_parts : String → Option (List String)
safe_parts logical_name =
    let s = slashes logical_name in
    let parts = parts_of s in
    if starts_with s "/" || null_list parts || contains ".." parts then none else some parts

-- `root.joinpath(*logical.parts)`, as the lists of the parts of the paths. A part that the platform
-- reads as a drive, as Windows does with `D:`, replaces what is before it.
unfoldable pub joinpath : (String → Bool) → List String → List String → List String
joinpath names_drive root [] = root
joinpath names_drive root (p ∷ parts) =
    let below = joinpath names_drive (root ++ (p ∷ [])) parts in
    let elsewhere = joinpath names_drive (p ∷ []) parts in
    if names_drive p then elsewhere else below

module _ {ℓ} {A : Type ℓ} where
  -- `{**dict(captured), **dict(supplied)}`
  abbrev pub joined : Dict A → Dict A → Dict A
  joined d [] = d
  joined d ((k, v) ∷ supplied) = joined (Dict.put d k v) supplied

  -- `set(captured) & set(supplied)` is not empty
  abbrev pub overlaps : Dict A → Dict A → Bool
  overlaps captured supplied = any (λ k. contains k (keys captured)) (keys supplied)

  -- `_merge_artifacts(captured, supplied)`: `none` is `EpisodeStoreError`. An empty dictionary stands
  -- for `None`, since both are false.
  unfoldable pub merge_artifacts : Dict A → Dict A → Option (Dict A)
  merge_artifacts captured supplied =
      if overlaps captured supplied then none else some (joined captured supplied)

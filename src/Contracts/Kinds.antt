-- ===== src/Contracts/Kinds.antt =====
-- `ActionKind` and `ExecutionStatus` of contracts.py.
use cadrig.Base.{
  String, ◌≡◌, arith, Bool, true, false, Option, none, some, List, [], ◌∷◌, ◌||◌, ◌==◌,
  if◌then◌else◌,
}
use mathlib.Core.Logic.{ite, if_neg}

pub data ActionKind : Type 0 where
  create_document create_sketch add_sketch_geometry add_constraint add_box add_cylinder extrude
        revolve boolean_cut fillet chamfer pattern_kind set_parameter delete_feature save_document
        export_document :
      ActionKind

-- `kind.value`
abbrev pub kind_value : ActionKind → String
kind_value create_document = "create_document"
kind_value create_sketch = "create_sketch"
kind_value add_sketch_geometry = "add_sketch_geometry"
kind_value add_constraint = "add_constraint"
kind_value add_box = "add_box"
kind_value add_cylinder = "add_cylinder"
kind_value extrude = "extrude"
kind_value revolve = "revolve"
kind_value boolean_cut = "boolean_cut"
kind_value fillet = "fillet"
kind_value chamfer = "chamfer"
kind_value pattern_kind = "pattern"
kind_value set_parameter = "set_parameter"
kind_value delete_feature = "delete_feature"
kind_value save_document = "save_document"
kind_value export_document = "export_document"

abbrev all_kinds : List ActionKind
all_kinds =
    create_document ∷ create_sketch ∷ add_sketch_geometry ∷ add_constraint ∷ add_box ∷ add_cylinder
    ∷ extrude ∷ revolve ∷ boolean_cut ∷ fillet ∷ chamfer ∷ pattern_kind ∷ set_parameter
    ∷ delete_feature ∷ save_document ∷ export_document ∷ []

find_kind : String → List ActionKind → Option ActionKind
find_kind s [] = none
find_kind s (k ∷ ks) = if kind_value k == s then some k else find_kind s ks

-- `ActionKind(value)` of a text; `none` is `ValueError`.
unfoldable pub kind_of : String → Option ActionKind
unfolding find_kind
kind_of s = find_kind s all_kinds

pub ActionKind-discrete : Discrete ActionKind
ActionKind-discrete = hlevel

-- `a is b`, `a == b`
unfoldable pub same_kind : ActionKind → ActionKind → Bool
unfolding ActionKind-discrete
same_kind a b = ite (ActionKind-discrete a b) true false

pub same_kind-eq : (a b : ActionKind) → same_kind a b ≡ true → a ≡ b
unfolding same_kind
same_kind-eq a b h = elim (ActionKind-discrete a b) [
  | yes p ↦ p
  | no p ↦ absurd (ground (arith, h, if_neg (ActionKind-discrete a b) p true false))
]

-- `kind in kinds`
unfoldable pub supports : List ActionKind → ActionKind → Bool
unfolding same_kind
supports [] k = false
supports (j ∷ js) k = same_kind k j || supports js k

pub data ExecutionStatus : Type 0 where
  applied dry_run refused rolled_back : ExecutionStatus

-- `status.value`
abbrev pub status_value : ExecutionStatus → String
status_value applied = "applied"
status_value dry_run = "dry_run"
status_value refused = "refused"
status_value rolled_back = "rolled_back"

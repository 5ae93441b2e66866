-- ===== src/Macros/Policy.antt =====
-- `MacroPolicy` of macros.py. Python's parser is no part of this repository: a syntax tree is the list
-- of the nodes that `ast.walk` visits, and `Parser` gives it for a text, or an exception.
use Prim.Native.Char.{code}
use cadrig.Base.{
  ℕ, String, Option, none, some, List, [], ◌∷◌, ◌++◌, eqb, contains, Error, Result, ok, err,
  if◌then◌else◌,
}

-- `node.func` of a call
pub data Function : Type 0 where
  name attribute : String → Function
  computed : Function

-- A node with its line; an `Import` has the names of its aliases, an `ImportFrom` its module.
pub data Node : Type 0 where
  import_names : List String → ℕ → Node
  import_from : Option String → ℕ → Node
  call : Function → ℕ → Node
  attribute_of : String → ℕ → Node
  other : Node

-- How `ast.parse` ends. Other exceptions than `SyntaxError` are possible, such as the `ValueError` for
-- a null byte before Python 3.12.
pub data Parsed : Type 0 where
  parsed : List Node → Parsed
  syntax_error : Parsed
  parser_raised : Error → Parsed

abbrev pub Parser : Type 0
Parser = String → Parsed

pub record MacroDiagnostic : Type 0 where
  pub code : String
  pub line : Option ℕ

-- `_ALLOWED_IMPORTS`, `_DANGEROUS_CALLS` and `_DANGEROUS_ATTRIBUTES`
abbrev pub allowed_imports : List String
allowed_imports =
    "Draft" ∷ "FreeCAD" ∷ "FreeCADGui" ∷ "Import" ∷ "Mesh" ∷ "Part" ∷ "PartDesign" ∷ "Path"
    ∷ "PySide" ∷ "PySide2" ∷ "PySide6" ∷ "Sketcher" ∷ "TechDraw" ∷ "math" ∷ []

abbrev pub dangerous_calls : List String
dangerous_calls =
    "__import__" ∷ "compile" ∷ "eval" ∷ "exec" ∷ "open" ∷ "popen" ∷ "remove" ∷ "rmtree" ∷ "run"
    ∷ "spawn" ∷ "system" ∷ "unlink" ∷ "urlopen" ∷ []

abbrev pub dangerous_attributes : List String
dangerous_attributes =
    "__bases__" ∷ "__builtins__" ∷ "__class__" ∷ "__globals__" ∷ "__mro__" ∷ "__subclasses__" ∷ []

-- `module.split(".", 1)[0]`
unfoldable pub root_of : String → String
root_of String.[] = ""
root_of (String.◌∷◌ c s) =
    let rest = root_of s in if eqb (code c) b'.' then "" else String.◌∷◌ c rest

abbrev pub diagnostic : String → ℕ → MacroDiagnostic
diagnostic code line = record { code = code; line = some line }

-- `_check_import(module, line, diagnostics)`
unfoldable pub check_import : String → ℕ → List MacroDiagnostic
check_import module_name line =
    if contains (root_of module_name) allowed_imports
    then []
    else diagnostic "UNSAFE_IMPORT" line ∷ []

abbrev pub check_imports : List String → ℕ → List MacroDiagnostic
check_imports [] line = []
check_imports (m ∷ names) line = check_import m line ++ check_imports names line

-- `_call_name(function)`
abbrev pub call_name : Function → Option String
call_name (name s) = some s
call_name (attribute s) = some s
call_name computed = none

abbrev pub check_call : Option String → ℕ → List MacroDiagnostic
check_call none line = []
check_call (some s) line =
    if contains s dangerous_calls then diagnostic "DANGEROUS_CALL" line ∷ [] else []

-- `node.module or ""`
abbrev pub module_of : Option String → String
module_of none = ""
module_of (some m) = m

-- The diagnostics of a node
unfoldable pub review_node : Node → List MacroDiagnostic
review_node (import_names names line) = check_imports names line
review_node (import_from m line) = check_import (module_of m) line
review_node (call f line) = check_call (call_name f) line
review_node (attribute_of s line) =
    if contains s dangerous_attributes then diagnostic "DANGEROUS_INTROSPECTION" line ∷ [] else []
review_node other = []

unfoldable pub review_nodes : List Node → List MacroDiagnostic
review_nodes [] = []
review_nodes (n ∷ nodes) = review_node n ++ review_nodes nodes

-- `review(code)`
unfoldable pub review : Parser → String → Result (List MacroDiagnostic)
unfolding review_nodes
review parse code = elim (parse code) [
  | syntax_error ↦ ok (record { code = "SYNTAX_ERROR"; line = none } ∷ [])
  | parser_raised e ↦ err e
  | parsed nodes ↦ ok (review_nodes nodes)
]

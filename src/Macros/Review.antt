-- ===== src/Macros/Review.antt =====
-- What the review of macros.py finds, against a description of harmless nodes.
use cadrig.Base.{
  ℕ, String, ◌≡◌, refl, ◌↔◌, ◌⊎◌, inl, inr, ap, Error, ok, Bool, true, false, List, [], ◌∷◌, ◌++◌,
  contains, All, if◌then◌else◌,
}
use cadrig.Macros.Policy.{
  Parsed, parsed, syntax_error, parser_raised, name, attribute, computed, Node, import_names,
  import_from, call, attribute_of, other, Parser, MacroDiagnostic, diagnostic, allowed_imports,
  dangerous_calls, dangerous_attributes, root_of, module_of, check_import, check_imports,
  review_node, review_nodes, review,
}

-- The top-level package of an import is one of FreeCAD's.
abbrev pub IsAllowed : String → Type 0
IsAllowed m = contains (root_of m) allowed_imports ≡ true

-- A node that imports only allowed packages, calls no dangerous name, and reads no dangerous attribute.
abbrev pub Harmless : Node → Type 0
Harmless (import_names names line) = All IsAllowed names
Harmless (import_from m line) = IsAllowed (module_of m)
Harmless (call (name s) line) = contains s dangerous_calls ≡ false
Harmless (call (attribute s) line) = contains s dangerous_calls ≡ false
Harmless (call computed line) = Unit
Harmless (attribute_of s line) = contains s dangerous_attributes ≡ false
Harmless other = Unit

append_nil {ℓ} : {A : Type ℓ} (xs ys : List A) → xs ++ ys ≡ [] → (xs ≡ []) × (ys ≡ [])
append_nil [] ys h = (refl, h)
append_nil (x ∷ xs) ys h = absurd (cc)

if_empty : (b : Bool) (d : MacroDiagnostic) → ((if b then [] else d ∷ []) ≡ []) ↔ (b ≡ true)
if_empty true d = (λ h. refl, λ h. refl)
if_empty false d = (λ h. absurd (cc), λ h. absurd (cc))

if_found : (b : Bool) (d : MacroDiagnostic) → ((if b then d ∷ [] else []) ≡ []) ↔ (b ≡ false)
if_found true d = (λ h. absurd (cc), λ h. absurd (cc))
if_found false d = (λ h. refl, λ h. refl)

check_import-nil : (m : String) (line : ℕ) → (check_import m line ≡ []) ↔ IsAllowed m
unfolding check_import
check_import-nil m line =
    if_empty (contains (root_of m) allowed_imports) (diagnostic "UNSAFE_IMPORT" line)

check_imports-nil :
    (names : List String) (line : ℕ) → (check_imports names line ≡ []) ↔ All IsAllowed names
check_imports-nil [] line = (λ h. tt, λ h. refl)
check_imports-nil (m ∷ names) line = (
  λ h.
      let (p, q) = append_nil (check_import m line) (check_imports names line) h in
      ((check_import-nil m line).0 p, (check_imports-nil names line).0 q),
  λ h. rw ((check_import-nil m line).1 h.0) ((check_imports-nil names line).1 h.1),
)

review_node-nil : (n : Node) → (review_node n ≡ []) ↔ Harmless n
unfolding review_node
review_node-nil (import_names names line) = check_imports-nil names line
review_node-nil (import_from m line) = check_import-nil (module_of m) line
review_node-nil (call (name s) line) =
    if_found (contains s dangerous_calls) (diagnostic "DANGEROUS_CALL" line)
review_node-nil (call (attribute s) line) =
    if_found (contains s dangerous_calls) (diagnostic "DANGEROUS_CALL" line)
review_node-nil (call computed line) = (λ h. tt, λ h. refl)
review_node-nil (attribute_of s line) =
    if_found (contains s dangerous_attributes) (diagnostic "DANGEROUS_INTROSPECTION" line)
review_node-nil other = (λ h. tt, λ h. refl)

pub review_nodes-nil : (nodes : List Node) → (review_nodes nodes ≡ []) ↔ All Harmless nodes
unfolding review_nodes
review_nodes-nil [] = (λ h. tt, λ h. refl)
review_nodes-nil (n ∷ nodes) = (
  λ h.
      let (p, q) = append_nil (review_node n) (review_nodes nodes) h in
      ((review_node-nil n).0 p, (review_nodes-nil nodes).0 q),
  λ h. rw ((review_node-nil n).1 h.0) ((review_nodes-nil nodes).1 h.1),
)

-- The text parses, and all nodes of its tree are harmless.
abbrev pub HarmlessTree : Parsed → Type 0
HarmlessTree (parsed nodes) = All Harmless nodes
HarmlessTree syntax_error = ⊥
HarmlessTree (parser_raised e) = ⊥

pub Parsed-cases :
    (p : Parsed)
    → ((nodes : List Node) × (p ≡ parsed nodes))
      ⊎ ((p ≡ syntax_error) ⊎ ((e : Error) × (p ≡ parser_raised e)))
Parsed-cases (parsed nodes) = inl (nodes, refl)
Parsed-cases syntax_error = inr (inl refl)
Parsed-cases (parser_raised e) = inr (inr (e, refl))

-- The review has no diagnostics exactly when the text parses, every import is of an allowed package, no
-- call names a dangerous function, directly or as an attribute, and no attribute is a dangerous one.
pub review-nil :
    (parse : Parser) (code : String) → (review parse code ≡ ok []) ↔ HarmlessTree (parse code)
unfolding review
review-nil parse code = elim (Parsed-cases (parse code)) [
  | inl (nodes, e) ↦
      rw (e, review)
        (λ h. (review_nodes-nil nodes).0 (cc), λ h. ap ok ((review_nodes-nil nodes).1 h))
  | inr (inl e) ↦ rw (e, review) (λ h. absurd (cc), λ h. absurd h)
  | inr (inr (x, e)) ↦ rw (e, review) (λ h. absurd (cc), λ h. absurd h)
]

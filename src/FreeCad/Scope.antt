-- ===== src/FreeCad/Scope.antt =====
-- What the actions of a plan that `validate` of freecad.py accepts refer to.
use cadrig.Base.{
  String, ◌≡◌, ◌≢◌, eq_iff, not, refl, sym, subst, ◌⊎◌, inl, inr, true, false, Bool-cases, Option,
  none, some, List, [], ◌∷◌, contains, arith, if◌then◌else◌,
}
use cadrig.Base.Text.{is_blank}
use cadrig.Base.Dict
use cadrig.Json.{str, FloatOps}
use cadrig.Contracts.{
  Action, ActionKind, create_document, create_sketch, add_sketch_geometry, add_constraint, add_box,
  add_cylinder, extrude, revolve, boolean_cut, fillet, chamfer, pattern_kind, set_parameter,
  delete_feature, save_document, export_document, Diagnostic, same_kind, same_kind-eq, supports,
}
use cadrig.Steps.{Step, done, failure, raised, fail, ◌>>=◌, >>=-eq-done, Step-cases}
use cadrig.FreeCad.Names.{supported, feature_actions}
use cadrig.FreeCad.Parameters.{required_string}
use cadrig.FreeCad.Preflight.{
  preflight, check_feature, check_target, check_tool, same_target, check_kind, target_actions,
  unknown_target,
}
use cadrig.FreeCad.Validate.{check_action, check_actions, known_after, new_id, without_target}

-- A feature that an action creates has a text as its id, which is not known yet.
abbrev pub Introduces : Action → List String → Type 0
Introduces a known =
    (supports feature_actions a.kind ≡ false)
    ⊎ ((i : String) × (Dict.get a.parameters "feature_id" ≡ some (str i))
        × (is_blank i ≡ false)
        × (contains i known ≡ false))

-- A feature that an action changes is known.
abbrev pub Targets : Action → List String → Type 0
Targets a known =
    (supports target_actions a.kind ≡ false)
    ⊎ ((t : String) × (a.target_id ≡ some t) × (contains t known ≡ true))

-- The tool of a cut is another known feature than the one that is cut.
abbrev pub Tools : Action → List String → Type 0
Tools a known =
    (a.kind ≢ boolean_cut)
    ⊎ ((i : String) × (Dict.get a.parameters "tool_id" ≡ some (str i))
        × (is_blank i ≡ false)
        × (contains i known ≡ true)
        × (a.target_id ≢ some i))

-- The features that are there after an action of a kind: one more with the action's id, the target
-- deleted, or the same.
abbrev there_after : ActionKind → Action → List String → List String
there_after create_sketch a known = new_id a ∷ known
there_after add_box a known = new_id a ∷ known
there_after add_cylinder a known = new_id a ∷ known
there_after extrude a known = new_id a ∷ known
there_after boolean_cut a known = new_id a ∷ known
there_after delete_feature a known = without_target a.target_id known
there_after _ a known = known

-- Every action is of a supported kind and refers to what is known when it runs.
abbrev pub Scoped : List String → List Action → Type 0
Scoped known [] = Unit
Scoped known (a ∷ actions) =
    (supports supported a.kind ≡ true)
    × Introduces a known
    × Targets a known
    × Tools a known
    × Scoped (there_after a.kind a known) actions

pub required_string-done :
    (a : Action) (name : String) {i : String}
    → required_string a name ≡ done i
    → (Dict.get a.parameters name ≡ some (str i)) × (is_blank i ≡ false)
unfolding required_string
required_string-done a name h = (ground arith, ground arith)

new_feature :
    (a : Action) (known : List String)
    → (do
      i ← required_string a "feature_id"
      if contains i known then fail "DUPLICATE_FEATURE" a else done (tt {0}))
      ≡ done tt
    → (i : String) × (Dict.get a.parameters "feature_id" ≡ some (str i))
      × (is_blank i ≡ false)
      × (contains i known ≡ false)
new_feature a known h =
    let (i, p, q) =
      >>=-eq-done (required_string a "feature_id")
        (λ i. if contains i known then fail "DUPLICATE_FEATURE" a else done (tt {0})) h in
    let (g, b) = required_string-done a "feature_id" p in (i, g, b, ground arith)

check_feature-Introduces :
    (a : Action) (known : List String) → check_feature a known ≡ done tt → Introduces a known
unfolding check_feature
check_feature-Introduces a known h = elim (Bool-cases (supports feature_actions a.kind)) [
  | inl e ↦ inr (new_feature a known (rw (e, if◌then◌else◌) at h))
  | inr e ↦ inl e
]

known_target :
    (t : Option String) (known : List String)
    → unknown_target t known ≡ false
    → (i : String) × (t ≡ some i) × (contains i known ≡ true)
known_target none known h = absurd (cc)
known_target (some i) known h = (i, refl, ground arith)

check_target-Targets :
    (a : Action) (known : List String) → check_target a known ≡ done tt → Targets a known
unfolding check_target
check_target-Targets a known h = elim (Bool-cases (supports target_actions a.kind)) [
  | inl e ↦ inr (known_target a.target_id known (ground (arith, h, e)))
  | inr e ↦ inl e
]

same_target_self : (i : String) → same_target i (some i) ≡ true
same_target_self i = ground (arith, eq_iff i i)

check_tool-Tools : (a : Action) (known : List String) → check_tool a known ≡ done tt → Tools a known
unfolding check_tool
check_tool-Tools a known h =
    let (i, p, q) =
      >>=-eq-done (required_string a "tool_id")
        (λ i.
          if not (contains i known)
          then fail "FEATURE_NOT_FOUND" a
          else if same_target i a.target_id
          then fail "INVALID_PARAMETER" a
          else done (tt {0}))
        h in
    let (g, b) = required_string-done a "tool_id" p in
    inr (i, g, b, ground arith, λ e. absurd (ground (arith, q, e, same_target_self i)))

known_after-kind :
    (k : ActionKind) (a : Action) (known : List String)
    → a.kind ≡ k
    → known_after a known ≡ there_after k a known
unfolding known_after supports same_kind
known_after-kind create_document a known e = rw (e, known_after) refl
known_after-kind create_sketch a known e = rw (e, known_after) refl
known_after-kind add_sketch_geometry a known e = rw (e, known_after) refl
known_after-kind add_constraint a known e = rw (e, known_after) refl
known_after-kind add_box a known e = rw (e, known_after) refl
known_after-kind add_cylinder a known e = rw (e, known_after) refl
known_after-kind extrude a known e = rw (e, known_after) refl
known_after-kind revolve a known e = rw (e, known_after) refl
known_after-kind boolean_cut a known e = rw (e, known_after) refl
known_after-kind fillet a known e = rw (e, known_after) refl
known_after-kind chamfer a known e = rw (e, known_after) refl
known_after-kind pattern_kind a known e = rw (e, known_after) refl
known_after-kind set_parameter a known e = rw (e, known_after) refl
known_after-kind delete_feature a known e = rw (e, known_after) refl
known_after-kind save_document a known e = rw (e, known_after) refl
known_after-kind export_document a known e = rw (e, known_after) refl

create_other :
    (k : ActionKind)
    → same_kind k create_document ≡ true
    → (supports feature_actions k ≡ false) × (supports target_actions k ≡ false)
unfolding supports
create_other k h =
    subst (λ j. (supports feature_actions j ≡ false) × (supports target_actions j ≡ false))
      (sym (same_kind-eq k create_document h)) (refl, refl)

module _ (ops : FloatOps) where
  check_kind-Tools :
      (k : ActionKind) (a : Action) (known : List String)
      → a.kind ≡ k
      → check_kind ops k a known ≡ done tt
      → Tools a known
  unfolding check_kind
  check_kind-Tools boolean_cut a known e h = check_tool-Tools a known h
  check_kind-Tools create_document a known e h = inl (λ q. cc (e, q))
  check_kind-Tools create_sketch a known e h = inl (λ q. cc (e, q))
  check_kind-Tools add_sketch_geometry a known e h = inl (λ q. cc (e, q))
  check_kind-Tools add_constraint a known e h = inl (λ q. cc (e, q))
  check_kind-Tools add_box a known e h = inl (λ q. cc (e, q))
  check_kind-Tools add_cylinder a known e h = inl (λ q. cc (e, q))
  check_kind-Tools extrude a known e h = inl (λ q. cc (e, q))
  check_kind-Tools revolve a known e h = inl (λ q. cc (e, q))
  check_kind-Tools fillet a known e h = inl (λ q. cc (e, q))
  check_kind-Tools chamfer a known e h = inl (λ q. cc (e, q))
  check_kind-Tools pattern_kind a known e h = inl (λ q. cc (e, q))
  check_kind-Tools set_parameter a known e h = inl (λ q. cc (e, q))
  check_kind-Tools delete_feature a known e h = inl (λ q. cc (e, q))
  check_kind-Tools save_document a known e h = inl (λ q. cc (e, q))
  check_kind-Tools export_document a known e h = inl (λ q. cc (e, q))

  preflight-done :
      (a : Action) (known : List String)
      → preflight ops a known ≡ done tt
      → Introduces a known × Targets a known × Tools a known
  unfolding preflight
  preflight-done a known h = elim (Bool-cases (same_kind a.kind create_document)) [
    | inl e ↦ (
      inl (create_other a.kind e).0,
      inl (create_other a.kind e).1,
      inl (λ q. cc (same_kind-eq a.kind create_document e, q)),
    )
    | inr e ↦
        let chain = (rw (e, if◌then◌else◌) at h) in
        let (u, p, q) =
          >>=-eq-done (check_feature a known)
            (λ u. check_target a known >>= λ v. check_kind ops a.kind a known) chain in
        let (v, p2, q2) =
          >>=-eq-done (check_target a known) (λ v. check_kind ops a.kind a known) q in
        (
          check_feature-Introduces a known p,
          check_target-Targets a known p2,
          check_kind-Tools a.kind a known refl q2,
        )
  ]

  check_action-done :
      (a : Action) (known : List String)
      → check_action ops a known ≡ done tt
      → (supports supported a.kind ≡ true) × Introduces a known × Targets a known × Tools a known
  unfolding check_action
  check_action-done a known h = elim (Bool-cases (supports supported a.kind)) [
    | inl e ↦ let (i, t, u) = preflight-done a known (rw (e, if◌then◌else◌) at h) in (e, i, t, u)
    | inr e ↦ absurd (ground (arith, h, e))
  ]

  not_nil :
      (d : Diagnostic) (s : Step (List Diagnostic)) → ¬ ((s >>= λ ds. done (d ∷ ds)) ≡ done [])
  not_nil d (done ds) h = cc
  not_nil d (failure x) h = cc
  not_nil d (raised e) h = cc

  pub check_actions-Scoped :
      (actions : List Action) (known : List String)
      → check_actions ops actions known ≡ done []
      → Scoped known actions
  unfolding check_actions
  check_actions-Scoped [] known h = tt
  check_actions-Scoped (a ∷ actions) known h = elim (Step-cases (check_action ops a known)) [
    | inl (u, e) ↦
        let (k, i, t, u) = check_action-done a known e in
        (
          k,
          i,
          t,
          u,
          subst (λ after. Scoped after actions) (known_after-kind a.kind a known refl)
              (check_actions-Scoped actions (known_after a known) (rw (e, check_actions) at h)),
        )
    | inr (inl (d, e)) ↦
        absurd (not_nil d (check_actions ops actions known) (rw (e, check_actions) at h))
    | inr (inr (x, e)) ↦ absurd (ground (arith, h, e))
  ]

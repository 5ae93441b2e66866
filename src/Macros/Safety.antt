-- ===== src/Macros/Safety.antt =====
-- What the macros that `generate` and `repair` of macros.py return satisfy.
use cadrig.Base.{
  String, ◌≡◌, refl, sym, subst, ap, ◌∙◌, ◌⊎◌, inl, inr, Bool, true, false, not, ◌&&◌, ◌||◌, Result,
  ok, err, some, List, [], ◌∷◌, ◌==◌, eq_iff, arith, if◌then◌else◌,
}
use cadrig.Base.Text.{is_blank}
use cadrig.Base.Dict
use cadrig.Base.Dict.{Dict}
use cadrig.Json.{Json, null, bool, int, float, str, arr, obj, entries}
use cadrig.Contracts.{has_extras, has_missing, null_list}
use cadrig.Agent.{Reply, payload, not_json, model_failed}
use cadrig.Macros.Policy.{Parser, parsed, Node, MacroDiagnostic, review}
use cadrig.Macros.Generation.{
  MacroFault, bad_name, empty_description, empty_code, empty_intent, bad_mode, unknown_fields,
  missing_fields, syntax_errors, unsafe, Made, made, rejected, ◌>>=◌, MacroArtifact, is_macro_name,
  make_artifact, macro_fields, syntax_only, of_review, check_review, artifact_of, of_reply,
  generate, repair, text_field, assumptions_of, metadata_of,
}
use cadrig.Macros.Review.{HarmlessTree, Parsed-cases, review-nil}

>>=-eq-made :
    {A B : Type 0} (first : Made A) (next : A → Made B) {b : B}
    → (first >>= next) ≡ made b
    → (a : A) × (first ≡ made a) × (next a ≡ made b)
>>=-eq-made (made a) next h = (a, refl, h)
>>=-eq-made (rejected f) next h = absurd (cc)

-- What is true of an artifact that was generated in a mode
pub record Generated (parse : Parser) (mode : String) (a : MacroArtifact) : Type 0 where
  pub named : is_macro_name a.name ≡ true
  pub described : is_blank a.description ≡ false
  pub written : is_blank a.code ≡ false
  pub reviewed : review parse a.code ≡ ok a.diagnostics
  pub tree : List Node
  pub parses : parse a.code ≡ parsed tree
  pub harmless : (mode ≡ "review") ⊎ ((mode ≡ "safe") × HarmlessTree (parse a.code))

pub null_list_nil {ℓ} : {A : Type ℓ} (xs : List A) → not (null_list xs) ≡ false → xs ≡ []
null_list_nil [] h = refl
null_list_nil (x ∷ xs) h = absurd (cc)

-- A check that raises did not.
passes :
    {A : Type 0} (b : Bool) (f : MacroFault) (rest : Made A) {x : A}
    → (if b then rejected f else rest) ≡ made x
    → (b ≡ false) × (rest ≡ made x)
passes true f rest h = absurd (cc)
passes false f rest h = (refl, h)

made_same : {A : Type 0} {a b : A} → made a ≡ made b → a ≡ b
made_same h = cc

double_negation : (b : Bool) → not b ≡ false → b ≡ true
double_negation true h = refl
double_negation false h = absurd (cc)

and_false : (a b : Bool) → (a && b) ≡ false → (a ≡ false) ⊎ (b ≡ false)
and_false true b h = inr h
and_false false b h = inl refl

make_artifact-made :
    (a : MacroArtifact) {b : MacroArtifact}
    → make_artifact a ≡ made b
    → (a ≡ b)
      × (is_macro_name a.name ≡ true)
      × (is_blank a.description ≡ false)
      × (is_blank a.code ≡ false)
unfolding make_artifact
make_artifact-made a h =
    let (p, q) = passes (not (is_macro_name a.name)) bad_name _ h in
    let (p2, q2) = passes (is_blank a.description) empty_description _ q in
    let (p3, q3) = passes (is_blank a.code) empty_code (made a) q2 in
    (made_same q3, double_negation (is_macro_name a.name) p, p2, p3)

check_review-made :
    (safe : Bool) (ds : List MacroDiagnostic) {x : List MacroDiagnostic}
    → check_review safe ds ≡ made x
    → (x ≡ ds) × (syntax_only ds ≡ []) × ((safe ≡ false) ⊎ (ds ≡ []))
unfolding check_review
check_review-made safe ds h =
    let (p, q) = passes (not (null_list (syntax_only ds))) (syntax_errors (syntax_only ds)) _ h in
    let (p2, q2) = passes (safe && not (null_list ds)) (unsafe ds) (made ds) q in
    (
      sym (made_same q2),
      null_list_nil (syntax_only ds) p,
      elim (and_false safe (not (null_list ds)) p2) [
        | inl e ↦ inl e
        | inr e ↦ inr (null_list_nil ds e)
      ],
    )

pub syntax_only-review :
    (parse : Parser) (code : String) (ds : List MacroDiagnostic)
    → review parse code ≡ ok ds
    → syntax_only ds ≡ []
    → (tree : List Node) × (parse code ≡ parsed tree)
unfolding review
syntax_only-review parse code ds r h = elim (Parsed-cases (parse code)) [
  | inl (tree, e) ↦ (tree, e)
  | inr (inl e) ↦ absurd (ground (arith, rw (e, review) at r, h))
  | inr (inr (x, e)) ↦ absurd (ground (arith, rw (e, review) at r))
]

of_review-made :
    (r : Result (List MacroDiagnostic)) {ds : List MacroDiagnostic}
    → of_review r ≡ made ds
    → r ≡ ok ds
of_review-made (err e) h = absurd (cc)
of_review-made (ok xs) h = ap ok (made_same h)

module _ (parse : Parser) (mode : String) where
  -- The mode that `generate` lets pass
  IsMode : Type 0
  IsMode = (mode ≡ "safe") ⊎ (mode ≡ "review")

  reviewed-harmless :
      (code : String)
      → IsMode
      → ((mode == "safe") ≡ false) ⊎ (review parse code ≡ ok [])
      → (mode ≡ "review") ⊎ ((mode ≡ "safe") × HarmlessTree (parse code))
  unfolding IsMode
  reviewed-harmless code (inr m) c = inl m
  reviewed-harmless code (inl m) (inl n) = absurd (ground (arith, eq_iff mode "safe", m, n))
  reviewed-harmless code (inl m) (inr e) = inr (m, (review-nil parse code).0 e)

  built :
      (code : String) (a b : MacroArtifact) (found ds : List MacroDiagnostic)
      → IsMode
      → review parse code ≡ ok found
      → check_review (mode == "safe") found ≡ made ds
      → make_artifact a ≡ made b
      → a.code ≡ code
      → a.diagnostics ≡ ds
      → Generated parse mode b
  built code a b found ds m r c e same kept =
      let (d, s, h) = check_review-made (mode == "safe") found c in
      let (tree, t) = syntax_only-review parse code found r s in
      let (ab, n, x, y) = make_artifact-made a e in
      subst (Generated parse mode) ab (record {
        named = n;
        described = x;
        written = y;
        reviewed = ap (review parse) same ∙ (r ∙ ap ok (sym (kept ∙ d)));
        tree = tree;
        parses = ap parse same ∙ t;
        harmless =
            subst (λ c. (mode ≡ "review") ⊎ ((mode ≡ "safe") × HarmlessTree (parse c))) (sym same)
              (reviewed-harmless code m (elim h [ inl x ↦ inl x | inr x ↦ inr (r ∙ ap ok x) ]));
      })

  artifact-Generated :
      (version : String) (d : Dict Json) {b : MacroArtifact}
      → IsMode
      → artifact_of parse version mode d ≡ made b
      → Generated parse mode b
  unfolding artifact_of
  artifact-Generated version d m h =
      let (assumptions, p, q) = >>=-eq-made (assumptions_of (Dict.get d "assumptions")) _ h in
      let (name, p2, q2) = >>=-eq-made (text_field (Dict.get d "name")) _ q in
      let (description, p3, q3) = >>=-eq-made (text_field (Dict.get d "description")) _ q2 in
      let (code, p4, q4) = >>=-eq-made (text_field (Dict.get d "code")) _ q3 in
      let (found, p5, q5) = >>=-eq-made (of_review (review parse code)) _ q4 in
      let (ds, p6, q6) = >>=-eq-made (check_review (mode == "safe") found) _ q5 in
      let a : MacroArtifact = record {
        name = name;
        description = description;
        code = code;
        assumptions = assumptions;
        diagnostics = ds;
        metadata = metadata_of version mode;
      } in
      built code a _ found ds m (of_review-made (review parse code) p5) p6 q6 refl refl

  reply-Generated :
      (version : String) (reply : Reply) {b : MacroArtifact}
      → IsMode
      → of_reply parse version mode reply ≡ made b
      → Generated parse mode b
  reply-Generated version model_failed m h = absurd (cc)
  reply-Generated version not_json m h = absurd (cc)
  reply-Generated version (payload null) m h = absurd (cc)
  reply-Generated version (payload (bool b)) m h = absurd (cc)
  reply-Generated version (payload (int n)) m h = absurd (cc)
  reply-Generated version (payload (float x)) m h = absurd (cc)
  reply-Generated version (payload (str s)) m h = absurd (cc)
  reply-Generated version (payload (arr xs)) m h = absurd (cc)
  reply-Generated version (payload (obj fs)) m h =
      let d = entries fs in
      let (p, q) = passes (has_extras macro_fields d) unknown_fields _ h in
      let (p2, q2) = passes (has_missing macro_fields d) missing_fields _ q in
      artifact-Generated version d m q2

  -- An artifact that `generate` returns, whatever the model replies, has a valid name, a description
  -- and a code that are not blank, and the diagnostics of the review of its code; its code parses; and
  -- the mode is `review`, or it is `safe` and all nodes of the code are harmless.
  pub generate-Generated :
      (intent version : String) (reply : Reply) (a : MacroArtifact)
      → generate parse intent version mode reply ≡ made a
      → Generated parse mode a
  unfolding generate IsMode
  generate-Generated intent version reply a h =
      let (p, q) = passes (is_blank intent) empty_intent _ h in
      let (p2, q2) = passes (not (mode == "safe" || mode == "review")) bad_mode _ q in
      let m : (mode ≡ "safe") ⊎ (mode ≡ "review") =
        ground (arith, p2, eq_iff mode "safe", eq_iff mode "review") in
      reply-Generated version reply m q2

  -- A repaired artifact is as good as a generated one, and records the name of the one that it repairs.
  pub repair-Generated :
      (request version : String) (previous : MacroArtifact) (reply : Reply) (a : MacroArtifact)
      → repair parse request previous version mode reply ≡ made a
      → Generated parse mode a × (Dict.get a.metadata "repair_of" ≡ some (str previous.name))
  unfolding repair
  repair-Generated request version previous reply a h =
      let (x, p, q) = >>=-eq-made (generate parse request version mode reply) _ h in
      let g = generate-Generated request version reply x p in
      let (same, n, y, z) =
        make_artifact-made
          (record x { metadata = Dict.put x.metadata "repair_of" (str previous.name) }) q in
      subst
        (λ (b : MacroArtifact).
          Generated parse mode b × (Dict.get b.metadata "repair_of" ≡ some (str previous.name)))
        same
        (
          record {
            named = g.named;
            described = g.described;
            written = g.written;
            reviewed = g.reviewed;
            tree = g.tree;
            parses = g.parses;
            harmless = g.harmless;
          },
          Dict.get-put_self x.metadata "repair_of" (str previous.name),
        )

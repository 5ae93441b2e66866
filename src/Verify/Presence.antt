-- ===== src/Verify/Presence.antt =====
-- The requirements on the presence of a feature, in terms of the list of features.
use cadrig.Base.{
  ◌≡◌, refl, ap, ◌∙◌, ◌↔◌, Bool, true, false, not, ◌||◌, Option, none, some, List, [], ◌∷◌, any, ok,
  String, ◌==◌, if◌then◌else◌,
}
use cadrig.Base.Dict
use cadrig.Base.Dict.{Dict, get-put}
use cadrig.Json.{str, FloatOps}
use cadrig.Contracts.{DocumentSnapshot, FeatureSnapshot}
use cadrig.Design.{DesignPredicate, feature_exists, feature_absent}
use cadrig.Verify.Verifier.{evaluate_requirement, text_parameter, by_id, put_features, pass_if}

-- A feature with the id is in the list.
abbrev pub is_listed : String → List FeatureSnapshot → Bool
is_listed i fs = any (λ f. f.feature_id == i) fs

is_there : Option FeatureSnapshot → Bool
is_there o = elim o [ none ↦ false | some f ↦ true ]

written_there :
    (b : Bool) (f : FeatureSnapshot) (o : Option FeatureSnapshot)
    → is_there (if b then some f else o) ≡ (b || is_there o)
unfolding is_there
written_there true f o = refl
written_there false f o = refl

or_swap : (a b c : Bool) → (a || (b || c)) ≡ ((b || a) || c)
or_swap true true c = refl
or_swap true false c = refl
or_swap false true c = refl
or_swap false false c = refl

has-put :
    (d : Dict FeatureSnapshot) (k i : String) (f : FeatureSnapshot)
    → Dict.has (Dict.put d k f) i ≡ (k == i || Dict.has d i)
unfolding is_there
has-put d k i f = ap is_there (get-put d k i f) ∙ written_there (k == i) f (Dict.get d i)

put_features-listed :
    (fs : List FeatureSnapshot) (d : Dict FeatureSnapshot) (i : String)
    → Dict.has (put_features d fs) i ≡ (is_listed i fs || Dict.has d i)
unfolding put_features
put_features-listed [] d i = refl
put_features-listed (f ∷ fs) d i =
    put_features-listed fs (Dict.put d f.feature_id f) i
    ∙ ap (λ b. is_listed i fs || b) (has-put d f.feature_id i f)
    ∙ or_swap (is_listed i fs) (f.feature_id == i) (Dict.has d i)

or_false : (b : Bool) → (b || false) ≡ b
or_false true = refl
or_false false = refl

by_id-listed : (fs : List FeatureSnapshot) (i : String) → Dict.has (by_id fs) i ≡ is_listed i fs
unfolding by_id put_features Dict.get
by_id-listed fs i = put_features-listed fs [] i ∙ or_false (is_listed i fs)

module _ (ops : FloatOps) (p : DesignPredicate) (i : String)
    (named : Dict.get p.parameters "feature_id" ≡ some (str i)) (before : Option DocumentSnapshot)
    (s : DocumentSnapshot) where
  exists_evaluated :
      p.kind ≡ feature_exists
      → evaluate_requirement ops p before (some s)
        ≡ pass_if (is_listed i s.features) p "FEATURE_MISSING"
  unfolding evaluate_requirement text_parameter
  exists_evaluated k =
      rw (k, evaluate_requirement) (rw (named, text_parameter) (rw by_id-listed refl))

  absent_evaluated :
      p.kind ≡ feature_absent
      → evaluate_requirement ops p before (some s)
        ≡ pass_if (not (is_listed i s.features)) p "FEATURE_PRESENT"
  unfolding evaluate_requirement text_parameter
  absent_evaluated k =
      rw (k, evaluate_requirement) (rw (named, text_parameter) (rw by_id-listed refl))

  passes : (b : Bool) (code : String) → (pass_if b p code ≡ ok none) ↔ (b ≡ true)
  passes true code = (λ h. refl, λ h. refl)
  passes false code = (λ h. absurd (cc), λ h. absurd (cc))

  not-true : (b : Bool) → (not b ≡ true) ↔ (b ≡ false)
  not-true true = (λ h. cc, λ h. cc)
  not-true false = (λ h. refl, λ h. refl)

  -- The requirement that a feature exists, with the id as a text, passes on a document if and only if a feature with the id is
  -- in the list of its features.
  pub feature_exists-listed :
      p.kind ≡ feature_exists
      → (evaluate_requirement ops p before (some s) ≡ ok none) ↔ (is_listed i s.features ≡ true)
  feature_exists-listed k =
      rw (exists_evaluated k) (passes (is_listed i s.features) "FEATURE_MISSING")

  -- The requirement that a feature is absent, with the id as a text, passes on a document if and only if no feature with the id
  -- is in the list of its features.
  pub feature_absent-listed :
      p.kind ≡ feature_absent
      → (evaluate_requirement ops p before (some s) ≡ ok none) ↔ (is_listed i s.features ≡ false)
  feature_absent-listed k =
      let (forth, back) = passes (not (is_listed i s.features)) "FEATURE_PRESENT" in
      let (f, b) = not-true (is_listed i s.features) in
      rw (absent_evaluated k) (λ h. f (forth h), λ h. back (b h))

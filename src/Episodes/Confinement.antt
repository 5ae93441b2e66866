-- ===== src/Episodes/Confinement.antt =====
-- Where the artifacts of an episode are copied, and what merging keeps of them.
use cadrig.Base.{
  String, ◌≡◌, refl, sym, ap, ◌∙◌, true, false, Bool-cases, inl, inr, Option, none, some, List, [],
  ◌∷◌, ◌++◌, ◌==◌, eq_iff, contains, arith, if◌then◌else◌,
}
use cadrig.Base.Dict
use cadrig.Base.Dict.{Dict, keys}
use cadrig.Episodes.Paths.{merge_artifacts, joined, overlaps}

-- Where the parts of a path lead from a place, which is a list of names, the last one first: `..` leaves
-- a directory, `.` stays in it.
abbrev up : List String → List String
up [] = []
up (p ∷ here) = here

abbrev pub leads : List String → List String → List String
leads here [] = here
leads here (p ∷ parts) =
    leads (if p == "." then here else if p == ".." then up here else p ∷ here) parts

-- `there` is inside of `here`, and is not `here`.
abbrev pub Inside : List String → List String → Type 0
Inside here there = (p : String) × (rest : List String) × (there ≡ (p ∷ rest) ++ here)

module _ {ℓ} {A : Type ℓ} where
  joined_first :
      (d supplied : Dict A) (k : String)
      → contains k (keys supplied) ≡ false
      → Dict.get (joined d supplied) k ≡ Dict.get d k
  joined_first d [] k h = refl
  joined_first d ((j, v) ∷ supplied) k h =
      joined_first (Dict.put d j v) supplied k (ground (arith, h))
      ∙ ground (arith, Dict.get-put d j k v, eq_iff j k, eq_iff k j, h)

  -- A key that both have is found.
  overlap_found :
      (captured supplied : Dict A) (k : String)
      → overlaps captured supplied ≡ false
      → contains k (keys captured) ≡ true
      → contains k (keys supplied) ≡ false
  overlap_found captured [] k h c = refl
  overlap_found captured ((j, v) ∷ supplied) k h c = elim (Bool-cases (k == j)) [
    | inl e ↦ absurd (ground (arith, h, c, ap (λ i. contains i (keys captured)) ((eq_iff k j).0 e)))
    | inr e ↦ ground (arith, e, overlap_found captured supplied k (ground (arith, h)) c)
  ]

  joined_same :
      (d e supplied : Dict A) (k : String)
      → Dict.get d k ≡ Dict.get e k
      → Dict.get (joined d supplied) k ≡ Dict.get (joined e supplied) k
  joined_same d e [] k h = h
  joined_same d e ((j, v) ∷ supplied) k h =
      joined_same (Dict.put d j v) (Dict.put e j v) supplied k (
        Dict.get-put d j k v
        ∙ ap (λ o. if j == k then some v else o) h
        ∙ sym (Dict.get-put e j k v))

  found_key : (d : Dict A) (k : String) {v : A} → Dict.get d k ≡ some v → contains k (keys d) ≡ true
  unfolding Dict.get
  found_key [] k h = absurd (cc)
  found_key ((j, w) ∷ d) k {v} h = elim (Bool-cases (j == k)) [
    | inl e ↦ ground (arith, eq_iff j k, eq_iff k j, e)
    | inr e ↦ ground (arith, found_key d k {v = v} (ground (arith, e, h)))
  ]

  -- The artifact of one of two dictionaries, the first one's if it has one
  abbrev pub either : Option A → Option A → Option A
  either (some v) o = some v
  either none o = o

  merged_get :
      (captured supplied : Dict A) (k : String) (o : Option A)
      → overlaps captured supplied ≡ false
      → Dict.get captured k ≡ o
      → Dict.get (joined captured supplied) k ≡ either o (Dict.get (joined [] supplied) k)
  merged_get captured supplied k none h e =
      joined_same captured [] supplied k (e ∙ sym (Dict.get-empty k))
  merged_get captured supplied k (some v) h e =
      joined_first captured supplied k
        (overlap_found captured supplied k h (found_key captured k e))
      ∙ e

  -- Merged artifacts are those of the two dictionaries, each under its name, and no name has two.
  pub get-merge_artifacts :
      (captured supplied merged : Dict A) (k : String)
      → merge_artifacts captured supplied ≡ some merged
      → Dict.get merged k ≡ either (Dict.get captured k) (Dict.get (joined [] supplied) k)
  unfolding merge_artifacts
  get-merge_artifacts captured supplied merged k h =
      elim (Bool-cases (overlaps captured supplied)) [
        | inl e ↦ absurd (ground (arith, e, h))
        | inr e ↦
            let same : joined captured supplied ≡ merged = ground (arith, e, h) in
            ap (λ (d : Dict A). Dict.get d k) (sym same) ∙ merged_get captured supplied k _ e refl
      ]

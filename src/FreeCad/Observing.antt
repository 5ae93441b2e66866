-- ===== src/FreeCad/Observing.antt =====
-- What `observe` of the FreeCAD adapter keeps and counts.
use cadrig.Base.{
  ℕ, String, ◌≡◌, refl, ◌≢◌, inl, inr, Option, none, some, [], ◌∷◌, Error, ◌∙◌, ok, err,
  Result-cases, eq_iff, arith,
}
use cadrig.Base.Dict
use cadrig.Base.Dict.{Dict}
use cadrig.Contracts.{DocumentSnapshot, document_snapshot, check_identifier}
use cadrig.FreeCad.Host.{Host}
use cadrig.FreeCad.Objects.{snapshot}
use cadrig.FreeCad.State.{
  RevisionState, Adapter, tracked, get_document, observe, observe_document, fingerprint_of,
}

put_twice {ℓ} :
    {V : Type ℓ} (d : Dict V) (k : String) (v : V) → Dict.put (Dict.put d k v) k v ≡ Dict.put d k v
unfolding Dict.put
put_twice [] k v = ground (arith, eq_iff k k)
put_twice ((j, w) ∷ d) k v = ground (arith, eq_iff j k, eq_iff k k, put_twice d k v)

remove_twice {ℓ} :
    {V : Type ℓ} (d : Dict V) (k : String) → Dict.remove (Dict.remove d k) k ≡ Dict.remove d k
unfolding Dict.remove
remove_twice [] k = refl
remove_twice ((j, w) ∷ d) k = ground (arith, remove_twice d k)

tracked_twice :
    (o : Option RevisionState) (now : String) → tracked (some (tracked o now)) now ≡ tracked o now
tracked_twice none now = ground (arith, eq_iff now now)
tracked_twice (some s) now = ground (arith, eq_iff s.fingerprint now, eq_iff now now)

module _ {W Doc Obj : Type 0} (host : Host W Doc Obj) where
  -- The revision does not change what else a snapshot shows.
  pub snapshot-revision :
      (w : W) (d : Doc) (m n : ℕ) {x : DocumentSnapshot}
      → snapshot host w d m ≡ ok x
      → snapshot host w d n ≡ ok (record x { revision = n })
  unfolding snapshot document_snapshot check_identifier
  snapshot-revision w d m n {x} h = ground arith

  module _ (s : Adapter W) (i : String) where
    -- The state that `observe` keeps of a document with a fingerprint
    abbrev pub noted : String → RevisionState
    noted now = tracked (Dict.get s.revisions i) now

    pub observe-err :
        {e : Error} → get_document host s.world i ≡ err e → observe host s i ≡ (err e, s)
    unfolding observe
    observe-err p = rw (p, observe) refl

    observe-none :
        get_document host s.world i ≡ ok none
        → observe host s i ≡ (ok none, record s { revisions = Dict.remove s.revisions i })
    unfolding observe
    observe-none p = rw (p, observe) refl

    observe-bad :
        {d : Doc} {e : Error}
        → get_document host s.world i ≡ ok (some d)
        → snapshot host s.world d 0 ≡ err e
        → observe host s i ≡ (err e, s)
    unfolding observe observe_document
    observe-bad {d} p q = rw (p, observe) (rw (q, observe_document) refl)

    pub observe-some :
        {d : Doc} {x : DocumentSnapshot}
        → get_document host s.world i ≡ ok (some d)
        → snapshot host s.world d 0 ≡ ok x
        → observe host s i ≡ (
          ok (some (record x { revision = (noted (fingerprint_of host x)).revision })),
          record s { revisions = Dict.put s.revisions i (noted (fingerprint_of host x)) },
        )
    unfolding observe observe_document
    observe-some {d} {x} p q =
        rw (p, observe)
          (rw (q, observe_document)
            (rw (snapshot-revision s.world d 0 (noted (fingerprint_of host x)).revision q) refl))

  -- What `observe` gives and leaves, one constructor for each way
  pub data Observed (s : Adapter W) (i : String) : Type 0 where
    raises : (e : Error) → observe host s i ≡ (err e, s) → Observed s i
    misses :
        get_document host s.world i ≡ ok none
        → observe host s i ≡ (ok none, record s { revisions = Dict.remove s.revisions i })
        → Observed s i
    shows :
        (d : Doc) (x : DocumentSnapshot)
        → get_document host s.world i ≡ ok (some d)
        → snapshot host s.world d 0 ≡ ok x
        → observe host s i ≡ (
          ok (some (record x { revision = (noted s i (fingerprint_of host x)).revision })),
          record s { revisions = Dict.put s.revisions i (noted s i (fingerprint_of host x)) },
        )
        → Observed s i

  pub observe-Observed : (s : Adapter W) (i : String) → Observed s i
  observe-Observed s i = elim (Result-cases (get_document host s.world i)) [
    | inl (e, p) ↦ raises e (observe-err s i p)
    | inr (none, p) ↦ misses p (observe-none s i p)
    | inr (some d, p) ↦ elim (Result-cases (snapshot host s.world d 0)) [
      | inl (e, q) ↦ raises e (observe-bad s i p q)
      | inr (x, q) ↦ shows d x p q (observe-some s i p q)
    ]
  ]

  module _ (s : Adapter W) (i : String) where
    -- Observing reads the host, and writes no undo record.
    pub world-observe : (observe host s i).1.world ≡ s.world
    world-observe = elim (observe-Observed s i) [
      | raises e p ↦ rw p refl
      | misses g p ↦ rw p refl
      | shows d x g q p ↦ rw p refl
    ]

    pub undo-observe : (observe host s i).1.undo ≡ s.undo
    undo-observe = elim (observe-Observed s i) [
      | raises e p ↦ rw p refl
      | misses g p ↦ rw p refl
      | shows d x g q p ↦ rw p refl
    ]

    pub revisions-observe :
        (j : String) → i ≢ j → Dict.get (observe host s i).1.revisions j ≡ Dict.get s.revisions j
    revisions-observe j h = elim (observe-Observed s i) [
      | raises e p ↦ rw p refl
      | misses g p ↦ rw p (Dict.get-remove_ne s.revisions i j h)
      | shows d x g q p ↦
          rw p (Dict.get-put_ne s.revisions i j (noted s i (fingerprint_of host x)) h)
    ]

    -- Observing a document a second time shows the same snapshot, under the same revision, and
    -- changes nothing more.
    pub observe_again : observe host (observe host s i).1 i ≡ observe host s i
    observe_again = elim (observe-Observed s i) [
      | raises e p ↦ rw p p
      | misses g p ↦ rw p (
          observe-none (record s { revisions = Dict.remove s.revisions i }) i g
          ∙ rw (remove_twice s.revisions i) refl)
      | shows d x g q p ↦
          let f = fingerprint_of host x in
          let t : Adapter W = record s { revisions = Dict.put s.revisions i (noted s i f) } in
          rw p (
            observe-some t i g q
            ∙ rw
                (
                  Dict.get-put_self s.revisions i (noted s i f),
                  tracked_twice (Dict.get s.revisions i) f,
                  put_twice s.revisions i (noted s i f),
                )
                refl)
    ]

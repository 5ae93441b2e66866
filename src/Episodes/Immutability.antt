-- ===== src/Episodes/Immutability.antt =====
-- What `_record` of episodes.py does to the store, by the ways that it ends.
use cadrig.Base.{
  String, ◌≡◌, refl, ap, ◌∙◌, ◌≢◌, inl, inr, false, Bool-cases, Option, Option-cases, none, some,
  List, [], ◌∷◌, Result-cases, ◌==◌, eq_iff, Result, ok, err, arith, contains, if◌then◌else◌,
}
use cadrig.Base.Dict
use cadrig.Base.Dict.{Dict, get-put, get-put_self, get-remove}
use cadrig.Json.{Json}
use cadrig.Episodes.Store.{
  Directory, empty_folder, Files, Writer, Recorded, recorded, already_there, escaped, abandoned,
  published, stored, make_folders, stage, staged, episode_files, record_episode,
}

-- A path that is new to the store holds nothing there.
new_path : (s : Files) (k : String) → Dict.has s k ≡ false → Dict.get s k ≡ none
new_path s k h = ground (arith, h)

get-published :
    (s : Files) (staging j : String) (d : Directory)
    → Dict.has s staging ≡ false
    → Dict.get (Dict.remove (Dict.put s staging d) staging) j ≡ Dict.get s j
get-published s staging j d h = ground (
  arith,
  get-remove (Dict.put s staging d) staging j,
  get-put s staging j d,
  eq_iff staging j,
  new_path s staging h,
)

module _ (io : Writer) where
  get-abandoned :
      (s : Files) (staging j : String) (d : Directory)
      → Dict.has s staging ≡ false
      → (staging ≡ j → io.rmtree staging ≡ none)
      → Dict.get (abandoned io s staging d).1 j ≡ Dict.get s j
  get-abandoned s staging j d h removed = elim (Option-cases (io.rmtree staging)) [
    | inl e ↦ rw e (get-published s staging j d h)
    | inr (x, e) ↦ rw e (
        ground (
          arith,
          get-put (Dict.put s staging d) staging j x,
          get-put s staging j d,
          eq_iff staging j,
          e,
          removed,
        ))
  ]

  get-folder :
      (s : Files) (f j : String) (d : Directory)
      → Dict.has s f ≡ false
      → Dict.get s j ≡ some d
      → Dict.get (Dict.put s f empty_folder) j ≡ some d
  get-folder s f j d n h = ground (arith, get-put s f j empty_folder, n, h, eq_iff f j)

  -- Folders are made where nothing is.
  make_folders-keeps :
      (folders : List String) (s : Files) (j : String) (d : Directory)
      → Dict.get s j ≡ some d
      → Dict.get (make_folders io s folders).1 j ≡ some d
  unfolding make_folders
  make_folders-keeps [] s j d h = h
  make_folders-keeps (f ∷ folders) s j d h = elim (Bool-cases (Dict.has s f)) [
    | inl e ↦ rw (e, make_folders) (make_folders-keeps folders s j d h)
    | inr e ↦ elim (Result-cases (io.mkdir f)) [
      | inl (x, m) ↦ rw (e, make_folders) (rw (m, make_folders) h)
      | inr (u, m) ↦
          rw (e, make_folders)
            (rw (m, make_folders)
              (make_folders-keeps folders (Dict.put s f empty_folder) j d (get-folder s f j d e h)))
    ]
  ]

  get-make_folders :
      (folders : List String) (s : Files) (j : String)
      → contains j folders ≡ false
      → Dict.get (make_folders io s folders).1 j ≡ Dict.get s j
  unfolding make_folders
  get-make_folders [] s j h = refl
  get-make_folders (f ∷ folders) s j h =
      let rest : contains j folders ≡ false = ground (arith, h) in
      elim (Bool-cases (Dict.has s f)) [
        | inl e ↦ rw (e, make_folders) (get-make_folders folders s j rest)
        | inr e ↦ elim (Result-cases (io.mkdir f)) [
          | inl (x, m) ↦ rw (e, make_folders) (rw (m, make_folders) refl)
          | inr (u, m) ↦
              rw (e, make_folders)
                (rw (m, make_folders)
                  (get-make_folders folders (Dict.put s f empty_folder) j rest
                    ∙ ground (arith, get-put s f j empty_folder, h, eq_iff f j, eq_iff j f)))
        ]
      ]

module _ (io : Writer) (s : Files) (folders : List String) (staging target : String)
    (payloads : List (String × Json)) (events : List Json) (artifacts : Dict String)
    (manifest : Directory → Json) where
  abbrev pub outcome : Recorded × Files
  outcome = record_episode io s folders staging target payloads events artifacts manifest

  -- The store after the folders were made
  abbrev made : Files
  made = (make_folders io s folders).1

  -- How `_record` ends: before its `try`, the staging directory removed, or the episode in its place
  data Ends : Recorded × Files → Type 0 where
    existing : Ends (already_there, s)
    stopped : Ends (escaped, made)
    left : (d : Directory) → Dict.has made staging ≡ false → Ends (abandoned io made staging d)
    wrote :
        (d : Directory)
        → Dict.has s target ≡ false
        → Dict.has made staging ≡ false
        → episode_files io payloads events artifacts manifest ≡ ok d
        → Ends (published io made staging target d (ok tt))

  stored-Ends :
      (files : Result Directory)
      → episode_files io payloads events artifacts manifest ≡ files
      → Dict.has s target ≡ false
      → Dict.has made staging ≡ false
      → Ends (stored io made staging target files)
  stored-Ends (err e) p t g = left [] g
  stored-Ends (ok d) p t g = elim (Result-cases (io.replace staging target)) [
    | inl (e, r) ↦ rw (r, published) (left d g)
    | inr (u, r) ↦ rw (r, published) (wrote d t g p)
  ]

  stage-Ends :
      Dict.has s target ≡ false
      → Ends (stage io made staging target (episode_files io payloads events artifacts manifest))
  unfolding stage
  stage-Ends t = elim (Bool-cases (Dict.has made staging)) [
    | inl g ↦ rw (g, stage) stopped
    | inr g ↦ elim (Result-cases (io.mkdir staging)) [
      | inl (e, m) ↦ rw (g, stage) (rw (m, stage) stopped)
      | inr (u, m) ↦
          rw (g, stage)
            (rw (m, stage)
              (stored-Ends (episode_files io payloads events artifacts manifest) refl t g))
    ]
  ]

  record-Ends : Ends outcome
  unfolding record_episode
  record-Ends = elim (Bool-cases (Dict.has s target)) [
    | inl e ↦ rw (e, if◌then◌else◌) existing
    | inr e ↦ elim (Result-cases (make_folders io s folders).0) [
      | inl (x, m) ↦ rw (e, if◌then◌else◌) (rw (m, staged) stopped)
      | inr (u, m) ↦ rw (e, if◌then◌else◌) (rw (m, staged) (stage-Ends e))
    ]
  ]

  Ends-keeps :
      (o : Recorded × Files)
      → Ends o
      → (j : String) (d : Directory) → Dict.get s j ≡ some d
      → Dict.get o.1 j ≡ some d
  Ends-keeps o existing j d h = h
  Ends-keeps o stopped j d h = make_folders-keeps io folders s j d h
  Ends-keeps o (left x g) j d h =
      let k = make_folders-keeps io folders s j d h in
      get-abandoned io made staging j x g (λ e. absurd (cc (e, new_path made staging g, k))) ∙ k
  Ends-keeps o (wrote x t g p) j d h =
      get-put (Dict.remove (Dict.put made staging x) staging) target j x
      ∙ ground (
        arith,
        get-published made staging j x g,
        make_folders-keeps io folders s j d h,
        h,
        eq_iff target j,
        new_path s target t,
      )

  -- An episode that is stored is never changed, whatever `_record` is called with and however it ends.
  pub record_keeps :
      (j : String) (d : Directory) → Dict.get s j ≡ some d → Dict.get outcome.1 j ≡ some d
  record_keeps = Ends-keeps outcome record-Ends

  Ends-fails :
      (o : Recorded × Files)
      → Ends o
      → ((t : String) → o.0 ≢ recorded t)
      → (j : String) → contains j folders ≡ false
      → (staging ≡ j → io.rmtree staging ≡ none)
      → Dict.get o.1 j ≡ Dict.get s j
  Ends-fails o existing h j out removed = refl
  Ends-fails o stopped h j out removed = get-make_folders io folders s j out
  Ends-fails o (left x g) h j out removed =
      get-abandoned io made staging j x g removed ∙ get-make_folders io folders s j out
  Ends-fails o (wrote x t g p) h j out removed = absurd (h target refl)

  -- Where `_record` returns no episode, every path of the store is as it was, but for the folders above
  -- the episode, which may be new; the staging directory too, if `shutil.rmtree` removes it.
  pub record_fails :
      ((t : String) → outcome.0 ≢ recorded t)
      → (j : String) → contains j folders ≡ false
      → (staging ≡ j → io.rmtree staging ≡ none)
      → Dict.get outcome.1 j ≡ Dict.get s j
  record_fails = Ends-fails outcome record-Ends

  -- What an episode that was recorded at a path says of the store before and after
  pub record Written (t : String) (o : Recorded × Files) : Type 0 where
    pub at_target : t ≡ target
    pub files : Directory
    pub complete : episode_files io payloads events artifacts manifest ≡ ok files
    pub was_new : Dict.get s target ≡ none
    pub stands : Dict.get o.1 target ≡ some files
    pub after :
        (j : String)
        → contains j folders ≡ false
        → Dict.get o.1 j ≡ (if target == j then some files else Dict.get s j)

  Ends-Written : (o : Recorded × Files) → Ends o → (t : String) → o.0 ≡ recorded t → Written t o
  Ends-Written o existing t h = absurd (cc)
  Ends-Written o stopped t h = absurd (cc)
  Ends-Written o (left x g) t h = absurd (cc)
  Ends-Written o (wrote x n g p) t h = record {
    at_target = cc;
    files = x;
    complete = p;
    was_new = new_path s target n;
    stands = get-put_self (Dict.remove (Dict.put made staging x) staging) target x;
    after = λ j out.
        get-put (Dict.remove (Dict.put made staging x) staging) target j x
        ∙ ap (λ (y : Option Directory). if target == j then some x else y)
            (get-published made staging j x g ∙ get-make_folders io folders s j out);
  }

  -- An episode is recorded at its destination, which was free before. The destination then has all files
  -- of the episode, and every other path, the staging directory among them, is as it was, but for the
  -- folders above the episode, which may be new.
  pub record-Written : (t : String) → outcome.0 ≡ recorded t → Written t outcome
  record-Written = Ends-Written outcome record-Ends

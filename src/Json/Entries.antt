-- ===== src/Json/Entries.antt =====
-- The dict of an object has distinct keys, and a dict with distinct keys is that of its object.
use mathlib.Core.List.{append-nil, append_assoc}
use cadrig.Base.{
  String, ◌≡◌, refl, sym, ◌∙◌, true, false, ◌||◌, [], ◌∷◌, ◌++◌, ◌==◌, eq_iff, contains, unique,
  arith,
}
use cadrig.Base.Dict
use cadrig.Base.Dict.{Dict, keys}
use cadrig.Json.{Json, Fields, end, field, entries, put_fields, fields_of}

abbrev pub HasDistinctKeys : Dict Json → Type 0
HasDistinctKeys d = unique (keys d) ≡ true

contains-put :
    (d : Dict Json) (k j : String) (v : Json)
    → contains j (keys (Dict.put d k v)) ≡ (j == k || contains j (keys d))
unfolding Dict.put
contains-put [] k j v = refl
contains-put ((i, w) ∷ d) k j v =
    ground (arith, eq_iff i k, eq_iff j k, eq_iff j i, contains-put d k j v)

put-HasDistinctKeys :
    (d : Dict Json) (k : String) (v : Json) → HasDistinctKeys d → HasDistinctKeys (Dict.put d k v)
unfolding Dict.put
put-HasDistinctKeys [] k v h = refl
put-HasDistinctKeys ((i, w) ∷ d) k v h =
    ground (arith, eq_iff i k, contains-put d k i v, put-HasDistinctKeys d k v)

put_fields-HasDistinctKeys :
    (d : Dict Json) (fs : Fields) → HasDistinctKeys d → HasDistinctKeys (put_fields d fs)
put_fields-HasDistinctKeys d end h = h
put_fields-HasDistinctKeys d (field k v fs) h =
    put_fields-HasDistinctKeys (Dict.put d k v) fs (put-HasDistinctKeys d k v h)

pub entries-HasDistinctKeys : (fs : Fields) → HasDistinctKeys (entries fs)
entries-HasDistinctKeys fs = put_fields-HasDistinctKeys [] fs refl

put_new :
    (d : Dict Json) (k : String) (v : Json)
    → contains k (keys d) ≡ false
    → Dict.put d k v ≡ d ++ (k, v) ∷ []
unfolding Dict.put
put_new [] k v h = refl
put_new ((i, w) ∷ d) k v h = ground (arith, eq_iff i k, eq_iff k i, put_new d k v)

-- Every key of `d` is new to `a`.
abbrev Apart : Dict Json → Dict Json → Type 0
Apart a [] = Unit
Apart a ((k, v) ∷ d) = (contains k (keys a) ≡ false) × Apart a d

contains-snoc :
    (a : Dict Json) (k j : String) (v : Json)
    → contains j (keys (a ++ (k, v) ∷ [])) ≡ (contains j (keys a) || j == k)
contains-snoc [] k j v = ground arith
contains-snoc ((i, w) ∷ a) k j v = ground (arith, contains-snoc a k j v)

Apart-snoc :
    (a d : Dict Json) (k : String) (v : Json)
    → contains k (keys d) ≡ false
    → Apart a d
    → Apart (a ++ (k, v) ∷ []) d
Apart-snoc a [] k v h p = tt
Apart-snoc a ((j, w) ∷ d) k v h (new, p) = (
  ground (arith, contains-snoc a k j v, eq_iff j k, eq_iff k j),
  Apart-snoc a d k v (ground arith) p,
)

put_fields-fields_of :
    (a d : Dict Json) → Apart a d → HasDistinctKeys d → put_fields a (fields_of d) ≡ a ++ d
put_fields-fields_of a [] p h = sym (append-nil a)
put_fields-fields_of a ((k, v) ∷ d) (new, p) h =
    rw (put_new a k v new, put_fields)
      (put_fields-fields_of (a ++ (k, v) ∷ []) d (Apart-snoc a d k v (ground arith) p)
          (ground arith)
        ∙ append_assoc a ((k, v) ∷ []) d)

Apart-nil : (d : Dict Json) → Apart [] d
Apart-nil [] = tt
Apart-nil ((k, v) ∷ d) = (refl, Apart-nil d)

pub entries-fields_of : (d : Dict Json) → HasDistinctKeys d → entries (fields_of d) ≡ d
entries-fields_of d h = put_fields-fields_of [] d (Apart-nil d) h

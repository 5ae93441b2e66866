-- ===== src/Tests/Host.antt =====
-- A small stand-in for FreeCAD: documents of objects with attributes, one copy kept for the undo.
use cadrig.Base.{
  String, true, false, Option, none, some, List, [], ◌∷◌, Result, ok, err, map, name_error,
  type_error,
}
use cadrig.Base.Dict
use cadrig.Base.Dict.{Dict, keys}
use cadrig.Json.{Float}
use cadrig.Contracts.{FeatureSnapshot}
use cadrig.FreeCad.Host.{Host, Value, text, number}

abbrev pub Thing : Type 0
Thing = String × String

abbrev pub Things : Type 0
Things = Dict (Dict (Value Thing))

pub record World : Type 0 where
  pub documents : Dict Things
  pub kept : Dict Things

abbrev things : Dict Things → String → Things
things ds d = elim (Dict.get ds d) [ none ↦ [] | some t ↦ t ]

abbrev attributes : World → Thing → Dict (Value Thing)
attributes w (d, n) = elim (Dict.get (things w.documents d) n) [ none ↦ [] | some a ↦ a ]

abbrev write : World → Thing → String → Value Thing → World
write w (d, n) k v = record w {
  documents =
      Dict.put w.documents d
        (Dict.put (things w.documents d) n (Dict.put (attributes w (d, n)) k v));
}

abbrev restored : World → String → World
restored w d = record w { documents = Dict.put w.documents d (things w.kept d) }

abbrev found : World → String → Result (Option String)
found w d = elim (Dict.get w.documents d) [ none ↦ err name_error | some t ↦ ok (some d) ]

abbrev show_value : Value Thing → String
show_value (text s) = s
show_value _ = ""

abbrev real_value : Value Thing → Result Float
real_value (number x) = ok x
real_value _ = err type_error

abbrev hash : List FeatureSnapshot → String
hash [] = ""
hash (f ∷ fs) = f.feature_id

abbrev pub sample_host : Host World String Thing
sample_host = record {
  get_document = found;
  new_document = λ w d. (ok d, record w { documents = Dict.put w.documents d [] });
  close_document = λ w d. (ok tt, record w { documents = Dict.remove w.documents d });
  document_name = λ w d. d;
  undo_mode = λ w d. ok 1;
  objects = λ w d. map (λ n. (d, n)) (keys (things w.documents d));
  open_transaction =
      λ w d name. (ok tt, record w { kept = Dict.put w.kept d (things w.documents d) });
  commit_transaction = λ w d. (ok tt, w);
  abort_transaction = λ w d. (ok tt, restored w d);
  recompute = λ w d. (ok true, w);
  undo = λ w d. (ok true, restored w d);
  add_object = λ w d t n. (ok (d, n), write w (d, n) "TypeId" (text t));
  remove_object = λ w d n. (
    ok tt,
    record w { documents = Dict.put w.documents d (Dict.remove (things w.documents d) n) },
  );
  object_name = λ w o. o.1;
  attribute = λ w o k. Dict.get (attributes w o) k;
  properties = λ w o. keys (attributes w o);
  states = λ w o. [];
  shape = λ w o. none;
  set_attribute = λ w o k v. (ok tt, write w o k v);
  add_property = λ w o t k. (ok tt, write w o k (text ""));
  add_geometry = λ w o g. (err type_error, w);
  add_constraint = λ w o c. (ok tt, w);
  show = show_value;
  whole = λ v. err type_error;
  real = real_value;
  vector_length = λ v. v.z;
  is_broken = λ s. false;
  has_message = λ e. true;
  loads = λ s. none;
  dumps = λ d. "";
  int_of = λ j. err type_error;
  sorted = λ s. s;
  hash_features = hash;
}

abbrev pub empty_world : World
empty_world = record { documents = []; kept = [] }

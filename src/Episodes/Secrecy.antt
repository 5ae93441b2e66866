-- ===== src/Episodes/Secrecy.antt =====
-- `redact_secrets` of episodes.py removes every secret and nothing else.
use cadrig.Base.{
  String, ◌≡◌, refl, ap, Bool, true, false, Bool-cases, ◌⊎◌, inl, inr, if◌then◌else◌, arith,
}
use cadrig.Json.{Json, null, bool, int, float, str, arr, obj, Items, nil, cons, Fields, end, field}
use cadrig.Episodes.Redaction.{redacted, is_secret, redact, redact_items, redact_fields}

module _ (lower : String → String) where
  -- `Shows j r`: `r` has the shape and the values of `j`, but for the values under secret keys, which
  -- are redacted, at every depth.
  mutual
    pub data Shows : Json → Json → Type 0 where
      same_null : Shows null null
      same_bool : (b : Bool) → Shows (bool b) (bool b)
      same_int : (n : cadrig.Base.ℤ) → Shows (int n) (int n)
      same_float : (x : cadrig.Json.Float) → Shows (float x) (float x)
      same_text : (s : String) → Shows (str s) (str s)
      items : (xs ys : Items) → ShowsItems xs ys → Shows (arr xs) (arr ys)
      fields : (fs gs : Fields) → ShowsFields fs gs → Shows (obj fs) (obj gs)

    pub data ShowsItems : Items → Items → Type 0 where
      no_items : ShowsItems nil nil
      item :
          (x y : Json) (xs ys : Items)
          → Shows x y
          → ShowsItems xs ys
          → ShowsItems (cons x xs) (cons y ys)

    pub data ShowsFields : Fields → Fields → Type 0 where
      no_fields : ShowsFields end end
      hidden :
          (k : String) (v : Json) (fs gs : Fields)
          → is_secret lower k ≡ true
          → ShowsFields fs gs
          → ShowsFields (field k v fs) (field k redacted gs)
      shown :
          (k : String) (v w : Json) (fs gs : Fields)
          → is_secret lower k ≡ false
          → Shows v w
          → ShowsFields fs gs
          → ShowsFields (field k v fs) (field k w gs)

  field_shown :
      (k : String) (v : Json) (fs : Fields)
      → Shows v (redact lower v)
      → ShowsFields fs (redact_fields lower fs)
      → (is_secret lower k ≡ true) ⊎ (is_secret lower k ≡ false)
      → ShowsFields (field k v fs) (redact_fields lower (field k v fs))
  unfolding redact_fields
  field_shown k v fs value rest (inl e) =
      rw (e, if◌then◌else◌) (hidden k v fs (redact_fields lower fs) e rest)
  field_shown k v fs value rest (inr e) =
      rw (e, if◌then◌else◌) (shown k v (redact lower v) fs (redact_fields lower fs) e value rest)

  mutual
    unfolding redact redact_items redact_fields

    json-Shows : (j : Json) → Shows j (redact lower j)
    json-Shows null = same_null
    json-Shows (bool b) = same_bool b
    json-Shows (int n) = same_int n
    json-Shows (float x) = same_float x
    json-Shows (str s) = same_text s
    json-Shows (arr xs) = items xs (redact_items lower xs) (items-Shows xs)
    json-Shows (obj fs) = fields fs (redact_fields lower fs) (fields-Shows fs)

    items-Shows : (xs : Items) → ShowsItems xs (redact_items lower xs)
    items-Shows nil = no_items
    items-Shows (cons x xs) =
        item x (redact lower x) xs (redact_items lower xs) (json-Shows x) (items-Shows xs)

    fields-Shows : (fs : Fields) → ShowsFields fs (redact_fields lower fs)
    fields-Shows end = no_fields
    fields-Shows (field k v fs) =
        field_shown k v fs (json-Shows v) (fields-Shows fs) (Bool-cases (is_secret lower k))

  -- The result of `redact_secrets` has the shape and the values of its argument, but for the values
  -- under secret keys, at every depth, which are redacted.
  pub redact-Shows : (j : Json) → Shows j (redact lower j)
  redact-Shows j = json-Shows j

  mutual
    unfolding redact redact_items redact_fields

    -- A second redaction changes nothing more.
    pub redact_twice : (j : Json) → redact lower (redact lower j) ≡ redact lower j
    redact_twice null = refl
    redact_twice (bool b) = refl
    redact_twice (int n) = refl
    redact_twice (float x) = refl
    redact_twice (str s) = refl
    redact_twice (arr xs) = ap arr (items_twice xs)
    redact_twice (obj fs) = ap obj (fields_twice fs)

    items_twice : (xs : Items) → redact_items lower (redact_items lower xs) ≡ redact_items lower xs
    items_twice nil = refl
    items_twice (cons x xs) = λ i. cons (redact_twice x i) (items_twice xs i)

    fields_twice :
        (fs : Fields) → redact_fields lower (redact_fields lower fs) ≡ redact_fields lower fs
    fields_twice end = refl
    fields_twice (field k v fs) = elim (Bool-cases (is_secret lower k)) [
      | inl e ↦ rw (e, if◌then◌else◌) (ap (field k redacted) (fields_twice fs))
      | inr e ↦ rw (e, if◌then◌else◌) (λ i. field k (redact_twice v i) (fields_twice fs i))
    ]

-- ===== src/Steps.antt =====
-- The exceptions of an adapter, as memory.py and freecad.py raise them: a step ends with a value, with
-- the diagnostic of an `_ActionFailure`, or with another exception.
use cadrig.Base.{String, ◌≡◌, refl, ◌⊎◌, inl, inr, some, Error}
use cadrig.Contracts.{Action, Diagnostic}

pub data Step {ℓ} (A : Type ℓ) : Type ℓ where
  done : A → Step A
  failure : Diagnostic → Step A
  raised : Error → Step A

infixl 5 ◌>>=◌
abbrev pub ◌>>=◌ {ℓ κ} : {A : Type ℓ} {B : Type κ} → Step A → (A → Step B) → Step B
done a >>= f = f a
failure d >>= f = failure d
raised e >>= f = raised e

-- `raise _ActionFailure(code, message, action.action_id)`
abbrev pub fail {ℓ} : {A : Type ℓ} → String → Action → Step A
fail code a = failure (record { code = code; action_id = some a.action_id })

-- A chain that ends with a value has a first step that ends with one.
pub >>=-eq-done {ℓ κ} :
    {A : Type ℓ} {B : Type κ} (first : Step A) (next : A → Step B) {b : B}
    → (first >>= next) ≡ done b
    → (a : A) × (first ≡ done a) × (next a ≡ done b)
>>=-eq-done (done a) next h = (a, refl, h)
>>=-eq-done (failure d) next h = absurd (cc)
>>=-eq-done (raised e) next h = absurd (cc)

pub Step-cases {ℓ} :
    {A : Type ℓ} (s : Step A)
    → ((a : A) × (s ≡ done a))
      ⊎ (((d : Diagnostic) × (s ≡ failure d)) ⊎ ((e : Error) × (s ≡ raised e)))
Step-cases (done a) = inl (a, refl)
Step-cases (failure d) = inr (inl (d, refl))
Step-cases (raised e) = inr (inr (e, refl))

-- ===== src/FreeCad/Monad.antt =====
-- A method that calls the host: the host's state and an exception. What was written stays written when
-- an exception is raised.
use cadrig.Base.{String, ◌≡◌, refl, List, [], ◌∷◌, Result, ok, err}
use cadrig.Contracts.{Action}
use cadrig.Steps
use cadrig.Steps.{Step, done, failure, raised}

abbrev pub Cad : Type 0 → Type 0 → Type 0
Cad W A = W → Step A × W

abbrev pub outcome {ℓ} : {A : Type ℓ} → Result A → Step A
outcome (ok a) = done a
outcome (err e) = raised e

module _ {W A : Type 0} where
  abbrev pub pure : A → Cad W A
  pure a w = (done a, w)

  -- A step that does not call the host
  abbrev pub step : Step A → Cad W A
  step s w = (s, w)

  abbrev pub fail : String → Action → Cad W A
  fail code a = step (Steps.fail code a)

  abbrev pub read : (W → A) → Cad W A
  read f w = (done (f w), w)

  abbrev pub answer : (W → Result A) → Cad W A
  answer f w = (outcome (f w), w)

  abbrev pub call : (W → Result A × W) → Cad W A
  call f w = let (r, v) = f w in (outcome r, v)

infixl 5 ◌>>=◌ ◌>>◌
abbrev pub after : {W A B : Type 0} → (A → Cad W B) → Step A × W → Step B × W
after next (done a, w) = next a w
after next (failure d, w) = (failure d, w)
after next (raised e, w) = (raised e, w)

abbrev pub ◌>>=◌ : {W A B : Type 0} → Cad W A → (A → Cad W B) → Cad W B
◌>>=◌ m next w = after next (m w)

abbrev pub ◌>>◌ : {W A B : Type 0} → Cad W A → Cad W B → Cad W B
m >> next = m >>= λ _. next

-- `for x in xs: f(x)`
abbrev pub each : {W A : Type 0} → (A → Cad W (Unit {0})) → List A → Cad W (Unit {0})
each f [] = pure tt
each f (x ∷ xs) = let rest = each f xs in f x >> rest

-- A chain that ends well has a first call that ends well.
pub after_done :
    {W A B : Type 0} (next : A → Cad W B) (r : Step A × W) {b : B} {v : W}
    → after next r ≡ (done b, v)
    → (a : A) × (w : W) × (r ≡ (done a, w)) × (next a w ≡ (done b, v))
after_done next (done a, w) h = (a, w, refl, h)
after_done next (failure d, w) h = absurd (cc)
after_done next (raised e, w) h = absurd (cc)

-- ===== src/Prelude/Outcome.antt =====
-- Results with an error, and actions that change a state and may fail.
use mathlib.Core.Bool.{Bool, true, false}
use tunnelmanager.Prelude.Tests.{if◌then◌else◌}
use mathlib.Core.Path.{◌≡◌, refl}
use mathlib.Core.Logic.{◌⊎◌, inl, inr}

pub data Result (E : Type 0) (A : Type 0) : Type 0 where
  ok : A → Result E A
  err : E → Result E A

-- What was done to the state before an error stays done.
abbrev pub Action : Type 0 → Type 0 → Type 0 → Type 0
Action S E A = S → Result E A × S

module _ {S E A B : Type 0} where
  abbrev pub resume : Result E A → (A → Action S E B) → Action S E B
  resume (ok a) f s = f a s
  resume (err e) f s = (err e, s)

  infixl 5 ◌>>=◌ ◌>>◌
  abbrev pub ◌>>=◌ : Action S E A → (A → Action S E B) → Action S E B
  ◌>>=◌ m f s = let (r, s') = m s in resume r f s'

  abbrev pub ◌>>◌ : Action S E A → Action S E B → Action S E B
  m >> n = m >>= λ _. n

module _ {S E A : Type 0} where
  abbrev pub pure : A → Action S E A
  pure a s = (ok a, s)

  abbrev pub raise : E → Action S E A
  raise e s = (err e, s)

module _ {E F A : Type 0} where
  abbrev pub wrap_result : (E → F) → Result E A → Result F A
  wrap_result f (ok a) = ok a
  wrap_result f (err e) = err (f e)

-- `if err := m; err != nil { return fmt.Errorf("...: %w", err) }`
abbrev pub wrap : {S E F A : Type 0} → (E → F) → Action S E A → Action S F A
wrap f m s = let (r, s') = m s in (wrap_result f r, s')

-- Inversion of a successful step.
pub bind_ok :
    {S E A B : Type 0} (m : Action S E A) (f : A → Action S E B) (s : S) {b : B} {s' : S}
    → (m >>= f) s ≡ (ok b, s')
    → (a : A) × (t : S) × (m s ≡ (ok a, t)) × (f a t ≡ (ok b, s'))
bind_ok {S} {E} {A} {B} m f s {b} {s'} h = go (m s) refl
  where
    go :
        (r : Result E A × S)
        → m s ≡ r
        → (a : A) × (t : S) × (m s ≡ (ok a, t)) × (f a t ≡ (ok b, s'))
    go (ok a, t) e = (a, t, e, rw e at h)
    go (err x, t) e = cc (rw e at h)

pub wrap_ok :
    {S E F A : Type 0} (w : E → F) (m : Action S E A) (s : S) {a : A} {t : S}
    → wrap w m s ≡ (ok a, t)
    → m s ≡ (ok a, t)
wrap_ok {S} {E} {F} {A} w m s {a} {t} h = go (m s) refl
  where
    go : (r : Result E A × S) → m s ≡ r → m s ≡ (ok a, t)
    go (ok x, u) e = let k = rw e at h in cc
    go (err x, u) e = cc (rw e at h)

-- The guard of a step that succeeded did not fail.
pub guard_ok :
    {S E A : Type 0} (b : Bool) (e : E) (m : Action S E A) (s : S) {a : A} {t : S}
    → (if b then raise e else m) s ≡ (ok a, t)
    → (b ≡ false) × (m s ≡ (ok a, t))
guard_ok true e m s h = cc
guard_ok false e m s h = (refl, h)

-- To split on a computed result and keep the equation.
pub Result-cases :
    {E A : Type 0} (r : Result E A) → ((a : A) × (r ≡ ok a)) ⊎ ((e : E) × (r ≡ err e))
Result-cases (ok a) = inl (a, refl)
Result-cases (err e) = inr (e, refl)

-- ===== src/Effect/Outcomes.antt =====
-- What the result of a sequence tells of the results of its steps.
use tilt_common.Base.{◌≢◌, ◌≡◌, refl, ◌⊎◌, inl, inr}
use tilt_common.Errors.{Step, Error, Result, ok, err, stuck, wrapping}
use tilt_common.Effect.{Effect, ◌>>=◌, continue, wrapped}

module _ {ℓ κ} {S : Type 0} {A : Type ℓ} {B : Type κ} (m : Effect S A) (f : A → Effect S B)
    (tr : S) where
  continue-eq-ok :
      {b : B} (r : Result A) (tr' : S)
      → (m tr).0 ≡ r
      → (continue r f tr').0 ≡ ok b
      → (a : A) × ((m tr).0 ≡ ok a) × ((f a tr').0 ≡ ok b)
  continue-eq-ok (ok a) tr' e h = (a, e, h)
  continue-eq-ok (err x) tr' e h = cc
  continue-eq-ok stuck tr' e h = cc

  pub bind-eq-ok :
      {b : B} → ((m >>= f) tr).0 ≡ ok b → (a : A) × ((m tr).0 ≡ ok a) × ((f a (m tr).1).0 ≡ ok b)
  unfolding ◌>>=◌
  bind-eq-ok h = continue-eq-ok (m tr).0 (m tr).1 refl h

  continue-eq-err :
      {e : Error} (r : Result A) (tr' : S)
      → (m tr).0 ≡ r
      → (continue r f tr').0 ≡ err e
      → ((m tr).0 ≡ err e) ⊎ ((a : A) × ((m tr).0 ≡ ok a) × ((f a tr').0 ≡ err e))
  continue-eq-err (ok a) tr' p h = inr (a, p, h)
  continue-eq-err (err x) tr' p h = inl (cc)
  continue-eq-err stuck tr' p h = cc

  pub bind-eq-err :
      {e : Error}
      → ((m >>= f) tr).0 ≡ err e
      → ((m tr).0 ≡ err e) ⊎ ((a : A) × ((m tr).0 ≡ ok a) × ((f a (m tr).1).0 ≡ err e))
  unfolding ◌>>=◌
  bind-eq-err h = continue-eq-err (m tr).0 (m tr).1 refl h

  -- Where the first step returned a value, the sequence is what follows it.
  pub bind-step : {a : A} → (m tr).0 ≡ ok a → (m >>= f) tr ≡ f a (m tr).1
  unfolding ◌>>=◌
  bind-step h = rw h

pub wrapping-eq-ok {ℓ} :
    {A : Type ℓ} (s : Step) (r : Result A) {a : A} → wrapping s r ≡ ok a → r ≡ ok a
wrapping-eq-ok s (ok a) h = h
wrapping-eq-ok s (err e) h = cc
wrapping-eq-ok s stuck h = cc

pub wrapped-eq-ok {ℓ} :
    {S : Type 0} {A : Type ℓ} (step : Step) (m : Effect S A) (tr : S) {a : A}
    → (wrapped step m tr).0 ≡ ok a
    → (m tr).0 ≡ ok a
unfolding wrapped
wrapped-eq-ok step m tr h = wrapping-eq-ok step (m tr).0 h

-- A sequence returns if its steps do.
pub bound-ne-stuck :
    {S A B : Type 0} (m : Effect S A) (f : A → Effect S B) (s : S)
    → (m s).0 ≢ stuck
    → ((a : A) → (f a (m s).1).0 ≢ stuck)
    → ((m >>= f) s).0 ≢ stuck
unfolding ◌>>=◌
bound-ne-stuck {S} {A} {B} m f s h k = by_result (m s).0 h
  where
    by_result : (r : Result A) → r ≢ stuck → (continue r f (m s).1).0 ≢ stuck
    by_result (ok a) h = k a
    by_result (err e) h = λ p. cc
    by_result stuck h = absurd (h refl)

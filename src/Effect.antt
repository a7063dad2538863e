-- ===== src/Effect.antt =====
-- Functions that act on a state and return (value, error): the state is threaded through, and stays
-- as it is when an error ends a function.
pub mod Outcomes
pub mod Keeps
use tilt_common.Errors.{Step, Error, Result, ok, err, stuck, wrapping}

abbrev pub Effect {ℓ} : Type 0 → Type ℓ → Type ℓ
Effect S A = S → Result A × S

abbrev pub continue {ℓ κ} :
    {S : Type 0} {A : Type ℓ} {B : Type κ} → Result A → (A → Effect S B) → Effect S B
continue (ok a) f s = f a s
continue (err e) f s = (err e, s)
continue stuck f s = (stuck, s)

-- `if err != nil { return …, err }`
infixl 5 ◌>>=◌ ◌>>◌
unfoldable pub ◌>>=◌ {ℓ κ} :
    {S : Type 0} {A : Type ℓ} {B : Type κ} → Effect S A → (A → Effect S B) → Effect S B
◌>>=◌ m f s = let (r, s') = m s in continue r f s'

abbrev pub ◌>>◌ {ℓ} : {S : Type 0} {B : Type ℓ} → Effect S (Unit {0}) → Effect S B → Effect S B
m >> n = m >>= λ _. n

module _ {ℓ} {S : Type 0} {A : Type ℓ} where
  unfoldable pub lift : Result A → Effect S A
  lift r s = (r, s)

  abbrev pub pure : A → Effect S A
  pure a = lift (ok a)

  abbrev pub raise : Error → Effect S A
  raise e = lift (err e)

  -- `if err != nil { return …, fmt.Errorf("…: %w", err) }`
  unfoldable pub wrapped : Step → Effect S A → Effect S A
  wrapped step m s = let (r, s') = m s in (wrapping step r, s')

  -- The result as a value, where the caller goes on after an error.
  unfoldable pub attempt : Effect S A → Effect S (Result A)
  attempt m s = let (r, s') = m s in (ok r, s')

  unfoldable pub ask : (S → A) → Effect S A
  ask f s = (ok (f s), s)

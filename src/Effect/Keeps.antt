-- ===== src/Effect/Keeps.antt =====
-- Effects that leave a part of the state as it is, however they end.
use tilt_common.Base.{◌≡◌, refl, ◌∙◌, Bool, true, false, if◌then◌else◌}
use tilt_common.Effect.{Effect, ◌>>=◌, continue, lift, wrapped, attempt, ask}
use tilt_common.Errors.{Step, Result, ok, err, stuck}

module _ {ℓ} {S : Type 0} {X : Type ℓ} (view : S → X) where
  abbrev pub Keeps {κ} : {A : Type κ} → Effect S A → Type ℓ
  Keeps m = (s : S) → view (m s).1 ≡ view s

  pub view-continue {κ ρ} :
      {A : Type κ} {B : Type ρ} (r : Result A) (f : A → Effect S B) (s : S)
      → ((a : A) → view (f a s).1 ≡ view s)
      → view (continue r f s).1 ≡ view s
  view-continue (ok a) f s h = h a
  view-continue (err e) f s h = refl
  view-continue stuck f s h = refl

  pub Keeps-bind {κ ρ} :
      {A : Type κ} {B : Type ρ} (m : Effect S A) (f : A → Effect S B)
      → Keeps m
      → ((a : A) → Keeps (f a))
      → Keeps (m >>= f)
  unfolding ◌>>=◌
  Keeps-bind m f h k s = view-continue (m s).0 f (m s).1 (λ a. k a (m s).1) ∙ h s

  pub Keeps-lift {κ} : {A : Type κ} (r : Result A) → Keeps (lift r)
  unfolding lift
  Keeps-lift r s = refl

  pub Keeps-ask {κ} : {A : Type κ} (f : S → A) → Keeps (ask f)
  unfolding ask
  Keeps-ask f s = refl

  pub Keeps-wrapped {κ} :
      {A : Type κ} (step : Step) (m : Effect S A) → Keeps m → Keeps (wrapped step m)
  unfolding wrapped
  Keeps-wrapped step m h s = h s

  pub Keeps-attempt {κ} : {A : Type κ} (m : Effect S A) → Keeps m → Keeps (attempt m)
  unfolding attempt
  Keeps-attempt m h s = h s

  pub Keeps-if {κ} :
      {A : Type κ} (b : Bool) (m n : Effect S A) → Keeps m → Keeps n → Keeps (if b then m else n)
  Keeps-if true m n h k = h
  Keeps-if false m n h k = k

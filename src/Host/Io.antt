-- ===== src/Host/Io.antt =====
-- The effects of the program: its state is the trace of events.
use tilt_common.Base.{Option, none, some, ◌∷◌}
use tilt_common.Effect.{Effect}
use tilt_common.Errors.{Error, Result, ok, err}
use tilt_common.Host.{Resource, Event, opened, closed, logged, LogLine, Trace}
pub use tilt_common.Effect.{continue, ◌>>◌, pure, raise}
unfoldable pub use tilt_common.Effect.{◌>>=◌, lift, wrapped, attempt, ask}

abbrev pub Io {ℓ} : Type ℓ → Type ℓ
Io A = Effect Trace A

module _ {ℓ} {A : Type ℓ} where
  -- `defer closeResource(…)`: the resource is closed however `m` ends. That closing failed is
  -- only logged.
  unfoldable pub deferring : Resource → Io A → Io A
  deferring r m tr = let (a, tr') = m tr in (a, closed r ∷ tr')

-- An action that the world may refuse.
abbrev pub refusal : Option Error → Result (Unit {0})
refusal none = ok tt
refusal (some e) = err e

unfoldable pub act : Event → (Trace → Option Error) → Io (Unit {0})
act e answer tr = (refusal (answer tr), e ∷ tr)

-- An action that opens a resource, unless the world refuses it.
abbrev pub granted : Resource → Option Error → Trace → Result (Unit {0}) × Trace
granted r none tr = (ok tt, opened r ∷ tr)
granted r (some e) tr = (err e, tr)

unfoldable pub acquire : Resource → (Trace → Option Error) → Io (Unit {0})
acquire r answer tr = granted r (answer tr) tr

unfoldable pub close : Resource → Io (Unit {0})
close r tr = (ok tt, closed r ∷ tr)

unfoldable pub log : LogLine → Io (Unit {0})
log l tr = (ok tt, logged l ∷ tr)

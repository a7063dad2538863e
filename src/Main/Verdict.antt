-- ===== src/Main/Verdict.antt =====
-- Which exit code stands for which end of a run.
use tilt_common.Base.{ℕ, suc, ◌≡◌, List, [], ◌∷◌, Bytes}
use tilt_common.Errors.{Error}
use tilt_common.Export.{ExportOptions, ExportResult, failure, exporters_of}
use tilt_common.Export.Attempts.{Attempts}
use tilt_common.Export.Outcome.{IsSetupError}
use tilt_common.Host.{Host, Trace}

-- What an exit code says of a run's result: which exporters returned an error.
pub data Verdict (H : Host) (opts : ExportOptions) (r : ExportResult) : ℕ → Type 0 where
  early :
      (path : Bytes) (e : Error)
      → IsSetupError opts path e
      → r ≡ failure path e
      → Verdict H opts r 2
  all_worked :
      (tr tr' : Trace) {m n : ℕ}
      → Attempts (exporters_of H opts) tr tr' m n []
      → r.errors ≡ []
      → Verdict H opts r 0
  some_worked :
      (tr tr' : Trace) {m n : ℕ} {e : Error} {errors : List Error}
      → Attempts (exporters_of H opts) tr tr' m (suc n) (e ∷ errors)
      → r.errors ≡ e ∷ errors
      → Verdict H opts r 1
  none_worked :
      (tr tr' : Trace) {m : ℕ} {e : Error} {errors : List Error}
      → Attempts (exporters_of H opts) tr tr' m 0 (e ∷ errors)
      → r.errors ≡ e ∷ errors
      → Verdict H opts r 2

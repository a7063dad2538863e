-- ===== src/Main/Exit.antt =====
-- The exit code of the program.
use tilt_common.Base.{◌≡◌, ap, true}
use tilt_common.Errors.{ok}
use tilt_common.Export.{ExportOptions, ExportResult, run_export}
use tilt_common.Host.{Host, Trace}
use tilt_common.Host.Io.{lift}
use tilt_common.Effect.Outcomes.{bind-step}
use tilt_common.Main.{Flags, exit_code, export_and_exit, run}
use tilt_common.PortForward.{Kube}

module _ (H : Host) (K : Kube) where
  pub export_and_exit-eq-ok :
      (opts : ExportOptions) (tr : Trace) (r : ExportResult)
      → (run_export H opts tr).0 ≡ ok r
      → (export_and_exit H K opts tr).0 ≡ ok (exit_code r.status)
  unfolding export_and_exit lift
  export_and_exit-eq-ok opts tr r e = ap (λ x. x.0) (bind-step (run_export H opts) _ tr e)

  pub run-exit_code :
      (flags : Flags) (tr : Trace) (r : ExportResult)
      → flags.no_port_forward ≡ true
      → (run_export H flags.opts tr).0 ≡ ok r
      → (run H K flags tr).0 ≡ ok (exit_code r.status)
  unfolding run
  run-exit_code flags tr r h e = rw h (export_and_exit-eq-ok flags.opts tr r e)

-- ===== src/Main.antt =====
-- cmd/observability-export/main.go: from the options that the flags set to the exit code.
pub mod Exit
pub mod Verdict
pub mod Total
use tilt_common.Base.{ℕ, Bool, Bytes, if◌then◌else◌}
use tilt_common.Errors.{Result, ok, err, stuck}
use tilt_common.Export.{
  ExportOptions, ExportStatus, status_success, status_partial, status_failure, run_export,
}
use tilt_common.Host.{Host}
use tilt_common.Host.Io.{Io, ◌>>=◌, lift, pure, attempt}
use tilt_common.PortForward.{Kube, setup_port_forward}

-- What `flag.Parse` leaves in the variables of `run`.
pub record Flags : Type 0 where
  pub opts : ExportOptions
  pub kubeconfig_path : Bytes
  pub namespace : Bytes
  pub no_port_forward : Bool

abbrev pub exit_success : ℕ
exit_success = 0

abbrev pub exit_partial : ℕ
exit_partial = 1

abbrev pub exit_failure : ℕ
exit_failure = 2

-- The `switch result.Status`; a fourth status cannot arise.
unfoldable pub exit_code : ExportStatus → ℕ
exit_code status_success = exit_success
exit_code status_partial = exit_partial
exit_code status_failure = exit_failure

module _ (H : Host) (K : Kube) where
  pub export_and_exit : ExportOptions → Io ℕ
  unfolding run_export exit_code
  export_and_exit opts = do result ← run_export H opts; pure (exit_code result.status)

  -- Behind `SetupPortForward`.
  pub with_options : Result ExportOptions → Io ℕ
  unfolding export_and_exit
  with_options (ok opts) = export_and_exit opts
  with_options (err e) = pure exit_failure
  with_options stuck = lift stuck

  unfoldable pub run : Flags → Io ℕ
  unfolding with_options setup_port_forward
  run flags =
      if flags.no_port_forward
      then export_and_exit flags.opts
      else attempt (setup_port_forward K flags.kubeconfig_path flags.namespace flags.opts)
        >>= with_options

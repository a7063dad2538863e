-- ===== src/Main/Total.antt =====
-- `run` of main.go: the ways in which the program ends.
use tilt_common.Base.{Bool, if◌then◌else◌, ◌≡◌, ◌≢◌, refl, true, false, ℕ}
use tilt_common.Errors.{Error, Result, ok, err, stuck}
use tilt_common.Export.{ExportOptions, ExportResult, run_export}
use tilt_common.Export.Sound.{run_export-returns}
use tilt_common.Host.{Host, Trace}
use tilt_common.Host.Io.{◌>>=◌, attempt, lift}
use tilt_common.Host.Sound.{Answers}
use tilt_common.Main.{Flags, exit_failure, exit_code, export_and_exit, with_options, run}
use tilt_common.Main.Exit.{export_and_exit-eq-ok}
use tilt_common.PortForward.{Kube, setup_port_forward}
use tilt_common.PortForward.Total.{KubeAnswers, setup_port_forward-ne-stuck}

module _ (H : Host) (K : Kube) (flags : Flags) (tr : Trace) where
  abbrev setup : Result ExportOptions × Trace
  setup = setup_port_forward K flags.kubeconfig_path flags.namespace flags.opts tr

  -- The ways that the program can end, with the code.
  pub data Ends : ℕ → Type 0 where
    direct :
        (r : ExportResult)
        → flags.no_port_forward ≡ true
        → (run_export H flags.opts tr).0 ≡ ok r
        → Ends (exit_code r.status)
    no_cluster : (e : Error) → flags.no_port_forward ≡ false → setup.0 ≡ err e → Ends exit_failure
    forwarded :
        (opts : ExportOptions) (r : ExportResult)
        → flags.no_port_forward ≡ false
        → setup.0 ≡ ok opts
        → (run_export H opts setup.1).0 ≡ ok r
        → Ends (exit_code r.status)

  -- Behind the set-up, by what it returned.
  Ends-with_options :
      (r : Result ExportOptions)
      → Answers H
      → flags.no_port_forward ≡ false
      → setup.0 ≡ r
      → r ≢ stuck
      → (code : ℕ) × ((with_options H K r setup.1).0 ≡ ok code) × Ends code
  unfolding with_options lift
  Ends-with_options (ok opts) law p q h =
      let (r, e, coherent) = run_export-returns H opts setup.1 law in
      (exit_code r.status, export_and_exit-eq-ok H K opts setup.1 r e, forwarded opts r p q e)
  Ends-with_options (err e) law p q h = (exit_failure, refl, no_cluster e p q)
  Ends-with_options stuck law p q h = absurd (h refl)

  -- If each Go function that the program calls returns, with a value or an error, the program ends
  -- with an exit code. With port forwarding it is 2 if the cluster cannot be reached. Otherwise it
  -- follows from the status of the run, which is made with the options of the flags, or with those
  -- that the set-up returned.
  pub run-Ends :
      Answers H → KubeAnswers K → (code : ℕ) × ((run H K flags tr).0 ≡ ok code) × Ends code
  unfolding run attempt ◌>>=◌
  run-Ends law kube = by_flag flags.no_port_forward refl
    where
      by_flag :
          (b : Bool)
          → flags.no_port_forward ≡ b
          → (code : ℕ) × (((if b
                  then export_and_exit H K flags.opts
                  else attempt
                      (setup_port_forward K flags.kubeconfig_path flags.namespace flags.opts)
                    >>= with_options H K)
                tr).0
              ≡ ok code)
            × Ends code
      by_flag true p =
          let (r, e, coherent) = run_export-returns H flags.opts tr law in
          (exit_code r.status, export_and_exit-eq-ok H K flags.opts tr r e, direct r p e)
      by_flag false p =
          Ends-with_options setup.0 law p refl
            (setup_port_forward-ne-stuck K kube flags.kubeconfig_path flags.namespace flags.opts tr)

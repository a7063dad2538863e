-- ===== src/Examples/Runs.antt =====
-- The theorems on the whole program at concrete inputs.
use tilt_common.Base.{ℕ, ◌≡◌, [], codes, false}
use tilt_common.Errors.{ok}
use tilt_common.Host.Sound.{ok-ne-stuck, err-ne-stuck}
use tilt_common.Main
use tilt_common.Main.{Flags}
use tilt_common.Main.Total.{Ends, run-Ends}
use tilt_common.PortForward.Total.{KubeAnswers}
use tilt_common.Samples.{calm, calm-Answers, sample_kube, sample_options}

abbrev forwarding_flags : Flags
forwarding_flags = record {
  opts = sample_options;
  kubeconfig_path = [];
  namespace = codes "observability";
  no_port_forward = false;
}

sample_kube-KubeAnswers : KubeAnswers sample_kube
sample_kube-KubeAnswers = record {
  build_config_from_flags = λ path. ok-ne-stuck _;
  in_cluster_config = err-ne-stuck _;
  new_for_config = λ cfg. ok-ne-stuck _;
  get_namespace = λ tr cfg name. ok-ne-stuck _;
}

run-Ends_example :
    (code : ℕ) × ((Main.run calm sample_kube forwarding_flags []).0 ≡ ok code)
    × Ends calm sample_kube forwarding_flags [] code
run-Ends_example =
    run-Ends calm sample_kube forwarding_flags [] calm-Answers sample_kube-KubeAnswers

-- ===== src/PortForward/Total.antt =====
-- `SetupPortForward`: when it returns.
use tilt_common.Base.{◌≢◌, ℕ, Bytes}
use tilt_common.Effect.Outcomes.{bound-ne-stuck}
use tilt_common.Errors.{connecting_cluster, Error, Result, ok, err, stuck}
use tilt_common.Export.{ExportOptions}
use tilt_common.Host.{Trace, namespaces_get}
use tilt_common.Host.Io.{lift, wrapped}
use tilt_common.Host.Sound.{ok-ne-stuck, err-ne-stuck, wrapping-ne-stuck}
use tilt_common.PortForward.{
  Kube, query, in_cluster_or, config_or, build_kube_config, kubeconfig_path_of, setup_port_forward,
}

-- The Kubernetes client functions that the set-up calls return, with a value or an error.
pub record KubeAnswers (K : Kube) : Type 0 where
  pub build_config_from_flags : (path : Bytes) → K.build_config_from_flags path ≢ stuck
  pub in_cluster_config : K.in_cluster_config ≢ stuck
  pub new_for_config : (cfg : ℕ) → K.new_for_config cfg ≢ stuck
  pub get_namespace : (tr : Trace) (cfg : ℕ) (name : Bytes) → K.get_namespace tr cfg name ≢ stuck

module _ (K : Kube) (law : KubeAnswers K) where
  in_cluster_or-ne-stuck :
      (path : Bytes) (e : Error) (r : Result ℕ) → r ≢ stuck → in_cluster_or K path e r ≢ stuck
  unfolding in_cluster_or
  in_cluster_or-ne-stuck path e (ok cfg) h = ok-ne-stuck cfg
  in_cluster_or-ne-stuck path e (err x) h = err-ne-stuck _
  in_cluster_or-ne-stuck path e stuck h = h

  config_or-ne-stuck : (path : Bytes) (r : Result ℕ) → r ≢ stuck → config_or K path r ≢ stuck
  unfolding config_or
  config_or-ne-stuck path (ok cfg) h = ok-ne-stuck cfg
  config_or-ne-stuck path (err e) h =
      in_cluster_or-ne-stuck path e K.in_cluster_config law.in_cluster_config
  config_or-ne-stuck path stuck h = h

  build_kube_config-ne-stuck : (path : Bytes) → build_kube_config K path ≢ stuck
  unfolding build_kube_config
  build_kube_config-ne-stuck path =
      config_or-ne-stuck (kubeconfig_path_of K path) _
        (law.build_config_from_flags (kubeconfig_path_of K path))

  pub setup_port_forward-ne-stuck :
      (path namespace : Bytes) (opts : ExportOptions) (tr : Trace)
      → (setup_port_forward K path namespace opts tr).0 ≢ stuck
  unfolding setup_port_forward lift wrapped query
  setup_port_forward-ne-stuck path namespace opts tr =
      bound-ne-stuck (lift _) _ tr (wrapping-ne-stuck _ _ (build_kube_config-ne-stuck path)) λ cfg.
        bound-ne-stuck (lift _) _ tr (wrapping-ne-stuck _ _ (law.new_for_config cfg)) λ u.
          bound-ne-stuck
            (wrapped (connecting_cluster namespace)
              (query (namespaces_get namespace) (λ tr. K.get_namespace tr cfg namespace)))
            _ tr (wrapping-ne-stuck _ _ (law.get_namespace tr cfg namespace)) λ v. ok-ne-stuck _

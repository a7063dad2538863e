-- ===== src/PortForward.antt =====
-- cmd/observability-export/portforward.go: routes into the cluster, the dialer that uses them, and
-- the choice of a kubeconfig. The Kubernetes client libraries are a parameter.
pub mod Routes
pub mod Total
pub mod Dial
use tilt_common.Base.{
  ℕ, zero, suc, ◌+◌, ◌/◌, ◌%◌, Bool, true, false, Option, none, some, List, [], ◌∷◌, ◌++◌, ltb,
  if◌then◌else◌, Bytes, codes, is_empty,
}
use tilt_common.Base.Dict.{Dict, lookup, insert}
use tilt_common.Errors.{
  no_route, no_selector, no_pods, parsing_address, getting_service, listing_pods, forwarding_to,
  loading_kubeconfig, creating_kube_client, connecting_cluster, Error, fault, both_failed, Result,
  ok, err, stuck, wrapping,
}
use tilt_common.Errors
use tilt_common.Export.{ExportOptions}
use tilt_common.Host.{
  KubeCall, namespaces_get, services_get, pods_list, pod_forward, queried, Route, forwarding_client,
  Trace,
}
use tilt_common.Host.Io.{Io, ◌>>=◌, ◌>>◌, lift, pure, raise, wrapped, ask, refusal}

-- A REST configuration, a pod and a connection are only passed on, so they are numbers.
pub record Kube : Type 0 where
  pub getenv : Bytes → Bytes
  pub join_path : Bytes → Bytes → Bytes
  pub split_host_port : Bytes → Result (Bytes × Bytes)
  pub build_config_from_flags : Bytes → Result ℕ
  pub in_cluster_config : Result ℕ
  pub new_for_config : ℕ → Result (Unit {0})
  pub get_namespace : Trace → ℕ → Bytes → Result (Unit {0})
  pub service_selector : Trace → ℕ → Bytes → Bytes → Result (Dict Bytes)
  pub format_selector : Dict Bytes → Bytes
  -- the first pod of a listing with limit 1, if there is one
  pub list_pods : Trace → ℕ → Bytes → Bytes → Result (List ℕ)
  pub forward : Trace → ℕ → ℕ → ℕ → Result ℕ

pub record Dialer : Type 0 where
  pub config : ℕ
  pub namespace : Bytes
  pub routes : Dict Route

abbrev pub route : Bytes → ℕ → Route
route name port = record { service_name = name; port = port }

-- A request to the cluster, and its answer.
unfoldable pub query : {A : Type 0} → KubeCall → (Trace → Result A) → Io A
query call answer tr = (answer tr, queried call ∷ tr)

module _ (K : Kube) where
  require_route : Bytes → Option Route → Result Route
  require_route host none = err (fault (no_route host))
  require_route host (some r) = ok r

  pub require_selector : Route → Dict Bytes → Result Bytes
  require_selector r [] = err (fault (no_selector r.service_name))
  require_selector r (label ∷ labels) = ok (K.format_selector (label ∷ labels))

  first_pod : Route → Bytes → List ℕ → Result ℕ
  first_pod r selector [] = err (fault (no_pods r.service_name selector))
  first_pod r selector (pod ∷ pods) = ok pod

  -- Behind the selector: the pods, and the connection to the first of them.
  unfoldable pub dial_pod : Dialer → Route → Bytes → Io ℕ
  unfolding first_pod query
  dial_pod d r selector = do
    pods ← wrapped (listing_pods r.service_name) (
        query (pods_list d.namespace selector) (λ tr. K.list_pods tr d.config d.namespace selector))
    pod ← lift (first_pod r selector pods)
    wrapped (forwarding_to r.service_name)
        (query (pod_forward pod r.port) (λ tr. K.forward tr d.config pod r.port))

  -- Behind the route.
  unfoldable pub dial_route : Dialer → Route → Io ℕ
  unfolding require_selector dial_pod query
  dial_route d r = do
    labels ← wrapped (getting_service r.service_name) (
        query (services_get d.namespace r.service_name)
          (λ tr. K.service_selector tr d.config d.namespace r.service_name))
    selector ← lift (require_selector r labels)
    dial_pod d r selector

  -- `portForwardDialer.DialContext`; the port of the address is not used.
  unfoldable pub dial_context : Dialer → Bytes → Io ℕ
  unfolding require_route dial_route
  dial_context d addr = do
    (host, port) ← lift (wrapping (parsing_address addr) (K.split_host_port addr))
    r ← lift (require_route host (lookup host d.routes))
    dial_route d r

  unfoldable pub kubeconfig_path_of : Bytes → Bytes
  kubeconfig_path_of path =
      if is_empty path
      then (if is_empty (K.getenv (codes "KUBECONFIG"))
          then K.join_path (K.join_path (K.getenv (codes "HOME")) (codes ".kube")) (codes "config")
          else K.getenv (codes "KUBECONFIG"))
      else path

  in_cluster_or : Bytes → Error → Result ℕ → Result ℕ
  in_cluster_or path e (ok cfg) = ok cfg
  in_cluster_or path e (err e') = err (both_failed path e e')
  in_cluster_or path e stuck = stuck

  config_or : Bytes → Result ℕ → Result ℕ
  unfolding in_cluster_or
  config_or path (ok cfg) = ok cfg
  config_or path (err e) = in_cluster_or path e K.in_cluster_config
  config_or path stuck = stuck

  unfoldable pub build_kube_config : Bytes → Result ℕ
  unfolding kubeconfig_path_of config_or
  build_kube_config path =
      config_or (kubeconfig_path_of path) (K.build_config_from_flags (kubeconfig_path_of path))

abbrev pub add_route : Bool → Bytes → ℕ → Dict Route → Dict Route
add_route skip name port routes = if skip then routes else insert name (route name port) routes

-- The four conditional entries of `dialer.routes`.
unfoldable pub routes_of : ExportOptions → Dict Route
routes_of opts = add_route opts.skip_profiles (codes "parca-server") 7070 (
    add_route opts.skip_logs (codes "victorialogs") 9428 (
      add_route opts.skip_traces (codes "victoriatraces") 10428
        (add_route opts.skip_metrics (codes "victoriametrics") 8428 [])))

-- The options with the URLs of what is not skipped, and the client that dials by the routes.
unfoldable pub forwarded_options : ℕ → Bytes → ExportOptions → ExportOptions
unfolding routes_of
forwarded_options cfg namespace opts = record opts {
  metrics_url = if opts.skip_metrics then opts.metrics_url else codes "http://victoriametrics:8428";
  traces_url = if opts.skip_traces then opts.traces_url else codes "http://victoriatraces:10428";
  logs_url = if opts.skip_logs then opts.logs_url else codes "http://victorialogs:9428";
  parca_url = if opts.skip_profiles then opts.parca_url else codes "http://parca-server:7070";
  http_client = some (forwarding_client cfg namespace (routes_of opts));
}

module _ (K : Kube) where
  -- The returned cleanup function does nothing.
  unfoldable pub setup_port_forward : Bytes → Bytes → ExportOptions → Io ExportOptions
  unfolding build_kube_config forwarded_options query
  setup_port_forward kubeconfig_path namespace opts = do
    cfg ← lift (wrapping loading_kubeconfig (build_kube_config K kubeconfig_path))
    lift (wrapping creating_kube_client (K.new_for_config cfg))
    wrapped (connecting_cluster namespace)
        (query (namespaces_get namespace) (λ tr. K.get_namespace tr cfg namespace))
    pure (forwarded_options cfg namespace opts)

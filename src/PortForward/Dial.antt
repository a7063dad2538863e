-- ===== src/PortForward/Dial.antt =====
-- `DialContext`: what a connection is made of, and which requests it takes.
use tilt_common.Base.{ℕ, ◌≡◌, some, List, ◌∷◌, Bytes}
use tilt_common.Base.Dict.{Dict, lookup}
use tilt_common.Errors.{ok}
use tilt_common.Host.{queried, services_get, pods_list, pod_forward, Route, Trace}
use tilt_common.PortForward.{Kube, Dialer, require_selector}

module _ (K : Kube) where
  -- The traces in between.
  abbrev pub after_service : Dialer → Route → Trace → Trace
  after_service d to tr = queried (services_get d.namespace to.service_name) ∷ tr

  abbrev pub after_pods : Dialer → Bytes → Trace → Trace
  after_pods d selector tr = queried (pods_list d.namespace selector) ∷ tr

  -- A connection to the first of the pods that a selector has.
  pub record PodDialled (d : Dialer) (to : Route) (selector : Bytes) (tr tr' : Trace) (conn : ℕ)
      : Type 0 where
    pub pod : ℕ
    pub pods : List ℕ
    pub listed : K.list_pods tr d.config d.namespace selector ≡ ok (pod ∷ pods)
    pub connected : K.forward (after_pods d selector tr) d.config pod to.port ≡ ok conn
    pub requests : tr' ≡ queried (pod_forward pod to.port) ∷ after_pods d selector tr

  -- A connection by a route: the pods are those of the service's selector.
  pub record RouteDialled (d : Dialer) (to : Route) (tr tr' : Trace) (conn : ℕ) : Type 0 where
    pub labels : Dict Bytes
    pub selector : Bytes
    pub found : K.service_selector tr d.config d.namespace to.service_name ≡ ok labels
    pub selected : require_selector K to labels ≡ ok selector
    pub dialled : PodDialled d to selector (after_service d to tr) tr' conn

  -- A connection to an address: the route is that of its host.
  pub record Dialled (d : Dialer) (addr : Bytes) (tr tr' : Trace) (conn : ℕ) : Type 0 where
    pub host : Bytes
    pub port : Bytes
    pub to : Route
    pub split : K.split_host_port addr ≡ ok (host, port)
    pub routed : lookup host d.routes ≡ some to
    pub dialled : RouteDialled d to tr tr' conn

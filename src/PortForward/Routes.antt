-- ===== src/PortForward/Routes.antt =====
-- `SetupPortForward`: the routes of the dialer, and which addresses it refuses.
use tilt_common.Base.{
  ℕ, ◌≡◌, refl, ap, ◌∙◌, Bool, true, false, not, ◌&&◌, Option, none, some, [], Bytes, codes, same,
  if◌then◌else◌,
}
use tilt_common.Base.Dict.{Dict, lookup, lookup-insert}
use tilt_common.Errors.{fault, no_route, ok, err}
use tilt_common.Export.{ExportOptions}
use tilt_common.Host.{Route, Trace}
use tilt_common.Host.Io.{◌>>=◌, lift}
use tilt_common.PortForward.{Kube, Dialer, route, add_route, routes_of, dial_context}

-- Whether `host` is a service whose export is not skipped.
abbrev pub serves : Bool → Bytes → Bytes → Bool
serves skip name host = not skip && same name host

-- Where the dialer takes a host.
unfoldable pub route_for : ExportOptions → Bytes → Option Route
route_for opts host =
    if serves opts.skip_profiles (codes "parca-server") host
    then some (route (codes "parca-server") 7070)
    else if serves opts.skip_logs (codes "victorialogs") host
    then some (route (codes "victorialogs") 9428)
    else if serves opts.skip_traces (codes "victoriatraces") host
    then some (route (codes "victoriatraces") 10428)
    else if serves opts.skip_metrics (codes "victoriametrics") host
    then some (route (codes "victoriametrics") 8428)
    else none

lookup-add_route :
    (host : Bytes) (skip : Bool) (name : Bytes) (port : ℕ) (m : Dict Route) {o : Option Route}
    → lookup host m ≡ o
    → lookup host (add_route skip name port m)
      ≡ (if serves skip name host then some (route name port) else o)
lookup-add_route host true name port m p = p
lookup-add_route host false name port m p =
    lookup-insert host name (route name port) m
    ∙ ap (λ o. if same name host then some (route name port) else o) p

-- With the routes of a run, a host goes to the service of its name and that service's port if the
-- service's export is not skipped, and every other host to none.
pub routes_of-lookup :
    (opts : ExportOptions) (host : Bytes) → lookup host (routes_of opts) ≡ route_for opts host
unfolding routes_of route_for
routes_of-lookup opts host =
    lookup-add_route host opts.skip_profiles (codes "parca-server") 7070 _ (
      lookup-add_route host opts.skip_logs (codes "victorialogs") 9428 _ (
        lookup-add_route host opts.skip_traces (codes "victoriatraces") 10428 _ (
          lookup-add_route host opts.skip_metrics (codes "victoriametrics") 8428 []
            (unfold lookup in refl))))

module _ (K : Kube) where
  refused-dial :
      (d : Dialer) (addr host port : Bytes) (tr : Trace)
      → K.split_host_port addr ≡ ok (host, port)
      → lookup host d.routes ≡ none
      → dial_context K d addr tr ≡ (err (fault (no_route host)), tr)
  unfolding dial_context ◌>>=◌ lift
  refused-dial d addr host port tr p q = rw (p, q)

  -- With the routes of a run, an address whose host is no service, or one whose export is skipped, is
  -- refused without a request to the cluster.
  pub dial_context-route_for :
      (opts : ExportOptions) (cfg : ℕ) (namespace addr host port : Bytes) (tr : Trace)
      → K.split_host_port addr ≡ ok (host, port)
      → route_for opts host ≡ none
      → dial_context K
          (record { config = cfg; namespace = namespace; routes = routes_of opts })
          addr
          tr
        ≡ (err (fault (no_route host)), tr)
  dial_context-route_for opts cfg namespace addr host port tr p q =
      refused-dial _ addr host port tr p (routes_of-lookup opts host ∙ q)

-- ===== src/Monitoring/Requests.antt =====
-- The request counters of nats-mq/core/monitoring.go, over any sequence of requests.
use nats_mq.Prelude.{
  ℕ, ◌+◌, ◌%◌, ◌≡◌, refl, ap, String, true, List, [], ◌∷◌, Option, none, some, inl, inr, Bool-cases,
  arith, str_eq, if◌then◌else◌,
}
use nats_mq.Prelude.Dict.{lookup}
use nats_mq.Error.{Result}
use nats_mq.Float.{FloatOps}
use nats_mq.Conf.{MonitoringConfig}
use nats_mq.Stats.{ConnectorStats, int64_mod}
use nats_mq.Monitoring.Counters.{
  hits, copied, Counts, count_request-Counts, Counts-same, fresh-Counts,
}
use nats_mq.Monitoring.Start.{is_enabled, IsServing, start_monitoring-IsServing}
use nats_mq.Monitoring.{
  root_path, varz_path, healthz_path, Monitor, Network, start_monitoring, count_of, handle_root,
  handle_healthz, Response, BridgeStats, Clock, bridge_stats, handle_varz,
}

-- A request for the start page or another path that is led there, for the statistics, or for the
-- health of the server.
pub data Request : Type 0 where
  get_root : String → Request
  get_varz : Clock → List ConnectorStats → Request
  get_healthz : Request

-- The counter that a request adds to.
abbrev pub hit : Request → Option String
hit (get_root path) = if str_eq path root_path then some root_path else none
hit (get_varz clock connectors) = some varz_path
hit get_healthz = some healthz_path

-- How many of the requests add to a counter.
abbrev pub number_of : String → List Request → ℕ
number_of path [] = 0
number_of path (r ∷ rs) = hits (hit r) path + number_of path rs

module _ (f : FloatOps) (q50 q75 q90 q95 : ℕ) (marshal : BridgeStats → Result String) where
  -- The handler of a request.
  unfoldable pub serve_request : Request → Monitor → Option (Response × Monitor)
  serve_request (get_root path) m = handle_root path m
  serve_request (get_varz clock connectors) m =
      handle_varz f q50 q75 q90 q95 marshal clock connectors m
  serve_request get_healthz m = handle_healthz m

  abbrev next : Option (Response × Monitor) → (Monitor → Option Monitor) → Option Monitor
  next none k = none
  next (some (r, m)) k = k m

  -- The server after requests, one after the other; `none` is a panic.
  unfoldable pub serve_all : List Request → Monitor → Option Monitor
  serve_all [] m = some m
  serve_all (r ∷ rs) m = next (serve_request r m) (serve_all rs)

  serve_request-Counts :
      (r : Request) (m : Monitor) (number : String → ℕ)
      → Counts m number
      → (response : Response) × (m' : Monitor) × (serve_request r m ≡ some (response, m'))
        × Counts m' (λ p. hits (hit r) p + number p)
  unfolding serve_request handle_root handle_varz handle_healthz
  serve_request-Counts (get_root path) m number c = elim (Bool-cases (str_eq path root_path)) [
    | inl start ↦
        let (m', e, c') = count_request-Counts root_path m number c in
        rw (start, e) (_, _, refl, c')
    | inr other ↦ rw other (_, _, refl, Counts-same _ (λ p. omega arith) c)
  ]
  serve_request-Counts (get_varz clock connectors) m number c =
      let (m', e, c') = count_request-Counts varz_path m number c in
      rw (handle_varz, e) (_, _, refl, c')
  serve_request-Counts get_healthz m number c =
      let (m', e, c') = count_request-Counts healthz_path m number c in rw e (_, _, refl, c')

  serve_all-Counts :
      (rs : List Request) (m : Monitor) (number : String → ℕ)
      → Counts m number
      → (m' : Monitor) × (serve_all rs m ≡ some m') × Counts m' (λ p. number_of p rs + number p)
  unfolding serve_all
  serve_all-Counts [] m number c = (m, refl, Counts-same _ (λ p. omega arith) c)
  serve_all-Counts (r ∷ rs) m number c =
      let (response, m1, e, c1) = serve_request-Counts r m number c in
      let (m2, e2, c2) = serve_all-Counts rs m1 _ c1 in
      (m2, rw e e2, Counts-same _ (λ p. omega arith) c2)

  -- A server that startMonitoring has started with a port set serves every sequence of requests
  -- without a panic. The statistics that it reports afterwards have, for every path, the number of
  -- requests that count for it, modulo 2^64: those for "/" itself, for the statistics and for the health.
  pub serve_all-bridge_stats :
      (n : Network) (c : MonitoringConfig) (m m0 : Monitor) (rs : List Request) (clock : Clock)
      (connectors : List ConnectorStats) (path : String)
      → is_enabled c ≡ true
      → start_monitoring n c m ≡ (none, m0)
      → (m' : Monitor) × (serve_all rs m0 ≡ some m')
        × (count_of (lookup path (bridge_stats f q50 q75 q90 q95 clock connectors m').http_requests)
            ≡ number_of path rs % int64_mod)
  unfolding bridge_stats
  serve_all-bridge_stats n c m m0 rs clock connectors path on e =
      let s : IsServing n c m0 = start_monitoring-IsServing n c m m0 on e in
      let (m', served, k) =
        serve_all-Counts rs m0 (λ p. 0) (fresh-Counts m0 (ap (λ x. x.http_req_stats) s.state)) in
      (m', served, rw (k.held, copied path k.counts k.distinct) (omega (arith, k.counted path)))

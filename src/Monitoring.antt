-- ===== src/Monitoring.antt =====
-- nats-mq/core/monitoring.go: the monitoring server and its pages; and BridgeStats of
-- nats-mq/core/stats.go.
pub mod Start
pub mod Counters
pub mod Requests
mod Tests
use nats_mq.Prelude.{
  ℕ, ◌+◌, ◌%◌, String, Bool, true, false, not, ◌&&◌, ◌||◌, List, [], ◌∷◌, map, Option, none, some,
  ◌<>◌, is_set, str_eq, if◌then◌else◌,
}
use nats_mq.Prelude.Int.{ℤ, pos, negsuc, eqb_ℤ}
use nats_mq.Prelude.Dict.{Dict, lookup, insert}
use nats_mq.Prelude.Convert.{itoa}
use nats_mq.Prelude.HostPort.{join_host_port}
use nats_mq.Error.{Error, Result, ok, err, both_ports, tls_pair_required, monitor_port}
use nats_mq.Float.{FloatOps}
use nats_mq.Conf.{MonitoringConfig}
use nats_mq.Stats.{ConnectorStats, int64_mod, update_quintiles}

abbrev pub root_path : String
root_path = "/"

abbrev pub varz_path : String
varz_path = "/varz"

abbrev pub healthz_path : String
healthz_path = "/healthz"

-- The part of BridgeServer that monitoring uses: httpReqStats, whether httpHandler and
-- monitoringServer are set, the listener as a number, and the URL.
pub record Monitor : Type 0 where
  pub http_req_stats : Option (Dict ℕ)
  pub http_handler : Bool
  pub monitoring_server : Bool
  pub http_listener : Option ℕ
  pub monitoring_url : String

-- What the libraries answer: tls.LoadX509KeyPair, and tls.Listen or net.Listen with the listener and
-- its port.
pub record Network : Type 0 where
  pub load_key_pair : String → String → Option Error
  pub listen : Bool → String → Result (ℕ × ℤ)

abbrev pub fresh_counts : Dict ℕ
fresh_counts = (root_path, 0) ∷ (varz_path, 0) ∷ (healthz_path, 0) ∷ []

-- The port -1 stands for any free port.
abbrev pub listen_port : ℤ → ℤ
listen_port z = if eqb_ℤ z (negsuc 0) then pos 0 else z

abbrev pub protocol : Bool → String
protocol secure = if secure then "https" else "http"

unfoldable pub url_of : Bool → String → ℤ → String
url_of secure host port =
    let address = join_host_port host (itoa port) in
    protocol secure <> "://" <> (if is_set host then address else "localhost" <> address) <> "/"

-- The end of startMonitoring, with what Listen returned.
unfoldable pub serve : Bool → String → Result (ℕ × ℤ) → Monitor → Option Error × Monitor
unfolding url_of
serve secure host (err e) m = (some (monitor_port e), m)
serve secure host (ok (listener, port)) m = (
  none,
  record m {
    monitoring_url = url_of secure host port;
    http_listener = some listener;
    http_handler = true;
    monitoring_server = true;
  },
)

abbrev pub open_monitor : Network → Bool → String → ℤ → Monitor → Option Error × Monitor
open_monitor n secure host port m =
    serve secure host (n.listen secure (join_host_port host (itoa (listen_port port)))) m

unfoldable pub start_monitoring : Network → MonitoringConfig → Monitor → Option Error × Monitor
unfolding serve join_host_port itoa
start_monitoring n c m =
    let no_http = eqb_ℤ c.http_port (pos 0) in
    let no_https = eqb_ℤ c.https_port (pos 0) in
    let counted = record m { http_req_stats = some fresh_counts } in
    if not no_http && not no_https
    then (some (both_ports c.http_port c.https_port), m)
    else if no_http && no_https
    then (none, m)
    else if no_https
    then open_monitor n false c.http_host c.http_port counted
    else if not (is_set c.tls.cert) || not (is_set c.tls.key)
    then (some tls_pair_required, m)
    else elim (n.load_key_pair c.tls.cert c.tls.key) [
      | some e ↦ (some e, counted)
      | none ↦ open_monitor n true c.http_host c.https_port counted
    ]

-- StopMonitoring, where `answer` is what the server's Shutdown returns.
unfoldable pub stop_monitoring : Option Error → Monitor → Option Error × Monitor
stop_monitoring answer m =
    if m.monitoring_server && m.http_handler
    then elim answer [
      | some e ↦ (some e, m)
      | none ↦
          (none, record m { monitoring_server = false; http_handler = false; http_listener = none })
    ]
    else (none, record m { http_listener = none })

-- bridge.httpReqStats[path]++, which panics on the nil map; an int64 as a 64-bit pattern.
abbrev pub count_of : Option ℕ → ℕ
count_of none = 0
count_of (some n) = n

unfoldable pub count_request : String → Monitor → Option Monitor
count_request path m = elim (m.http_req_stats) [
  | none ↦ none
  | some counts ↦ some (record m {
    http_req_stats = some (insert path ((count_of (lookup path counts) + 1) % int64_mod) counts);
  })
]

-- A status code with a body. The text of the start page is left out.
pub data Response : Type 0 where
  not_found internal_error start_page healthy : Response
  json : String → Response

abbrev pub answer_with : Response → Option Monitor → Option (Response × Monitor)
answer_with r none = none
answer_with r (some m) = some (r, m)

-- HandleRoot, for r.URL.Path.
unfoldable pub handle_root : String → Monitor → Option (Response × Monitor)
unfolding count_request
handle_root path m =
    if not (str_eq path root_path)
    then some (not_found, m)
    else answer_with start_page (count_request root_path m)

unfoldable pub handle_healthz : Monitor → Option (Response × Monitor)
unfolding count_request
handle_healthz m = answer_with healthy (count_request healthz_path m)

pub record BridgeStats : Type 0 where
  pub start_time : ℤ
  pub server_time : ℤ
  pub up_time : String
  pub connections : List ConnectorStats
  pub http_requests : Dict ℕ

-- The loop that copies the counters; a nil map has no entries.
unfoldable pub copy_counts : Dict ℕ → Dict ℕ → Dict ℕ
copy_counts [] to = to
copy_counts ((k, v) ∷ rest) to = copy_counts rest (insert k v to)

abbrev pub counts_of : Option (Dict ℕ) → Dict ℕ
counts_of none = []
counts_of (some counts) = counts

-- The clock: the start of the server, the present, and the text of the time between.
pub record Clock : Type 0 where
  pub start_time : ℤ
  pub server_time : ℤ
  pub up_time : String

module _ (f : FloatOps) (q50 q75 q90 q95 : ℕ) where
  -- stats, with what the connectors' Stats return.
  unfoldable pub bridge_stats : Clock → List ConnectorStats → Monitor → BridgeStats
  unfolding copy_counts
  bridge_stats clock connectors m = record {
    start_time = clock.start_time;
    server_time = clock.server_time;
    up_time = clock.up_time;
    connections = map (update_quintiles f q50 q75 q90 q95) connectors;
    http_requests = copy_counts (counts_of m.http_req_stats) [];
  }

  -- HandleVarz, where `marshal` is json.Marshal.
  unfoldable pub handle_varz :
      (BridgeStats → Result String)
      → Clock
      → List ConnectorStats
      → Monitor
      → Option (Response × Monitor)
  unfolding count_request bridge_stats
  handle_varz marshal clock connectors m = elim (count_request varz_path m) [
    | none ↦ none
    | some m' ↦ some (
      elim (marshal (bridge_stats clock connectors m')) [
        | err e ↦ internal_error
        | ok text ↦ json text
      ],
      m',
    )
  ]

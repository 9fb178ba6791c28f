-- ===== src/Monitoring/Tests.antt =====
-- Runs of the monitoring server, and its properties at concrete inputs.
use nats_mq.Prelude.{
  ℕ, ◌%◌, ◌≡◌, refl, String, Bool, true, false, not, List, [], ◌∷◌, Option, none, some, ◌<>◌,
  is_set, arith, if◌then◌else◌,
}
use nats_mq.Prelude.Int.{ℤ, pos, negsuc, eqb_ℤ}
use nats_mq.Prelude.Convert.{itoa}
use nats_mq.Prelude.HostPort.{split_host_port}
use nats_mq.Prelude.Dict.{lookup}
use nats_mq.Error.{ok, net}
use nats_mq.Conf.{MonitoringConfig, empty_tls}
use nats_mq.Stats.{int64_mod}
use nats_mq.Monitoring.{
  Monitor, Network, fresh_counts, protocol, start_monitoring, stop_monitoring, count_of,
  bridge_stats, Clock,
}
use nats_mq.Monitoring.Start.{address_of, start_monitoring_url}
use nats_mq.Monitoring.Requests.{
  Request, get_root, get_varz, get_healthz, number_of, serve_all, serve_all-bridge_stats,
}
use nats_mq.Samples.{numbers}

abbrev off : Monitor
off = record {
  http_req_stats = none;
  http_handler = false;
  monitoring_server = false;
  http_listener = none;
  monitoring_url = "";
}

-- Any free port.
abbrev any_port : MonitoringConfig
any_port = record { http_host = ""; http_port = negsuc 0; https_port = pos 0; tls = empty_tls }

abbrev free_port : Network
free_port = record {
  load_key_pair = λ cert key. some (net 1);
  listen = λ secure address. ok (5, pos 40123);
}

abbrev on : Monitor
on = record {
  http_req_stats = some fresh_counts;
  http_handler = true;
  monitoring_server = true;
  http_listener = some 5;
  monitoring_url = "http://localhost:40123/";
}

starts : start_monitoring free_port any_port off ≡ (none, on)
unfolding start_monitoring
starts = refl

start_monitoring_url_example :
    (secure : Bool) × (listener : ℕ) × (port : ℤ) × (address : String) × (eqb_ℤ (pos 0) (pos 0)
      ≡ not secure)
    × (free_port.listen secure (address_of secure any_port) ≡ ok (listener, port))
    × (on.http_listener ≡ some listener)
    × (on.http_req_stats ≡ some fresh_counts)
    × (on.monitoring_url ≡ protocol secure <> "://" <> address <> "/")
    × (split_host_port address ≡ some ((if is_set "" then "" else "localhost"), itoa port))
start_monitoring_url_example =
    start_monitoring_url free_port any_port off on refl
      (unfold nats_mq.Prelude.HostPort.has_char in record { no_open = refl; no_close = refl })
      starts

abbrev noon : Clock
noon = record { start_time = pos 1; server_time = pos 61; up_time = "1m0s" }

abbrev four_requests : List Request
four_requests = get_healthz ∷ get_root "/other" ∷ get_varz noon [] ∷ get_healthz ∷ []

serve_all-bridge_stats_example :
    (m' : Monitor) × (serve_all numbers 0 0 0 0 (λ s. ok "{}") four_requests on ≡ some m')
    × (count_of (lookup "/healthz" (bridge_stats numbers 0 0 0 0 noon [] m').http_requests)
        ≡ number_of "/healthz" four_requests % int64_mod)
serve_all-bridge_stats_example =
    serve_all-bridge_stats numbers 0 0 0 0 (λ s. ok "{}") free_port any_port off on four_requests
      noon [] "/healthz" refl starts

two_for_healthz : number_of "/healthz" four_requests ≡ 2
two_for_healthz = refl

-- After a stop the counters and the URL stay.
stops :
    stop_monitoring none on
    ≡ (none, record on { http_handler = false; monitoring_server = false; http_listener = none })
unfolding stop_monitoring
stops = refl

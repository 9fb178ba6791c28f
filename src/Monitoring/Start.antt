-- ===== src/Monitoring/Start.antt =====
-- How startMonitoring of nats-mq/core/monitoring.go ends, and the address that it publishes.
use nats_mq.Prelude.{
  ℕ, ◌≡◌, refl, sym, ap, ◌∙◌, String, Bool, true, false, not, ◌&&◌, ◌||◌, Option, none, some, ◌<>◌,
  is_set, inl, inr, Bool-cases, Option-cases, eq_iff, ◌<◌, arith, if◌then◌else◌,
}
use nats_mq.Prelude.Int.{ℤ, pos, eqb_ℤ}
use nats_mq.Prelude.Convert.{itoa}
use nats_mq.Prelude.HostPortLaws.{nil-<>, IsUnbracketed, split_host_port-join_host_port}
use nats_mq.Prelude.Decimal.{has_char-itoa}
use nats_mq.Prelude.HostPort.{has_char, join_host_port, split_host_port}
use nats_mq.Error.{Error, Result, ok, err, monitor_port, tls_pair_required, both_ports}
use nats_mq.Conf.{MonitoringConfig}
use nats_mq.Monitoring.{
  Monitor, Network, fresh_counts, listen_port, protocol, url_of, serve, open_monitor,
  start_monitoring,
}

-- One of the ports is set.
abbrev pub is_enabled : MonitoringConfig → Bool
is_enabled c = not (eqb_ℤ c.http_port (pos 0) && eqb_ℤ c.https_port (pos 0))

abbrev pub address_of : Bool → MonitoringConfig → String
address_of secure c =
    join_host_port c.http_host (itoa (listen_port (if secure then c.https_port else c.http_port)))

-- The server m' listens on the address of the configuration, with TLS if the HTTPS port is set, and
-- has counters at 0.
pub record IsServing (n : Network) (c : MonitoringConfig) (m' : Monitor) : Type 0 where
  pub secure : Bool
  pub listener : ℕ
  pub port : ℤ
  pub http : eqb_ℤ c.http_port (pos 0) ≡ secure
  pub https : eqb_ℤ c.https_port (pos 0) ≡ not secure
  pub listens : n.listen secure (address_of secure c) ≡ ok (listener, port)
  pub state : m' ≡ record {
    http_req_stats = some fresh_counts;
    http_handler = true;
    monitoring_server = true;
    http_listener = some listener;
    monitoring_url = url_of secure c.http_host port;
  }

serve_lem :
    (secure : Bool) (host : String) (r : Result (ℕ × ℤ)) (m m' : Monitor)
    → serve secure host r m ≡ (none, m')
    → (listener : ℕ) × (port : ℤ) × (r ≡ ok (listener, port))
      × (serve secure host (ok (listener, port)) m ≡ (none, m'))
unfolding serve
serve_lem secure host (err e) m m' h =
    let impossible : some (monitor_port e) ≡ none = ap (λ x. x.0) h in cc
serve_lem secure host (ok (listener, port)) m m' h = (listener, port, refl, h)

open_monitor_lem :
    (n : Network) (c : MonitoringConfig) (secure : Bool) (z : ℤ) (m m' : Monitor)
    → eqb_ℤ c.http_port (pos 0) ≡ secure
    → eqb_ℤ c.https_port (pos 0) ≡ not secure
    → z ≡ (if secure then c.https_port else c.http_port)
    → open_monitor n secure c.http_host z (record m { http_req_stats = some fresh_counts })
      ≡ (none, m')
    → IsServing n c m'
unfolding serve
open_monitor_lem n c secure z m m' a b k e =
    let (listener, port, l, h) = serve_lem secure c.http_host _ _ m' e in
    record {
      secure = secure;
      listener = listener;
      port = port;
      http = a;
      https = b;
      listens =
          ap (λ t. n.listen secure (join_host_port c.http_host (itoa (listen_port t)))) (sym k) ∙ l;
      state = sym (ap (λ x. x.1) h);
    }

fails_lem :
    (e : Error) (m m' : Monitor) (o : Option Error × Monitor) → o ≡ (some e, m) → o ≡ (none, m') → ⊥
fails_lem e m m' o h k =
    let impossible : some e ≡ none = sym (ap (λ x. x.0) h) ∙ ap (λ x. x.0) k in cc

-- The ending of startMonitoring with an HTTPS port.
secure_lem :
    (n : Network) (c : MonitoringConfig) (m m' : Monitor)
    → eqb_ℤ c.http_port (pos 0) ≡ true
    → eqb_ℤ c.https_port (pos 0) ≡ false
    → start_monitoring n c m ≡ (none, m')
    → IsServing n c m'
unfolding start_monitoring
secure_lem n c m m' a b e = elim (Bool-cases (not (is_set c.tls.cert) || not (is_set c.tls.key))) [
  | inl unset ↦
      absurd (fails_lem tls_pair_required m m' _ (rw (start_monitoring, a, b, unset) refl) e)
  | inr pair ↦ elim (Option-cases (n.load_key_pair c.tls.cert c.tls.key)) [
    | inl loaded ↦
        open_monitor_lem n c true c.https_port m m' a b refl
          (sym (rw (start_monitoring, a, b, pair, loaded) refl) ∙ e)
    | inr (failed, refused) ↦ absurd (
        fails_lem failed (record m { http_req_stats = some fresh_counts }) m' _
          (rw (start_monitoring, a, b, pair, refused) refl) e)
  ]
]

-- Without an error and with a port set, the server listens.
pub start_monitoring-IsServing :
    (n : Network) (c : MonitoringConfig) (m m' : Monitor)
    → is_enabled c ≡ true
    → start_monitoring n c m ≡ (none, m')
    → IsServing n c m'
unfolding start_monitoring
start_monitoring-IsServing n c m m' on e = elim (Bool-cases (eqb_ℤ c.http_port (pos 0))) [
  | inl no_http ↦ elim (Bool-cases (eqb_ℤ c.https_port (pos 0))) [
    | inl no_https ↦ absurd (let impossible : false ≡ true = rw (no_http, no_https) at on in cc)
    | inr https ↦ secure_lem n c m m' no_http https e
  ]
  | inr http ↦ elim (Bool-cases (eqb_ℤ c.https_port (pos 0))) [
    | inl no_https ↦
        open_monitor_lem n c false c.http_port m m' http no_https refl
          (sym (rw (http, no_https) refl) ∙ e)
    | inr https ↦
        absurd (fails_lem (both_ports c.http_port c.https_port) m m' _ (rw (http, https) refl) e)
  ]
]

localhost_lem :
    (port : String) → "localhost" <> join_host_port "" port ≡ join_host_port "localhost" port
unfolding join_host_port has_char
localhost_lem port = rw nil-<> refl

-- The host and port in the URL.
abbrev public_host : String → String
public_host host = if is_set host then host else "localhost"

url_of-join_host_port :
    (secure : Bool) (host : String) (port : ℤ)
    → url_of secure host port
      ≡ protocol secure <> "://" <> join_host_port (public_host host) (itoa port) <> "/"
unfolding url_of
url_of-join_host_port secure host port = elim (Bool-cases (is_set host)) [
  | inl set ↦ rw set refl
  | inr unset ↦
      let empty : host ≡ "" = ground (arith, eq_iff host "", unset) in
      rw unset
        (ap (λ t. protocol secure <> "://" <> t <> "/") (rw empty (localhost_lem (itoa port))))
]

IsUnbracketed-public_host : (host : String) → IsUnbracketed host → IsUnbracketed (public_host host)
unfolding has_char
IsUnbracketed-public_host host h = elim (Bool-cases (is_set host)) [
  | inl set ↦ rw set h
  | inr unset ↦ rw unset (record { no_open = refl; no_close = refl })
]

-- startMonitoring without an error, with a port set and a host without brackets: the server listens on
-- the configured host, with TLS exactly if the HTTPS port is set, and all counters are at 0. The URL
-- has the protocol, and an address that splits into the host, "localhost" if it is empty, and the
-- port that the listener has.
pub start_monitoring_url :
    (n : Network) (c : MonitoringConfig) (m m' : Monitor)
    → is_enabled c ≡ true
    → IsUnbracketed c.http_host
    → start_monitoring n c m ≡ (none, m')
    → (secure : Bool) × (listener : ℕ) × (port : ℤ) × (address : String) × (eqb_ℤ c.https_port
          (pos 0)
        ≡ not secure)
      × (n.listen secure (address_of secure c) ≡ ok (listener, port))
      × (m'.http_listener ≡ some listener)
      × (m'.http_req_stats ≡ some fresh_counts)
      × (m'.monitoring_url ≡ protocol secure <> "://" <> address <> "/")
      × (split_host_port address
          ≡ some ((if is_set c.http_host then c.http_host else "localhost"), itoa port))
start_monitoring_url n c m m' on h e =
    let s : IsServing n c m' = start_monitoring-IsServing n c m m' on e in
    let free : (k : ℕ) → 57 < k → has_char k (itoa s.port) ≡ false = λ k. has_char-itoa k s.port in
    (
      s.secure,
      s.listener,
      s.port,
      join_host_port (public_host c.http_host) (itoa s.port),
      s.https,
      s.listens,
      ap (λ k. k.http_listener) s.state,
      ap (λ k. k.http_req_stats) s.state,
      ap (λ k. k.monitoring_url) s.state ∙ url_of-join_host_port s.secure c.http_host s.port,
      split_host_port-join_host_port (public_host c.http_host) (itoa s.port)
          (IsUnbracketed-public_host c.http_host h)
          (record { no_open = free b'[' (omega arith); no_close = free b']' (omega arith) })
          (free b':' (omega arith)),
    )

-- ===== src/Conf/HostPorts.antt =====
-- The addresses of nats-mq/conf/hostport.go, written and read.
use nats_mq.Prelude.{ℕ, ◌<◌, false, some, String, ◌≡◌, refl, ◌^◌, arith}
use nats_mq.Prelude.Int.{ℤ, Fits}
use nats_mq.Prelude.Convert.{atoi, itoa}
use nats_mq.Prelude.HostPort.{has_char, split_host_port}
use nats_mq.Prelude.HostPortLaws.{IsUnbracketed, split_host_port-join_host_port}
use nats_mq.Prelude.Decimal.{has_char-itoa, atoi-itoa}
use nats_mq.Error.{done}
use nats_mq.Conf.Value.{text}
use nats_mq.Conf.Schema.{HostPort, host_port_string}
use nats_mq.Conf.Scalars.{parse_host_port}

parse_host_port_text :
    (name s h p : String) (z : ℤ)
    → split_host_port s ≡ some (h, p)
    → atoi p ≡ some z
    → parse_host_port name (text s) ≡ done (record { host = h; port = z })
unfolding parse_host_port
parse_host_port_text name s h p z e f = rw (parse_host_port, e, f) refl

-- parseHostPort reads the text that HostPort.String writes back to the same address, for every host
-- without square brackets, an IPv6 address with its colons among them, and every port of 64 bits.
pub parse_host_port-host_port_string :
    (name : String) (hp : HostPort)
    → IsUnbracketed hp.host
    → Fits (2 ^ 63) hp.port
    → parse_host_port name (text (host_port_string hp)) ≡ done hp
unfolding host_port_string
parse_host_port-host_port_string name hp h p =
    let free : (c : ℕ) → 57 < c → has_char c (itoa hp.port) ≡ false =
      λ c. has_char-itoa c hp.port in
    parse_host_port_text name _ hp.host (itoa hp.port) hp.port
      (split_host_port-join_host_port hp.host (itoa hp.port) h
        (record { no_open = free b'[' (omega arith); no_close = free b']' (omega arith) })
        (free b':' (omega arith)))
      (atoi-itoa hp.port p)

-- ===== src/Bridge.antt =====
-- The bridge server of nats-mq/core/bridge.go: how it makes its connectors from the configuration.
use nats_mq.Prelude.{String, List, [], ◌∷◌, ◌++◌, Option, none, some}
use nats_mq.Error.{Error, ok, err}
use nats_mq.Float.{FloatOps}
use nats_mq.Conf.{ConnectorConfig}
use nats_mq.Convert.Reply.{ReplyToInfo}
use nats_mq.Connector.Services.{Connector}
use nats_mq.Connector.Create.{Kind, create_connector}
pub mod Replies
pub mod Reconnect
pub mod Timers
pub mod Checks
pub mod Pending
pub mod Outages
pub mod Restarts
pub mod Interleaving
pub mod Setup
pub mod Release
mod Tests

-- bridge.connectors and bridge.replyToInfo.
pub record Connectors : Type 0 where
  pub connectors : List (Kind × Connector)
  pub reply_to_info : ReplyToInfo

abbrev add_connector : Connectors → Kind → Connector → ReplyToInfo → Connectors
add_connector b k c info = record { connectors = b.connectors ++ (k, c) ∷ []; reply_to_info = info }

module _ (f : FloatOps) where
  -- initializeConnectors: each configuration comes with what nuid.Next() returns for it. The result is
  -- the error, with what was made until then.
  unfoldable pub initialize_connectors :
      List (String × ConnectorConfig) → Connectors → Option Error × Connectors
  initialize_connectors [] b = (none, b)
  initialize_connectors ((nuid, config) ∷ configs) b =
      elim (create_connector f nuid b.reply_to_info config) [
        | err e ↦ (some e, b)
        | ok (k, c, info) ↦ initialize_connectors configs (add_connector b k c info)
      ]

-- ===== src/Lib.antt =====
-- A model of the bridge between IBM MQ and NATS (nats-mq), with its proofs.
--
-- The program's parts. A bridge server keeps one connector for each configured pair of an MQ queue or
-- topic and a NATS subject or streaming channel. A connector's Start connects to a queue manager,
-- opens its object or subscribes to its topic, and then listens on one side; a handler takes each
-- message that arrives, has the message conversion translate it, and sends it on to the other side.
-- The conversion translates an MQ descriptor, properties and body to a bridge message and back, and
-- exchanges reply addresses by what the connectors registered. The bridge message has a header, typed
-- properties and a body, and travels as MessagePack. Each connector keeps statistics with a histogram
-- of its request times.
--
-- Files, with the code that they model:
--   Prelude               lists, integers, text and association lists that the parts share; Go's
--                         conversions of numbers to texts (Convert, Decimal) and its host and port
--                         texts (HostPort, HostPortLaws)
--   Error                 errors as values, and the outcome of code that may return an error or panic
--   Message               message/message.go: the record and its constants (Data); SetProperty, the
--                         getters, HasProperty, DeleteProperty (Property). Message/RoundTrip, Wire and
--                         Panics have the proofs
--   Conf                  nats-mq/conf/conf.go and the Config of nats-mq/logging/logging.go
--                         Conf/Value, Schema, Scalars and Parse: nats-mq/conf/parse.go, load.go and
--                         hostport.go. A struct is a list of fields (Schema) in place of reflection;
--                         Layout gives the fields of the structs of conf.go. Types, Print, RoundTrip,
--                         Strict, Panics, Printable, Reload and HostPorts have the
--                         proofs; Paths is nats-mq/conf/utils.go
--   Float                 float64 operations, as a parameter
--   Histogram             nats-mq/core/histogram.go; Histogram/Bounds, Counts and Steady have the
--                         proofs
--   Stats                 nats-mq/core/stats.go: ConnectorStats
--   Convert               nats-mq/core/msgconv.go: copyByteArray and copyByteArrayIfNotEmpty (Bytes),
--                         the header maps (Header), the reply addresses with RegisterReplyInfo of
--                         nats-mq/core/bridge.go (Reply), the property loops (Properties),
--                         MQToNATSMessage and NATSToMQMessage (Messages). Mqmd is the descriptor;
--                         the RoundTrip modules, Padding, Order, Journey and Relay have the proofs
--   Connector             nats-mq/core/connector.go and nats-mq/core/connect.go: the connector's
--                         state, its actions and what the libraries answer (Services), the shared
--                         steps (Steps), the eight connectors queue2nats.go ... topic2stan.go of
--                         nats-mq/core (Kinds), the Connector interface and CreateConnector (Create),
--                         the message handlers (Listen), the polling goroutine (Polling).
--                         Lifecycle, Release, Acquired, Balance, Delivery, Polled, Ledger and Returning
--                         have the proofs.
--                         Locked has the MQ callback on a connector that was shut down meanwhile, and
--                         its proof; elsewhere a handler's connector holds its queue manager
--   Bridge                nats-mq/core/bridge.go: initializeConnectors; with nats-mq/core/handlers.go and
--                         nats-mq/core/reconnecttimer.go: how connectors are restarted (Reconnect).
--                         Bridge/Interleaving has the goroutines at their locks, as a step relation.
--                         Bridge/Replies, Timers, Checks, Restarts, Outages and the modules Wakeups,
--                         Runs, Late and Quiet of Interleaving have the proofs; Pending has lemmas on lists of timers
--                         Bridge/Setup has the whole server: Start, Stop, connectToNATS and
--                         LoadConfigFile; Bridge/Release has its proofs
--   Monitoring            nats-mq/core/monitoring.go and BridgeStats of nats-mq/core/stats.go.
--                         Monitoring/Start, Counters and Requests have the proofs
--   Process               nats-mq/main.go: the process and its signals; Process/Restarts has the proofs
--   Examples              message/examples/tick/main.go, message/examples/tock/main.go and
--                         message/interchange/main.go; Examples/Pipeline follows a message from tick
--                         through the bridge to tock
--   Samples, and the Tests modules: concrete values and runs
--
-- State and operations. A Go method with a pointer receiver is a function from the record to the
-- record after the call. Start, Shutdown and CheckConnections are actions that pass on a connector and
-- a trace: the trace lists, latest first, what the connector did to the libraries (connected, opened,
-- closed, disconnected and so on), so that order and leaks can be stated. A handler returns the
-- statistics after the call and its effects in order. A `none` of Option, or `panics` of Outcome, is
-- a Go panic. A nil map or slice is told from an empty one where the code can tell them apart.
--
-- The parser takes what a configuration file holds, and what the NATS server's parser makes of its
-- text, as arguments. It returns the struct at the time it stopped, with done, an error or a panic.
--
-- Integers. A counter is a 64-bit pattern, and the narrow conversions wrap around. Floats are bit
-- patterns whose operations are a parameter.
--
-- Loops. Histogram.trim removes one bin in each round; it runs with the number of bins as fuel, which
-- is enough since a histogram of that many bins cannot lose more. The other loops go over lists. The
-- loop over a message handle's properties goes over the list that the library enumerates, with the
-- error that ends the enumeration.
--
-- Parameters that stand for libraries: the MessagePack codec (Codec), the float hardware (FloatOps,
-- FloatConv), the constants and the empty descriptor of the MQ library (MqConstants, CallbackCodes),
-- Go's conversions between floats, texts and integers (Conversions), the message handle calls of MQ
-- (HandleCalls), and what MQ, NATS and NATS streaming answer (Services, NilCalls).
--
-- The bridge server points to a connector by its place in the list. Its reconnect timers are numbers,
-- with the list of those that a goroutine waits for. ConnectorError, a lost connection, a timer that
-- runs out and Stop are events; in Reconnect each is one step, and a run is any list of events. In
-- Interleaving a goroutine that has passed its check of `running` is under way until it holds the
-- reconnect lock, and others may come before it: one step is what runs under one lock. Stop holds the
-- running lock and takes its steps one by one: the flag, the timer (under the reconnect lock), the map
-- and each connector. Steps under the reconnect lock may come between them. In the source the map is
-- cleared and the connectors are shut down without the reconnect lock, so these can also fall inside
-- what runs under that lock; that is not in the step relation.
--
-- The polling goroutine is a loop over the rounds that happen, each with what Get answers and whether
-- the shutdown is seen after it. The connector holds its queue manager in all these rounds, also in the
-- last; Locked has a callback that runs after Shutdown has set it to nil. A property map is a list in
-- the order in which a range loop meets its entries, which Go leaves open; Convert/Order has what does
-- not depend on it. A whole server starts with the answers of the libraries for that
-- start. The process is a list of signals; it keeps the servers that it started and lost.
--
-- Not modelled: the test environment and the performance programs, which drive the library from
-- outside; of the examples, flags, connections and the count of rounds; logging, which only prints; and the Java helper. A handler runs under its connector's lock, so it is one step here.
-- Goroutines that report an error are effects.
pub mod Prelude
pub mod Error
pub mod Message
pub mod Conf
pub mod Convert
pub mod Float
pub mod Histogram
pub mod Stats
pub mod Connector
pub mod Bridge
pub mod Monitoring
pub mod Process
pub mod Examples
mod Samples

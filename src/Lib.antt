-- ===== src/Lib.antt =====
-- FlowGuard Lite watches the flows of a small network. Collectors turn packets into flow records
-- (internal/flow) and hand each one to the DDoS detector (internal/ddos), which passes it on to
-- the aggregator (internal/storage/aggregator.go). The aggregator merges the records of a minute
-- and hands each batch to its worker, which writes it to a repository and then calls the anomaly
-- engine (internal/anomaly). The detectors, the reader of Suricata's log and the listener for UniFi
-- syslog save anomalies, most of them at most one for an address and type within a window of time.
-- The repository lets its policies silence an anomaly, saves it and calls back, and the webhook
-- engine (internal/webhook) sends what is left to the channels of its rules. An administrator logs
-- in to the HTTP API by a password (internal/api/auth.go).
--
-- The modules:
--   Prelude      texts, bytes, maps, numbers and times of Go, strconv and strings.Split, Boolean
--                tests, helpers on lists
--   Net          addresses and networks: isLocalIP, isFanoutDestination, IPInCIDRList
--   Flow         internal/flow/event.go: FlowEvent, NormalizeCollectorKind, NormalizeCollectorID
--   Aggregator   internal/storage/aggregator.go: what Process, Flush and drainForShutdown do to
--                the buffer; Aggregator.Pipeline has the queue, the worker and the callers as a
--                step relation on a `System`
--   Alert        the anomaly record of internal/storage/repository.go and the deduplication of
--                alerts in internal/ddos/detector.go and internal/anomaly/alerts.go; Alert.Runs is
--                what a component shows of one alert to have it of a run
--   Ddos         internal/ddos/detector.go: `process`, `evaluate_rates`, `trigger_alert`,
--                `update_local_subnets` on a `Detector`
--   Config       internal/config/config.go: Validate and its helpers
--   Baseline     internal/baseline/baseline.go: IsAnomaly and its thresholds
--   Anomaly      internal/anomaly, one module for each detector: Beaconing, InternalPeer, Profile
--                with Signature, Nighttime, Fanout, and History for new_destination.go; Controls
--                for UpdateConfig, Metrics, Alerts for alerts.go, and Engine for AnalyzeBatch
--   Callbacks    internal/storage/callbacks/dispatcher.go as a step relation on a `Dispatcher`
--   Suricata     internal/suricata/tailer.go: processLine and triggerAlert
--   Syslog       internal/collector/unifi_syslog.go: ParseUniFiSyslog and its helpers; Category
--                for the kind and severity of a message, Receiver for the listener and the worker
--                on a `Collector`
--   Policies     internal/storage/repository.go: Policy.Validate and MatchesAnomaly, policy_time.go,
--                and in Evaluation internal/storage/sqlite/anomalies.go and policies.go on a `Store`
--   Webhook      internal/webhook: in Alerts SendAnomalyAlert and SendTestAlert as lists of actions,
--                in Queue the dispatch queue and its workers as a step relation; Admission
--                describes the filters of a rule
--   Auth         internal/api/auth.go: Password, Sessions, Limits, and the handlers and the
--                middleware on a `Server`
--   Api          other handlers: Queries for internal/api/http_helpers.go, Settings for what
--                settings_handlers.go hides and takes back, Posting for its handlePostSettings on
--                the configuration in memory (shared with the DDoS detector and the
--                retention), on disk and in the copies of the engines, Rules for
--                notification_handlers.go on the table of internal/storage/sqlite/notifications.go
--   Examples     the theorems at concrete inputs
--
-- Conventions. A Go map is an association list in the order of iteration, a set the list of its
-- elements, a string the list of its code points. Times count nanoseconds from Go's zero time.
-- Unsigned sums wrap at their width. A method that holds a lock is one function on the state; the
-- threads of the aggregator and of the webhook engine interleave at their locks and channels. All
-- loops are structural, and the one use of fuel, in Prelude.Decimal, has a round for each digit.
-- Parameters: the grammars of net.ParseIP and net.ParseCIDR (`Parsers`), of package netip, of
-- net.SplitHostPort, of fmt.Sscanf for a time of day and of the layouts of package time, the matches
-- of a regular expression, HMAC-SHA256 and base64 (`Crypto`), encoding/json, random bytes, the zone
-- of the daemon, the readings of the clock, and the answers of the repository and of net/http.
--
-- Not modelled: most handlers of the HTTP API, the web interface, the
-- SQL of the storage backends, sockets and the decoding of flow packets, and the loop that follows
-- a log file, which are input and output; the texts of the engine's descriptions, for which
-- `Finding` keeps the values shown; statistics in floating point, which a `DeviceBaseline` gives by
-- the results of its comparisons.
pub mod Prelude
pub mod Net
pub mod Flow
pub mod Aggregator
pub mod Alert
pub mod Ddos
pub mod Suricata
pub mod Api
pub mod Auth
pub mod Policies
pub mod Webhook
pub mod Syslog
pub mod Config
pub mod Baseline
pub mod Anomaly
pub mod Callbacks
pub mod Examples

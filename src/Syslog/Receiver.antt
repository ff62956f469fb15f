-- ===== src/Syslog/Receiver.antt =====
-- internal/collector/unifi_syslog.go: the listener, its queue and its worker. A sender is an address
-- and its text. Package netip reads the entries of the allowlist; an entry that is an IPv4 address
-- written as IPv6, which matches no sender, is left out.
use flowguard_lite.Prelude.{
  ℕ, suc, Bool, true, false, not, ◌&&◌, ◌||◌, Option, none, some, List, [], ◌∷◌, ◌++◌, ltb, any,
  length, if◌then◌else◌,
}
use flowguard_lite.Prelude.Text.{Text, codes, text_keys, trim_space}
use flowguard_lite.Prelude.Clock.{Time}
use flowguard_lite.Prelude.Decimal.{itoa}
use flowguard_lite.Net.{Ip, Subnet, Parsers, subnet_contains}
use flowguard_lite.Flow.{is_empty}
use flowguard_lite.Alert.{Anomaly, Severity, critical, unifi_security, unifi_critical, new_anomaly}
use flowguard_lite.Policies.{same_ip, byte_length}
use flowguard_lite.Syslog.{
  UnifiSyslogEvent, parsed, malformed, TimeParsers, parse_unifi_syslog,
  max_unifi_syslog_datagram_bytes,
}
use flowguard_lite.Syslog.Category.{
  EventCategory, security_detections, extract_unifi_category, first_ip, map_syslog_severity,
  contains_text,
}

pub record Allowlist : Type 0 where
  pub ips : List Ip
  pub prefixes : List Subnet

pub record NetIp : Type 0 where
  pub parse_addr : Text → Option Ip
  pub parse_prefix : Text → Option Subnet

abbrev pub add_prefix : Option Subnet → Allowlist → Option Allowlist
add_prefix none l = none
add_prefix (some net) l = some (record l { prefixes = l.prefixes ++ net ∷ [] })

abbrev pub add_ip : Option Ip → Allowlist → Option Allowlist
add_ip none l = none
add_ip (some ip) l = some (record l { ips = ip ∷ l.ips })

unfoldable pub add_entry : NetIp → Text → Allowlist → Option Allowlist
unfolding trim_space
add_entry n entry l =
    let e = trim_space entry in
    if is_empty e
    then some l
    else if contains_text (codes "/") e
    then add_prefix (n.parse_prefix e) l
    else add_ip (n.parse_addr e) l

unfoldable pub add_entries : NetIp → List Text → Allowlist → Option Allowlist
add_entries n [] l = some l
add_entries n (e ∷ es) l = elim (add_entry n e l) [ none ↦ none | some l' ↦ add_entries n es l' ]

-- `parseUniFiSyslogAllowlist`, `none` for an entry that is refused.
unfoldable pub parse_allowlist : NetIp → List Text → Option Allowlist
parse_allowlist n entries = add_entries n entries (record { ips = []; prefixes = [] })

abbrev pub has_none {ℓ} : {A : Type ℓ} → List A → Bool
has_none [] = true
has_none (x ∷ xs) = false

unfoldable pub allows : Allowlist → Ip → Bool
allows l ip =
    (has_none l.ips && has_none l.prefixes)
    || any (same_ip ip) l.ips
    || any (subnet_contains ip) l.prefixes

pub record Datagram : Type 0 where
  pub packet : Text
  pub sender_ip : Text

-- The counters of the collector, each with its part for UniFi, and the channel, oldest first.
pub record Collector : Type 0 where
  pub received_count : ℕ
  pub received_unifi_count : ℕ
  pub dropped_count : ℕ
  pub dropped_unifi_count : ℕ
  pub decode_err_count : ℕ
  pub decode_err_unifi_count : ℕ
  pub syslog_chan : List Datagram

abbrev pub default_unifi_syslog_queue_size : ℕ
default_unifi_syslog_queue_size = 1000

unfoldable pub increment_unifi_drop : Collector → Collector
increment_unifi_drop c = record c {
  dropped_count = suc c.dropped_count;
  dropped_unifi_count = suc c.dropped_unifi_count;
}

unfoldable pub increment_unifi_decode_error : Collector → Collector
increment_unifi_decode_error c = record c {
  decode_err_count = suc c.decode_err_count;
  decode_err_unifi_count = suc c.decode_err_unifi_count;
}

abbrev pub count_received : Collector → Collector
count_received c = record c {
  received_count = suc c.received_count;
  received_unifi_count = suc c.received_unifi_count;
}

-- One round of the listener's loop. A packet over the limit fills the buffer, which has one byte
-- more than the limit.
unfoldable pub receive : Allowlist → Ip → Datagram → Collector → Collector
receive l sender d c =
    if not (allows l sender)
    then increment_unifi_drop c
    else if ltb max_unifi_syslog_datagram_bytes (byte_length d.packet)
    then increment_unifi_decode_error (increment_unifi_drop c)
    else if ltb (length c.syslog_chan) default_unifi_syslog_queue_size
    then (let counted = count_received c in
        record counted { syslog_chan = counted.syslog_chan ++ d ∷ [] })
    else increment_unifi_drop (count_received c)

-- What the worker writes to the repository, in this order.
pub record UnifiEvent : Type 0 where
  pub timestamp : Time
  pub source_gateway : Text
  pub category : EventCategory
  pub severity : Severity
  pub client_ip : Text
  pub summary : Text
  pub attributes : List (Text × Text)

pub data Write : Type 0 where
  save_unifi_event : UnifiEvent → Write
  upsert_device : Text → Time → Write
  save_anomaly : Anomaly → Write

abbrev pub is_security : EventCategory → Bool
is_security security_detections = true
is_security _ = false

abbrev pub is_critical : Severity → Bool
is_critical critical = true
is_critical _ = false

-- A failed write is logged and the next one is tried.
unfoldable pub anomaly_writes :
    Text → EventCategory → Severity → Text → UnifiSyslogEvent → List Write
anomaly_writes sender category severity client e =
    if is_security category || is_critical severity
    then (let target = if is_empty client then sender else client in
        let kind =
          if is_critical severity && not (is_security category)
          then unifi_critical
          else unifi_security in
        upsert_device target e.timestamp
        ∷ save_anomaly (new_anomaly target [] kind e.message severity e.timestamp)
        ∷ [])
    else []

unfoldable pub event_writes : Parsers → (Text → List Text) → Text → UnifiSyslogEvent → List Write
event_writes p ip_tokens sender e =
    let category = extract_unifi_category e.message e.severity in
    let client = first_ip p (ip_tokens e.message) in
    let severity = map_syslog_severity e.severity category in
    save_unifi_event (record {
      timestamp = e.timestamp;
      source_gateway = if is_empty e.host then sender else e.host;
      category = category;
      severity = severity;
      client_ip = client;
      summary = e.message;
      attributes =
          (codes "app_name", e.app_name)
          ∷ (codes "proc_id", e.proc_id)
          ∷ (codes "msg_id", e.msg_id)
          ∷ (codes "facility", itoa e.facility)
          ∷ (codes "severity", itoa e.severity)
          ∷ [];
    })
    ∷ anomaly_writes sender category severity client e

unfoldable pub work_on :
    TimeParsers
    → Parsers
    → (Text → List Text)
    → Time
    → Datagram
    → Collector
    → Collector × List Write
work_on z p ip_tokens now d c = elim (parse_unifi_syslog z d.packet now) [
  | malformed e ↦ (increment_unifi_decode_error c, [])
  | parsed e ↦ (c, event_writes p ip_tokens d.sender_ip e)
]

-- One round of the worker's loop, if a datagram waits.
unfoldable pub worker :
    TimeParsers → Parsers → (Text → List Text) → Time → Collector → Collector × List Write
worker z p ip_tokens now c = elim c.syslog_chan [
  | [] ↦ (c, [])
  | d ∷ rest ↦ work_on z p ip_tokens now d (record c { syslog_chan = rest })
]

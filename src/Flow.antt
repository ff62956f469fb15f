-- ===== src/Flow.antt =====
-- internal/flow/event.go: the normalised flow record and the names of its collectors. The
-- numbers that Go keeps in signed or fixed-width fields come from unsigned fields of packets.
use flowguard_lite.Prelude.{
  ℕ, ◌≡◌, refl, ap, ◌∙◌, Bool, true, false, not, [], ◌∷◌, ◌==◌, if◌then◌else◌,
}
use flowguard_lite.Prelude.Text.{Text, codes, text_eq, trim_space, to_lower, text_keys}
use flowguard_lite.Prelude.Clock.{Time}

pub record FlowEvent : Type 0 where
  pub timestamp : Time
  pub src_ip : Text
  pub dst_ip : Text
  pub src_port : ℕ
  pub dst_port : ℕ
  pub protocol : ℕ
  pub bytes : ℕ  -- uint64
  pub packets : ℕ  -- uint64
  pub collector_kind : Text
  pub collector_id : Text
  pub exporter_ip : Text
  pub tcp_flags : ℕ  -- uint8

pub data CollectorKind : Type 0 where
  unknown netflow sflow pcap suricata unifi_syslog snmp : CollectorKind

unfoldable pub kind_name : CollectorKind → Text
kind_name unknown = codes "unknown"
kind_name netflow = codes "netflow"
kind_name sflow = codes "sflow"
kind_name pcap = codes "pcap"
kind_name suricata = codes "suricata"
kind_name unifi_syslog = codes "unifi_syslog"
kind_name snmp = codes "snmp"

-- The `switch` over a text that is lowered and trimmed.
unfoldable pub read_kind : Text → CollectorKind
unfolding kind_name text_eq
read_kind s =
    if s == kind_name netflow
    then netflow
    else if s == kind_name sflow
    then sflow
    else if s == kind_name pcap
    then pcap
    else if s == kind_name suricata
    then suricata
    else if s == kind_name unifi_syslog
    then unifi_syslog
    else if s == kind_name snmp
    then snmp
    else unknown

unfoldable pub normalize_collector_kind : Text → Text
normalize_collector_kind kind = kind_name (read_kind (to_lower (trim_space kind)))

unfoldable pub is_empty : Text → Bool
is_empty [] = true
is_empty (c ∷ s) = false

-- The last `if` of the source returns `kind` or the text that `kind` then is.
unfoldable pub normalize_collector_id : Text → Text → Text → Text
unfolding is_empty
normalize_collector_id id kind exporter =
    let id' = trim_space id in
    let exporter' = trim_space exporter in
    let kind' = normalize_collector_kind kind in
    if not (is_empty id')
    then id'
    else if not (is_empty exporter')
    then exporter'
    else if not (kind' == kind_name unknown)
    then kind'
    else kind_name unknown

-- A collector's own name is read back as it is.
pub read_kind-kind_name : (k : CollectorKind) → read_kind (kind_name k) ≡ k
unfolding read_kind
read_kind-kind_name unknown = refl
read_kind-kind_name netflow = refl
read_kind-kind_name sflow = refl
read_kind-kind_name pcap = refl
read_kind-kind_name suricata = refl
read_kind-kind_name unifi_syslog = refl
read_kind-kind_name snmp = refl

lower-kind_name : (k : CollectorKind) → to_lower (trim_space (kind_name k)) ≡ kind_name k
unfolding kind_name to_lower trim_space
lower-kind_name unknown = refl
lower-kind_name netflow = refl
lower-kind_name sflow = refl
lower-kind_name pcap = refl
lower-kind_name suricata = refl
lower-kind_name unifi_syslog = refl
lower-kind_name snmp = refl

-- Normalising a collector kind twice is normalising it once.
normalize_collector_kind_idem :
    (s : Text) → normalize_collector_kind (normalize_collector_kind s) ≡ normalize_collector_kind s
unfolding normalize_collector_kind
normalize_collector_kind_idem s =
    let k = read_kind (to_lower (trim_space s)) in
    ap kind_name (ap read_kind (lower-kind_name k) ∙ read_kind-kind_name k)

netflow_read : normalize_collector_kind (codes " NetFlow ") ≡ codes "netflow"
unfolding normalize_collector_kind read_kind to_lower trim_space kind_name
netflow_read = refl

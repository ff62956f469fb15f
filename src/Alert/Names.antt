-- ===== src/Alert/Names.antt =====
-- The names of the alert types and the keys of the alert caches.
use flowguard_lite.Prelude.{◌≡◌, refl, sym, ap, ◌∙◌, ◌==◌, arith, if◌then◌else◌}
use flowguard_lite.Prelude.Text.{Text, text_keys, text_eq}
use flowguard_lite.Aggregator.KeyText.{HasNoBar, split_last}
use flowguard_lite.Alert.{
  AlertType, alert_name, dedup_key, ddos_attack, ddos_flow_flood, ddos_syn_flood, ddos_udp_flood,
  ddos_icmp_flood, traffic_spike, destination_fanout, port_fanout, nighttime_traffic,
  device_profile_change, new_internal_communication, new_destination, new_port, beaconing,
  suricata_alert, unifi_security, unifi_critical, test_alert,
}

alert_name-HasNoBar : (k : AlertType) → HasNoBar (alert_name k)
unfolding alert_name
alert_name-HasNoBar ddos_attack = omega arith
alert_name-HasNoBar ddos_flow_flood = omega arith
alert_name-HasNoBar ddos_syn_flood = omega arith
alert_name-HasNoBar ddos_udp_flood = omega arith
alert_name-HasNoBar ddos_icmp_flood = omega arith
alert_name-HasNoBar traffic_spike = omega arith
alert_name-HasNoBar destination_fanout = omega arith
alert_name-HasNoBar port_fanout = omega arith
alert_name-HasNoBar nighttime_traffic = omega arith
alert_name-HasNoBar device_profile_change = omega arith
alert_name-HasNoBar new_internal_communication = omega arith
alert_name-HasNoBar new_destination = omega arith
alert_name-HasNoBar new_port = omega arith
alert_name-HasNoBar beaconing = omega arith
alert_name-HasNoBar suricata_alert = omega arith
alert_name-HasNoBar unifi_security = omega arith
alert_name-HasNoBar unifi_critical = omega arith
alert_name-HasNoBar test_alert = omega arith

-- Reading a name back as its type.
type_of : Text → AlertType
unfolding alert_name
type_of s =
    if s == alert_name ddos_attack
    then ddos_attack
    else if s == alert_name ddos_flow_flood
    then ddos_flow_flood
    else if s == alert_name ddos_syn_flood
    then ddos_syn_flood
    else if s == alert_name ddos_udp_flood
    then ddos_udp_flood
    else if s == alert_name ddos_icmp_flood
    then ddos_icmp_flood
    else if s == alert_name traffic_spike
    then traffic_spike
    else if s == alert_name destination_fanout
    then destination_fanout
    else if s == alert_name port_fanout
    then port_fanout
    else if s == alert_name nighttime_traffic
    then nighttime_traffic
    else if s == alert_name device_profile_change
    then device_profile_change
    else if s == alert_name new_internal_communication
    then new_internal_communication
    else if s == alert_name new_destination
    then new_destination
    else if s == alert_name new_port
    then new_port
    else if s == alert_name suricata_alert
    then suricata_alert
    else if s == alert_name unifi_security
    then unifi_security
    else if s == alert_name unifi_critical
    then unifi_critical
    else if s == alert_name test_alert
    then test_alert
    else beaconing

type_of-alert_name : (k : AlertType) → type_of (alert_name k) ≡ k
unfolding type_of alert_name text_eq
type_of-alert_name ddos_attack = refl
type_of-alert_name ddos_flow_flood = refl
type_of-alert_name ddos_syn_flood = refl
type_of-alert_name ddos_udp_flood = refl
type_of-alert_name ddos_icmp_flood = refl
type_of-alert_name traffic_spike = refl
type_of-alert_name destination_fanout = refl
type_of-alert_name port_fanout = refl
type_of-alert_name nighttime_traffic = refl
type_of-alert_name device_profile_change = refl
type_of-alert_name new_internal_communication = refl
type_of-alert_name new_destination = refl
type_of-alert_name new_port = refl
type_of-alert_name beaconing = refl
type_of-alert_name suricata_alert = refl
type_of-alert_name unifi_security = refl
type_of-alert_name unifi_critical = refl
type_of-alert_name test_alert = refl

-- One cache entry stands for one address and one type, whatever text the address is.
dedup_key-injective :
    (ip ip' : Text) (k k' : AlertType) → dedup_key ip k ≡ dedup_key ip' k' → (ip ≡ ip') × (k ≡ k')
unfolding dedup_key
dedup_key-injective ip ip' k k' e =
    let (ips, names) = split_last ip ip' (alert_name-HasNoBar k) (alert_name-HasNoBar k') e in
    (ips, sym (type_of-alert_name k) ∙ ap type_of names ∙ type_of-alert_name k')

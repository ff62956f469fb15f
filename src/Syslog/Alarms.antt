-- ===== src/Syslog/Alarms.antt =====
-- Which messages internal/collector/unifi_syslog.go turns into anomalies.
use flowguard_lite.Prelude.{
  ℕ, ◌≡◌, refl, inl, inr, Bool-cases, Bool, true, false, ◌||◌, List, [], ◌∷◌, arith, leb, eqb,
  if◌then◌else◌,
}
use flowguard_lite.Prelude.Text.{Text}
use flowguard_lite.Net.{Parsers}
use flowguard_lite.Flow.{is_empty}
use flowguard_lite.Alert.{
  Anomaly, AlertType, Severity, low, medium, high, critical, unifi_security, unifi_critical,
  new_anomaly,
}
use flowguard_lite.Syslog.{UnifiSyslogEvent}
use flowguard_lite.Syslog.Category.{
  EventCategory, netconsole, security_detections, admin_activity, vpn, updates, critical_event,
  devices, clients, triggers, other, extract_unifi_category, first_ip, map_syslog_severity,
}
use flowguard_lite.Syslog.Receiver.{
  Write, save_unifi_event, upsert_device, save_anomaly, is_security, is_critical, anomaly_writes,
  event_writes,
}

-- The anomalies among the writes.
unfoldable pub alarms : List Write → List Anomaly
alarms [] = []
alarms (save_unifi_event e ∷ ws) = alarms ws
alarms (upsert_device ip t ∷ ws) = alarms ws
alarms (save_anomaly a ∷ ws) = a ∷ alarms ws

-- What is promised, by the number of the severity: up to 3 is critical for a detection, up to 2 for
-- anything else.
abbrev pub alarm_kind : Bool → AlertType
alarm_kind security = if security then unifi_security else unifi_critical

abbrev pub alarm_severity : ℕ → Severity
alarm_severity sev = if leb sev 3 then critical else high

abbrev ordinary : ℕ → Severity
ordinary sev =
    if leb sev 2 then critical else if eqb sev 3 then high else if eqb sev 4 then medium else low

-- A message that is no detection.
map_syslog_severity-ordinary :
    (sev : ℕ) (c : EventCategory) → is_security c ≡ false → map_syslog_severity sev c ≡ ordinary sev
unfolding map_syslog_severity
map_syslog_severity-ordinary sev security_detections h = ground arith
map_syslog_severity-ordinary sev netconsole h = refl
map_syslog_severity-ordinary sev admin_activity h = refl
map_syslog_severity-ordinary sev vpn h = refl
map_syslog_severity-ordinary sev updates h = refl
map_syslog_severity-ordinary sev critical_event h = refl
map_syslog_severity-ordinary sev devices h = refl
map_syslog_severity-ordinary sev clients h = refl
map_syslog_severity-ordinary sev triggers h = refl
map_syslog_severity-ordinary sev other h = refl

map_syslog_severity_security :
    (sev : ℕ) (c : EventCategory)
    → is_security c ≡ true
    → map_syslog_severity sev c ≡ alarm_severity sev
unfolding map_syslog_severity
map_syslog_severity_security sev security_detections h = refl
map_syslog_severity_security sev netconsole h = ground arith
map_syslog_severity_security sev admin_activity h = ground arith
map_syslog_severity_security sev vpn h = ground arith
map_syslog_severity_security sev updates h = ground arith
map_syslog_severity_security sev critical_event h = ground arith
map_syslog_severity_security sev devices h = ground arith
map_syslog_severity_security sev clients h = ground arith
map_syslog_severity_security sev triggers h = ground arith
map_syslog_severity_security sev other h = ground arith

mild :
    (sev : ℕ) → is_critical (if eqb sev 3 then high else if eqb sev 4 then medium else low) ≡ false
mild sev = ground arith

module _ (sender client : Text) (e : UnifiSyslogEvent) (sev : ℕ) where
  abbrev pub promised : EventCategory → List Anomaly
  promised c =
      if is_security c || leb sev 2
      then new_anomaly (if is_empty client then sender else client) [] (alarm_kind (is_security c))
          e.message (alarm_severity sev) e.timestamp
        ∷ []
      else []

  alarms-anomaly_writes :
      (c : EventCategory)
      → alarms (anomaly_writes sender c (map_syslog_severity sev c) client e) ≡ promised c
  unfolding alarms anomaly_writes
  alarms-anomaly_writes c = elim (Bool-cases (is_security c)) [
    | inl detection ↦ elim (Bool-cases (leb sev 3)) [
      | inl grave ↦ rw (map_syslog_severity_security sev c detection, detection, grave) refl
      | inr light ↦ rw (map_syslog_severity_security sev c detection, detection, light) refl
    ]
    | inr calm ↦ elim (Bool-cases (leb sev 2)) [
      | inl grave ↦
          let three : leb sev 3 ≡ true = ground (arith, grave) in
          rw (map_syslog_severity-ordinary sev c calm, calm, grave, three) refl
      | inr light ↦ rw (map_syslog_severity-ordinary sev c calm, calm, light) (rw (mild sev) refl)
    ]
  ]

-- A message raises one anomaly if it is a security detection or its severity is 2 or less, and none
-- otherwise. The anomaly is for the first address that the text holds, or else for the sender; it
-- is of the kind that the category asks for, is critical if the severity is 3 or less and high
-- otherwise, and carries the text and the time of the message.
pub alarms-event_writes :
    (p : Parsers) (ip_tokens : Text → List Text) (sender : Text) (e : UnifiSyslogEvent)
    → alarms (event_writes p ip_tokens sender e)
      ≡ promised sender
          (first_ip p (ip_tokens e.message))
          e
          e.severity
          (extract_unifi_category e.message e.severity)
unfolding event_writes alarms
alarms-event_writes p ip_tokens sender e =
    alarms-anomaly_writes sender (first_ip p (ip_tokens e.message)) e e.severity
      (extract_unifi_category e.message e.severity)

-- ===== src/Syslog/Category.antt =====
-- internal/collector/unifi_syslog.go: what kind of event a message is and how severe. The
-- expression for addresses, of package regexp, is a parameter that lists what it finds.
use flowguard_lite.Prelude.{ℕ, Bool, not, ◌||◌, List, [], ◌∷◌, leb, eqb, if◌then◌else◌}
use flowguard_lite.Prelude.Text.{Text, codes, text_keys, to_lower}
use flowguard_lite.Net.{Parsers}
use flowguard_lite.Alert.{Severity, low, medium, high, critical}
use flowguard_lite.Policies.{is_absent}
use flowguard_lite.Syslog.{after_prefix, drop_while, trim_right}

pub data EventCategory : Type 0 where
  netconsole security_detections admin_activity vpn updates critical_event : EventCategory
  devices clients triggers other : EventCategory

unfoldable pub category_name : EventCategory → Text
category_name netconsole = codes "Netconsole"
category_name security_detections = codes "Security Detections"
category_name admin_activity = codes "Admin Activity"
category_name vpn = codes "VPN"
category_name updates = codes "Updates"
category_name critical_event = codes "Critical"
category_name devices = codes "Devices"
category_name clients = codes "Clients"
category_name triggers = codes "Triggers"
category_name other = codes "Other"

-- `strings.Contains(s, part)`.
unfoldable pub contains_text : Text → Text → Bool
contains_text part [] = not (is_absent (after_prefix part []))
contains_text part (c ∷ s) = not (is_absent (after_prefix part (c ∷ s))) || contains_text part s

-- `ExtractUniFiCategory`.
unfoldable pub extract_unifi_category : Text → ℕ → EventCategory
extract_unifi_category msg syslog_sev =
    let lower = to_lower msg in
    if contains_text (codes "netconsole") lower
    then netconsole
    else if contains_text (codes "security detection") lower
        || contains_text (codes "ips") lower
        || contains_text (codes "ids") lower
        || contains_text (codes "threat") lower
        || contains_text (codes "blocked") lower
    then security_detections
    else if contains_text (codes "admin activity") lower
        || contains_text (codes "admin") lower
        || contains_text (codes "login") lower
    then admin_activity
    else if contains_text (codes "vpn") lower
    then vpn
    else if contains_text (codes "update") lower || contains_text (codes "upgrade") lower
    then updates
    else if contains_text (codes "critical") lower || leb syslog_sev 2
    then critical_event
    else if contains_text (codes "device") lower
    then devices
    else if contains_text (codes "client") lower
    then clients
    else if contains_text (codes "trigger") lower
    then triggers
    else other

abbrev is_dot_or_colon : ℕ → Bool
is_dot_or_colon c = eqb c b'.' || eqb c b':'

-- `strings.Trim(match, ".:")`.
unfoldable pub trim_token : Text → Text
trim_token s = trim_right is_dot_or_colon (drop_while is_dot_or_colon s)

-- The first match that is an address; the empty text if none is.
unfoldable pub first_ip : Parsers → List Text → Text
first_ip p [] = []
first_ip p (m ∷ ms) =
    let token = trim_token m in
    let later = first_ip p ms in if is_absent (p.parse_ip token) then later else token

-- `mapSyslogSeverity`.
unfoldable pub map_syslog_severity : ℕ → EventCategory → Severity
map_syslog_severity sev security_detections = if leb sev 3 then critical else high
map_syslog_severity sev other_category =
    if leb sev 2 then critical else if eqb sev 3 then high else if eqb sev 4 then medium else low

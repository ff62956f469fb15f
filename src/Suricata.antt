-- ===== src/Suricata.antt =====
-- internal/suricata/tailer.go: the alerts of Suricata's log. How the file is followed is left out:
-- a line arrives. The decoder of encoding/json is an argument, `none` for a line that it refuses.
pub mod Spacing
use flowguard_lite.Prelude.{
  ℕ, Bool, true, false, not, Option, none, some, List, [], ◌∷◌, ◌++◌, ◌==◌, eqb, any, if◌then◌else◌,
}
use flowguard_lite.Prelude.Ints.{ℤ, pos, negsuc}
use flowguard_lite.Prelude.Maps.{Map}
use flowguard_lite.Prelude.Text.{Text, codes, text_keys}
use flowguard_lite.Prelude.Decimal.{itoa}
use flowguard_lite.Prelude.Clock.{Time, Duration}
use flowguard_lite.Net.{Parsers, Subnet, subnet_contains, parse_subnets}
use flowguard_lite.Flow.{is_empty}
use flowguard_lite.Alert.{Anomaly, Severity, low, medium, high, suricata_alert, claim, new_anomaly}

pub record EveAlert : Type 0 where
  pub signature_id : ℕ  -- uint32
  pub signature : Text
  pub category : Text
  pub severity : ℤ

-- The timestamp of a line is not used.
pub record EveEvent : Type 0 where
  pub event_type : Text
  pub src_ip : Text
  pub dest_ip : Text
  pub alert : Option EveAlert

pub record Tailer : Type 0 where
  pub local_subnets : List Subnet
  pub alert_deduplicator : Map Text Time

unfoldable pub new_tailer : Parsers → List Text → Tailer
new_tailer p subnets = record { local_subnets = parse_subnets p subnets; alert_deduplicator = [] }

unfoldable pub is_local_ip : Parsers → List Subnet → Text → Bool
is_local_ip p nets s = elim (p.parse_ip s) [
  | none ↦ false
  | some ip ↦ any (subnet_contains ip) nets
]

-- The destination if it is local, else the source if that is; the empty text for neither.
unfoldable pub local_side : Parsers → List Subnet → EveEvent → Text
local_side p nets e =
    if is_local_ip p nets e.dest_ip
    then e.dest_ip
    else if is_local_ip p nets e.src_ip
    then e.src_ip
    else []

unfoldable pub severity_of : ℤ → Severity
severity_of (pos n) =
    if eqb n 1 then high else if eqb n 2 then medium else if eqb n 3 then low else medium
severity_of (negsuc n) = medium

unfoldable pub description_of : EveAlert → Text
description_of a =
    codes "IDS Alert: "
    ++ a.signature
    ++ codes " (Category: "
    ++ a.category
    ++ codes ", Signature ID: "
    ++ itoa a.signature_id
    ++ codes ")"

abbrev pub window : Duration
window = 900000000000

-- `fmt.Sprintf("%s|%d", ip, sigID)`.
unfoldable pub dedup_key : Text → ℕ → Text
dedup_key ip sig = ip ++ b'|' ∷ itoa sig

-- The cache afterwards, and the anomaly that is saved, with its signature.
unfoldable pub trigger_alert :
    Time → Text → EveAlert → Map Text Time → Map Text Time × Option (ℕ × Anomaly)
trigger_alert now ip a cache = elim (claim window now (dedup_key ip a.signature_id) cache) [
  | none ↦ (cache, none)
  | some cache' ↦ (
    cache',
    some (
      a.signature_id,
      new_anomaly ip [] suricata_alert (description_of a) (severity_of a.severity) now,
    ),
  )
]

-- The address and the alert that a line is about.
unfoldable pub read_event : Parsers → List Subnet → EveEvent → Option (Text × EveAlert)
read_event p nets e = if not (e.event_type == codes "alert") then none else elim e.alert [
  | none ↦ none
  | some a ↦ let ip = local_side p nets e in if is_empty ip then none else some (ip, a)
]

unfoldable pub read_line :
    (Text → Option EveEvent) → Parsers → List Subnet → Text → Option (Text × EveAlert)
read_line decode p nets line =
    if is_empty line
    then none
    else elim (decode line) [ none ↦ none | some e ↦ read_event p nets e ]

unfoldable pub process_line :
    (Text → Option EveEvent)
    → Parsers
    → List Subnet
    → Time
    → Text
    → Map Text Time
    → Map Text Time × Option (ℕ × Anomaly)
process_line decode p nets now line cache = elim (read_line decode p nets line) [
  | none ↦ (cache, none)
  | some (ip, a) ↦ trigger_alert now ip a cache
]

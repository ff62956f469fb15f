-- ===== src/Examples/Gateway.antt =====
-- The theorems on internal/collector/unifi_syslog.go at concrete inputs.
use flowguard_lite.Prelude.{
  ◌≤◌, ◌≡◌, refl, Option, none, some, List, [], ◌∷◌, arith, if◌then◌else◌, ◌==◌,
}
use flowguard_lite.Prelude.Text.{Text, codes, text_keys, text_eq, is_space}
use flowguard_lite.Prelude.Decimal.{digits, itoa}
use flowguard_lite.Prelude.Clock.{Time}
use flowguard_lite.Policies.{byte_length}
use flowguard_lite.Syslog.{UnifiSyslogEvent, TimeParsers, parsed, parse_unifi_syslog}
use flowguard_lite.Syslog.RoundTrip.{
  Header, HasFields, IsTidy, print_rfc5424, print_body, event_of, parse_unifi_syslog-print_rfc5424,
}
use flowguard_lite.Syslog.Category.{extract_unifi_category, first_ip}
use flowguard_lite.Syslog.Receiver.{event_writes}
use flowguard_lite.Syslog.Alarms.{alarms, promised, alarms-event_writes}
use flowguard_lite.Examples.{parsers, laptop, printer, noon}

abbrev stamp : Text
stamp = codes "2025-01-01T12:00:00Z"

-- Parsers that know one timestamp.
unfoldable read_stamp : Text → Option Time
unfolding text_eq
read_stamp s = if s == stamp then some noon else none

abbrev times : TimeParsers
times = record { parse_rfc3339 = read_stamp; parse_stamp = λ now s. none }

abbrev header : Header
header = record {
  time = stamp;
  host = codes "udm";
  app = codes "ips";
  proc = codes "-";
  msg = codes "-";
}

header-HasFields : HasFields header
header-HasFields = record {
  time_lacks = ground arith;
  host_lacks = ground arith;
  app_lacks = ground arith;
  proc_lacks = ground arith;
  msg_lacks = ground arith;
}

tidy : IsTidy b't' b't' (codes "hreat")
unfolding is_space
tidy = record { front = refl; back = refl; no_nul = refl; ends = (_, refl) }

stamp_read : read_stamp stamp ≡ some noon
unfolding read_stamp text_eq
stamp_read = refl

fits : byte_length (print_rfc5424 34 header (codes "threat")) ≤ 4096
unfolding byte_length print_rfc5424 print_body itoa digits
fits = omega arith

parse_unifi_syslog-print_rfc5424_example :
    parse_unifi_syslog times (print_rfc5424 34 header (codes "threat")) noon
    ≡ parsed (
        event_of times noon noon 34 header header-HasFields stamp_read b't' b't'
          (codes "hreat")
          tidy)
parse_unifi_syslog-print_rfc5424_example =
    parse_unifi_syslog-print_rfc5424 times noon noon 34 header header-HasFields stamp_read b't' b't'
      (codes "hreat") tidy (omega arith) fits

abbrev threat : UnifiSyslogEvent
threat = record {
  timestamp = noon;
  host = codes "udm";
  app_name = codes "ips";
  proc_id = [];
  msg_id = [];
  facility = 4;
  severity = 2;
  message = codes "threat from 192.168.1.10";
}

abbrev tokens : Text → List Text
tokens = λ s. laptop ∷ []

alarms-event_writes_example :
    alarms (event_writes parsers tokens printer threat)
    ≡ promised printer
        (first_ip parsers (tokens threat.message))
        threat
        threat.severity
        (extract_unifi_category threat.message threat.severity)
alarms-event_writes_example = alarms-event_writes parsers tokens printer threat

-- ===== src/Examples.antt =====
-- The theorems at concrete inputs, with the inputs they share.
mod Aggregation
mod Attacks
mod Detectors
mod Profiles
mod Engine
mod Settings
mod Dispatching
mod Requests
mod Logins
mod Silencing
mod Notifications
mod Gateway
mod Handlers
mod Posting
use flowguard_lite.Prelude.{ℕ, Option, none, some, List, [], ◌∷◌, if◌then◌else◌, ◌==◌}
use flowguard_lite.Prelude.Text.{Text, codes, text_keys, text_eq}
use flowguard_lite.Prelude.Clock.{Time}
use flowguard_lite.Net.{Ip, v4, Subnet, net4, Parsers}
use flowguard_lite.Flow.{FlowEvent}

-- 192.168.1.10, 192.168.1.20 and 8.8.8.8, the only addresses of these examples.
abbrev pub laptop : Text
laptop = codes "192.168.1.10"

abbrev pub printer : Text
printer = codes "192.168.1.20"

abbrev pub resolver : Text
resolver = codes "8.8.8.8"

abbrev pub home : Text
home = codes "192.168.1.0/24"

-- Parsers that know these texts alone.
unfoldable pub read_address : Text → Option Ip
unfolding text_eq
read_address s =
    if s == laptop
    then some (v4 3232235786)
    else if s == printer
    then some (v4 3232235796)
    else if s == resolver
    then some (v4 134744072)
    else none

unfoldable pub read_network : Text → Option Subnet
unfolding text_eq
read_network s = if s == home then some (net4 3232235776 24) else none

abbrev pub parsers : Parsers
parsers = record { parse_ip = read_address; parse_cidr = read_network }

-- Noon, a whole number of minutes after the zero time.
abbrev pub noon : Time
noon = 63900000000000000000

abbrev pub flow_at : Time → Text → Text → ℕ → ℕ → ℕ → FlowEvent
flow_at t src dst port bytes packets = record {
  timestamp = t;
  src_ip = src;
  dst_ip = dst;
  src_port = 40000;
  dst_port = port;
  protocol = 17;
  bytes = bytes;
  packets = packets;
  collector_kind = codes "NetFlow";
  collector_id = codes "edge";
  exporter_ip = [];
  tcp_flags = 0;
}

abbrev pub query : FlowEvent
query = flow_at 63900000000000000000 laptop resolver 53 120 2

abbrev pub second_query : FlowEvent
second_query = flow_at 63900000001000000000 laptop resolver 53 80 1

-- A minute later.
abbrev pub print_job : FlowEvent
print_job = flow_at 63900000061000000000 laptop printer 9100 5000 9

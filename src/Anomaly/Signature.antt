-- ===== src/Anomaly/Signature.antt =====
-- internal/anomaly/device_profile.go (deviceProfileSignature, serviceCategory): the coarse text of
-- what a device did in a minute. `sort.Ints` and `sort.Strings` are insertion into a sorted list.
use flowguard_lite.Prelude.{
  ℕ, Bool, false, ◌&&◌, ◌||◌, List, [], ◌∷◌, ◌++◌, map, ltb, leb, eqb, length, if◌then◌else◌,
}
use flowguard_lite.Prelude.Maps.{add}
use flowguard_lite.Prelude.Text.{Text, codes, text_keys, text_lt}
use flowguard_lite.Prelude.Decimal.{itoa}
use flowguard_lite.Anomaly.Metrics.{DeviceMetrics}

pub data Service : Type 0 where
  dns web remote_admin mail file_sharing database other_system high_port : Service

unfoldable pub service_name : Service → Text
service_name dns = codes "dns"
service_name web = codes "web"
service_name remote_admin = codes "remote-admin"
service_name mail = codes "mail"
service_name file_sharing = codes "file-sharing"
service_name database = codes "database"
service_name other_system = codes "other-system"
service_name high_port = codes "high-port"

abbrev pub one_of : ℕ → List ℕ → Bool
one_of port [] = false
one_of port (n ∷ ns) = eqb port n || one_of port ns

unfoldable pub service_category : ℕ → Service
service_category port =
    if eqb port 53
    then dns
    else if one_of port (80 ∷ 443 ∷ 8080 ∷ 8443 ∷ [])
    then web
    else if one_of port (22 ∷ 23 ∷ 3389 ∷ 5900 ∷ [])
    then remote_admin
    else if one_of port (25 ∷ 110 ∷ 143 ∷ 465 ∷ 587 ∷ 993 ∷ 995 ∷ [])
    then mail
    else if one_of port (139 ∷ 445 ∷ 2049 ∷ [])
    then file_sharing
    else if one_of port (1433 ∷ 1521 ∷ 3306 ∷ 5432 ∷ 6379 ∷ 27017 ∷ [])
    then database
    else if ltb 0 port && ltb port 1024
    then other_system
    else high_port

unfoldable pub protocol_name : ℕ → Text
protocol_name protocol =
    if eqb protocol 1
    then codes "icmp"
    else if eqb protocol 6
    then codes "tcp"
    else if eqb protocol 17
    then codes "udp"
    else codes "ip-" ++ itoa protocol

unfoldable pub insert_int : ℕ → List ℕ → List ℕ
insert_int n [] = n ∷ []
insert_int n (m ∷ ms) = if leb n m then n ∷ m ∷ ms else m ∷ insert_int n ms

unfoldable pub sort_ints : List ℕ → List ℕ
sort_ints [] = []
sort_ints (n ∷ ns) = insert_int n (sort_ints ns)

unfoldable pub insert_text : Text → List Text → List Text
insert_text s [] = s ∷ []
insert_text s (t ∷ ts) = if text_lt t s then t ∷ insert_text s ts else s ∷ t ∷ ts

unfoldable pub sort_strings : List Text → List Text
sort_strings [] = []
sort_strings (s ∷ ss) = insert_text s (sort_strings ss)

-- The set of the services' names.
unfoldable pub service_set : List ℕ → List Text → List Text
service_set [] set = set
service_set (port ∷ ports) set = service_set ports (add (service_name (service_category port)) set)

-- `if len(names) == 0 { names = append(names, "none") }`.
abbrev pub or_none : List Text → List Text
or_none [] = codes "none" ∷ []
or_none (s ∷ ss) = s ∷ ss

-- `strings.Join(names, ",")`.
unfoldable pub join_comma : List Text → Text
join_comma [] = []
join_comma (s ∷ []) = s
join_comma (s ∷ t ∷ ts) = s ++ b',' ∷ join_comma (t ∷ ts)

unfoldable pub peer_band : ℕ → Text
peer_band peers =
    if eqb peers 0
    then codes "0"
    else if leb peers 4
    then codes "1-4"
    else if leb peers 15
    then codes "5-15"
    else codes "16+"

unfoldable pub device_profile_signature : DeviceMetrics → Text
device_profile_signature m =
    codes "protocols="
    ++ join_comma (or_none (map protocol_name (sort_ints m.protocols)))
    ++ codes " services="
    ++ join_comma (or_none (sort_strings (service_set m.dst_ports [])))
    ++ codes " peers="
    ++ peer_band (length m.dst_ips)

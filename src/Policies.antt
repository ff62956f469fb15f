-- ===== src/Policies.antt =====
-- internal/storage/repository.go and policy_time.go: the policies that silence anomalies, and how
-- internal/storage/sqlite/anomalies.go decides by them. Left out of a policy are the channels and
-- the times of its changes, which no decision reads. Go's `len` of a text counts bytes of UTF-8.
-- Parameters: the parsers of package net, the numbers that fmt.Sscanf reads with `%d:%d`, and the
-- hour and minute of a time in its zone.
pub mod Evaluation
pub mod Decision
pub mod Hours
use flowguard_lite.Prelude.{
  ℕ, zero, suc, ◌+◌, ◌*◌, Bool, true, false, not, ◌&&◌, ◌||◌, Option, none, some, List, [], ◌∷◌,
  ltb, leb, eqb, length, keep, if◌then◌else◌, ◌==◌,
}
use flowguard_lite.Prelude.Ints.{ℤ, pos, negsuc, is_below, is_above}
use flowguard_lite.Prelude.Text.{Text, codes, text_keys, to_lower}
use flowguard_lite.Prelude.Split.{split}
use flowguard_lite.Prelude.Clock.{Time, second}
use flowguard_lite.Net.{Ip, v4, v6, Parsers, Subnet, subnet_contains}
use flowguard_lite.Flow.{is_empty}
use flowguard_lite.Alert.{Anomaly, Severity, low, medium, high, critical, AlertType, alert_name}

pub record Policy : Type 0 where
  pub id : ℕ
  pub name : Text
  pub scope : Text
  pub target : Text
  pub severity_threshold : Text
  pub suppressed : Bool
  pub cooldown_seconds : ℤ
  pub quiet_hours_start : Text
  pub quiet_hours_end : Text

abbrev utf8_size : ℕ → ℕ
utf8_size c = if ltb c 0x80 then 1 else if ltb c 0x800 then 2 else if ltb c 0x10000 then 3 else 4

unfoldable pub byte_length : Text → ℕ
byte_length [] = 0
byte_length (c ∷ s) = utf8_size c + byte_length s

pub data PolicyError : Type 0 where
  empty_name long_name global_target bad_ip bad_subnet empty_alert_type long_alert_type :
      PolicyError
  bad_scope bad_severity bad_cooldown bad_start bad_end half_quiet_hours : PolicyError

abbrev pub in_span : ℕ → ℕ → ℕ → Bool
in_span lo hi c = leb lo c && leb c hi

-- `^(?:[01]\d|2[0-3]):[0-5]\d$`.
unfoldable pub is_clock_text : Text → Bool
is_clock_text (h1 ∷ h0 ∷ colon ∷ m1 ∷ m0 ∷ []) =
    ((in_span b'0' b'1' h1 && in_span b'0' b'9' h0) || (eqb h1 b'2' && in_span b'0' b'3' h0))
    && eqb colon b':'
    && in_span b'0' b'5' m1
    && in_span b'0' b'9' m0
is_clock_text _ = false

abbrev fails : Bool → PolicyError → Option PolicyError
fails b e = if b then some e else none

abbrev first_error : Option PolicyError → Option PolicyError → Option PolicyError
first_error none later = later
first_error (some e) later = some e

abbrev pub is_absent {ℓ} : {A : Type ℓ} → Option A → Bool
is_absent none = true
is_absent (some x) = false

unfoldable pub validate_target : Parsers → Policy → Option PolicyError
validate_target p policy =
    if policy.scope == codes "global"
    then fails (not (is_empty policy.target)) global_target
    else if policy.scope == codes "ip"
    then fails (is_absent (p.parse_ip policy.target)) bad_ip
    else if policy.scope == codes "subnet"
    then fails (is_absent (p.parse_cidr policy.target)) bad_subnet
    else if policy.scope == codes "alert_type"
    then first_error (fails (is_empty policy.target) empty_alert_type)
        (fails (ltb 100 (byte_length policy.target)) long_alert_type)
    else some bad_scope

unfoldable pub is_severity_threshold : Text → Bool
is_severity_threshold s = is_empty s || s == codes "low" || s == codes "medium" || s == codes "high"

unfoldable pub validate : Parsers → Policy → Option PolicyError
validate p policy =
    let start = policy.quiet_hours_start in
    let end = policy.quiet_hours_end in
    first_error (fails (is_empty policy.name) empty_name) (
      first_error (fails (ltb 100 (byte_length policy.name)) long_name) (
        first_error (validate_target p policy) (
          first_error (fails (not (is_severity_threshold policy.severity_threshold)) bad_severity) (
            first_error
              (fails
                (is_below policy.cooldown_seconds 0 || is_above policy.cooldown_seconds 2592000)
                bad_cooldown)
              (first_error (fails (not (is_empty start) && not (is_clock_text start)) bad_start) (
                first_error (fails (not (is_empty end) && not (is_clock_text end)) bad_end) (
                  fails
                    ((not (is_empty start) && is_empty end)
                      || (is_empty start && not (is_empty end)))
                    half_quiet_hours)))))))

-- `a.Equal(b)`: an address that fits four bytes is `v4` however it is written.
unfoldable pub same_ip : Ip → Ip → Bool
same_ip (v4 a) (v4 b) = eqb a b
same_ip (v6 a) (v6 b) = eqb a b
same_ip (v4 a) (v6 b) = false
same_ip (v6 a) (v4 b) = false

abbrev pub when_some {ℓ} : {A : Type ℓ} → (A → Bool) → Option A → Bool
when_some f none = false
when_some f (some x) = f x

unfoldable pub matches_anomaly : Parsers → Policy → Anomaly → Bool
matches_anomaly p policy a =
    if policy.scope == codes "global"
    then true
    else if policy.scope == codes "ip"
    then when_some
        (λ target.
          when_some (same_ip target) (p.parse_ip a.ip)
          || when_some (same_ip target) (p.parse_ip a.destination_ip))
        (p.parse_ip policy.target)
    else if policy.scope == codes "subnet"
    then when_some
        (λ net.
          when_some (λ ip. subnet_contains ip net) (p.parse_ip a.ip)
          || when_some (λ ip. subnet_contains ip net) (p.parse_ip a.destination_ip))
        (p.parse_cidr policy.target)
    else if policy.scope == codes "alert_type"
    then policy.target == alert_name a.kind
    else false

abbrev pub minutes_of : ℕ × ℕ → ℕ
minutes_of (h, m) = h * 60 + m

-- Whether a minute of the day lies in the window, which may pass midnight.
unfoldable pub in_quiet_minutes : ℕ → ℕ → ℕ → Bool
in_quiet_minutes start end cur =
    if leb start end then leb start cur && leb cur end else leb start cur || leb cur end

abbrev pub has_two : List Text → Bool
has_two (a ∷ b ∷ []) = true
has_two _ = false

unfoldable pub is_time_in_quiet_hours : (Text → ℕ × ℕ) → (Time → ℕ × ℕ) → Time → Text → Text → Bool
is_time_in_quiet_hours scan_clock clock t start end =
    if is_empty start || is_empty end
    then false
    else if not (has_two (split b':' start)) || not (has_two (split b':' end))
    then false
    else in_quiet_minutes (minutes_of (scan_clock start)) (minutes_of (scan_clock end))
        (minutes_of (clock t))

unfoldable pub scope_priority : Text → ℕ
scope_priority scope =
    if scope == codes "ip"
    then 4
    else if scope == codes "subnet"
    then 3
    else if scope == codes "alert_type"
    then 2
    else if scope == codes "global"
    then 1
    else 0

unfoldable pub severity_name : Severity → Text
severity_name low = codes "low"
severity_name medium = codes "medium"
severity_name high = codes "high"
severity_name critical = codes "critical"

unfoldable pub sev_priority : Text → ℕ
sev_priority s =
    let name = to_lower s in
    if name == codes "high"
    then 3
    else if name == codes "medium"
    then 2
    else if name == codes "low"
    then 1
    else 0

-- The loop's choice between the best policy so far and the next one.
unfoldable pub better : Policy → Policy → Policy
better best p =
    if ltb (scope_priority best.scope) (scope_priority p.scope)
    then p
    else if eqb (scope_priority p.scope) (scope_priority best.scope) && ltb best.id p.id
    then p
    else best

unfoldable pub best_from : Policy → List Policy → Policy
best_from best [] = best
best_from best (p ∷ ps) = best_from (better best p) ps

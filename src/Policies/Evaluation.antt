-- ===== src/Policies/Evaluation.antt =====
-- internal/storage/sqlite/anomalies.go and policies.go: what a policy decides, and the tables of
-- policies and anomalies as lists. The times of the anomalies are compared there as texts of whole
-- seconds, all in one zone.
use flowguard_lite.Prelude.{
  ℕ, zero, suc, ◌-◌, ◌*◌, ◌/◌, Bool, true, false, not, ◌&&◌, Option, none, some, List, [], ◌∷◌,
  ◌++◌, ltb, leb, eqb, any, keep, if◌then◌else◌, ◌==◌,
}
use flowguard_lite.Prelude.Ints.{ℤ, pos, negsuc}
use flowguard_lite.Prelude.Text.{Text, codes, text_keys}
use flowguard_lite.Prelude.Clock.{Time, second}
use flowguard_lite.Net.{Parsers, subnet_contains}
use flowguard_lite.Flow.{is_empty}
use flowguard_lite.Alert.{Anomaly, AlertType, alert_name, Status, silenced}
use flowguard_lite.Callbacks.{Dispatcher, dispatch}
use flowguard_lite.Policies.{
  Policy, PolicyError, matches_anomaly, is_time_in_quiet_hours, sev_priority, severity_name,
  best_from, validate, when_some,
}

-- What is not of this repository's code: the parsers of package net, fmt.Sscanf with `%d:%d`, and
-- the hour and minute of a time in its zone.
pub record Zone : Type 0 where
  pub parsers : Parsers
  pub scan_clock : Text → ℕ × ℕ
  pub clock : Time → ℕ × ℕ

abbrev pub or_else : Option Bool → Option Bool → Option Bool
or_else (some true) later = some true
or_else (some false) later = later
or_else none later = none

-- Whether an anomaly was saved for the address and type since a time, `none` for a failed query.
abbrev pub Recent : Type 0
Recent = Text → AlertType → Time → Option Bool

unfoldable pub cooled_down : Recent → ℤ → Anomaly → Option Bool
cooled_down recent (negsuc n) a = some false
cooled_down recent (pos zero) a = some false
cooled_down recent (pos (suc n)) a = recent a.ip a.kind (a.created_at - suc n * second)

-- Whether a policy silences an anomaly that it matches.
unfoldable pub silenced_by : Zone → Recent → Policy → Anomaly → Option Bool
silenced_by z recent p a =
    if p.suppressed
    then some true
    else if not (is_empty p.severity_threshold)
        && ltb (sev_priority (severity_name a.severity)) (sev_priority p.severity_threshold)
    then some true
    else if not (is_empty p.quiet_hours_start)
        && not (is_empty p.quiet_hours_end)
        && is_time_in_quiet_hours z.scan_clock z.clock a.created_at p.quiet_hours_start
            p.quiet_hours_end
    then some true
    else cooled_down recent p.cooldown_seconds a

abbrev pub apply_verdict : Anomaly → Option Bool → Option Anomaly
apply_verdict a none = none
apply_verdict a (some true) = some (record a { status = silenced })
apply_verdict a (some false) = some a

abbrev pub decide : Zone → Recent → List Policy → Anomaly → Option Anomaly
decide z recent [] a = some a
decide z recent (p ∷ ps) a = apply_verdict a (silenced_by z recent (best_from p ps) a)

-- The anomaly as it will be saved, `none` where the policies or the recent anomalies cannot be read.
unfoldable pub evaluate_anomaly_policies :
    Zone → Recent → Option (List Policy) → Anomaly → Option Anomaly
evaluate_anomaly_policies z recent none a = none
evaluate_anomaly_policies z recent (some policies) a =
    decide z recent (keep (λ p. matches_anomaly z.parsers p a) policies) a

-- The tables, and the threads that call back. A row's number is its first part.
pub record Store : Type 0 where
  pub policies : List Policy
  pub next_policy : ℕ
  pub anomalies : List (ℕ × Anomaly)
  pub next_anomaly : ℕ
  pub callbacks : ℕ
  pub dispatcher : Dispatcher

-- Which statements the database carries out.
pub record Database : Type 0 where
  pub lists : Bool
  pub reads : Bool
  pub writes : Bool

abbrev pub since_then : Text → AlertType → Time → ℕ × Anomaly → Bool
since_then ip kind since (id, a) =
    (a.ip == ip)
    && (alert_name a.kind == alert_name kind)
    && leb (since / second) (a.created_at / second)

unfoldable pub has_recent_anomaly : Database → List (ℕ × Anomaly) → Recent
has_recent_anomaly db rows ip kind since =
    if db.reads then some (any (since_then ip kind since) rows) else none

unfoldable pub insert_anomaly : Anomaly → Store → Store
insert_anomaly a s = record s {
  anomalies = s.anomalies ++ (s.next_anomaly, a) ∷ [];
  next_anomaly = suc s.next_anomaly;
  dispatcher = dispatch s.callbacks a s.dispatcher;
}

-- The tables afterwards, and the anomaly if it was saved.
unfoldable pub save_anomaly : Zone → Database → Anomaly → Store → Store × Option Anomaly
save_anomaly z db a s =
    let listed = if db.lists then some s.policies else none in
    elim (evaluate_anomaly_policies z (has_recent_anomaly db s.anomalies) listed a) [
      | none ↦ (s, none)
      | some a' ↦ if not db.writes then (s, none) else (insert_anomaly a' s, some a')
    ]

-- The rows with a new status for one, and how many rows have that number.
unfoldable pub set_status : ℕ → Status → Time → List (ℕ × Anomaly) → List (ℕ × Anomaly) × ℕ
set_status id status now [] = ([], 0)
set_status id status now ((j, a) ∷ rows) =
    let (rest, n) = set_status id status now rows in
    if eqb j id
    then ((j, record a { status = status; updated_at = now }) ∷ rest, suc n)
    else ((j, a) ∷ rest, n)

-- `none` where the write fails or no row has the number.
unfoldable pub update_anomaly_status : Database → ℕ → Status → Time → Store → Option Store
update_anomaly_status db id status now s =
    if not db.writes
    then none
    else let (rows, n) = set_status id status now s.anomalies in
      if eqb n 0 then none else some (record s { anomalies = rows })

unfoldable pub replace_policy : Policy → List Policy → List Policy × ℕ
replace_policy p [] = ([], 0)
replace_policy p (q ∷ ps) =
    let (rest, n) = replace_policy p ps in
    if eqb q.id p.id then (p ∷ rest, suc n) else (q ∷ rest, n)

pub data SavePolicyError : Type 0 where
  invalid : PolicyError → SavePolicyError
  failed_read failed_write not_found : SavePolicyError

pub data Saved : Type 0 where
  saved : Store → Saved
  refused : SavePolicyError → Saved

-- A policy without a number is a new one; it takes the next.
unfoldable pub write_policy : Policy → Store → Saved
write_policy p s =
    if eqb p.id 0
    then saved (record s {
      policies = s.policies ++ (record p { id = s.next_policy }) ∷ [];
      next_policy = suc s.next_policy;
    })
    else let (rows, n) = replace_policy p s.policies in
      if eqb n 0 then refused not_found else saved (record s { policies = rows })

unfoldable pub save_policy : Parsers → Database → Policy → Store → Saved
save_policy parsers db p s = elim (validate parsers p) [
  | some e ↦ refused (invalid e)
  | none ↦ if not db.writes then refused failed_write else write_policy p s
]

unfoldable pub get_policy : ℕ → List Policy → Option Policy
get_policy id [] = none
get_policy id (p ∷ ps) = if eqb p.id id then some p else get_policy id ps

unfoldable pub delete_policy : Database → ℕ → Store → Saved
delete_policy db id s =
    if not db.reads then refused failed_read else elim (get_policy id s.policies) [
      | none ↦ refused not_found
      | some p ↦
          if not db.writes
          then refused failed_write
          else saved (record s { policies = keep (λ q. not (eqb q.id id)) s.policies })
    ]

-- Here an address is compared as a text.
unfoldable pub is_for_ip : Parsers → Text → Policy → Bool
is_for_ip parsers ip p =
    if p.scope == codes "global"
    then true
    else if p.scope == codes "ip"
    then p.target == ip
    else if p.scope == codes "subnet"
    then when_some (λ net. when_some (λ a. subnet_contains a net) (parsers.parse_ip ip))
        (parsers.parse_cidr p.target)
    else false

unfoldable pub get_policies_for_ip : Parsers → Text → List Policy → List Policy
get_policies_for_ip parsers ip = keep (is_for_ip parsers ip)

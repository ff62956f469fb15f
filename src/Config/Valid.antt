-- ===== src/Config/Valid.antt =====
-- What internal/config/config.go guarantees of settings that it admits.
use flowguard_lite.Prelude.{
  ℕ, zero, suc, ◌*◌, ◌≤◌, ◌<◌, ◌≡◌, ◌||◌, refl, false, Option, none, some, List, [], ◌∷◌, arith,
  All, length,
}
use flowguard_lite.Prelude.Text.{Text}
use flowguard_lite.Net.{Parsers}
use flowguard_lite.Prelude.Ints.{ℤ, pos, negsuc, is_below}
use flowguard_lite.Prelude.Clock.{Time}
use flowguard_lite.Anomaly.Controls.{Settings, update_config, or_default}
use flowguard_lite.Anomaly.Beaconing.{judge}
use flowguard_lite.Anomaly.Beaconing.Timing.{IsSetUp, judge_iff}
use flowguard_lite.Config.Ports.{
  Apart, ApartIf, ports_separate, InRange, rejected-InRange, reject-none,
}
use flowguard_lite.Config.{
  first_error, Config, ConfigError, validate, validate_udp_port, validate_collector_port_conflicts,
  validate_anomaly_type_list,
}

first_error-none :
    (checks : List (Option ConfigError)) → first_error checks ≡ none → All (λ o. o ≡ none) checks
unfolding first_error
first_error-none [] h = tt
first_error-none (none ∷ checks) h = (refl, first_error-none checks h)
first_error-none (some e ∷ checks) h = absurd (ground (arith, h))

-- The numbers that `UpdateConfig` of internal/anomaly/engine.go reads.
abbrev pub number : ℤ → ℕ
number (pos n) = n
number (negsuc n) = 0

abbrev pub settings_of : Config → Settings
settings_of c = record {
  disabled_anomaly_types = c.disabled_anomaly_types;
  muted_anomaly_subnets = c.muted_anomaly_subnets;
  new_destination_min_history_buckets = number c.new_destination_min_history_buckets;
  beacon_min_observations_setting = number c.beacon_min_observations;
  beacon_min_interval_seconds = number c.beacon_min_interval_seconds;
}

abbrev pub limits_of : Config → List ℤ
limits_of c =
    c.ddos_threshold_pps ∷ c.ddos_threshold_bps ∷ c.ddos_threshold_fps ∷ c.syn_flood_threshold_pps
    ∷ c.udp_flood_threshold_pps ∷ c.icmp_flood_threshold_pps ∷ []

-- What the detectors and the collectors rely on, at times `obs` of a contact.
pub record IsAdmitted (p : Parsers) (c : Config) (obs : List Time) : Type 0 where
  pub retention : InRange 1 60 c.retention_days
  pub thresholds : All (λ x. (n : ℕ) × (x ≡ pos (suc n))) (limits_of c)
  pub netflow_sflow : Apart c.netflow_port c.sflow_port
  pub netflow_syslog : ApartIf c.unifi_syslog_enabled c.netflow_port c.unifi_syslog_port
  pub sflow_syslog : ApartIf c.unifi_syslog_enabled c.sflow_port c.unifi_syslog_port
  pub buckets :
      pos (update_config p (settings_of c)).min_history_buckets
      ≡ c.new_destination_min_history_buckets
  pub observations :
      pos (update_config p (settings_of c)).min_observations ≡ c.beacon_min_observations
  pub interval :
      (update_config p (settings_of c)).min_interval
      ≡ number c.beacon_min_interval_seconds * 1000000000
  pub set_up : IsSetUp (update_config p (settings_of c))
  pub steady : (judge (update_config p (settings_of c)) obs).panics ≡ false
  pub few_types : length c.disabled_anomaly_types ≤ 64

above_zero : (x : ℤ) → is_below x 1 ≡ false → (n : ℕ) × (x ≡ pos (suc n))
unfolding is_below
above_zero (pos zero) h = absurd (ground (arith, h))
above_zero (pos (suc n)) h = (n, refl)
above_zero (negsuc n) h = absurd (ground (arith, h))

types_few : (values : List Text) → validate_anomaly_type_list values ≡ none → length values ≤ 64
unfolding validate_anomaly_type_list
types_few values h = ground (arith, h)

thresholds_of :
    (c : Config)
    → (is_below c.ddos_threshold_pps 1
        || is_below c.ddos_threshold_bps 1
        || is_below c.ddos_threshold_fps 1
        || is_below c.syn_flood_threshold_pps 1
        || is_below c.udp_flood_threshold_pps 1
        || is_below c.icmp_flood_threshold_pps 1)
      ≡ false
    → All (λ x. (n : ℕ) × (x ≡ pos (suc n))) (limits_of c)
thresholds_of c h = (
  above_zero c.ddos_threshold_pps (ground (arith, h)),
  (
    above_zero c.ddos_threshold_bps (ground (arith, h)),
    (
      above_zero c.ddos_threshold_fps (ground (arith, h)),
      (
        above_zero c.syn_flood_threshold_pps (ground (arith, h)),
        (
          above_zero c.udp_flood_threshold_pps (ground (arith, h)),
          (above_zero c.icmp_flood_threshold_pps (ground (arith, h)), tt),
        ),
      ),
    ),
  ),
)

-- A number that is not 0 is used as it was set.
or_default_set : (value default : ℕ) → 0 < value → or_default value default ≡ value
or_default_set value default h = ground (arith, h)

positive_interval : (i : ℕ) → 1 ≤ i → 0 < i * 1000000000
positive_interval i h = omega (arith, h)

module _ (p : Parsers) (c : Config) where
  set_up :
      InRange 3 60 c.beacon_min_observations
      → InRange 1 86400 c.beacon_min_interval_seconds
      → (pos (update_config p (settings_of c)).min_observations ≡ c.beacon_min_observations)
        × ((update_config p (settings_of c)).min_interval
            ≡ number c.beacon_min_interval_seconds * 1000000000)
        × IsSetUp (update_config p (settings_of c))
  unfolding update_config
  set_up (k, ek, klo, khi) (i, ei, ilo, ihi) =
      let same = or_default_set k 12 (omega (arith, klo)) in
      let kept = or_default_set (i * 1000000000) 90000000000 (positive_interval i ilo) in
      let counts : (update_config p (settings_of c)).min_observations ≡ k = rw (ek) same in
      let gap : (update_config p (settings_of c)).min_interval ≡ i * 1000000000 = rw (ei) kept in
      (
        rw (counts, ek) refl,
        rw (gap, ei) refl,
        record {
          counts = omega (arith, counts, klo);
          gap = omega (arith, gap, positive_interval i ilo);
        },
      )

  history_kept :
      InRange 1 10080 c.new_destination_min_history_buckets
      → pos (update_config p (settings_of c)).min_history_buckets
        ≡ c.new_destination_min_history_buckets
  unfolding update_config
  history_kept (n, en, nlo, nhi) = rw (en, or_default_set n 12 nlo) refl

-- Settings that are admitted have positive thresholds, a port of its own for each enabled
-- collector, at most 64 disabled types and a retention within its bounds. The anomaly engine that
-- is updated with them works with the history, the observations and the interval that they say, no
-- default in their place, and on no list of times does its beacon detector panic.
pub validate-IsAdmitted :
    (p : Parsers) (atoi : Text → Option ℤ) (c : Config) (obs : List Time)
    → validate p atoi c ≡ none
    → IsAdmitted p c obs
unfolding validate validate_collector_port_conflicts validate_udp_port
validate-IsAdmitted p atoi c obs h =
    let udp = (first_error-none _ h).1 in
    let ports = udp.1.1.1.1 in
    let days = ports.1.1.1.1.1.1 in
    let limits = days.1 in
    let types = limits.1.1 in
    let history = types.1.1.1.1 in
    let (counts, gap, ready) =
      set_up p c (rejected-InRange 3 60 c.beacon_min_observations _ history.1.0)
        (rejected-InRange 1 86400 c.beacon_min_interval_seconds _ history.1.1.0) in
    let positive = thresholds_of c (reject-none _ _ limits.0) in
    let (ab, au, bu) =
      ports_separate c (rejected-InRange 0 65535 c.netflow_port _ udp.0)
        (rejected-InRange 0 65535 c.sflow_port _ udp.1.0)
        (rejected-InRange 0 65535 c.unifi_syslog_port _ udp.1.1.0) (reject-none _ _ ports.0) in
    record {
      retention = rejected-InRange 1 60 c.retention_days _ days.0;
      thresholds = positive;
      netflow_sflow = ab;
      netflow_syslog = au;
      sflow_syslog = bu;
      buckets =
          history_kept p c
            (rejected-InRange 1 10080 c.new_destination_min_history_buckets _ history.0);
      observations = counts;
      interval = gap;
      set_up = ready;
      steady = (judge_iff (update_config p (settings_of c)) obs ready).0;
      few_types = types_few c.disabled_anomaly_types types.0;
    }

-- ===== src/Anomaly/Engine/Muting.antt =====
-- What the settings of internal/anomaly keep out.
use flowguard_lite.Prelude.{
  ℕ, ◌≡◌, refl, inl, inr, Bool, false, ◌⊎◌, any, ◌||◌, eqb, length, Option, none, some, List, [],
  ◌∷◌, All, All-append, Bool-cases, Option-cases,
}
use flowguard_lite.Prelude.Maps.{Map}
use flowguard_lite.Prelude.Text.{Text, text_keys, equal_fold}
use flowguard_lite.Prelude.Clock.{Time, is_zero}
use flowguard_lite.Net.{Parsers, Ip, subnet_contains}
use flowguard_lite.Flow.{FlowEvent}
use flowguard_lite.Alert.{dedup_key, claim, alert_name, AlertType}
use flowguard_lite.Anomaly.Controls.{Controls}
use flowguard_lite.Anomaly.Metrics.{DeviceMetrics, aggregate_device_metrics}
use flowguard_lite.Anomaly.Alerts.{
  Finding, Saved, alert_suppressed, trigger_alert_with_destination, type_of, window,
  detection_controls_snapshot,
}
use flowguard_lite.Anomaly.History.{Repository}
use flowguard_lite.Anomaly.Engine.{
  AnomalyEngine, Outcome, and_then, saved_list, trigger_alert, trigger_findings, run_nighttime,
  check_device_profile, check_new_internal_communication, run_new_destinations, run_spike,
  run_fanout, analyze_device, analyze_devices, may_beacon, check_beacon, check_beaconing,
  analyze_batch,
}

-- The type is not one of the disabled ones in any case of letters, and the device, if its address
-- can be read, is in no muted network.
abbrev pub IsWanted : Parsers → Controls → Text → AlertType → Type 0
IsWanted p c ip kind =
    All (λ t. equal_fold t (alert_name kind) ≡ false) c.disabled_types
    × ((p.parse_ip ip ≡ none)
        ⊎ ((address : Ip) × (p.parse_ip ip ≡ some address)
            × All (λ net. subnet_contains address net ≡ false) c.muted_subnets))

any-none : {A : Type 0} (f : A → Bool) (xs : List A) → any f xs ≡ false → All (λ x. f x ≡ false) xs
unfolding any
any-none f [] h = tt
any-none f (x ∷ xs) h = elim (Bool-cases (f x)) [
  | inl yes_ ↦ absurd (cc (rw (yes_) at h))
  | inr no_ ↦ (no_, any-none f xs (rw (no_) at h))
]

alert_suppressed-IsWanted :
    (p : Parsers) (c : Controls) (ip : Text) (kind : AlertType)
    → alert_suppressed p c ip kind ≡ false
    → IsWanted p c ip kind
unfolding alert_suppressed
alert_suppressed-IsWanted p c ip kind h =
    elim (Bool-cases (any (λ t. equal_fold t (alert_name kind)) c.disabled_types)) [
      | inl yes_ ↦ absurd (cc (rw (yes_, alert_suppressed) at h))
      | inr enabled ↦ (
        any-none _ c.disabled_types enabled,
        elim (Option-cases (p.parse_ip ip)) [
          | inl unread ↦ inl unread
          | inr (address, read) ↦ inr (
            address,
            read,
            any-none _ c.muted_subnets (rw (enabled, read, alert_suppressed) at h),
          )
        ],
      )
    ]

module _ (p : Parsers) where
  abbrev pub IsUnmuted : Controls → Saved → Type 0
  IsUnmuted c a = IsWanted p c a.ip a.kind

  -- The settings are untouched, and no anomaly that they suppress was saved.
  pub record Quiet (c : Controls) (o : Outcome) : Type 0 where
    pub kept : o.0.controls ≡ c
    pub unmuted : All (IsUnmuted c) o.1

  and_then-Quiet :
      (c : Controls) (o : Outcome) (f : AnomalyEngine → Outcome)
      → Quiet c o
      → ((e : AnomalyEngine) → e.controls ≡ c → Quiet c (f e))
      → Quiet c (and_then o f)
  and_then-Quiet c o f q h =
      let r = h o.0 q.kept in
      record { kept = r.kept; unmuted = All-append (IsUnmuted c) o.1 (f o.0).1 q.unmuted r.unmuted }

  silent-Quiet : (c : Controls) (e : AnomalyEngine) → e.controls ≡ c → Quiet c (e, [])
  silent-Quiet c e h = record { kept = h; unmuted = tt }

  trigger_alert_with_destination-IsUnmuted :
      (c : Controls) (now : Time) (ip : Text) (f : Finding) (cache : Map Text Time)
      → All (IsUnmuted c) (saved_list (trigger_alert_with_destination p c now ip f cache).1)
  unfolding trigger_alert_with_destination
  trigger_alert_with_destination-IsUnmuted c now ip f cache =
      elim (Bool-cases (alert_suppressed p c ip (type_of f))) [
        | inl muted ↦ rw (muted) tt
        | inr wanted ↦ elim (Option-cases (claim window now (dedup_key ip (type_of f)) cache)) [
          | inl e ↦ rw (wanted, e) tt
          | inr (cache', e) ↦
              rw (wanted, e) (alert_suppressed-IsWanted p c ip (type_of f) wanted, tt)
        ]
      ]

  module _ (hour_of : Time → ℕ) (clock : Text → Finding → Time) (c : Controls) where
    trigger_alert-Quiet :
        (ip : Text) (f : Finding) (e : AnomalyEngine)
        → e.controls ≡ c
        → Quiet c (trigger_alert p hour_of clock ip f e)
    unfolding trigger_alert
    trigger_alert-Quiet ip f e h = record {
      kept = h;
      unmuted = rw (← h) (
          trigger_alert_with_destination-IsUnmuted e.controls (clock ip f) ip f
            e.alert_deduplicator);
    }

    trigger_findings-Quiet :
        (ip : Text) (fs : List Finding) (e : AnomalyEngine)
        → e.controls ≡ c
        → Quiet c (trigger_findings p hour_of clock ip fs e)
    unfolding trigger_findings
    trigger_findings-Quiet ip [] e h = silent-Quiet c e h
    trigger_findings-Quiet ip (f ∷ fs) e h =
        and_then-Quiet c _ _ (trigger_alert-Quiet ip f e h) (trigger_findings-Quiet ip fs)

    check_device_profile-Quiet :
        (ip : Text) (m : DeviceMetrics) (e : AnomalyEngine)
        → e.controls ≡ c
        → Quiet c (check_device_profile p hour_of clock ip m e)
    unfolding check_device_profile
    check_device_profile-Quiet ip m e h = elim (Bool-cases (is_zero m.timestamp)) [
      | inl zero ↦ rw zero (silent-Quiet c e h)
      | inr dated ↦ rw dated (trigger_findings-Quiet ip _ _ h)
    ]

    check_new_internal_communication-Quiet :
        (ip : Text) (m : DeviceMetrics) (e : AnomalyEngine)
        → e.controls ≡ c
        → Quiet c (check_new_internal_communication p hour_of clock ip m e)
    unfolding check_new_internal_communication
    check_new_internal_communication-Quiet ip m e h =
        elim (Bool-cases (is_zero m.timestamp || eqb (length m.internal_dst_ips) 0)) [
          | inl nothing ↦ rw nothing (silent-Quiet c e h)
          | inr peers ↦ rw peers (trigger_findings-Quiet ip _ _ h)
        ]

    run_new_destinations-Quiet :
        (repo : Option Repository) (now : Time) (ip : Text) (m : DeviceMetrics) (e : AnomalyEngine)
        → e.controls ≡ c
        → Quiet c (run_new_destinations p hour_of clock repo now ip m e)
    unfolding run_new_destinations
    run_new_destinations-Quiet none now ip m e h = silent-Quiet c e h
    run_new_destinations-Quiet (some r) now ip m e h = trigger_findings-Quiet ip _ e h

    run_spike-Quiet :
        (ip : Text) (m : DeviceMetrics) (e : AnomalyEngine)
        → e.controls ≡ c
        → Quiet c (run_spike p hour_of clock ip m e)
    unfolding run_spike
    run_spike-Quiet ip m e h = trigger_findings-Quiet ip _ _ h

    run_fanout-Quiet :
        (ip : Text) (m : DeviceMetrics) (e : AnomalyEngine)
        → e.controls ≡ c
        → Quiet c (run_fanout p hour_of clock ip m e)
    unfolding run_fanout
    run_fanout-Quiet ip m e h = trigger_findings-Quiet ip _ _ h

    run_nighttime-Quiet :
        (ip : Text) (m : DeviceMetrics) (e : AnomalyEngine)
        → e.controls ≡ c
        → Quiet c (run_nighttime p hour_of clock ip m e)
    unfolding run_nighttime
    run_nighttime-Quiet ip m e h = trigger_findings-Quiet ip _ _ h

    -- From the communication of a device on, from its profile on, and so back to the first detector.
    abbrev from_peers : Option Repository → Time → Text → DeviceMetrics → AnomalyEngine → Outcome
    from_peers repo now ip m e =
        and_then (check_new_internal_communication p hour_of clock ip m e)
          (run_new_destinations p hour_of clock repo now ip m)

    abbrev from_profile : Option Repository → Time → Text → DeviceMetrics → AnomalyEngine → Outcome
    from_profile repo now ip m e =
        and_then (check_device_profile p hour_of clock ip m e) (from_peers repo now ip m)

    abbrev from_night : Option Repository → Time → Text → DeviceMetrics → AnomalyEngine → Outcome
    from_night repo now ip m e =
        and_then (run_nighttime p hour_of clock ip m e) (from_profile repo now ip m)

    abbrev from_fanout : Option Repository → Time → Text → DeviceMetrics → AnomalyEngine → Outcome
    from_fanout repo now ip m e =
        and_then (run_fanout p hour_of clock ip m e) (from_night repo now ip m)

    analyze_device-Quiet :
        (repo : Option Repository) (now : Time) (ip : Text) (m : DeviceMetrics) (e : AnomalyEngine)
        → e.controls ≡ c
        → Quiet c (analyze_device p hour_of clock repo now ip m e)
    unfolding analyze_device
    analyze_device-Quiet repo now ip m e h =
        and_then-Quiet c (run_spike p hour_of clock ip m e) (from_fanout repo now ip m)
          (run_spike-Quiet ip m e h)
          λ e1 h1.
            and_then-Quiet c (run_fanout p hour_of clock ip m e1) (from_night repo now ip m)
              (run_fanout-Quiet ip m e1 h1)
              λ e2 h2.
                and_then-Quiet c (run_nighttime p hour_of clock ip m e2)
                  (from_profile repo now ip m) (run_nighttime-Quiet ip m e2 h2)
                  λ e3 h3.
                    and_then-Quiet c (check_device_profile p hour_of clock ip m e3)
                      (from_peers repo now ip m) (check_device_profile-Quiet ip m e3 h3)
                      λ e4 h4.
                        and_then-Quiet c (check_new_internal_communication p hour_of clock ip m e4)
                          (run_new_destinations p hour_of clock repo now ip m)
                          (check_new_internal_communication-Quiet ip m e4 h4)
                          (run_new_destinations-Quiet repo now ip m)

    analyze_devices-Quiet :
        (repo : Option Repository) (now : Time) (metrics : Map Text DeviceMetrics)
        (e : AnomalyEngine)
        → e.controls ≡ c
        → Quiet c (analyze_devices p hour_of clock repo now metrics e)
    unfolding analyze_devices
    analyze_devices-Quiet repo now [] e h = silent-Quiet c e h
    analyze_devices-Quiet repo now ((ip, m) ∷ rest) e h =
        and_then-Quiet c (analyze_device p hour_of clock repo now ip m e)
          (analyze_devices p hour_of clock repo now rest) (analyze_device-Quiet repo now ip m e h)
          (analyze_devices-Quiet repo now rest)

    check_beacon-Quiet :
        (settings : Controls) (f : FlowEvent) (e : AnomalyEngine)
        → e.controls ≡ c
        → Quiet c (check_beacon p hour_of clock settings f e)
    unfolding check_beacon
    check_beacon-Quiet settings f e h =
        elim (Bool-cases (may_beacon p hour_of clock e.local_subnets f)) [
          | inl due ↦ rw due (trigger_findings-Quiet f.src_ip _ _ h)
          | inr other ↦ rw other (silent-Quiet c e h)
        ]

    check_beaconing-Quiet :
        (settings : Controls) (batch : List FlowEvent) (e : AnomalyEngine)
        → e.controls ≡ c
        → Quiet c (check_beaconing p hour_of clock settings batch e)
    unfolding check_beaconing
    check_beaconing-Quiet settings [] e h = silent-Quiet c e h
    check_beaconing-Quiet settings (f ∷ fs) e h =
        and_then-Quiet c (check_beacon p hour_of clock settings f e)
          (check_beaconing p hour_of clock settings fs) (check_beacon-Quiet settings f e h)
          (check_beaconing-Quiet settings fs)

  -- Analysing a batch, through all detectors, leaves the settings as they are, and saves no anomaly
  -- of a disabled type, in any case of letters, or of a device in a muted network.
  pub analyze_batch-Quiet :
      (hour_of : Time → ℕ) (clock : Text → Finding → Time) (repo : Option Repository) (now : Time)
      (batch : List FlowEvent) (e : AnomalyEngine)
      → Quiet e.controls (analyze_batch p hour_of clock repo now batch e)
  unfolding analyze_batch
  analyze_batch-Quiet hour_of clock repo now batch e =
      and_then-Quiet e.controls
        (analyze_devices p hour_of clock repo now (aggregate_device_metrics p e.local_subnets batch)
          e)
        (λ e'. check_beaconing p hour_of clock (detection_controls_snapshot e'.controls) batch e')
        (analyze_devices-Quiet hour_of clock e.controls repo now
          (aggregate_device_metrics p e.local_subnets batch) e refl)
        λ e' h.
          check_beaconing-Quiet hour_of clock e.controls (detection_controls_snapshot e'.controls)
            batch e' h

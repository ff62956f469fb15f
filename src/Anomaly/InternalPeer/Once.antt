-- ===== src/Anomaly/InternalPeer/Once.antt =====
-- A peer that internal/anomaly/internal_peer.go has reported, until its device is forgotten. A device
-- that is silent for more than two weeks may be forgotten, and then learns its peers anew.
use flowguard_lite.Prelude.{
  inl, inr, ◌+◌, ◌≤◌, ◌<◌, ◌≡◌, ◌≢◌, refl, true, none, some, List, [], ◌∷◌, arith, length, All,
  Bool-cases, Option-cases, ◌==◌, ==_iff,
}
use flowguard_lite.Prelude.Maps.{lookup, contains, contains-add}
use flowguard_lite.Prelude.Text.{Text, text_keys}
use flowguard_lite.Prelude.Clock.{Time, unix, truncate_minute}
use flowguard_lite.Anomaly.Devices.{Devices, state_retention, expire_devices}
use flowguard_lite.Anomaly.Devices.Visits.{expire_devices-lookup, visit_own, visit_other}
use flowguard_lite.Anomaly.InternalPeer.{
  PeerProfile, fresh_profile, learn, confirm, judge_peers, first_unknown, observe_window,
  observe_internal_peer, learning_target, max_peers,
}
use flowguard_lite.Anomaly.InternalPeer.Reports.{observe_window_report}
use flowguard_lite.Anomaly.InternalPeer.Runs.{reports}

-- Learning is over and the peer is known.
abbrev pub Knows : Text → PeerProfile → Type 0
Knows x v = (learning_target ≤ v.learning_windows) × (contains x v.known ≡ true)

confirm-Knows : (x y : Text) (v : PeerProfile) → Knows x v → Knows x (confirm y v).0
unfolding confirm
confirm-Knows x y v k = ground (arith, contains-add y x v.known)

judge_peers-Knows :
    (x : Text) (peers : List Text) (v : PeerProfile) → Knows x v → Knows x (judge_peers peers v).0
unfolding judge_peers
judge_peers-Knows x peers v k = elim (Option-cases (first_unknown peers v.known)) [
  | inl e ↦ rw (e, judge_peers) k
  | inr (y, e) ↦ rw (e, judge_peers) (confirm-Knows x y v k)
]

observe_window-Knows :
    (x : Text) (peers : List Text) (t : Time) (v : PeerProfile)
    → Knows x v
    → Knows x (observe_window peers t v).0
unfolding observe_window
observe_window-Knows x peers t v k =
    let v' = record v { last_bucket = unix (truncate_minute t); last_seen = t } in
    let k' = judge_peers-Knows x peers v' k in ground arith

observe_window_windows :
    (peers : List Text) (t : Time) (v : PeerProfile)
    → learning_target ≤ v.learning_windows
    → learning_target ≤ (observe_window peers t v).0.learning_windows
unfolding observe_window judge_peers confirm
observe_window_windows peers t v h = ground arith

observe_window_not_again :
    (x : Text) (peers : List Text) (t : Time) (v : PeerProfile)
    → Knows x v
    → (observe_window peers t v).1 ≢ some x
observe_window_not_again x peers t v k e =
    let r = observe_window_report peers t x v e in ground (arith, r.was_unknown, k.1)

judge_peers_last_seen :
    (peers : List Text) (v : PeerProfile) → (judge_peers peers v).0.last_seen ≡ v.last_seen
unfolding judge_peers confirm
judge_peers_last_seen peers v = elim (Option-cases (first_unknown peers v.known)) [
  | inl e ↦ rw (e, judge_peers) refl
  | inr (y, e) ↦ rw (e, judge_peers) (ground arith)
]

-- A profile is used at the time of the window, or was seen before in the same minute.
observe_window_last_seen :
    (lo : Time) (peers : List Text) (t : Time) (v : PeerProfile)
    → lo ≤ t
    → lo ≤ v.last_seen
    → lo ≤ (observe_window peers t v).0.last_seen
unfolding observe_window learn
observe_window_last_seen lo peers t v h k =
    let v' = record v { last_bucket = unix (truncate_minute t); last_seen = t } in
    ground (arith, judge_peers_last_seen peers v')

-- The device has a profile that knows the peer and was used since `lo`.
pub record Remembers (ip x : Text) (lo : Time) (d : Devices PeerProfile) : Type 0 where
  pub profile : PeerProfile
  pub there : lookup ip d.profiles ≡ some profile
  pub knows : Knows x profile
  pub recent : lo ≤ profile.last_seen

-- One more observation, of this or another device, within two weeks.
observe_internal_peer-Remembers :
    (ip x : Text) (lo : Time) (other : Text) (peers : List Text) (t : Time)
    (d : Devices PeerProfile)
    → Remembers ip x lo d
    → lo ≤ t
    → t ≤ lo + state_retention
    → Remembers ip x lo (observe_internal_peer other peers t d).0
      × ¬ ((other ≡ ip) × ((observe_internal_peer other peers t d).1 ≡ some x))
unfolding observe_internal_peer
observe_internal_peer-Remembers ip x lo other peers t d m low high =
    let v = m.profile in
    let kept =
      expire_devices-lookup (λ w. w.last_seen) ip v t d m.there (omega (arith, m.recent, high)) in
    elim (Bool-cases (other == ip)) [
      | inl self ↦
          let same : other ≡ ip = (==_iff other ip).0 self in
          let own =
            visit_own (λ w. w.last_seen) fresh_profile (observe_window peers t) none ip v t d
              kept in
          rw (same) (
            record {
              profile = (observe_window peers t v).0;
              there = own.0;
              knows = observe_window-Knows x peers t v m.knows;
              recent = observe_window_last_seen lo peers t v low m.recent;
            },
            λ e. observe_window_not_again x peers t v m.knows (cc (e.1, own.1)),
          )
      | inr differs ↦
          let apart =
            visit_other (λ w. w.last_seen) fresh_profile (observe_window peers t) none ip other t d
              differs in
          (
            record { profile = v; there = rw (apart) kept; knows = m.knows; recent = m.recent },
            λ e. cc (differs, (==_iff other ip).1 e.0),
          )
    ]

reports-Remembers :
    (ip x : Text) (lo : Time) (calls : List (Text × List Text × Time)) (d : Devices PeerProfile)
    → Remembers ip x lo d
    → All (λ c. (lo ≤ c.2) × (c.2 ≤ lo + state_retention)) calls
    → All (λ r. ¬ ((r.0 ≡ ip) × (r.1 ≡ some x))) (reports calls d)
unfolding reports
reports-Remembers ip x lo [] d m times = tt
reports-Remembers ip x lo ((other, peers, t) ∷ rest) d m times =
    let (m', quiet) =
      observe_internal_peer-Remembers ip x lo other peers t d m times.0.0 times.0.1 in
    (quiet, reports-Remembers ip x lo rest (observe_internal_peer other peers t d).0 m' times.1)

reported_last_seen :
    (peers : List Text) (t : Time) (x : Text) (v : PeerProfile)
    → (observe_window peers t v).1 ≡ some x
    → t ≤ (observe_window peers t v).0.last_seen
unfolding observe_window
reported_last_seen peers t x v h =
    let v' = record v { last_bucket = unix (truncate_minute t); last_seen = t } in
    ground (arith, judge_peers_last_seen peers v', h)

-- A peer is reported for a device that is not forgotten and knows fewer than 256 peers. Whatever is
-- observed next, of this device and of others, at times from then to two weeks later, the peer is
-- not reported for the device again.
pub reported_once :
    (ip : Text) (peers : List Text) (t : Time) (x : Text) (v : PeerProfile)
    (d : Devices PeerProfile) (calls : List (Text × List Text × Time))
    → lookup ip (expire_devices (λ w. w.last_seen) t d).profiles ≡ some v
    → length v.known < max_peers
    → (observe_internal_peer ip peers t d).1 ≡ some x
    → All (λ c. (t ≤ c.2) × (c.2 ≤ t + state_retention)) calls
    → All
        (λ r. ¬ ((r.0 ≡ ip) × (r.1 ≡ some x)))
        (reports calls (observe_internal_peer ip peers t d).0)
unfolding observe_internal_peer
reported_once ip peers t x v d calls found room h times =
    let own =
      visit_own (λ w. w.last_seen) fresh_profile (observe_window peers t) none ip v t d found in
    let told : (observe_window peers t v).1 ≡ some x = cc (own.1, h) in
    let r = observe_window_report peers t x v told in
    reports-Remembers ip x t calls (observe_internal_peer ip peers t d).0
      (record {
        profile = (observe_window peers t v).0;
        there = own.0;
        knows = (observe_window_windows peers t v r.learned, ground (arith, r.remembered, room));
        recent = reported_last_seen peers t x v told;
      })
      times

-- ===== src/Anomaly/InternalPeer/Runs.antt =====
-- Runs of internal/anomaly/internal_peer.go over all devices.
use flowguard_lite.Prelude.{Option, none, List, [], ◌∷◌, arith}
use flowguard_lite.Prelude.Text.{Text, text_keys}
use flowguard_lite.Prelude.Clock.{Time}
use flowguard_lite.Anomaly.Devices.{Devices, IsKept, visit-IsKept, no_devices}
use flowguard_lite.Anomaly.InternalPeer.{
  PeerProfile, fresh_profile, observe_window, observe_internal_peer,
}
use flowguard_lite.Anomaly.InternalPeer.Reports.{IsSmall, observe_window-IsSmall}

-- All devices, in any order.
unfoldable pub run_devices :
    List (Text × List Text × Time) → Devices PeerProfile → Devices PeerProfile
run_devices [] d = d
run_devices ((ip, peers, t) ∷ rest) d = run_devices rest (observe_internal_peer ip peers t d).0

-- What the observations report, each with its device.
unfoldable pub reports :
    List (Text × List Text × Time) → Devices PeerProfile → List (Text × Option Text)
reports [] d = []
reports ((ip, peers, t) ∷ rest) d =
    let (d', out) = observe_internal_peer ip peers t d in (ip, out) ∷ reports rest d'

run_devices-IsKept :
    (calls : List (Text × List Text × Time)) (d : Devices PeerProfile)
    → IsKept IsSmall d
    → IsKept IsSmall (run_devices calls d)
unfolding run_devices observe_internal_peer
run_devices-IsKept [] d k = k
run_devices-IsKept ((ip, peers, t) ∷ rest) d k =
    run_devices-IsKept rest _
      (visit-IsKept IsSmall (λ (o : Option Text). Unit {0}) (λ v. v.last_seen) fresh_profile
        (observe_window peers t) none ip t d (omega arith) tt
        (λ v s. (observe_window-IsSmall peers t v s, tt)) k).0

-- Over any observations there are at most 4096 profiles, each with at most 256 known and 256
-- learning peers, at most twelve learning windows, and a candidate not yet confirmed.
pub run_devices-IsSmall :
    (calls : List (Text × List Text × Time)) → IsKept IsSmall (run_devices calls no_devices)
run_devices-IsSmall calls =
    run_devices-IsKept calls no_devices (record { each = tt; few = omega arith })

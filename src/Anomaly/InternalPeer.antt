-- ===== src/Anomaly/InternalPeer.antt =====
-- internal/anomaly/internal_peer.go: which local peers a device talks to is learned for twelve
-- windows; later a peer that is not among them is reported when it comes in two windows running.
-- The sets are lists in the order of Go's iteration; a minute is counted by `unix`, from year 1.
pub mod Reports
pub mod Runs
pub mod Once
use flowguard_lite.Prelude.{
  ℕ, suc, ◌+◌, Bool, true, false, not, Option, none, some, List, [], ◌∷◌, ltb, leb, eqb, length, u8,
  if◌then◌else◌, ◌==◌,
}
use flowguard_lite.Prelude.Maps.{contains, add}
use flowguard_lite.Prelude.Text.{Text, text_keys, text_lt}
use flowguard_lite.Prelude.Clock.{Time, unix, unix_epoch, truncate_minute}
use flowguard_lite.Anomaly.Devices.{Devices, visit}

abbrev pub learning_target : ℕ
learning_target = 12

abbrev pub confirm_target : ℕ
confirm_target = 2

abbrev pub max_peers : ℕ
max_peers = 256

-- `candidate` is `none` where the source has the empty text.
pub record PeerProfile : Type 0 where
  pub known : List Text
  pub learning : List Text
  pub learning_windows : ℕ
  pub candidate : Option Text
  pub candidate_windows : ℕ
  pub last_bucket : ℕ
  pub last_seen : Time

abbrev pub fresh_profile : PeerProfile
fresh_profile = record {
  known = [];
  learning = [];
  learning_windows = 0;
  candidate = none;
  candidate_windows = 0;
  last_bucket = unix_epoch;
  last_seen = 0;
}

unfoldable pub learn_peers : List Text → List Text → List Text
learn_peers [] learning = learning
learn_peers (peer ∷ peers) learning =
    learn_peers peers (if ltb (length learning) max_peers then add peer learning else learning)

abbrev pub smaller : Text → Option Text → Text
smaller x none = x
smaller x (some y) = if text_lt y x then y else x

-- The first of the sorted unknown peers.
unfoldable pub first_unknown : List Text → List Text → Option Text
first_unknown [] known = none
first_unknown (peer ∷ peers) known =
    let rest = first_unknown peers known in
    if contains peer known then rest else some (smaller peer rest)

-- A window while learning.
unfoldable pub learn : List Text → PeerProfile → PeerProfile
learn peers v =
    let learned = learn_peers peers v.learning in
    let windows = u8 (v.learning_windows + 1) in
    if eqb windows learning_target
    then (record v { known = learned; learning = []; learning_windows = windows })
    else (record v { learning = learned; learning_windows = windows })

abbrev pub is_candidate : Text → Option Text → Bool
is_candidate x none = false
is_candidate x (some y) = x == y

-- A window with an unknown peer.
unfoldable pub confirm : Text → PeerProfile → PeerProfile × Option Text
confirm unknown v =
    let windows = u8 (v.candidate_windows + 1) in
    if not (is_candidate unknown v.candidate)
    then (record v { candidate = some unknown; candidate_windows = 1 }, none)
    else if ltb windows confirm_target
    then (record v { candidate_windows = windows }, none)
    else (
      record v {
        known = if ltb (length v.known) max_peers then add unknown v.known else v.known;
        candidate = none;
        candidate_windows = 0;
      },
      some unknown,
    )

unfoldable pub judge_peers : List Text → PeerProfile → PeerProfile × Option Text
judge_peers peers v = elim (first_unknown peers v.known) [
  | none ↦ (record v { candidate = none; candidate_windows = 0 }, none)
  | some unknown ↦ confirm unknown v
]

-- The work on the profile of one device.
unfoldable pub observe_window : List Text → Time → PeerProfile → PeerProfile × Option Text
observe_window peers t v =
    let bucket = unix (truncate_minute t) in
    let v' = record v { last_bucket = bucket; last_seen = t } in
    if eqb bucket v.last_bucket
    then (v, none)
    else if ltb v.learning_windows learning_target
    then (learn peers v', none)
    else judge_peers peers v'

-- `observeInternalPeer`: the peer to report, if any.
unfoldable pub observe_internal_peer :
    Text → List Text → Time → Devices PeerProfile → Devices PeerProfile × Option Text
observe_internal_peer ip peers t d =
    visit (λ v. v.last_seen) fresh_profile (observe_window peers t) none ip t d

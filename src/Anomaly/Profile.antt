-- ===== src/Anomaly/Profile.antt =====
-- internal/anomaly/device_profile.go (observeDeviceProfile): the usual signature of a device is
-- learned over twelve windows; another one is reported when it holds for three windows running.
-- `none` stands for the empty text of `baseline`, `candidate` and `dominant`.
pub mod Streaks
pub mod Learning
use flowguard_lite.Prelude.{
  ℕ, suc, ◌+◌, ◌≡◌, Bool, true, false, not, ◌&&◌, ◌||◌, Option, none, some, List, [], ◌∷◌, ltb, leb,
  eqb, length, u8, if◌then◌else◌, ◌==◌,
}
use flowguard_lite.Prelude.Maps.{Map, lookup, insert}
use flowguard_lite.Prelude.Text.{Text, text_keys, text_lt}
use flowguard_lite.Prelude.Clock.{Time, unix, unix_epoch, truncate_minute}
use flowguard_lite.Anomaly.Devices.{Devices, visit}

abbrev pub learning_target : ℕ
learning_target = 12

abbrev pub dominance_target : ℕ
dominance_target = 9

abbrev pub confirm_target : ℕ
confirm_target = 3

abbrev pub max_signatures : ℕ
max_signatures = 8

pub record FeatureProfile : Type 0 where
  pub baseline : Option Text
  pub learning : Map Text ℕ
  pub learning_windows : ℕ
  pub candidate : Option Text
  pub candidate_windows : ℕ
  pub last_bucket : ℕ
  pub last_seen : Time

abbrev pub fresh_profile : FeatureProfile
fresh_profile = record {
  baseline = none;
  learning = [];
  learning_windows = 0;
  candidate = none;
  candidate_windows = 0;
  last_bucket = unix_epoch;
  last_seen = 0;
}

abbrev pub is_text : Text → Option Text → Bool
is_text x none = false
is_text x (some y) = x == y

-- `learning[signature]`, 0 where it is missing.
abbrev pub count_or_zero : Option ℕ → ℕ
count_or_zero none = 0
count_or_zero (some n) = n

-- The loop over `learning`: the greatest count, and of equal ones the least text.
abbrev pub beats : Text → ℕ → Option Text → ℕ → Bool
beats s n none m = ltb m n || eqb n m
beats s n (some d) m = ltb m n || (eqb n m && text_lt s d)

unfoldable pub dominant_from : Map Text ℕ → Option Text → ℕ → Option Text × ℕ
dominant_from [] d m = (d, m)
dominant_from ((s, n) ∷ rest) d m =
    let better = beats s n d m in
    dominant_from rest (if better then some s else d) (if better then n else m)

-- The end of learning.
unfoldable pub settle : FeatureProfile → FeatureProfile
settle v =
    let (dominant, most) = dominant_from v.learning none 0 in
    record v {
      baseline = if leb dominance_target most then dominant else v.baseline;
      learning = [];
      learning_windows = 0;
    }

-- Whether there is no room to count a new signature.
abbrev pub is_crowded : Text → Map Text ℕ → Bool
is_crowded s m = elim (lookup s m) [ none ↦ leb max_signatures (length m) | some n ↦ false ]

-- A window without a baseline.
unfoldable pub learn : Text → FeatureProfile → FeatureProfile
learn s v =
    if is_crowded s v.learning
    then v
    else (let counted = record v {
      learning = insert s (u8 (count_or_zero (lookup s v.learning) + 1)) v.learning;
      learning_windows = u8 (v.learning_windows + 1);
    } in
        if ltb counted.learning_windows learning_target then counted else settle counted)

-- A window with the baseline `old`; the result is the old and the new signature.
unfoldable pub compare_window : Text → Text → FeatureProfile → FeatureProfile × Option (Text × Text)
compare_window s old v =
    let windows = u8 (v.candidate_windows + 1) in
    if s == old
    then (record v { candidate = none; candidate_windows = 0 }, none)
    else if not (is_text s v.candidate)
    then (record v { candidate = some s; candidate_windows = 1 }, none)
    else if ltb windows confirm_target
    then (record v { candidate_windows = windows }, none)
    else (
      record v { baseline = v.candidate; candidate = none; candidate_windows = 0 },
      some (old, s),
    )

unfoldable pub judge_signature : Text → FeatureProfile → FeatureProfile × Option (Text × Text)
judge_signature s v = elim v.baseline [
  | none ↦ (learn s v, none)
  | some old ↦ compare_window s old v
]

unfoldable pub observe_window : Text → Time → FeatureProfile → FeatureProfile × Option (Text × Text)
observe_window s t v =
    let bucket = unix (truncate_minute t) in
    if eqb bucket v.last_bucket
    then (v, none)
    else judge_signature s (record v { last_bucket = bucket; last_seen = t })

-- `observeDeviceProfile`.
unfoldable pub observe_device_profile :
    Text → Text → Time → Devices FeatureProfile → Devices FeatureProfile × Option (Text × Text)
observe_device_profile ip s t d =
    visit (λ v. v.last_seen) fresh_profile (observe_window s t) none ip t d

-- ===== src/Anomaly/Devices.antt =====
-- The profiles by device that nighttime.go, device_profile.go and internal_peer.go of
-- internal/anomaly keep in the same way: old ones are dropped, a new device gets a profile while
-- there is room, and the rest of the observation works on that profile.
pub mod Visits
use flowguard_lite.Prelude.{
  inl, inr, ◌⊎◌, ℕ, ◌≤◌, ◌≡◌, none, some, [], arith, leb, length, if◌then◌else◌, Bool-cases,
  Option-cases,
}
use flowguard_lite.Prelude.Maps.{
  Map, lookup, insert, length-insert-le, length-insert_old, AllValues, AllValues-insert,
  AllValues-lookup,
}
use flowguard_lite.Prelude.Text.{Text, text_keys}
use flowguard_lite.Prelude.Clock.{Time, Duration}
use flowguard_lite.Anomaly.Window.{expire, raise_watermark, length-expire-le, AllValues-expire}

-- Two weeks.
abbrev pub state_retention : Duration
state_retention = 1209600000000000

abbrev pub max_devices : ℕ
max_devices = 4096

pub record Devices {ℓ} (V : Type ℓ) : Type ℓ where
  pub profiles : Map Text V
  pub watermark : Time

abbrev pub no_devices {ℓ} : {V : Type ℓ} → Devices V
no_devices = record { profiles = []; watermark = 0 }

unfoldable pub expire_devices {ℓ} : {V : Type ℓ} → (V → Time) → Time → Devices V → Devices V
expire_devices last_seen t d = record {
  profiles = expire last_seen state_retention t d.watermark d.profiles;
  watermark = raise_watermark t d.watermark;
}

unfoldable pub write_back {ℓ κ} :
    {V : Type ℓ} {R : Type κ} → Text → Devices V → V × R → Devices V × R
write_back ip d (v, r) = (record d { profiles = insert ip v d.profiles }, r)

module _ {ℓ κ} {V : Type ℓ} {R : Type κ} (last_seen : V → Time) where
  -- One observation: `observe` works on the profile, and `quiet` is the result without room.
  unfoldable pub visit : V → (V → V × R) → R → Text → Time → Devices V → Devices V × R
  visit fresh observe quiet ip t d =
      let d' = expire_devices last_seen t d in
      elim (lookup ip d'.profiles) [
        | some v ↦ write_back ip d' (observe v)
        | none ↦
            if leb max_devices (length d'.profiles)
            then (d', quiet)
            else write_back ip d' (observe fresh)
      ]

-- What holds of every profile, and the bound on their number.
pub record IsKept {ℓ κ} {V : Type ℓ} (P : V → Type κ) (d : Devices V) : Type κ where
  pub each : AllValues P d.profiles
  pub few : length d.profiles ≤ max_devices

expire_devices-IsKept {ℓ μ} :
    {V : Type ℓ} (P : V → Type μ) (last_seen : V → Time) (t : Time) (d : Devices V)
    → IsKept P d
    → IsKept P (expire_devices last_seen t d)
unfolding expire_devices
expire_devices-IsKept P last_seen t d v = record {
  each = AllValues-expire P last_seen state_retention t d.watermark d.profiles v.each;
  few = omega (
    arith,
    v.few,
    length-expire-le {K = Text} last_seen 1209600000000000 t d.watermark d.profiles,
  );
}

module _ {ℓ κ μ ν} {V : Type ℓ} {R : Type κ} (P : V → Type μ) (Q : R → Type ν) where
  write_back-IsKept :
      (ip : Text) (d : Devices V) (out : V × R)
      → AllValues P d.profiles
      → ((v : V) → length (insert ip v d.profiles) ≤ max_devices)
      → P out.0 × Q out.1
      → IsKept P (write_back ip d out).0 × Q (write_back ip d out).1
  unfolding write_back
  write_back-IsKept ip d (v, r) each room h =
      (record { each = AllValues-insert P ip v d.profiles h.0 each; few = room v }, h.1)

  -- A property that every observation of a profile keeps is kept for all devices, at most 4096 of
  -- them, and what observations guarantee of their results is guaranteed of every result.
  pub visit-IsKept :
      (last_seen : V → Time) (fresh : V) (observe : V → V × R) (quiet : R) (ip : Text) (t : Time)
      (d : Devices V)
      → P fresh
      → Q quiet
      → ((v : V) → P v → P (observe v).0 × Q (observe v).1)
      → IsKept P d
      → IsKept P (visit last_seen fresh observe quiet ip t d).0
        × Q (visit last_seen fresh observe quiet ip t d).1
  unfolding visit
  visit-IsKept last_seen fresh observe quiet ip t d start calm keeps v =
      let d' = expire_devices last_seen t d in
      let v' = expire_devices-IsKept P last_seen t d v in
      elim (Option-cases (lookup ip d'.profiles)) [
        | inr (old, found) ↦
            rw (found, visit)
              (write_back-IsKept ip d' (observe old) v'.each
                (λ w. omega (arith, v'.few, length-insert_old ip w old d'.profiles found))
                (keeps old (AllValues-lookup P ip old d'.profiles v'.each found)))
        | inl missing ↦ elim (Bool-cases (leb max_devices (length d'.profiles))) [
          | inl full ↦ rw (missing, full, visit) (v', calm)
          | inr room ↦
              rw (missing, room, visit)
                (write_back-IsKept ip d' (observe fresh) v'.each
                  (λ w. ground (arith, room, length-insert-le ip w d'.profiles))
                  (keeps fresh start))
        ]
      ]

-- Where the result of an observation comes from.
pub visit_cases {ℓ κ} :
    {V : Type ℓ} {R : Type κ} (last_seen : V → Time) (fresh : V) (observe : V → V × R) (quiet : R)
    (ip : Text) (t : Time) (d : Devices V)
    → let profiles = (expire_devices last_seen t d).profiles in
      let out = (visit last_seen fresh observe quiet ip t d).1 in
      ((v : V) × (lookup ip profiles ≡ some v) × (out ≡ (observe v).1))
      ⊎ ((lookup ip profiles ≡ none) × ((out ≡ quiet) ⊎ (out ≡ (observe fresh).1)))
unfolding visit write_back
visit_cases last_seen fresh observe quiet ip t d =
    let d' = expire_devices last_seen t d in
    elim (Option-cases (lookup ip d'.profiles)) [
      | inr (v, e) ↦ inl (v, e, rw (e, visit))
      | inl e ↦ elim (Bool-cases (leb max_devices (length d'.profiles))) [
        | inl full ↦ inr (e, inl (rw (e, full, visit)))
        | inr room ↦ inr (e, inr (rw (e, room, visit)))
      ]
    ]

-- ===== src/Anomaly/Devices/Visits.antt =====
-- What one observation does to the profile of its own device and to those of others.
use flowguard_lite.Prelude.{
  inl, inr, ◌+◌, ◌-◌, ◌≤◌, ◌≡◌, refl, false, some, arith, ltb, leb, length, ◌&&◌, ◌||◌, ◌==◌,
  Bool-cases, Option-cases,
}
use flowguard_lite.Prelude.Maps.{lookup, lookup-insert, lookup-insert_self, lookup-prune}
use flowguard_lite.Prelude.Text.{Text, text_keys}
use flowguard_lite.Prelude.Clock.{Time, minute, is_zero}
use flowguard_lite.Anomaly.Window.{expire}
use flowguard_lite.Anomaly.Devices.{
  Devices, state_retention, max_devices, expire_devices, write_back, visit,
}

module _ {ℓ} {V : Type ℓ} (last_seen : V → Time) where
  -- A profile that was used in the last two weeks stays.
  pub expire_devices-lookup :
      (ip : Text) (v : V) (t : Time) (d : Devices V)
      → lookup ip d.profiles ≡ some v
      → t ≤ last_seen v + state_retention
      → lookup ip (expire_devices last_seen t d).profiles ≡ some v
  unfolding expire_devices expire
  expire_devices-lookup ip v t d found recent =
      elim (Bool-cases
        (ltb d.watermark t && (is_zero d.watermark || leb minute (t - d.watermark)))) [
          | inl due ↦ rw (due) (
              lookup-prune (λ w. ltb (last_seen w) (t - state_retention)) ip v d.profiles found
                (ground (arith, recent)))
          | inr early ↦ rw (early) found
        ]

  module _ {κ} {R : Type κ} (fresh : V) (observe : V → V × R) (quiet : R) where
    pub visit_own :
        (ip : Text) (v : V) (t : Time) (d : Devices V)
        → lookup ip (expire_devices last_seen t d).profiles ≡ some v
        → (lookup ip (visit last_seen fresh observe quiet ip t d).0.profiles ≡ some (observe v).0)
          × ((visit last_seen fresh observe quiet ip t d).1 ≡ (observe v).1)
    unfolding visit write_back
    visit_own ip v t d found =
        rw (found, visit)
          (lookup-insert_self ip (observe v).0 (expire_devices last_seen t d).profiles, refl)

    pub visit_other :
        (ip other : Text) (t : Time) (d : Devices V)
        → (other == ip) ≡ false
        → lookup ip (visit last_seen fresh observe quiet other t d).0.profiles
          ≡ lookup ip (expire_devices last_seen t d).profiles
    unfolding visit write_back
    visit_other ip other t d differs =
        let d' = expire_devices last_seen t d in
        elim (Option-cases (lookup other d'.profiles)) [
          | inr (v, e) ↦
              rw (e, visit) (rw (lookup-insert other ip (observe v).0 d'.profiles, differs) refl)
          | inl e ↦ elim (Bool-cases (leb max_devices (length d'.profiles))) [
            | inl full ↦ rw (e, full, visit) refl
            | inr room ↦
                rw (e, room, visit)
                  (rw (lookup-insert other ip (observe fresh).0 d'.profiles, differs) refl)
          ]
        ]

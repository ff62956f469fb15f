-- ===== src/Anomaly/Window.antt =====
-- The state that three detectors of internal/anomaly share in form: profiles by device, with the
-- time of the last use, dropped two weeks after it (nighttime.go, device_profile.go,
-- internal_peer.go, and beaconing.go with two hours). Also the bounded sorted lists of minutes.
use Prim.Native.Nat.{zero}
use flowguard_lite.Prelude.{
  inl, inr, ℕ, suc, ◌-◌, ◌≤◌, ◌≡◌, refl, Bool, false, ◌&&◌, ◌||◌, List, [], ◌∷◌, arith, ltb, leb,
  eqb, length, drop, length-drop, if◌then◌else◌, Bool-cases, Keyed,
}
use flowguard_lite.Prelude.Maps.{Map, prune, length-prune-le, AllValues, AllValues-prune}
use flowguard_lite.Prelude.Clock.{Time, Duration, minute, is_zero}

-- `cutoff := timestamp.Add(-retention)` and the loop over the profiles, at most once a minute.
unfoldable pub expire {ℓ κ} :
    {K : Type ℓ} {V : Type κ} ⦃e : Keyed K⦄
    → (V → Time)
    → Duration
    → Time
    → Time
    → Map K V
    → Map K V
expire last_seen retention timestamp watermark m =
    if ltb watermark timestamp && (is_zero watermark || leb minute (timestamp - watermark))
    then prune (λ v. ltb (last_seen v) (timestamp - retention)) m
    else m

-- `if timestamp.After(watermark) { watermark = timestamp }`.
unfoldable pub raise_watermark : Time → Time → Time
raise_watermark timestamp watermark = if ltb watermark timestamp then timestamp else watermark

pub length-expire-le {ℓ κ} :
    {K : Type ℓ} {V : Type κ} ⦃e : Keyed K⦄ (last_seen : V → Time)
    (retention timestamp watermark : ℕ) (m : Map K V)
    → length (expire last_seen retention timestamp watermark m) ≤ length m
unfolding expire
length-expire-le last_seen retention timestamp watermark m =
    ground (arith, length-prune-le (λ v. ltb (last_seen v) (timestamp - retention)) m)

-- Sorted insertion as `sort.Search`, `append` and `copy` do it: before the first element that is
-- not smaller. On a sorted list `sort.Search` finds that element.
unfoldable pub insert_sorted : ℕ → List ℕ → List ℕ
insert_sorted t [] = t ∷ []
insert_sorted t (u ∷ us) = if leb t u then t ∷ u ∷ us else u ∷ insert_sorted t us

-- Whether the element that `sort.Search` finds is the one sought.
unfoldable pub present : ℕ → List ℕ → Bool
present t [] = false
present t (u ∷ us) = if leb t u then eqb t u else present t us

-- `if len(xs) > limit { xs = xs[len(xs)-limit:] }`.
unfoldable pub keep_last : ℕ → List ℕ → List ℕ
keep_last limit us = if ltb limit (length us) then drop (length us - limit) us else us

-- Strictly increasing.
abbrev pub Above : ℕ → List ℕ → Type 0
Above lo [] = Unit {0}
Above lo (u ∷ us) = (lo ≤ u) × Above (suc u) us

pub length-insert_sorted : (t : ℕ) (us : List ℕ) → length (insert_sorted t us) ≡ suc (length us)
unfolding insert_sorted
length-insert_sorted t [] = refl
length-insert_sorted t (u ∷ us) = ground (arith, length-insert_sorted t us)

pub length-keep_last-le : (limit : ℕ) (us : List ℕ) → length (keep_last limit us) ≤ limit
unfolding keep_last
length-keep_last-le limit us = ground (arith, length-drop (length us - limit) us)

Above-mono : (lo hi : ℕ) (us : List ℕ) → lo ≤ hi → Above hi us → Above lo us
Above-mono lo hi [] h a = tt
Above-mono lo hi (u ∷ us) h a = (omega arith, a.1)

pub Above-insert_sorted :
    (lo t : ℕ) (us : List ℕ)
    → lo ≤ t
    → present t us ≡ false
    → Above lo us
    → Above lo (insert_sorted t us)
unfolding insert_sorted present
Above-insert_sorted lo t [] h n a = (h, tt)
Above-insert_sorted lo t (u ∷ us) h n a = elim (Bool-cases (leb t u)) [
  | inl before ↦ rw before (h, (ground arith, a.1))
  | inr after ↦
      rw after (a.0, Above-insert_sorted (suc u) t us (ground arith) (ground (arith, after)) a.1)
]

Above-drop : (lo n : ℕ) (us : List ℕ) → Above lo us → Above lo (drop n us)
Above-drop lo zero us a = a
Above-drop lo (suc n) [] a = tt
Above-drop lo (suc n) (u ∷ us) a =
    Above-mono lo (suc u) (drop n us) (omega arith) (Above-drop (suc u) n us a.1)

pub Above-keep_last : (lo limit : ℕ) (us : List ℕ) → Above lo us → Above lo (keep_last limit us)
unfolding keep_last
Above-keep_last lo limit us a = ground (arith, Above-drop lo (length us - limit) us a)

pub AllValues-expire {ℓ κ μ} :
    {K : Type ℓ} {V : Type κ} ⦃e : Keyed K⦄ (P : V → Type μ) (last_seen : V → Time)
    (retention timestamp watermark : ℕ) (m : Map K V)
    → AllValues P m
    → AllValues P (expire last_seen retention timestamp watermark m)
unfolding expire
AllValues-expire P last_seen retention timestamp watermark m a =
    elim (Bool-cases
      (ltb watermark timestamp && (is_zero watermark || leb minute (timestamp - watermark)))) [
        | inl due ↦ rw due (AllValues-prune P _ m a)
        | inr not_due ↦ rw not_due a
      ]

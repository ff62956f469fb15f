-- ===== src/Anomaly/Beaconing/Timing.antt =====
-- When internal/anomaly/beaconing.go reports a beacon: exactly for regular gaps.
use Prim.Native.Nat.{zero}
use native.Mathlib.Nat.{mul-div_cancel_left}
use flowguard_lite.Prelude.{
  inl, inr, ℕ, suc, ◌+◌, ◌-◌, ◌*◌, ◌/◌, ◌≤◌, ◌<◌, ◌≡◌, ◌↔◌, ◌⊎◌, ◌||◌, refl, ap, ◌∙◌, true, none,
  some, List, [], ◌∷◌, arith, ltb, length, drop, length-drop, All, All-mono, false, Bool-cases,
}
use flowguard_lite.Prelude.Clock.{Time, Duration}
use flowguard_lite.Anomaly.Controls.{Controls}
use flowguard_lite.Anomaly.Beaconing.{
  judge, judge_gaps, no_verdict, intervals_of, total_of, deviation_of, max_deviation, tolerance_of,
  beacon_max_interval,
}

-- The differences of neighbours.
abbrev pub gaps_of : List Time → List Duration
gaps_of [] = []
gaps_of (t ∷ []) = []
gaps_of (t ∷ u ∷ rest) = (u - t) ∷ gaps_of (u ∷ rest)

-- Half an hour at most.
abbrev pub InRange : Duration → Duration → Type 0
InRange least gap = (least ≤ gap) × (gap ≤ 1800000000000)

abbrev pub mean_of : List Duration → Duration
mean_of gaps = total_of gaps / length gaps

-- Within 20 seconds of the mean, or within a fifth of it.
abbrev pub Near : Duration → Duration → Type 0
Near mean gap =
    ((gap ≤ mean + 20000000000) × (mean ≤ gap + 20000000000))
    ⊎ ((5 * gap ≤ 6 * mean) × (4 * mean ≤ 5 * gap))

tolerance_of-Near :
    (mean gap : Duration) → (deviation_of mean gap ≤ tolerance_of mean) ↔ Near mean gap
unfolding tolerance_of
tolerance_of-Near mean gap = ground arith

intervals_of_iff :
    (least : Duration) (obs : List Time)
    → ((intervals_of least obs ≡ some (gaps_of obs)) × All (InRange least) (gaps_of obs))
      ⊎ ((intervals_of least obs ≡ none) × ¬ All (InRange least) (gaps_of obs))
unfolding intervals_of
intervals_of_iff least [] = inl (refl, tt)
intervals_of_iff least (t ∷ []) = inl (refl, tt)
intervals_of_iff least (t ∷ u ∷ rest) = elim (intervals_of_iff least (u ∷ rest)) [
  | inl (e, a) ↦ elim (Bool-cases (ltb (u - t) least || ltb beacon_max_interval (u - t))) [
    | inl out ↦ inr (rw out refl, λ h. ground (arith, h.0))
    | inr fits ↦ inl (rw (fits, e, intervals_of), (ground arith, a))
  ]
  | inr (e, n) ↦ inr (ground arith, λ h. n h.1)
]

max_deviation_iff :
    (mean bound : Duration) (gaps : List Duration)
    → (max_deviation mean gaps ≤ bound) ↔ All (λ g. deviation_of mean g ≤ bound) gaps
unfolding max_deviation
max_deviation_iff mean bound [] = (λ _. tt, λ _. omega arith)
max_deviation_iff mean bound (g ∷ gaps) =
    let ih = max_deviation_iff mean bound gaps in
    (λ h. (ground arith, ih.0 (ground arith)), λ h. let low = ih.1 h.1 in ground arith)

abbrev pub recent_of : Controls → List Time → List Time
recent_of c obs = drop (length obs - c.min_observations) obs

gaps_of_some :
    (obs : List Time)
    → 2 ≤ length obs
    → (g : Duration) × (gaps : List Duration) × (gaps_of obs ≡ g ∷ gaps)
gaps_of_some [] h = absurd (omega (arith, h))
gaps_of_some (t ∷ []) h = absurd (omega (arith, h))
gaps_of_some (t ∷ u ∷ rest) h = (u - t, gaps_of (u ∷ rest), refl)

-- With a gap at least, the end of the function does not divide by zero.
judge_gaps_iff :
    (n : ℕ) (gaps : List Duration) (g : Duration) (rest : List Duration)
    → gaps ≡ g ∷ rest
    → ((judge_gaps n gaps).panics ≡ false)
      × (((judge_gaps n gaps).detected ≡ true) ↔ All (Near (mean_of gaps)) gaps)
unfolding judge_gaps
judge_gaps_iff n [] g rest e = absurd (cc (e))
judge_gaps_iff n (x ∷ xs) g rest e =
    let mean = mean_of (x ∷ xs) in
    let near = max_deviation_iff mean (tolerance_of mean) (x ∷ xs) in
    (
      refl,
      (
        (λ h.
            All-mono _ _ (x ∷ xs) (λ y. (tolerance_of-Near mean y).0) (near.0 (ground (arith, h)))),
        (λ h.
            let low = near.1 (All-mono _ _ (x ∷ xs) (λ y. (tolerance_of-Near mean y).1) h) in
            ground (arith, low)),
      ),
    )

-- Settings with both values given, and two observations at least.
pub record IsSetUp (c : Controls) : Type 0 where
  pub counts : 2 ≤ c.min_observations
  pub gap : 0 < c.min_interval

enough_times :
    (c : Controls) (obs : List Time)
    → ltb (length obs) c.min_observations ≡ false
    → c.min_observations ≤ length obs
enough_times c obs h = ground (arith, h)

-- With two observations or more and a positive least gap asked for, there is no panic, and a beacon
-- is reported exactly if there are enough times and, among the newest of them, each gap lies between
-- the least one and half an hour and within 20 seconds or a fifth of the mean of the gaps.
pub judge_iff :
    (c : Controls) (obs : List Time)
    → IsSetUp c
    → let gaps = gaps_of (recent_of c obs) in
      ((judge c obs).panics ≡ false)
      × (((judge c obs).detected ≡ true) ↔ (
          (c.min_observations ≤ length obs)
          × All (InRange c.min_interval) gaps
          × All (Near (mean_of gaps)) gaps))
unfolding judge
judge_iff c obs v =
    let recent = recent_of c obs in
    elim (Bool-cases (ltb (length obs) c.min_observations)) [
      | inl few ↦ (
        ground (arith, v.counts, few),
        ((λ h. ground (arith, v.counts, few, h)), λ h. ground (arith, h.0, few)),
      )
      | inr enough ↦
          let long : 2 ≤ length recent = omega (
            arith,
            v.counts,
            length-drop (length obs - c.min_observations) obs,
            enough_times c obs enough,
          ) in
          let (g, gaps, some_gap) = gaps_of_some recent long in
          let end = judge_gaps_iff (length recent) (gaps_of recent) g gaps some_gap in
          elim (intervals_of_iff c.min_interval recent) [
            | inl (e, a) ↦
                let same : judge c obs ≡ judge_gaps (length recent) (gaps_of recent) =
                  ground (arith, v.counts, v.gap, enough, e) in
                rw same
                  (end.0, ((λ h. (enough_times c obs enough, a, end.1.0 h)), λ h. end.1.1 h.2))
            | inr (e, n) ↦
                let same : judge c obs ≡ no_verdict (length recent) =
                  ground (arith, v.counts, v.gap, enough, e) in
                rw same (refl, ((λ h. cc (h)), λ h. absurd (n h.1)))
          ]
    ]

-- `n` times, `p` apart.
abbrev schedule : Time → Duration → ℕ → List Time
schedule t p zero = []
schedule t p (suc n) = t ∷ schedule (t + p) p n

abbrev pub replicate_gap : Duration → ℕ → List Duration
replicate_gap p zero = []
replicate_gap p (suc n) = p ∷ replicate_gap p n

length-schedule : (t p n : ℕ) → length (schedule t p n) ≡ n
length-schedule t p zero = refl
length-schedule t p (suc n) = ap suc (length-schedule (t + p) p n)

gaps_of-schedule : (t p n : ℕ) → gaps_of (schedule t p (suc n)) ≡ replicate_gap p n
gaps_of-schedule t p zero = refl
gaps_of-schedule t p (suc n) = ground (arith, gaps_of-schedule (t + p) p n)

drop-schedule :
    (k t p m n : ℕ) → m ≡ k + n → (s : Time) × (drop k (schedule t p m) ≡ schedule s p n)
drop-schedule zero t p m n e = let same : m ≡ n = omega arith in (t, ap (schedule t p) same)
drop-schedule (suc k) t p zero n e = absurd (omega arith)
drop-schedule (suc k) t p (suc m) n e = drop-schedule k (t + p) p m n (omega arith)

All-replicate_gap : (P : Duration → Type 0) (p n : ℕ) → P p → All P (replicate_gap p n)
All-replicate_gap P p zero h = tt
All-replicate_gap P p (suc n) h = (h, All-replicate_gap P p n h)

total_of-replicate_gap : (p n : ℕ) → total_of (replicate_gap p n) ≡ n * p
total_of-replicate_gap p zero = omega arith
total_of-replicate_gap p (suc n) = grind (arith, total_of-replicate_gap p n)

length-replicate_gap : (p n : ℕ) → length (replicate_gap p n) ≡ n
length-replicate_gap p zero = refl
length-replicate_gap p (suc n) = ap suc (length-replicate_gap p n)

mean_of-replicate_gap : (p n : ℕ) → mean_of (replicate_gap p (suc n)) ≡ p
mean_of-replicate_gap p n =
    rw (total_of-replicate_gap p (suc n), length-replicate_gap p (suc n))
      (mul-div_cancel_left p {n = suc n} (omega arith))

Near-self : (p : Duration) → Near p p
unfolding tolerance_of
Near-self p = ground arith

Near-mean : (mean p : Duration) → mean ≡ p → Near mean p
Near-mean mean p e = rw e (Near-self p)

-- A contact that comes at equal gaps, from the least gap to half an hour, is reported once it has
-- come often enough, if two or more observations are asked for.
judge-schedule :
    (c : Controls) (t p m : ℕ)
    → 2 ≤ c.min_observations
    → 0 < c.min_interval
    → c.min_observations ≤ m
    → InRange c.min_interval p
    → (judge c (schedule t p m)).detected ≡ true
judge-schedule c t p m two pos enough range =
    let k = m - c.min_observations in
    let n = c.min_observations - 2 in
    let (s, recent) = drop-schedule k t p m (suc (suc n)) (omega arith) in
    let same : recent_of c (schedule t p m) ≡ schedule s p (suc (suc n)) =
      rw (length-schedule t p m) recent in
    let gaps : gaps_of (recent_of c (schedule t p m)) ≡ replicate_gap p (suc n) =
      ap gaps_of same ∙ gaps_of-schedule s p (suc n) in
    (judge_iff c (schedule t p m) (record { counts = two; gap = pos })).1.1 (
      omega (arith, length-schedule t p m),
      rw gaps (All-replicate_gap (InRange c.min_interval) p (suc n) range),
      rw gaps (
          All-replicate_gap (Near (mean_of (replicate_gap p (suc n)))) p (suc n)
            (Near-mean _ p (mean_of-replicate_gap p n))),
    )

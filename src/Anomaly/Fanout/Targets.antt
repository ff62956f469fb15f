-- ===== src/Anomaly/Fanout/Targets.antt =====
-- Which destination internal/anomaly/fanout.go names.
use flowguard_lite.Prelude.{
  ℕ, ◌<◌, ◌≢◌, ◌≡◌, refl, ◌⊎◌, inl, inr, false, List, [], ◌∷◌, Mem, arith, All, length, Bool-cases,
}
use flowguard_lite.Prelude.Maps.{Map, lookup}
use flowguard_lite.Prelude.Text.{
  Text, text_keys, text_lt, text_lt_irrefl, text_lt_asymm, text_lt_negtrans,
}
use flowguard_lite.Anomaly.Metrics.{DeviceMetrics, count_or_zero}
use flowguard_lite.Anomaly.Fanout.{
  Best, highest_from, highest_port_fanout, consider, is_better, precedes, no_target,
}

-- A destination with `n` ports does not come before the best one.
abbrev pub Dominated : Best → Text → ℕ → Type 0
Dominated b d n =
    (n < b.port_count) ⊎ ((n ≡ b.port_count) × ((n ≡ 0) ⊎ (text_lt d b.target ≡ false)))

abbrev pub IsNamed : Text → Type 0
IsNamed d = d ≢ []

Dominated-trans :
    (a b : Best) (d : Text) (n : ℕ)
    → Dominated b a.target a.port_count
    → Dominated a d n
    → Dominated b d n
Dominated-trans a b d n h k = ground (arith, h, k, text_lt_negtrans d a.target b.target)

precedes_cases : (d t : Text) → t ≢ [] → precedes d t ≡ text_lt d t
precedes_cases d [] h = absurd (h refl)
precedes_cases d (c ∷ t) h = refl

-- The choice between the best so far and one more destination.
choose :
    (d : Text) (n k : ℕ) (b : Best)
    → IsNamed d
    → (b.port_count ≡ 0) ⊎ IsNamed b.target
    → Dominated (consider d n k b) b.target b.port_count
      × Dominated (consider d n k b) d n
      × (((consider d n k b).port_count ≡ 0) ⊎ IsNamed (consider d n k b).target)
choose d n k b named start = elim (Bool-cases (is_better d n b)) [
  | inl better ↦ rw better (elim start [
    | inl z ↦ ground (arith, better, z, text_lt_irrefl d)
    | inr h ↦
        ground
          (arith, better, precedes_cases d b.target h, text_lt_asymm d b.target, text_lt_irrefl d)
  ])
  | inr worse ↦ rw worse (elim start [
    | inl z ↦ ground (arith, worse, z, text_lt_irrefl b.target)
    | inr h ↦ ground (arith, worse, precedes_cases d b.target h, text_lt_irrefl b.target)
  ])
]

highest_from-Dominated :
    (packets : Map Text ℕ) (ports : Map Text (List ℕ)) (b : Best)
    → All (λ e. IsNamed e.0) ports
    → (b.port_count ≡ 0) ⊎ IsNamed b.target
    → Dominated (highest_from packets ports b) b.target b.port_count
      × All (λ e. Dominated (highest_from packets ports b) e.0 (length e.1)) ports
unfolding highest_from
highest_from-Dominated packets [] b named start = (ground (arith, text_lt_irrefl b.target), tt)
highest_from-Dominated packets ((d, ports) ∷ rest) b named start =
    let k = count_or_zero (lookup d packets) in
    let b' = consider d (length ports) k b in
    let (over, best, named') = choose d (length ports) k b named.0 start in
    let (first, others) = highest_from-Dominated packets rest b' named.1 named' in
    let out = highest_from packets rest b' in
    (
      Dominated-trans b' out b.target b.port_count first over,
      (Dominated-trans b' out d (length ports) first best, others),
    )

-- What is reported is what the metrics say of the destination that is named.
pub record IsReal (m : DeviceMetrics) (b : Best) : Type 0 where
  pub ports : List ℕ
  pub there : Mem (b.target, ports) m.ports_by_destination
  pub counted : length ports ≡ b.port_count
  pub packets : b.packet_count ≡ count_or_zero (lookup b.target m.packets_by_destination)

-- The same over the destinations of the loop, with the ones before it.
highest_from-IsReal :
    (m : DeviceMetrics) (rest : Map Text (List ℕ)) (b : Best)
    → ((e : Text × List ℕ) → Mem e rest → Mem e m.ports_by_destination)
    → (b ≡ no_target) ⊎ IsReal m b
    → (highest_from m.packets_by_destination rest b ≡ no_target)
      ⊎ IsReal m (highest_from m.packets_by_destination rest b)
unfolding highest_from
highest_from-IsReal m [] b inside h = h
highest_from-IsReal m ((d, ports) ∷ rest) b inside h =
    let k = count_or_zero (lookup d m.packets_by_destination) in
    highest_from-IsReal m rest (consider d (length ports) k b) (λ e later. inside e (inr later))
      (elim (Bool-cases (is_better d (length ports) b)) [
        | inl better ↦ rw better (
            inr (record {
              ports = ports;
              there = inside (d, ports) (inl refl);
              counted = refl;
              packets = refl;
            }))
        | inr worse ↦ rw worse h
      ])

-- The destination that is named for a port scan, if no destination is the empty text: it is one of
-- the destinations, with its own numbers of ports and packets, or there is none and no port
-- either; no other one has more ports, and none with as many, if any, comes before it in the order
-- of texts.
pub highest_port_fanout-Dominated :
    (m : DeviceMetrics)
    → All (λ e. IsNamed e.0) m.ports_by_destination
    → ((highest_port_fanout m ≡ no_target) ⊎ IsReal m (highest_port_fanout m))
      × All (λ e. Dominated (highest_port_fanout m) e.0 (length e.1)) m.ports_by_destination
unfolding highest_port_fanout
highest_port_fanout-Dominated m named = (
  highest_from-IsReal m m.ports_by_destination no_target (λ e there. there) (inl refl),
  (highest_from-Dominated m.packets_by_destination m.ports_by_destination no_target named
      (inl refl)).1,
)

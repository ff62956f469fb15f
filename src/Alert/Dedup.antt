-- ===== src/Alert/Dedup.antt =====
-- How often one alert can be raised for one address.
use flowguard_lite.Prelude.{
  ◌-◌, ◌+◌, ◌≤◌, ◌<◌, ◌≡◌, refl, sym, ◌∙◌, ◌⊎◌, inl, inr, true, false, Option, none, some, List, [],
  ◌∷◌, arith, ◌==◌, ==_iff, ltb, if◌then◌else◌, All, All-mono, Option-cases, Bool-cases,
}
use flowguard_lite.Prelude.Maps.{Map, lookup, insert, lookup-insert}
use flowguard_lite.Prelude.Text.{Text, text_keys}
use flowguard_lite.Prelude.Clock.{Time, Duration}
use flowguard_lite.Alert.{claim}

-- The alerts that went ahead, newest first: those with one key lie a window apart.
abbrev pub Spaced : Duration → List (Text × Time) → Type 0
Spaced w [] = Unit {0}
Spaced w ((k, t) ∷ rest) = All (λ a. a.0 ≡ k → a.1 + w ≤ t) rest × Spaced w rest

-- The time of the newest alert with a key.
abbrev pub newest : Text → List (Text × Time) → Option Time
newest k [] = none
newest k ((j, t) ∷ rest) = if j == k then some t else newest k rest

-- The cache knows the newest alert of each key, and the times fall along the list.
pub record Recorded (cache : Map Text Time) (raised : List (Text × Time)) : Type 0 where
  pub latest : (k : Text) → lookup k cache ≡ newest k raised

abbrev pub Descending : Time → List (Text × Time) → Type 0
Descending now [] = Unit {0}
Descending now ((k, t) ∷ rest) = (t ≤ now) × Descending t rest

Descending-mono : (s t : Time) (l : List (Text × Time)) → s ≤ t → Descending s l → Descending t l
Descending-mono s t [] h d = tt
Descending-mono s t ((k, u) ∷ l) h d = (omega arith, d.1)

Descending-All :
    (t : Time) (raised : List (Text × Time)) → Descending t raised → All (λ a. a.1 ≤ t) raised
Descending-All t [] d = tt
Descending-All t ((k, u) ∷ rest) d = (
  d.0,
  All-mono (λ a. a.1 ≤ u) (λ a. a.1 ≤ t) rest (λ a h. omega arith) (Descending-All u rest d.1),
)

none-newest :
    (k : Text) (w now : Time) (raised : List (Text × Time))
    → newest k raised ≡ none
    → All (λ a. a.0 ≡ k → a.1 + w ≤ now) raised
none-newest k w now [] h = tt
none-newest k w now ((j, u) ∷ rest) h = elim (Bool-cases (j == k)) [
  | inl same ↦ ground (arith, same)
  | inr other ↦
      ((λ e. ground (arith, (==_iff j k).1 e)), none-newest k w now rest (ground (arith, other)))
]

some-newest :
    (k : Text) (w t now : Time) (raised : List (Text × Time))
    → Descending now raised
    → newest k raised ≡ some t
    → t + w ≤ now
    → All (λ a. a.0 ≡ k → a.1 + w ≤ now) raised
some-newest k w t now [] d h le = tt
some-newest k w t now ((j, u) ∷ rest) d h le = elim (Bool-cases (j == k)) [
  | inl same ↦
      let e : u ≡ t = ground (arith, same) in
      (
        (λ _. omega arith),
        All-mono (λ a. a.1 ≤ u) (λ a. a.0 ≡ k → a.1 + w ≤ now) rest (λ a b _. omega arith)
            (Descending-All u rest d.1),
      )
  | inr other ↦ (
    (λ e. ground (arith, (==_iff j k).1 e)),
    some-newest k w t now rest (Descending-mono u now rest d.0 d.1) (ground (arith, other)) le,
  )
]

-- Calls of `claim` with their clock readings, oldest first.
abbrev pub Ascending : Time → List (Text × Time) → Type 0
Ascending t [] = Unit {0}
Ascending t ((k, u) ∷ rest) = (t ≤ u) × Ascending u rest

-- The cache and the raised alerts, newest first, after a call.
abbrev pub note :
    Option (Map Text Time)
    → Text
    → Time
    → Map Text Time
    → List (Text × Time)
    → Map Text Time × List (Text × Time)
note none k now cache raised = (cache, raised)
note (some cache') k now cache raised = (cache', (k, now) ∷ raised)

unfoldable pub claim_all :
    Duration
    → List (Text × Time)
    → Map Text Time
    → List (Text × Time)
    → Map Text Time × List (Text × Time)
claim_all w [] cache raised = (cache, raised)
claim_all w ((k, now) ∷ calls) cache raised =
    let (cache', raised') = note (claim w now k cache) k now cache raised in
    claim_all w calls cache' raised'

abbrev pub Raised : Text → Time → List (Text × Time) → Type 0
Raised k t [] = ⊥
Raised k t ((j, u) ∷ rest) = ((j ≡ k) × (u ≡ t)) ⊎ Raised k t rest

-- A call at `now` lies within the window after an alert with its key, or is that alert.
abbrev pub Covered : Duration → List (Text × Time) → Text × Time → Type 0
Covered w raised call = (t : Time) × Raised call.0 t raised × (t ≤ call.1) × (call.1 < t + w)

-- What holds between two calls.
record Kept (w t : Time) (cache : Map Text Time) (raised : List (Text × Time)) : Type 0 where
  latest : (k : Text) → lookup k cache ≡ newest k raised
  falling : Descending t raised
  spaced : Spaced w raised

newest-Raised :
    (k : Text) (t now : Time) (raised : List (Text × Time))
    → Descending now raised
    → newest k raised ≡ some t
    → Raised k t raised × (t ≤ now)
newest-Raised k t now [] d h = cc
newest-Raised k t now ((j, u) ∷ rest) d h = ground (arith, ==_iff j k, newest-Raised k t u rest d.1)

fresh-Kept :
    (w t now : Time) (k : Text) (cache : Map Text Time) (raised : List (Text × Time))
    → 0 < w
    → t ≤ now
    → Kept w t cache raised
    → All (λ a. a.0 ≡ k → a.1 + w ≤ now) raised
    → Kept w now (insert k now cache) ((k, now) ∷ raised) × Covered w ((k, now) ∷ raised) (k, now)
fresh-Kept w t now k cache raised pos le v apart = (
  record {
    latest = λ j. rw (lookup-insert k j now cache, v.latest j);
    falling = (omega arith, Descending-mono t now raised le v.falling);
    spaced = (apart, v.spaced);
  },
  (now, inl (refl, refl), omega arith, omega arith),
)

module _ (w now : Time) where
  claim_fresh :
      (k : Text) (cache : Map Text Time)
      → lookup k cache ≡ none
      → claim w now k cache ≡ some (insert k now cache)
  unfolding claim
  claim_fresh k cache h = ground arith

  claim_recent :
      (last : Time) (k : Text) (cache : Map Text Time)
      → lookup k cache ≡ some last
      → ltb (now - last) w ≡ true
      → claim w now k cache ≡ none
  unfolding claim
  claim_recent last k cache h r = ground arith

  claim_old :
      (last : Time) (k : Text) (cache : Map Text Time)
      → lookup k cache ≡ some last
      → ltb (now - last) w ≡ false
      → claim w now k cache ≡ some (insert k now cache)
  unfolding claim
  claim_old last k cache h r = ground arith

claim-Kept :
    (w t now : Time) (k : Text) (cache : Map Text Time) (raised : List (Text × Time))
    → 0 < w
    → t ≤ now
    → Kept w t cache raised
    → let n = note (claim w now k cache) k now cache raised in
      Kept w now n.0 n.1 × Covered w n.1 (k, now)
claim-Kept w t now k cache raised pos le v = elim (Option-cases (lookup k cache)) [
  | inl e ↦ rw (claim_fresh w now k cache e) (
      fresh-Kept w t now k cache raised pos le v
        (none-newest k w now raised (sym (v.latest k) ∙ e)))
  | inr (last, e) ↦
      let h = sym (v.latest k) ∙ e in
      elim (Bool-cases (ltb (now - last) w)) [
        | inl recent ↦
            let (there, before) = newest-Raised k last t raised v.falling h in
            rw (claim_recent w now last k cache e recent) (
              record {
                latest = v.latest;
                falling = Descending-mono t now raised le v.falling;
                spaced = v.spaced;
              },
              (last, there, omega arith, ground arith),
            )
        | inr old ↦ rw (claim_old w now last k cache e old) (
            fresh-Kept w t now k cache raised pos le v (
              some-newest k w last now raised (Descending-mono t now raised le v.falling) h
                (let (_, before) = newest-Raised k last t raised v.falling h in ground arith)))
      ]
]

Raised-claim_all :
    (w : Duration) (calls : List (Text × Time)) (cache : Map Text Time)
    (raised : List (Text × Time)) (k : Text) (t : Time)
    → Raised k t raised
    → Raised k t (claim_all w calls cache raised).1
unfolding claim_all
Raised-claim_all w [] cache raised k t h = h
Raised-claim_all w ((j, now) ∷ calls) cache raised k t h =
    Raised-claim_all w calls _ _ k t (kept (claim w now j cache))
  where
    kept : (o : Option (Map Text Time)) → Raised k t (note o j now cache raised).1
    kept none = h
    kept (some c) = inr h

claim_all-Kept :
    (w t : Time) (calls : List (Text × Time)) (cache : Map Text Time) (raised : List (Text × Time))
    → 0 < w
    → Ascending t calls
    → Kept w t cache raised
    → Spaced w (claim_all w calls cache raised).1
      × All (Covered w (claim_all w calls cache raised).1) calls
unfolding claim_all
claim_all-Kept w t [] cache raised pos up v = (v.spaced, tt)
claim_all-Kept w t ((k, now) ∷ calls) cache raised pos up v =
    let (v', (u, there, before, soon)) = claim-Kept w t now k cache raised pos up.0 v in
    let (spaced, covered) = claim_all-Kept w now calls _ _ pos up.1 v' in
    (spaced, ((u, Raised-claim_all w calls _ _ k u there, before, soon), covered))

-- From an empty cache, calls in the order of their clock readings raise alerts of which any two
-- with one key lie at least a window apart, and every call, raised or held back, lies within a
-- window after an alert with its key that was raised.
pub claim_all-Spaced :
    (w t : Time) (calls : List (Text × Time))
    → 0 < w
    → Ascending t calls
    → Spaced w (claim_all w calls [] []).1 × All (Covered w (claim_all w calls [] []).1) calls
unfolding lookup
claim_all-Spaced w t calls pos up =
    claim_all-Kept w t calls [] [] pos up (record { latest = λ k. refl; falling = tt; spaced = tt })

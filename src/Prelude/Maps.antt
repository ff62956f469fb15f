-- ===== src/Prelude/Maps.antt =====
-- Go's maps as association lists: an entry is replaced where it stands and a new one goes last.
-- The order of the list is the order in which a `range` loop meets the entries.
use Prim.Native.Nat.{◌+◌, ◌≤◌}
use mathlib.Core.Path.{◌≡◌, refl}
use mathlib.Core.Bool.{Bool, false, ◌||◌}
use mathlib.Core.Option.{Option, none, some}
use mathlib.Core.List.{List, [], ◌∷◌}
use native.Mathlib.Omega.{arith}
use flowguard_lite.Prelude.Tests.{if◌then◌else◌, Bool-cases}
use flowguard_lite.Prelude.Lists.{length, All}
use mathlib.Core.Logic.{inl, inr}
use flowguard_lite.Prelude.Keys.{Keyed, ◌==◌, ==_iff, ==_refl}

abbrev pub Map {ℓ κ} : Type ℓ → Type κ → Type (ℓ ⊔ κ)
Map K V = List (K × V)

module _ {ℓ κ} {K : Type ℓ} {V : Type κ} ⦃e : Keyed K⦄ where
  -- `m[k]` with its second result.
  unfoldable pub lookup : K → Map K V → Option V
  lookup k [] = none
  lookup k ((j, v) ∷ m) = if j == k then some v else lookup k m

  -- `m[k] = v`.
  unfoldable pub insert : K → V → Map K V → Map K V
  insert k v [] = (k, v) ∷ []
  insert k v ((j, w) ∷ m) = if j == k then (j, v) ∷ m else (j, w) ∷ insert k v m

  -- `for k, v := range m { if p(v) { delete(m, k) } }`.
  unfoldable pub prune : (V → Bool) → Map K V → Map K V
  prune p [] = []
  prune p ((j, w) ∷ m) = let rest = prune p m in if p w then rest else (j, w) ∷ rest

  -- `delete(m, k)`.
  unfoldable pub remove : K → Map K V → Map K V
  remove k [] = []
  remove k ((j, w) ∷ m) = let rest = remove k m in if j == k then rest else (j, w) ∷ rest

  pub lookup-remove :
      (gone asked : K) (m : Map K V)
      → lookup asked (remove gone m) ≡ (if gone == asked then none else lookup asked m)
  unfolding lookup remove
  lookup-remove gone asked [] = ground arith
  lookup-remove gone asked ((key, value) ∷ later) =
      let tail = lookup-remove gone asked later in
      ground (arith, tail, ==_iff key asked, ==_iff key gone, ==_iff gone asked)

  pub lookup-insert :
      (written asked : K) (new : V) (m : Map K V)
      → lookup asked (insert written new m)
        ≡ (if written == asked then some new else lookup asked m)
  unfolding lookup insert
  lookup-insert written asked new [] = refl
  lookup-insert written asked new ((key, value) ∷ later) =
      let tail = lookup-insert written asked new later in
      ground (arith, tail, ==_iff key asked, ==_iff key written, ==_iff written asked)

  pub lookup-insert_self : (k : K) (v : V) (m : Map K V) → lookup k (insert k v m) ≡ some v
  lookup-insert_self k v m = ground (arith, lookup-insert k k v m, ==_refl k)

  pub length-insert-le : (k : K) (v : V) (m : Map K V) → length (insert k v m) ≤ length m + 1
  unfolding insert
  length-insert-le k v [] = omega arith
  length-insert-le k v ((j, w) ∷ m) = ground (arith, length-insert-le k v m)

  -- Writing a key that is present keeps the size.
  pub length-insert_old :
      (k : K) (v w : V) (m : Map K V) → lookup k m ≡ some w → length (insert k v m) ≡ length m
  unfolding insert lookup
  length-insert_old k v w [] h = ground arith
  length-insert_old k v w ((j, x) ∷ m) h = ground (arith, length-insert_old k v w m)

  pub length-prune-le : (p : V → Bool) (m : Map K V) → length (prune p m) ≤ length m
  unfolding prune
  length-prune-le p [] = omega arith
  length-prune-le p ((j, w) ∷ m) = ground (arith, length-prune-le p m)

  pub lookup-prune :
      (p : V → Bool) (k : K) (v : V) (m : Map K V)
      → lookup k m ≡ some v
      → p v ≡ false
      → lookup k (prune p m) ≡ some v
  unfolding prune lookup
  lookup-prune p k v [] h stays = h
  lookup-prune p k v ((j, w) ∷ m) h stays = elim (Bool-cases (j == k)) [
    | inl here ↦ let same : w ≡ v = cc (rw (here) at h) in rw (same, stays, here) refl
    | inr other ↦
        let rest = lookup-prune p k v m (rw (other) at h) stays in
        elim (Bool-cases (p w)) [ inl gone ↦ rw (gone) rest | inr kept ↦ rw (kept, other) rest ]
  ]

-- Go's `map[K]bool` whose values are all true.
module _ {ℓ} {K : Type ℓ} ⦃e : Keyed K⦄ where
  unfoldable pub contains : K → List K → Bool
  contains k [] = false
  contains k (j ∷ s) = (j == k) || contains k s

  unfoldable pub add : K → List K → List K
  add k [] = k ∷ []
  add k (j ∷ s) = if j == k then j ∷ s else j ∷ add k s

  pub contains-add : (k j : K) (s : List K) → contains j (add k s) ≡ ((k == j) || contains j s)
  unfolding contains add
  contains-add k j [] = refl
  contains-add k j (i ∷ s) = ground (arith, ==_iff k j, ==_iff i k, ==_iff i j, contains-add k j s)

  pub length-add-le : (k : K) (s : List K) → length (add k s) ≤ length s + 1
  unfolding add
  length-add-le k [] = omega arith
  length-add-le k (j ∷ s) = ground (arith, length-add-le k s)

-- A property of every value.
abbrev pub AllValues {ℓ κ μ} : {K : Type ℓ} {V : Type κ} → (V → Type μ) → Map K V → Type μ
AllValues P m = All (λ e. P e.1) m

module _ {ℓ κ μ} {K : Type ℓ} {V : Type κ} ⦃e : Keyed K⦄ (P : V → Type μ) where
  pub AllValues-insert :
      (k : K) (v : V) (m : Map K V) → P v → AllValues P m → AllValues P (insert k v m)
  unfolding insert
  AllValues-insert k v [] h a = (h, tt)
  AllValues-insert k v ((j, w) ∷ m) h a = elim (Bool-cases (j == k)) [
    | inl same ↦ rw same (h, a.1)
    | inr other ↦ rw other (a.0, AllValues-insert k v m h a.1)
  ]

  pub AllValues-prune : (p : V → Bool) (m : Map K V) → AllValues P m → AllValues P (prune p m)
  unfolding prune
  AllValues-prune p [] a = tt
  AllValues-prune p ((j, w) ∷ m) a = elim (Bool-cases (p w)) [
    | inl gone ↦ rw gone (AllValues-prune p m a.1)
    | inr stays ↦ rw stays (a.0, AllValues-prune p m a.1)
  ]

  pub AllValues-lookup : (k : K) (v : V) (m : Map K V) → AllValues P m → lookup k m ≡ some v → P v
  unfolding lookup
  AllValues-lookup k v [] a h = cc
  AllValues-lookup k v ((j, w) ∷ m) a h = elim (Bool-cases (j == k)) [
    | inl same ↦ let found : w ≡ v = ground (arith, same) in rw found at a.0
    | inr other ↦ AllValues-lookup k v m a.1 (ground (arith, other))
  ]

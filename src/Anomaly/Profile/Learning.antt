-- ===== src/Anomaly/Profile/Learning.antt =====
-- Which signature internal/anomaly/device_profile.go takes for a device's baseline.
use flowguard_lite.Prelude.{
  inl, inr, ℕ, suc, ◌+◌, ◌≤◌, ◌<◌, ◌≡◌, refl, ◌⊎◌, Bool, true, false, Option, none, some, List, [],
  ◌∷◌, arith, ltb, leb, length, u8, All, if◌then◌else◌, ◌==◌, ==_iff, ==_refl, Bool-cases,
  Option-cases,
}
use flowguard_lite.Prelude.Maps.{Map, lookup, insert, length-insert-le, length-insert_old}
use flowguard_lite.Prelude.Text.{Text, text_keys}
use flowguard_lite.Anomaly.Profile.{
  FeatureProfile, fresh_profile, count_or_zero, beats, dominant_from, settle, is_crowded, learn,
  learning_target, dominance_target, max_signatures,
}

-- How often a signature occurs.
abbrev pub occurrences : Text → List Text → ℕ
occurrences s [] = 0
occurrences s (x ∷ rest) = let more = occurrences s rest in if x == s then suc more else more

abbrev pub Backs : List Text → Text × ℕ → Type 0
Backs seen e = e.1 ≤ occurrences e.0 seen

-- No count is above the windows that had the signature since learning began.
pub record Tallied (seen : List Text) (v : FeatureProfile) : Type 0 where
  pub windows : v.learning_windows ≡ length seen
  pub below : length seen < learning_target
  pub entries : All (Backs seen) v.learning
  pub few : length v.learning ≤ max_signatures

lookup_backed :
    (s : Text) (seen : List Text) (m : Map Text ℕ)
    → All (Backs seen) m
    → count_or_zero (lookup s m) ≤ occurrences s seen
unfolding lookup
lookup_backed s seen [] a = omega arith
lookup_backed s seen ((j, k) ∷ m) a = ground (arith, ==_iff j s, lookup_backed s seen m a.1)

Backs-more :
    (s : Text) (seen : List Text) (m : Map Text ℕ) → All (Backs seen) m → All (Backs (s ∷ seen)) m
Backs-more s seen [] a = tt
Backs-more s seen ((j, k) ∷ m) a = (ground arith, Backs-more s seen m a.1)

Backs-insert :
    (s : Text) (n : ℕ) (seen : List Text) (m : Map Text ℕ)
    → n ≤ occurrences s seen
    → All (Backs seen) m
    → All (Backs seen) (insert s n m)
unfolding insert
Backs-insert s n seen [] h a = (h, tt)
Backs-insert s n seen ((j, k) ∷ m) h a = elim (Bool-cases (j == s)) [
  | inl same ↦ rw same (let here : j ≡ s = (==_iff j s).0 same in rw here h, a.1)
  | inr other ↦ rw other (a.0, Backs-insert s n seen m h a.1)
]

-- The greatest count, with the signature that has it.
abbrev pub BacksBest : List Text → Option Text → ℕ → Type 0
BacksBest seen none n = n ≡ 0
BacksBest seen (some d) n = n ≤ occurrences d seen

choose_backed :
    (better : Bool) (seen : List Text) (s : Text) (k : ℕ) (d : Option Text) (n : ℕ)
    → Backs seen (s, k)
    → BacksBest seen d n
    → BacksBest seen (if better then some s else d) (if better then k else n)
choose_backed true seen s k d n h b = h
choose_backed false seen s k d n h b = b

dominant_backed :
    (m : Map Text ℕ) (seen : List Text) (d : Option Text) (n : ℕ)
    → All (Backs seen) m
    → BacksBest seen d n
    → BacksBest seen (dominant_from m d n).0 (dominant_from m d n).1
unfolding dominant_from
dominant_backed [] seen d n a h = h
dominant_backed ((s, k) ∷ m) seen d n a h =
    dominant_backed m seen _ _ a.1 (choose_backed (beats s k d n) seen s k d n a.0 h)

-- The windows that are counted: a signature for which there is no room is not.
abbrev pub tally : Text → FeatureProfile → List Text → List Text
tally s v seen = if is_crowded s v.learning then seen else s ∷ seen

-- What follows a window of learning: more learning, or a new start with a baseline that nine or
-- more of the twelve counted windows had, or with none.
abbrev pub Settled : List Text → Option Text → Type 0
Settled seen none = Unit {0}
Settled seen (some b) = (length seen ≡ learning_target) × (dominance_target ≤ occurrences b seen)

room_for :
    (s : Text) (n : ℕ) (m : Map Text ℕ)
    → is_crowded s m ≡ false
    → length m ≤ max_signatures
    → length (insert s n m) ≤ max_signatures
room_for s n m room few = elim (Option-cases (lookup s m)) [
  | inl e ↦ ground (arith, e, room, length-insert-le s n m)
  | inr (k, e) ↦ ground (arith, e, length-insert_old s n k m e)
]

Settled-by :
    (seen : List Text) (d : Option Text) (n : ℕ)
    → length seen ≡ learning_target
    → BacksBest seen d n
    → Settled seen (if leb dominance_target n then d else none)
Settled-by seen none n l b = elim (Bool-cases (leb dominance_target n)) [
  | inl h ↦ rw h tt
  | inr h ↦ rw h tt
]
Settled-by seen (some d) n l b = elim (Bool-cases (leb dominance_target n)) [
  | inl h ↦ rw h (l, ground arith)
  | inr h ↦ rw h tt
]

settle-Settled :
    (v : FeatureProfile) (seen : List Text)
    → v.baseline ≡ none
    → length seen ≡ learning_target
    → All (Backs seen) v.learning
    → Settled seen (settle v).baseline
unfolding settle
settle-Settled v seen b l a =
    rw b (Settled-by seen _ _ l (dominant_backed v.learning seen none 0 a refl))

settle-Tallied : (v : FeatureProfile) → Tallied [] (settle v)
unfolding settle
settle-Tallied v = omega arith

-- The profile with one more window counted.
abbrev count_window : Text → FeatureProfile → FeatureProfile
count_window s v = record v {
  learning = insert s (u8 (count_or_zero (lookup s v.learning) + 1)) v.learning;
  learning_windows = u8 (v.learning_windows + 1);
}

learn_cases :
    (s : Text) (v : FeatureProfile)
    → ((is_crowded s v.learning ≡ true) × (learn s v ≡ v))
      ⊎ ((is_crowded s v.learning ≡ false)
          × (((count_window s v).learning_windows < learning_target)
                × (learn s v ≡ count_window s v)
              ⊎ (learning_target ≤ (count_window s v).learning_windows)
                × (learn s v ≡ settle (count_window s v))))
unfolding learn
learn_cases s v = elim (Bool-cases (is_crowded s v.learning)) [
  | inl c ↦ inl (c, rw c)
  | inr c ↦ elim (Bool-cases (ltb (u8 (v.learning_windows + 1)) learning_target)) [
    | inl more ↦ inr (c, inl (ground arith, rw (c, more)))
    | inr full ↦ inr (c, inr (ground arith, rw (c, full)))
  ]
]

count_window-Backs :
    (s : Text) (v : FeatureProfile) (seen : List Text)
    → All (Backs seen) v.learning
    → All (Backs (s ∷ seen)) (count_window s v).learning
count_window-Backs s v seen a =
    Backs-insert s _ (s ∷ seen) v.learning
      (ground (arith, lookup_backed s seen v.learning a, ==_refl s))
      (Backs-more s seen v.learning a)

counting :
    (s : Text) (v : FeatureProfile) (seen : List Text)
    → is_crowded s v.learning ≡ false
    → (count_window s v).learning_windows < learning_target
    → Tallied seen v
    → Tallied (s ∷ seen) (count_window s v)
counting s v seen c more k = record {
  windows = ground (arith, k.windows, k.below);
  below = ground (arith, k.windows, k.below, more);
  entries = count_window-Backs s v seen k.entries;
  few = room_for s _ v.learning c k.few;
}

-- One more window of a profile without a baseline, whose counts are backed by the windows of its
-- learning: the counts stay backed or learning starts anew, and a baseline is taken only from a
-- signature that nine or more of twelve counted windows had.
pub learn-Tallied :
    (s : Text) (v : FeatureProfile) (seen : List Text)
    → v.baseline ≡ none
    → Tallied seen v
    → Settled (tally s v seen) (learn s v).baseline
      × (Tallied (tally s v seen) (learn s v) ⊎ Tallied [] (learn s v))
learn-Tallied s v seen b k = elim (learn_cases s v) [
  | inl (c, e) ↦ rw (c, e) (rw b tt, inl k)
  | inr (c, inl (more, e)) ↦ rw (c, e) (rw b tt, inl (counting s v seen c more k))
  | inr (c, inr (full, e)) ↦
      rw (c, e)
        (
          settle-Settled (count_window s v) (s ∷ seen) b (ground (arith, k.windows, k.below))
              (count_window-Backs s v seen k.entries),
          inr (settle-Tallied (count_window s v)),
        )
]

-- A new profile has counted nothing.
pub fresh_profile-Tallied : Tallied [] fresh_profile
fresh_profile-Tallied = omega arith

-- ===== src/Anomaly/InternalPeer/Reports.antt =====
-- What internal/anomaly/internal_peer.go reports, and what it never reports.
use flowguard_lite.Prelude.{
  inl, inr, ◌≤◌, ◌<◌, ◌≡◌, ◌⊎◌, true, false, ◌||◌, none, some, List, [], ◌∷◌, arith, ltb, eqb,
  length, All, All-mono, ==_refl, Bool-cases, Option-cases,
}
use flowguard_lite.Prelude.Maps.{contains, contains-add, length-add-le}
use flowguard_lite.Prelude.Text.{
  Text, text_keys, text_lt, text_lt_irrefl, text_lt_asymm, text_lt_negtrans,
}
use flowguard_lite.Prelude.Clock.{Time, unix, truncate_minute}
use flowguard_lite.Anomaly.InternalPeer.{
  PeerProfile, learn_peers, first_unknown, learn, confirm, is_candidate, judge_peers,
  observe_window, learning_target, confirm_target, max_peers,
}

-- No unknown peer comes before `x`.
abbrev pub IsLeastUnknown : Text → List Text → List Text → Type 0
IsLeastUnknown x known = All (λ y. contains y known ≡ false → text_lt y x ≡ false)

first_unknown-none :
    (peers known : List Text) (x : Text)
    → first_unknown peers known ≡ none
    → IsLeastUnknown x known peers
unfolding first_unknown
first_unknown-none [] known x h = tt
first_unknown-none (p ∷ peers) known x h =
    ((λ new. ground (arith, h, new)), first_unknown-none peers known x (ground (arith, h)))

-- The peer that is found is there, is unknown, and none that is unknown comes before it.
pub first_unknown_least :
    (peers known : List Text) (x : Text)
    → first_unknown peers known ≡ some x
    → (contains x peers ≡ true) × (contains x known ≡ false) × IsLeastUnknown x known peers
unfolding first_unknown contains
first_unknown_least [] known x h = cc
first_unknown_least (p ∷ peers) known x h = elim (Bool-cases (contains p known)) [
  | inl old ↦
      let (there, unknown, least) = first_unknown_least peers known x (ground (arith, h, old)) in
      (ground (arith, there), unknown, ((λ n. ground (arith, n, old)), least))
  | inr new ↦ elim (Option-cases (first_unknown peers known)) [
    | inl alone ↦
        let here : p ≡ x = ground (arith, h, new, alone) in
        (
          ground (arith, here, ==_refl x),
          rw here at new,
          ((λ _. rw here (text_lt_irrefl x)), first_unknown-none peers known x alone),
        )
    | inr (y, e) ↦
        let (there, unknown, least) = first_unknown_least peers known y e in
        elim (Bool-cases (text_lt y p)) [
          | inl before ↦
              let here : y ≡ x = ground (arith, h, new, e, before) in
              (
                ground (arith, there, here),
                rw here at unknown,
                ((λ _. rw (← here) (text_lt_asymm y p before)), rw here at least),
              )
          | inr after ↦
              let here : p ≡ x = ground (arith, h, new, e, after) in
              (
                ground (arith, here, ==_refl x),
                rw here at new,
                (
                  (λ _. rw here (text_lt_irrefl x)),
                  All-mono _ _ peers (λ z f unk. rw (← here) (text_lt_negtrans z y p (f unk) after))
                      least,
                ),
              )
        ]
  ]
]

length-learn_peers-le :
    (peers learning : List Text)
    → length learning ≤ max_peers
    → length (learn_peers peers learning) ≤ max_peers
unfolding learn_peers
length-learn_peers-le [] learning h = h
length-learn_peers-le (p ∷ peers) learning h =
    length-learn_peers-le peers _ (ground (arith, length-add-le p learning))

-- The bounds on a profile.
pub record IsSmall (v : PeerProfile) : Type 0 where
  pub few_known : length v.known ≤ max_peers
  pub few_learning : length v.learning ≤ max_peers
  pub windows : v.learning_windows ≤ learning_target
  pub unconfirmed : v.candidate_windows < confirm_target

learn-IsSmall :
    (peers : List Text) (v : PeerProfile)
    → v.learning_windows < learning_target
    → IsSmall v
    → IsSmall (learn peers v)
unfolding learn
learn-IsSmall peers v few s = ground (arith, length-learn_peers-le peers v.learning s.few_learning)

confirm-IsSmall : (x : Text) (v : PeerProfile) → IsSmall v → IsSmall (confirm x v).0
unfolding confirm
confirm-IsSmall x v s = ground (arith, length-add-le x v.known)

judge_peers-IsSmall :
    (peers : List Text) (v : PeerProfile) → IsSmall v → IsSmall (judge_peers peers v).0
unfolding judge_peers
judge_peers-IsSmall peers v s = elim (Option-cases (first_unknown peers v.known)) [
  | inl e ↦ rw (e, judge_peers) (ground arith)
  | inr (x, e) ↦ rw (e, judge_peers) (confirm-IsSmall x v s)
]

pub observe_window-IsSmall :
    (peers : List Text) (t : Time) (v : PeerProfile)
    → IsSmall v
    → IsSmall (observe_window peers t v).0
unfolding observe_window
observe_window-IsSmall peers t v s =
    let v' = record v { last_bucket = unix (truncate_minute t); last_seen = t } in
    let s' : IsSmall v' = ground arith in
    ground (arith, learn-IsSmall peers v', judge_peers-IsSmall peers v' s')

-- What a report of `x` from the profile `v` says, and what becomes of the profile.
pub record Reported (peers : List Text) (x : Text) (v w : PeerProfile) : Type 0 where
  pub learned : learning_target ≤ v.learning_windows
  pub seen : contains x peers ≡ true
  pub was_unknown : contains x v.known ≡ false
  pub was_candidate : is_candidate x v.candidate ≡ true
  pub first : IsLeastUnknown x v.known peers
  pub remembered : contains x w.known ≡ ltb (length v.known) max_peers

confirm_report :
    (y x : Text) (v : PeerProfile)
    → (confirm y v).1 ≡ some x
    → (y ≡ x)
      × (is_candidate x v.candidate ≡ true)
      × (contains x (confirm y v).0.known ≡ (ltb (length v.known) max_peers || contains x v.known))
unfolding confirm
confirm_report y x v h = ground (arith, contains-add y y v.known, ==_refl y)

judge_peers_report :
    (peers : List Text) (x : Text) (v : PeerProfile)
    → (judge_peers peers v).1 ≡ some x
    → (first_unknown peers v.known ≡ some x)
      × (is_candidate x v.candidate ≡ true)
      × (contains x (judge_peers peers v).0.known
          ≡ (ltb (length v.known) max_peers || contains x v.known))
unfolding judge_peers
judge_peers_report peers x v h = elim (Option-cases (first_unknown peers v.known)) [
  | inl e ↦ absurd (ground (arith, h, e))
  | inr (y, e) ↦ ground (arith, h, e, confirm_report y x v)
]

-- A window that is judged is a new minute after learning.
pub window_cases :
    (t : Time) (v : PeerProfile)
    → ((eqb (unix (truncate_minute t)) v.last_bucket ≡ true)
        ⊎ (ltb v.learning_windows learning_target ≡ true))
      ⊎ ((eqb (unix (truncate_minute t)) v.last_bucket ≡ false)
          × (ltb v.learning_windows learning_target ≡ false))
window_cases t v = ground arith

-- A report names a peer of this window that the device has not learned, the least such peer, that
-- was the candidate before, and only after learning is complete. It is learned then, if there is
-- room.
pub observe_window_report :
    (peers : List Text) (t : Time) (x : Text) (v : PeerProfile)
    → (observe_window peers t v).1 ≡ some x
    → Reported peers x v (observe_window peers t v).0
unfolding observe_window
observe_window_report peers t x v h = elim (window_cases t v) [
  | inl skipped ↦ absurd (ground (arith, h, skipped))
  | inr (fresh, learned) ↦
      let v' = record v { last_bucket = unix (truncate_minute t); last_seen = t } in
      let (least, candidate, kept) =
        judge_peers_report peers x v' (ground (arith, h, fresh, learned)) in
      let (there, unknown, first) = first_unknown_least peers v.known x least in
      record {
        learned = ground (arith, learned);
        seen = there;
        was_unknown = unknown;
        was_candidate = candidate;
        first = first;
        remembered = rw (fresh, learned) (ground (arith, kept, unknown));
      }
]

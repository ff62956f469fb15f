-- ===== src/Api/Rules/Table.antt =====
-- The table of rules that internal/api/notification_handlers.go fills.
use flowguard_lite.Prelude.{
  ℕ, zero, suc, ◌≡◌, refl, inl, inr, Bool, not, Option, none, some, List, [], ◌∷◌, eqb, keep,
  Bool-cases, Option-cases, All, All-append,
}
use flowguard_lite.Prelude.Ints.{ℤ, pos, negsuc}
use flowguard_lite.Net.{Parsers}
use flowguard_lite.Webhook.{NotificationRule}
use flowguard_lite.Api.Rules.{
  Checked, fine, wrong, RuleTable, check_rule, replace_rule, save_notification_rule,
  get_notification_rule, delete_notification_rule, Method, get, post, put, delete, numbered,
  saved_as, save_numbered, save_checked, handle_save_notification_rule,
  handle_delete_notification_rule, or_same,
}
use flowguard_lite.Api.Rules.Accepted.{IsAccepted, check_rule-IsAccepted}

-- A request to one of the two handlers, with whether the database works.
pub data RuleCall : Type 0 where
  saves : Bool → Method → Option ℤ → NotificationRule → RuleCall
  deletes : Bool → Method → Option ℤ → RuleCall

module _ (p : Parsers) where
  unfoldable pub serve_rule : RuleCall → RuleTable → RuleTable
  serve_rule (saves writes method id rule) t =
      (handle_save_notification_rule p writes method id rule t).0
  serve_rule (deletes writes method id) t = handle_delete_notification_rule writes method id t

  unfoldable pub serve_rules : List RuleCall → RuleTable → RuleTable
  serve_rules [] t = t
  serve_rules (c ∷ cs) t = serve_rules cs (serve_rule c t)

  with_number :
      (n : ℕ) (rule : NotificationRule) → IsAccepted p rule → IsAccepted p (record rule { id = n })
  with_number n rule v = record {
    named = v.named;
    level = v.level;
    somewhere = v.somewhere;
    channels = v.channels;
    scoped = v.scoped;
    cooldown = v.cooldown;
  }

  replace_rule-All :
      (rule : NotificationRule) (rs : List NotificationRule)
      → IsAccepted p rule
      → All (IsAccepted p) rs
      → All (IsAccepted p) (replace_rule rule rs).0
  unfolding replace_rule
  replace_rule-All rule [] v a = tt
  replace_rule-All rule (r ∷ rs) v a = elim (Bool-cases (eqb r.id rule.id)) [
    | inl same ↦ rw same (v, replace_rule-All rule rs v a.1)
    | inr other ↦ rw other (a.0, replace_rule-All rule rs v a.1)
  ]

  keep-All :
      (f : NotificationRule → Bool) (rs : List NotificationRule)
      → All (IsAccepted p) rs
      → All (IsAccepted p) (keep f rs)
  unfolding keep
  keep-All f [] a = tt
  keep-All f (r ∷ rs) a = elim (Bool-cases (f r)) [
    | inl stays ↦ rw stays (a.0, keep-All f rs a.1)
    | inr goes ↦ rw goes (keep-All f rs a.1)
  ]

  save-All :
      (writes : Bool) (rule : NotificationRule) (t : RuleTable)
      → IsAccepted p rule
      → All (IsAccepted p) t.rules
      → All (IsAccepted p) (saved_as t (save_notification_rule writes rule t)).0.rules
  unfolding save_notification_rule
  save-All writes rule t v a = elim (Bool-cases writes) [
    | inr fails ↦ rw (v.named, fails, save_notification_rule) a
    | inl works ↦ elim (Bool-cases (eqb rule.id 0)) [
      | inl new ↦
          rw (v.named, works, new, save_notification_rule)
            (All-append (IsAccepted p) t.rules _ a (with_number t.next_rule rule v, tt))
      | inr old ↦ elim (Bool-cases (eqb (replace_rule rule t.rules).1 0)) [
        | inl missing ↦ rw (v.named, works, old, missing, save_notification_rule) a
        | inr found ↦
            rw (v.named, works, old, found, save_notification_rule)
              (replace_rule-All rule t.rules v a)
      ]
    ]
  ]

  numbered-All :
      (writes : Bool) (method : Method) (id : Option ℤ) (rule : NotificationRule) (t : RuleTable)
      → IsAccepted p rule
      → All (IsAccepted p) t.rules
      → All (IsAccepted p) (save_numbered writes (numbered method id rule) t).0.rules
  numbered-All writes get id rule t v a = save-All writes rule t v a
  numbered-All writes post id rule t v a = save-All writes rule t v a
  numbered-All writes delete id rule t v a = save-All writes rule t v a
  numbered-All writes put none rule t v a = a
  numbered-All writes put (some (negsuc n)) rule t v a = a
  numbered-All writes put (some (pos zero)) rule t v a = a
  numbered-All writes put (some (pos (suc n))) rule t v a =
      save-All writes (record rule { id = suc n }) t (with_number (suc n) rule v) a

  checked-All :
      (writes : Bool) (method : Method) (id : Option ℤ) (posted : NotificationRule) (t : RuleTable)
      (q : Checked NotificationRule)
      → check_rule p posted ≡ q
      → All (IsAccepted p) t.rules
      → All (IsAccepted p) (save_checked writes method id q t).0.rules
  checked-All writes method id posted t (wrong f) e a = a
  checked-All writes method id posted t (fine rule) e a =
      numbered-All writes method id rule t (check_rule-IsAccepted p posted rule e) a

  delete-All :
      (writes : Bool) (id : ℕ) (t : RuleTable)
      → All (IsAccepted p) t.rules
      → All (IsAccepted p) (or_same t (delete_notification_rule writes id t)).rules
  unfolding delete_notification_rule
  delete-All writes id t a = elim (Option-cases (get_notification_rule id t.rules)) [
    | inl missing ↦ rw (missing, delete_notification_rule) a
    | inr (r, found) ↦ elim (Bool-cases writes) [
      | inr fails ↦ rw (found, fails, delete_notification_rule) a
      | inl works ↦
          rw (found, works, delete_notification_rule) (keep-All (λ q. not (eqb q.id id)) t.rules a)
    ]
  ]

  serve_rule-All :
      (c : RuleCall) (t : RuleTable)
      → All (IsAccepted p) t.rules
      → All (IsAccepted p) (serve_rule c t).rules
  unfolding serve_rule handle_save_notification_rule handle_delete_notification_rule
  serve_rule-All (saves writes get id rule) t a = a
  serve_rule-All (saves writes delete id rule) t a = a
  serve_rule-All (saves writes post id rule) t a =
      checked-All writes post id rule t (check_rule p rule) refl a
  serve_rule-All (saves writes put id rule) t a =
      checked-All writes put id rule t (check_rule p rule) refl a
  serve_rule-All (deletes writes get id) t a = a
  serve_rule-All (deletes writes post id) t a = a
  serve_rule-All (deletes writes put id) t a = a
  serve_rule-All (deletes writes delete none) t a = a
  serve_rule-All (deletes writes delete (some (negsuc n))) t a = a
  serve_rule-All (deletes writes delete (some (pos zero))) t a = a
  serve_rule-All (deletes writes delete (some (pos (suc n)))) t a = delete-All writes (suc n) t a

  -- Whatever is posted, put and deleted, and whether the database works or not: if all rules of the
  -- table are well formed, they stay so. A rule is well formed that has a name, a severity of the
  -- three in any case of letters, at least one channel and only channels of the three in any case
  -- of letters, a scope with a target that can be read, empty for `global`, and no negative cooldown.
  pub serve_rules-IsAccepted :
      (calls : List RuleCall) (t : RuleTable)
      → All (IsAccepted p) t.rules
      → All (IsAccepted p) (serve_rules calls t).rules
  unfolding serve_rules
  serve_rules-IsAccepted [] t a = a
  serve_rules-IsAccepted (c ∷ cs) t a =
      serve_rules-IsAccepted cs (serve_rule c t) (serve_rule-All c t a)

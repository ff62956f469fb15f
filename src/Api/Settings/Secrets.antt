-- ===== src/Api/Settings/Secrets.antt =====
-- The settings that internal/api/settings_handlers.go shows can be posted back.
use flowguard_lite.Prelude.{
  ◌≡◌, refl, sym, ap, ◌∙◌, inl, inr, false, none, some, [], ◌∷◌, ◌++◌, arith, ◌==◌, ==_iff, ==_refl,
  Bool-cases,
}
use mathlib.Core.List.{append_assoc, append-nil}
use flowguard_lite.Prelude.Maps.{Map, lookup, insert}
use flowguard_lite.Prelude.Text.{Text, text_keys}
use flowguard_lite.Flow.{is_empty}
use flowguard_lite.Api.Settings.{
  mask, mask_value, is_secret, masked_headers, masked_token, merge_token, merge_header, merge_all,
  merge_headers,
}

-- A Go map has one entry for a key.
abbrev pub HasDistinctKeys : Map Text Text → Type 0
HasDistinctKeys [] = Unit {0}
HasDistinctKeys ((k, v) ∷ rest) = (lookup k rest ≡ none) × HasDistinctKeys rest

lookup-append :
    (j k : Text) (v : Text) (seen rest : Map Text Text)
    → lookup j (seen ++ (k, v) ∷ rest) ≡ none
    → (lookup j seen ≡ none) × ((j == k) ≡ false)
unfolding lookup
lookup-append j k v [] rest h = ground (arith, ==_iff j k, ==_iff k j, h)
lookup-append j k v ((i, w) ∷ seen) rest h = ground (arith, lookup-append j k v seen rest, h)

entry_of :
    (k v : Text) (seen rest : Map Text Text)
    → HasDistinctKeys (seen ++ (k, v) ∷ rest)
    → (lookup k seen ≡ none) × (lookup k (seen ++ (k, v) ∷ rest) ≡ some v)
unfolding lookup
entry_of k v [] rest d = (refl, rw (==_refl k) refl)
entry_of k v ((j, w) ∷ seen) rest d =
    let (unseen, other) = lookup-append j k v seen rest d.0 in
    let (absent, found) = entry_of k v seen rest d.1 in rw other (absent, found)

insert_new : (k v : Text) (m : Map Text Text) → lookup k m ≡ none → insert k v m ≡ m ++ (k, v) ∷ []
unfolding lookup insert
insert_new k v [] h = refl
insert_new k v ((j, w) ∷ m) h = elim (Bool-cases (j == k)) [
  | inl same ↦ absurd (ground (arith, h, same))
  | inr other ↦ rw other (ap (λ r. (j, w) ∷ r) (insert_new k v m (ground (arith, h, other))))
]

-- What was hidden is found again, and what was not hidden is no change.
merge_header-mask_value :
    (old : Map Text Text) (k v : Text)
    → lookup k old ≡ some v
    → merge_header old k (mask_value k v) ≡ (v, false)
unfolding merge_header
merge_header-mask_value old k v h = elim (Bool-cases (is_secret k)) [
  | inl hidden ↦ rw (hidden, ==_refl mask, merge_header) (rw h refl)
  | inr shown ↦ elim (Bool-cases (v == mask)) [
    | inl starred ↦ rw (shown, starred, merge_header) (rw h refl)
    | inr plain ↦ rw (shown, plain, merge_header) (rw h (rw (==_refl v) refl))
  ]
]

merge_all_step :
    (old seen rest : Map Text Text) (k x v : Text)
    → merge_header old k x ≡ (v, false)
    → merge_all old ((k, x) ∷ rest) seen false ≡ merge_all old rest (insert k v seen) false
unfolding merge_all
merge_all_step old seen rest k x v e = ap (λ q. merge_all old rest (insert k q.0 seen) q.1) e

merge_all-masked_headers :
    (old seen rest : Map Text Text)
    → old ≡ seen ++ rest
    → HasDistinctKeys old
    → merge_all old (masked_headers rest) seen false ≡ (old, false)
unfolding merge_all masked_headers
merge_all-masked_headers old seen [] e d = ap (λ m. (m, false)) (sym (e ∙ append-nil seen))
merge_all-masked_headers old seen ((k, v) ∷ rest) e d =
    let (unseen, found) = entry_of k v seen rest (rw e at d) in
    let kept = merge_header-mask_value old k v (rw e found) in
    let one : seen ++ (k, v) ∷ rest ≡ (seen ++ (k, v) ∷ []) ++ rest =
      sym (append_assoc seen ((k, v) ∷ []) rest) in
    merge_all_step old seen (masked_headers rest) k (mask_value k v) v kept
    ∙ rw (insert_new k v seen unseen)
        (merge_all-masked_headers old (seen ++ (k, v) ∷ []) rest (e ∙ one) d)

merge_token-masked_token : (token : Text) → merge_token token (masked_token token) ≡ (token, false)
unfolding merge_token masked_token is_empty
merge_token-masked_token [] = refl
merge_token-masked_token (c ∷ s) = rw (==_refl mask) refl

-- What the reader is shown of the headers and of the Telegram token, posted back as it is, leaves
-- both as they were and is no change, whatever the keys and values are.
pub merge_headers-masked_headers :
    (old : Map Text Text) (token : Text)
    → HasDistinctKeys old
    → (merge_headers old (masked_headers old) ≡ (old, false))
      × (merge_token token (masked_token token) ≡ (token, false))
unfolding merge_headers
merge_headers-masked_headers old token d =
    (rw (merge_all-masked_headers old [] old refl d) (ground arith), merge_token-masked_token token)

-- ===== src/Prelude/Lists.antt =====
-- Lists measured by native numbers, and predicates on lists.
use Prim.Native.Nat.{ℕ, zero, suc, ◌+◌, ◌-◌, ◌≤◌}
use mathlib.Core.Path.{◌≡◌, refl, ap, ◌∙◌}
use mathlib.Core.Logic.{◌⊎◌, ◌↔◌, inl, inr}
use mathlib.Core.Bool.{Bool, true, false, ◌||◌}
use mathlib.Core.List.{List, [], ◌∷◌, ◌++◌}
use native.Mathlib.Omega.{arith}
use flowguard_lite.Prelude.Tests.{if◌then◌else◌, Bool-cases}

module _ {ℓ} {A : Type ℓ} where
  abbrev pub length : List A → ℕ
  length [] = 0
  length (x ∷ xs) = suc (length xs)

  abbrev pub drop : ℕ → List A → List A
  drop zero xs = xs
  drop (suc n) [] = []
  drop (suc n) (x ∷ xs) = drop n xs

  pub length-append : (xs ys : List A) → length (xs ++ ys) ≡ length xs + length ys
  length-append [] ys = omega arith
  length-append (x ∷ xs) ys = omega (arith, length-append xs ys)

  pub length-drop : (n : ℕ) (xs : List A) → length (drop n xs) ≡ length xs - n
  length-drop zero xs = omega arith
  length-drop (suc n) [] = omega arith
  length-drop (suc n) (x ∷ xs) = omega (arith, length-drop n xs)

  -- A loop's `if (p x) { return true }`.
  unfoldable pub any : (A → Bool) → List A → Bool
  any p [] = false
  any p (x ∷ xs) = p x || any p xs

  -- Keep the elements that pass.
  unfoldable pub keep : (A → Bool) → List A → List A
  keep p [] = []
  keep p (x ∷ xs) = let rest = keep p xs in if p x then x ∷ rest else rest

  pub length-keep-le : (p : A → Bool) (xs : List A) → length (keep p xs) ≤ length xs
  unfolding keep
  length-keep-le p [] = omega arith
  length-keep-le p (x ∷ xs) = ground (arith, length-keep-le p xs)

-- A predicate holds of every element.
abbrev pub All {ℓ κ} : {A : Type ℓ} → (A → Type κ) → List A → Type κ
All P [] = Unit
All P (x ∷ xs) = P x × All P xs

pub All-append {ℓ κ} :
    {A : Type ℓ} (P : A → Type κ) (xs ys : List A) → All P xs → All P ys → All P (xs ++ ys)
All-append P [] ys hx hy = hy
All-append P (x ∷ xs) ys hx hy = (hx.0, All-append P xs ys hx.1 hy)

pub All-drop {ℓ κ} :
    {A : Type ℓ} (P : A → Type κ) (n : ℕ) (xs : List A) → All P xs → All P (drop n xs)
All-drop P zero xs h = h
All-drop P (suc n) [] h = tt
All-drop P (suc n) (x ∷ xs) h = All-drop P n xs h.1

pub All-mono {ℓ κ μ} :
    {A : Type ℓ} (P : A → Type κ) (Q : A → Type μ) (xs : List A)
    → ((x : A) → P x → Q x)
    → All P xs
    → All Q xs
All-mono P Q [] f h = tt
All-mono P Q (x ∷ xs) f h = (f x h.0, All-mono P Q xs f h.1)

-- An element of a list.
abbrev pub Mem : {A : Type 0} → A → List A → Type 0
Mem x [] = ⊥
Mem x (y ∷ ys) = (x ≡ y) ⊎ Mem x ys

-- What holds of all holds of an element.
pub All-Mem {κ} : {A : Type 0} (P : A → Type κ) (x : A) (xs : List A) → All P xs → Mem x xs → P x
All-Mem P x [] h m = absurd m
All-Mem P x (y ∷ ys) h (inl e) = rw e h.0
All-Mem P x (y ∷ ys) h (inr m) = All-Mem P x ys h.1 m

pub Mem-All {κ} :
    {A : Type 0} (P : A → Type κ) (xs : List A) → ((x : A) → Mem x xs → P x) → All P xs
Mem-All P [] f = tt
Mem-All P (y ∷ ys) f = (f y (inl refl), Mem-All P ys (λ x m. f x (inr m)))

-- The elements that `keep` keeps.
pub Mem-keep :
    {A : Type 0} (p : A → Bool) (x : A) (xs : List A)
    → Mem x (keep p xs) ↔ (Mem x xs × (p x ≡ true))
unfolding keep
Mem-keep p x [] = (λ m. absurd m, λ m. m.0)
Mem-keep p x (y ∷ ys) = elim (Bool-cases (p y)) [
  | inl kept ↦ rw kept (
    (λ m. elim m [
      | inl e ↦ (inl e, ap p e ∙ kept)
      | inr later ↦ let (there, passed) = (Mem-keep p x ys).0 later in (inr there, passed)
    ]),
    (λ q. elim q.0 [ inl e ↦ inl e | inr later ↦ inr ((Mem-keep p x ys).1 (later, q.1)) ]),
  )
  | inr left ↦ rw left (
    (λ m. let (there, passed) = (Mem-keep p x ys).0 m in (inr there, passed)),
    (λ q. elim q.0 [
      | inl e ↦ absurd (cc (ap p e, q.1, left))
      | inr later ↦ (Mem-keep p x ys).1 (later, q.1)
    ]),
  )
]

pub Mem-append : {A : Type 0} (x : A) (xs ys : List A) → Mem x (xs ++ ys) ↔ (Mem x xs ⊎ Mem x ys)
Mem-append x [] ys = (λ m. inr m, λ m. elim m [ inl n ↦ absurd n | inr n ↦ n ])
Mem-append x (y ∷ xs) ys =
    let rest = Mem-append x xs ys in
    (
      (λ m. elim m [
        | inl e ↦ inl (inl e)
        | inr n ↦ elim (rest.0 n) [ inl l ↦ inl (inr l) | inr r ↦ inr r ]
      ]),
      (λ m. elim m [
        | inl n ↦ elim n [ inl e ↦ inl e | inr l ↦ inr (rest.1 (inl l)) ]
        | inr r ↦ inr (rest.1 (inr r))
      ]),
    )

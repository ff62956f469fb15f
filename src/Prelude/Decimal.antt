-- ===== src/Prelude/Decimal.antt =====
-- strconv.Itoa for numbers that are not negative, and why it is one-to-one.
use Prim.Native.Nat.{ℕ, zero, suc, ◌+◌, ◌-◌, ◌*◌, ◌/◌, ◌%◌, ◌<◌}
use mathlib.Core.Path.{◌≡◌, refl, sym, ap, ◌∙◌}
use mathlib.Core.Logic.{inl, inr}
use mathlib.Core.List.{[], ◌∷◌, ◌++◌}
use native.Mathlib.Omega.{arith}
use flowguard_lite.Prelude.Tests.{ltb, if◌then◌else◌, Bool-cases}
use flowguard_lite.Prelude.Lists.{All, All-append}
use flowguard_lite.Prelude.Text.{Text, codes}

-- The digits of `n`, with fuel for one round each.
unfoldable pub digits : ℕ → ℕ → Text
digits zero n = []
digits (suc fuel) n =
    let front = digits fuel (n / 10) in
    if ltb n 10 then (b'0' + n) ∷ [] else front ++ (b'0' + n % 10) ∷ []

-- A round divides `n` by ten, so `n + 1` rounds are enough.
unfoldable pub itoa : ℕ → Text
unfolding digits
itoa n = digits (suc n) n

itoa_example : itoa 8443 ≡ codes "8443"
unfolding itoa
itoa_example = refl

-- The number that digits spell behind `n`.
unfoldable pub value : ℕ → Text → ℕ
value n [] = n
value n (c ∷ s) = value (n * 10 + (c - b'0')) s

value-append : (n c : ℕ) (s : Text) → value n (s ++ c ∷ []) ≡ value n s * 10 + (c - b'0')
unfolding value
value-append n c [] = refl
value-append n c (d ∷ s) = value-append (n * 10 + (d - b'0')) c s

value-digits : (fuel n : ℕ) → n < fuel → value 0 (digits fuel n) ≡ n
unfolding digits
value-digits zero n h = elim h [ ]
value-digits (suc fuel) n h = elim (Bool-cases (ltb n 10)) [
  | inl small ↦ rw small (unfold value in omega arith)
  | inr large ↦
      rw (large, value-append 0 (b'0' + n % 10) (digits fuel (n / 10)))
        (rw (value-digits fuel (n / 10) (ground arith)) (omega arith))
]

pub value-itoa : (n : ℕ) → value 0 (itoa n) ≡ n
unfolding itoa
value-itoa n = value-digits (suc n) n (omega arith)

-- Two numbers with one text are equal.
pub itoa-injective : {m n : ℕ} → itoa m ≡ itoa n → m ≡ n
unfolding itoa
itoa-injective {m} {n} h =
    sym (value-digits (suc m) m (omega arith))
    ∙ ap (value 0) h
    ∙ value-digits (suc n) n (omega arith)

-- Digits hold no character above `9`.
digits_bound : (fuel n : ℕ) → All (λ c. c < 58) (digits fuel n)
unfolding digits
digits_bound zero n = tt
digits_bound (suc fuel) n = elim (Bool-cases (ltb n 10)) [
  | inl small ↦ rw small (ground arith, tt)
  | inr large ↦ rw large (
      All-append (λ c. c < 58) (digits fuel (n / 10)) _ (digits_bound fuel (n / 10))
        (omega arith, tt))
]

pub itoa_bound : (n : ℕ) → All (λ c. c < 58) (itoa n)
unfolding itoa
itoa_bound n = digits_bound (suc n) n

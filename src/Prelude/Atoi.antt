-- ===== src/Prelude/Atoi.antt =====
-- strconv.Atoi: an optional sign and decimal digits, within the range of int64.
use Prim.Native.Nat.{ℕ, zero, suc, ◌+◌, ◌/◌, ◌%◌, ◌<◌}
use mathlib.Core.Path.{◌≡◌, refl}
use mathlib.Core.Logic.{inl, inr}
use mathlib.Core.Bool.{Bool, true, ◌&&◌}
use mathlib.Core.Option.{Option, none, some}
use mathlib.Core.List.{[], ◌∷◌, ◌++◌}
use native.Mathlib.Omega.{arith}
use flowguard_lite.Prelude.Tests.{ltb, leb, eqb, if◌then◌else◌, Bool-cases}
use flowguard_lite.Prelude.Text.{Text}
use flowguard_lite.Prelude.Ints.{ℤ, pos, negsuc}
use flowguard_lite.Prelude.Decimal.{itoa, digits, value, value-itoa}

abbrev pub is_digit : ℕ → Bool
is_digit c = leb b'0' c && leb c b'9'

unfoldable pub all_digits : Text → Bool
all_digits [] = true
all_digits (c ∷ s) = is_digit c && all_digits s

-- At least one digit and nothing else.
unfoldable pub read_digits : Text → Option ℕ
read_digits [] = none
read_digits (c ∷ s) = if all_digits (c ∷ s) then some (value 0 (c ∷ s)) else none

abbrev pub in_range : Option ℕ → Option ℤ
in_range none = none
in_range (some n) = if ltb n 9223372036854775808 then some (pos n) else none

abbrev pub negated : Option ℕ → Option ℤ
negated none = none
negated (some zero) = some (pos 0)
negated (some (suc n)) = if ltb n 9223372036854775808 then some (negsuc n) else none

unfoldable pub atoi : Text → Option ℤ
atoi [] = none
atoi (c ∷ s) =
    if eqb c b'-'
    then negated (read_digits s)
    else if eqb c b'+'
    then in_range (read_digits s)
    else in_range (read_digits (c ∷ s))

all_digits-append :
    (s t : Text) → all_digits s ≡ true → all_digits t ≡ true → all_digits (s ++ t) ≡ true
unfolding all_digits
all_digits-append [] t h k = k
all_digits-append (c ∷ s) t h k = ground (arith, all_digits-append s t)

all_digits-digits : (fuel n : ℕ) → all_digits (digits fuel n) ≡ true
unfolding digits all_digits
all_digits-digits zero n = refl
all_digits-digits (suc fuel) n = elim (Bool-cases (ltb n 10)) [
  | inl small ↦ rw small (ground (arith, small))
  | inr large ↦
      let last : all_digits ((b'0' + n % 10) ∷ []) ≡ true = ground arith in
      rw large (all_digits-append (digits fuel (n / 10)) _ (all_digits-digits fuel (n / 10)) last)
]

pub all_digits-itoa : (n : ℕ) → all_digits (itoa n) ≡ true
unfolding itoa
all_digits-itoa n = all_digits-digits (suc n) n

append-ne-nil : (s t : Text) (c : ℕ) → s ++ c ∷ t ≡ [] → ⊥
append-ne-nil [] t c e = cc
append-ne-nil (d ∷ s) t c e = cc

itoa-ne-nil : (n : ℕ) → itoa n ≡ [] → ⊥
unfolding itoa digits
itoa-ne-nil n = elim (Bool-cases (ltb n 10)) [
  | inl small ↦ rw small (λ e. cc)
  | inr large ↦ rw large (append-ne-nil (digits n (n / 10)) [] (b'0' + n % 10))
]

atoi_digits : (s : Text) → all_digits s ≡ true → (s ≡ [] → ⊥) → atoi s ≡ in_range (some (value 0 s))
unfolding atoi read_digits all_digits
atoi_digits [] h n = absurd (n refl)
atoi_digits (c ∷ s) h n = ground arith

-- What is printed is read back.
pub atoi-itoa : (n : ℕ) → n < 9223372036854775808 → atoi (itoa n) ≡ some (pos n)
atoi-itoa n h =
    rw (atoi_digits (itoa n) (all_digits-itoa n) (itoa-ne-nil n), value-itoa n) (ground arith)

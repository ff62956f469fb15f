-- ===== src/Syslog/Trimming.antt =====
-- Texts that internal/collector/unifi_syslog.go leaves as they are when it trims them.
use flowguard_lite.Prelude.{
  ℕ, zero, suc, ◌+◌, ◌/◌, ◌%◌, ◌≤◌, ◌<◌, ◌≡◌, refl, sym, ap, ◌∙◌, Bool, true, false, [], ◌∷◌, ◌++◌,
  arith, length, length-append, All,
}
use mathlib.Core.List.{reverse, reverse-append, reverse-reverse}
use flowguard_lite.Prelude.Text.{Text, is_space, trim_left, trim_space}
use flowguard_lite.Prelude.Decimal.{digits, itoa, itoa_bound}
use flowguard_lite.Prelude.Split.{Lacks}
use flowguard_lite.Prelude.Atoi.{all_digits, all_digits-itoa}
use flowguard_lite.Policies.{byte_length}
use flowguard_lite.Syslog.{drop_while, trim_right}

-- The last character.
abbrev pub EndsIn : ℕ → Text → Type 0
EndsIn z s = (r : Text) × (reverse s ≡ z ∷ r)

pub EndsIn-append : (z : ℕ) (s t : Text) → EndsIn z t → EndsIn z (s ++ t)
EndsIn-append z s t (r, e) = (r ++ reverse s, reverse-append s t ∙ ap (λ u. u ++ reverse s) e)

pub trim_right_keeps :
    (p : ℕ → Bool) (z : ℕ) (s : Text) → EndsIn z s → p z ≡ false → trim_right p s ≡ s
unfolding trim_right drop_while
trim_right_keeps p z s (r, e) h =
    let same : drop_while p (z ∷ r) ≡ z ∷ r = rw h refl in
    rw (e, trim_right) (rw same (ap reverse (sym e) ∙ reverse-reverse s))

pub trim_space_keeps :
    (c z : ℕ) (s : Text)
    → is_space c ≡ false
    → is_space z ≡ false
    → EndsIn z (c ∷ s)
    → trim_space (c ∷ s) ≡ c ∷ s
unfolding trim_space trim_left
trim_space_keeps c z s front back (r, e) =
    rw front (rw e (rw back (ap reverse (sym e) ∙ reverse-reverse (c ∷ s))))

-- A number below a thousand has at most three digits, all of one byte.
length-digits_one : (fuel n : ℕ) → n < 10 → length (digits fuel n) ≤ 1
unfolding digits
length-digits_one zero n h = omega arith
length-digits_one (suc fuel) n h = ground arith

length-digits_two : (fuel n : ℕ) → n < 100 → length (digits fuel n) ≤ 2
unfolding digits
length-digits_two zero n h = omega arith
length-digits_two (suc fuel) n h = ground (
  arith,
  length-digits_one fuel (n / 10),
  length-append (digits fuel (n / 10)) ((b'0' + n % 10) ∷ []),
)

length-digits_three : (fuel n : ℕ) → n < 1000 → length (digits fuel n) ≤ 3
unfolding digits
length-digits_three zero n h = omega arith
length-digits_three (suc fuel) n h = ground (
  arith,
  length-digits_two fuel (n / 10),
  length-append (digits fuel (n / 10)) ((b'0' + n % 10) ∷ []),
)

byte_length_ascii : (s : Text) → All (λ c. c < 58) s → byte_length s ≡ length s
unfolding byte_length
byte_length_ascii [] h = refl
byte_length_ascii (c ∷ s) h = ground (arith, byte_length_ascii s h.1, h.0)

length-itoa : (n : ℕ) → 1 ≤ length (itoa n)
unfolding itoa digits
length-itoa n = ground (arith, length-append (digits n (n / 10)) ((b'0' + n % 10) ∷ []))

pub byte_length-itoa : (n : ℕ) → n < 1000 → (1 ≤ byte_length (itoa n)) × (byte_length (itoa n) ≤ 3)
byte_length-itoa n h =
    let short : length (itoa n) ≤ 3 = unfold itoa in length-digits_three (suc n) n h in
    let ascii = byte_length_ascii (itoa n) (itoa_bound n) in
    (omega (arith, ascii, length-itoa n), omega (arith, ascii, short))

digits-Lacks : (s : Text) → all_digits s ≡ true → Lacks b'>' s
unfolding all_digits
digits-Lacks [] h = tt
digits-Lacks (d ∷ s) h = (ground arith, digits-Lacks s (ground arith))

pub itoa-Lacks : (n : ℕ) → Lacks b'>' (itoa n)
itoa-Lacks n = digits-Lacks (itoa n) (all_digits-itoa n)

-- ===== src/Prelude/Text.antt =====
-- Go's strings as lists of code points, with what the program uses of package strings.
use Prim.Native.Nat.{ℕ, ◌+◌, ◌-◌}
use Prim.Native.Char.{code}
use Prim.Native.String.{String}
use mathlib.Core.Path.{◌≡◌, refl}
use mathlib.Core.Logic.{◌↔◌, ◌⊎◌, inl, inr}
use mathlib.Core.Bool.{Bool, true, false, ◌&&◌, ◌||◌}
use mathlib.Core.List.{List, [], ◌∷◌, reverse, map}
use native.Mathlib.Omega.{arith}
use flowguard_lite.Prelude.Tests.{ltb, leb, eqb, if◌then◌else◌}
use flowguard_lite.Prelude.Keys.{Keyed}

abbrev pub Text : Type 0
Text = List ℕ

-- A literal of the source.
abbrev pub codes : String → Text
codes String.[] = []
codes (String.◌∷◌ c s) = code c ∷ codes s

unfoldable pub text_eq : Text → Text → Bool
text_eq [] [] = true
text_eq [] (b ∷ t) = false
text_eq (a ∷ s) [] = false
text_eq (a ∷ s) (b ∷ t) = eqb a b && text_eq s t

pub text_eq_iff : (s t : Text) → (text_eq s t ≡ true) ↔ (s ≡ t)
unfolding text_eq
text_eq_iff [] [] = (λ _. refl, λ _. refl)
text_eq_iff [] (b ∷ t) = ground arith
text_eq_iff (a ∷ s) [] = ground arith
text_eq_iff (a ∷ s) (b ∷ t) = ground (arith, text_eq_iff s t)

instance abbrev pub text_keys : Keyed Text
text_keys = record { same = text_eq; same_iff = text_eq_iff }

-- `s < t`: by code points, which for UTF-8 is the order of the bytes.
unfoldable pub text_lt : Text → Text → Bool
text_lt [] [] = false
text_lt [] (b ∷ t) = true
text_lt (a ∷ s) [] = false
text_lt (a ∷ s) (b ∷ t) = ltb a b || (eqb a b && text_lt s t)

pub text_lt_irrefl : (s : Text) → text_lt s s ≡ false
unfolding text_lt
text_lt_irrefl [] = refl
text_lt_irrefl (a ∷ s) = ground (arith, text_lt_irrefl s)

pub text_lt_trans : (r s t : Text) → text_lt r s ≡ true → text_lt s t ≡ true → text_lt r t ≡ true
unfolding text_lt
text_lt_trans [] [] t h k = ground arith
text_lt_trans [] (b ∷ s) [] h k = ground arith
text_lt_trans [] (b ∷ s) (c ∷ t) h k = refl
text_lt_trans (a ∷ r) [] t h k = ground arith
text_lt_trans (a ∷ r) (b ∷ s) [] h k = ground arith
text_lt_trans (a ∷ r) (b ∷ s) (c ∷ t) h k = ground (arith, text_lt_trans r s t)

pub text_lt_total : (s t : Text) → (s ≡ t) ⊎ ((text_lt s t ≡ true) ⊎ (text_lt t s ≡ true))
unfolding text_lt
text_lt_total [] [] = inl refl
text_lt_total [] (b ∷ t) = inr (inl refl)
text_lt_total (a ∷ s) [] = inr (inr refl)
text_lt_total (a ∷ s) (b ∷ t) = ground (arith, text_lt_total s t)

-- unicode.IsSpace.
unfoldable pub is_space : ℕ → Bool
is_space c =
    (leb 9 c && leb c 13)
    || eqb c 32
    || eqb c 0x85
    || eqb c 0xa0
    || eqb c 0x1680
    || (leb 0x2000 c && leb c 0x200a)
    || eqb c 0x2028
    || eqb c 0x2029
    || eqb c 0x202f
    || eqb c 0x205f
    || eqb c 0x3000

unfoldable pub trim_left : Text → Text
unfolding is_space
trim_left [] = []
trim_left (c ∷ s) = if is_space c then trim_left s else c ∷ s

-- strings.TrimSpace.
unfoldable pub trim_space : Text → Text
unfolding trim_left
trim_space s = reverse (trim_left (reverse (trim_left s)))

-- unicode.ToLower where the result is ASCII; any other code point is left alone.
unfoldable pub to_lower_code : ℕ → ℕ
to_lower_code c =
    if leb b'A' c && leb c b'Z'
    then c + 32
    else if eqb c 0x212a
    then b'k'
    else if eqb c 0x130
    then b'i'
    else c

-- strings.ToLower, for comparing with an ASCII text.
unfoldable pub to_lower : Text → Text
unfolding to_lower_code
to_lower s = map to_lower_code s

-- Simple case folding onto the ASCII capitals.
unfoldable pub fold_code : ℕ → ℕ
fold_code c =
    if leb b'a' c && leb c b'z'
    then c - 32
    else if eqb c 0x212a
    then b'K'
    else if eqb c 0x17f
    then b'S'
    else c

-- strings.EqualFold where one of the texts is ASCII.
unfoldable pub equal_fold : Text → Text → Bool
unfolding fold_code text_eq
equal_fold s t = text_eq (map fold_code s) (map fold_code t)

pub text_lt_asymm : (s t : Text) → text_lt s t ≡ true → text_lt t s ≡ false
text_lt_asymm s t h = ground (arith, text_lt_trans s t s h, text_lt_irrefl s)

pub text_lt_negtrans :
    (r s t : Text) → text_lt r s ≡ false → text_lt s t ≡ false → text_lt r t ≡ false
text_lt_negtrans r s t h k = ground (arith, text_lt_total s t, text_lt_trans r t s)

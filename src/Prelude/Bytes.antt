-- ===== src/Prelude/Bytes.antt =====
-- Bytes as eight bits, the first the highest, with exclusive or and Go's fixed-size copies.
use Prim.Native.Nat.{ℕ, zero, suc, ◌/◌, ◌%◌, ◌^◌, ◌≤◌}
use mathlib.Core.Path.{◌≡◌, refl}
use mathlib.Core.Bool.{Bool, true, false, not, ◌&&◌}
use mathlib.Core.List.{List, [], ◌∷◌}
use native.Mathlib.Omega.{arith}
use flowguard_lite.Prelude.Tests.{eqb}
use flowguard_lite.Prelude.Lists.{length}

pub record Byte : Type 0 where
  pub b7 : Bool
  pub b6 : Bool
  pub b5 : Bool
  pub b4 : Bool
  pub b3 : Bool
  pub b2 : Bool
  pub b1 : Bool
  pub b0 : Bool

abbrev pub Bytes : Type 0
Bytes = List Byte

abbrev pub zero_byte : Byte
zero_byte = record {
  b7 = false;
  b6 = false;
  b5 = false;
  b4 = false;
  b3 = false;
  b2 = false;
  b1 = false;
  b0 = false;
}

abbrev pub xor : Bool → Bool → Bool
xor true b = not b
xor false b = b

unfoldable pub xor_byte : Byte → Byte → Byte
xor_byte a b = record {
  b7 = xor a.b7 b.b7;
  b6 = xor a.b6 b.b6;
  b5 = xor a.b5 b.b5;
  b4 = xor a.b4 b.b4;
  b3 = xor a.b3 b.b3;
  b2 = xor a.b2 b.b2;
  b1 = xor a.b1 b.b1;
  b0 = xor a.b0 b.b0;
}

abbrev pub same_bit : Bool → Bool → Bool
same_bit true b = b
same_bit false b = not b

unfoldable pub same_byte : Byte → Byte → Bool
same_byte a b =
    same_bit a.b7 b.b7
    && same_bit a.b6 b.b6
    && same_bit a.b5 b.b5
    && same_bit a.b4 b.b4
    && same_bit a.b3 b.b3
    && same_bit a.b2 b.b2
    && same_bit a.b1 b.b1
    && same_bit a.b0 b.b0

abbrev pub bit : ℕ → ℕ → Bool
bit i n = eqb (n / 2 ^ i % 2) 1

-- `byte(n)`.
unfoldable pub byte_of : ℕ → Byte
byte_of n = record {
  b7 = bit 7 n;
  b6 = bit 6 n;
  b5 = bit 5 n;
  b4 = bit 4 n;
  b3 = bit 3 n;
  b2 = bit 2 n;
  b1 = bit 1 n;
  b0 = bit 0 n;
}

-- `binary.BigEndian.PutUint32`.
unfoldable pub put_uint32 : ℕ → Bytes
put_uint32 n = byte_of (n / 16777216) ∷ byte_of (n / 65536) ∷ byte_of (n / 256) ∷ byte_of n ∷ []

-- `make([]byte, n)`.
unfoldable pub zeros : ℕ → Bytes
zeros zero = []
zeros (suc n) = zero_byte ∷ zeros n

-- `copy(target, source)`: as much as both hold.
unfoldable pub copy : Bytes → Bytes → Bytes
copy [] source = []
copy (t ∷ target) [] = t ∷ target
copy (t ∷ target) (s ∷ source) = s ∷ copy target source

-- `for j := range t { t[j] ^= u[j] }`, where `u` is as long as `t`.
unfoldable pub xor_into : Bytes → Bytes → Bytes
xor_into [] u = []
xor_into (a ∷ t) [] = a ∷ t
xor_into (a ∷ t) (b ∷ u) = xor_byte a b ∷ xor_into t u

-- `subtle.ConstantTimeCompare(a, b) == 1`.
unfoldable pub same_bytes : Bytes → Bytes → Bool
same_bytes [] [] = true
same_bytes [] (b ∷ bs) = false
same_bytes (a ∷ more) [] = false
same_bytes (a ∷ more) (b ∷ bs) = same_byte a b && same_bytes more bs

unfoldable pub take : ℕ → Bytes → Bytes
take zero bs = []
take (suc n) [] = []
take (suc n) (b ∷ bs) = b ∷ take n bs

pub length-zeros : (n : ℕ) → length (zeros n) ≡ n
unfolding zeros
length-zeros zero = refl
length-zeros (suc n) = omega (arith, length-zeros n)

pub length-copy : (t s : Bytes) → length (copy t s) ≡ length t
unfolding copy
length-copy [] s = refl
length-copy (a ∷ t) [] = refl
length-copy (a ∷ t) (b ∷ s) = omega (arith, length-copy t s)

pub length-xor_into : (t u : Bytes) → length (xor_into t u) ≡ length t
unfolding xor_into
length-xor_into [] u = refl
length-xor_into (a ∷ t) [] = refl
length-xor_into (a ∷ t) (b ∷ u) = omega (arith, length-xor_into t u)

pub length-take : (n : ℕ) (bs : Bytes) → n ≤ length bs → length (take n bs) ≡ n
unfolding take
length-take zero bs h = refl
length-take (suc n) [] h = omega arith
length-take (suc n) (b ∷ bs) h = omega (arith, length-take n bs)

same_bit_refl : (b : Bool) → same_bit b b ≡ true
same_bit_refl true = refl
same_bit_refl false = refl

same_byte_refl : (b : Byte) → same_byte b b ≡ true
unfolding same_byte
same_byte_refl b =
    rw
      (
        same_bit_refl b.b7,
        same_bit_refl b.b6,
        same_bit_refl b.b5,
        same_bit_refl b.b4,
        same_bit_refl b.b3,
        same_bit_refl b.b2,
        same_bit_refl b.b1,
        same_bit_refl b.b0,
      )
      refl

pub same_bytes_refl : (bs : Bytes) → same_bytes bs bs ≡ true
unfolding same_bytes
same_bytes_refl [] = refl
same_bytes_refl (b ∷ bs) = rw (same_byte_refl b) (same_bytes_refl bs)

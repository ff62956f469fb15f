-- ===== src/Auth/Password.antt =====
-- internal/api/auth.go: how the administrator's password is kept. HMAC-SHA256 and the unpadded
-- base64 of URLs are parameters, and a password is its bytes.
pub mod RoundTrip
use flowguard_lite.Prelude.{
  ℕ, zero, suc, ◌+◌, ◌-◌, ◌/◌, Bool, true, false, not, ◌||◌, List, [], ◌∷◌, ◌++◌, Option, none,
  some, ltb, length, if◌then◌else◌, ◌==◌,
}
use flowguard_lite.Prelude.Text.{Text, codes, text_keys}
use flowguard_lite.Prelude.Decimal.{itoa}
use flowguard_lite.Prelude.Ints.{ℤ, pos, negsuc}
use flowguard_lite.Prelude.Atoi.{atoi}
use flowguard_lite.Prelude.Split.{split}
use flowguard_lite.Prelude.Bytes.{Byte, Bytes, put_uint32, zeros, copy, xor_into, same_bytes, take}

-- A result or the text of an error.
pub data Result {ℓ} (A : Type ℓ) : Type ℓ where
  ok : A → Result A
  failed : Text → Result A

pub record Crypto : Type 0 where
  pub hmac : Bytes → Bytes → Bytes  -- the key and the message
  pub encode : Bytes → Text
  pub decode : Text → Result Bytes

abbrev pub password_min_length : ℕ
password_min_length = 10

abbrev pub password_hash_iters : ℕ
password_hash_iters = 210000

abbrev pub hash_name : Text
hash_name = codes "pbkdf2-sha256"

module _ (c : Crypto) where
  open c use {hmac, encode, decode}

  -- The text of random bytes, if the source of randomness gives them.
  unfoldable pub random_token : Result Bytes → Result Text
  random_token (failed e) = failed e
  random_token (ok b) = ok (encode b)

  -- The rounds of one block after its first.
  unfoldable pub mix : Bytes → ℕ → Bytes → Bytes → Bytes
  mix password zero u t = t
  mix password (suc rounds) u t = let u' = hmac password u in mix password rounds u' (xor_into t u')

  unfoldable pub derive_block : Bytes → Bytes → ℕ → ℕ → Bytes
  derive_block password salt iter block =
      let u = hmac password (salt ++ put_uint32 block) in
      mix password (iter - 1) u (copy (zeros 32) u)

  -- The blocks from one number on, as many as are asked for.
  unfoldable pub derive_blocks : Bytes → Bytes → ℕ → ℕ → ℕ → Bytes
  derive_blocks password salt iter zero block = []
  derive_blocks password salt iter (suc more) block =
      derive_block password salt iter block ++ derive_blocks password salt iter more (block + 1)

  unfoldable pub pbkdf2_sha256 : Bytes → Bytes → ℕ → ℕ → Bytes
  pbkdf2_sha256 password salt iter key_len =
      take key_len (derive_blocks password salt iter ((key_len + 32 - 1) / 32) 1)

  -- `pbkdf2-sha256$<iterations>$<salt>$<derived key>`.
  unfoldable pub format_hash : ℕ → Text → Bytes → Text
  format_hash iters salt dk = hash_name ++ b'$' ∷ (itoa iters ++ b'$' ∷ (salt ++ b'$' ∷ encode dk))

  unfoldable pub hash_with : Bytes → Text → Result Text
  hash_with password salt = elim (decode salt) [
    | failed e ↦ failed e
    | ok salt_bytes ↦ ok (
        format_hash password_hash_iters salt
          (pbkdf2_sha256 password salt_bytes password_hash_iters 32))
  ]

  unfoldable pub hash_password : Result Bytes → Bytes → Result Text
  hash_password random password =
      if ltb (length password) password_min_length
      then failed
          (codes "password must be at least " ++ itoa password_min_length ++ codes " characters")
      else elim (random_token random) [ failed e ↦ failed e | ok salt ↦ hash_with password salt ]

  unfoldable pub compare_hash : Bytes → ℕ → Result Bytes → Result Bytes → Bool
  compare_hash password iters (failed e) expected = false
  compare_hash password iters (ok salt) (failed e) = false
  compare_hash password iters (ok salt) (ok expected) =
      same_bytes (pbkdf2_sha256 password salt iters (length expected)) expected

  unfoldable pub verify_iters : Bytes → Option ℤ → Text → Text → Bool
  verify_iters password none salt key = false
  verify_iters password (some (negsuc n)) salt key = false
  verify_iters password (some (pos zero)) salt key = false
  verify_iters password (some (pos (suc n))) salt key =
      compare_hash password (suc n) (decode salt) (decode key)

  unfoldable pub verify_parts : Bytes → List Text → Bool
  verify_parts password [] = false
  verify_parts password (name ∷ []) = false
  verify_parts password (name ∷ iters ∷ []) = false
  verify_parts password (name ∷ iters ∷ salt ∷ []) = false
  verify_parts password (name ∷ iters ∷ salt ∷ key ∷ []) =
      if not (name == hash_name) then false else verify_iters password (atoi iters) salt key
  verify_parts password (name ∷ iters ∷ salt ∷ key ∷ extra ∷ more) = false

  unfoldable pub verify_password : Text → Bytes → Bool
  verify_password stored_hash password = verify_parts password (split b'$' stored_hash)

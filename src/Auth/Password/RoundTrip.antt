-- ===== src/Auth/Password/RoundTrip.antt =====
-- What a password's hash in internal/api/auth.go says about passwords.
use flowguard_lite.Prelude.{
  ℕ, zero, suc, ◌+◌, ◌-◌, ◌*◌, ◌/◌, ◌≤◌, ◌<◌, ◌≡◌, refl, ap, ◌∙◌, true, false, [], ◌∷◌, ◌++◌, ltb,
  length, length-append, arith,
}
use flowguard_lite.Prelude.Text.{Text, text_eq}
use flowguard_lite.Prelude.Decimal.{itoa}
use flowguard_lite.Prelude.Atoi.{atoi-itoa, all_digits, all_digits-itoa}
use flowguard_lite.Prelude.Split.{Lacks, split, split-append, split_whole}
use flowguard_lite.Prelude.Bytes.{
  Bytes, zeros, copy, xor_into, same_bytes, put_uint32, length-zeros, length-copy, length-xor_into,
  length-take, same_bytes_refl,
}
use flowguard_lite.Auth.Password.{
  ok, Crypto, mix, derive_block, derive_blocks, pbkdf2_sha256, format_hash, hash_with,
  hash_password, random_token, compare_hash, verify_iters, verify_parts, verify_password,
  password_hash_iters, password_min_length, hash_name,
}

digits-Lacks : (s : Text) → all_digits s ≡ true → Lacks b'$' s
unfolding all_digits
digits-Lacks [] h = tt
digits-Lacks (d ∷ s) h = (ground arith, digits-Lacks s (ground arith))

module _ (c : Crypto) where
  open c use {hmac, encode, decode}

  length-mix :
      (password : Bytes) (rounds : ℕ) (u t : Bytes) → length (mix c password rounds u t) ≡ length t
  unfolding mix
  length-mix password zero u t = refl
  length-mix password (suc rounds) u t =
      length-mix password rounds (hmac password u) (xor_into t (hmac password u))
      ∙ length-xor_into t (hmac password u)

  length-derive_block :
      (password salt : Bytes) (iter block : ℕ)
      → length (derive_block c password salt iter block) ≡ 32
  unfolding derive_block
  length-derive_block password salt iter block =
      let u = hmac password (salt ++ put_uint32 block) in
      length-mix password (iter - 1) u (copy (zeros 32) u)
      ∙ length-copy (zeros 32) u
      ∙ length-zeros 32

  length-derive_blocks :
      (password salt : Bytes) (iter count block : ℕ)
      → length (derive_blocks c password salt iter count block) ≡ 32 * count
  unfolding derive_blocks
  length-derive_blocks password salt iter zero block = refl
  length-derive_blocks password salt iter (suc more) block = omega (
    arith,
    length-append (derive_block c password salt iter block)
        (derive_blocks c password salt iter more (block + 1)),
    length-derive_block password salt iter block,
    length-derive_blocks password salt iter more (block + 1),
  )

  -- The blocks are enough for the length that is asked for, so the slice is in range.
  pub length-pbkdf2_sha256 :
      (password salt : Bytes) (iter key_len : ℕ)
      → length (pbkdf2_sha256 c password salt iter key_len) ≡ key_len
  unfolding pbkdf2_sha256
  length-pbkdf2_sha256 password salt iter key_len =
      length-take key_len (derive_blocks c password salt iter ((key_len + 32 - 1) / 32) 1)
        (omega (arith, length-derive_blocks password salt iter ((key_len + 32 - 1) / 32) 1))

  module _ (whole : (b : Bytes) → decode (encode b) ≡ ok b)
      (plain : (b : Bytes) → Lacks b'$' (encode b)) where
    split-format_hash :
        (iters : ℕ) (salt : Bytes) (dk : Bytes)
        → split b'$' (format_hash c iters (encode salt) dk)
          ≡ hash_name ∷ itoa iters ∷ encode salt ∷ encode dk ∷ []
    unfolding format_hash
    split-format_hash iters salt dk =
        rw
          (
            split-append b'$' hash_name (itoa iters ++ b'$' ∷ (encode salt ++ b'$' ∷ encode dk))
                (digits-free),
            split-append b'$' (itoa iters) (encode salt ++ b'$' ∷ encode dk)
                (digits-Lacks (itoa iters) (all_digits-itoa iters)),
            split-append b'$' (encode salt) (encode dk) (plain salt),
            split_whole b'$' (encode dk) (plain dk),
          )
          refl
      where
        digits-free : Lacks b'$' hash_name
        digits-free = ground arith

    verify-format_hash :
        (n : ℕ) (salt dk attempt : Bytes)
        → suc n < 9223372036854775808
        → verify_password c (format_hash c (suc n) (encode salt) dk) attempt
          ≡ same_bytes (pbkdf2_sha256 c attempt salt (suc n) (length dk)) dk
    unfolding verify_password verify_parts verify_iters compare_hash text_eq
    verify-format_hash n salt dk attempt h =
        rw (split-format_hash (suc n) salt dk, atoi-itoa (suc n) h, whole salt, whole dk) refl

    format_hash-hash_password :
        (salt password : Bytes)
        → 10 ≤ length password
        → hash_password c (ok salt) password
          ≡ ok (
              format_hash c password_hash_iters
                (encode salt)
                (pbkdf2_sha256 c password salt password_hash_iters 32))
    unfolding hash_password hash_with random_token
    format_hash-hash_password salt password h =
        let long : ltb (length password) password_min_length ≡ false = ground arith in
        rw (long, whole salt, hash_with) refl

    -- If base64 decodes what it encodes and its texts hold no `$`: for a password of at least ten
    -- bytes and any salt there is a stored hash, which verifies that password, and which verifies
    -- another exactly when both have the same derived key of 32 bytes.
    pub hash_password-verify_password :
        (salt password : Bytes)
        → 10 ≤ length password
        → (stored : Text) × (hash_password c (ok salt) password ≡ ok stored)
          × (verify_password c stored password ≡ true)
          × ((attempt : Bytes)
              → verify_password c stored attempt
                ≡ same_bytes
                    (pbkdf2_sha256 c attempt salt password_hash_iters 32)
                    (pbkdf2_sha256 c password salt password_hash_iters 32))
    hash_password-verify_password salt password h = (
      format_hash c password_hash_iters (encode salt) key,
      format_hash-hash_password salt password h,
      (verdict password ∙ same_bytes_refl key),
      verdict,
    )
      where
        key : Bytes
        key = pbkdf2_sha256 c password salt password_hash_iters 32

        verdict :
            (attempt : Bytes)
            → verify_password c (format_hash c password_hash_iters (encode salt) key) attempt
              ≡ same_bytes (pbkdf2_sha256 c attempt salt password_hash_iters 32) key
        verdict attempt =
            verify-format_hash 209999 salt key attempt (omega arith)
            ∙ ap (λ n. same_bytes (pbkdf2_sha256 c attempt salt password_hash_iters n) key)
                (length-pbkdf2_sha256 password salt password_hash_iters 32)

-- ===== src/Examples/Logins.antt =====
-- The theorems on internal/api/auth.go at concrete inputs.
use flowguard_lite.Prelude.{
  ℕ, ◌≡◌, ◌≢◌, ◌≤◌, ◌+◌, refl, Bool, true, false, Option, none, some, List, [], ◌∷◌, ◌++◌, arith,
  All, eqb,
}
use flowguard_lite.Prelude.Text.{Text, codes, text_keys, text_eq}
use flowguard_lite.Prelude.Clock.{Time}
use flowguard_lite.Prelude.Bytes.{
  Byte, Bytes, zeros, same_bytes, same_byte, copy, take, put_uint32, byte_of,
}
use flowguard_lite.Prelude.Split.{Lacks, split}
use flowguard_lite.Prelude.Atoi.{atoi, read_digits, all_digits}
use flowguard_lite.Prelude.Decimal.{value}
use flowguard_lite.Flow.{is_empty}
use flowguard_lite.Auth.{Server, Request, Outside}
use flowguard_lite.Auth.Limits.{limit_window}
use flowguard_lite.Auth.Limits.Counting.{within, run_attempts, run_attempts-bounded}
use flowguard_lite.Auth.Sessions.Histories.{
  Event, created, checked, cleared, serve_all, promised, serve_all-promised,
}
use flowguard_lite.Auth.Password.{
  Result, ok, failed, Crypto, hash_password, verify_password, pbkdf2_sha256, verify_parts,
  verify_iters, compare_hash, derive_blocks, derive_block, mix,
}
use flowguard_lite.Auth.Password.RoundTrip.{hash_password-verify_password}
use flowguard_lite.Auth.Access.{
  Call, through_middleware, auth_status, auth_login, IsBarred, run_calls, run_calls-IsBarred,
}
use flowguard_lite.Examples.{laptop, printer, noon}

abbrev attempts : List (Text × Time)
attempts =
    (laptop, 63900000000000000000)
    ∷ (printer, 63900000001000000000)
    ∷ (laptop, 63900000002000000000)
    ∷ (laptop, 63900000003000000000)
    ∷ []

run_attempts-bounded_example :
    within noon (noon + limit_window) (run_attempts laptop attempts [] []).1 ≤ 10
run_attempts-bounded_example = run_attempts-bounded laptop attempts (ground arith) noon

abbrev visits : List (Time × Event)
visits =
    (63900000000000000000, created (codes "t1"))
    ∷ (63900043200000000000, checked (some (codes "t1")))
    ∷ (63900043200000000001, checked (some (codes "t1")))
    ∷ (63900043200000000002, cleared (some (codes "t1")))
    ∷ (63900043200000000003, checked none)
    ∷ []

serve_all-promised_example : serve_all visits [] ≡ promised visits []
serve_all-promised_example = serve_all-promised visits (ground arith)

-- Bits as digits, in place of base64.
abbrev digit : Bool → ℕ
digit true = b'1'
digit false = b'0'

unfoldable encode_bits : Bytes → Text
encode_bits [] = []
encode_bits (b ∷ bs) =
    digit b.b7
    ∷ digit b.b6
    ∷ digit b.b5
    ∷ digit b.b4
    ∷ digit b.b3
    ∷ digit b.b2
    ∷ digit b.b1
    ∷ digit b.b0
    ∷ encode_bits bs

abbrev read_byte : Byte → Result Bytes → Result Bytes
read_byte b (failed e) = failed e
read_byte b (ok bs) = ok (b ∷ bs)

unfoldable decode_bits : Text → Result Bytes
decode_bits (s7 ∷ s6 ∷ s5 ∷ s4 ∷ s3 ∷ s2 ∷ s1 ∷ s0 ∷ s) =
    read_byte
      (record {
        b7 = eqb s7 b'1';
        b6 = eqb s6 b'1';
        b5 = eqb s5 b'1';
        b4 = eqb s4 b'1';
        b3 = eqb s3 b'1';
        b2 = eqb s2 b'1';
        b1 = eqb s1 b'1';
        b0 = eqb s0 b'1';
      })
      (decode_bits s)
decode_bits _ = ok []

-- The key stands for its own digest.
abbrev toy : Crypto
toy = record { hmac = λ key message. key ++ message; encode = encode_bits; decode = decode_bits }

digit_lem : (b : Bool) → eqb (digit b) b'1' ≡ b
digit_lem true = refl
digit_lem false = refl

decode_bits-encode_bits : (bs : Bytes) → decode_bits (encode_bits bs) ≡ ok bs
unfolding decode_bits encode_bits
decode_bits-encode_bits [] = refl
decode_bits-encode_bits (b ∷ bs) =
    rw
      (
        digit_lem b.b7,
        digit_lem b.b6,
        digit_lem b.b5,
        digit_lem b.b4,
        digit_lem b.b3,
        digit_lem b.b2,
        digit_lem b.b1,
        digit_lem b.b0,
        decode_bits-encode_bits bs,
      )
      refl

digit-ne : (b : Bool) → digit b ≢ b'$'
digit-ne true = ground arith
digit-ne false = ground arith

encode_bits-Lacks : (bs : Bytes) → Lacks b'$' (encode_bits bs)
unfolding encode_bits
encode_bits-Lacks [] = tt
encode_bits-Lacks (b ∷ bs) = (
  digit-ne b.b7,
  (
    digit-ne b.b6,
    (
      digit-ne b.b5,
      (
        digit-ne b.b4,
        (digit-ne b.b3, (digit-ne b.b2, (digit-ne b.b1, (digit-ne b.b0, encode_bits-Lacks bs)))),
      ),
    ),
  ),
)

abbrev salt : Bytes
salt = zeros 16

abbrev secret : Bytes
secret = zeros 12

hash_password-verify_password_example :
    (stored : Text) × (hash_password toy (ok salt) secret ≡ ok stored)
    × (verify_password toy stored secret ≡ true)
    × ((attempt : Bytes)
        → verify_password toy stored attempt
          ≡ same_bytes
              (pbkdf2_sha256 toy attempt salt 210000 32)
              (pbkdf2_sha256 toy secret salt 210000 32))
hash_password-verify_password_example =
    hash_password-verify_password toy decode_bits-encode_bits encode_bits-Lacks salt secret
      (unfold zeros in omega arith)

-- One block of one round.
abbrev stored_hash : Text
stored_hash = codes "pbkdf2-sha256$1$00000000$11111111"

abbrev server : Server
server = record {
  admin_password_hash = stored_hash;
  first_run_completed = true;
  session_secret = codes "s";
  sessions = [];
  login_attempts = [];
}

abbrev request : Text → Option Bytes → Request
request path body = record {
  is_post = true;
  is_get = true;
  path = path;
  cookie = some (codes "t1");
  remote_addr = laptop;
  body = body;
  tls = true;
  forwarded_proto = [];
}

abbrev outside : Outside
outside = record {
  now = noon;
  salt_bytes = ok [];
  secret_bytes = ok [];
  token_bytes = ok [];
  saved = true;
}

abbrev calls : List Call
calls =
    through_middleware noon (request (codes "/api/flows") none)
    ∷ auth_login outside (request (codes "/api/auth/login") (some []))
    ∷ auth_status noon (request (codes "/api/auth/status") none)
    ∷ []

wrong_empty : verify_password toy stored_hash [] ≡ false
unfolding verify_password verify_parts verify_iters compare_hash pbkdf2_sha256 derive_blocks
    derive_block mix split atoi read_digits all_digits value text_eq same_bytes same_byte zeros copy
    take put_uint32 byte_of decode_bits
wrong_empty = refl

wrong_key :
    (password : Bytes) → some [] ≡ some password → verify_password toy stored_hash password ≡ false
wrong_key password e = let same : [] ≡ password = cc in rw (← same) wrong_empty

run_calls-IsBarred_example : All (IsBarred toy some) (run_calls toy some calls server)
unfolding is_empty
run_calls-IsBarred_example =
    run_calls-IsBarred toy some stored_hash refl calls server refl refl (tt, (wrong_key, (tt, tt)))

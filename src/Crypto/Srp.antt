-- ===== src/Crypto/Srp.antt =====
-- crypto/srp.go. SHA-256 and PBKDF2 are parameters, and so are the random bytes. A `big.Int` is a
-- natural number, as the generator is not negative; bytes are numbers below 256.
pub mod Modular
pub mod Encoding
pub mod Agreement
mod Tests
use Prim.Native.Nat.{bit_xor}
use telegram_mcub_go.Base.{
  ℕ, zero, suc, ◌+◌, ◌-◌, ◌*◌, ◌/◌, ◌%◌, ◌^◌, List, [], ◌∷◌, ◌++◌, Bool, true, false, ◌&&◌, not,
  Option, none, some, length, replicate, ltb, leb, ◌==◌, if◌then◌else◌,
}

abbrev pub Bytes : Type 0
Bytes = List ℕ

abbrev pub size_for_hash : ℕ
size_for_hash = 256

pub record SrpParams : Type 0 where
  pub salt1 : Bytes
  pub salt2 : Bytes
  pub g : ℕ
  pub p : Bytes
  pub srp_b : Bytes

pub record SrpAnswer : Type 0 where
  pub a : Bytes
  pub m1 : Bytes

-- `new(big.Int).SetBytes`, most significant byte first.
set_bytes_from : ℕ → Bytes → ℕ
set_bytes_from n [] = n
set_bytes_from n (b ∷ bytes) = set_bytes_from (n * 256 + b) bytes

pub set_bytes : Bytes → ℕ
set_bytes bytes = set_bytes_from 0 bytes

-- `n.Bytes()`: no leading zeros. The number is fuel enough.
bytes_from : ℕ → ℕ → Bytes
bytes_from zero n = []
bytes_from (suc fuel) zero = []
bytes_from (suc fuel) (suc n) = bytes_from fuel (suc n / 256) ++ suc n % 256 ∷ []

pub bytes_of : ℕ → Bytes
bytes_of n = bytes_from n n

-- `n.BitLen()`
bit_len_from : ℕ → ℕ → ℕ
bit_len_from zero n = 0
bit_len_from (suc fuel) zero = 0
bit_len_from (suc fuel) (suc n) = suc (bit_len_from fuel (suc n / 2))

pub bit_len : ℕ → ℕ
bit_len n = bit_len_from n n

pub num_bytes_for_hash : Bytes → Bytes
num_bytes_for_hash b =
    if leb size_for_hash (length b) then b else replicate (size_for_hash - length b) 0 ++ b

pub big_num_for_hash : ℕ → Bytes
big_num_for_hash n = num_bytes_for_hash (bytes_of n)

pub xor_bytes : Bytes → Bytes → Bytes
xor_bytes [] b = []
xor_bytes (x ∷ a) [] = []
xor_bytes (x ∷ a) (y ∷ b) = bit_xor x y ∷ xor_bytes a b

pub is_good_large : ℕ → ℕ → Bool
is_good_large number p = if number == 0 then false else ltb number p

abbrev min_diff_bits : ℕ
min_diff_bits = 2048 - 64

pub is_good_mod_exp_first : ℕ → ℕ → Bool
is_good_mod_exp_first modexp prime =
    if ltb prime modexp
    then false
    else if ltb (bit_len (prime - modexp)) min_diff_bits
    then false
    else if ltb (bit_len modexp) min_diff_bits
    then false
    else not (ltb 256 ((bit_len modexp + 7) / 8))

-- `Exp(g, e, p)` for a modulus that is not zero.
pub exp : ℕ → ℕ → ℕ → ℕ
exp g e p = g ^ e % p

-- `Sub(b, c)` and then `Mod(·, p)`, which is not negative, for c < p.
pub sub_mod : ℕ → ℕ → ℕ → ℕ
sub_mod b c p = (b + (p - c)) % p

pub data SrpResult : Type 0 where
  answer : SrpAnswer → SrpResult
  bad_srp_b : SrpResult
  rand_error : SrpResult
  bad_g_b : SrpResult

join : List Bytes → Bytes
join [] = []
join (d ∷ rest) = d ++ join rest

module _ (sha256 : Bytes → Bytes) (pbkdf2_sha512 : Bytes → Bytes → ℕ → Bytes) where
  -- `h.Write` of each slice is SHA-256 of the slices joined.
  pub hash_concat : List Bytes → Bytes
  hash_concat slices = sha256 (join slices)

  pub sh : Bytes → Bytes → Bytes
  sh bytes salt = hash_concat (salt ∷ bytes ∷ salt ∷ [])

  pub ph1 : Bytes → Bytes → Bytes → Bytes
  ph1 password salt1 salt2 = sh (sh password salt1) salt2

  pub ph2 : Bytes → Bytes → Bytes → Bytes
  ph2 password salt1 salt2 = sh (pbkdf2_sha512 (ph1 password salt1 salt2) salt1 100000) salt2

  module _ (password : Bytes) (params : SrpParams) where
    abbrev pub prime : ℕ
    prime = set_bytes params.p

    abbrev pub big_b : ℕ
    big_b = set_bytes params.srp_b

    abbrev pub p_for_hash : Bytes
    p_for_hash = num_bytes_for_hash params.p

    abbrev pub g_for_hash : Bytes
    g_for_hash = big_num_for_hash params.g

    abbrev pub b_for_hash : Bytes
    b_for_hash = num_bytes_for_hash params.srp_b

    abbrev pub secret_x : ℕ
    secret_x = set_bytes (ph2 password params.salt1 params.salt2)

    abbrev pub multiplier_k : ℕ
    multiplier_k = set_bytes (hash_concat (p_for_hash ∷ g_for_hash ∷ []))

    abbrev pub g_x : ℕ
    g_x = exp params.g secret_x prime

    abbrev pub kg_x : ℕ
    kg_x = multiplier_k * g_x % prime

    abbrev pub g_b : ℕ
    g_b = sub_mod big_b kg_x prime

    abbrev pub scrambler_u : Bytes → ℕ
    scrambler_u a_for_hash = set_bytes (hash_concat (a_for_hash ∷ b_for_hash ∷ []))

    -- H(xor(H(p), H(g)), H(salt1), H(salt2), A, B, K)
    abbrev pub proof_of : Bytes → Bytes → Bytes
    proof_of a_for_hash key = hash_concat (
        xor_bytes (hash_concat (p_for_hash ∷ [])) (hash_concat (g_for_hash ∷ []))
        ∷ hash_concat (params.salt1 ∷ [])
        ∷ hash_concat (params.salt2 ∷ [])
        ∷ a_for_hash
        ∷ b_for_hash
        ∷ key
        ∷ [])

    -- What follows the loop, for the secret a that it chose.
    pub finish : ℕ → SrpResult
    finish a =
        let a_for_hash = big_num_for_hash (exp params.g a prime) in
        let s = exp g_b (a + scrambler_u a_for_hash * secret_x) prime in
        if not (is_good_mod_exp_first g_b prime)
        then bad_g_b
        else answer (record {
          a = a_for_hash;
          m1 = proof_of a_for_hash (hash_concat (big_num_for_hash s ∷ []));
        })

    -- The guards of the loop on a random secret.
    pub is_good_secret : ℕ → Bool
    is_good_secret a =
        is_good_mod_exp_first (exp params.g a prime) prime
        && ltb 0 (scrambler_u (big_num_for_hash (exp params.g a prime)))

    -- The loop on the results of rand.Read, of which none is an error; without a result it waits for
    -- one.
    pub choose : List (Option Bytes) → Option SrpResult
    choose [] = none
    choose (none ∷ draws) = some rand_error
    choose (some rand_bytes ∷ draws) =
        let again = choose draws in
        if is_good_secret (set_bytes rand_bytes)
        then some (finish (set_bytes rand_bytes))
        else again

    pub compute_srp_answer : List (Option Bytes) → Option SrpResult
    compute_srp_answer draws =
        if not (is_good_large big_b prime) then some bad_srp_b else choose draws

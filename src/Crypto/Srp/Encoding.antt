-- ===== src/Crypto/Srp/Encoding.antt =====
-- Numbers as bytes and back, of crypto/srp.go.
use native.Mathlib.Nat.{mod-add-div, div-lt_self, pow-suc, div-lt_iff_lt-mul}
use telegram_mcub_go.Base.{
  ℕ, zero, suc, ◌+◌, ◌-◌, ◌*◌, ◌%◌, ◌/◌, ◌^◌, ◌≤◌, ◌<◌, ◌≡◌, refl, ◌∙◌, arith, [], ◌∷◌, ◌++◌,
  length, replicate, leb, length-append, length-replicate, Bool-cases, inl, inr, leb→le,
}
use telegram_mcub_go.Crypto.Srp.{
  Bytes, set_bytes_from, set_bytes, bytes_from, bytes_of, num_bytes_for_hash, big_num_for_hash,
}

set_bytes_from-append :
    (n : ℕ) (xs ys : Bytes) → set_bytes_from n (xs ++ ys) ≡ set_bytes_from (set_bytes_from n xs) ys
unfolding set_bytes_from
set_bytes_from-append n [] ys = refl
set_bytes_from-append n (x ∷ xs) ys = set_bytes_from-append (n * 256 + x) xs ys

set_bytes_from-bytes_from : (fuel n : ℕ) → n ≤ fuel → set_bytes_from 0 (bytes_from fuel n) ≡ n
unfolding set_bytes_from bytes_from
set_bytes_from-bytes_from zero n h = omega arith
set_bytes_from-bytes_from (suc fuel) zero h = refl
set_bytes_from-bytes_from (suc fuel) (suc n) h =
    let smaller = div-lt_self {n = suc n} {k = 256} (omega arith) (omega arith) in
    set_bytes_from-append 0 (bytes_from fuel (suc n / 256)) _
    ∙ rw (set_bytes_from-bytes_from fuel (suc n / 256) (omega arith))
        (let split = mod-add-div (suc n) 256 in omega arith)

set_bytes-padding : (k : ℕ) (b : Bytes) → set_bytes_from 0 (replicate k 0 ++ b) ≡ set_bytes_from 0 b
unfolding set_bytes_from
set_bytes-padding zero b = refl
set_bytes-padding (suc k) b = set_bytes-padding k b

length-bytes_from : (fuel n k : ℕ) → n < 256 ^ k → length (bytes_from fuel n) ≤ k
unfolding bytes_from
length-bytes_from zero n k h = omega arith
length-bytes_from (suc fuel) zero k h = omega arith
length-bytes_from (suc fuel) (suc n) zero h = absurd (omega arith)
length-bytes_from (suc fuel) (suc n) (suc k) h =
    rw (length-append (bytes_from fuel (suc n / 256)) (suc n % 256 ∷ [])) (
      let shorter = length-bytes_from fuel (suc n / 256) k (
        (div-lt_iff_lt-mul {k = 256} {x = suc n} {y = 256 ^ k} (omega arith)).1
          (rw (pow-suc 256 k) at h)) in
      omega arith)

pub set_bytes-num_bytes_for_hash : (b : Bytes) → set_bytes (num_bytes_for_hash b) ≡ set_bytes b
unfolding set_bytes num_bytes_for_hash
set_bytes-num_bytes_for_hash b = elim (Bool-cases (leb 256 (length b))) [
  | inl long ↦ rw long refl
  | inr short ↦ rw short (set_bytes-padding (256 - length b) b)
]

pub length-num_bytes_for_hash : (b : Bytes) → length b ≤ 256 → length (num_bytes_for_hash b) ≡ 256
unfolding num_bytes_for_hash
length-num_bytes_for_hash b h = elim (Bool-cases (leb 256 (length b))) [
  | inl long ↦ rw long (let k = leb→le 256 (length b) long in omega arith)
  | inr short ↦
      rw
        (
          short,
          length-append (replicate (256 - length b) 0) b,
          length-replicate {A = ℕ} (256 - length b) 0,
        )
        (omega arith)
]

pub set_bytes-big_num_for_hash : (n : ℕ) → set_bytes (big_num_for_hash n) ≡ n
unfolding big_num_for_hash set_bytes bytes_of
set_bytes-big_num_for_hash n =
    set_bytes-num_bytes_for_hash (bytes_of n) ∙ set_bytes_from-bytes_from n n (omega arith)

-- A number below 256 ^ 256 is encoded in exactly 256 bytes, which decode to the number.
pub big_num_for_hash-lossless :
    (n : ℕ)
    → n < 256 ^ 256
    → (length (big_num_for_hash n) ≡ 256) × (set_bytes (big_num_for_hash n) ≡ n)
unfolding big_num_for_hash bytes_of
big_num_for_hash-lossless n h = (
  length-num_bytes_for_hash (bytes_of n) (length-bytes_from n n 256 h),
  set_bytes-big_num_for_hash n,
)

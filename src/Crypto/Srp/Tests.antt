-- ===== src/Crypto/Srp/Tests.antt =====
-- A run of SRP with a modulus of 2048 bits, the generator 2 and a hash that is always 1.
use telegram_mcub_go.Base.{ℕ, ◌-◌, ◌^◌, ◌≡◌, refl, [], ◌∷◌, ◌++◌, map, some}
use telegram_mcub_go.Crypto.Srp.{
  Bytes, SrpParams, set_bytes, set_bytes_from, bytes_of, bytes_from, big_num_for_hash,
  num_bytes_for_hash, exp, answer, compute_srp_answer, prime, is_good_large, is_good_mod_exp_first,
  is_good_secret, bit_len, bit_len_from, sub_mod, hash_concat, join, sh, ph1, ph2,
}
use telegram_mcub_go.Crypto.Srp.Encoding.{set_bytes-big_num_for_hash}
use telegram_mcub_go.Crypto.Srp.Agreement.{
  IsAccepted, server_public, compute_srp_answer-IsAccepted, compute_srp_answer-answers,
}

abbrev hash : Bytes → Bytes
hash bytes = 1 ∷ []

abbrev stretch : Bytes → Bytes → ℕ → Bytes
stretch password salt iterations = 2 ∷ []

abbrev password : Bytes
password = 0x61 ∷ []

abbrev unsent : SrpParams
unsent = record {
  salt1 = 3 ∷ [];
  salt2 = 4 ∷ [];
  g = 2;
  p = big_num_for_hash (2 ^ 2048 - 1942289);
  srp_b = [];
}

abbrev received : SrpParams
received = record unsent {
  srp_b = big_num_for_hash (server_public hash stretch password unsent 2000);
}

-- 2000 as two bytes.
abbrev rand_bytes : Bytes
rand_bytes = 7 ∷ 208 ∷ []

compute_srp_answer-IsAccepted_example :
    IsAccepted hash stretch password received 2000
      (compute_srp_answer hash stretch password received (some (0 ∷ []) ∷ some rand_bytes ∷ []))
compute_srp_answer-IsAccepted_example =
    compute_srp_answer-IsAccepted hash stretch password received 2000
      (some (0 ∷ []) ∷ some rand_bytes ∷ [])
      (set_bytes-big_num_for_hash (server_public hash stretch password unsent 2000))

compute_srp_answer-answers_example :
    (m1 : Bytes) × (compute_srp_answer hash stretch password received
        (map some ((0 ∷ []) ∷ []) ++ some rand_bytes ∷ [])
      ≡ some (
          answer (record {
            a =
                big_num_for_hash
                  (exp 2 (set_bytes rand_bytes) (prime hash stretch password received));
            m1 = m1;
          })))
unfolding is_good_large is_good_mod_exp_first is_good_secret bit_len bit_len_from sub_mod
    hash_concat join sh ph1 ph2 exp set_bytes set_bytes_from bytes_of bytes_from big_num_for_hash
    num_bytes_for_hash
compute_srp_answer-answers_example =
    compute_srp_answer-answers hash stretch password received ((0 ∷ []) ∷ []) rand_bytes [] refl
      refl (refl, tt) refl

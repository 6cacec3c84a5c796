-- ===== src/Crypto/Srp/Agreement.antt =====
-- The client's answer of crypto/srp.go against the server's side of SRP, as MTProto documents it.
use telegram_mcub_go.Base.{
  ℕ, ◌+◌, ◌*◌, ◌%◌, ◌^◌, ◌≤◌, ◌≡◌, refl, sym, ap, ◌∙◌, arith, List, [], ◌∷◌, ◌++◌, true, false,
  Option, none, some, Bool-cases, inl, inr, All, map,
}
use telegram_mcub_go.Crypto.Srp.Modular.{shared_secret}
use telegram_mcub_go.Crypto.Srp.Encoding.{set_bytes-big_num_for_hash}
use telegram_mcub_go.Crypto.Srp.{
  Bytes, SrpParams, SrpResult, answer, bad_srp_b, rand_error, bad_g_b, set_bytes, big_num_for_hash,
  exp, sub_mod, hash_concat, is_good_large, is_good_mod_exp_first, prime, big_b, secret_x,
  multiplier_k, g_x, kg_x, g_b, scrambler_u, proof_of, finish, is_good_secret, choose,
  compute_srp_answer,
}

module _ (sha256 : Bytes → Bytes) (pbkdf2_sha512 : Bytes → Bytes → ℕ → Bytes) (password : Bytes)
    (params : SrpParams) where
  -- The server knows the verifier v = g^x mod p. Of its secret b it sends B = k * v + g^b mod p.
  abbrev pub verifier : ℕ
  verifier = g_x sha256 pbkdf2_sha512 password params

  abbrev pub server_public : ℕ → ℕ
  server_public b =
      (multiplier_k sha256 pbkdf2_sha512 password params * verifier + params.g ^ b)
      % prime sha256 pbkdf2_sha512 password params

  abbrev public_a : ℕ → Bytes
  public_a a = big_num_for_hash (exp params.g a (prime sha256 pbkdf2_sha512 password params))

  -- S = (A * v^u)^b mod p, and the proof made of it.
  abbrev pub server_secret : ℕ → Bytes → ℕ
  server_secret b a_bytes =
      (set_bytes a_bytes * verifier ^ scrambler_u sha256 pbkdf2_sha512 password params a_bytes) ^ b
      % prime sha256 pbkdf2_sha512 password params

  abbrev pub server_proof : ℕ → Bytes → Bytes
  server_proof b a_bytes =
      proof_of sha256 pbkdf2_sha512 password params a_bytes
        (hash_concat sha256 pbkdf2_sha512 (big_num_for_hash (server_secret b a_bytes) ∷ []))

  -- What the server checks of a result that holds an answer.
  abbrev pub IsAccepted : ℕ → Option SrpResult → Type 0
  IsAccepted b none = Unit
  IsAccepted b (some (answer r)) = r.m1 ≡ server_proof b r.a
  IsAccepted b (some bad_srp_b) = Unit
  IsAccepted b (some rand_error) = Unit
  IsAccepted b (some bad_g_b) = Unit

  secrets-agree :
      (a b : ℕ)
      → 1 ≤ prime sha256 pbkdf2_sha512 password params
      → big_b sha256 pbkdf2_sha512 password params ≡ server_public b
      → exp
          (g_b sha256 pbkdf2_sha512 password params)
          (a
            + scrambler_u sha256 pbkdf2_sha512 password params (public_a a)
              * secret_x sha256 pbkdf2_sha512 password params)
          (prime sha256 pbkdf2_sha512 password params)
        ≡ server_secret b (public_a a)
  unfolding exp sub_mod
  secrets-agree a b h sent =
      ap
        (λ received.
          exp
            (sub_mod received (kg_x sha256 pbkdf2_sha512 password params)
              (prime sha256 pbkdf2_sha512 password params))
            (a
              + scrambler_u sha256 pbkdf2_sha512 password params (public_a a)
                * secret_x sha256 pbkdf2_sha512 password params)
            (prime sha256 pbkdf2_sha512 password params))
        sent
      ∙ shared_secret (prime sha256 pbkdf2_sha512 password params) params.g
          (multiplier_k sha256 pbkdf2_sha512 password params)
          (secret_x sha256 pbkdf2_sha512 password params) a b
          (scrambler_u sha256 pbkdf2_sha512 password params (public_a a)) h
      ∙ ap
          (λ received.
            (received * verifier ^ scrambler_u sha256 pbkdf2_sha512 password params (public_a a))
              ^ b
            % prime sha256 pbkdf2_sha512 password params)
          (sym (
            set_bytes-big_num_for_hash
              (exp params.g a (prime sha256 pbkdf2_sha512 password params))))

  finish-IsAccepted :
      (a b : ℕ)
      → 1 ≤ prime sha256 pbkdf2_sha512 password params
      → big_b sha256 pbkdf2_sha512 password params ≡ server_public b
      → IsAccepted b (some (finish sha256 pbkdf2_sha512 password params a))
  unfolding finish exp sub_mod
  finish-IsAccepted a b h sent =
      elim (Bool-cases (
        is_good_mod_exp_first (g_b sha256 pbkdf2_sha512 password params)
          (prime sha256 pbkdf2_sha512 password params))) [
            | inl good ↦ rw good (
                ap
                  (λ s.
                    proof_of sha256 pbkdf2_sha512 password params (public_a a)
                      (hash_concat sha256 pbkdf2_sha512 (big_num_for_hash s ∷ [])))
                  (secrets-agree a b h sent))
            | inr bad ↦ rw bad tt
          ]

  choose-IsAccepted :
      (b : ℕ) (draws : List (Option Bytes))
      → 1 ≤ prime sha256 pbkdf2_sha512 password params
      → big_b sha256 pbkdf2_sha512 password params ≡ server_public b
      → IsAccepted b (choose sha256 pbkdf2_sha512 password params draws)
  unfolding choose
  choose-IsAccepted b [] h sent = tt
  choose-IsAccepted b (none ∷ draws) h sent = tt
  choose-IsAccepted b (some rand_bytes ∷ draws) h sent =
      elim (Bool-cases
        (is_good_secret sha256 pbkdf2_sha512 password params (set_bytes rand_bytes))) [
          | inl good ↦ rw good (finish-IsAccepted (set_bytes rand_bytes) b h sent)
          | inr bad ↦ rw bad (choose-IsAccepted b draws h sent)
        ]

  is_good_large-positive : (n p : ℕ) → is_good_large n p ≡ true → 1 ≤ p
  unfolding is_good_large
  is_good_large-positive n p h = ground arith

  -- If the server sent B = k * v + g^b mod p, for the verifier v of this password and a secret b, then
  -- an answer that ComputeSRPAnswer gives, whatever the random bytes, holds the very proof that the
  -- server computes from A and b.
  pub compute_srp_answer-IsAccepted :
      (b : ℕ) (draws : List (Option Bytes))
      → big_b sha256 pbkdf2_sha512 password params ≡ server_public b
      → IsAccepted b (compute_srp_answer sha256 pbkdf2_sha512 password params draws)
  unfolding compute_srp_answer
  compute_srp_answer-IsAccepted b draws sent =
      elim (Bool-cases (
        is_good_large (big_b sha256 pbkdf2_sha512 password params)
          (prime sha256 pbkdf2_sha512 password params))) [
            | inl good ↦ rw good (choose-IsAccepted b draws (is_good_large-positive _ _ good) sent)
            | inr bad ↦ rw bad tt
          ]

  choose-skips :
      (refused : List Bytes) (draws : List (Option Bytes))
      → All
          (λ bytes. is_good_secret sha256 pbkdf2_sha512 password params (set_bytes bytes) ≡ false)
          refused
      → choose sha256 pbkdf2_sha512 password params (map some refused ++ draws)
        ≡ choose sha256 pbkdf2_sha512 password params draws
  unfolding choose
  choose-skips [] draws all_refused = refl
  choose-skips (bytes ∷ refused) draws (t, all_refused) =
      rw t (choose-skips refused draws all_refused)

  finish-answers :
      (a : ℕ)
      → is_good_mod_exp_first
          (g_b sha256 pbkdf2_sha512 password params)
          (prime sha256 pbkdf2_sha512 password params)
        ≡ true
      → (m1 : Bytes) × (finish sha256 pbkdf2_sha512 password params a
          ≡ answer (record { a = public_a a; m1 = m1 }))
  unfolding finish
  finish-answers a h = (
    proof_of sha256 pbkdf2_sha512 password params (public_a a) (
        hash_concat sha256 pbkdf2_sha512 (
          big_num_for_hash (
            exp (g_b sha256 pbkdf2_sha512 password params)
              (a
                + scrambler_u sha256 pbkdf2_sha512 password params (public_a a)
                  * secret_x sha256 pbkdf2_sha512 password params)
              (prime sha256 pbkdf2_sha512 password params))
          ∷ [])),
    rw h refl,
  )

  -- When the server's number and g_b are in range, ComputeSRPAnswer skips the random secrets that its
  -- guards refuse and answers with A = g^a mod p for the first one, a, that they accept.
  pub compute_srp_answer-answers :
      (refused : List Bytes) (rand_bytes : Bytes) (draws : List (Option Bytes))
      → is_good_large
          (big_b sha256 pbkdf2_sha512 password params)
          (prime sha256 pbkdf2_sha512 password params)
        ≡ true
      → is_good_mod_exp_first
          (g_b sha256 pbkdf2_sha512 password params)
          (prime sha256 pbkdf2_sha512 password params)
        ≡ true
      → All
          (λ bytes. is_good_secret sha256 pbkdf2_sha512 password params (set_bytes bytes) ≡ false)
          refused
      → is_good_secret sha256 pbkdf2_sha512 password params (set_bytes rand_bytes) ≡ true
      → (m1 : Bytes) × (compute_srp_answer sha256 pbkdf2_sha512 password params
            (map some refused ++ some rand_bytes ∷ draws)
          ≡ some (
              answer (record {
                a = big_num_for_hash (
                    exp params.g
                      (set_bytes rand_bytes)
                      (prime sha256 pbkdf2_sha512 password params));
                m1 = m1;
              })))
  unfolding compute_srp_answer choose finish
  compute_srp_answer-answers refused rand_bytes draws h k all_refused good =
      let (m1, e) = finish-answers (set_bytes rand_bytes) k in
      (m1, rw (h, choose-skips refused (some rand_bytes ∷ draws) all_refused, good) (ap some e))

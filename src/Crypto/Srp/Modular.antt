-- ===== src/Crypto/Srp/Modular.antt =====
-- Residues and powers, for the arithmetic of crypto/srp.go.
use native.Mathlib.Nat.{
  mod-add-div, mod-mod, mod-add-mod, add-mul-mod_self_right, pow-suc, pow-zero, mod-lt, mul_comm,
  mul-one, mul_assoc, mul-suc, mul-zero, add-zero, add-suc,
}
use telegram_mcub_go.Base.{
  ℕ, zero, suc, ◌+◌, ◌-◌, ◌*◌, ◌%◌, ◌/◌, ◌^◌, ◌≤◌, ◌≡◌, refl, sym, ap, ◌∙◌, arith,
}

mul-mod_left : (a b p : ℕ) → a % p * b % p ≡ a * b % p
mul-mod_left a b p =
    sym (add-mul-mod_self_right (a % p * b) (a / p * b) p)
    ∙ ap (λ (n : ℕ). n % p) (omega (arith, ap (λ (n : ℕ). n * b) (mod-add-div a p)))

pub mul_congruent : (p a b c d : ℕ) → a % p ≡ b % p → c % p ≡ d % p → a * c % p ≡ b * d % p
mul_congruent p a b c d e f =
    sym (mul-mod_left a c p)
    ∙ ap (λ (n : ℕ). n * c % p) e
    ∙ mul-mod_left b c p
    ∙ ap (λ (n : ℕ). n % p) (mul_comm b c)
    ∙ sym (mul-mod_left c b p)
    ∙ ap (λ (n : ℕ). n * b % p) f
    ∙ mul-mod_left d b p
    ∙ ap (λ (n : ℕ). n % p) (mul_comm d b)

pub pow_congruent : (p a b n : ℕ) → a % p ≡ b % p → a ^ n % p ≡ b ^ n % p
pow_congruent p a b zero e = rw (pow-zero a, pow-zero b) refl
pow_congruent p a b (suc n) e =
    rw (pow-suc a n, pow-suc b n) (mul_congruent p (a ^ n) (b ^ n) a b (pow_congruent p a b n e) e)

pub pow_add : (a m n : ℕ) → a ^ (m + n) ≡ a ^ m * a ^ n
pow_add a m zero = rw (pow-zero a, add-zero m) (sym (mul-one (a ^ m)))
pow_add a m (suc n) =
    rw (add-suc m n, pow-suc a (m + n), pow-suc a n, pow_add a m n) (mul_assoc (a ^ m) (a ^ n) a)

pub pow_mul : (a m n : ℕ) → (a ^ m) ^ n ≡ a ^ (m * n)
pow_mul a m zero = rw (pow-zero (a ^ m), mul-zero m, pow-zero a) refl
pow_mul a m (suc n) = rw (pow-suc (a ^ m) n, mul-suc m n, pow_add a (m * n) m, pow_mul a m n) refl

pub mul_pow : (a b n : ℕ) → (a * b) ^ n ≡ a ^ n * b ^ n
mul_pow a b zero = rw (pow-zero (a * b), pow-zero a, pow-zero b) refl
mul_pow a b (suc n) = rw (pow-suc (a * b) n, pow-suc a n, pow-suc b n, mul_pow a b n) (omega arith)

sub-added_sum : (c d p : ℕ) → 1 ≤ p → c + d + (p - c % p) ≡ d + (c / p + 1) * p
sub-added_sum c d p h = let below = mod-lt c h in let split = mod-add-div c p in omega arith

-- Taking off a residue that was added.
pub sub-added : (c d p : ℕ) → 1 ≤ p → ((c + d) % p + (p - c % p)) % p ≡ d % p
sub-added c d p h =
    mod-add-mod (c + d) p (p - c % p)
    ∙ ap (λ (n : ℕ). n % p) (sub-added_sum c d p h)
    ∙ add-mul-mod_self_right d (c / p + 1) p

shared_power : (g x a b u : ℕ) → (g ^ b) ^ (a + u * x) ≡ (g ^ a * (g ^ x) ^ u) ^ b
shared_power g x a b u =
    pow_mul g b (a + u * x)
    ∙ ap (λ (n : ℕ). g ^ n) {y = (a + x * u) * b} (omega arith)
    ∙ sym (rw (pow_mul g x u, sym (pow_add g a (x * u)), pow_mul g (a + x * u) b) refl)

-- The two sides of SRP, for the verifier v = g^x mod p: the client takes k * v off the server's
-- number and raises it to a + u * x, and the server raises A * v^u to b.
pub shared_secret :
    (p g k x a b u : ℕ)
    → 1 ≤ p
    → (((k * (g ^ x % p) + g ^ b) % p + (p - k * (g ^ x % p) % p)) % p) ^ (a + u * x) % p
      ≡ (g ^ a % p * (g ^ x % p) ^ u) ^ b % p
shared_secret p g k x a b u h =
    pow_congruent p _ (g ^ b) (a + u * x)
      (ap (λ (n : ℕ). n % p) (sub-added (k * (g ^ x % p)) (g ^ b) p h) ∙ mod-mod (g ^ b) p)
    ∙ ap (λ (n : ℕ). n % p) (shared_power g x a b u)
    ∙ sym (
        pow_congruent p (g ^ a % p * (g ^ x % p) ^ u) (g ^ a * (g ^ x) ^ u) b (
          mul_congruent p (g ^ a % p) (g ^ a) ((g ^ x % p) ^ u) ((g ^ x) ^ u) (mod-mod (g ^ a) p)
            (pow_congruent p (g ^ x % p) (g ^ x) u (mod-mod (g ^ x) p))))

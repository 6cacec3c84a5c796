-- ===== src/Client/Retry/Bounds.antt =====
-- How often a request is sent and how long it is waited for, whatever the server answers.
use telegram_mcub_go.Base.{
  ℕ, zero, suc, ◌+◌, ◌≤◌, ◌<◌, ◌≡◌, refl, List, [], ◌∷◌, Option, none, some, arith, length, All, ℤ,
  pos, negsuc, ◌+ℤ◌, ◌≤ℤ◌, ◌<ℤ◌, +ℤ_parts, Option-cases, inl, inr,
}
use telegram_mcub_go.Helpers.Utf16.{Text}
use telegram_mcub_go.Types.Protection.{ProtectionPolicy}
use telegram_mcub_go.Client.FloodWait.{parse_flood_wait}
use telegram_mcub_go.Client.FloodWait.Laws.{parse_flood_wait-pos}
use telegram_mcub_go.Client.Retry.{
  attempt_loop, within_policy, at_least_one, attempts, protection_middleware,
}

-- The surroundings with a record of what the middleware did to them: the number of requests sent
-- and the waits, the last first.
pub record Log (W : Type 0) : Type 0 where
  pub world : W
  pub sent : ℕ
  pub waits : List ℤ

All-Unit : (xs : List ℤ) → All (λ x. Unit {0}) xs
All-Unit [] = tt
All-Unit (x ∷ xs) = (tt, All-Unit xs)

module _ {W : Type 0} (next : W → Option Text × W) (pause : ℤ → W → Option Text × W) where
  pub logged_next : Log W → Option Text × Log W
  logged_next l = ((next l.world).0, record l { world = (next l.world).1; sent = suc l.sent })

  pub logged_pause : ℤ → Log W → Option Text × Log W
  logged_pause secs l =
      ((pause secs l.world).0, record l { world = (pause secs l.world).1; waits = secs ∷ l.waits })

  -- At most `rounds` requests are sent, no more waits than requests are made, and each wait is one
  -- that is tolerated.
  pub record Bounded (P : ℤ → Type 0) (rounds : ℕ) (l l' : Log W) : Type 0 where
    pub sent_most : l'.sent ≤ l.sent + rounds
    pub sent_more : l.sent ≤ l'.sent
    pub waits_most : length l'.waits + l.sent ≤ length l.waits + l'.sent
    pub waits_allowed : All P l'.waits

  sent_once : Log W → Log W
  unfolding logged_next
  sent_once l = (logged_next l).1

  waited : ℤ → Log W → Log W
  unfolding logged_pause sent_once
  waited secs l = (logged_pause secs (sent_once l)).1

  sent_once-Bounded :
      (P : ℤ → Type 0) (rounds : ℕ) (l : Log W)
      → All P l.waits
      → Bounded P (suc rounds) l (sent_once l)
  unfolding sent_once
  sent_once-Bounded P rounds l h = record {
    sent_most = omega arith;
    sent_more = omega arith;
    waits_most = omega arith;
    waits_allowed = h;
  }

  waited-Bounded :
      (P : ℤ → Type 0) (rounds : ℕ) (secs : ℤ) (l l' : Log W)
      → P secs
      → All P l.waits
      → (All P (waited secs l).waits → Bounded P rounds (waited secs l) l')
      → Bounded P (suc rounds) l l'
  unfolding waited
  waited-Bounded P rounds secs l l' p h later =
      let b = later (p, h) in
      record {
        sent_most = omega (arith, b.sent_most);
        sent_more = omega (arith, b.sent_more);
        waits_most = omega (arith, b.waits_most);
        waits_allowed = b.waits_allowed;
      }

  stopped-Bounded : (P : ℤ → Type 0) (rounds : ℕ) (l : Log W) → All P l.waits → Bounded P rounds l l
  stopped-Bounded P rounds l h = record {
    sent_most = omega arith;
    sent_more = omega arith;
    waits_most = omega arith;
    waits_allowed = h;
  }

  attempt_loop-Bounded :
      (P : ℤ → Type 0) (tolerate : Text → Option ℤ)
      → ((err : Text) (secs : ℤ) → tolerate err ≡ some secs → P secs)
      → (rounds : ℕ) (last : Option Text) (l : Log W) → All P l.waits
      → Bounded P rounds l (attempt_loop logged_next logged_pause tolerate rounds last l).1
  unfolding attempt_loop logged_next logged_pause waited
  attempt_loop-Bounded P tolerate good zero last l h = record {
    sent_most = omega arith;
    sent_more = omega arith;
    waits_most = omega arith;
    waits_allowed = h;
  }
  attempt_loop-Bounded P tolerate good (suc rounds) last l h =
      elim (Option-cases (next l.world).0) [
        | inl sent_ok ↦ rw (sent_ok, attempt_loop) (sent_once-Bounded P rounds l h)
        | inr (err, failed) ↦ elim (Option-cases (tolerate err)) [
          | inl given_up ↦ rw (failed, given_up, attempt_loop) (sent_once-Bounded P rounds l h)
          | inr (secs, allowed) ↦
              let wait =
                λ (l' : Log W). waited-Bounded P rounds secs l l' (good err secs allowed) h in
              elim (Option-cases (pause secs (next l.world).1).0) [
                | inl over ↦
                    rw (failed, allowed, over, attempt_loop)
                      (wait _
                        (attempt_loop-Bounded P tolerate good rounds (some err) (waited secs l)))
                | inr (ended, stopped) ↦
                    rw (failed, allowed, stopped, attempt_loop)
                      (wait _ (stopped-Bounded P rounds _))
              ]
        ]
      ]

  attempt_loop-sends :
      (tolerate : Text → Option ℤ) (rounds : ℕ) (last : Option Text) (l : Log W)
      → l.sent < (attempt_loop logged_next logged_pause tolerate (suc rounds) last l).1.sent
  unfolding attempt_loop logged_next logged_pause waited
  attempt_loop-sends tolerate rounds last l = elim (Option-cases (next l.world).0) [
    | inl sent_ok ↦ rw (sent_ok, attempt_loop) (omega arith)
    | inr (err, failed) ↦ elim (Option-cases (tolerate err)) [
      | inl given_up ↦ rw (failed, given_up, attempt_loop) (omega arith)
      | inr (secs, allowed) ↦ elim (Option-cases (pause secs (next l.world).1).0) [
        | inl over ↦
            let b =
              attempt_loop-Bounded (λ s. Unit) tolerate (λ e s h. tt) rounds (some err)
                (waited secs l) (All-Unit (waited secs l).waits) in
            rw (failed, allowed, over, attempt_loop) (omega (arith, b.sent_more))
        | inr (ended, stopped) ↦ rw (failed, allowed, stopped, attempt_loop) (omega arith)
      ]
    ]
  ]

-- A wait that a policy allows: positive, and at most the policy's maximum.
abbrev pub Allowed : ProtectionPolicy → ℤ → Type 0
Allowed policy secs = (pos 0 <ℤ secs) × (secs ≤ℤ policy.max_flood_wait_seconds)

within_policy-Allowed :
    (policy : ProtectionPolicy) (err : Text) (secs : ℤ)
    → within_policy policy err ≡ some secs
    → Allowed policy secs
unfolding within_policy
within_policy-Allowed policy err secs h = elim (Option-cases (parse_flood_wait err)) [
  | inl e ↦ ground arith
  | inr (n, e) ↦ let p = parse_flood_wait-pos err n e in ground arith
]

attempts-suc :
    (policy : ProtectionPolicy) (n : ℕ)
    → policy.retry_count ≤ℤ pos n
    → (k : ℕ) × (attempts policy ≡ suc k) × (k ≤ n)
unfolding attempts at_least_one
attempts-suc policy n h =
    go (policy.retry_count +ℤ pos 1) (omega (arith, +ℤ_parts policy.retry_count (pos 1)))
  where
    go : (z : ℤ) → z ≤ℤ pos (suc n) → (k : ℕ) × (at_least_one z ≡ suc k) × (k ≤ n)
    go (pos zero) h = (0, refl, omega arith)
    go (pos (suc k)) h = (k, refl, omega arith)
    go (negsuc k) h = (0, refl, omega arith)

module _ {W : Type 0} (next : W → Option Text × W) (pause : ℤ → W → Option Text × W) where
  abbrev pub fresh : W → Log W
  fresh w = record { world = w; sent = 0; waits = [] }

  -- Whatever the server and the timer answer, a request under a policy whose retry count is at most
  -- `n` is sent at least once and at most `n + 1` times, is waited for at most as often as it is
  -- sent, and each wait is positive and at most the policy's longest flood wait.
  pub protection_middleware-Bounded :
      (policy : ProtectionPolicy) (n : ℕ) (w : W)
      → policy.retry_count ≤ℤ pos n
      → let l =
          (protection_middleware
            (logged_next next pause)
            (logged_pause next pause)
            policy
            (fresh w)).1 in
        (0 < l.sent) × (l.sent ≤ n + 1) × (length l.waits ≤ l.sent) × All (Allowed policy) l.waits
  unfolding protection_middleware
  protection_middleware-Bounded policy n w h =
      let (k, rounds, few) = attempts-suc policy n h in
      let b =
        attempt_loop-Bounded next pause (Allowed policy) (within_policy policy)
          (within_policy-Allowed policy) (suc k) none (fresh w) tt in
      let sends = attempt_loop-sends next pause (within_policy policy) k none (fresh w) in
      rw rounds
        (omega arith, omega (arith, b.sent_most), omega (arith, b.waits_most), b.waits_allowed)

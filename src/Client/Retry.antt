-- ===== src/Client/Retry.antt =====
-- client/protection.go, protectionMiddleware, and client/middleware.go, RetryMiddleware.
pub mod Bounds
pub mod Script
mod Tests
use telegram_mcub_go.Base.{
  ℕ, zero, suc, ◌+◌, ◌*◌, Bool, true, false, ◌&&◌, Option, none, some, ltb, if◌then◌else◌, ℤ, pos,
  negsuc, ◌+ℤ◌, ltb_ℤ, leb_ℤ,
}
use telegram_mcub_go.Helpers.Utf16.{Text}
use telegram_mcub_go.Types.Protection.{ProtectionPolicy}
use telegram_mcub_go.Client.FloodWait.{parse_flood_wait, flood_wait_duration}

-- The wrapped invoker and the timer are the surroundings' (gotd, and Go's context and time): `next`
-- sends the request and returns its error or nil; `pause` waits for a time, and
-- returns the context's error if the context ends first. An error is its text.
module _ {W : Type 0} (next : W → Option Text × W) (pause : ℤ → W → Option Text × W) where
  -- The loop of both middlewares, with the rounds left and the last error: `tolerate` says for how
  -- long an error is waited out, if it is.
  pub attempt_loop : (Text → Option ℤ) → ℕ → Option Text → W → Option Text × W
  attempt_loop tolerate zero last w = (last, w)
  attempt_loop tolerate (suc rounds) last w = elim (next w).0 [
    | none ↦ (none, (next w).1)
    | some err ↦ elim (tolerate err) [
      | none ↦ (some err, (next w).1)
      | some secs ↦ elim (pause secs (next w).1).0 [
        | some ended ↦ (some ended, (pause secs (next w).1).1)
        | none ↦ attempt_loop tolerate rounds (some err) (pause secs (next w).1).1
      ]
    ]
  ]

-- The flood wait that the policy allows to wait out.
pub within_policy : ProtectionPolicy → Text → Option ℤ
within_policy policy err = elim (parse_flood_wait err) [
  | none ↦ none
  | some secs ↦
      if ltb_ℤ (pos 0) policy.max_flood_wait_seconds && leb_ℤ secs policy.max_flood_wait_seconds
      then some secs
      else none
]

at_least_one : ℤ → ℕ
at_least_one (pos zero) = 1
at_least_one (pos (suc n)) = suc n
at_least_one (negsuc n) = 1

-- `attempts := policy.RetryCount + 1`, at least 1.
pub attempts : ProtectionPolicy → ℕ
attempts policy = at_least_one (policy.retry_count +ℤ pos 1)

-- `attempt := 0; attempt <= maxRetries`
pub rounds_up_to : ℤ → ℕ
rounds_up_to (pos n) = suc n
rounds_up_to (negsuc n) = 0

-- The flood wait, in nanoseconds, that `maxWait` allows to wait out.
pub within_max_wait : ℤ → Text → Option ℤ
within_max_wait max_wait err =
    let wait = flood_wait_duration err in
    if leb_ℤ wait (pos 0) then none else if ltb_ℤ max_wait wait then none else some wait

module _ {W : Type 0} (next : W → Option Text × W) (pause : ℤ → W → Option Text × W) where
  -- Here `pause` waits for a number of seconds; that their product with time.Second wraps, for a
  -- policy that allows more than 9223372036, is not modelled.
  pub protection_middleware : ProtectionPolicy → W → Option Text × W
  protection_middleware policy w =
      attempt_loop next pause (within_policy policy) (attempts policy) none w

  -- Here `pause` waits for a number of nanoseconds.
  pub retry_middleware : ℤ → ℤ → W → Option Text × W
  retry_middleware max_retries max_wait w =
      attempt_loop next pause (within_max_wait max_wait) (rounds_up_to max_retries) none w

-- ===== src/Client/Retry/Tests.antt =====
-- The safe policy and servers that ask for a wait of five seconds.
use telegram_mcub_go.Base.{
  ℕ, ◌+◌, ◌+ℤ◌, ◌≤◌, ◌<◌, ◌≡◌, refl, arith, [], ◌∷◌, ◌++◌, true, false, Option, none, some, ℤ, pos,
  length, All,
}
use telegram_mcub_go.Helpers.Utf16.{Text}
use telegram_mcub_go.Types.Protection.{ProtectionPolicy}
use telegram_mcub_go.Client.FloodWait.{prefix, is_digit, parse_flood_wait, flood_wait_duration}
use telegram_mcub_go.Client.FloodWait.Laws.{parse-decimal}
use telegram_mcub_go.Client.Retry.{within_policy, attempts, at_least_one, protection_middleware}
use telegram_mcub_go.Client.Retry.Bounds.{
  protection_middleware-Bounded, logged_next, logged_pause, fresh, Allowed,
}
use telegram_mcub_go.Client.Retry.Script.{
  scripted_next, scripted_pause, protection_middleware-exhausted,
}

abbrev wait_five : Text
wait_five = prefix ++ b'5' ∷ []

-- Two attempts, and waits of at most a minute.
abbrev two_attempts : ProtectionPolicy
two_attempts = record {
  max_flood_wait_seconds = pos 60;
  retry_count = pos 1;
  auto_reconnect = true;
  ignore_media_errors = false;
  max_concurrent_requests = pos 10;
  rate_limit_per_second = pos 30;
}

five :
    (parse_flood_wait wait_five ≡ some (pos 5))
    × (flood_wait_duration wait_five ≡ pos 5_000_000_000)
unfolding is_digit
five = parse-decimal b'5' [] [] (refl, tt) tt (omega arith) (omega arith)

five_tolerated : within_policy two_attempts wait_five ≡ some (pos 5)
unfolding within_policy
five_tolerated = rw (within_policy, five.0) refl

abbrev always : ℕ → Option Text × ℕ
always n = (some wait_five, n)

abbrev no_pause : ℤ → ℕ → Option Text × ℕ
no_pause secs n = (none, n)

protection_middleware-Bounded_example :
    (0
      < (protection_middleware
          (logged_next always no_pause)
          (logged_pause always no_pause)
          two_attempts
          (fresh always no_pause 0)).1.sent)
    × ((protection_middleware
          (logged_next always no_pause)
          (logged_pause always no_pause)
          two_attempts
          (fresh always no_pause 0)).1.sent
        ≤ 1 + 1)
    × (length
          (protection_middleware
            (logged_next always no_pause)
            (logged_pause always no_pause)
            two_attempts
            (fresh always no_pause 0)).1.waits
        ≤ (protection_middleware
            (logged_next always no_pause)
            (logged_pause always no_pause)
            two_attempts
            (fresh always no_pause 0)).1.sent)
    × All
        (Allowed two_attempts)
        (protection_middleware
          (logged_next always no_pause)
          (logged_pause always no_pause)
          two_attempts
          (fresh always no_pause 0)).1.waits
protection_middleware-Bounded_example =
    protection_middleware-Bounded always no_pause two_attempts 1 0 (omega arith)

protection_middleware-exhausted_example :
    protection_middleware scripted_next scripted_pause two_attempts
      (record { answers = some wait_five ∷ some wait_five ∷ []; waits = [] })
    ≡ (some wait_five, record { answers = []; waits = pos 5 ∷ pos 5 ∷ [] })
unfolding attempts at_least_one ◌+ℤ◌
protection_middleware-exhausted_example =
    protection_middleware-exhausted two_attempts ((wait_five, pos 5) ∷ []) (wait_five, pos 5) []
      (five_tolerated, (five_tolerated, tt)) refl

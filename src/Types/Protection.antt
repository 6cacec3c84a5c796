-- ===== src/Types/Protection.antt =====
-- types/protection.go: the protection modes and their policies.
use telegram_mcub_go.Base.{Bool, true, false, ℤ, pos}

-- A ProtectionMode is an int; `other` stands for the values that have no constant.
pub data ProtectionMode : Type 0 where
  off safe strict custom other : ProtectionMode

pub record ProtectionPolicy : Type 0 where
  pub max_flood_wait_seconds : ℤ
  pub retry_count : ℤ
  pub auto_reconnect : Bool
  pub ignore_media_errors : Bool
  pub max_concurrent_requests : ℤ
  pub rate_limit_per_second : ℤ

unfoldable pub default_safe_policy : ProtectionPolicy
default_safe_policy = record {
  max_flood_wait_seconds = pos 60;
  retry_count = pos 3;
  auto_reconnect = true;
  ignore_media_errors = false;
  max_concurrent_requests = pos 10;
  rate_limit_per_second = pos 30;
}

unfoldable pub default_strict_policy : ProtectionPolicy
default_strict_policy = record {
  max_flood_wait_seconds = pos 300;
  retry_count = pos 5;
  auto_reconnect = true;
  ignore_media_errors = false;
  max_concurrent_requests = pos 5;
  rate_limit_per_second = pos 10;
}

unfoldable pub default_off_policy : ProtectionPolicy
default_off_policy = record {
  max_flood_wait_seconds = pos 0;
  retry_count = pos 0;
  auto_reconnect = false;
  ignore_media_errors = false;
  max_concurrent_requests = pos 0;
  rate_limit_per_second = pos 0;
}

unfoldable pub policy_for_mode : ProtectionMode → ProtectionPolicy
unfolding default_off_policy default_safe_policy default_strict_policy
policy_for_mode off = default_off_policy
policy_for_mode safe = default_safe_policy
policy_for_mode strict = default_strict_policy
policy_for_mode custom = default_safe_policy
policy_for_mode other = default_safe_policy

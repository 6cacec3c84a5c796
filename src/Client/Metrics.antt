-- ===== src/Client/Metrics.antt =====
-- client/middleware.go, MetricsCollector. A map is a function from method names, with the zero value
-- where a key is missing; durations are nanoseconds. Each method holds the lock and is one step.
pub mod Averages
use telegram_mcub_go.Base.{ℕ, zero, suc, ◌+◌, ◌/◌, List, [], ◌∷◌, ◌++◌, Bool, if◌then◌else◌, length}
use telegram_mcub_go.Helpers.Utf16.{Text}
use telegram_mcub_go.Events.Filters.{eqb_text}

pub record MetricsCollector : Type 0 where
  pub counts : Text → ℕ
  pub latencies : Text → List ℕ

pub new_metrics_collector : MetricsCollector
new_metrics_collector = record { counts = λ method. 0; latencies = λ method. [] }

-- `const key = "rpc"`
abbrev pub rpc : Text
rpc = b'r' ∷ b'p' ∷ b'c' ∷ []

abbrev set {ℓ} : {A : Type ℓ} → (Text → A) → Text → A → Text → A
set values key value method = if eqb_text method key then value else values method

-- What Middleware records of a request that took `elapsed`, whether it failed or not.
pub record_request : MetricsCollector → ℕ → MetricsCollector
record_request m elapsed = record m {
  counts = set m.counts rpc (suc (m.counts rpc));
  latencies = set m.latencies rpc (m.latencies rpc ++ elapsed ∷ []);
}

pub get_count : MetricsCollector → Text → ℕ
get_count m method = m.counts method

abbrev total_from : ℕ → List ℕ → ℕ
total_from total [] = total
total_from total (l ∷ lats) = total_from (total + l) lats

-- `if len(lats) == 0 { return 0 }`, and the total over the length otherwise.
abbrev average : List ℕ → ℕ
average [] = 0
average (l ∷ lats) = total_from 0 (l ∷ lats) / length (l ∷ lats)

pub get_avg_latency : MetricsCollector → Text → ℕ
get_avg_latency m method = average (m.latencies method)

pub reset : MetricsCollector → MetricsCollector
reset m = record { counts = λ method. 0; latencies = λ method. [] }

-- Requests that took the given times, one after the other.
pub record_all : MetricsCollector → List ℕ → MetricsCollector
record_all m [] = m
record_all m (elapsed ∷ more) = record_all (record_request m elapsed) more

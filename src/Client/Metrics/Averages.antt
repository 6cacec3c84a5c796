-- ===== src/Client/Metrics/Averages.antt =====
-- What MetricsCollector reports after a number of requests.
use telegram_mcub_go.Base.{
  ℕ, suc, ◌+◌, ◌/◌, ◌≡◌, refl, sym, ap, ◌∙◌, arith, List, [], ◌∷◌, ◌++◌, false, length,
  append_assoc, append-nil, if◌then◌else◌,
}
use telegram_mcub_go.Helpers.Utf16.{Text}
use telegram_mcub_go.Events.Filters.{eqb_text}
use telegram_mcub_go.Client.Metrics.{
  MetricsCollector, new_metrics_collector, rpc, record_request, get_count, total_from, average,
  get_avg_latency, reset, record_all,
}

-- The sum of the times.
abbrev pub sum : List ℕ → ℕ
sum [] = 0
sum (l ∷ lats) = l + sum lats

total_from-sum : (total : ℕ) (lats : List ℕ) → total_from total lats ≡ total + sum lats
total_from-sum total [] = omega arith
total_from-sum total (l ∷ lats) = omega (arith, total_from-sum (total + l) lats)

counts-record_all :
    (m : MetricsCollector) (times : List ℕ)
    → (record_all m times).counts rpc ≡ m.counts rpc + length times
unfolding record_all record_request
counts-record_all m [] = omega arith
counts-record_all m (t ∷ times) = omega (arith, counts-record_all (record_request m t) times)

latencies-record_all :
    (m : MetricsCollector) (times : List ℕ)
    → (record_all m times).latencies rpc ≡ m.latencies rpc ++ times
unfolding record_all record_request
latencies-record_all m [] = sym (append-nil (m.latencies rpc))
latencies-record_all m (t ∷ times) =
    latencies-record_all (record_request m t) times ∙ append_assoc (m.latencies rpc) (t ∷ []) times

others-record_all :
    (m : MetricsCollector) (times : List ℕ) (method : Text)
    → eqb_text method rpc ≡ false
    → ((record_all m times).counts method ≡ m.counts method)
      × ((record_all m times).latencies method ≡ m.latencies method)
unfolding record_all record_request
others-record_all m [] method h = (refl, refl)
others-record_all m (t ∷ times) method h =
    let (k, l) = others-record_all (record_request m t) times method h in
    (
      k ∙ ap (λ b. if b then suc (m.counts rpc) else m.counts method) h,
      l ∙ ap (λ b. if b then m.latencies rpc ++ t ∷ [] else m.latencies method) h,
    )

-- After requests that took the given times, at least one, a new collector reports under "rpc" their
-- number and the sum of the times over it, rounded down, and nothing under any other method name;
-- after a reset it reports nothing under "rpc" either.
pub get_avg_latency-record_all :
    (t : ℕ) (times : List ℕ) (method : Text)
    → eqb_text method rpc ≡ false
    → let m = record_all new_metrics_collector (t ∷ times) in
      (get_count m rpc ≡ length (t ∷ times))
      × (get_avg_latency m rpc ≡ sum (t ∷ times) / length (t ∷ times))
      × (get_count m method ≡ 0)
      × (get_avg_latency m method ≡ 0)
      × (get_count (reset m) rpc ≡ 0)
      × (get_avg_latency (reset m) rpc ≡ 0)
unfolding new_metrics_collector get_count get_avg_latency reset
get_avg_latency-record_all t times method h =
    let m = record_all new_metrics_collector (t ∷ times) in
    let (k, l) = others-record_all new_metrics_collector (t ∷ times) method h in
    (
      counts-record_all new_metrics_collector (t ∷ times) ∙ omega arith,
      ap average (latencies-record_all new_metrics_collector (t ∷ times))
          ∙ ap (λ total. total / length (t ∷ times)) (total_from-sum 0 (t ∷ times) ∙ omega arith),
      k,
      ap average l,
      refl,
      refl,
    )

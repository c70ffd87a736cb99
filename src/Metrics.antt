-- ===== src/Metrics.antt =====
-- src/metrics.rs: the counters of the bus. Each is an `AtomicU64`, whose `fetch_add` wraps around.
-- The OpenTelemetry instruments beside them only mirror the counters, and are not modelled.
use greentic_events.Base.{ℕ, ◌+◌, ◌%◌, ◌^◌}

pub record EventMetrics : Type 0 where
  pub events_in_total : ℕ
  pub events_out_total : ℕ
  pub events_failed_total : ℕ
  pub events_dlq_total : ℕ

abbrev pub new_metrics : EventMetrics
new_metrics = record {
  events_in_total = 0;
  events_out_total = 0;
  events_failed_total = 0;
  events_dlq_total = 0;
}

abbrev pub fetch_add : ℕ → ℕ → ℕ
fetch_add n k = (n + k) % 2 ^ 64

unfoldable pub record_in : EventMetrics → EventMetrics
record_in m = record m { events_in_total = fetch_add m.events_in_total 1 }

unfoldable pub record_out : EventMetrics → EventMetrics
record_out m = record m { events_out_total = fetch_add m.events_out_total 1 }

unfoldable pub record_failed : EventMetrics → EventMetrics
record_failed m = record m { events_failed_total = fetch_add m.events_failed_total 1 }

unfoldable pub record_dlq : EventMetrics → EventMetrics
record_dlq m = record m { events_dlq_total = fetch_add m.events_dlq_total 1 }

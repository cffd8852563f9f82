-- ===== src/Upstream/Health.antt =====
-- crates/bulwark-upstream/src/pool.rs, `Health` and the operations of `Upstream` that change it.
-- Times are milliseconds; `now` is the clock, and `jitter` the random spread of one call. The
-- arithmetic of `f64` is a parameter. An error is kept where the source keeps its text.
use bulwark.Common.{
  ℕ, ◌+◌, ◌-◌, ◌*◌, ◌^◌, min, Bool, true, false, ◌&&◌, Option, none, some, ltb, leb, ◌==◌,
  if◌then◌else◌, ◌>>=◌,
}
use bulwark.Common.Bytes.{Bytes}

-- `f64`, as far as the pool uses it.
pub record F64 : Type 1 where
  pub carrier : Type 0
  pub zero_ms : carrier
  pub of_ms : ℕ → carrier
  pub blend : carrier → carrier → carrier → carrier
  pub round : carrier → ℕ
  -- whether `inc - best <= (inc * 0.15).max(5.0)`
  pub within_margin : carrier → carrier → Bool

pub data Rcode : Type 0 where
  no_error nx_domain refused not_imp serv_fail form_err other_rcode : Rcode

pub data UpstreamError : Type 0 where
  no_upstreams timeout : UpstreamError
  rcode : Rcode → UpstreamError
  io proto tls quic http bootstrap invalid_spec : Bytes → UpstreamError
  all_failed : UpstreamError → UpstreamError

-- `healthy_probe_window`
unfoldable pub healthy_probe_window : Option ℕ → ℕ
healthy_probe_window none = 180000
healthy_probe_window (some r) = if leb 2 r then 900000 else 180000

-- `retry_backoff`: five seconds, doubled with each failure, up to a minute.
unfoldable pub retry_backoff : ℕ → ℕ
retry_backoff consecutive_failures = min (5000 * 2 ^ min (consecutive_failures - 1) 16) 60000

unfoldable pub ewma : (f : F64) → ℕ → f.carrier → f.carrier → f.carrier → f.carrier
ewma f samples prev sample alpha = if samples == 0 then sample else f.blend alpha sample prev

pub record Health (F : Type 0) : Type 0 where
  pub probe_ewma_ms : F
  pub probe_samples : ℕ
  pub probe_at : Option ℕ
  pub up : Bool
  pub consecutive_failures : ℕ
  pub total_queries : ℕ
  pub total_failures : ℕ
  pub last_rtt_ms : Option F
  pub live_ewma_ms : F
  pub live_samples : ℕ
  pub last_rank : Option ℕ
  pub lead_held : Bool
  pub last_error : Option UpstreamError
  pub next_probe_at : Option ℕ

pub record ProbeSnapshot (F : Type 0) : Type 0 where
  pub ewma_ms : Option F
  pub up : Bool
  pub consecutive_failures : ℕ
  pub live_ewma_ms : Option F
  pub live_queries : ℕ
  pub live_failures : ℕ
  pub rank : Option ℕ
  pub lead_held : Bool

module _ (f : F64) where
  -- `Health::default`
  abbrev pub new_health : Health f.carrier
  new_health = record {
    probe_ewma_ms = f.zero_ms;
    probe_samples = 0;
    probe_at = none;
    up = true;
    consecutive_failures = 0;
    total_queries = 0;
    total_failures = 0;
    last_rtt_ms = none;
    live_ewma_ms = f.zero_ms;
    live_samples = 0;
    last_rank = none;
    lead_held = false;
    last_error = none;
    next_probe_at = none;
  }

  unfoldable pub routing_latency_ms : Health f.carrier → Option f.carrier
  routing_latency_ms h = if ltb 0 h.probe_samples then some h.probe_ewma_ms else none

  unfoldable pub live_latency_ms : Health f.carrier → Option f.carrier
  live_latency_ms h = if ltb 0 h.live_samples then some h.live_ewma_ms else none

  unfoldable pub snapshot : Health f.carrier → ProbeSnapshot f.carrier
  unfolding routing_latency_ms live_latency_ms
  snapshot h = record {
    ewma_ms = routing_latency_ms h;
    up = h.up;
    consecutive_failures = h.consecutive_failures;
    live_ewma_ms = live_latency_ms h;
    live_queries = h.total_queries;
    live_failures = h.total_failures;
    rank = h.last_rank;
    lead_held = h.lead_held;
  }

  unfoldable pub record_live_success : ℕ → f.carrier → Health f.carrier → Health f.carrier
  unfolding ewma
  record_live_success rtt alpha h = record h {
    total_queries = h.total_queries + 1;
    last_rtt_ms = some (f.of_ms rtt);
    live_ewma_ms = ewma f h.live_samples h.live_ewma_ms (f.of_ms rtt) alpha;
    live_samples = h.live_samples + 1;
    consecutive_failures = 0;
    up = true;
    last_error = none;
  }

  unfoldable pub fold_probe_alive : ℕ → (ℕ → ℕ) → Health f.carrier → Health f.carrier
  unfolding healthy_probe_window
  fold_probe_alive now jitter h = record h {
    consecutive_failures = 0;
    up = true;
    last_error = none;
    next_probe_at = some (now + jitter (healthy_probe_window h.last_rank));
  }

  unfoldable pub record_probe_success :
      ℕ → (ℕ → ℕ) → ℕ → f.carrier → Health f.carrier → Health f.carrier
  unfolding ewma fold_probe_alive
  record_probe_success now jitter rtt alpha h = fold_probe_alive now jitter (record h {
    probe_ewma_ms = ewma f h.probe_samples h.probe_ewma_ms (f.of_ms rtt) alpha;
    probe_samples = h.probe_samples + 1;
    probe_at = some now;
  })

  unfoldable pub record_probe_alive :
      ℕ → (ℕ → ℕ) → UpstreamError → Health f.carrier → Health f.carrier
  unfolding fold_probe_alive
  record_probe_alive now jitter err h = record (fold_probe_alive now jitter h) {
    last_error = some err;
  }

  unfoldable pub fold_failure :
      ℕ → (ℕ → ℕ) → UpstreamError → ℕ → Health f.carrier → Health f.carrier
  unfolding retry_backoff
  fold_failure now jitter err threshold h =
      let failures = h.consecutive_failures + 1 in
      record h {
        consecutive_failures = failures;
        last_error = some err;
        up = (if leb threshold failures then false else h.up);
        next_probe_at = some (now + jitter (retry_backoff failures));
      }

  unfoldable pub record_live_failure :
      ℕ → (ℕ → ℕ) → UpstreamError → ℕ → Health f.carrier → Health f.carrier
  unfolding fold_failure
  record_live_failure now jitter err threshold h =
      fold_failure now jitter err threshold
        (record h { total_queries = h.total_queries + 1; total_failures = h.total_failures + 1 })

  unfoldable pub record_probe_failure :
      ℕ → (ℕ → ℕ) → UpstreamError → ℕ → Health f.carrier → Health f.carrier
  unfolding fold_failure
  record_probe_failure now jitter err threshold h = fold_failure now jitter err threshold h

  unfoldable pub record_soft_failure : UpstreamError → Health f.carrier → Health f.carrier
  record_soft_failure err h = record h {
    total_queries = h.total_queries + 1;
    total_failures = h.total_failures + 1;
    last_error = some err;
  }

  -- `startup_delay` is the random delay of the first probe.
  unfoldable pub schedule_initial_probe : ℕ → ℕ → Health f.carrier → Health f.carrier
  schedule_initial_probe now startup_delay h = elim h.next_probe_at [
    | none ↦ record h { next_probe_at = some (now + startup_delay) }
    | some at_time ↦ h
  ]

  unfoldable pub probe_due_in : ℕ → Health f.carrier → Option ℕ
  probe_due_in now h =
      h.next_probe_at >>= λ at_time. if ltb now at_time then some (at_time - now) else none

  unfoldable pub routing_latency_if_eligible : Health f.carrier → Option f.carrier
  unfolding routing_latency_ms
  routing_latency_if_eligible h =
      if h.up && h.consecutive_failures == 0 then routing_latency_ms h else none

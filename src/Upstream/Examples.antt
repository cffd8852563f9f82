-- ===== src/Upstream/Examples.antt =====
-- pool.rs: tests and examples, with whole milliseconds for `f64`.
use bulwark.Common.{
  false, some, here, there, ℕ, zero, suc, ◌+◌, ◌-◌, ◌/◌, ◌≡◌, refl, [], ◌∷◌, ◌++◌, map, arith, leb,
}
use bulwark.Upstream.Health.{
  F64, no_error, refused, serv_fail, timeout, Health, new_health, retry_backoff,
  record_live_success, record_live_failure, record_soft_failure, fold_failure, ewma,
}
use bulwark.Upstream.Order.{times, UpFirst, times-ordered, ordered-UpFirst}
use bulwark.Upstream.Pool.{
  UpstreamPool, ordered, Upstream, World, Attempt, responded, timed_out, ok, react, resolve_from,
  resolve_sequential, classify,
}
use bulwark.Upstream.Fallback.{resolve_sequential-settled}
use bulwark.Upstream.Standing.{
  Step, new_one, then_step, IsSound, Reachable-IsSound, left_as, PassesOn, out_of_time, refuses,
  server_fails, resolve_sequential-first,
}

abbrev whole : F64
whole = record {
  carrier = ℕ;
  zero_ms = 0;
  of_ms = λ n. n;
  blend = λ alpha sample prev. (sample + prev) / 2;
  round = λ n. n;
  within_margin = λ inc best. leb (inc - best) 5;
}

program : Unit {0}
unfolding react resolve_from resolve_sequential classify retry_backoff record_live_success
    record_live_failure record_soft_failure fold_failure ewma
program = tt

abbrev failing : Health ℕ
failing = record_live_failure whole 100 (λ d. d) timeout 2 (new_health whole)

Reachable-IsSound_example : IsSound 2 failing
Reachable-IsSound_example =
    Reachable-IsSound whole 2 failing (omega arith)
      (then_step new_one (Step.live_failure 100 (λ d. d) timeout (new_health whole)))

abbrev upstream : ℕ → Upstream ℕ
upstream slot = record { slot = slot; name = slot ∷ []; health = new_health whole }

abbrev outcome_of : ℕ → Attempt ℕ
outcome_of zero = timed_out
outcome_of (suc n) = responded 53 no_error 12

abbrev one_down : World ℕ ℕ
one_down = record { attempt = λ u. outcome_of u.slot; now = λ u. 100; jitter = λ u d. d }

resolve_sequential-first_example :
    resolve_sequential whole one_down 2 0 (upstream 0 ∷ upstream 1 ∷ upstream 2 ∷ []) ≡ (
      ok (record { message = 53; upstream = 1 ∷ []; rtt = 12 }),
      map (left_as whole one_down 2 0) (upstream 0 ∷ [])
          ++ (record (upstream 1) { health = record_live_success whole 12 0 (new_health whole) }
              ∷ upstream 2
              ∷ []),
    )
unfolding program
resolve_sequential-first_example =
    resolve_sequential-first whole one_down 2 0 (upstream 0 ∷ []) (upstream 2 ∷ []) (upstream 1) 53
      no_error 12 (out_of_time, tt) refl answers_it
  where
    answers_it : ¬ PassesOn {M = ℕ} (responded 53 no_error 12)
    answers_it h = elim h [ ]

-- The first times out, the second refuses, the third fails.
abbrev refusal : ℕ → Attempt ℕ
refusal zero = timed_out
refusal (suc zero) = responded 54 refused 13
refusal (suc (suc n)) = responded 55 serv_fail 14

abbrev all_down : World ℕ ℕ
all_down = record { attempt = λ u. refusal u.slot; now = λ u. 100; jitter = λ u d. d }

resolve_sequential-settled_example :
    resolve_sequential whole all_down 2 0 (upstream 0 ∷ upstream 1 ∷ upstream 2 ∷ []) ≡ (
      ok (record { message = 54; upstream = 1 ∷ []; rtt = 13 }),
      map (left_as whole all_down 2 0) (upstream 0 ∷ upstream 1 ∷ upstream 2 ∷ []),
    )
unfolding program
resolve_sequential-settled_example =
    resolve_sequential-settled whole all_down 2 0 (upstream 0 ∷ upstream 1 ∷ upstream 2 ∷ [])
      (out_of_time, (refuses 54 13, (server_fails 55 14, tt)))

abbrev down_one : Upstream ℕ
down_one = record (upstream 0) { health = record (new_health whole) { up = false } }

-- The first upstream is down, and was the leader.
abbrev pool : UpstreamPool ℕ
pool = record { upstreams = down_one ∷ upstream 1 ∷ upstream 2 ∷ []; current_leader = some 0 }

times-ordered_example : times 2 (ordered whole pool).0 ≡ times 2 pool.upstreams
times-ordered_example = times-ordered whole pool 2

ordered-UpFirst_example : UpFirst whole (ordered whole pool).0
ordered-UpFirst_example = ordered-UpFirst whole pool (upstream 1, there (here refl), refl)

-- ===== src/Upstream/Pool.antt =====
-- crates/bulwark-upstream/src/pool.rs: the order in which upstreams are tried, and the failover.
-- An upstream is told from another by its index `slot`, which stands for the pointer.
use bulwark.Common.{
  ℕ, suc, min, Bool, true, false, not, ◌&&◌, Option, none, some, List, [], ◌∷◌, map, ltb, leb, ◌==◌,
  if◌then◌else◌, ◌>>=◌, is_some, unwrap_or,
}
use bulwark.Common.Bytes.{Bytes}
use bulwark.Upstream.Health.{
  F64, Rcode, no_error, nx_domain, refused, not_imp, serv_fail, form_err, other_rcode,
  UpstreamError, no_upstreams, timeout, rcode, all_failed, Health, routing_latency_ms,
  routing_latency_if_eligible, record_live_success, record_live_failure, record_soft_failure,
  record_probe_success, record_probe_alive, record_probe_failure,
}

pub record Upstream (F : Type 0) : Type 0 where
  pub slot : ℕ
  pub name : Bytes
  pub health : Health F

pub record SortKey : Type 0 where
  pub down : Bool
  pub unsampled : Bool
  pub recent_hard_failure : Bool
  pub latency : ℕ

pub record UpstreamPool (F : Type 0) : Type 0 where
  pub upstreams : List (Upstream F)
  pub current_leader : Option ℕ

-- The order of the tuples: `false` before `true`, the first difference decides.
unfoldable pub bool_then : Bool → Bool → Bool → Bool
bool_then false true next = true
bool_then true false next = false
bool_then false false next = next
bool_then true true next = next

unfoldable pub key_leb : SortKey → SortKey → Bool
unfolding bool_then
key_leb a b = bool_then a.down b.down (
    bool_then a.unsampled b.unsampled
      (bool_then a.recent_hard_failure b.recent_hard_failure (leb a.latency b.latency)))

pub data Verdict : Type 0 where
  answer reject soft_fail : Verdict

unfoldable pub classify : Rcode → Verdict
classify refused = reject
classify not_imp = reject
classify serv_fail = soft_fail
classify form_err = soft_fail
classify no_error = answer
classify nx_domain = answer
classify other_rcode = answer

-- What an upstream does with the query within the timeout.
pub data Attempt (M : Type 0) : Type 0 where
  responded : M → Rcode → ℕ → Attempt M
  failed : UpstreamError → Attempt M
  timed_out : Attempt M

pub record Resolved (M : Type 0) : Type 0 where
  pub message : M
  pub upstream : Bytes
  pub rtt : ℕ

module _ (f : F64) where
  unfoldable pub sort_key : Health f.carrier → SortKey
  unfolding routing_latency_ms
  sort_key h = record {
    down = not h.up;
    unsampled = not (is_some (routing_latency_ms f h));
    recent_hard_failure = ltb 0 h.consecutive_failures;
    latency = f.round (unwrap_or (routing_latency_ms f h) f.zero_ms);
  }

  -- `v.sort_by_key(|u| u.sort_key())`, which is stable
  unfoldable pub insert_by_key :
      Upstream f.carrier → List (Upstream f.carrier) → List (Upstream f.carrier)
  unfolding sort_key key_leb
  insert_by_key u [] = u ∷ []
  insert_by_key u (v ∷ vs) =
      if key_leb (sort_key u.health) (sort_key v.health) then u ∷ v ∷ vs else v ∷ insert_by_key u vs

  unfoldable pub sort_by_key : List (Upstream f.carrier) → List (Upstream f.carrier)
  unfolding insert_by_key
  sort_by_key [] = []
  sort_by_key (u ∷ us) = insert_by_key u (sort_by_key us)

  -- `v.remove(pos)`, by the upstream at that place: the element and the others
  unfoldable pub take_out :
      ℕ → List (Upstream f.carrier) → Option (Upstream f.carrier × List (Upstream f.carrier))
  take_out slot [] = none
  take_out slot (u ∷ us) =
      if u.slot == slot
      then some (u, us)
      else take_out slot us >>= λ found. some (found.0, u ∷ found.1)

  abbrev pub holds : Option f.carrier → Option f.carrier → Bool
  holds (some inc) (some best) = f.within_margin inc best
  holds none best = false
  holds (some inc) none = false

  -- The leader stays in front while no other is faster by more than the margin.
  unfoldable pub hold_leader :
      Option ℕ → List (Upstream f.carrier) → List (Upstream f.carrier) × Bool
  unfolding take_out routing_latency_if_eligible
  hold_leader none v = (v, false)
  hold_leader (some cur) [] = ([], false)
  hold_leader (some cur) (best ∷ v) =
      if best.slot == cur then (best ∷ v, false) else elim (take_out cur v) [
        | none ↦ (best ∷ v, false)
        | some (held, rest) ↦
            if holds (routing_latency_if_eligible f held.health)
              (routing_latency_if_eligible f best.health)
            then (held ∷ best ∷ rest, true)
            else (best ∷ v, false)
      ]

  unfoldable pub set_ranks : ℕ → Bool → List (Upstream f.carrier) → List (Upstream f.carrier)
  set_ranks i held [] = []
  set_ranks i held (u ∷ us) =
      record u {
        health = record u.health { last_rank = some (min i 65535); lead_held = i == 0 && held };
      }
      ∷ set_ranks (suc i) held us

  unfoldable pub find_slot : ℕ → List (Upstream f.carrier) → Option (Upstream f.carrier)
  find_slot slot [] = none
  find_slot slot (u ∷ us) = if u.slot == slot then some u else find_slot slot us

  abbrev first_slot : List (Upstream f.carrier) → Option ℕ
  first_slot [] = none
  first_slot (u ∷ us) = some u.slot

  -- `ordered`: the order, and the pool, whose upstreams share their health with it.
  unfoldable pub ordered :
      UpstreamPool f.carrier → List (Upstream f.carrier) × UpstreamPool f.carrier
  unfolding sort_by_key hold_leader set_ranks find_slot
  ordered pool =
      let held = hold_leader pool.current_leader (sort_by_key pool.upstreams) in
      let v = set_ranks 0 held.1 held.0 in
      (
        v,
        record {
          upstreams = map (λ u. unwrap_or (find_slot u.slot v) u) pool.upstreams;
          current_leader = first_slot v;
        },
      )

-- The world of one query: what each upstream does with it, the clock and the jitter at each.
pub record World (F M : Type 0) : Type 0 where
  pub attempt : Upstream F → Attempt M
  pub now : Upstream F → ℕ
  pub jitter : Upstream F → ℕ → ℕ

-- `fallback.is_none()`: the first response that is no answer is kept.
abbrev pub or_first {ℓ} : {A : Type ℓ} → Option A → Option A → Option A
or_first none a = a
or_first (some b) a = some b

pub data Outcome (M : Type 0) : Type 0 where
  ok : Resolved M → Outcome M
  err : UpstreamError → Outcome M

-- A round returns, or keeps what it has for the next one.
pub data Reaction (F M : Type 0) : Type 0 where
  done : Resolved M → Upstream F → Reaction F M
  go_on : Option (Resolved M) → UpstreamError → Upstream F → Reaction F M

module _ (f : F64) {M : Type 0} (w : World f.carrier M) (threshold : ℕ) (alpha : f.carrier) where
  abbrev pub live_failure : UpstreamError → Upstream f.carrier → Upstream f.carrier
  live_failure e u = record u {
    health = record_live_failure f (w.now u) (w.jitter u) e threshold u.health;
  }

  abbrev pub live_success : ℕ → Upstream f.carrier → Upstream f.carrier
  live_success rtt u = record u { health = record_live_success f rtt alpha u.health }

  abbrev pub soft_failure : UpstreamError → Upstream f.carrier → Upstream f.carrier
  soft_failure e u = record u { health = record_soft_failure f e u.health }

  abbrev pub resolved_by : Upstream f.carrier → M → ℕ → Resolved M
  resolved_by u m rtt = record { message = m; upstream = u.name; rtt = rtt }

  abbrev finish : Option (Resolved M) → UpstreamError → Outcome M
  finish none last = err (all_failed last)
  finish (some r) last = ok r

  -- What one round of the loop makes of a response, or of a failure.
  abbrev after_verdict : Upstream f.carrier → M → Rcode → ℕ → Verdict → Reaction f.carrier M
  after_verdict u m rc rtt answer = done (resolved_by u m rtt) (live_success rtt u)
  after_verdict u m rc rtt reject =
      go_on (some (resolved_by u m rtt)) (rcode rc) (live_failure (rcode rc) u)
  after_verdict u m rc rtt soft_fail =
      go_on (some (resolved_by u m rtt)) (rcode rc) (soft_failure (rcode rc) u)

  unfoldable pub react : Upstream f.carrier → Attempt M → Reaction f.carrier M
  unfolding classify
  react u (responded m rc rtt) = after_verdict u m rc rtt (classify rc)
  react u (failed e) = go_on none e (live_failure e u)
  react u timed_out = go_on none timeout (live_failure timeout u)

  -- The loop: the outcome, and the upstreams as it leaves them.
  unfoldable pub resolve_from :
      Option (Resolved M)
      → UpstreamError
      → List (Upstream f.carrier)
      → Outcome M × List (Upstream f.carrier)
  unfolding react
  resolve_from fallback last [] = (finish fallback last, [])
  resolve_from fallback last (u ∷ us) = elim (react u (w.attempt u)) [
    | done r u' ↦ (ok r, u' ∷ us)
    | go_on response e u' ↦
        let (outcome, left) = resolve_from (or_first fallback response) e us in (outcome, u' ∷ left)
  ]

  unfoldable pub resolve_sequential :
      List (Upstream f.carrier) → Outcome M × List (Upstream f.carrier)
  unfolding resolve_from
  resolve_sequential us = resolve_from none no_upstreams us

pub data ProbeOutcome : Type 0 where
  probe_answer probe_reject probe_soft_fail probe_error probe_timeout measure_fail : ProbeOutcome

pub data Shot : Type 0 where
  answered : ℕ → Shot
  shot_failed : ProbeOutcome → UpstreamError → Shot

abbrev shot_of : Verdict → Rcode → ℕ → Shot
shot_of answer rc rtt = answered rtt
shot_of reject rc rtt = shot_failed probe_reject (rcode rc)
shot_of soft_fail rc rtt = shot_failed probe_soft_fail (rcode rc)

-- `probe_shot`
unfoldable pub probe_shot : {M : Type 0} → Attempt M → Shot
unfolding classify
probe_shot (responded m rc rtt) = shot_of (classify rc) rc rtt
probe_shot (failed e) = shot_failed probe_error e
probe_shot timed_out = shot_failed probe_timeout timeout

-- `probe_once`: the outcome, and the health; the second shot is taken only behind an answer.
unfoldable pub probe_once :
    (f : F64)
    → ℕ
    → (ℕ → ℕ)
    → f.carrier
    → ℕ
    → Shot
    → Shot
    → Health f.carrier
    → ProbeOutcome × Health f.carrier
unfolding record_probe_success record_probe_alive record_probe_failure
probe_once f now jitter alpha threshold (answered first) (answered warm) h =
    (probe_answer, record_probe_success f now jitter warm alpha h)
probe_once f now jitter alpha threshold (answered first) (shot_failed outcome e) h =
    (measure_fail, record_probe_alive f now jitter e h)
probe_once f now jitter alpha threshold (shot_failed outcome e) second h =
    (outcome, record_probe_failure f now jitter e threshold h)

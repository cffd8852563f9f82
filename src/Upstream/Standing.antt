-- ===== src/Upstream/Standing.antt =====
-- pool.rs: the events in the life of an upstream, and the answer of the failover.
use bulwark.Common.{
  ℕ, none, ◌+◌, ◌≤◌, ◌≡◌, refl, sym, ap, ◌∙◌, inl, inr, Bool, Option, List, [], ◌∷◌, ◌++◌, map,
  arith, ltb, leb, lt→ltb, Bool-cases, Option-cases, All,
}
use bulwark.Upstream.Health.{
  F64, Rcode, no_error, nx_domain, refused, not_imp, serv_fail, form_err, other_rcode,
  UpstreamError, no_upstreams, Health, new_health, record_live_success, record_probe_success,
  record_probe_alive, record_live_failure, record_probe_failure, record_soft_failure,
  schedule_initial_probe, fold_failure, fold_probe_alive,
}
use bulwark.Upstream.Pool.{
  Attempt, responded, failed, timed_out, classify, Upstream, World, Resolved, Outcome, ok, Reaction,
  done, go_on, react, resolve_from, resolve_sequential, or_first,
}

-- One event in the life of an upstream.
pub data Step (f : F64) (threshold : ℕ) : Health f.carrier → Health f.carrier → Type 0 where
  live_success :
      (rtt : ℕ) (alpha : f.carrier) (h : Health f.carrier)
      → Step f threshold h (record_live_success f rtt alpha h)
  probe_success :
      (now : ℕ) (jitter : ℕ → ℕ) (rtt : ℕ) (alpha : f.carrier) (h : Health f.carrier)
      → Step f threshold h (record_probe_success f now jitter rtt alpha h)
  probe_alive :
      (now : ℕ) (jitter : ℕ → ℕ) (e : UpstreamError) (h : Health f.carrier)
      → Step f threshold h (record_probe_alive f now jitter e h)
  live_failure :
      (now : ℕ) (jitter : ℕ → ℕ) (e : UpstreamError) (h : Health f.carrier)
      → Step f threshold h (record_live_failure f now jitter e threshold h)
  probe_failure :
      (now : ℕ) (jitter : ℕ → ℕ) (e : UpstreamError) (h : Health f.carrier)
      → Step f threshold h (record_probe_failure f now jitter e threshold h)
  soft_failure :
      (e : UpstreamError) (h : Health f.carrier) → Step f threshold h (record_soft_failure f e h)
  scheduled :
      (now delay : ℕ) (h : Health f.carrier)
      → Step f threshold h (schedule_initial_probe f now delay h)
  ranked :
      (rank : Option ℕ) (held : Bool) (h : Health f.carrier)
      → Step f threshold h (record h { last_rank = rank; lead_held = held })

-- The healths that events lead to from a new upstream.
pub data Reachable (f : F64) (threshold : ℕ) : Health f.carrier → Type 0 where
  new_one : Reachable f threshold (new_health f)
  then_step :
      {h h' : Health f.carrier}
      → Reachable f threshold h
      → Step f threshold h h'
      → Reachable f threshold h'

pub record IsSound {F : Type 0} (threshold : ℕ) (h : Health F) : Type 0 where
  pub standing : h.up ≡ ltb h.consecutive_failures threshold
  pub counted : h.live_samples + h.total_failures ≡ h.total_queries

fold_failure-IsSound :
    (f : F64) (threshold now : ℕ) (jitter : ℕ → ℕ) (e : UpstreamError) (h : Health f.carrier)
    → IsSound threshold h
    → IsSound threshold (fold_failure f now jitter e threshold h)
unfolding fold_failure
fold_failure-IsSound f threshold now jitter e h s = record {
  standing = elim (Bool-cases (leb threshold (h.consecutive_failures + 1))) [
    | inl down ↦ rw down (ground arith)
    | inr up ↦ rw up (s.standing ∙ ground arith)
  ];
  counted = s.counted;
}

Step-IsSound :
    (f : F64) (threshold : ℕ) (h h' : Health f.carrier)
    → 1 ≤ threshold
    → Step f threshold h h'
    → IsSound threshold h
    → IsSound threshold h'
unfolding record_live_success record_probe_success record_probe_alive record_live_failure
    record_probe_failure record_soft_failure schedule_initial_probe fold_probe_alive fold_failure
Step-IsSound f threshold h h' pos (live_success rtt alpha _) s = record {
  standing = sym (lt→ltb 0 threshold pos);
  counted = omega (arith, s.counted);
}
Step-IsSound f threshold h h' pos (probe_success now jitter rtt alpha _) s = record {
  standing = sym (lt→ltb 0 threshold pos);
  counted = s.counted;
}
Step-IsSound f threshold h h' pos (probe_alive now jitter e _) s = record {
  standing = sym (lt→ltb 0 threshold pos);
  counted = s.counted;
}
Step-IsSound f threshold h h' pos (live_failure now jitter e _) s =
    fold_failure-IsSound f threshold now jitter e
      (record h { total_queries = h.total_queries + 1; total_failures = h.total_failures + 1 })
      (record { standing = s.standing; counted = omega (arith, s.counted) })
Step-IsSound f threshold h h' pos (probe_failure now jitter e _) s =
    fold_failure-IsSound f threshold now jitter e h s
Step-IsSound f threshold h h' pos (soft_failure e _) s = record {
  standing = s.standing;
  counted = omega (arith, s.counted);
}
Step-IsSound f threshold h h' pos (scheduled now delay _) s = elim (Option-cases h.next_probe_at) [
  | inl nothing ↦ rw nothing (record { standing = s.standing; counted = s.counted })
  | inr (at_time, there_is) ↦ rw there_is (record { standing = s.standing; counted = s.counted })
]
Step-IsSound f threshold h h' pos (ranked rank held _) s = record {
  standing = s.standing;
  counted = s.counted;
}

-- With a failure threshold of at least one, an upstream is up after any sequence of queries,
-- probes, schedulings and rankings exactly if it has fewer consecutive failures than the
-- threshold, and its live samples and failures add up to its queries.
pub Reachable-IsSound :
    (f : F64) (threshold : ℕ) (h : Health f.carrier)
    → 1 ≤ threshold
    → Reachable f threshold h
    → IsSound threshold h
Reachable-IsSound f threshold h pos new_one = record {
  standing = sym (lt→ltb 0 threshold pos);
  counted = omega arith;
}
Reachable-IsSound f threshold h pos (then_step {h = h₀} r s) =
    Step-IsSound f threshold h₀ h pos s (Reachable-IsSound f threshold h₀ pos r)

-- How an upstream passes a query on: it fails, times out, or answers with a code that says it
-- will not or cannot.
pub data PassesOn {M : Type 0} : Attempt M → Type 0 where
  out_of_time : PassesOn timed_out
  went_wrong : (e : UpstreamError) → PassesOn (failed e)
  refuses : (m : M) (rtt : ℕ) → PassesOn (responded m refused rtt)
  not_implemented : (m : M) (rtt : ℕ) → PassesOn (responded m not_imp rtt)
  server_fails : (m : M) (rtt : ℕ) → PassesOn (responded m serv_fail rtt)
  malformed : (m : M) (rtt : ℕ) → PassesOn (responded m form_err rtt)

module _ (f : F64) {M : Type 0} (w : World f.carrier M) (threshold : ℕ) (alpha : f.carrier) where
  -- The round goes on behind this upstream.
  abbrev GoesOn : Upstream f.carrier → Type 0
  GoesOn u =
      (response : Option (Resolved M)) × (e : UpstreamError) × (u' : Upstream f.carrier) × (react f
          w threshold alpha u (w.attempt u)
        ≡ go_on response e u')

  abbrev pub next_health : Reaction f.carrier M → Upstream f.carrier
  next_health (done r u) = u
  next_health (go_on response e u) = u

  abbrev pub left_as : Upstream f.carrier → Upstream f.carrier
  left_as u = next_health (react f w threshold alpha u (w.attempt u))

  resolve_from-first :
      (fallback : Option (Resolved M)) (last : UpstreamError)
      (before after : List (Upstream f.carrier)) (u u' : Upstream f.carrier) (r : Resolved M)
      → All GoesOn before
      → react f w threshold alpha u (w.attempt u) ≡ done r u'
      → resolve_from f w threshold alpha fallback last (before ++ u ∷ after)
        ≡ (ok r, map left_as before ++ u' ∷ after)
  unfolding resolve_from
  resolve_from-first fallback last [] after u u' r none_before answers =
      rw (resolve_from, answers) refl
  resolve_from-first fallback last (v ∷ before) after u u' r ((response, e, v', goes), rest)
        answers =
      rw (resolve_from, goes)
        (ap (λ (o : Outcome M × List (Upstream f.carrier)). (o.0, v' ∷ o.1))
          (resolve_from-first (or_first fallback response) e before after u u' r rest answers))

  PassesOn-GoesOn : (u : Upstream f.carrier) → PassesOn (w.attempt u) → GoesOn u
  unfolding react classify
  PassesOn-GoesOn u h = by_attempt (w.attempt u) h
    where
      by_attempt :
          (t : Attempt M)
          → PassesOn t
          → (response : Option (Resolved M)) × (e : UpstreamError) × (u' : Upstream f.carrier)
            × (react f w threshold alpha u t ≡ go_on response e u')
      by_attempt t out_of_time = (_, _, _, refl)
      by_attempt t (went_wrong e) = (_, _, _, refl)
      by_attempt t (refuses m rtt) = (_, _, _, refl)
      by_attempt t (not_implemented m rtt) = (_, _, _, refl)
      by_attempt t (server_fails m rtt) = (_, _, _, refl)
      by_attempt t (malformed m rtt) = (_, _, _, refl)

  All-GoesOn :
      (us : List (Upstream f.carrier)) → All (λ u. PassesOn (w.attempt u)) us → All GoesOn us
  All-GoesOn [] h = tt
  All-GoesOn (u ∷ us) (h, rest) = (PassesOn-GoesOn u h, All-GoesOn us rest)

  react-answer :
      (u : Upstream f.carrier) (m : M) (rc : Rcode) (rtt : ℕ)
      → ¬ PassesOn (responded m rc rtt)
      → react f w threshold alpha u (responded m rc rtt)
        ≡ done
            (record { message = m; upstream = u.name; rtt = rtt })
            (record u { health = record_live_success f rtt alpha u.health })
  unfolding react classify
  react-answer u m no_error rtt h = refl
  react-answer u m nx_domain rtt h = refl
  react-answer u m refused rtt h = absurd (h (refuses m rtt))
  react-answer u m not_imp rtt h = absurd (h (not_implemented m rtt))
  react-answer u m serv_fail rtt h = absurd (h (server_fails m rtt))
  react-answer u m form_err rtt h = absurd (h (malformed m rtt))
  react-answer u m other_rcode rtt h = refl

  -- If each upstream before one in the order times out, fails, or responds with REFUSED, NOTIMP,
  -- SERVFAIL or FORMERR, and that one responds with another code, then the failover returns its
  -- message under its name with the time that it took, records a live success for it, updates
  -- those before it by what they did, and leaves those behind it untouched.
  pub resolve_sequential-first :
      (before after : List (Upstream f.carrier)) (u : Upstream f.carrier) (m : M) (rc : Rcode)
      (rtt : ℕ)
      → All (λ v. PassesOn (w.attempt v)) before
      → w.attempt u ≡ responded m rc rtt
      → ¬ PassesOn (responded m rc rtt)
      → resolve_sequential f w threshold alpha (before ++ u ∷ after) ≡ (
        ok (record { message = m; upstream = u.name; rtt = rtt }),
        map left_as before
            ++ record u { health = record_live_success f rtt alpha u.health } ∷ after,
      )
  unfolding resolve_sequential
  resolve_sequential-first before after u m rc rtt passed is answers =
      resolve_from-first none no_upstreams before after u
        (record u { health = record_live_success f rtt alpha u.health })
        (record { message = m; upstream = u.name; rtt = rtt }) (All-GoesOn before passed)
        (ap (react f w threshold alpha u) is ∙ react-answer u m rc rtt answers)

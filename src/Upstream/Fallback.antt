-- ===== src/Upstream/Fallback.antt =====
-- pool.rs, `resolve_sequential`: what it returns when no upstream answers.
use bulwark.Common.{ℕ, ◌≡◌, refl, ap, ◌∙◌, Option, none, some, List, [], ◌∷◌, map, All}
use bulwark.Upstream.Health.{F64, UpstreamError, no_upstreams, timeout, rcode, all_failed}
use bulwark.Upstream.Pool.{
  Upstream, Attempt, responded, failed, timed_out, World, Resolved, Outcome, ok, err, Reaction,
  done, go_on, react, resolve_from, resolve_sequential, or_first, classify,
}
use bulwark.Upstream.Standing.{
  PassesOn, out_of_time, went_wrong, refuses, not_implemented, server_fails, malformed, next_health,
  left_as,
}

-- The first of two that is there.
abbrev pub earlier : {A : Type 0} → Option A → Option A → Option A
earlier none b = b
earlier (some a) b = some a

or_first-earlier :
    {A : Type 0} (a b c : Option A) → earlier (or_first a b) c ≡ earlier a (earlier b c)
or_first-earlier none b c = refl
or_first-earlier (some a) b c = refl

-- The error that an attempt leaves: of its code, its own, or the timeout.
abbrev pub error_of : {M : Type 0} → Attempt M → UpstreamError
error_of (responded m rc rtt) = rcode rc
error_of (failed e) = e
error_of timed_out = timeout

-- A response, else the error that all failed with.
abbrev pub settled : {M : Type 0} → Option (Resolved M) → UpstreamError → Outcome M
settled none e = err (all_failed e)
settled (some r) e = ok r

module _ (f : F64) {M : Type 0} (w : World f.carrier M) where
  abbrev response_of : Upstream f.carrier → Attempt M → Option (Resolved M)
  response_of u (responded m rc rtt) = some (record { message = m; upstream = u.name; rtt = rtt })
  response_of u (failed e) = none
  response_of u timed_out = none

  -- The response of the first upstream that gave one at all, and the error of the last one.
  abbrev pub first_response : List (Upstream f.carrier) → Option (Resolved M)
  first_response [] = none
  first_response (u ∷ us) = earlier (response_of u (w.attempt u)) (first_response us)

  abbrev pub last_error : UpstreamError → List (Upstream f.carrier) → UpstreamError
  last_error e [] = e
  last_error e (u ∷ us) = last_error (error_of (w.attempt u)) us

  module _ (threshold : ℕ) (alpha : f.carrier) where
    react-PassesOn :
        (u : Upstream f.carrier) (t : Attempt M)
        → PassesOn t
        → react f w threshold alpha u t
          ≡ go_on
              (response_of u t)
              (error_of t)
              (next_health f w threshold alpha (react f w threshold alpha u t))
    unfolding react classify
    react-PassesOn u t out_of_time = refl
    react-PassesOn u t (went_wrong e) = refl
    react-PassesOn u t (refuses m rtt) = refl
    react-PassesOn u t (not_implemented m rtt) = refl
    react-PassesOn u t (server_fails m rtt) = refl
    react-PassesOn u t (malformed m rtt) = refl

    resolve_from-settled :
        (fallback : Option (Resolved M)) (e : UpstreamError) (us : List (Upstream f.carrier))
        → All (λ u. PassesOn (w.attempt u)) us
        → resolve_from f w threshold alpha fallback e us ≡ (
          settled (earlier fallback (first_response us)) (last_error e us),
          map (left_as f w threshold alpha) us,
        )
    unfolding resolve_from
    resolve_from-settled none e [] h = refl
    resolve_from-settled (some r) e [] h = refl
    resolve_from-settled fallback e (u ∷ us) (h, rest) =
        let step = react-PassesOn u (w.attempt u) h in
        let next =
          resolve_from-settled (or_first fallback (response_of u (w.attempt u)))
            (error_of (w.attempt u)) us rest in
        ap
          (λ (reaction : Reaction f.carrier M). elim reaction [
            | done r u' ↦ (ok r, u' ∷ us)
            | go_on response e' u' ↦
                let (outcome, left) =
                  resolve_from f w threshold alpha (or_first fallback response) e' us in
                (outcome, u' ∷ left)
          ])
          step
        ∙ ap
            (λ (o : Outcome M × List (Upstream f.carrier)).
              (o.0, left_as f w threshold alpha u ∷ o.1))
            next
        ∙ ap
            (λ (r : Option (Resolved M)). (
              settled r (last_error (error_of (w.attempt u)) us),
              left_as f w threshold alpha u ∷ map (left_as f w threshold alpha) us,
            ))
            (or_first-earlier fallback (response_of u (w.attempt u)) (first_response us))

    -- If every upstream times out, fails, or responds with REFUSED, NOTIMP, SERVFAIL or FORMERR,
    -- then the failover returns the first response that came at all, under the name of its
    -- upstream, and without one the error that all failed with that of the last; it has tried
    -- every upstream and leaves each updated by what it did.
    pub resolve_sequential-settled :
        (us : List (Upstream f.carrier))
        → All (λ u. PassesOn (w.attempt u)) us
        → resolve_sequential f w threshold alpha us ≡ (
          settled (first_response us) (last_error no_upstreams us),
          map (left_as f w threshold alpha) us,
        )
    unfolding resolve_sequential
    resolve_sequential-settled us h = resolve_from-settled none no_upstreams us h

-- ===== src/Engine/Through/Replies.antt =====
-- lib.rs, `Engine::handle`: what a reply gives that passes an answer on.
use bulwark.Common.{
  ℕ, ◌≡◌, refl, ap, subst, ◌∙◌, ◌≢◌, ◌⊎◌, inl, inr, Bool, true, false, not, ◌&&◌, Option, none,
  some, List, arith, ◌==◌, Bool-cases, Option-cases, some_injective,
}
use bulwark.Common.Bytes.{Bytes}
use bulwark.Dns.{Record, Message}
use bulwark.Wire.{scan_ttl_offsets}
use bulwark.Filter.Engine.Builder.{MatchInfo}
use bulwark.Clients.{ResolvedClient}
use bulwark.Cache.Snapshot.{QueryKey}
use bulwark.Cache.Lru.{LruCache}
use bulwark.Cache.Message.{CacheConfig, cacheable_ttl}
use bulwark.Cache.Store.{DnsCache, Calls, store, insert_inner}
use bulwark.Cache.Entries.{
  CacheHit, CachedResponse, ResponseVerdict, Outcome, clean, block, InsertedWire, Entry,
  requires_refresh,
}
use bulwark.Engine.Answers.{cached_answers}
use bulwark.Engine.Ingress.{Lazy, EngineResponse}
use bulwark.Engine.Handler.{
  filters_for, answers_block, finalize, finalize_wire, blocked_reply, hit_block, outcome_block,
  with_refresh, cached_reply, hit_reply, kept_verdict, block_verdict, served_reply, forwarded_reply,
}
use bulwark.Engine.State.{
  Crates, Resolved, EngineState, QueryAction, forwarded, cached, LogBuilder, Reply,
}
use bulwark.Engine.Through.Stopping.{
  action_of, PassedOn, some-AllStop, blocked_reply-Stops, refreshed_block-AllStop,
}

-- A response of the engine gives what the cache holds.
abbrev pub Serves : CachedResponse → EngineResponse → Type 0
Serves (CachedResponse.wire bytes rcode answers) e = e ≡ EngineResponse.wire bytes
Serves (CachedResponse.message m) e = e ≡ EngineResponse.message m

-- It gives a message, or the bytes that the message encodes to.
abbrev pub Gives : (Message → Option Bytes) → Message → EngineResponse → Type 0
Gives to_vec m e =
    (e ≡ EngineResponse.message m)
    ⊎ ((bytes : Bytes) × (to_vec m ≡ some bytes) × (e ≡ EngineResponse.wire bytes))

-- What a reply gives, and what it logs.
abbrev pub Served : {S : Type 0} → QueryAction → (EngineResponse → Type 0) → Reply S → Type 0
Served a P r = P r.response × (action_of r ≡ some a)

store-bytes :
    (x : Calls) (cfg : CacheConfig) (m : Message) (w : InsertedWire)
    → (store x cfg m).1 ≡ some w
    → x.to_vec m ≡ some w.bytes
unfolding store
store-bytes x cfg m w h = elim (Option-cases (x.to_vec m)) [
  | inl nothing ↦ absurd (none_some (rw (nothing, store) at h))
  | inr (bytes, is) ↦ elim (Option-cases (scan_ttl_offsets bytes)) [
    | inl unread ↦ absurd (none_some (rw (is, unread, store) at h))
    | inr (offsets, scan) ↦
        is ∙ ap (λ (v : InsertedWire). some v.bytes) (some_injective (rw (is, scan, store) at h))
  ]
]
  where
    none_some : {w : InsertedWire} → none ≢ some w
    none_some i = cc

insert_inner-bytes :
    {S : Type 0} (lru : LruCache S Entry) (x : Calls) (now : ℕ) (key : QueryKey) (m : Message)
    (v : Option ResponseVerdict) (cache : DnsCache S) (w : InsertedWire)
    → (insert_inner lru x now key m v cache).0 ≡ some w
    → x.to_vec m ≡ some w.bytes
unfolding insert_inner
insert_inner-bytes lru x now key m v cache w h = elim (Bool-cases cache.cfg.enabled) [
  | inr off ↦ absurd (none_some (rw (off, insert_inner) at h))
  | inl on ↦ elim (Option-cases (cacheable_ttl cache.cfg m)) [
    | inl no_ttl ↦ absurd (none_some (rw (on, no_ttl, insert_inner) at h))
    | inr (ttl, is) ↦ store-bytes x cache.cfg m w (rw (on, is, insert_inner) at h)
  ]
]
  where
    none_some : {w : InsertedWire} → none ≢ some w
    none_some i = cc

module _ {S : Type 0} (lru : LruCache S Entry) (k : Crates) (s : EngineState)
    (client : ResolvedClient) where
  -- No panic, and no block.
  abbrev pub Unblocked : List Record → Type 0
  Unblocked answers = answers_block lru k s client answers ≡ some none

  -- A clean verdict of the present filter, whose rules look at no client; else the answers pass.
  abbrev pub CleanHit : CacheHit → Type 0
  CleanHit hit =
      ((v : ResponseVerdict) × (hit.verdict ≡ some v)
        × (v.outcome ≡ clean)
        × (v.generation ≡ s.filter.content_hash)
        × (s.filter.has_client_dependent_rules ≡ false))
      ⊎ Unblocked (cached_answers k.from_vec hit.response)

  hit_block-CleanHit :
      (hit : CacheHit)
      → filters_for lru k s client ≡ true
      → hit_block lru k s client hit ≡ some none
      → CleanHit hit
  unfolding hit_block
  hit_block-CleanHit hit on h = elim (Option-cases hit.verdict) [
    | inl unknown ↦ inr (rw (on, unknown, hit_block) at h)
    | inr (v, is) ↦
        elim (Bool-cases
          (not s.filter.has_client_dependent_rules && v.generation == s.filter.content_hash)) [
            | inr differs ↦ inr (rw (on, is, differs, hit_block) at h)
            | inl holds ↦
                let (same_for_all, current) =
                  both (not s.filter.has_client_dependent_rules)
                    (v.generation == s.filter.content_hash) holds in
                inl (
                  v,
                  is,
                  outcome_clean v.outcome (some_injective (rw (on, is, holds, hit_block) at h)),
                  ground arith,
                  not_true s.filter.has_client_dependent_rules same_for_all,
                )
          ]
  ]
    where
      both : (b c : Bool) → b && c ≡ true → (b ≡ true) × (c ≡ true)
      both true c e = (refl, e)
      both false c e = cc

      not_true : (b : Bool) → not b ≡ true → b ≡ false
      not_true true e = cc
      not_true false e = refl

      outcome_clean : (o : Outcome) → outcome_block lru k s o ≡ none → o ≡ clean
      outcome_clean clean e = refl
      outcome_clean (block info) e = cc

  cached_reply-Serves :
      (hit : CacheHit) (log : LogBuilder) (cache : DnsCache S) (c : CachedResponse)
      → hit.response ≡ c
      → Served cached (Serves c) (cached_reply lru k s hit log cache)
  unfolding cached_reply finalize finalize_wire
  cached_reply-Serves hit log cache (CachedResponse.wire bytes rcode answers) is =
      rw (is, cached_reply) (refl, refl)
  cached_reply-Serves hit log cache (CachedResponse.message m) is =
      rw (is, cached_reply) (refl, refl)

  refreshed-Serves :
      (c : CachedResponse) (on : Bool) (lazy : Lazy) (key : QueryKey) (r : Reply S)
      → Served cached (Serves c) r
      → Served cached (Serves c) (with_refresh lru k s on lazy key r)
  refreshed-Serves c true lazy key r h = h
  refreshed-Serves c false lazy key r h = h

  pub hit_reply-Serves :
      (hit : CacheHit) (lazy : Lazy) (id : ℕ) (key : QueryKey) (log : LogBuilder)
      (cache : DnsCache S) (r : Reply S) (a : QueryAction)
      → PassedOn a
      → filters_for lru k s client ≡ true
      → hit_reply lru k s client hit lazy id key log cache ≡ some r
      → action_of r ≡ some a
      → CleanHit hit × Served cached (Serves hit.response) r
  unfolding hit_reply
  hit_reply-Serves hit lazy id key log cache r a p on h e =
      elim (Option-cases (hit_block lru k s client hit)) [
        | inl panicked ↦ absurd (none_some (rw (panicked, hit_reply) at h))
        | inr (found, is) ↦ by_found found is
      ]
    where
      none_some : {r : Reply S} → none ≢ some r
      none_some i = cc

      by_found :
          (found : Option MatchInfo)
          → hit_block lru k s client hit ≡ some found
          → CleanHit hit × Served cached (Serves hit.response) r
      by_found (some info) is = absurd (
          refreshed_block-AllStop lru k s (requires_refresh hit.freshness) lazy id key info log
            cache r (rw (is, hit_reply) at h) a p e)
      by_found none is = (
        hit_block-CleanHit hit on is,
        subst (Served cached (Serves hit.response)) (some_injective (rw (is, hit_reply) at h)) (
            refreshed-Serves hit.response (requires_refresh hit.freshness) lazy key
              (cached_reply lru k s hit log cache)
              (cached_reply-Serves hit log cache hit.response refl)),
      )

  module _ (now : ℕ) where
    served_reply-Gives :
        (res : Resolved) (key : QueryKey) (v : Option ResponseVerdict) (log : LogBuilder)
        (cache cache' : DnsCache S) (served : Option InsertedWire)
        → (insert_inner lru k.cache_calls now key res.message v cache).0 ≡ served
        → Served
            (forwarded res.upstream)
            (Gives k.cache_calls.to_vec res.message)
            (served_reply lru k s served res log cache')
    unfolding served_reply finalize finalize_wire
    served_reply-Gives res key v log cache cache' none h = (inl refl, refl)
    served_reply-Gives res key v log cache cache' (some w) h = (
      inr (w.bytes, insert_inner-bytes lru k.cache_calls now key res.message v cache w h, refl),
      refl,
    )

    pub forwarded_reply-Gives :
        (res : Resolved) (key : QueryKey) (log : LogBuilder) (cache : DnsCache S) (query : Message)
        (r : Reply S) (a : QueryAction)
        → PassedOn a
        → filters_for lru k s client ≡ true
        → forwarded_reply lru k s client now res key log cache query ≡ some r
        → action_of r ≡ some a
        → Unblocked res.message.answers
          × Served (forwarded res.upstream) (Gives k.cache_calls.to_vec res.message) r
    unfolding forwarded_reply
    forwarded_reply-Gives res key log cache query r a p on h e =
        elim (Option-cases (answers_block lru k s client res.message.answers)) [
          | inl panicked ↦ absurd (none_some (rw (on, panicked, forwarded_reply) at h))
          | inr (found, is) ↦ by_found found is
        ]
      where
        none_some : {r : Reply S} → none ≢ some r
        none_some i = cc

        by_found :
            (found : Option MatchInfo)
            → answers_block lru k s client res.message.answers ≡ some found
            → Unblocked res.message.answers
              × Served (forwarded res.upstream) (Gives k.cache_calls.to_vec res.message) r
        by_found (some info) is = absurd (
            some-AllStop
              (blocked_reply lru k s info log
                (insert_inner lru k.cache_calls now key res.message (block_verdict lru k s info)
                  cache).1
                query)
              (blocked_reply-Stops lru k s info log
                (insert_inner lru k.cache_calls now key res.message (block_verdict lru k s info)
                  cache).1
                query)
              r (rw (on, is, forwarded_reply) at h) a p e)
        by_found none is = elim (Option-cases (kept_verdict lru k s client res.message.answers)) [
          | inl panicked ↦ absurd (none_some (rw panicked at (rw (on, is, forwarded_reply) at h)))
          | inr (v, kept) ↦ (
            is,
            subst (Served (forwarded res.upstream) (Gives k.cache_calls.to_vec res.message))
                (some_injective (rw kept at (rw (on, is, forwarded_reply) at h)))
                (served_reply-Gives res key v log cache
                  (insert_inner lru k.cache_calls now key res.message v cache).1
                  (insert_inner lru k.cache_calls now key res.message v cache).0 refl),
          )
        ]

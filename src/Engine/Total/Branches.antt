-- ===== src/Engine/Total/Branches.antt =====
-- lib.rs, the branches of `Engine::handle`: they return if no check panics.
use bulwark.Common.{
  ℕ, ◌≡◌, refl, ◌≢◌, inl, inr, Bool, true, false, not, ◌&&◌, Option, none, some, List, ◌==◌,
  if◌then◌else◌, Option-cases, is_some,
}
use bulwark.Common.Bytes.{Bytes}
use bulwark.Dns.{Record, Message}
use bulwark.Filter.Rule.{ClientInfo}
use bulwark.Filter.Engine.{check}
use bulwark.Filter.Engine.Builder.{MatchInfo, Verdict, allowed, blocked, rewritten, panic}
use bulwark.Clients.{ResolvedClient}
use bulwark.Cache.Snapshot.{QueryKey}
use bulwark.Cache.Lru.{LruCache}
use bulwark.Cache.Store.{DnsCache, get}
use bulwark.Cache.Entries.{CacheHit, Entry, requires_refresh, ResponseVerdict}
use bulwark.Engine.Answers.{client_info, cached_answers, rtype_label}
use bulwark.Engine.Ingress.{QueryFields, Lazy, msg, into_message}
use bulwark.Engine.Handler.{
  filters_for, answers_block, with_query, with_refresh, blocked_reply, rewritten_reply, hit_block,
  outcome_block, hit_reply, kept_verdict, verdict_of, forwarded_reply, resolve_reply, lookup_reply,
  start_log, domain_of, filtered_reply,
}
use bulwark.Engine.State.{Crates, Resolved, EngineState, LogBuilder, Reply, key_of, memoizes}
use bulwark.Engine.Total.Answers.{Returns, filter_answers-Returns}

module _ {S : Type 0} (lru : LruCache S Entry) (k : Crates) (s : EngineState)
    (never : (text rtype : Bytes) (c : ClientInfo)
      → check k.filters s.filter text rtype c ≢ panic) where
  pub with_query-Returns :
      (lazy : Lazy) (id : ℕ) (log : LogBuilder) (cache : DnsCache S)
      (f : Message → Option (Reply S))
      → ((query : Message) → Returns (f query))
      → Returns (with_query lru k s lazy id log cache f)
  unfolding with_query
  with_query-Returns lazy id log cache f h = elim (Option-cases (into_message k.from_vec lazy)) [
    | inl undecoded ↦ rw (undecoded, with_query) (_, refl)
    | inr (query, is) ↦ let (r, e) = h query in (r, rw (is, with_query) e)
  ]

  pub answers_block-Returns :
      (client : ResolvedClient) (answers : List Record)
      → Returns (answers_block lru k s client answers)
  answers_block-Returns client answers =
      filter_answers-Returns k.filters k.ip_text s.filter client never answers

  pub Returns-if {ℓ} :
      {A : Type ℓ} (b : Bool) (l r : Option A)
      → Returns l
      → Returns r
      → Returns (if b then l else r)
  Returns-if true l r h i = h
  Returns-if false l r h i = i

  hit_block-Returns :
      (client : ResolvedClient) (hit : CacheHit) → Returns (hit_block lru k s client hit)
  unfolding hit_block
  hit_block-Returns client hit =
      Returns-if (not (filters_for lru k s client)) _ _ (none, refl) (by_verdict hit.verdict)
    where
      live : Option (Option MatchInfo)
      live = answers_block lru k s client (cached_answers k.from_vec hit.response)

      by_verdict :
          (v : Option ResponseVerdict)
          → Returns (elim v [
            | none ↦ answers_block lru k s client (cached_answers k.from_vec hit.response)
            | some v ↦
                if not s.filter.has_client_dependent_rules && v.generation == s.filter.content_hash
                then some (outcome_block lru k s v.outcome)
                else answers_block lru k s client (cached_answers k.from_vec hit.response)
          ])
      by_verdict none = answers_block-Returns client (cached_answers k.from_vec hit.response)
      by_verdict (some v) =
          Returns-if
            (not s.filter.has_client_dependent_rules && v.generation == s.filter.content_hash) _ _
            (outcome_block lru k s v.outcome, refl)
            (answers_block-Returns client (cached_answers k.from_vec hit.response))

  hit_reply-Returns :
      (client : ResolvedClient) (hit : CacheHit) (lazy : Lazy) (id : ℕ) (key : QueryKey)
      (log : LogBuilder) (cache : DnsCache S)
      → Returns (hit_reply lru k s client hit lazy id key log cache)
  unfolding hit_reply
  hit_reply-Returns client hit lazy id key log cache =
      let (found, is) = hit_block-Returns client hit in by_found found is
    where
      by_found :
          (found : Option MatchInfo)
          → hit_block lru k s client hit ≡ some found
          → Returns (hit_reply lru k s client hit lazy id key log cache)
      by_found none is = rw (is, hit_reply) (_, refl)
      by_found (some info) is =
          rw (is, hit_reply)
            (with_query-Returns lazy id log cache
              (λ query. some (
                with_refresh lru k s (requires_refresh hit.freshness) (msg query) key
                  (blocked_reply lru k s info log cache query)))
              (λ query. (_, refl)))

  kept_verdict-Returns :
      (client : ResolvedClient) (answers : List Record)
      → Returns (kept_verdict lru k s client answers)
  unfolding kept_verdict
  kept_verdict-Returns client answers =
      Returns-if (not (memoizes s)) _ _ (none, refl)
        (Returns-if (filters_for lru k s client) _ _ (_, refl)
          (let (found, is) = answers_block-Returns client answers in
            (some (verdict_of lru k s found), rw is refl)))

  module _ (client : ResolvedClient) (now : ℕ) where
    forwarded_reply-Returns :
        (r : Resolved) (key : QueryKey) (log : LogBuilder) (cache : DnsCache S) (query : Message)
        → Returns (forwarded_reply lru k s client now r key log cache query)
    unfolding forwarded_reply
    forwarded_reply-Returns r key log cache query =
        let (found, is) =
          Returns-if (filters_for lru k s client) (answers_block lru k s client r.message.answers)
            (some none) (answers_block-Returns client r.message.answers) (none, refl) in
        by_found found is
      where
        by_found :
            (found : Option MatchInfo)
            → (if filters_for lru k s client
                then answers_block lru k s client r.message.answers
                else some none)
              ≡ some found
            → Returns (forwarded_reply lru k s client now r key log cache query)
        by_found (some info) is = rw (is, forwarded_reply) (_, refl)
        by_found none is =
            let (verdict, kept) = kept_verdict-Returns client r.message.answers in
            rw (is, forwarded_reply) (rw kept (_, refl))

    resolve_reply-Returns :
        (key : QueryKey) (log : LogBuilder) (cache : DnsCache S) (query : Message)
        → Returns (resolve_reply lru k s client now key log cache query)
    unfolding resolve_reply
    resolve_reply-Returns key log cache query = elim (Option-cases (s.resolve query)) [
      | inl failed ↦ rw (failed, resolve_reply) (_, refl)
      | inr (r, is) ↦
          rw (is, resolve_reply)
            (forwarded_reply-Returns r key (record log { upstream_rtt_ms = some r.rtt_ms }) cache
              query)
    ]

    pub lookup_reply-Returns :
        (f : QueryFields) (lazy : Lazy) (log : LogBuilder) (cache : DnsCache S)
        → Returns (lookup_reply lru k s client now f lazy log cache)
    unfolding lookup_reply
    lookup_reply-Returns f lazy log cache =
        let found = get lru k.cache_calls now (key_of f) f.id cache in
        elim (Option-cases found.0) [
          | inr (hit, is) ↦
              rw (is, lookup_reply) (hit_reply-Returns client hit lazy f.id (key_of f) log found.1)
          | inl missed ↦
              rw (missed, lookup_reply)
                (with_query-Returns lazy f.id log found.1
                  (resolve_reply lru k s client now (key_of f) log found.1)
                  (resolve_reply-Returns (key_of f) log found.1))
        ]

    pub filtered_reply-Returns :
        (f : QueryFields) (lazy : Lazy) (cache : DnsCache S)
        → Returns (filtered_reply lru k s client now f lazy cache)
    unfolding filtered_reply
    filtered_reply-Returns f lazy cache =
        by_verdict
          (check k.filters s.filter (domain_of lru k s f) (rtype_label k.other_type f.rtype)
            (client_info client))
          refl
      where
        by_verdict :
            (v : Verdict)
            → check k.filters s.filter
                (domain_of lru k s f)
                (rtype_label k.other_type f.rtype)
                (client_info client)
              ≡ v
            → Returns (filtered_reply lru k s client now f lazy cache)
        by_verdict (allowed rule) is =
            rw (is, filtered_reply)
              (lookup_reply-Returns f lazy
                (record (start_log lru k s client f) { allowlisted = is_some rule }) cache)
        by_verdict (blocked info) is =
            rw (is, filtered_reply)
              (with_query-Returns lazy f.id (start_log lru k s client f) cache
                (λ query.
                  some (blocked_reply lru k s info (start_log lru k s client f) cache query))
                (λ query. (_, refl)))
        by_verdict (rewritten info answer) is =
            rw (is, filtered_reply)
              (with_query-Returns lazy f.id (start_log lru k s client f) cache
                (λ query. some (
                  rewritten_reply lru k s info answer f.rtype (start_log lru k s client f) cache
                    query))
                (λ query. (_, refl)))
        by_verdict panic is =
            absurd (
              never (domain_of lru k s f) (rtype_label k.other_type f.rtype) (client_info client)
                is)

-- ===== src/Engine/Through.antt =====
-- lib.rs, `Engine::handle`: which answers get through to a client that is filtered.
pub mod Stopping
pub mod Replies
use bulwark.Common.{
  ℕ, zero, suc, ◌+◌, ◌-◌, ◌*◌, ◌/◌, ◌%◌, ◌^◌, ◌≤◌, ◌<◌, min, max, ◌≡◌, refl, sym, ap, ap₂, subst,
  ◌∙◌, fun_ext, ◌≢◌, ◌↔◌, ◌⊎◌, inl, inr, Bool, true, false, not, ◌&&◌, ◌||◌, Option, none, some,
  List, [], ◌∷◌, ◌++◌, map, append-nil, append_assoc, arith, ltb, leb, ◌==◌, if◌then◌else◌, ltb→lt,
  lt→ltb, leb→le, le→leb, ==_iff, Bool-cases, Option-cases, ◌>>=◌, ◌>>◌, guard, >>=-eq-some,
  guard-eq-some, is_some, unwrap_or, length, get_elem?, set, get_or, take, drop, any, all, keep_if,
  All, In, here, there, length-append, length-set, get_elem?-set_self, get_elem?-set_ne,
  get_elem?-lt-length, length-take, length-drop, take-append_self, drop-append_self, drop-drop,
  get_elem?-drop, In-append_left, In-append_right, All-In, get_elem?-append_left,
  get_elem?-append_length, take-append_left, span-append_left, take-length, In-append, get_elem?-In,
  In-get_elem?, In-map, some_injective,
}
use bulwark.Common.Bytes.{Bytes}
use bulwark.Net.{IpAddr}
use bulwark.Dns.{Record, Message}
use bulwark.Wire.{scan_ttl_offsets}
use bulwark.Filter.Rule.{RewriteData}
use bulwark.Filter.Engine.{check}
use bulwark.Filter.Engine.Builder.{MatchInfo, Verdict, allowed, blocked, rewritten, panic}
use bulwark.Clients.{ResolvedClient, identify}
use bulwark.Cache.Snapshot.{QueryKey}
use bulwark.Cache.Lru.{LruCache}
use bulwark.Cache.Message.{CacheConfig, cacheable_ttl}
use bulwark.Cache.Store.{DnsCache, Calls, get, store, insert_inner}
use bulwark.Cache.Entries.{
  CacheHit, CachedResponse, ResponseVerdict, Outcome, clean, block, InsertedWire, Entry,
  requires_refresh,
}
use bulwark.Engine.Block.{
  Rewritten, done, resolve_cname, rewrite_response, error_response, code_serv_fail,
}
use bulwark.Engine.Answers.{client_info, cached_answers, rtype_label}
use bulwark.Engine.Ingress.{
  Ingress, QueryFields, Lazy, msg, into_message, into_parts, formerr, EngineResponse,
}
use bulwark.Engine.Handler.{
  filters_for, answers_block, finalize, finalize_wire, with_query, blocked_reply, rewritten_reply,
  hit_block, outcome_block, with_refresh, cached_reply, hit_reply, kept_verdict, block_verdict,
  served_reply, forwarded_reply, resolve_reply, lookup_reply, start_log, domain_of, filtered_reply,
  handle,
}
use bulwark.Engine.State.{
  Crates, Resolved, EngineState, QueryAction, forwarded, cached, error, rewritten_by, LogBuilder,
  Logged, Reply, key_of, action_of_block, cname_query, append_resolved,
}
use bulwark.Engine.Through.Stopping.{
  action_of, PassedOn, from_upstream, from_cache, Stops, AllStop, some-AllStop, finalize-Stops,
  rewritten_reply-Stops, blocked_reply-Stops, with_query-AllStop, with_query-passed,
  refreshed_block-AllStop,
}
use bulwark.Engine.Through.Replies.{
  Serves, Gives, Served, Unblocked, CleanHit, hit_reply-Serves, forwarded_reply-Gives,
}

module _ {S : Type 0} (lru : LruCache S Entry) (k : Crates) (s : EngineState)
    (client : ResolvedClient) where
  module _ (now : ℕ) where
    resolve_reply-Gives :
        (key : QueryKey) (log : LogBuilder) (cache : DnsCache S) (query : Message) (r : Reply S)
        (a : QueryAction)
        → PassedOn a
        → filters_for lru k s client ≡ true
        → resolve_reply lru k s client now key log cache query ≡ some r
        → action_of r ≡ some a
        → (res : Resolved) × (s.resolve query ≡ some res)
          × Unblocked lru k s client res.message.answers
          × Served (forwarded res.upstream) (Gives k.cache_calls.to_vec res.message) r
    unfolding resolve_reply
    resolve_reply-Gives key log cache query r a p on h e = elim (Option-cases (s.resolve query)) [
      | inl failed ↦ absurd (
          some-AllStop (finalize lru k s (error_response query code_serv_fail) error log cache)
            (finalize-Stops lru k s (error_response query code_serv_fail) error log cache
              (λ q. elim q [ ]))
            r (rw (failed, resolve_reply) at h) a p e)
      | inr (res, is) ↦
          let (passes, served) =
            forwarded_reply-Gives lru k s client now res key
              (record log { upstream_rtt_ms = some res.rtt_ms }) cache query r a p on
              (rw (is, resolve_reply) at h) e in
          (res, is, passes, served)
    ]

    -- The hit of the cache, clean, and what it holds; or the answer of the upstreams to the decoded
    -- query, not blocked, and its message.
    abbrev pub Clean : QueryFields → Lazy → DnsCache S → Reply S → Type 0
    Clean f lazy cache r =
        ((hit : CacheHit) × ((get lru k.cache_calls now (key_of f) f.id cache).0 ≡ some hit)
          × CleanHit lru k s client hit
          × Served cached (Serves hit.response) r)
        ⊎ ((query : Message) × (res : Resolved) × (into_message k.from_vec lazy ≡ some query)
            × (s.resolve query ≡ some res)
            × Unblocked lru k s client res.message.answers
            × Served (forwarded res.upstream) (Gives k.cache_calls.to_vec res.message) r)

    lookup_reply-Clean :
        (f : QueryFields) (lazy : Lazy) (log : LogBuilder) (cache : DnsCache S) (r : Reply S)
        (a : QueryAction)
        → PassedOn a
        → filters_for lru k s client ≡ true
        → lookup_reply lru k s client now f lazy log cache ≡ some r
        → action_of r ≡ some a
        → Clean f lazy cache r
    unfolding lookup_reply
    lookup_reply-Clean f lazy log cache r a p on h e =
        let found = get lru k.cache_calls now (key_of f) f.id cache in
        elim (Option-cases found.0) [
          | inr (hit, is) ↦
              let (passes, served) =
                hit_reply-Serves lru k s client hit lazy f.id (key_of f) log found.1 r a p on
                  (rw (is, lookup_reply) at h) e in
              inl (hit, is, passes, served)
          | inl missed ↦
              let (query, decoded, g) =
                with_query-passed lru k s lazy f.id log found.1
                  (resolve_reply lru k s client now (key_of f) log found.1) r a p
                  (rw (missed, lookup_reply) at h) e in
              let (res, is, passes, served) =
                resolve_reply-Gives (key_of f) log found.1 query r a p on g e in
              inr (query, res, decoded, is, passes, served)
        ]

    filtered_reply-Clean :
        (f : QueryFields) (lazy : Lazy) (cache : DnsCache S) (r : Reply S) (a : QueryAction)
        → PassedOn a
        → filters_for lru k s client ≡ true
        → filtered_reply lru k s client now f lazy cache ≡ some r
        → action_of r ≡ some a
        → ((rule : Option MatchInfo) × (check k.filters s.filter
                (domain_of lru k s f)
                (rtype_label k.other_type f.rtype)
                (client_info client)
              ≡ allowed rule))
          × Clean f lazy cache r
    unfolding filtered_reply
    filtered_reply-Clean f lazy cache r a p on h e =
        by_verdict
          (check k.filters s.filter (domain_of lru k s f) (rtype_label k.other_type f.rtype)
            (client_info client))
          refl
      where
        by_verdict :
            (v : Verdict)
            → check k.filters s.filter
                (domain_of lru k s f)
                (rtype_label k.other_type f.rtype)
                (client_info client)
              ≡ v
            → ((rule : Option MatchInfo) × (check k.filters s.filter
                    (domain_of lru k s f)
                    (rtype_label k.other_type f.rtype)
                    (client_info client)
                  ≡ allowed rule))
              × Clean f lazy cache r
        by_verdict (allowed rule) is = (
          (rule, is),
          lookup_reply-Clean f lazy
              (record (start_log lru k s client f) { allowlisted = is_some rule }) cache r a p on
              (rw (is, filtered_reply) at h) e,
        )
        by_verdict (blocked info) is =
            let reply = blocked_reply lru k s info (start_log lru k s client f) cache in
            absurd (
              with_query-AllStop lru k s lazy f.id (start_log lru k s client f) cache
                (λ query. some (reply query))
                (λ query.
                  some-AllStop (reply query)
                    (blocked_reply-Stops lru k s info (start_log lru k s client f) cache query))
                r (rw (is, filtered_reply) at h) a p e)
        by_verdict (rewritten info answer) is =
            let reply =
              rewritten_reply lru k s info answer f.rtype (start_log lru k s client f) cache in
            absurd (
              with_query-AllStop lru k s lazy f.id (start_log lru k s client f) cache
                (λ query. some (reply query))
                (λ query. some-AllStop (reply query) (
                  rewritten_reply-Stops lru k s info answer f.rtype (start_log lru k s client f)
                    cache query))
                r (rw (is, filtered_reply) at h) a p e)
        by_verdict panic is = absurd (none_some (rw (is, filtered_reply) at h))
          where
            none_some : {r : Reply S} → none ≢ some r
            none_some i = cc

module _ {S : Type 0} (lru : LruCache S Entry) (k : Crates) (s : EngineState) where
  -- Let the handler give a reply to a client whose queries are filtered, and log that the answer
  -- was forwarded or came from the cache. Then the filter allowed the name, and either the reply
  -- gives the bytes or the message of the hit of the cache, whose verdict is clean, of the
  -- present filter and that filter has no rules for clients, or whose answers the filter does not
  -- block; or it gives the message that the upstreams answered to the decoded query, or the bytes
  -- that this encodes to, and the filter does not block its answers. The action that it logs is
  -- the one that belongs to its source.
  pub handle-Clean :
      (now : ℕ) (ingress : Ingress) (client_ip : IpAddr) (cache : DnsCache S) (r : Reply S)
      (f : QueryFields) (lazy : Lazy) (a : QueryAction)
      → PassedOn a
      → into_parts ingress ≡ inr (f, lazy)
      → filters_for lru k s (identify k.addresses s.clients client_ip) ≡ true
      → handle lru k s now ingress client_ip cache ≡ some r
      → action_of r ≡ some a
      → ((rule : Option MatchInfo) × (check k.filters s.filter
              (domain_of lru k s f)
              (rtype_label k.other_type f.rtype)
              (client_info (identify k.addresses s.clients client_ip))
            ≡ allowed rule))
        × Clean lru k s (identify k.addresses s.clients client_ip) now f lazy cache r
  unfolding handle
  handle-Clean now ingress client_ip cache r f lazy a p parts on h e =
      filtered_reply-Clean lru k s (identify k.addresses s.clients client_ip) now f lazy cache r a p
        on (rw (parts, on, handle) at h) e

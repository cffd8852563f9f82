-- ===== src/Engine/Handler.antt =====
-- crates/bulwark-engine/src/lib.rs: `Engine::handle`. What goes out of the engine is in the reply: the
-- response, what is logged, the cache, and a refresh that is to run in the background.
use bulwark.Common.{
  ℕ, inl, inr, Bool, true, false, not, ◌&&◌, Option, none, some, List, [], ◌==◌, if◌then◌else◌,
  ◌>>=◌, is_some,
}
use bulwark.Common.Bytes.{Bytes}
use bulwark.Net.{IpAddr, v4}
use bulwark.Dns.{Record, Message}
use bulwark.Filter.Rule.{RewriteData}
use bulwark.Filter.Text.{trim_end_matches}
use bulwark.Filter.Engine.{check}
use bulwark.Filter.Engine.Builder.{MatchInfo, allowed, blocked, rewritten, panic}
use bulwark.Clients.{ResolvedClient, identify}
use bulwark.Cache.Snapshot.{QueryKey}
use bulwark.Cache.Lru.{LruCache}
use bulwark.Cache.Store.{DnsCache, get, insert_inner, note_refresh_started, note_refresh_failed}
use bulwark.Cache.Entries.{
  ResponseVerdict, Outcome, clean, block, CacheHit, requires_refresh, CachedResponse, InsertedWire,
  Entry,
}
use bulwark.Engine.Block.{
  block_response, done, resolve_cname, rewrite_response, error_response, code_form_err,
  code_serv_fail,
}
use bulwark.Engine.Answers.{client_info, filter_answers, cached_answers, rcode_label, rtype_label}
use bulwark.Engine.Ingress.{
  Ingress, QueryFields, Lazy, msg, into_message, into_parts, formerr, EngineResponse,
}
use bulwark.Engine.State.{
  Crates, Resolved, EngineState, QueryAction, forwarded, cached, error, rewritten_by, LogBuilder,
  Refresh, Reply, key_of, action_of_block, cname_query, append_resolved, memoizes,
}

module _ {S : Type 0} (lru : LruCache S Entry) (k : Crates) (s : EngineState) where
  abbrev pub filters_for : ResolvedClient → Bool
  filters_for client = s.filtering_enabled && client.filtering_enabled

  -- `none` is a panic, here and in the results of the functions below.
  abbrev pub answers_block : ResolvedClient → List Record → Option (Option MatchInfo)
  answers_block client = filter_answers k.filters k.ip_text s.filter client

  unfoldable pub finalize : Message → QueryAction → LogBuilder → DnsCache S → Reply S
  finalize resp action log cache = record {
    response = EngineResponse.message resp;
    logged = some (record {
      log = log;
      action = action;
      rcode = rcode_label k.other_code resp.response_code;
    });
    cache = cache;
    refresh = none;
  }

  unfoldable pub finalize_wire : Bytes → ℕ → QueryAction → LogBuilder → DnsCache S → Reply S
  finalize_wire bytes rcode action log cache = record {
    response = EngineResponse.wire bytes;
    logged = some (record { log = log; action = action; rcode = rcode_label k.other_code rcode });
    cache = cache;
    refresh = none;
  }

  -- A response made from the whole query, which may not decode.
  unfoldable pub with_query :
      Lazy → ℕ → LogBuilder → DnsCache S → (Message → Option (Reply S)) → Option (Reply S)
  unfolding into_message finalize formerr
  with_query lazy id log cache f = elim (into_message k.from_vec lazy) [
    | none ↦ some (finalize (formerr id) error log cache)
    | some query ↦ f query
  ]

  abbrev pub blocked_reply : MatchInfo → LogBuilder → DnsCache S → Message → Reply S
  blocked_reply info log cache query =
      finalize (block_response k.from_str query s.blocking_mode s.block_v4 s.block_v6 s.blocked_ttl)
        (action_of_block info) log cache

  unfoldable pub rewritten_reply :
      MatchInfo → RewriteData → ℕ → LogBuilder → DnsCache S → Message → Reply S
  unfolding finalize cname_query append_resolved
  rewritten_reply info answer rtype log cache query =
      let action = rewritten_by info.rule info.list_id in
      elim (rewrite_response k.from_str query answer s.blocked_ttl) [
        | done m ↦ finalize m action log cache
        | resolve_cname m target ↦
            finalize (append_resolved (s.resolve (cname_query k.random target rtype)) m) action log
              cache
      ]

  abbrev pub outcome_block : Outcome → Option MatchInfo
  outcome_block clean = none
  outcome_block (block info) = some info

  -- The block that a cached answer comes under: by its verdict where that holds, else by its answers.
  unfoldable pub hit_block : ResolvedClient → CacheHit → Option (Option MatchInfo)
  hit_block client hit =
      let live = answers_block client (cached_answers k.from_vec hit.response) in
      if not (filters_for client) then some none else elim hit.verdict [
        | none ↦ live
        | some v ↦
            if not s.filter.has_client_dependent_rules && v.generation == s.filter.content_hash
            then some (outcome_block v.outcome)
            else live
      ]

  abbrev pub with_refresh : Bool → Lazy → QueryKey → Reply S → Reply S
  with_refresh on lazy key r =
      if on
      then record r {
        cache = note_refresh_started lru r.cache;
        refresh = some (record { memoize = memoizes s; lazy = lazy; key = key });
      }
      else r

  unfoldable pub cached_reply : CacheHit → LogBuilder → DnsCache S → Reply S
  unfolding finalize finalize_wire
  cached_reply hit log cache = elim hit.response [
    | CachedResponse.wire bytes rcode answers ↦ finalize_wire bytes rcode cached log cache
    | CachedResponse.message m ↦ finalize m cached log cache
  ]

  unfoldable pub hit_reply :
      ResolvedClient → CacheHit → Lazy → ℕ → QueryKey → LogBuilder → DnsCache S → Option (Reply S)
  unfolding hit_block with_query cached_reply
  hit_reply client hit lazy id key log cache =
      let stale = requires_refresh hit.freshness in
      elim (hit_block client hit) [
        | none ↦ none
        | some block_info ↦ elim block_info [
          | some info ↦ with_query lazy id log cache (λ query.
              some (with_refresh stale (msg query) key (blocked_reply info log cache query)))
          | none ↦ some (with_refresh stale lazy key (cached_reply hit log cache))
        ]
      ]

  abbrev pub outcome_of : Option MatchInfo → Outcome
  outcome_of none = clean
  outcome_of (some info) = block info

  abbrev pub verdict_of : Option MatchInfo → ResponseVerdict
  verdict_of b = record { generation = s.filter.content_hash; outcome = outcome_of b }

  -- The verdict that an answer is kept with when it blocks the client, if verdicts are kept.
  abbrev pub block_verdict : MatchInfo → Option ResponseVerdict
  block_verdict info = if memoizes s then some (verdict_of (some info)) else none

  -- And when it does not: an answer for a client that is not filtered is checked for the others.
  unfoldable pub kept_verdict : ResolvedClient → List Record → Option (Option ResponseVerdict)
  unfolding memoizes
  kept_verdict client answers =
      if not (memoizes s)
      then some none
      else if filters_for client
      then some (some (verdict_of none))
      else elim (answers_block client answers) [
        | none ↦ none
        | some found ↦ some (some (verdict_of found))
      ]

  -- With the bytes that the cache has made of the answer, if it has.
  unfoldable pub served_reply : Option InsertedWire → Resolved → LogBuilder → DnsCache S → Reply S
  unfolding finalize finalize_wire
  served_reply (some w) r log cache = finalize_wire w.bytes w.rcode (forwarded r.upstream) log cache
  served_reply none r log cache = finalize r.message (forwarded r.upstream) log cache

  unfoldable pub forwarded_reply :
      ResolvedClient
      → ℕ
      → Resolved
      → QueryKey
      → LogBuilder
      → DnsCache S
      → Message
      → Option (Reply S)
  unfolding served_reply kept_verdict
  forwarded_reply client now r key log cache query =
      let this_block =
        if filters_for client then answers_block client r.message.answers else some none in
      elim this_block [
        | none ↦ none
        | some found ↦ elim found [
          | some info ↦ some (
              blocked_reply info log
                (insert_inner lru k.cache_calls now key r.message (block_verdict info) cache).1
                query)
          | none ↦ elim (kept_verdict client r.message.answers) [
            | none ↦ none
            | some verdict ↦
                let (served, cache') =
                  insert_inner lru k.cache_calls now key r.message verdict cache in
                some (served_reply served r log cache')
          ]
        ]
      ]

  unfoldable pub resolve_reply :
      ResolvedClient → ℕ → QueryKey → LogBuilder → DnsCache S → Message → Option (Reply S)
  unfolding finalize forwarded_reply
  resolve_reply client now key log cache query = elim (s.resolve query) [
    | some r ↦
        forwarded_reply client now r key (record log { upstream_rtt_ms = some r.rtt_ms }) cache
          query
    | none ↦ some (finalize (error_response query code_serv_fail) error log cache)
  ]

  -- Behind the filter: the cache, then the upstreams.
  unfoldable pub lookup_reply :
      ResolvedClient → ℕ → QueryFields → Lazy → LogBuilder → DnsCache S → Option (Reply S)
  unfolding hit_reply resolve_reply with_query
  lookup_reply client now f lazy log cache =
      let (hit, cache') = get lru k.cache_calls now (key_of f) f.id cache in
      elim hit [
        | some h ↦ hit_reply client h lazy f.id (key_of f) log cache'
        | none ↦ with_query lazy f.id log cache' (resolve_reply client now (key_of f) log cache')
      ]

  abbrev pub start_log : ResolvedClient → QueryFields → LogBuilder
  start_log client f = record {
    client_ip = client.ip;
    question = f.qname_display;
    qtype = rtype_label k.other_type f.rtype;
    allowlisted = false;
    upstream_rtt_ms = none;
  }

  abbrev pub domain_of : QueryFields → Bytes
  domain_of f = trim_end_matches b'.' f.name_lower

  unfoldable pub filtered_reply :
      ResolvedClient → ℕ → QueryFields → Lazy → DnsCache S → Option (Reply S)
  unfolding with_query rewritten_reply lookup_reply
  filtered_reply client now f lazy cache =
      let log = start_log client f in
      elim (check k.filters s.filter (domain_of f) (rtype_label k.other_type f.rtype)
        (client_info client)) [
          | blocked info ↦
              with_query lazy f.id log cache (λ query. some (blocked_reply info log cache query))
          | rewritten info answer ↦
              with_query lazy f.id log cache
                (λ query. some (rewritten_reply info answer f.rtype log cache query))
          | allowed rule ↦
              lookup_reply client now f lazy (record log { allowlisted = is_some rule }) cache
          | panic ↦ none
        ]

  unfoldable pub handle : ℕ → Ingress → IpAddr → DnsCache S → Option (Reply S)
  unfolding into_parts filtered_reply lookup_reply
  handle now ingress client_ip cache =
      let client = identify k.addresses s.clients client_ip in
      elim (into_parts ingress) [
        | inl m ↦ some (record {
          response = EngineResponse.message (error_response m code_form_err);
          logged = none;
          cache = cache;
          refresh = none;
        })
        | inr (f, lazy) ↦
            if filters_for client
            then filtered_reply client now f lazy cache
            else lookup_reply client now f lazy (start_log client f) cache
      ]

  abbrev pub placeholder : ResolvedClient
  placeholder = record { ip = v4 0; name = none; tags = []; filtering_enabled = true }

  -- The task that `spawn_refresh` starts; `s` is the state at that time.
  unfoldable pub run_refresh : ℕ → Refresh → DnsCache S → Option (DnsCache S)
  unfolding into_message
  run_refresh now r cache = elim (into_message k.from_vec r.lazy >>= s.resolve) [
    | none ↦ some (note_refresh_failed lru cache)
    | some resolved ↦
        if r.memoize
        then (elim (answers_block placeholder resolved.message.answers) [
          | none ↦ none
          | some found ↦
              some
                (insert_inner lru k.cache_calls now r.key resolved.message (some (verdict_of found))
                  cache).1
        ])
        else some (insert_inner lru k.cache_calls now r.key resolved.message none cache).1
  ]

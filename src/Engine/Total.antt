-- ===== src/Engine/Total.antt =====
-- lib.rs, `Engine::handle`, with a filter compiled from lists: every query gets a reply, and a refresh ends.
pub mod Answers
pub mod Branches
use bulwark.Common.{
  ℕ, zero, suc, ◌+◌, ◌-◌, ◌*◌, ◌/◌, ◌%◌, ◌^◌, ◌≤◌, ◌<◌, min, max, ◌≡◌, refl, sym, ap, ap₂, subst,
  ◌∙◌, fun_ext, ◌≢◌, ◌↔◌, ◌⊎◌, inl, inr, Bool, true, false, not, ◌&&◌, ◌||◌, Option, none, some,
  List, [], ◌∷◌, ◌++◌, map, append-nil, append_assoc, arith, ltb, leb, ◌==◌, if◌then◌else◌, ltb→lt,
  lt→ltb, leb→le, le→leb, ==_iff, Bool-cases, Option-cases, ◌>>=◌, ◌>>◌, guard, >>=-eq-some,
  guard-eq-some, is_some, unwrap_or, length, get_elem?, set, get_or, take, drop, any, all, keep_if,
  All, In, here, there, length-append, length-set, get_elem?-set_self, get_elem?-set_ne,
  get_elem?-lt-length, length-take, length-drop, take-append_self, drop-append_self, drop-drop,
  get_elem?-drop, In-append_left, In-append_right, All-In, get_elem?-append_left,
  get_elem?-append_length, take-append_left, span-append_left, take-length, In-append, get_elem?-In,
  In-get_elem?, In-map, some_injective,
}
use bulwark.Common.Bytes.{Bytes, codes}
use bulwark.Net.{IpAddr, v4, v6}
use bulwark.Dns.{SvcParam, ipv4_hint, ipv6_hint, other_param, RData, Record, Message}
use bulwark.Filter.Text.{trim_end_matches}
use bulwark.Filter.Rule.{ClientInfo}
use bulwark.Filter.Engine.{check}
use bulwark.Filter.Engine.Builder.{
  MatchInfo, Verdict, allowed, blocked, rewritten, panic, FilterEngine,
}
use bulwark.Filter.External.{External, IsDocumented}
use bulwark.Filter.Compiler.{Compiler, compile}
use bulwark.Filter.Parser.Modifiers.{Reading}
use bulwark.Filter.Parsing.Patterns.{MatchesGlobs}
use bulwark.Filter.Lists.{IsRoomy}
use bulwark.Filter.Lists.Reached.{Built}
use bulwark.Filter.Answered.{check-never_panics}
use bulwark.Clients.{ResolvedClient, identify}
use bulwark.Cache.Snapshot.{QueryKey}
use bulwark.Cache.Lru.{LruCache}
use bulwark.Cache.Store.{DnsCache, get, insert_inner, note_refresh_failed}
use bulwark.Cache.Entries.{CacheHit, Entry, requires_refresh, ResponseVerdict}
use bulwark.Engine.Block.{error_response, code_form_err, code_serv_fail}
use bulwark.Engine.Answers.{
  client_info, block_of, find_block, param_block, hint_block, record_block, filter_answers,
  cached_answers, rtype_label,
}
use bulwark.Engine.Ingress.{
  Ingress, QueryFields, Lazy, msg, into_message, into_parts, formerr, EngineResponse,
}
use bulwark.Engine.Handler.{
  filters_for, answers_block, finalize, with_query, with_refresh, blocked_reply, rewritten_reply,
  cached_reply, hit_block, outcome_block, hit_reply, kept_verdict, verdict_of, block_verdict,
  forwarded_reply, resolve_reply, lookup_reply, start_log, domain_of, filtered_reply, handle,
  run_refresh, placeholder,
}
use bulwark.Engine.State.{
  Crates, Resolved, EngineState, LogBuilder, Refresh, Reply, key_of, error, memoizes,
}
use bulwark.Engine.Total.Answers.{Returns}
use bulwark.Engine.Total.Branches.{
  answers_block-Returns, Returns-if, lookup_reply-Returns, filtered_reply-Returns,
}

module _ {S : Type 0} (lru : LruCache S Entry) (k : Crates) (s : EngineState)
    (never : (text rtype : Bytes) (c : ClientInfo)
      → check k.filters s.filter text rtype c ≢ panic) where
  handle-Returns :
      (now : ℕ) (ingress : Ingress) (client_ip : IpAddr) (cache : DnsCache S)
      → Returns (handle lru k s now ingress client_ip cache)
  unfolding handle
  handle-Returns now ingress client_ip cache = by_parts (into_parts ingress)
    where
      client : ResolvedClient
      client = identify k.addresses s.clients client_ip

      by_parts :
          (parts : Message ⊎ (QueryFields × Lazy))
          → Returns {A = Reply S} (elim parts [
            | inl m ↦ some (record {
              response = EngineResponse.message (error_response m code_form_err);
              logged = none;
              cache = cache;
              refresh = none;
            })
            | inr (f, lazy) ↦
                if filters_for lru k s client
                then filtered_reply lru k s client now f lazy cache
                else lookup_reply lru k s client now f lazy (start_log lru k s client f) cache
          ])
      by_parts (inl m) = (_, refl)
      by_parts (inr (f, lazy)) =
          Returns-if lru k s never (filters_for lru k s client)
            (filtered_reply lru k s client now f lazy cache)
            (lookup_reply lru k s client now f lazy (start_log lru k s client f) cache)
            (filtered_reply-Returns lru k s never client now f lazy cache)
            (lookup_reply-Returns lru k s never client now f lazy (start_log lru k s client f)
              cache)

  run_refresh-Returns :
      (now : ℕ) (job : Refresh) (cache : DnsCache S) → Returns (run_refresh lru k s now job cache)
  unfolding run_refresh
  run_refresh-Returns now job cache =
      elim (Option-cases (into_message k.from_vec job.lazy >>= s.resolve)) [
        | inl failed ↦ rw (failed, run_refresh) (_, refl)
        | inr (r, is) ↦
            let (found, same) =
              answers_block-Returns lru k s never (placeholder lru k s) r.message.answers in
            rw (is, run_refresh)
              (Returns-if lru k s never job.memoize _ _ (rw same (_, refl)) (_, refl))
      ]

module _ {S : Type 0} (lru : LruCache S Entry) (k : Crates) (s : EngineState) (rd : Reading)
    (d : IsDocumented k.filters) (globs : MatchesGlobs k.filters) (c : Compiler)
    (built_up : Built rd c) (room : IsRoomy c) (from_lists : s.filter ≡ (compile k.filters c).0)
    (now : ℕ) where
  check_returns :
      (text rtype : Bytes) (client : ClientInfo)
      → check k.filters s.filter text rtype client ≢ panic
  check_returns text rtype client =
      subst (λ filter. check k.filters filter text rtype client ≢ panic) (sym from_lists)
        (check-never_panics rd k.filters d globs c built_up room text rtype client)

  -- Let the crates behave as documented, the filter of the engine be compiled from lists of ASCII
  -- lines that the parser reads, its rules fit the widths of the arenas, and the regex of a
  -- wildcard pattern match only where the pattern does. Then the handler replies to every query,
  -- and a refresh runs to its end, whatever name is asked, whatever the cache, the client and the
  -- upstreams, and whatever their answers hold: no check of a name or of an answer is the panic
  -- on a rewrite rule that has no answer.
  pub handle-replies :
      (ingress : Ingress) (client_ip : IpAddr) (cache later_cache : DnsCache S) (job : Refresh)
      → ((r : Reply S) × (handle lru k s now ingress client_ip cache ≡ some r))
        × ((c' : DnsCache S) × (run_refresh lru k s now job later_cache ≡ some c'))
  handle-replies ingress client_ip cache later_cache job = (
    handle-Returns lru k s check_returns now ingress client_ip cache,
    run_refresh-Returns lru k s check_returns now job later_cache,
  )

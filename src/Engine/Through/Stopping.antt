-- ===== src/Engine/Through/Stopping.antt =====
-- lib.rs, `Engine::handle`: replies that pass no answer on.
use bulwark.Common.{
  ℕ, ◌≡◌, refl, sym, subst, ◌∙◌, ◌≢◌, inl, inr, Bool, true, false, Option, some, Option-cases,
  ◌>>=◌, some_injective,
}
use bulwark.Common.Bytes.{Bytes}
use bulwark.Dns.{Message}
use bulwark.Filter.Rule.{RewriteData}
use bulwark.Filter.Engine.Builder.{MatchInfo}
use bulwark.Cache.Snapshot.{QueryKey}
use bulwark.Cache.Lru.{LruCache}
use bulwark.Cache.Store.{DnsCache}
use bulwark.Cache.Entries.{Entry}
use bulwark.Engine.Block.{Rewritten, done, resolve_cname, rewrite_response}
use bulwark.Engine.Ingress.{Lazy, msg, into_message, formerr}
use bulwark.Engine.Handler.{finalize, with_query, blocked_reply, rewritten_reply, with_refresh}
use bulwark.Engine.State.{
  Crates, EngineState, QueryAction, forwarded, cached, error, rewritten_by, LogBuilder, Logged,
  Reply, action_of_block, cname_query, append_resolved,
}

abbrev pub action_of : {S : Type 0} → Reply S → Option QueryAction
action_of r = r.logged >>= λ (l : Logged). some l.action

-- Passed on as it came, from the upstreams or from the cache.
pub data PassedOn : QueryAction → Type 0 where
  from_upstream : (u : Bytes) → PassedOn (forwarded u)
  from_cache : PassedOn cached

-- The action of a reply is none of those.
abbrev pub Stops : {S : Type 0} → Reply S → Type 0
Stops r = (a : QueryAction) → PassedOn a → action_of r ≢ some a

-- A call that gives no reply but such a one.
abbrev pub AllStop : {S : Type 0} → Option (Reply S) → Type 0
AllStop {S = S} o = (r : Reply S) → o ≡ some r → Stops r

not_passed :
    (b a : QueryAction) → ¬ PassedOn b → PassedOn a → ◌≢◌ {A = Option QueryAction} (some b) (some a)
not_passed b a h p e = h (subst PassedOn (sym (some_injective e)) p)

pub some-AllStop : {S : Type 0} (r : Reply S) → Stops r → AllStop (some r)
some-AllStop r h r' e = subst Stops (some_injective e) h

module _ {S : Type 0} (lru : LruCache S Entry) (k : Crates) (s : EngineState) where
  pub finalize-Stops :
      (resp : Message) (action : QueryAction) (log : LogBuilder) (cache : DnsCache S)
      → ¬ PassedOn action
      → Stops (finalize lru k s resp action log cache)
  unfolding finalize
  finalize-Stops resp action log cache h a p = not_passed action a h p

  pub rewritten_reply-Stops :
      (info : MatchInfo) (answer : RewriteData) (rtype : ℕ) (log : LogBuilder) (cache : DnsCache S)
      (query : Message)
      → Stops (rewritten_reply lru k s info answer rtype log cache query)
  unfolding rewritten_reply
  rewritten_reply-Stops info answer rtype log cache query =
      by_rewrite (rewrite_response k.from_str query answer s.blocked_ttl)
    where
      by_rewrite :
          (w : Rewritten)
          → Stops (elim w [
            | done m ↦ finalize lru k s m (rewritten_by info.rule info.list_id) log cache
            | resolve_cname m target ↦
                finalize lru k s
                  (append_resolved (s.resolve (cname_query k.random target rtype)) m)
                  (rewritten_by info.rule info.list_id)
                  log
                  cache
          ])
      by_rewrite (done m) =
          finalize-Stops m (rewritten_by info.rule info.list_id) log cache (λ p. elim p [ ])
      by_rewrite (resolve_cname m target) =
          finalize-Stops (append_resolved (s.resolve (cname_query k.random target rtype)) m)
            (rewritten_by info.rule info.list_id) log cache (λ p. elim p [ ])

  pub blocked_reply-Stops :
      (info : MatchInfo) (log : LogBuilder) (cache : DnsCache S) (query : Message)
      → Stops (blocked_reply lru k s info log cache query)
  blocked_reply-Stops info log cache query =
      finalize-Stops _ (action_of_block info) log cache (λ p. elim p [ ])

  pub with_query-AllStop :
      (lazy : Lazy) (id : ℕ) (log : LogBuilder) (cache : DnsCache S)
      (f : Message → Option (Reply S))
      → ((query : Message) → AllStop (f query))
      → AllStop (with_query lru k s lazy id log cache f)
  unfolding with_query
  with_query-AllStop lazy id log cache f h = elim (Option-cases (into_message k.from_vec lazy)) [
    | inl undecoded ↦
        rw (undecoded, with_query)
          (some-AllStop (finalize lru k s (formerr id) error log cache)
            (finalize-Stops (formerr id) error log cache (λ p. elim p [ ])))
    | inr (query, is) ↦ rw (is, with_query) (h query)
  ]

  pub with_query-passed :
      (lazy : Lazy) (id : ℕ) (log : LogBuilder) (cache : DnsCache S)
      (f : Message → Option (Reply S)) (r : Reply S) (a : QueryAction)
      → PassedOn a
      → with_query lru k s lazy id log cache f ≡ some r
      → action_of r ≡ some a
      → (query : Message) × (into_message k.from_vec lazy ≡ some query) × (f query ≡ some r)
  unfolding with_query
  with_query-passed lazy id log cache f r a p h e =
      elim (Option-cases (into_message k.from_vec lazy)) [
        | inl undecoded ↦ absurd (
            some-AllStop (finalize lru k s (formerr id) error log cache)
              (finalize-Stops (formerr id) error log cache (λ q. elim q [ ])) r
              (rw (undecoded, with_query) at h) a p e)
        | inr (query, is) ↦ (query, is, rw (is, with_query) at h)
      ]

  with_refresh-action :
      (on : Bool) (lazy : Lazy) (key : QueryKey) (r : Reply S)
      → action_of (with_refresh lru k s on lazy key r) ≡ action_of r
  with_refresh-action true lazy key r = refl
  with_refresh-action false lazy key r = refl

  pub refreshed_block-AllStop :
      (on : Bool) (lazy : Lazy) (id : ℕ) (key : QueryKey) (info : MatchInfo) (log : LogBuilder)
      (cache : DnsCache S)
      → AllStop (
          with_query lru k s lazy id log cache (λ query.
            some (
              with_refresh lru k s on
                (msg query)
                key
                (blocked_reply lru k s info log cache query))))
  refreshed_block-AllStop on lazy id key info log cache =
      with_query-AllStop lazy id log cache _ (λ query.
        some-AllStop
          (with_refresh lru k s on (msg query) key (blocked_reply lru k s info log cache query))
          (λ a p e. blocked_reply-Stops info log cache query a p (
            sym
              (with_refresh-action on (msg query) key (blocked_reply lru k s info log cache query))
            ∙ e)))

-- ===== src/Cache/Hits.antt =====
-- cache.rs, `DnsCache::get`: when a lookup is served, and with what.
use bulwark.Common.{
  ℕ, ◌+◌, ◌-◌, ◌<◌, max, ◌≡◌, refl, sym, ap, ◌∙◌, ◌≢◌, ◌↔◌, inl, inr, true, false, Option, none,
  some, arith, ltb, ltb→lt, lt→ltb, Bool-cases, Option-cases, length, get_elem?, some_injective,
}
use bulwark.Cache.Snapshot.{QueryKey}
use bulwark.Cache.Lru.{LruCache, IsLru}
use bulwark.Cache.Lookup.{lookup, shard_at}
use bulwark.Cache.Store.{DnsCache, Calls, shard, get, get_in, serve, respond, stale_serve_ttl}
use bulwark.Cache.Entries.{HitFreshness, fresh, stale, CacheHit, Entry, age_secs}

-- The TTL of a hit: what is left of a fresh entry, one second of a stale one.
pub serve-fresh :
    (age ttl stale_max_age : ℕ) → age < ttl → serve age ttl stale_max_age ≡ some (ttl - age, fresh)
unfolding serve
serve-fresh age ttl stale_max_age h =
    rw (lt→ltb age ttl h, serve) (ap (λ (n : ℕ). some (n, fresh)) (omega (arith, h)))

pub serve_iff :
    (age ttl stale_max_age : ℕ)
    → ((s : ℕ × HitFreshness) × (serve age ttl stale_max_age ≡ some s))
      ↔ (age < ttl + stale_max_age)
unfolding serve
serve_iff age ttl stale_max_age = elim (Bool-cases (ltb age ttl)) [
  | inl young ↦ (
    λ h. omega (arith, ltb→lt age ttl young),
    λ h. ((max (ttl - age) 1, fresh), rw (young, serve) refl),
  )
  | inr old ↦ elim (Bool-cases (ltb (age - ttl) stale_max_age)) [
    | inl in_window ↦ (
      λ h. omega (arith, ltb→lt (age - ttl) stale_max_age in_window),
      λ h. ((stale_serve_ttl, stale), rw (old, in_window, serve) refl),
    )
    | inr expired ↦
        (λ (s, is). absurd (none_some (rw (old, expired, serve) at is)), λ h. absurd (ground arith))
  ]
]
  where
    none_some : {s : ℕ × HitFreshness} → none ≢ some s
    none_some k = cc

abbrev pub hit_of : ℕ → Entry → ℕ × HitFreshness → CacheHit
hit_of id e (ttl, f) = record {
  response = respond id ttl e.stored;
  freshness = f;
  verdict = e.verdict;
}

module _ {S : Type 0} (lru : LruCache S Entry) (d : IsLru lru) (x : Calls) (now : ℕ) (k : QueryKey)
    (id : ℕ) (c : DnsCache S) where
  abbrev pub answer : Option CacheHit
  answer = (get lru x now k id c).0

  abbrev pub served : Entry → Option (ℕ × HitFreshness)
  served e = serve (age_secs now e) e.ttl c.cfg.stale_max_age

  pub get-disabled : c.cfg.enabled ≡ false → answer ≡ none
  unfolding get
  get-disabled off = rw (off, get) refl

  module _ (on : c.cfg.enabled ≡ true) (shards : 0 < length c.shards) where
    pub get-get_in :
        (s : S)
        → get_elem? c.shards (shard lru x k c) ≡ some s
        → get lru x now k id c ≡ get_in lru now k id (shard lru x k c) s c
    unfolding get
    get-get_in s at = simp (on, at, get)

    found_in :
        (s : S)
        → get_elem? c.shards (shard lru x k c) ≡ some s
        → (lru.get k s).0 ≡ lookup lru d x k c
    found_in s at = rw at (d.get_peeks k s)

    get-missing : lookup lru d x k c ≡ none → answer ≡ none
    unfolding get_in
    get-missing h =
        let (s, at) = shard_at lru d x k c shards in
        ap (λ r. r.0) (get-get_in s at) ∙ rw (found_in s at ∙ h, get_in) refl

    pub get-found :
        (e : Entry)
        → lookup lru d x k c ≡ some e
        → (s : ℕ × HitFreshness) → served e ≡ some s
        → answer ≡ some (hit_of id e s)
    unfolding get_in
    get-found e h s is =
        let (state, at) = shard_at lru d x k c shards in
        ap (λ r. r.0) (get-get_in state at) ∙ rw (found_in state at ∙ h, is, get_in) refl

    get-expired : (e : Entry) → lookup lru d x k c ≡ some e → served e ≡ none → answer ≡ none
    unfolding get_in
    get-expired e h is =
        let (s, at) = shard_at lru d x k c shards in
        ap (λ r. r.0) (get-get_in s at) ∙ rw (found_in s at ∙ h, is, get_in) refl

    -- A hit is an entry that is found and served.
    pub hit-found :
        (hit : CacheHit)
        → answer ≡ some hit
        → (e : Entry) × (s : ℕ × HitFreshness) × (lookup lru d x k c ≡ some e)
          × (served e ≡ some s)
          × (hit ≡ hit_of id e s)
    hit-found hit h = elim (Option-cases (lookup lru d x k c)) [
      | inl nothing ↦ absurd (none_some (sym (get-missing nothing) ∙ h))
      | inr (e, there_is) ↦ elim (Option-cases (served e)) [
        | inl expired ↦ absurd (none_some (sym (get-expired e there_is expired) ∙ h))
        | inr (s, is) ↦ (e, s, there_is, is, some_injective (sym h ∙ get-found e there_is s is))
      ]
    ]
      where
        none_some : {hit : CacheHit} → none ≢ some hit
        none_some j = cc

    -- If the LRU maps behave as documented, an enabled cache with shards serves a key exactly if
    -- it holds an entry for it whose age is below its TTL plus the stale window.
    pub get_iff : ((hit : CacheHit) × (answer ≡ some hit)) ↔ (
        (e : Entry) × (lookup lru d x k c ≡ some e)
        × (age_secs now e < e.ttl + c.cfg.stale_max_age))
    get_iff = (
      λ (hit, h).
          let (e, s, there_is, is, same) = hit-found hit h in
          (e, there_is, (serve_iff (age_secs now e) e.ttl c.cfg.stale_max_age).0 (s, is)),
      λ (e, there_is, young).
          let (s, is) = (serve_iff (age_secs now e) e.ttl c.cfg.stale_max_age).1 young in
          (hit_of id e s, get-found e there_is s is),
    )

-- ===== src/Cache/Runs/Invariant.antt =====
-- cache.rs: what each step keeps between a cache and the entries that it accepted.
use bulwark.Common.{
  ℕ, zero, suc, ◌+◌, ◌≤◌, ◌<◌, max, ◌≡◌, refl, sym, ap, subst, ◌∙◌, ◌≢◌, inl, inr, Bool, true,
  false, Option, none, some, List, [], ◌∷◌, arith, Bool-cases, length,
}
use bulwark.Cache.Keys.{key_eq, key_eq_sound, key_eq-false}
use bulwark.Cache.Snapshot.{QueryKey, ParsedEntry}
use bulwark.Dns.{Message}
use bulwark.Cache.Message.{cacheable_ttl}
use bulwark.Cache.Lru.{LruCache, IsLru}
use bulwark.Cache.Lookup.{
  lookup, Fewer, reconfigure-Fewer, lookup-put_entry_self, lookup-put_entry_other, put_entry-length,
  put_entry-counts, find_in-replicate, reconfigure-length, reconfigure-counts,
}
use bulwark.Cache.Store.{
  DnsCache, Calls, new, reconfigure, put_entry, get, store, insert_inner, restore_entries,
  replicate, shard_count, shard_cap,
}
use bulwark.Cache.Entries.{ResponseVerdict, CacheCounters, no_counts, Entry}
use bulwark.Cache.Runs.History.{latest}
use bulwark.Cache.Runs.Steps.{Trace, restored_entry, restored_into}

module _ {S : Type 0} (lru : LruCache S Entry) (d : IsLru lru) (x : Calls) where
  pub record Kept (c : DnsCache S) (history : List (QueryKey × Entry)) (t : Trace) : Type 0 where
    pub has_shards : 0 < length c.shards
    pub newest :
        (k : QueryKey) (e : Entry) → lookup lru d x k c ≡ some e → latest k history ≡ some e
    pub counted : c.counts.hits + c.counts.misses ≡ t.base.hits + t.base.misses + t.lookups
    pub stale_below : c.counts.stale_hits + t.base.hits ≤ t.base.stale_hits + c.counts.hits

  -- What a step with no insertion keeps.
  pub Kept-Fewer :
      (c c' : DnsCache S) (history : List (QueryKey × Entry)) (t u : Trace)
      → Kept c history t
      → Fewer lru d x c.shards c'.shards
      → length c'.shards ≡ length c.shards
      → c'.counts.hits + c'.counts.misses ≡ u.base.hits + u.base.misses + u.lookups
      → c'.counts.stale_hits + u.base.hits ≤ u.base.stale_hits + c'.counts.hits
      → Kept c' history u
  Kept-Fewer c c' history t u h fewer as_many counted below = record {
    has_shards = omega (arith, h.has_shards, as_many);
    newest = λ k e found. h.newest k e (fewer k e found);
    counted = counted;
    stale_below = below;
  }

  pub Kept-inserted :
      (c : DnsCache S) (history : List (QueryKey × Entry)) (t : Trace) (k : QueryKey) (e : Entry)
      → Kept c history t
      → Kept (put_entry lru x k e c) ((k, e) ∷ history) t
  Kept-inserted c history t k e h = record {
    has_shards = omega (arith, h.has_shards, put_entry-length lru d x k e c);
    newest = λ j f found. elim (Bool-cases (key_eq j k)) [
      | inl same ↦ rw same (
          sym (lookup-put_entry_self lru d x k e c h.has_shards)
          ∙ subst (λ i. lookup lru d x i (put_entry lru x k e c) ≡ some f) (key_eq_sound j k same)
              found)
      | inr apart ↦ rw apart (
          h.newest j f
            (lookup-put_entry_other lru d x k j e f c h.has_shards (key_eq-false j k apart) found))
    ];
    counted =
        ap (λ (n : CacheCounters). n.hits + n.misses) (put_entry-counts lru d x k e c) ∙ h.counted;
    stale_below =
        subst (λ (n : CacheCounters). n.stale_hits + t.base.hits ≤ t.base.stale_hits + n.hits)
          (sym (put_entry-counts lru d x k e c)) h.stale_below;
  }

  pub insert_inner-put_entry :
      (c : DnsCache S) (now : ℕ) (k : QueryKey) (m : Message) (verdict : Option ResponseVerdict)
      (ttl : ℕ)
      → c.cfg.enabled ≡ true
      → cacheable_ttl c.cfg m ≡ some ttl
      → (insert_inner lru x now k m verdict c).1
        ≡ put_entry lru x k
            (record { stored = (store x c.cfg m).0; stored_at = now; ttl = ttl; verdict = verdict })
            c
  unfolding insert_inner
  insert_inner-put_entry c now k m verdict ttl on cacheable = simp (on, cacheable, insert_inner)

  -- A disabled cache keeps its state.
  pub get-off :
      (now : ℕ) (k : QueryKey) (id : ℕ) (c : DnsCache S)
      → c.cfg.enabled ≡ false
      → (get lru x now k id c).1 ≡ c
  unfolding get
  get-off now k id c off = simp (off, get)

  pub insert_inner-off :
      (now : ℕ) (k : QueryKey) (m : Message) (verdict : Option ResponseVerdict) (c : DnsCache S)
      → c.cfg.enabled ≡ false
      → (insert_inner lru x now k m verdict c).1 ≡ c
  unfolding insert_inner
  insert_inner-off now k m verdict c off = simp (off, insert_inner)

  pub insert_inner-refused :
      (c : DnsCache S) (now : ℕ) (k : QueryKey) (m : Message) (verdict : Option ResponseVerdict)
      → cacheable_ttl c.cfg m ≡ none
      → (insert_inner lru x now k m verdict c).1 ≡ c
  unfolding insert_inner
  insert_inner-refused c now k m verdict uncacheable = elim (Bool-cases c.cfg.enabled) [
    | inl on ↦ simp (on, uncacheable, insert_inner)
    | inr off ↦ insert_inner-off now k m verdict c off
  ]

  pub new-Kept :
      (cpus : Option ℕ) (capacity min_ttl max_ttl stale_max_age : ℕ)
      → Kept
          (new lru cpus capacity min_ttl max_ttl stale_max_age)
          []
          (record { lookups = 0; base = no_counts; snapshots = [] })
  unfolding new
  new-Kept cpus capacity min_ttl max_ttl stale_max_age = record {
    has_shards = omega (arith, length-replicate (shard_count cpus), shards_least);
    newest = λ k e found. absurd (
        none_some (
          sym (
            find_in-replicate lru d x (shard_cap (max capacity 1) (shard_count cpus))
              (shard_count cpus) k)
          ∙ found));
    counted = omega arith;
    stale_below = omega arith;
  }
    where
      none_some : {e : Entry} → none ≢ some e
      none_some i = cc

      length-replicate :
          (n : ℕ)
          → length (replicate n (lru.new (shard_cap (max capacity 1) (shard_count cpus)))) ≡ n
      length-replicate zero = refl
      length-replicate (suc n) = ap suc (length-replicate n)

      shards_least : 8 ≤ shard_count cpus
      shards_least = omega arith

  pub reconfigure-Kept :
      (c : DnsCache S) (history : List (QueryKey × Entry)) (t : Trace) (enabled : Bool)
      (capacity min_ttl max_ttl stale_max_age : ℕ)
      → Kept c history t
      → Kept (reconfigure lru enabled capacity min_ttl max_ttl stale_max_age c) history t
  reconfigure-Kept c history t enabled capacity min_ttl max_ttl stale_max_age h =
      Kept-Fewer c _ history t t h
        (reconfigure-Fewer lru d x enabled capacity min_ttl max_ttl stale_max_age c)
        (reconfigure-length lru d x enabled capacity min_ttl max_ttl stale_max_age c)
        (ap (λ (counts : CacheCounters). counts.hits + counts.misses)
            (reconfigure-counts lru d x enabled capacity min_ttl max_ttl stale_max_age c)
          ∙ h.counted)
        (subst
          (λ (counts : CacheCounters).
            counts.stale_hits + t.base.hits ≤ t.base.stale_hits + counts.hits)
          (sym (reconfigure-counts lru d x enabled capacity min_ttl max_ttl stale_max_age c))
          h.stale_below)

  pub restore_entries-Kept :
      (now elapsed : ℕ) (entries : List ParsedEntry) (c : DnsCache S)
      (history : List (QueryKey × Entry)) (t : Trace)
      → Kept c history t
      → Kept
          (restore_entries lru x now elapsed entries c)
          (restored_into now elapsed entries history)
          t
  unfolding restore_entries
  restore_entries-Kept now elapsed [] c history t h = h
  restore_entries-Kept now elapsed (p ∷ entries) c history t h =
      let e = restored_entry now elapsed p in
      restore_entries-Kept now elapsed entries (put_entry lru x p.key e c) ((p.key, e) ∷ history) t
        (Kept-inserted c history t p.key e h)

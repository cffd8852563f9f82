-- ===== src/Cache/Runs.antt =====
-- cache.rs: a cache in use, against the insertions that it accepted.
pub mod History
pub mod Steps
pub mod Invariant
use bulwark.Common.{
  ℕ, zero, suc, ◌+◌, ◌≤◌, ◌<◌, max, ◌≡◌, refl, sym, ap, subst, ◌∙◌, ◌≢◌, inl, inr, Bool, true,
  false, Option, none, some, List, [], ◌∷◌, arith, if◌then◌else◌, Bool-cases, Option-cases, length,
  All, In, here, there, some_injective,
}
use bulwark.Cache.Keys.{key_eq, key_eq_sound, key_eq-false}
use bulwark.Cache.Effects.{get-Effect}
use bulwark.Wire.{scan_ttl_offsets}
use bulwark.Cache.Snapshot.{QueryKey, ParsedEntry}
use bulwark.Dns.{Message}
use bulwark.Cache.Message.{cacheable_ttl, CacheConfig}
use bulwark.Cache.Ttl.{cacheable_ttl-bounds}
use bulwark.Cache.Lru.{LruCache, IsLru}
use bulwark.Cache.Lookup.{
  lookup, Fewer, clear-Fewer, reconfigure-Fewer, lookup-put_entry_self, lookup-put_entry_other,
  put_entry-length, put_entry-counts, Fewer-refl, map-length, find_in-replicate, reconfigure-length,
  reconfigure-counts,
}
use bulwark.Cache.Hits.{hit_of, hit-found, serve_iff, get-disabled}
use bulwark.Cache.Store.{
  DnsCache, Calls, new, clear, reconfigure, put_entry, get, serve, store, insert_inner,
  seed_counters, reset_counters, restore_entries, set_store_summaries, note_refresh_started,
  note_refresh_failed, replicate, shard_count, shard_cap,
}
use bulwark.Cache.Entries.{
  Stored, ResponseVerdict, HitFreshness, CacheHit, CacheCounters, no_counts, Entry, age_secs,
}
use bulwark.Cache.Runs.History.{latest}
use bulwark.Cache.Runs.Steps.{
  Trace, restored_entry, restored_into, Run, started, looked_up, inserted, refused, looked_past,
  ignored, reconfigured, cleared, noted, failed, summarized, restored, seeded, reset,
}
use bulwark.Cache.Runs.Invariant.{
  Kept, Kept-Fewer, Kept-inserted, insert_inner-put_entry, get-off, insert_inner-off,
  insert_inner-refused, new-Kept, reconfigure-Kept, restore_entries-Kept,
}

module _ {S : Type 0} (lru : LruCache S Entry) (d : IsLru lru) (x : Calls) where
  pub Run-Kept :
      (c : DnsCache S) (history : List (QueryKey × Entry)) (t : Trace)
      → Run lru d x c history t
      → Kept lru d x c history t
  unfolding clear seed_counters reset_counters note_refresh_started note_refresh_failed
      set_store_summaries
  Run-Kept _ _ _ (started cpus capacity min_ttl max_ttl stale_max_age) =
      new-Kept lru d x cpus capacity min_ttl max_ttl stale_max_age
  Run-Kept _ _ _ (looked_up c history t now k id on r) =
      let h = Run-Kept c history t r in
      let e = get-Effect lru d x now k id c on h.has_shards in
      Kept-Fewer lru d x c _ history t (record t { lookups = suc t.lookups }) h e.fewer e.as_many
        (omega (arith, e.counted.one_more, h.counted))
        (omega (arith, e.counted.stale_grows, h.stale_below))
  Run-Kept _ _ _ (inserted c history t now k m verdict ttl on cacheable r) =
      let e : Entry = record {
        stored = (store x c.cfg m).0;
        stored_at = now;
        ttl = ttl;
        verdict = verdict;
      } in
      subst (λ c'. Kept lru d x c' ((k, e) ∷ history) t)
        (sym (insert_inner-put_entry lru d x c now k m verdict ttl on cacheable))
        (Kept-inserted lru d x c history t k e (Run-Kept c history t r))
  Run-Kept _ _ _ (refused c history t now k m verdict uncacheable r) =
      subst (λ c'. Kept lru d x c' history t)
        (sym (insert_inner-refused lru d x c now k m verdict uncacheable)) (Run-Kept c history t r)
  Run-Kept _ _ _ (looked_past c history t now k id off r) =
      subst (λ c'. Kept lru d x c' history t) (sym (get-off lru d x now k id c off))
        (Run-Kept c history t r)
  Run-Kept _ _ _ (ignored c history t now k m verdict off r) =
      subst (λ c'. Kept lru d x c' history t) (sym (insert_inner-off lru d x now k m verdict c off))
        (Run-Kept c history t r)
  Run-Kept _ _ _ (reconfigured c history t enabled capacity min_ttl max_ttl stale_max_age r) =
      reconfigure-Kept lru d x c history t enabled capacity min_ttl max_ttl stale_max_age
        (Run-Kept c history t r)
  Run-Kept _ _ _ (cleared c history t r) =
      let h = Run-Kept c history t r in
      Kept-Fewer lru d x c _ history t t h (clear-Fewer lru d x c.shards)
        (map-length lru d x lru.clear c.shards) h.counted h.stale_below
  Run-Kept _ _ _ (noted c history t r) =
      let h = Run-Kept c history t r in
      Kept-Fewer lru d x c _ history t t h (Fewer-refl lru d x c.shards) refl h.counted
        h.stale_below
  Run-Kept _ _ _ (failed c history t r) =
      let h = Run-Kept c history t r in
      Kept-Fewer lru d x c _ history t t h (Fewer-refl lru d x c.shards) refl h.counted
        h.stale_below
  Run-Kept _ _ _ (summarized c history t on r) =
      let h = Run-Kept c history t r in
      Kept-Fewer lru d x c _ history t t h (Fewer-refl lru d x c.shards) refl h.counted
        h.stale_below
  Run-Kept _ _ _ (restored c history t now elapsed entries r) =
      let h =
        restore_entries-Kept lru d x now elapsed entries c history t (Run-Kept c history t r) in
      record {
        has_shards = h.has_shards;
        newest = h.newest;
        counted = h.counted;
        stale_below = h.stale_below;
      }
  Run-Kept _ _ _ (seeded c history t counts r) =
      let h = Run-Kept c history t r in
      record {
        has_shards = h.has_shards;
        newest = h.newest;
        counted = omega arith;
        stale_below = omega arith;
      }
  Run-Kept _ _ _ (reset c history t r) =
      let h = Run-Kept c history t r in
      record {
        has_shards = h.has_shards;
        newest = h.newest;
        counted = omega arith;
        stale_below = omega arith;
      }

  hit-enabled :
      (now : ℕ) (k : QueryKey) (id : ℕ) (c : DnsCache S) (hit : CacheHit)
      → (get lru x now k id c).0 ≡ some hit
      → c.cfg.enabled ≡ true
  unfolding get
  hit-enabled now k id c hit is = elim (Bool-cases c.cfg.enabled) [
    | inl on ↦ on
    | inr off ↦ absurd (none_some (sym (get-disabled lru d x now k id c off) ∙ is))
  ]
    where
      none_some : {h : CacheHit} → none ≢ some h
      none_some i = cc

  module _ (c : DnsCache S) (history : List (QueryKey × Entry)) (t : Trace)
      (r : Run lru d x c history t) where
    -- If the LRU maps behave as documented, then in a cache in use the hits and misses add up to
    -- what the counters were last set to, by seeding or reset, and the lookups made since while
    -- it was enabled; and there have been no more stale hits since than hits.
    pub hits-misses :
        (c.counts.hits + c.counts.misses ≡ t.base.hits + t.base.misses + t.lookups)
        × (c.counts.stale_hits + t.base.hits ≤ t.base.stale_hits + c.counts.hits)
    hits-misses = let h = Run-Kept c history t r in (h.counted, h.stale_below)

    module _ (now : ℕ) (k : QueryKey) (id : ℕ) (hit : CacheHit)
        (is : (get lru x now k id c).0 ≡ some hit) where
      -- Let the LRU maps behave as documented, and a cache be used from its making on by any
      -- sequence of lookups, accepted and refused insertions, restorings of entries out of a
      -- snapshot, settings of its counters, changes of its settings and clearings. Then whatever
      -- a lookup serves is the latest accepted or restored entry of that very key, whose age is
      -- below its TTL plus the stale window, with the TTL and freshness that belong to that age:
      -- eviction, resizing and sharing of shards never mix answers up.
      pub get-latest :
          (e : Entry) × (s : ℕ × HitFreshness) × (latest k history ≡ some e)
          × (serve (age_secs now e) e.ttl c.cfg.stale_max_age ≡ some s)
          × (hit ≡ hit_of id e s)
          × (age_secs now e < e.ttl + c.cfg.stale_max_age)
      get-latest =
          let h = Run-Kept c history t r in
          let (e, s, found, served, same) =
            hit-found lru d x now k id c (hit-enabled now k id c hit is) h.has_shards hit is in
          (
            e,
            s,
            h.newest k e found,
            served,
            same,
            (serve_iff (age_secs now e) e.ttl c.cfg.stale_max_age).0 (s, served),
          )

-- ===== src/Cache/Served.antt =====
-- cache.rs and wire.rs: what a client gets out of a cache in use.
use bulwark.Common.{
  ℕ, ◌-◌, ◌≤◌, ◌<◌, ◌≡◌, sym, ap, subst, ◌∙◌, ◌≢◌, inl, inr, true, Option, none, some, List, arith,
  ltb, Bool-cases, All, All-In, some_injective,
}
use bulwark.Common.Bytes.{Bytes, u16_at, u32_at}
use bulwark.Wire.{scan_ttl_offsets, patch}
use bulwark.Wire.Rescan.{patch-scan_ttl_offsets, scan_ttl_offsets-patch}
use bulwark.Cache.Snapshot.{QueryKey}
use bulwark.Dns.{Message}
use bulwark.Cache.Message.{cacheable_ttl, CacheConfig}
use bulwark.Cache.Lru.{LruCache, IsLru}
use bulwark.Cache.Lookup.{lookup-put_entry_self, put_entry-length, put_entry-cfg}
use bulwark.Cache.Hits.{get-found, serve-fresh}
use bulwark.Cache.Runs.{Run-Kept, get-latest}
use bulwark.Cache.Runs.Invariant.{insert_inner-put_entry}
use bulwark.Cache.Runs.Steps.{Trace, Run, HasScan, Run-IsScanned}
use bulwark.Cache.Runs.History.{IsScanned, Scanned, latest-In}
use bulwark.Cache.Store.{DnsCache, Calls, put_entry, get, serve, respond, store, insert_inner}
use bulwark.Cache.Entries.{
  Stored, CachedResponse, ResponseVerdict, HitFreshness, fresh, CacheHit, Entry, age_secs,
}

serve-positive :
    (age ttl stale_max_age : ℕ) (s : ℕ × HitFreshness)
    → serve age ttl stale_max_age ≡ some s
    → 1 ≤ s.0
unfolding serve
serve-positive age ttl stale_max_age s h = elim (Bool-cases (ltb age ttl)) [
  | inl young ↦
      subst (λ (p : ℕ × HitFreshness). 1 ≤ p.0) (some_injective (rw (young, serve) at h))
        (omega arith)
  | inr old ↦ elim (Bool-cases (ltb (age - ttl) stale_max_age)) [
    | inl in_window ↦
        subst (λ (p : ℕ × HitFreshness). 1 ≤ p.0) (some_injective (rw (old, in_window, serve) at h))
          (omega arith)
    | inr expired ↦ absurd (none_some (rw (old, expired, serve) at h))
  ]
]
  where
    none_some : {s : ℕ × HitFreshness} → none ≢ some s
    none_some k = cc

-- The message has the client's id, and one TTL, not zero, in all its records.
abbrev pub Patched : ℕ → Bytes → Type 0
Patched id bytes =
    (offsets : List ℕ) × (ttl : ℕ) × (scan_ttl_offsets bytes ≡ some offsets)
    × (u16_at bytes 0 ≡ id)
    × (1 ≤ ttl)
    × All (λ o. u32_at bytes o ≡ ttl) offsets

respond-Patched :
    (id ttl : ℕ) (stored : Stored) (bytes : Bytes) (rcode : ℕ) (answers : List Bytes)
    → Scanned stored
    → 1 ≤ ttl
    → respond id ttl stored ≡ CachedResponse.wire bytes rcode answers
    → Patched id bytes
unfolding respond
respond-Patched id ttl (Stored.message m) bytes rcode answers h positive e = cc
respond-Patched id ttl (Stored.wire raw offsets code summaries) bytes rcode answers h positive e =
    let same : patch raw id ttl offsets ≡ bytes = cc in
    subst (Patched id) same (
      let (id_there, ttls, len, rest) = patch-scan_ttl_offsets raw id ttl offsets h in
      (offsets, ttl, scan_ttl_offsets-patch raw id ttl offsets h, id_there, positive, ttls))

module _ {S : Type 0} (lru : LruCache S Entry) (d : IsLru lru) (x : Calls) (c : DnsCache S)
    (history : List (QueryKey × Entry)) (t : Trace) (r : Run lru d x c history t) (now : ℕ)
    (k : QueryKey) (id : ℕ) where
  -- Let the LRU maps behave as documented, a cache be in use, and each entry that was restored
  -- out of a snapshot have the offsets that a scan of its message gives. Then any wire response
  -- that the cache serves has the id asked for, and one TTL, at least 1, in every record that has
  -- one, at the offsets that a scan of the served bytes gives.
  pub get-Patched :
      (hit : CacheHit) (bytes : Bytes) (rcode : ℕ) (answers : List Bytes)
      → All (All HasScan) t.snapshots
      → (get lru x now k id c).0 ≡ some hit
      → hit.response ≡ CachedResponse.wire bytes rcode answers
      → Patched id bytes
  get-Patched hit bytes rcode answers scans is response =
      let (e, s, newest, served, same, young) = get-latest lru d x c history t r now k id hit is in
      let (j, among) = latest-In k e history newest in
      let scanned = All-In IsScanned history (Run-IsScanned lru d x c history t r scans) among in
      respond-Patched id s.0 e.stored bytes rcode answers scanned
        (serve-positive (age_secs now e) e.ttl c.cfg.stale_max_age s served)
        (ap (λ (h : CacheHit). h.response) (sym same) ∙ response)

  module _ (stored_at : ℕ) (m : Message) (verdict : Option ResponseVerdict) (ttl : ℕ)
      (on : c.cfg.enabled ≡ true) (cacheable : cacheable_ttl c.cfg m ≡ some ttl) where
    abbrev pub entry : Entry
    entry = record {
      stored = (store x c.cfg m).0;
      stored_at = stored_at;
      ttl = ttl;
      verdict = verdict;
    }

    -- If the LRU maps behave as documented, then in an enabled cache in use a cacheable response
    -- is served to a lookup of its key right behind its insertion while its age is below its TTL:
    -- fresh, with the TTL that is left and the verdict that it was inserted with.
    pub get-insert_inner :
        age_secs now entry < ttl
        → (get lru x now k id (insert_inner lru x stored_at k m verdict c).1).0
          ≡ some (record {
            response = respond id (ttl - age_secs now entry) (store x c.cfg m).0;
            freshness = fresh;
            verdict = verdict;
          })
    get-insert_inner young =
        let c' = put_entry lru x k entry c in
        let shards = (Run-Kept lru d x c history t r).has_shards in
        let cfg_same = put_entry-cfg lru d x k entry c in
        ap (λ c''. (get lru x now k id c'').0)
          (insert_inner-put_entry lru d x c stored_at k m verdict ttl on cacheable)
        ∙ get-found lru d x now k id c' (ap (λ (g : CacheConfig). g.enabled) cfg_same ∙ on)
            (omega (arith, shards, put_entry-length lru d x k entry c)) entry
            (lookup-put_entry_self lru d x k entry c shards) (ttl - age_secs now entry, fresh)
            (serve-fresh (age_secs now entry) ttl c'.cfg.stale_max_age young)

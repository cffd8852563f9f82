-- ===== src/Cache/Runs/Steps.antt =====
-- cache.rs: the steps in the life of a cache, with the entries that it accepted.
use bulwark.Common.{
  ℕ, suc, ◌+◌, ◌-◌, ◌*◌, ◌≡◌, Bool, true, false, Option, none, some, List, [], ◌∷◌, All,
}
use bulwark.Cache.Snapshot.{QueryKey, ParsedEntry}
use bulwark.Dns.{Message}
use bulwark.Cache.Message.{cacheable_ttl}
use bulwark.Cache.Lru.{LruCache, IsLru}
use bulwark.Wire.{scan_ttl_offsets}
use bulwark.Cache.Store.{
  DnsCache, Calls, new, clear, reconfigure, get, store, insert_inner, set_store_summaries,
  note_refresh_started, note_refresh_failed, seed_counters, reset_counters, restore_entries,
}
use bulwark.Cache.Entries.{Stored, ResponseVerdict, CacheCounters, no_counts, Entry}
use bulwark.Cache.Runs.History.{IsScanned, store-Scanned}

-- The lookups since the counters were set while the cache was enabled, what they were set to, and
-- the entries of the snapshots that were restored.
pub record Trace : Type 0 where
  pub lookups : ℕ
  pub base : CacheCounters
  pub snapshots : List (List ParsedEntry)

-- An entry of a snapshot as it is put into a shard.
abbrev pub restored_entry : ℕ → ℕ → ParsedEntry → Entry
restored_entry now elapsed p = record {
  stored = Stored.wire p.bytes p.ttl_offsets p.rcode p.answers;
  stored_at = now - (p.age + elapsed) * 1000000000;
  ttl = p.ttl;
  verdict = none;
}

abbrev pub restored_into :
    ℕ → ℕ → List ParsedEntry → List (QueryKey × Entry) → List (QueryKey × Entry)
restored_into now elapsed [] history = history
restored_into now elapsed (p ∷ entries) history =
    restored_into now elapsed entries ((p.key, restored_entry now elapsed p) ∷ history)

-- The offsets that a snapshot has for its message are those of a scan.
abbrev pub HasScan : ParsedEntry → Type 0
HasScan p = scan_ttl_offsets p.bytes ≡ some p.ttl_offsets

module _ {S : Type 0} (lru : LruCache S Entry) (d : IsLru lru) (x : Calls) where
  -- The state of a cache, the entries that it accepted or restored with the newest first, and its
  -- trace.
  pub data Run : DnsCache S → List (QueryKey × Entry) → Trace → Type 0 where
    started :
        (cpus : Option ℕ) (capacity min_ttl max_ttl stale_max_age : ℕ)
        → Run
            (new lru cpus capacity min_ttl max_ttl stale_max_age)
            []
            (record { lookups = 0; base = no_counts; snapshots = [] })
    looked_up :
        (c : DnsCache S) (history : List (QueryKey × Entry)) (t : Trace) (now : ℕ) (k : QueryKey)
        (id : ℕ)
        → c.cfg.enabled ≡ true
        → Run c history t
        → Run (get lru x now k id c).1 history (record t { lookups = suc t.lookups })
    inserted :
        (c : DnsCache S) (history : List (QueryKey × Entry)) (t : Trace) (now : ℕ) (k : QueryKey)
        (m : Message) (verdict : Option ResponseVerdict) (ttl : ℕ)
        → c.cfg.enabled ≡ true
        → cacheable_ttl c.cfg m ≡ some ttl
        → Run c history t
        → Run
            (insert_inner lru x now k m verdict c).1
            ((
              k,
              record {
                stored = (store x c.cfg m).0;
                stored_at = now;
                ttl = ttl;
                verdict = verdict;
              },
            )
              ∷ history)
            t
    refused :
        (c : DnsCache S) (history : List (QueryKey × Entry)) (t : Trace) (now : ℕ) (k : QueryKey)
        (m : Message) (verdict : Option ResponseVerdict)
        → cacheable_ttl c.cfg m ≡ none
        → Run c history t
        → Run (insert_inner lru x now k m verdict c).1 history t
    looked_past :
        (c : DnsCache S) (history : List (QueryKey × Entry)) (t : Trace) (now : ℕ) (k : QueryKey)
        (id : ℕ)
        → c.cfg.enabled ≡ false
        → Run c history t
        → Run (get lru x now k id c).1 history t
    ignored :
        (c : DnsCache S) (history : List (QueryKey × Entry)) (t : Trace) (now : ℕ) (k : QueryKey)
        (m : Message) (verdict : Option ResponseVerdict)
        → c.cfg.enabled ≡ false
        → Run c history t
        → Run (insert_inner lru x now k m verdict c).1 history t
    reconfigured :
        (c : DnsCache S) (history : List (QueryKey × Entry)) (t : Trace) (enabled : Bool)
        (capacity min_ttl max_ttl stale_max_age : ℕ)
        → Run c history t
        → Run (reconfigure lru enabled capacity min_ttl max_ttl stale_max_age c) history t
    cleared :
        (c : DnsCache S) (history : List (QueryKey × Entry)) (t : Trace)
        → Run c history t
        → Run (clear lru c) history t
    noted :
        (c : DnsCache S) (history : List (QueryKey × Entry)) (t : Trace)
        → Run c history t
        → Run (note_refresh_started lru c) history t
    failed :
        (c : DnsCache S) (history : List (QueryKey × Entry)) (t : Trace)
        → Run c history t
        → Run (note_refresh_failed lru c) history t
    summarized :
        (c : DnsCache S) (history : List (QueryKey × Entry)) (t : Trace) (on : Bool)
        → Run c history t
        → Run (set_store_summaries lru on c) history t
    restored :
        (c : DnsCache S) (history : List (QueryKey × Entry)) (t : Trace) (now elapsed : ℕ)
        (entries : List ParsedEntry)
        → Run c history t
        → Run
            (restore_entries lru x now elapsed entries c)
            (restored_into now elapsed entries history)
            (record t { snapshots = entries ∷ t.snapshots })
    seeded :
        (c : DnsCache S) (history : List (QueryKey × Entry)) (t : Trace) (counts : CacheCounters)
        → Run c history t
        → Run (seed_counters lru counts c) history (record t { lookups = 0; base = counts })
    reset :
        (c : DnsCache S) (history : List (QueryKey × Entry)) (t : Trace)
        → Run c history t
        → Run (reset_counters lru c) history (record t { lookups = 0; base = no_counts })

  restored_into-IsScanned :
      (now elapsed : ℕ) (entries : List ParsedEntry) (history : List (QueryKey × Entry))
      → All HasScan entries
      → All IsScanned history
      → All IsScanned (restored_into now elapsed entries history)
  restored_into-IsScanned now elapsed [] history h k = k
  restored_into-IsScanned now elapsed (p ∷ entries) history h k =
      restored_into-IsScanned now elapsed entries ((p.key, restored_entry now elapsed p) ∷ history)
        h.1 (h.0, k)

  pub Run-IsScanned :
      (c : DnsCache S) (history : List (QueryKey × Entry)) (t : Trace)
      → Run c history t
      → All (All HasScan) t.snapshots
      → All IsScanned history
  Run-IsScanned _ _ _ (started _ _ _ _ _) h = tt
  Run-IsScanned _ _ _ (looked_up c history t now k id on r) h = Run-IsScanned c history t r h
  Run-IsScanned _ _ _ (inserted c history t now k m verdict ttl on cacheable r) h =
      (store-Scanned x c.cfg m, Run-IsScanned c history t r h)
  Run-IsScanned _ _ _ (refused c history t now k m verdict no_ttl r) h =
      Run-IsScanned c history t r h
  Run-IsScanned _ _ _ (looked_past c history t now k id off r) h = Run-IsScanned c history t r h
  Run-IsScanned _ _ _ (ignored c history t now k m verdict off r) h = Run-IsScanned c history t r h
  Run-IsScanned _ _ _ (reconfigured c history t _ _ _ _ _ r) h = Run-IsScanned c history t r h
  Run-IsScanned _ _ _ (cleared c history t r) h = Run-IsScanned c history t r h
  Run-IsScanned _ _ _ (noted c history t r) h = Run-IsScanned c history t r h
  Run-IsScanned _ _ _ (failed c history t r) h = Run-IsScanned c history t r h
  Run-IsScanned _ _ _ (summarized c history t on r) h = Run-IsScanned c history t r h
  Run-IsScanned _ _ _ (restored c history t now elapsed entries r) h =
      restored_into-IsScanned now elapsed entries history h.0 (Run-IsScanned c history t r h.1)
  Run-IsScanned _ _ _ (seeded c history t counts r) h = Run-IsScanned c history t r h
  Run-IsScanned _ _ _ (reset c history t r) h = Run-IsScanned c history t r h

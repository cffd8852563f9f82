-- ===== src/Cache/Store.antt =====
-- cache.rs: the sharded cache, its lookups, insertions and settings. Instants are nanoseconds. The hash of
-- a key, the encoding of a message and the summary of a record are parameters, and so are the LRU maps.
use bulwark.Common.{
  ℕ, zero, suc, ◌+◌, ◌-◌, ◌*◌, ◌/◌, ◌%◌, min, max, Bool, true, not, Option, none, some, List, [],
  ◌∷◌, map, ltb, leb, ◌==◌, if◌then◌else◌, unwrap_or, length, get_elem?, set,
}
use bulwark.Common.Bytes.{Bytes}
use bulwark.Wire.{scan_ttl_offsets, patch}
use bulwark.Cache.Snapshot.{QueryKey, ParsedEntry}
use bulwark.Dns.{Message, Record}
use bulwark.Cache.Message.{CacheConfig, adjust_ttls, cacheable_ttl}
use bulwark.Cache.Lru.{LruCache}
use bulwark.Cache.Entries.{
  Stored, ResponseVerdict, Entry, age_secs, CachedResponse, InsertedWire, HitFreshness, fresh,
  stale, CacheHit, CacheCounters, no_counts,
}

pub record DnsCache (S : Type 0) : Type 0 where
  pub shards : List S
  pub cfg : CacheConfig
  pub capacity : ℕ
  pub counts : CacheCounters

-- What the cache calls of other crates.
pub record Calls : Type 0 where
  pub hash_one : QueryKey → ℕ
  pub to_vec : Message → Option Bytes
  pub summarize : Record → Bytes

-- `next_power_of_two`, from the power `p`; one round for each doubling up to 64 is enough below the clamp.
unfoldable pub power_from : ℕ → ℕ → ℕ → ℕ
power_from zero p n = p
power_from (suc fuel) p n = let more = power_from fuel (2 * p) n in if leb n p then p else more

-- `shard_count`, for the number of CPUs if it is known
unfoldable pub shard_count : Option ℕ → ℕ
unfolding power_from
shard_count cpus = min (max (power_from 6 1 (unwrap_or cpus 4)) 8) 64

unfoldable pub shard_cap : ℕ → ℕ → ℕ
shard_cap total shards = max (total / shards) 1

abbrev pub stale_serve_ttl : ℕ
stale_serve_ttl = 1

unfoldable pub replicate {ℓ} : {A : Type ℓ} → ℕ → A → List A
replicate zero a = []
replicate (suc n) a = a ∷ replicate n a

-- The answer that is patched outside the lock.
unfoldable pub respond : ℕ → ℕ → Stored → CachedResponse
respond id ttl (Stored.wire bytes ttl_offsets rcode answers) =
    CachedResponse.wire (patch bytes id ttl ttl_offsets) rcode answers
respond id ttl (Stored.message m) = CachedResponse.message (record (adjust_ttls m ttl) { id = id })

-- How an entry is served: its TTL and whether it is fresh, or not at all.
unfoldable pub serve : ℕ → ℕ → ℕ → Option (ℕ × HitFreshness)
serve age ttl stale_max_age =
    if ltb age ttl
    then some (max (ttl - age) 1, fresh)
    else if ltb (age - ttl) stale_max_age
    then some (stale_serve_ttl, stale)
    else none

abbrev pub is_stale : HitFreshness → ℕ
is_stale fresh = 0
is_stale stale = 1

abbrev pub count_hit : HitFreshness → CacheCounters → CacheCounters
count_hit f n = record n { hits = n.hits + 1; stale_hits = n.stale_hits + is_stale f }

abbrev pub count_miss : CacheCounters → CacheCounters
count_miss n = record n { misses = n.misses + 1 }

-- The entry of a response and its wire form.
unfoldable pub store : Calls → CacheConfig → Message → Stored × Option InsertedWire
store x cfg m = elim (x.to_vec m) [
  | none ↦ (Stored.message m, none)
  | some bytes ↦ elim (scan_ttl_offsets bytes) [
    | none ↦ (Stored.message m, none)
    | some offsets ↦
        let answers = if cfg.store_summaries then map x.summarize m.answers else [] in
        (
          Stored.wire bytes offsets m.response_code answers,
          some (record { bytes = bytes; rcode = m.response_code; answers = answers }),
        )
  ]
]

module _ {S : Type 0} (lru : LruCache S Entry) where
  unfoldable pub new : Option ℕ → ℕ → ℕ → ℕ → ℕ → DnsCache S
  unfolding shard_count shard_cap replicate
  new cpus capacity min_ttl max_ttl stale_max_age =
      let cap = max capacity 1 in
      let n = shard_count cpus in
      record {
        shards = replicate n (lru.new (shard_cap cap n));
        cfg = record {
          enabled = true;
          min_ttl = min_ttl;
          max_ttl = max_ttl;
          stale_max_age = stale_max_age;
          store_summaries = true;
        };
        capacity = cap;
        counts = no_counts;
      }

  unfoldable pub clear : DnsCache S → DnsCache S
  clear c = record c { shards = map lru.clear c.shards }

  unfoldable pub reconfigure : Bool → ℕ → ℕ → ℕ → ℕ → DnsCache S → DnsCache S
  unfolding clear shard_cap
  reconfigure enabled capacity min_ttl max_ttl stale_max_age c =
      let cap = max capacity 1 in
      let c' = record c {
        cfg = record c.cfg {
          enabled = enabled;
          min_ttl = min_ttl;
          max_ttl = max_ttl;
          stale_max_age = stale_max_age;
        };
        capacity = cap;
        shards =
            (if cap == c.capacity
              then c.shards
              else map (lru.resize (shard_cap cap (length c.shards))) c.shards);
      } in
      if enabled then c' else clear c'

  unfoldable pub len : DnsCache S → ℕ
  len c = total c.shards
    where
      total : List S → ℕ
      total [] = 0
      total (s ∷ shards) = lru.len s + total shards

  -- The mask takes the hash modulo the number of shards, a power of two.
  abbrev pub shard : Calls → QueryKey → DnsCache S → ℕ
  shard x k c = x.hash_one k % length c.shards

  -- `get` under the lock of the shard at `i`, whose state is `s`.
  unfoldable pub get_in : ℕ → QueryKey → ℕ → ℕ → S → DnsCache S → Option CacheHit × DnsCache S
  unfolding respond serve age_secs
  get_in now k id i s c =
      let (found, used) = lru.get k s in
      let c' = record c { shards = set c.shards i used } in
      elim found [
        | none ↦ (none, record c' { counts = count_miss c.counts })
        | some e ↦ elim (serve (age_secs now e) e.ttl c.cfg.stale_max_age) [
          | some (ttl, freshness) ↦ (
            some (record {
              response = respond id ttl e.stored;
              freshness = freshness;
              verdict = e.verdict;
            }),
            record c' { counts = count_hit freshness c.counts },
          )
          | none ↦ (
            none,
            record c { shards = set c.shards i (lru.pop k used); counts = count_miss c.counts },
          )
        ]
      ]

  -- A cache with no shard would panic; there is none, so that case stands for nothing.
  unfoldable pub get : Calls → ℕ → QueryKey → ℕ → DnsCache S → Option CacheHit × DnsCache S
  unfolding get_in
  get x now k id c =
      if not c.cfg.enabled then (none, c) else elim (get_elem? c.shards (shard x k c)) [
        | none ↦ (none, c)
        | some s ↦ get_in now k id (shard x k c) s c
      ]

  abbrev pub put_entry : Calls → QueryKey → Entry → DnsCache S → DnsCache S
  put_entry x k e c =
      let i = shard x k c in
      elim (get_elem? c.shards i) [
        | none ↦ c
        | some s ↦ record c { shards = set c.shards i (lru.put k e s) }
      ]

  -- `insert_inner`, which `insert`, `insert_with_verdict` and `insert_returning` call
  unfoldable pub insert_inner :
      Calls
      → ℕ
      → QueryKey
      → Message
      → Option ResponseVerdict
      → DnsCache S
      → Option InsertedWire × DnsCache S
  unfolding cacheable_ttl store
  insert_inner x now k m verdict c =
      if not c.cfg.enabled then (none, c) else elim (cacheable_ttl c.cfg m) [
        | none ↦ (none, c)
        | some ttl ↦
            let (stored, served) = store x c.cfg m in
            let e : Entry = record {
              stored = stored;
              stored_at = now;
              ttl = ttl;
              verdict = verdict;
            } in
            (served, put_entry x k e c)
      ]

  unfoldable pub insert : Calls → ℕ → QueryKey → Message → DnsCache S → DnsCache S
  unfolding insert_inner
  insert x now k m c = (insert_inner x now k m none c).1

  unfoldable pub set_store_summaries : Bool → DnsCache S → DnsCache S
  set_store_summaries on c = record c { cfg = record c.cfg { store_summaries = on } }

  unfoldable pub note_refresh_started : DnsCache S → DnsCache S
  note_refresh_started c = record c {
    counts = record c.counts { refreshes = c.counts.refreshes + 1 };
  }

  unfoldable pub note_refresh_failed : DnsCache S → DnsCache S
  note_refresh_failed c = record c {
    counts = record c.counts { refresh_failures = c.counts.refresh_failures + 1 };
  }

  unfoldable pub seed_counters : CacheCounters → DnsCache S → DnsCache S
  seed_counters n c = record c { counts = n }

  unfoldable pub reset_counters : DnsCache S → DnsCache S
  unfolding seed_counters
  reset_counters c = seed_counters no_counts c

  -- What `import_snapshot` puts into the shards, for the records that it restores and the seconds
  -- since the snapshot; the clock goes back that far.
  unfoldable pub restore_entries : Calls → ℕ → ℕ → List ParsedEntry → DnsCache S → DnsCache S
  restore_entries x now elapsed [] c = c
  restore_entries x now elapsed (p ∷ entries) c =
      let e : Entry = record {
        stored = Stored.wire p.bytes p.ttl_offsets p.rcode p.answers;
        stored_at = now - (p.age + elapsed) * 1000000000;
        ttl = p.ttl;
        verdict = none;
      } in
      restore_entries x now elapsed entries (put_entry x p.key e c)

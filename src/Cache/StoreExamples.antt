-- ===== src/Cache/StoreExamples.antt =====
-- Tests and examples for the cache, with a plain map in place of the crate `lru`.
use bulwark.Common.{
  true, ℕ, ◌+◌, ◌*◌, ◌≤◌, ◌<◌, ◌≡◌, refl, ap, subst, ◌∙◌, ◌≢◌, ◌↔◌, ◌⊎◌, inl, inr, false, not,
  Option, none, some, List, [], ◌∷◌, map, arith, if◌then◌else◌, Bool-cases, ◌>>=◌, length, keep_if,
}
use bulwark.Common.Bytes.{Bytes, bytes_eq, u32_at}
use bulwark.Wire.{
  skip_name, skip_questions, record_offsets, scan_ttl_offsets, copy_at, patch_ttl, patch_ttls,
  patch,
}
use bulwark.Cache.Snapshot.{QueryKey, ParsedEntry}
use bulwark.Cache.Keys.{key_eq, key_eq_refl, key_eq_sound}
use bulwark.Dns.{Message, RData, new_message}
use bulwark.Cache.Message.{
  no_error, nx_domain, soa_ttl, negative_ttl, min_ttl_of, base_ttl, clamp_ttl, cacheable_ttl,
  set_ttls, adjust_ttls,
}
use bulwark.Cache.Ttl.{cacheable_ttl-bounds}
use bulwark.Cache.Lru.{LruCache, IsLru}
use bulwark.Cache.Lookup.{lookup}
use bulwark.Cache.Hits.{hit_of, get_iff}
use bulwark.Cache.Runs.{get-latest, hits-misses}
use bulwark.Cache.Runs.Steps.{
  Trace, restored_into, Run, started, inserted, looked_up, restored, seeded,
}
use bulwark.Cache.Runs.History.{latest}
use bulwark.Cache.Served.{Patched, get-Patched, get-insert_inner}
use bulwark.Cache.Store.{
  DnsCache, Calls, new, clear, reconfigure, replicate, shard_count, shard_cap, power_from, get,
  get_in, serve, respond, store, insert_inner, seed_counters, restore_entries,
}
use bulwark.Cache.Entries.{
  CachedResponse, HitFreshness, fresh, CacheHit, CacheCounters, no_counts, Entry, age_secs,
}

-- Entries in no order and with no limit.
abbrev pub Plain : Type 0
Plain = List (QueryKey × Entry)

unfoldable pub without : QueryKey → Plain → Plain
without k s = keep_if (λ p. not (key_eq k p.0)) s

abbrev pub plain : LruCache Plain Entry
plain = record {
  new = λ cap. [];
  peek = latest;
  get = λ k s. (latest k s, s);
  put = λ k e s. (k, e) ∷ without k s;
  pop = without;
  resize = λ cap s. s;
  clear = λ s. [];
  len = length;
}

latest-without_self : (k : QueryKey) (s : Plain) → latest k (without k s) ≡ none
unfolding without
latest-without_self k [] = refl
latest-without_self k ((j, e) ∷ s) = elim (Bool-cases (key_eq k j)) [
  | inl same ↦ rw same (latest-without_self k s)
  | inr apart ↦ rw apart (rw apart (latest-without_self k s))
]

key_apart : (k j : QueryKey) → j ≢ k → key_eq j k ≡ false
key_apart k j h = elim (Bool-cases (key_eq j k)) [
  | inl same ↦ absurd (h (key_eq_sound j k same))
  | inr apart ↦ apart
]

latest-without_other : (k j : QueryKey) (s : Plain) → j ≢ k → latest j (without k s) ≡ latest j s
unfolding without
latest-without_other k j [] h = refl
latest-without_other k j ((i, e) ∷ s) h = elim (Bool-cases (key_eq k i)) [
  | inl same ↦ rw same (
      latest-without_other k j s h
      ∙ rw (subst (λ z. key_eq j z ≡ false) (key_eq_sound k i same) (key_apart k j h)) refl)
  | inr apart ↦ rw apart (ap (λ r. if key_eq j i then some e else r) (latest-without_other k j s h))
]

pub plain-IsLru : IsLru plain
plain-IsLru = record {
  peek-new = λ cap k. refl;
  get_peeks = λ k s. refl;
  peek-get = λ k j s. refl;
  peek-put_self = λ k e s. rw (key_eq_refl k) refl;
  peek-put_other = λ k j e s h. inl (rw (key_apart k j h) (latest-without_other k j s h));
  peek-pop_self = latest-without_self;
  peek-pop_other = latest-without_other;
  peek-resize = λ cap j s. inl refl;
  peek-clear = λ j s. refl;
}

program : Unit {0}
unfolding skip_name skip_questions record_offsets scan_ttl_offsets copy_at patch_ttl patch_ttls
    patch soa_ttl negative_ttl min_ttl_of base_ttl clamp_ttl cacheable_ttl set_ttls adjust_ttls new
    clear reconfigure replicate shard_count shard_cap power_from get get_in serve respond age_secs
    store insert_inner seed_counters restore_entries without bytes_eq
program = tt

-- The answer `a. A IN 300 1.2.3.4`, encoded.
abbrev encoded : Bytes
encoded =
    0 ∷ 7 ∷ 129 ∷ 128 ∷ 0 ∷ 1 ∷ 0 ∷ 1 ∷ 0 ∷ 0 ∷ 0 ∷ 0 ∷ 1 ∷ b'a' ∷ 0 ∷ 0 ∷ 1 ∷ 0 ∷ 1 ∷ 192 ∷ 12 ∷ 0
    ∷ 1 ∷ 0 ∷ 1 ∷ 0 ∷ 0 ∷ 1 ∷ 44 ∷ 0 ∷ 4 ∷ 1 ∷ 2 ∷ 3 ∷ 4 ∷ []

abbrev pub answer : Message
answer = record (new_message 7 true 0) {
  answers = record { name = b'a' ∷ b'.' ∷ []; ttl = 300; rdata = RData.a 16909060 } ∷ [];
}

abbrev pub calls : Calls
calls = record { hash_one = λ k. k.rtype; to_vec = λ m. some encoded; summarize = λ r. [] }

abbrev key : QueryKey
key = record {
  name = b'a' ∷ [];
  rtype = 1;
  class = 1;
  dnssec_ok = false;
  checking_disabled = false;
}

abbrev pub empty : DnsCache Plain
empty = new plain none 100 10 200 60

-- One insertion at time 0.
abbrev filled : DnsCache Plain
filled = (insert_inner plain calls 0 key answer none empty).1

abbrev held : Entry
held = record {
  stored = (store calls empty.cfg answer).0;
  stored_at = 0;
  ttl = 200;
  verdict = none;
}

abbrev untouched : Trace
untouched = record { lookups = 0; base = no_counts; snapshots = [] }

empty-Run : Run plain plain-IsLru calls empty [] untouched
empty-Run = started none 100 10 200 60

filled-Run : Run plain plain-IsLru calls filled ((key, held) ∷ []) untouched
unfolding program
filled-Run = inserted empty [] untouched 0 key answer none 200 refl refl empty-Run

abbrev ttl_in : CachedResponse → Option ℕ
ttl_in (CachedResponse.wire bytes rcode answers) = some (u32_at bytes 25)
ttl_in (CachedResponse.message m) = none

-- Fresh within 200 seconds, stale for 60 more, then gone.
abbrev ttl_at : ℕ → Option ℕ
ttl_at seconds =
    (get plain calls (seconds * 1000000000) key 9 filled).0 >>= λ hit. ttl_in hit.response

serves :
    map ttl_at (0 ∷ 150 ∷ 200 ∷ 259 ∷ 260 ∷ []) ≡ some 200 ∷ some 50 ∷ some 1 ∷ some 1 ∷ none ∷ []
unfolding program
serves = refl

cacheable_ttl-bounds_example :
    (1 ≤ 200)
    × ((empty.cfg.max_ttl ≡ 0) ⊎ (200 ≤ empty.cfg.max_ttl))
    × ((empty.cfg.max_ttl ≡ 0) ⊎ (empty.cfg.min_ttl ≤ empty.cfg.max_ttl) → empty.cfg.min_ttl ≤ 200)
    × ((answer.response_code ≡ no_error) ⊎ (answer.response_code ≡ nx_domain))
    × (answer.truncation ≡ false)
unfolding program
cacheable_ttl-bounds_example = cacheable_ttl-bounds empty.cfg answer 200 refl

get-insert_inner_example :
    (get plain calls 5000000000 key 9 filled).0
    ≡ some (record { response = respond 9 195 held.stored; freshness = fresh; verdict = none })
unfolding program
get-insert_inner_example =
    get-insert_inner plain plain-IsLru calls empty [] untouched empty-Run 5000000000 key 9 0 answer
      none 200 refl refl (omega arith)

abbrev hit_at_5 : CacheHit
hit_at_5 = hit_of 9 held (195, fresh)

get-latest_example :
    (e : Entry) × (s : ℕ × HitFreshness) × (latest key ((key, held) ∷ []) ≡ some e)
    × (serve (age_secs 5000000000 e) e.ttl filled.cfg.stale_max_age ≡ some s)
    × (hit_at_5 ≡ hit_of 9 e s)
    × (age_secs 5000000000 e < e.ttl + filled.cfg.stale_max_age)
unfolding program
get-latest_example =
    get-latest plain plain-IsLru calls filled ((key, held) ∷ []) untouched filled-Run 5000000000 key
      9 hit_at_5 refl

-- The same answer, out of a snapshot that is 40 seconds older than the restart.
abbrev kept_entry : ParsedEntry
kept_entry = record {
  key = key;
  age = 10;
  ttl = 200;
  rcode = no_error;
  answers = [];
  bytes = encoded;
  ttl_offsets = 25 ∷ [];
}

abbrev counted_before : CacheCounters
counted_before = record {
  hits = 7;
  misses = 3;
  stale_hits = 1;
  refreshes = 1;
  refresh_failures = 0;
}

-- A restart: the counters are seeded and the snapshot is restored at second 100.
abbrev restarted : DnsCache Plain
restarted =
    restore_entries plain calls 100000000000 40 (kept_entry ∷ [])
      (seed_counters plain counted_before empty)

abbrev seen : Trace
seen = record { lookups = 0; base = counted_before; snapshots = (kept_entry ∷ []) ∷ [] }

abbrev restarted_history : List (QueryKey × Entry)
restarted_history = restored_into 100000000000 40 (kept_entry ∷ []) []

restarted-Run : Run plain plain-IsLru calls restarted restarted_history seen
restarted-Run =
    restored (seed_counters plain counted_before empty) []
      (record { lookups = 0; base = counted_before; snapshots = [] }) 100000000000 40
      (kept_entry ∷ []) (seeded empty [] untouched counted_before empty-Run)

abbrev hit_after_restart : CacheHit
hit_after_restart = record {
  response = CachedResponse.wire (patch encoded 9 145 (25 ∷ [])) no_error [];
  freshness = fresh;
  verdict = none;
}

get-Patched_example : Patched 9 (patch encoded 9 145 (25 ∷ []))
unfolding program
get-Patched_example =
    get-Patched plain plain-IsLru calls restarted restarted_history seen restarted-Run 105000000000
      key 9 hit_after_restart (patch encoded 9 145 (25 ∷ [])) no_error [] ((refl, tt), tt) refl refl

-- A snapshot entry with no offsets is served with the TTL that its message has.
unpatched_example :
    (get plain calls 105000000000 key 9 (
        restore_entries plain calls 100000000000 40
          (record kept_entry { ttl_offsets = [] } ∷ [])
          empty)).0
      >>= (λ hit. ttl_in hit.response)
    ≡ some 300
unfolding program
unpatched_example = refl

abbrev asked_once : DnsCache Plain
asked_once = (get plain calls 105000000000 key 9 restarted).1

hits-misses_example :
    (asked_once.counts.hits + asked_once.counts.misses ≡ 7 + 3 + 1)
    × (asked_once.counts.stale_hits + 7 ≤ 1 + asked_once.counts.hits)
unfolding program
hits-misses_example =
    hits-misses plain plain-IsLru calls asked_once restarted_history
      (record { lookups = 1; base = counted_before; snapshots = (kept_entry ∷ []) ∷ [] })
      (looked_up restarted restarted_history seen 105000000000 key 9 refl restarted-Run)

get_iff_example : ((hit : CacheHit) × ((get plain calls 5000000000 key 9 filled).0 ≡ some hit)) ↔ (
    (e : Entry) × (lookup plain plain-IsLru calls key filled ≡ some e)
    × (age_secs 5000000000 e < e.ttl + filled.cfg.stale_max_age))
unfolding program
get_iff_example = get_iff plain plain-IsLru calls 5000000000 key 9 filled refl (omega arith)

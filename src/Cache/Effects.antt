-- ===== src/Cache/Effects.antt =====
-- cache.rs, `DnsCache::get`: what a lookup does to the cache.
use bulwark.Common.{
  ℕ, suc, ◌+◌, ◌≤◌, ◌<◌, ◌≡◌, sym, subst, ◌∙◌, ◌≢◌, inl, inr, true, none, some, arith, Bool-cases,
  Option-cases, length, get_elem?, set, length-set,
}
use bulwark.Cache.Snapshot.{QueryKey}
use bulwark.Cache.Lru.{LruCache, IsLru}
use bulwark.Cache.Keys.{key_eq, key_eq_sound, key_eq-false}
use bulwark.Cache.Lookup.{Fewer, Fewer-set, shard_at}
use bulwark.Cache.Hits.{get-get_in}
use bulwark.Cache.Store.{DnsCache, Calls, shard, get, get_in, serve, count_hit, count_miss}
use bulwark.Cache.Entries.{HitFreshness, fresh, stale, CacheCounters, Entry, age_secs}

-- One more lookup is counted, as a hit or as a miss, and a stale hit is a hit.
pub record Counted (before after : CacheCounters) : Type 0 where
  pub one_more : after.hits + after.misses ≡ suc (before.hits + before.misses)
  pub stale_grows : after.stale_hits + before.hits ≤ before.stale_hits + after.hits

count_miss-Counted : (n : CacheCounters) → Counted n (count_miss n)
count_miss-Counted n = record { one_more = omega arith; stale_grows = omega arith }

count_hit-Counted : (f : HitFreshness) (n : CacheCounters) → Counted n (count_hit f n)
count_hit-Counted fresh n = record { one_more = omega arith; stale_grows = omega arith }
count_hit-Counted stale n = record { one_more = omega arith; stale_grows = omega arith }

module _ {S : Type 0} (lru : LruCache S Entry) (d : IsLru lru) (x : Calls) where
  pub record Effect (before after : DnsCache S) : Type 0 where
    pub fewer : Fewer lru d x before.shards after.shards
    pub as_many : length after.shards ≡ length before.shards
    pub counted : Counted before.counts after.counts

  abbrev NoMore : S → S → Type 0
  NoMore s s' = (j : QueryKey) (e : Entry) → lru.peek j s' ≡ some e → lru.peek j s ≡ some e

  used-NoMore : (k : QueryKey) (s : S) → NoMore s (lru.get k s).1
  used-NoMore k s j e h = sym (d.peek-get k j s) ∙ h

  popped-NoMore : (k : QueryKey) (s : S) → NoMore s (lru.pop k (lru.get k s).1)
  popped-NoMore k s j e h = elim (Bool-cases (key_eq j k)) [
    | inl same ↦ absurd (
        none_some (
          sym (d.peek-pop_self k (lru.get k s).1)
          ∙ subst (λ i. lru.peek i (lru.pop k (lru.get k s).1) ≡ some e) (key_eq_sound j k same) h))
    | inr apart ↦
        used-NoMore k s j e
          (sym (d.peek-pop_other k j (lru.get k s).1 (key_eq-false j k apart)) ∙ h)
  ]
    where
      none_some : {e : Entry} → none ≢ some e
      none_some i = cc

  set-Effect :
      (c : DnsCache S) (i : ℕ) (s s' : S) (counts : CacheCounters)
      → get_elem? c.shards i ≡ some s
      → NoMore s s'
      → Counted c.counts counts
      → Effect c (record c { shards = set c.shards i s'; counts = counts })
  set-Effect c i s s' counts at h k = record {
    fewer = Fewer-set lru d x c.shards i s s' at h;
    as_many = length-set c.shards i s';
    counted = k;
  }

  get_in-Effect :
      (now : ℕ) (k : QueryKey) (id i : ℕ) (s : S) (c : DnsCache S)
      → get_elem? c.shards i ≡ some s
      → Effect c (get_in lru now k id i s c).1
  unfolding get_in
  get_in-Effect now k id i s c at = elim (Option-cases (lru.get k s).0) [
    | inl nothing ↦
        rw (nothing, get_in)
          (set-Effect c i s (lru.get k s).1 (count_miss c.counts) at (used-NoMore k s)
            (count_miss-Counted c.counts))
    | inr (e, there_is) ↦ elim (Option-cases (serve (age_secs now e) e.ttl c.cfg.stale_max_age)) [
      | inl expired ↦
          rw (there_is, expired, get_in)
            (set-Effect c i s (lru.pop k (lru.get k s).1) (count_miss c.counts) at
              (popped-NoMore k s) (count_miss-Counted c.counts))
      | inr ((ttl, f), is) ↦
          rw (there_is, is, get_in)
            (set-Effect c i s (lru.get k s).1 (count_hit f c.counts) at (used-NoMore k s)
              (count_hit-Counted f c.counts))
    ]
  ]

  pub get-Effect :
      (now : ℕ) (k : QueryKey) (id : ℕ) (c : DnsCache S)
      → c.cfg.enabled ≡ true
      → 0 < length c.shards
      → Effect c (get lru x now k id c).1
  get-Effect now k id c on shards =
      let (s, at) = shard_at lru d x k c shards in
      subst (λ r. Effect c r.1) (sym (get-get_in lru d x now k id c on shards s at))
        (get_in-Effect now k id (shard lru x k c) s c at)

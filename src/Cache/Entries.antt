-- ===== src/Cache/Entries.antt =====
-- cache.rs: the entries of the cache, their age, and hits.
use bulwark.Common.{ℕ, ◌-◌, ◌/◌, min, Bool, true, false, Option, List}
use bulwark.Common.Bytes.{Bytes}
use bulwark.Filter.Engine.Builder.{MatchInfo}
use bulwark.Dns.{Message}

pub data Stored : Type 0 where
  wire : (bytes : Bytes) (ttl_offsets : List ℕ) (rcode : ℕ) (answers : List Bytes) → Stored
  message : Message → Stored

pub data Outcome : Type 0 where
  clean : Outcome
  block : MatchInfo → Outcome

pub record ResponseVerdict : Type 0 where
  pub generation : ℕ
  pub outcome : Outcome

pub record Entry : Type 0 where
  pub stored : Stored
  pub stored_at : ℕ
  pub ttl : ℕ
  pub verdict : Option ResponseVerdict

unfoldable pub age_secs : ℕ → Entry → ℕ
age_secs now e = min ((now - e.stored_at) / 1000000000) 4294967295

pub data CachedResponse : Type 0 where
  wire : (bytes : Bytes) (rcode : ℕ) (answers : List Bytes) → CachedResponse
  message : Message → CachedResponse

pub record InsertedWire : Type 0 where
  pub bytes : Bytes
  pub rcode : ℕ
  pub answers : List Bytes

pub data HitFreshness : Type 0 where
  fresh stale : HitFreshness

abbrev pub requires_refresh : HitFreshness → Bool
requires_refresh fresh = false
requires_refresh stale = true

pub record CacheHit : Type 0 where
  pub response : CachedResponse
  pub freshness : HitFreshness
  pub verdict : Option ResponseVerdict

pub record CacheCounters : Type 0 where
  pub hits : ℕ
  pub misses : ℕ
  pub stale_hits : ℕ
  pub refreshes : ℕ
  pub refresh_failures : ℕ

abbrev pub no_counts : CacheCounters
no_counts = record { hits = 0; misses = 0; stale_hits = 0; refreshes = 0; refresh_failures = 0 }

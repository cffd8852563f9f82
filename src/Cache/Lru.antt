-- ===== src/Cache/Lru.antt =====
-- The crate `lru`, as the cache calls it, and its documented behaviour.
use bulwark.Common.{ℕ, ◌≡◌, ◌≢◌, ◌⊎◌, Option, none, some}
use bulwark.Cache.Snapshot.{QueryKey}

-- A shard's map: `S` is the type of its states.
pub record LruCache (S E : Type 0) : Type 0 where
  pub new : ℕ → S
  -- `peek` leaves the order of use alone, `get` does not
  pub peek : QueryKey → S → Option E
  pub get : QueryKey → S → Option E × S
  pub put : QueryKey → E → S → S
  pub pop : QueryKey → S → S
  pub resize : ℕ → S → S
  pub clear : S → S
  pub len : S → ℕ

-- A capacity is never zero, so what was put last is there; any other key may be evicted.
pub record IsLru {S E : Type 0} (lru : LruCache S E) : Type 0 where
  pub peek-new : (cap : ℕ) (k : QueryKey) → lru.peek k (lru.new cap) ≡ none
  pub get_peeks : (k : QueryKey) (s : S) → (lru.get k s).0 ≡ lru.peek k s
  pub peek-get : (k j : QueryKey) (s : S) → lru.peek j (lru.get k s).1 ≡ lru.peek j s
  pub peek-put_self : (k : QueryKey) (e : E) (s : S) → lru.peek k (lru.put k e s) ≡ some e
  pub peek-put_other :
      (k j : QueryKey) (e : E) (s : S)
      → j ≢ k
      → (lru.peek j (lru.put k e s) ≡ lru.peek j s) ⊎ (lru.peek j (lru.put k e s) ≡ none)
  pub peek-pop_self : (k : QueryKey) (s : S) → lru.peek k (lru.pop k s) ≡ none
  pub peek-pop_other : (k j : QueryKey) (s : S) → j ≢ k → lru.peek j (lru.pop k s) ≡ lru.peek j s
  pub peek-resize :
      (cap : ℕ) (j : QueryKey) (s : S)
      → (lru.peek j (lru.resize cap s) ≡ lru.peek j s) ⊎ (lru.peek j (lru.resize cap s) ≡ none)
  pub peek-clear : (j : QueryKey) (s : S) → lru.peek j (lru.clear s) ≡ none

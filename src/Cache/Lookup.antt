-- ===== src/Cache/Lookup.antt =====
-- cache.rs: what a key finds, whatever shard and order of use it stands in.
use bulwark.Common.{
  ℕ, zero, suc, ◌%◌, ◌<◌, max, ◌≡◌, refl, sym, ap, subst, ◌∙◌, ◌≢◌, ◌⊎◌, inl, inr, Bool, true,
  false, Option, none, some, List, [], ◌∷◌, map, arith, ◌==◌, if◌then◌else◌, ==_iff, Bool-cases,
  Option-cases, ◌>>=◌, length, get_elem?, set, length-set, get_elem?-set_self, get_elem?-set_ne,
  get_elem?-lt-length,
}
use bulwark.Cache.Snapshot.{QueryKey}
use bulwark.Cache.Lru.{LruCache, IsLru}
use bulwark.Cache.Store.{
  DnsCache, Calls, replicate, shard, put_entry, clear, reconfigure, shard_cap,
}
use bulwark.Cache.Entries.{Entry}

ℕ-same : (m n : ℕ) → (m ≡ n) ⊎ (m ≢ n)
ℕ-same m n = elim (Bool-cases (m == n)) [
  | inl equal ↦ inl ((==_iff m n).0 equal)
  | inr unequal ↦ inr (λ e. false_true (sym unequal ∙ (==_iff m n).1 e))
]
  where
    false_true : false ≢ true
    false_true k = cc

module _ {S : Type 0} (lru : LruCache S Entry) (d : IsLru lru) (x : Calls) where
  -- What `peek` finds in the shard of the key.
  abbrev pub find_in : QueryKey → List S → Option Entry
  find_in k shards = get_elem? shards (x.hash_one k % length shards) >>= λ s. lru.peek k s

  abbrev pub lookup : QueryKey → DnsCache S → Option Entry
  lookup k c = find_in k c.shards

  -- Nothing is found that was not there before.
  abbrev pub Fewer : List S → List S → Type 0
  Fewer before after =
      (j : QueryKey) (e : Entry) → find_in j after ≡ some e → find_in j before ≡ some e

  none-some : {e : Entry} → none ≢ some e
  none-some k = cc

  find_in-set_self :
      (k : QueryKey) (shards : List S) (s : S)
      → x.hash_one k % length shards < length shards
      → find_in k (set shards (x.hash_one k % length shards) s) ≡ lru.peek k s
  find_in-set_self k shards s h =
      rw (length-set shards (x.hash_one k % length shards) s)
        (rw (get_elem?-set_self shards (x.hash_one k % length shards) s h) refl)

  find_in-set_ne :
      (j : QueryKey) (shards : List S) (i : ℕ) (s : S)
      → i ≢ x.hash_one j % length shards
      → find_in j (set shards i s) ≡ find_in j shards
  find_in-set_ne j shards i s h =
      rw (length-set shards i s)
        (rw (get_elem?-set_ne shards i (x.hash_one j % length shards) s h) refl)

  -- A shard is replaced by one in which the keys find no more than before.
  pub Fewer-set :
      (shards : List S) (i : ℕ) (s s' : S)
      → get_elem? shards i ≡ some s
      → ((j : QueryKey) (e : Entry) → lru.peek j s' ≡ some e → lru.peek j s ≡ some e)
      → Fewer shards (set shards i s')
  Fewer-set shards i s s' at h j e found = elim (ℕ-same i (x.hash_one j % length shards)) [
    | inr apart ↦ sym (find_in-set_ne j shards i s' apart) ∙ found
    | inl same ↦
        let at' = subst (λ n. get_elem? shards n ≡ some s) same at in
        let found' = subst (λ n. find_in j (set shards n s') ≡ some e) same found in
        rw at'
          (h j e (sym (find_in-set_self j shards s' (get_elem?-lt-length shards _ at')) ∙ found'))
  ]

  Fewer-map :
      (f : S → S) (shards : List S)
      → ((s : S) (j : QueryKey) (e : Entry) → lru.peek j (f s) ≡ some e → lru.peek j s ≡ some e)
      → Fewer shards (map f shards)
  Fewer-map f shards h j e found = peek_at shards (x.hash_one j % length shards) (
      subst (λ n. get_elem? (map f shards) (x.hash_one j % n) >>= (λ s. lru.peek j s) ≡ some e)
        (length-map shards) found)
    where
      length-map : (shards : List S) → length (map f shards) ≡ length shards
      length-map [] = refl
      length-map (s ∷ shards) = ap suc (length-map shards)

      peek_at :
          (shards : List S) (i : ℕ)
          → get_elem? (map f shards) i >>= (λ s. lru.peek j s) ≡ some e
          → get_elem? shards i >>= (λ s. lru.peek j s) ≡ some e
      peek_at [] i k = k
      peek_at (s ∷ shards) zero k = h s j e k
      peek_at (s ∷ shards) (suc i) k = peek_at shards i k

  pub clear-Fewer : (shards : List S) → Fewer shards (map lru.clear shards)
  clear-Fewer shards =
      Fewer-map lru.clear shards (λ s j e k. absurd (none-some (sym (d.peek-clear j s) ∙ k)))

  resize-Fewer : (cap : ℕ) (shards : List S) → Fewer shards (map (lru.resize cap) shards)
  resize-Fewer cap shards = Fewer-map (lru.resize cap) shards (λ s j e k.
      elim (d.peek-resize cap j s) [
        | inl kept ↦ sym kept ∙ k
        | inr evicted ↦ absurd (none-some (sym evicted ∙ k))
      ])

  Fewer-if :
      (b : Bool) (before after other : List S)
      → Fewer before after
      → Fewer before other
      → Fewer before (if b then after else other)
  Fewer-if true before after other h k = h
  Fewer-if false before after other h k = k

  resized-Fewer :
      (capacity : ℕ) (c : DnsCache S)
      → Fewer c.shards (
          if max capacity 1 == c.capacity
          then c.shards
          else map (lru.resize (shard_cap (max capacity 1) (length c.shards))) c.shards)
  resized-Fewer capacity c =
      Fewer-if (max capacity 1 == c.capacity) c.shards _ _ (λ j e k. k)
        (resize-Fewer (shard_cap (max capacity 1) (length c.shards)) c.shards)

  pub reconfigure-Fewer :
      (enabled : Bool) (capacity min_ttl max_ttl stale_max_age : ℕ) (c : DnsCache S)
      → Fewer c.shards (reconfigure lru enabled capacity min_ttl max_ttl stale_max_age c).shards
  unfolding reconfigure clear
  reconfigure-Fewer true capacity min_ttl max_ttl stale_max_age c j e k =
      resized-Fewer capacity c j e k
  reconfigure-Fewer false capacity min_ttl max_ttl stale_max_age c j e k =
      resized-Fewer capacity c j e (clear-Fewer _ j e k)

  pub shard_at :
      (k : QueryKey) (c : DnsCache S)
      → 0 < length c.shards
      → (s : S) × (get_elem? c.shards (shard lru x k c) ≡ some s)
  shard_at k c h = at_index c.shards (x.hash_one k % length c.shards) (omega (arith, h))
    where
      at_index :
          (shards : List S) (i : ℕ) → i < length shards → (s : S) × (get_elem? shards i ≡ some s)
      at_index [] i k = absurd (omega arith)
      at_index (s ∷ shards) zero k = (s, refl)
      at_index (s ∷ shards) (suc i) k = at_index shards i (omega arith)

  put_entry-shards :
      (k : QueryKey) (e : Entry) (s : S) (c : DnsCache S)
      → get_elem? c.shards (shard lru x k c) ≡ some s
      → put_entry lru x k e c ≡ record c { shards = set c.shards (shard lru x k c) (lru.put k e s) }
  put_entry-shards k e s c at = rw (at, put_entry) refl

  pub lookup-put_entry_self :
      (k : QueryKey) (e : Entry) (c : DnsCache S)
      → 0 < length c.shards
      → lookup k (put_entry lru x k e c) ≡ some e
  lookup-put_entry_self k e c h =
      let (s, at) = shard_at k c h in
      ap (lookup k) (put_entry-shards k e s c at)
      ∙ find_in-set_self k c.shards (lru.put k e s) (get_elem?-lt-length c.shards _ at)
      ∙ d.peek-put_self k e s

  -- A key other than the one inserted finds no more than before.
  pub lookup-put_entry_other :
      (k j : QueryKey) (e found : Entry) (c : DnsCache S)
      → 0 < length c.shards
      → j ≢ k
      → lookup j (put_entry lru x k e c) ≡ some found
      → lookup j c ≡ some found
  lookup-put_entry_other k j e found c h apart is =
      let (s, at) = shard_at k c h in
      let is' : find_in j (set c.shards (shard lru x k c) (lru.put k e s)) ≡ some found =
        ap (lookup j) (sym (put_entry-shards k e s c at)) ∙ is in
      elim (ℕ-same (shard lru x k c) (x.hash_one j % length c.shards)) [
        | inr elsewhere ↦ sym (find_in-set_ne j c.shards _ (lru.put k e s) elsewhere) ∙ is'
        | inl same ↦
            let at' = subst (λ n. get_elem? c.shards n ≡ some s) same at in
            let there_is : lru.peek j (lru.put k e s) ≡ some found =
              sym (find_in-set_self j c.shards (lru.put k e s) (get_elem?-lt-length c.shards _ at'))
              ∙ subst (λ n. find_in j (set c.shards n (lru.put k e s)) ≡ some found) same is' in
            elim (d.peek-put_other k j e s apart) [
              | inl kept ↦ rw at' (sym kept ∙ there_is)
              | inr evicted ↦ absurd (none-some (sym evicted ∙ there_is))
            ]
      ]

  pub put_entry-length :
      (k : QueryKey) (e : Entry) (c : DnsCache S)
      → length (put_entry lru x k e c).shards ≡ length c.shards
  put_entry-length k e c = elim (Option-cases (get_elem? c.shards (shard lru x k c))) [
    | inl nothing ↦ rw (nothing, put_entry) refl
    | inr (s, at) ↦ rw (at, put_entry) (length-set c.shards (shard lru x k c) (lru.put k e s))
  ]

  pub put_entry-counts :
      (k : QueryKey) (e : Entry) (c : DnsCache S) → (put_entry lru x k e c).counts ≡ c.counts
  put_entry-counts k e c = elim (Option-cases (get_elem? c.shards (shard lru x k c))) [
    | inl nothing ↦ rw (nothing, put_entry) refl
    | inr (s, at) ↦ rw (at, put_entry) refl
  ]

  pub Fewer-refl : (shards : List S) → Fewer shards shards
  Fewer-refl shards j e k = k

  pub map-length : (f : S → S) (shards : List S) → length (map f shards) ≡ length shards
  map-length f [] = refl
  map-length f (s ∷ shards) = ap suc (map-length f shards)

  pub find_in-replicate :
      (cap : ℕ) (n : ℕ) (k : QueryKey) → find_in k (replicate n (lru.new cap)) ≡ none
  unfolding replicate
  find_in-replicate cap n k = peek_at n (x.hash_one k % length (replicate n (lru.new cap)))
    where
      peek_at : (n i : ℕ) → get_elem? (replicate n (lru.new cap)) i >>= (λ s. lru.peek k s) ≡ none
      peek_at zero i = refl
      peek_at (suc n) zero = d.peek-new cap k
      peek_at (suc n) (suc i) = peek_at n i

  resized-length :
      (b : Bool) (f : S → S) (shards : List S)
      → length (if b then shards else map f shards) ≡ length shards
  resized-length true f shards = refl
  resized-length false f shards = map-length f shards

  pub reconfigure-length :
      (enabled : Bool) (capacity min_ttl max_ttl stale_max_age : ℕ) (c : DnsCache S)
      → length (reconfigure lru enabled capacity min_ttl max_ttl stale_max_age c).shards
        ≡ length c.shards
  unfolding reconfigure clear
  reconfigure-length true capacity min_ttl max_ttl stale_max_age c =
      resized-length (max capacity 1 == c.capacity) _ c.shards
  reconfigure-length false capacity min_ttl max_ttl stale_max_age c =
      map-length lru.clear _ ∙ resized-length (max capacity 1 == c.capacity) _ c.shards

  pub reconfigure-counts :
      (enabled : Bool) (capacity min_ttl max_ttl stale_max_age : ℕ) (c : DnsCache S)
      → (reconfigure lru enabled capacity min_ttl max_ttl stale_max_age c).counts ≡ c.counts
  unfolding reconfigure clear
  reconfigure-counts true capacity min_ttl max_ttl stale_max_age c = refl
  reconfigure-counts false capacity min_ttl max_ttl stale_max_age c = refl

  pub put_entry-cfg :
      (k : QueryKey) (e : Entry) (c : DnsCache S) → (put_entry lru x k e c).cfg ≡ c.cfg
  put_entry-cfg k e c = elim (Option-cases (get_elem? c.shards (shard lru x k c))) [
    | inl nothing ↦ rw (nothing, put_entry) refl
    | inr (s, at) ↦ rw (at, put_entry) refl
  ]

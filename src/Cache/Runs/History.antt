-- ===== src/Cache/Runs/History.antt =====
-- cache.rs: the insertions that a cache accepted.
use bulwark.Common.{
  ◌≡◌, sym, ap, inl, inr, Option, none, some, List, [], ◌∷◌, if◌then◌else◌, Bool-cases,
  Option-cases, In, here, there, some_injective,
}
use bulwark.Cache.Keys.{key_eq}
use bulwark.Wire.{scan_ttl_offsets}
use bulwark.Cache.Snapshot.{QueryKey}
use bulwark.Dns.{Message}
use bulwark.Cache.Message.{CacheConfig}
use bulwark.Cache.Store.{Calls, store}
use bulwark.Cache.Entries.{Stored, Entry}

-- The latest accepted insertion of a key.
abbrev pub latest : QueryKey → List (QueryKey × Entry) → Option Entry
latest k [] = none
latest k ((j, e) ∷ history) = if key_eq k j then some e else latest k history

-- The offsets of a stored message are those of a scan.
abbrev pub Scanned : Stored → Type 0
Scanned (Stored.wire bytes ttl_offsets rcode answers) = scan_ttl_offsets bytes ≡ some ttl_offsets
Scanned (Stored.message m) = Unit {0}

abbrev pub IsScanned : QueryKey × Entry → Type 0
IsScanned p = Scanned p.1.stored

pub store-Scanned : (x : Calls) (cfg : CacheConfig) (m : Message) → Scanned (store x cfg m).0
unfolding store
store-Scanned x cfg m = elim (Option-cases (x.to_vec m)) [
  | inl nothing ↦ rw (nothing, store) tt
  | inr (bytes, is) ↦ elim (Option-cases (scan_ttl_offsets bytes)) [
    | inl unread ↦ rw (is, unread, store) tt
    | inr (offsets, scan) ↦ rw (is, scan, store) scan
  ]
]

pub latest-In :
    (k : QueryKey) (e : Entry) (history : List (QueryKey × Entry))
    → latest k history ≡ some e
    → (j : QueryKey) × In (j, e) history
latest-In k e [] h = cc
latest-In k e ((j, f) ∷ history) h = elim (Bool-cases (key_eq k j)) [
  | inl same ↦ (j, here (ap (λ (g : Entry). (j, g)) (sym (some_injective (rw same at h)))))
  | inr other ↦ let (i, m) = latest-In k e history (rw other at h) in (i, there m)
]

-- ===== src/Filter/Index.antt =====
-- crates/bulwark-filter/src/engine.rs, `DomainIndex`: rule ids grouped by the hash of a domain.
use bulwark.Common.{
  ℕ, zero, suc, Bool, Option, none, some, List, [], ◌∷◌, ◌++◌, map, ◌==◌, if◌then◌else◌, length,
  take, drop,
}
use bulwark.Filter.Rule.{is_empty}

-- The map as a list of entries, the newest in front (an insert covers an older entry), and the flat
-- vector of ids.
pub record DomainIndex : Type 0 where
  pub map : List (ℕ × ℕ × ℕ)
  pub hits : List ℕ

-- The inner loop: the ids of the pairs at the front whose hash is `h`, and the pairs behind them.
unfoldable pub take_run : ℕ → List (ℕ × ℕ) → List ℕ × List (ℕ × ℕ)
take_run h [] = ([], [])
take_run h ((k, id) ∷ pairs) =
    let (ids, rest) = take_run h pairs in if k == h then (id ∷ ids, rest) else ([], (k, id) ∷ pairs)

-- The ids of a hash go to the end of the vector, and the map gets their span.
abbrev pub file_run : ℕ → List ℕ → DomainIndex → DomainIndex
file_run h run index = record {
  map = (h, length index.hits, length run) ∷ index.map;
  hits = index.hits ++ run;
}

-- The outer loop; each round takes at least one pair, so as much fuel as pairs is enough.
unfoldable pub group : ℕ → List (ℕ × ℕ) → DomainIndex → DomainIndex
group zero pairs index = index
group (suc fuel) [] index = index
group (suc fuel) ((h, id) ∷ pairs) index =
    let run = take_run h ((h, id) ∷ pairs) in group fuel run.1 (file_run h run.0 index)

-- `DomainIndex::build` on pairs that are sorted already
unfoldable pub build_sorted : List (ℕ × ℕ) → DomainIndex
unfolding group take_run
build_sorted pairs = group (length pairs) pairs (record { map = []; hits = [] })

unfoldable pub build : (List (ℕ × ℕ) → List (ℕ × ℕ)) → List (ℕ × ℕ) → DomainIndex
unfolding build_sorted
build sort pairs = build_sorted (sort pairs)

unfoldable pub find_span : ℕ → List (ℕ × ℕ × ℕ) → Option (ℕ × ℕ)
find_span h [] = none
find_span h ((k, start, len) ∷ map) = if k == h then some (start, len) else find_span h map

-- `DomainIndex::get`
unfoldable pub get : DomainIndex → ℕ → List ℕ
unfolding find_span
get index h = elim (find_span h index.map) [
  | none ↦ []
  | some (start, len) ↦ take len (drop start index.hits)
]

unfoldable pub index_is_empty : DomainIndex → Bool
index_is_empty index = is_empty index.hits

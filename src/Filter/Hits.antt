-- ===== src/Filter/Hits.antt =====
-- engine.rs: where the ids that a scan or a lookup reports come from.
use bulwark.Common.{
  ℕ, zero, suc, ◌≡◌, refl, sym, ap, subst, ◌∙◌, ◌⊎◌, inl, inr, Bool, true, false, none, some, List,
  [], ◌∷◌, map, ◌==◌, if◌then◌else◌, Bool-cases, Option-cases, length, get_elem?, take, drop, In,
  here, there, In-append, some_injective,
}
use bulwark.Common.Bytes.{Bytes}
use bulwark.Filter.Rule.{is_empty}
use bulwark.Filter.External.{External, IsDocumented}
use bulwark.Filter.Index.{
  DomainIndex, take_run, group, build_sorted, build, find_span, get, file_run,
}
use bulwark.Filter.Scan.{
  RuleRecord, ScanGroup, entry_of, pattern_of, chunk_patterns, add_chunk, add_chunks,
  build_scan_group, check_pattern, collect, token_hits, set_hits, scan_group, fallback_chunk,
  distribute, token_freq,
}

-- What a list of candidates collects comes from one of its parts.
collect-from {ℓ} :
    {A : Type ℓ} (f : A → List ℕ) (ys : List A) (id : ℕ)
    → In id (collect f ys)
    → (y : A) × In y ys × In id (f y)
unfolding collect
collect-from f [] id m = elim m [ ]
collect-from f (y ∷ ys) id m =
    In-append (f y) (collect f ys) (λ early. (y, here refl, early))
      (λ late. let (z, mz, mid) = collect-from f ys id late in (z, there mz, mid)) m

module _ (x : External) (records : List RuleRecord) (regexes : List Bytes) where
  -- The patterns of a set stand beside the ids of their rules.
  abbrev Parallel : List Bytes × List ℕ → Type 0
  Parallel s =
      (i : ℕ) (p : Bytes) (id : ℕ)
      → get_elem? s.0 i ≡ some p
      → get_elem? s.1 i ≡ some id
      → pattern_of records regexes id ≡ some p

  chunk_patterns-Parallel : (chunk : List ℕ) → Parallel (chunk_patterns records regexes chunk)
  unfolding chunk_patterns
  chunk_patterns-Parallel [] i p id e e' = cc
  chunk_patterns-Parallel (j ∷ chunk) i p id e e' =
      elim (Option-cases (pattern_of records regexes j)) [
        | inl nothing ↦ chunk_patterns-Parallel chunk i p id (rw nothing at e) (rw nothing at e')
        | inr (q, there_is) ↦
            at_place (λ k. chunk_patterns-Parallel chunk k p id) i (rw there_is at e)
              (rw there_is at e') there_is
      ]
    where
      at_place :
          {q : Bytes}
          (rest : (k : ℕ)
            → get_elem? (chunk_patterns records regexes chunk).0 k ≡ some p
            → get_elem? (chunk_patterns records regexes chunk).1 k ≡ some id
            → pattern_of records regexes id ≡ some p)
          (k : ℕ)
          → get_elem? (q ∷ (chunk_patterns records regexes chunk).0) k ≡ some p
          → get_elem? (j ∷ (chunk_patterns records regexes chunk).1) k ≡ some id
          → pattern_of records regexes j ≡ some q
          → pattern_of records regexes id ≡ some p
      at_place rest zero g g' there_is =
          subst (λ n. pattern_of records regexes n ≡ some p) (some_injective g') (there_is ∙ g)
      at_place rest (suc k) g g' there_is = rest k g g'

  abbrev AllParallel : List (List Bytes × List ℕ) → Type 0
  AllParallel sets = (s : List Bytes × List ℕ) → In s sets → Parallel s

  add_chunk-AllParallel :
      (chunk : List ℕ) (acc : List (List Bytes × List ℕ) × List ℕ)
      → AllParallel acc.0
      → AllParallel (add_chunk x records regexes chunk acc).0
  unfolding add_chunk
  add_chunk-AllParallel chunk (sets, individual) a =
      let built = chunk_patterns records regexes chunk in
      elim (Bool-cases (is_empty built.0)) [
        | inl nothing ↦ rw nothing a
        | inr something ↦ elim (Bool-cases (x.set_builds built.0)) [
          | inl builds ↦
              rw (something, builds)
                (λ s m. In-append sets (built ∷ []) (a s) (λ late. newest s late) m)
          | inr fails ↦ rw (something, fails) a
        ]
      ]
    where
      newest :
          (s : List Bytes × List ℕ) → In s (chunk_patterns records regexes chunk ∷ []) → Parallel s
      newest s (here e) = subst Parallel (sym e) (chunk_patterns-Parallel chunk)
      newest s (there m) = elim m [ ]

  add_chunks-AllParallel :
      (fuel : ℕ) (fallback : List ℕ) (acc : List (List Bytes × List ℕ) × List ℕ)
      → AllParallel acc.0
      → AllParallel (add_chunks x records regexes fuel fallback acc).0
  unfolding add_chunks
  add_chunks-AllParallel zero fallback acc a = a
  add_chunks-AllParallel (suc fuel) [] acc a = a
  add_chunks-AllParallel (suc fuel) (j ∷ fallback) acc a =
      add_chunks-AllParallel fuel _ _
        (add_chunk-AllParallel (take fallback_chunk (j ∷ fallback)) acc a)

  -- The rule is a wildcard or regex rule that matches.
  abbrev pub Hit : Bytes → ℕ → Type 0
  Hit domain id =
      (p : Bytes) × (pattern_of records regexes id ≡ some p) × (x.is_match p domain ≡ true)

  check_pattern-Hit :
      (domain : Bytes) (j id : ℕ) → In id (check_pattern x records regexes domain j) → Hit domain id
  unfolding check_pattern
  check_pattern-Hit domain j id m = elim (Option-cases (pattern_of records regexes j)) [
    | inl nothing ↦ elim (rw (nothing, check_pattern) at m) [ ]
    | inr (p, there_is) ↦ elim (Bool-cases (x.is_match p domain)) [
      | inr misses ↦ elim (rw (there_is, check_pattern, misses) at m) [ ]
      | inl hits ↦ (
        p,
        ap (pattern_of records regexes) (only (rw (there_is, check_pattern, hits) at m)) ∙ there_is,
        hits,
      )
    ]
  ]
    where
      only : In id (j ∷ []) → id ≡ j
      only (here e) = e
      only (there m') = elim m' [ ]

  set_hits-Hit :
      (d : IsDocumented x) (domain : Bytes) (s : List Bytes × List ℕ) (id : ℕ)
      → Parallel s
      → In id (set_hits x domain s)
      → Hit domain id
  unfolding set_hits
  set_hits-Hit d domain (pats, ids) id a m =
      let (i, reported, mine) = collect-from _ (x.set_matches pats domain) id m in
      let (p, at, matches) = d.set_sound pats domain i reported in
      (p, a i p id at (the_id i mine), matches)
    where
      the_id :
          (i : ℕ)
          → In id (elim (get_elem? ids i) [ none ↦ [] | some j ↦ j ∷ [] ])
          → get_elem? ids i ≡ some id
      the_id i mine = elim (Option-cases (get_elem? ids i)) [
        | inl nothing ↦ elim (rw nothing at mine) [ ]
        | inr (j, there_is) ↦ elim (rw there_is at mine) [
          | here e ↦ there_is ∙ ap some (sym e)
          | there m' ↦ elim m' [ ]
        ]
      ]

  token_hits-Hit :
      (domain : Bytes) (index : List (ℕ × List ℕ)) (tok id : ℕ)
      → In id (token_hits x records regexes domain index tok)
      → Hit domain id
  unfolding token_hits
  token_hits-Hit domain index tok id m = elim (Option-cases (entry_of tok index)) [
    | inl nothing ↦ elim (rw (nothing, token_hits) at m) [ ]
    | inr (ids, there_is) ↦
        let (j, mj, mid) = collect-from _ ids id (rw (there_is, token_hits) at m) in
        check_pattern-Hit domain j id mid
  ]

  parts-Hit :
      (d : IsDocumented x) (g : ScanGroup) (domain : Bytes) (tokens : List ℕ) (id : ℕ)
      → AllParallel g.fallback_sets
      → In id (scan_group x records regexes g domain tokens)
      → Hit domain id
  unfolding scan_group
  parts-Hit d g domain tokens id a m =
      In-append (collect (set_hits x domain) g.fallback_sets) _
        (λ in_sets.
          let (s, ms, mid) = collect-from (set_hits x domain) g.fallback_sets id in_sets in
          set_hits-Hit d domain s id (a s ms) mid)
        (λ rest.
          In-append (collect (check_pattern x records regexes domain) g.fallback_individual)
            (if is_empty g.scan_index
              then []
              else collect (token_hits x records regexes domain g.scan_index) tokens)
            (λ alone.
              let (j, mj, mid) =
                collect-from (check_pattern x records regexes domain) g.fallback_individual id
                  alone in
              check_pattern-Hit domain j id mid)
            (in_index (is_empty g.scan_index)) rest)
        m
    where
      in_index :
          (empty : Bool)
          → In id (
              if empty
              then []
              else collect (token_hits x records regexes domain g.scan_index) tokens)
          → Hit domain id
      in_index true n = elim n [ ]
      in_index false n =
          let (t, mt, mid) =
            collect-from (token_hits x records regexes domain g.scan_index) tokens id n in
          token_hits-Hit domain g.scan_index t id mid

  -- Every rule that a scan reports is a wildcard or regex rule, and its pattern matches.
  pub scan_group-Hit :
      (d : IsDocumented x) (meta : List (ℕ × List ℕ)) (indexed : Bool) (domain : Bytes)
      (tokens : List ℕ) (id : ℕ)
      → In id (
          scan_group x records regexes
            (build_scan_group x meta records regexes indexed)
            domain
            tokens)
      → Hit domain id
  unfolding build_scan_group
  scan_group-Hit d meta true domain tokens id m =
      let rest = (distribute (token_freq meta) meta ([], [])).1 in
      parts-Hit d (build_scan_group x meta records regexes true) domain tokens id
        (add_chunks-AllParallel (length rest) rest ([], []) (λ t none_here. elim none_here [ ])) m
  scan_group-Hit d meta false domain tokens id m =
      let rest = map (λ (m : ℕ × List ℕ). m.0) meta in
      parts-Hit d (build_scan_group x meta records regexes false) domain tokens id
        (add_chunks-AllParallel (length rest) rest ([], []) (λ t none_here. elim none_here [ ])) m

-- Every id that a lookup returns was filed.
In-span : (start len : ℕ) (hits : List ℕ) (id : ℕ) → In id (take len (drop start hits)) → In id hits
In-span zero zero hits id m = elim m [ ]
In-span zero (suc len) [] id m = elim m [ ]
In-span zero (suc len) (h ∷ hits) id (here e) = here e
In-span zero (suc len) (h ∷ hits) id (there m) = there (In-span zero len hits id m)
In-span (suc start) zero hits id m = elim m [ ]
In-span (suc start) (suc len) [] id m = elim m [ ]
In-span (suc start) (suc len) (h ∷ hits) id m = there (In-span start (suc len) hits id m)

pub get-hits : (index : DomainIndex) (h id : ℕ) → In id (get index h) → In id index.hits
unfolding get
get-hits index h id m = elim (Option-cases (find_span h index.map)) [
  | inl nothing ↦ elim (rw (nothing, get) at m) [ ]
  | inr ((start, len), there_is) ↦ In-span start len index.hits id (rw (there_is, get) at m)
]

Filed : ℕ → List (ℕ × ℕ) → Type 0
Filed id pairs = (k : ℕ) × In (k, id) pairs

take_run-from :
    (h : ℕ) (pairs : List (ℕ × ℕ)) (id : ℕ)
    → (In id (take_run h pairs).0 → Filed id pairs)
      × ((k : ℕ) → In (k, id) (take_run h pairs).1 → In (k, id) pairs)
unfolding take_run Filed
take_run-from h [] id = (λ m. elim m [ ], λ k m. m)
take_run-from h ((k, j) ∷ pairs) id =
    let (early, late) = take_run-from h pairs id in
    elim (Bool-cases (k == h)) [
      | inr miss ↦ rw miss (λ m. elim m [ ], λ i m. m)
      | inl hit ↦ rw hit (in_run early, λ i m. there (late i m))
    ]
  where
    in_run :
        (In id (take_run h pairs).0 → Filed id pairs)
        → In id (j ∷ (take_run h pairs).0)
        → Filed id ((k, j) ∷ pairs)
    in_run early (here e) = (k, here (ap (λ i. (k, i)) e))
    in_run early (there m) = let (i, mi) = early m in (i, there mi)

group-hits :
    (fuel : ℕ) (pairs : List (ℕ × ℕ)) (index : DomainIndex) (id : ℕ)
    → In id (group fuel pairs index).hits
    → In id index.hits ⊎ Filed id pairs
unfolding group Filed
group-hits zero pairs index id m = inl m
group-hits (suc fuel) [] index id m = inl m
group-hits (suc fuel) ((k, j) ∷ pairs) index id m =
    let run = take_run k ((k, j) ∷ pairs) in
    let (early, late) = take_run-from k ((k, j) ∷ pairs) id in
    elim (group-hits fuel run.1 (file_run k run.0 index) id m) [
      | inl now ↦ In-append index.hits run.0 (λ before. inl before) (λ new. inr (early new)) now
      | inr (i, mi) ↦ inr (i, late i mi)
    ]

pub get-build_from :
    (x : External) (d : IsDocumented x) (pairs : List (ℕ × ℕ)) (h id : ℕ)
    → In id (get (build x.sort_by_key pairs) h)
    → (k : ℕ) × In (k, id) pairs
unfolding build build_sorted Filed
get-build_from x d pairs h id m =
    let sorted = x.sort_by_key pairs in
    elim (group-hits (length sorted) sorted (record { map = []; hits = [] }) id
      (get-hits (build x.sort_by_key pairs) h id m)) [
        | inl nothing ↦ elim nothing [ ]
        | inr (k, mk) ↦ (k, (d.sort_keeps (k, id) pairs).0 mk)
      ]

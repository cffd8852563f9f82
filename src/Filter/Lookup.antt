-- ===== src/Filter/Lookup.antt =====
-- engine.rs, `DomainIndex`: the ids that are filed under a hash.
use bulwark.Common.{
  ℕ, zero, suc, ◌+◌, ◌≤◌, ◌<◌, ◌≡◌, refl, sym, ap, subst, ◌∙◌, ◌≢◌, ◌⊎◌, inl, inr, true, some, List,
  [], ◌∷◌, arith, ◌==◌, ==_iff, Bool-cases, length, take, drop, All, In, here, there, length-append,
  drop-append_self, span-append_left, take-length,
}
use bulwark.Filter.External.{External, IsDocumented, Ascending}
use bulwark.Filter.Index.{
  DomainIndex, take_run, group, build_sorted, build, find_span, get, file_run,
}

-- No pair has the hash `h`.
abbrev Lacks : ℕ → List (ℕ × ℕ) → Type 0
Lacks h = All (λ p. p.0 ≢ h)

-- Every pair has a hash above `h`.
abbrev Above : ℕ → List (ℕ × ℕ) → Type 0
Above h = All (λ p. h < p.0)

Ascending-tail : (p : ℕ × ℕ) (ps : List (ℕ × ℕ)) → Ascending (p ∷ ps) → Ascending ps
Ascending-tail p [] a = tt
Ascending-tail p (q ∷ ps) a = a.1

-- In sorted pairs that begin with a hash above `h`, all are above it.
Ascending-Above :
    (h : ℕ) (p : ℕ × ℕ) (ps : List (ℕ × ℕ)) → h < p.0 → Ascending (p ∷ ps) → Above h (p ∷ ps)
Ascending-Above h p [] lt a = (lt, tt)
Ascending-Above h p (q ∷ ps) lt a = (lt, Ascending-Above h q ps (omega arith) a.1)

Above-Lacks : (h : ℕ) (ps : List (ℕ × ℕ)) → Above h ps → Lacks h ps
Above-Lacks h [] a = tt
Above-Lacks h (p ∷ ps) a = (omega arith, Above-Lacks h ps a.1)

-- What one round takes: the ids of its hash, and sorted pairs above it.
record Run (h : ℕ) (pairs : List (ℕ × ℕ)) (run : List ℕ × List (ℕ × ℕ)) : Type 0 where
  shorter : length run.1 ≤ length pairs
  sorted : Ascending run.1
  above : Above h run.1
  found : (k id : ℕ) → In (k, id) pairs → ((k ≡ h) × In id run.0) ⊎ In (k, id) run.1
  lacks : (k : ℕ) → Lacks k pairs → Lacks k run.1

AtLeast : ℕ → List (ℕ × ℕ) → Type 0
AtLeast h [] = Unit {0}
AtLeast h (p ∷ ps) = h ≤ p.0

same_test : (k : ℕ) → (k == k) ≡ true
same_test k = (==_iff k k).1 refl

take_run-Run :
    (h : ℕ) (pairs : List (ℕ × ℕ))
    → Ascending pairs
    → AtLeast h pairs
    → Run h pairs (take_run h pairs)
unfolding take_run AtLeast
take_run-Run h [] a le = record {
  shorter = omega arith;
  sorted = tt;
  above = tt;
  found = λ k id m. elim m [ ];
  lacks = λ k l. tt;
}
take_run-Run h ((k, id) ∷ pairs) a le = elim (Bool-cases (k == h)) [
  | inl hit ↦
      let r = take_run-Run h pairs (Ascending-tail (k, id) pairs a) (next_at_least pairs a) in
      rw hit (record {
        shorter = omega (arith, r.shorter);
        sorted = r.sorted;
        above = r.above;
        found = λ j i. found_here j i ((==_iff k h).0 hit) r;
        lacks = λ j l. r.lacks j l.1;
      })
  | inr miss ↦
      let above = Ascending-Above h (k, id) pairs (ground arith) a in
      rw miss (record {
        shorter = omega arith;
        sorted = a;
        above = above;
        found = λ j i m. inr m;
        lacks = λ j l. l;
      })
]
  where
    next_at_least : (ps : List (ℕ × ℕ)) → Ascending ((k, id) ∷ ps) → AtLeast h ps
    next_at_least [] b = tt
    next_at_least (q ∷ ps) b = omega arith

    found_here :
        (j i : ℕ)
        → k ≡ h
        → Run h pairs (take_run h pairs)
        → In (j, i) ((k, id) ∷ pairs)
        → ((j ≡ h) × In i (id ∷ (take_run h pairs).0)) ⊎ In (j, i) (take_run h pairs).1
    found_here j i hit r (here e) = inl (ap (λ p. p.0) e ∙ hit, here (ap (λ p. p.1) e))
    found_here j i hit r (there m) = elim (r.found j i m) [
      | inl (same, early) ↦ inl (same, there early)
      | inr late ↦ inr late
    ]

-- The ids that the index holds for the hash `h`, inside the flat vector.
record Held (index : DomainIndex) (h : ℕ) (ids : List ℕ) : Type 0 where
  start : ℕ
  len : ℕ
  span : find_span h index.map ≡ some (start, len)
  fits : start + len ≤ length index.hits
  held : take len (drop start index.hits) ≡ ids

get-Held : (index : DomainIndex) (h : ℕ) (ids : List ℕ) → Held index h ids → get index h ≡ ids
unfolding get
get-Held index h ids v = rw (v.span, get) v.held

-- A later round files another hash behind those that are there.
round-Held :
    (index : DomainIndex) (h k : ℕ) (ids run : List ℕ)
    → k ≢ h
    → Held index h ids
    → Held (file_run k run index) h ids
unfolding find_span
round-Held index h k ids run other v = record {
  start = v.start;
  len = v.len;
  span = ground (arith, v.span);
  fits = omega (arith, v.fits, length-append index.hits run);
  held = span-append_left v.len v.start index.hits run v.fits ∙ v.held;
}

round_new-Held : (index : DomainIndex) (h : ℕ) (run : List ℕ) → Held (file_run h run index) h run
unfolding find_span
round_new-Held index h run = record {
  start = length index.hits;
  len = length run;
  span = rw (same_test h);
  fits = omega (arith, length-append index.hits run);
  held = ap (take (length run)) (drop-append_self index.hits run) ∙ take-length run;
}

-- One round's run, as it stands in `group`.
first-Run :
    (h id : ℕ) (pairs : List (ℕ × ℕ))
    → Ascending ((h, id) ∷ pairs)
    → (Run h ((h, id) ∷ pairs) (take_run h ((h, id) ∷ pairs)))
      × (length (take_run h ((h, id) ∷ pairs)).1 ≤ length pairs)
unfolding take_run AtLeast
first-Run h id pairs a =
    let r = take_run-Run h pairs (Ascending-tail (h, id) pairs a) (tail_at_least pairs a) in
    (take_run-Run h ((h, id) ∷ pairs) a (omega arith), rw (same_test h) r.shorter)
  where
    tail_at_least : (ps : List (ℕ × ℕ)) → Ascending ((h, id) ∷ ps) → AtLeast h ps
    tail_at_least [] b = tt
    tail_at_least (q ∷ ps) b = b.0

group-Held :
    (fuel : ℕ) (pairs : List (ℕ × ℕ)) (index : DomainIndex) (h : ℕ) (ids : List ℕ)
    → Ascending pairs
    → Lacks h pairs
    → Held index h ids
    → Held (group fuel pairs index) h ids
unfolding group
group-Held zero pairs index h ids a l v = v
group-Held (suc fuel) [] index h ids a l v = v
group-Held (suc fuel) ((k, id) ∷ pairs) index h ids a l v =
    let r = (first-Run k id pairs a).0 in
    group-Held fuel (take_run k ((k, id) ∷ pairs)).1 _ h ids r.sorted (r.lacks h l)
      (round-Held index h k ids (take_run k ((k, id) ∷ pairs)).0 l.0 v)

group-finds :
    (fuel : ℕ) (pairs : List (ℕ × ℕ)) (index : DomainIndex) (h id : ℕ)
    → length pairs ≤ fuel
    → Ascending pairs
    → In (h, id) pairs
    → (ids : List ℕ) × Held (group fuel pairs index) h ids × In id ids
unfolding group
group-finds zero [] index h id f a m = elim m [ ]
group-finds zero (p ∷ pairs) index h id f a m = absurd (omega arith)
group-finds (suc fuel) [] index h id f a m = elim m [ ]
group-finds (suc fuel) ((k, i) ∷ pairs) index h id f a m =
    let run = take_run k ((k, i) ∷ pairs) in
    let (r, shorter) = first-Run k i pairs a in
    elim (r.found h id m) [
      | inl (same, early) ↦ (
        run.0,
        group-Held fuel run.1 _ h run.0 r.sorted
            (subst (λ j. Lacks j run.1) (sym same) (Above-Lacks k run.1 r.above))
            (subst (λ j. Held (file_run k run.0 index) j run.0) (sym same)
              (round_new-Held index k run.0)),
        early,
      )
      | inr late ↦ group-finds fuel run.1 _ h id (omega arith) r.sorted late
    ]

-- Every id filed under a hash is among those that a lookup of the hash returns, whatever the
-- order in which the sort left equal hashes.
pub get-build :
    (x : External) (d : IsDocumented x) (pairs : List (ℕ × ℕ)) (h id : ℕ)
    → In (h, id) pairs
    → In id (get (build x.sort_by_key pairs) h)
unfolding build build_sorted
get-build x d pairs h id m =
    let sorted = x.sort_by_key pairs in
    let (ids, held, found) =
      group-finds (length sorted) sorted (record { map = []; hits = [] }) h id (omega arith)
        (d.sort_sorts pairs) ((d.sort_keeps (h, id) pairs).1 m) in
    subst (In id)
      (sym (get-Held (group (length sorted) sorted (record { map = []; hits = [] })) h ids held))
      found

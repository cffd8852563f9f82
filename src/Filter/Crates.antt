-- ===== src/Filter/Crates.antt =====
-- Plain stand-ins for the crates that the filter engine calls, for the examples.
use bulwark.Common.{
  ℕ, zero, suc, ◌+◌, ◌≡◌, refl, ap, subst, ◌∙◌, ◌↔◌, inl, inr, Bool, true, false, some, List, [],
  ◌∷◌, arith, leb, if◌then◌else◌, leb→le, Bool-cases, length, get_elem?, In, here, there,
  some_injective,
}
use bulwark.Common.Bytes.{Bytes}
use bulwark.Filter.External.{External, IsDocumented, Ascending}

unfoldable pub insert_by_key : ℕ × ℕ → List (ℕ × ℕ) → List (ℕ × ℕ)
insert_by_key p [] = p ∷ []
insert_by_key p (q ∷ ps) = if leb p.0 q.0 then p ∷ q ∷ ps else q ∷ insert_by_key p ps

unfoldable pub insertion_sort : List (ℕ × ℕ) → List (ℕ × ℕ)
unfolding insert_by_key
insertion_sort [] = []
insertion_sort (p ∷ ps) = insert_by_key p (insertion_sort ps)

unfoldable pub matches_from : (Bytes → Bytes → Bool) → ℕ → List Bytes → Bytes → List ℕ
matches_from m k [] domain = []
matches_from m k (p ∷ pats) domain =
    if m p domain
    then k ∷ matches_from m (suc k) pats domain
    else matches_from m (suc k) pats domain

-- Regexes by a test of their source and a name, the length as the hash, and a stable sort.
abbrev pub crates_of : (Bytes → Bytes → Bool) → External
crates_of is_match = record {
  is_match = is_match;
  set_builds = λ pats. true;
  set_matches = matches_from is_match 0;
  contains = λ net ip. false;
  hash_one = length;
  sort_by_key = insertion_sort;
  hash_content = λ entries. 0;
}

matches_from_sound :
    (re : Bytes → Bytes → Bool) (k : ℕ) (pats : List Bytes) (domain : Bytes) (i : ℕ)
    → In i (matches_from re k pats domain)
    → (j : ℕ) × (i ≡ k + j) × ((p : Bytes) × (get_elem? pats j ≡ some p) × (re p domain ≡ true))
unfolding matches_from
matches_from_sound re k [] domain i m = elim m [ ]
matches_from_sound re k (p ∷ pats) domain i m = elim (Bool-cases (re p domain)) [
  | inl hit ↦ first hit (rw hit at m) (matches_from_sound re (suc k) pats domain i)
  | inr miss ↦
      let (j, e, rest) = matches_from_sound re (suc k) pats domain i (rw miss at m) in
      (suc j, omega (arith, e), rest)
]
  where
    first :
        re p domain ≡ true
        → In i (k ∷ matches_from re (suc k) pats domain)
        → (In i (matches_from re (suc k) pats domain)
            → (j : ℕ) × (i ≡ suc k + j)
              × ((p : Bytes) × (get_elem? pats j ≡ some p) × (re p domain ≡ true)))
        → (j : ℕ) × (i ≡ k + j)
          × ((q : Bytes) × (get_elem? (p ∷ pats) j ≡ some q) × (re q domain ≡ true))
    first hit (here e) later = (0, omega (arith, e), (p, refl, hit))
    first hit (there n) later = let (j, e, rest) = later n in (suc j, omega (arith, e), rest)

matches_from_complete :
    (re : Bytes → Bytes → Bool) (k : ℕ) (pats : List Bytes) (domain : Bytes) (j : ℕ) (p : Bytes)
    → get_elem? pats j ≡ some p
    → re p domain ≡ true
    → In (k + j) (matches_from re k pats domain)
unfolding matches_from
matches_from_complete re k [] domain j p at h = cc
matches_from_complete re k (q ∷ pats) domain zero p at h =
    let same : re q domain ≡ true = ap (λ t. re t domain) (some_injective at) ∙ h in
    rw same (here (omega arith))
matches_from_complete re k (q ∷ pats) domain (suc j) p at h =
    let later : In (k + suc j) (matches_from re (suc k) pats domain) =
      subst (λ n. In n (matches_from re (suc k) pats domain)) (omega arith)
        (matches_from_complete re (suc k) pats domain j p at h) in
    elim (Bool-cases (re q domain)) [ inl hit ↦ rw hit (there later) | inr miss ↦ rw miss later ]

insert_by_key-In :
    (p : ℕ × ℕ) (ps : List (ℕ × ℕ)) (r : ℕ × ℕ) → In r (insert_by_key p ps) ↔ In r (p ∷ ps)
unfolding insert_by_key
insert_by_key-In p [] r = (λ m. m, λ m. m)
insert_by_key-In p (q ∷ ps) r = elim (Bool-cases (leb p.0 q.0)) [
  | inl front ↦ rw front (λ m. m, λ m. m)
  | inr behind ↦ rw behind (to (insert_by_key-In p ps r), from (insert_by_key-In p ps r))
]
  where
    to :
        In r (insert_by_key p ps) ↔ In r (p ∷ ps)
        → In r (q ∷ insert_by_key p ps)
        → In r (p ∷ q ∷ ps)
    to ih (here e) = there (here e)
    to ih (there m) = elim (ih.0 m) [ here e ↦ here e | there n ↦ there (there n) ]

    from :
        In r (insert_by_key p ps) ↔ In r (p ∷ ps)
        → In r (p ∷ q ∷ ps)
        → In r (q ∷ insert_by_key p ps)
    from ih (here e) = there (ih.1 (here e))
    from ih (there (here e)) = here e
    from ih (there (there n)) = there (ih.1 (there n))

insertion_sort-In : (r : ℕ × ℕ) (ps : List (ℕ × ℕ)) → In r (insertion_sort ps) ↔ In r ps
unfolding insertion_sort
insertion_sort-In r [] = (λ m. m, λ m. m)
insertion_sort-In r (p ∷ ps) =
    let (out, back) = insertion_sort-In r ps in
    let (out', back') = insert_by_key-In p (insertion_sort ps) r in
    (λ m. to out (out' m), λ m. back' (from back m))
  where
    to : (In r (insertion_sort ps) → In r ps) → In r (p ∷ insertion_sort ps) → In r (p ∷ ps)
    to f (here e) = here e
    to f (there m) = there (f m)

    from : (In r ps → In r (insertion_sort ps)) → In r (p ∷ ps) → In r (p ∷ insertion_sort ps)
    from f (here e) = here e
    from f (there m) = there (f m)

insert_by_key-Ascending :
    (p : ℕ × ℕ) (ps : List (ℕ × ℕ)) → Ascending ps → Ascending (insert_by_key p ps)
unfolding insert_by_key
insert_by_key-Ascending p [] a = tt
insert_by_key-Ascending p (q ∷ []) a = elim (Bool-cases (leb p.0 q.0)) [
  | inl front ↦ rw front (leb→le p.0 q.0 front, tt)
  | inr behind ↦ rw behind (ground arith, tt)
]
insert_by_key-Ascending p (q ∷ s ∷ ps) a = elim (Bool-cases (leb p.0 q.0)) [
  | inl front ↦ rw front (leb→le p.0 q.0 front, a)
  | inr behind ↦ rw behind (elim (Bool-cases (leb p.0 s.0)) [
    | inl next ↦ rw next (ground arith, rw next at (insert_by_key-Ascending p (s ∷ ps) a.1))
    | inr later ↦ rw later (a.0, rw later at (insert_by_key-Ascending p (s ∷ ps) a.1))
  ])
]

insertion_sort-Ascending : (ps : List (ℕ × ℕ)) → Ascending (insertion_sort ps)
unfolding insertion_sort
insertion_sort-Ascending [] = tt
insertion_sort-Ascending (p ∷ ps) =
    insert_by_key-Ascending p (insertion_sort ps) (insertion_sort-Ascending ps)

pub crates_of-IsDocumented : (is_match : Bytes → Bytes → Bool) → IsDocumented (crates_of is_match)
crates_of-IsDocumented is_match = record {
  set_sound = λ pats domain i m.
      let (j, e, (p, at, h)) = matches_from_sound is_match 0 pats domain i m in
      (p, ap (get_elem? pats) (omega (arith, e)) ∙ at, h);
  set_complete = λ pats domain i p at h.
      subst (λ n. In n (matches_from is_match 0 pats domain)) (omega arith)
        (matches_from_complete is_match 0 pats domain i p at h);
  sort_keeps = insertion_sort-In;
  sort_sorts = insertion_sort-Ascending;
}

-- ===== src/Filter/Covers.antt =====
-- engine.rs, the scan groups: which rules a set or the fallback takes in.
use bulwark.Common.{
  ℕ, zero, suc, ◌≤◌, ◌≡◌, refl, sym, ap, subst, ◌⊎◌, inl, inr, true, some, List, [], ◌∷◌, arith,
  Bool-cases, Option-cases, length, get_elem?, take, drop, In, here, there, length-drop,
  In-append_left, In-append_right, get_elem?-In,
}
use bulwark.Common.Bytes.{Bytes}
use bulwark.Filter.Rule.{is_empty}
use bulwark.Filter.External.{External, IsDocumented}
use bulwark.Filter.Scan.{
  RuleRecord, ScanGroup, pattern_of, chunk_patterns, add_chunk, add_chunks, check_pattern, collect,
  set_hits, scan_group, fallback_chunk,
}

pub collect-In {ℓ} :
    {A : Type ℓ} (f : A → List ℕ) (ys : List A) (y : A) (id : ℕ)
    → In y ys
    → In id (f y)
    → In id (collect f ys)
unfolding collect
collect-In f [] y id m n = elim m [ ]
collect-In f (z ∷ ys) y id (here e) n = In-append_left (f z) _ (subst (λ w. In id (f w)) e n)
collect-In f (z ∷ ys) y id (there m) n = In-append_right (f z) _ (collect-In f ys y id m n)

In-take-drop {ℓ} :
    {A : Type ℓ} (n : ℕ) (xs : List A) (a : A) → In a xs → In a (take n xs) ⊎ In a (drop n xs)
In-take-drop zero xs a m = inr m
In-take-drop (suc n) [] a m = elim m [ ]
In-take-drop (suc n) (x ∷ xs) a (here e) = inl (here e)
In-take-drop (suc n) (x ∷ xs) a (there m) = elim (In-take-drop n xs a m) [
  | inl early ↦ inl (there early)
  | inr late ↦ inr late
]

-- A rule and its pattern stand at one place of a set, or the rule is scanned on its own.
abbrev pub Filed : ℕ → Bytes → List (List Bytes × List ℕ) × List ℕ → Type 0
Filed id p acc =
    ((one : List Bytes × List ℕ) × In one acc.0
      × ((i : ℕ) × (get_elem? one.0 i ≡ some p) × (get_elem? one.1 i ≡ some id)))
    ⊎ In id acc.1

module _ (x : External) (records : List RuleRecord) (regexes : List Bytes) where
  chunk_patterns-finds :
      (chunk : List ℕ) (id : ℕ) (p : Bytes)
      → In id chunk
      → pattern_of records regexes id ≡ some p
      → (i : ℕ) × (get_elem? (chunk_patterns records regexes chunk).0 i ≡ some p)
        × (get_elem? (chunk_patterns records regexes chunk).1 i ≡ some id)
  unfolding chunk_patterns
  chunk_patterns-finds [] id p m e = elim m [ ]
  chunk_patterns-finds (j ∷ chunk) id p (here same) e =
      let e' : pattern_of records regexes j ≡ some p =
        subst (λ k. pattern_of records regexes k ≡ some p) same e in
      (0, rw e', rw e' (ap some (sym same)))
  chunk_patterns-finds (j ∷ chunk) id p (there m) e =
      let (i, pat, at_id) = chunk_patterns-finds chunk id p m e in
      elim (Option-cases (pattern_of records regexes j)) [
        | inl none_here ↦ (i, rw none_here pat, rw none_here at_id)
        | inr (q, here_too) ↦ (suc i, rw here_too pat, rw here_too at_id)
      ]

  add_chunk-keeps :
      (chunk : List ℕ) (acc : List (List Bytes × List ℕ) × List ℕ) (id : ℕ) (p : Bytes)
      → Filed id p acc
      → Filed id p (add_chunk x records regexes chunk acc)
  unfolding add_chunk
  add_chunk-keeps chunk (sets, individual) id p f =
      let built = chunk_patterns records regexes chunk in
      elim (Bool-cases (is_empty built.0)) [
        | inl nothing ↦ rw nothing f
        | inr something ↦ elim (Bool-cases (x.set_builds built.0)) [
          | inl builds ↦
              rw (something, builds)
                (elim f [
                  | inl (one, m, rest) ↦ inl (one, In-append_left sets _ m, rest)
                  | inr m ↦ inr m
                ])
          | inr fails ↦
              rw (something, fails)
                (elim f [ inl s ↦ inl s | inr m ↦ inr (In-append_left individual _ m) ])
        ]
      ]

  add_chunk-new :
      (chunk : List ℕ) (acc : List (List Bytes × List ℕ) × List ℕ) (id : ℕ) (p : Bytes)
      → In id chunk
      → pattern_of records regexes id ≡ some p
      → Filed id p (add_chunk x records regexes chunk acc)
  unfolding add_chunk
  add_chunk-new chunk (sets, individual) id p m e =
      let built = chunk_patterns records regexes chunk in
      let (i, pat, at_id) = chunk_patterns-finds chunk id p m e in
      elim (Bool-cases (is_empty built.0)) [
        | inl nothing ↦ absurd (not_empty built.0 i nothing pat)
        | inr something ↦ elim (Bool-cases (x.set_builds built.0)) [
          | inl builds ↦
              rw (something, builds)
                (inl (built, In-append_right sets _ (here refl), (i, pat, at_id)))
          | inr fails ↦
              rw (something, fails)
                (inr (In-append_right individual _ (get_elem?-In built.1 i at_id)))
        ]
      ]
    where
      not_empty : (l : List Bytes) (i : ℕ) → is_empty l ≡ true → get_elem? l i ≡ some p → ⊥
      not_empty [] i h g = cc
      not_empty (y ∷ l) i h g = cc

  add_chunks-keeps :
      (fuel : ℕ) (fallback : List ℕ) (acc : List (List Bytes × List ℕ) × List ℕ) (id : ℕ)
      (p : Bytes)
      → Filed id p acc
      → Filed id p (add_chunks x records regexes fuel fallback acc)
  unfolding add_chunks
  add_chunks-keeps zero fallback acc id p f = f
  add_chunks-keeps (suc fuel) [] acc id p f = f
  add_chunks-keeps (suc fuel) (j ∷ fallback) acc id p f =
      add_chunks-keeps fuel _ _ id p
        (add_chunk-keeps (take fallback_chunk (j ∷ fallback)) acc id p f)

  pub add_chunks-new :
      (fuel : ℕ) (fallback : List ℕ) (acc : List (List Bytes × List ℕ) × List ℕ) (id : ℕ)
      (p : Bytes)
      → length fallback ≤ fuel
      → In id fallback
      → pattern_of records regexes id ≡ some p
      → Filed id p (add_chunks x records regexes fuel fallback acc)
  unfolding add_chunks
  add_chunks-new zero [] acc id p f m e = elim m [ ]
  add_chunks-new zero (j ∷ fallback) acc id p f m e = absurd (omega arith)
  add_chunks-new (suc fuel) [] acc id p f m e = elim m [ ]
  add_chunks-new (suc fuel) (j ∷ fallback) acc id p f m e =
      elim (In-take-drop fallback_chunk (j ∷ fallback) id m) [
        | inl early ↦
            add_chunks-keeps fuel (drop fallback_chunk (j ∷ fallback)) _ id p
              (add_chunk-new (take fallback_chunk (j ∷ fallback)) acc id p early e)
        | inr late ↦
            add_chunks-new fuel (drop fallback_chunk (j ∷ fallback)) _ id p
              (omega (arith, length-drop fallback_chunk (j ∷ fallback))) late e
      ]

  pub check_pattern-In :
      (domain : Bytes) (id : ℕ) (p : Bytes)
      → pattern_of records regexes id ≡ some p
      → x.is_match p domain ≡ true
      → In id (check_pattern x records regexes domain id)
  unfolding check_pattern
  check_pattern-In domain id p e h = rw (e, check_pattern, h) (here refl)

  -- A rule in the fallback is reported whatever the tokens are.
  pub Filed-scan_group :
      (d : IsDocumented x) (g : ScanGroup) (domain : Bytes) (tokens : List ℕ) (id : ℕ) (p : Bytes)
      → Filed id p (g.fallback_sets, g.fallback_individual)
      → pattern_of records regexes id ≡ some p
      → x.is_match p domain ≡ true
      → In id (scan_group x records regexes g domain tokens)
  unfolding scan_group set_hits
  Filed-scan_group d g domain tokens id p (inl (one, m, (i, pat, at_id))) e h = In-append_left _ _ (
      collect-In (set_hits x domain) g.fallback_sets one id m (
        collect-In _ (x.set_matches one.0 domain) i id (d.set_complete one.0 domain i p pat h)
          (rw at_id (here refl))))
  Filed-scan_group d g domain tokens id p (inr m) e h =
      In-append_right (collect (set_hits x domain) g.fallback_sets) _ (
        In-append_left _ _
          (collect-In _ g.fallback_individual id id m (check_pattern-In domain id p e h)))

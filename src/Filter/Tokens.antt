-- ===== src/Filter/Tokens.antt =====
-- engine.rs, the token index: under which tokens a rule is listed.
use bulwark.Common.{
  ℕ, ◌≡◌, refl, sym, subst, ◌⊎◌, inl, inr, true, false, Option, none, some, List, [], ◌∷◌, ◌++◌,
  map, arith, leb, ◌==◌, ==_iff, Bool-cases, Option-cases, In, here, there, In-append_left,
  In-append_right, In-map,
}
use bulwark.Common.Bytes.{Bytes}
use bulwark.Filter.Rule.{is_empty}
use bulwark.Filter.External.{External, IsDocumented}
use bulwark.Filter.Scan.{
  RuleRecord, ScanGroup, rarest, push_entry, entry_of, distribute, send, pattern_of,
  build_scan_group, check_pattern, collect, token_hits, set_hits, scan_group, token_freq,
}
use bulwark.Filter.Covers.{collect-In, add_chunks-new, Filed-scan_group, check_pattern-In}

rarest-In : (freq : ℕ → ℕ) (tokens : List ℕ) (t : ℕ) → rarest freq tokens ≡ some t → In t tokens
unfolding rarest
rarest-In freq [] t h = cc
rarest-In freq (u ∷ tokens) t h = elim (Option-cases (rarest freq tokens)) [
  | inl nothing ↦ here (ground arith)
  | inr (v, best) ↦ elim (Bool-cases (leb (freq u) (freq v))) [
    | inl first ↦ here (ground arith)
    | inr later ↦ there (rarest-In freq tokens t (ground arith))
  ]
]

-- The index lists `id` under `tok`.
abbrev Indexed : ℕ → ℕ → List (ℕ × List ℕ) → Type 0
Indexed tok id index = (ids : List ℕ) × (entry_of tok index ≡ some ids) × In id ids

push_entry-new : (tok id : ℕ) (index : List (ℕ × List ℕ)) → Indexed tok id (push_entry tok id index)
unfolding push_entry entry_of
push_entry-new tok id [] = (id ∷ [], rw ((==_iff tok tok).1 refl), here refl)
push_entry-new tok id ((t, ids) ∷ index) = elim (Bool-cases (t == tok)) [
  | inl hit ↦ rw hit (ids ++ id ∷ [], rw hit, In-append_right ids _ (here refl))
  | inr miss ↦ let (l, e, m) = push_entry-new tok id index in rw miss (l, rw miss e, m)
]

push_entry-keeps :
    (t tok id j : ℕ) (index : List (ℕ × List ℕ))
    → Indexed t id index
    → Indexed t id (push_entry tok j index)
unfolding push_entry entry_of
push_entry-keeps t tok id j [] (l, e, m) = cc
push_entry-keeps t tok id j ((u, ids) ∷ index) (l, e, m) = elim (Bool-cases (u == tok)) [
  | inl hit ↦ elim (Bool-cases (u == t)) [
    | inl mine ↦
        let same : ids ≡ l = ground arith in
        rw hit (ids ++ j ∷ [], rw mine, In-append_left ids _ (subst (In id) (sym same) m))
    | inr other ↦ rw hit (l, rw other (rw other at e), m)
  ]
  | inr miss ↦ elim (Bool-cases (u == t)) [
    | inl mine ↦ rw miss (l, rw mine (rw mine at e), m)
    | inr other ↦
        let (l', e', m') = push_entry-keeps t tok id j index (l, (rw other at e), m) in
        rw miss (l', rw other e', m')
  ]
]

-- A rule is listed under one of its tokens, or it is in the fallback.
abbrev Placed : ℕ → List ℕ → List (ℕ × List ℕ) × List ℕ → Type 0
Placed id tokens acc = ((tok : ℕ) × In tok tokens × Indexed tok id acc.0) ⊎ In id acc.1

send-keeps :
    (best : Option ℕ) (id j : ℕ) (tokens : List ℕ) (acc : List (ℕ × List ℕ) × List ℕ)
    → Placed id tokens acc
    → Placed id tokens (send best j acc)
unfolding send
send-keeps none id j tokens acc (inl p) = inl p
send-keeps none id j tokens acc (inr m) = inr (In-append_left acc.1 _ m)
send-keeps (some tok) id j tokens acc (inl (t, mine, listed)) =
    inl (t, mine, push_entry-keeps t tok id j acc.0 listed)
send-keeps (some tok) id j tokens acc (inr m) = inr m

send-new :
    (freq : ℕ → ℕ) (best : Option ℕ) (id : ℕ) (tokens : List ℕ) (acc : List (ℕ × List ℕ) × List ℕ)
    → rarest freq tokens ≡ best
    → Placed id tokens (send best id acc)
unfolding send
send-new freq none id tokens acc e = inr (In-append_right acc.1 _ (here refl))
send-new freq (some tok) id tokens acc e =
    inl (tok, rarest-In freq tokens tok e, push_entry-new tok id acc.0)

distribute-keeps :
    (freq : ℕ → ℕ) (meta : List (ℕ × List ℕ)) (acc : List (ℕ × List ℕ) × List ℕ) (id : ℕ)
    (tokens : List ℕ)
    → Placed id tokens acc
    → Placed id tokens (distribute freq meta acc)
unfolding distribute
distribute-keeps freq [] acc id tokens p = p
distribute-keeps freq ((j, toks) ∷ meta) acc id tokens p =
    distribute-keeps freq meta _ id tokens (send-keeps (rarest freq toks) id j tokens acc p)

distribute-new :
    (freq : ℕ → ℕ) (meta : List (ℕ × List ℕ)) (acc : List (ℕ × List ℕ) × List ℕ) (id : ℕ)
    (tokens : List ℕ)
    → In (id, tokens) meta
    → Placed id tokens (distribute freq meta acc)
unfolding distribute
distribute-new freq [] acc id tokens m = elim m [ ]
distribute-new freq ((j, toks) ∷ meta) acc id tokens (here e) =
    distribute-keeps freq meta _ id tokens (
      subst (λ q. Placed id tokens (send (rarest freq q.1) q.0 acc)) e
        (send-new freq (rarest freq tokens) id tokens acc refl))
distribute-new freq ((j, toks) ∷ meta) acc id tokens (there m) =
    distribute-new freq meta _ id tokens m

module _ (x : External) (d : IsDocumented x) (records : List RuleRecord) (regexes : List Bytes)
    (meta : List (ℕ × List ℕ)) (id : ℕ) (tokens : List ℕ) (p : Bytes) (domain : Bytes)
    (queried : List ℕ) (listed : In (id, tokens) meta)
    (is_pattern : pattern_of records regexes id ≡ some p)
    (matches : x.is_match p domain ≡ true) where
  -- Without the token index every rule that matches is reported.
  pub scan_group-unindexed :
      In id (
        scan_group x records regexes (build_scan_group x meta records regexes false) domain queried)
  unfolding build_scan_group
  scan_group-unindexed =
      Filed-scan_group x records regexes d _ domain queried id p
        (add_chunks-new x records regexes _ (map (λ m. m.0) meta) ([], []) id p (omega arith)
          (In-map (λ (m : ℕ × List ℕ). m.0) meta listed) is_pattern)
        is_pattern matches

  scan_group-entry :
      (g : ScanGroup) (t : ℕ)
      → Indexed t id g.scan_index
      → In t queried
      → In id (scan_group x records regexes g domain queried)
  unfolding scan_group token_hits entry_of
  scan_group-entry g t (ids, e, m) asked = elim (Bool-cases (is_empty g.scan_index)) [
    | inl nothing ↦ absurd (no_entry g.scan_index nothing e)
    | inr something ↦ In-append_right (collect (set_hits x domain) g.fallback_sets) _ (
        In-append_right (collect (check_pattern x records regexes domain) g.fallback_individual) _ (
          rw something (
            collect-In (token_hits x records regexes domain g.scan_index) queried t id asked (
              rw (e, token_hits)
                (collect-In (check_pattern x records regexes domain) ids id id m
                  (check_pattern-In x records regexes domain id p is_pattern matches))))))
  ]
    where
      no_entry :
          (index : List (ℕ × List ℕ)) → is_empty index ≡ true → entry_of t index ≡ some ids → ⊥
      no_entry [] h e' = cc
      no_entry (y ∷ index) h e' = cc

  -- With the token index, every rule whose tokens are all among those of the query.
  pub scan_group-indexed :
      ((t : ℕ) → In t tokens → In t queried)
      → In id (
          scan_group x records regexes
            (build_scan_group x meta records regexes true)
            domain
            queried)
  unfolding build_scan_group
  scan_group-indexed has = elim (distribute-new (token_freq meta) meta ([], []) id tokens listed) [
    | inr m ↦
        Filed-scan_group x records regexes d _ domain queried id p
          (add_chunks-new x records regexes _ _ ([], []) id p (omega arith) m is_pattern) is_pattern
          matches
    | inl (t, mine, entry) ↦
        scan_group-entry (build_scan_group x meta records regexes true) t entry (has t mine)
  ]

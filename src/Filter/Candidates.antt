-- ===== src/Filter/Candidates.antt =====
-- engine.rs, `collect_domain` and `scan_group`: the rules among the candidates.
use bulwark.Common.{
  ℕ, zero, suc, ◌<◌, ◌≡◌, refl, sym, ap, subst, ◌∙◌, ◌⊎◌, inl, inr, Bool, true, false, ◌&&◌, some,
  List, [], ◌∷◌, ◌++◌, arith, if◌then◌else◌, Bool-cases, length, get_elem?, In, In-append_left,
  In-append_right,
}
use bulwark.Common.Bytes.{Bytes, bytes_eq, bytes_eq_sound}
use bulwark.Filter.Rule.{Pattern, BuildRule, is_empty}
use bulwark.Filter.External.{External, IsDocumented}
use bulwark.Filter.Index.{DomainIndex, get, index_is_empty}
use bulwark.Filter.Scan.{
  RuleRecord, ScanGroup, scan_is_empty, scan_group, pattern_of, collect, set_hits, check_pattern,
  token_hits,
}
use bulwark.Filter.Token.{query_tokens}
use bulwark.Filter.Engine.{
  Query, after_dot, suffix_hits, collect_domain, domain_of, domain_matches, domain_candidates,
  block_candidates,
}
use bulwark.Filter.Engine.Builder.{FilterEngine, is_subdomain_of, from_rules}
use bulwark.Filter.Domain.{IsUnder, is_subdomain_of_iff, after_dot-IsUnder, after_dot-lt}
use bulwark.Filter.Lookup.{get-build}
use bulwark.Filter.Hits.{get-hits}
use bulwark.Filter.Tokens.{scan_group-unindexed, scan_group-indexed}
use bulwark.Filter.Gather.{PatternAt, meta_of}
use bulwark.Filter.Meaning.{pattern_matches, built, engine}

index_is_empty-In :
    (index : DomainIndex) (h id : ℕ) → In id (get index h) → index_is_empty index ≡ false
unfolding index_is_empty
index_is_empty-In index h id m = some_hit index.hits (get-hits index h id m)
  where
    some_hit : (hits : List ℕ) → In id hits → is_empty hits ≡ false
    some_hit [] n = elim n [ ]
    some_hit (j ∷ hits) n = refl

module _ (x : External) where
  -- The loop reaches every domain that the queried one is under.
  suffix_hits-In :
      (index : DomainIndex) (fuel : ℕ) (hay base : Bytes) (id : ℕ)
      → length hay < fuel
      → (hay ≡ base) ⊎ IsUnder hay base
      → In id (get index (x.hash_one base))
      → In id (suffix_hits x index fuel hay)
  unfolding suffix_hits
  suffix_hits-In index zero hay base id f u m = absurd (omega arith)
  suffix_hits-In index (suc fuel) hay base id f (inl same) m =
      In-append_left (get index (x.hash_one hay)) _
        (subst (λ d. In id (get index (x.hash_one d))) (sym same) m)
  suffix_hits-In index (suc fuel) hay base id f (inr (front, e)) m =
      let (rest, found, under) = after_dot-IsUnder front base in
      let found' : after_dot hay ≡ some rest = ap after_dot e ∙ found in
      In-append_right (get index (x.hash_one hay)) _ (
        rw found' (
          suffix_hits-In index fuel rest base id (omega (arith, after_dot-lt hay rest found')) under
            m))

  collect_domain-exact :
      (e : FilterEngine) (domain : Bytes) (id : ℕ)
      → In id (get e.exact_index (x.hash_one domain))
      → In id (collect_domain x e domain)
  unfolding collect_domain
  collect_domain-exact e domain id m =
      In-append_left
        (if index_is_empty e.exact_index then [] else get e.exact_index (x.hash_one domain)) _
        (rw (index_is_empty-In e.exact_index (x.hash_one domain) id m) m)

  collect_domain-sub :
      (e : FilterEngine) (domain base : Bytes) (id : ℕ)
      → (domain ≡ base) ⊎ IsUnder domain base
      → In id (get e.subdomain_index (x.hash_one base))
      → In id (collect_domain x e domain)
  unfolding collect_domain
  collect_domain-sub e domain base id u m =
      In-append_right
        (if index_is_empty e.exact_index then [] else get e.exact_index (x.hash_one domain)) _
        (rw (index_is_empty-In e.subdomain_index (x.hash_one base) id m)
          (suffix_hits-In e.subdomain_index (suc (length domain)) domain base id (omega arith) u m))

  -- Without an index of tokens, the tokens do not matter.
  scan_group-tokens :
      (records : List RuleRecord) (regexes : List Bytes) (g : ScanGroup) (domain : Bytes)
      (tokens : List ℕ) (id : ℕ)
      → In id (scan_group x records regexes g domain tokens)
      → In id (scan_group x records regexes g domain (if is_empty g.scan_index then [] else tokens))
  unfolding scan_group
  scan_group-tokens records regexes g domain tokens id m =
      elim (Bool-cases (is_empty g.scan_index)) [
        | inl nothing ↦ rw nothing (rw nothing at m)
        | inr some_entry ↦ rw some_entry (rw some_entry at m)
      ]

  pub scan_is_empty-In :
      (records : List RuleRecord) (regexes : List Bytes) (g : ScanGroup) (domain : Bytes)
      (tokens : List ℕ) (id : ℕ)
      → In id (scan_group x records regexes g domain tokens)
      → scan_is_empty g ≡ false
  unfolding scan_group scan_is_empty collect
  scan_is_empty-In records regexes g domain tokens id m =
      some_part (set_hits x domain) (check_pattern x records regexes domain)
        (collect (token_hits x records regexes domain g.scan_index) tokens) g.scan_index
        g.fallback_sets g.fallback_individual m
    where
      some_part :
          (f : List Bytes × List ℕ → List ℕ) (h : ℕ → List ℕ) (by_token : List ℕ)
          (index : List (ℕ × List ℕ)) (sets : List (List Bytes × List ℕ)) (individual : List ℕ)
          → In id (
              collect f sets ++ (collect h individual ++ (if is_empty index then [] else by_token)))
          → is_empty index && is_empty sets && is_empty individual ≡ false
      some_part f h by_token [] [] [] n = elim n [ ]
      some_part f h by_token [] [] (j ∷ individual) n = refl
      some_part f h by_token [] (s ∷ sets) individual n = refl
      some_part f h by_token (t ∷ index) sets individual n = refl

module _ (x : External) (d : IsDocumented x) (rules : List BuildRule) (q : Query) (id : ℕ)
    (r : RuleRecord) (oc : Bool) (tokens : List ℕ)
    (record_at : get_elem? (built x rules).records id ≡ some r) where
  -- Where the candidates list a rule: with the domains and the overrides, or among the plain blocks.
  abbrev pub Listed : Type 0
  Listed =
      In id (domain_candidates x (engine x rules) q)
      ⊎ ((oc ≡ false) × In id (block_candidates x (engine x rules) q))

  abbrev At : Pattern → Type 0
  At p = PatternAt x (built x rules) id oc tokens r.kind r.dom_or_re r.dom_len p

  exact-Listed :
      (b : Bytes)
      → At (Pattern.exact b)
      → bytes_eq b q.domain ≡ true
      → (domain_matches (engine x rules) r q.domain ≡ true) × Listed
  unfolding from_rules domain_matches domain_of
  exact-Listed b (kind, span, pair) same = (
    rw kind (ap (λ t. bytes_eq t q.domain) span.text ∙ same),
    inl (
        In-append_left (collect_domain x (engine x rules) q.domain) _ (
          collect_domain-exact x (engine x rules) q.domain id (
            subst (λ t. In id (get (engine x rules).exact_index (x.hash_one t)))
              (bytes_eq_sound b q.domain same)
              (get-build x d (built x rules).exact_pairs (x.hash_one b) id pair)))),
  )

  subdomain-Listed :
      (b : Bytes)
      → At (Pattern.subdomain b)
      → is_subdomain_of q.domain b ≡ true
      → (domain_matches (engine x rules) r q.domain ≡ true) × Listed
  unfolding from_rules domain_matches domain_of
  subdomain-Listed b (kind, span, pair) under = (
    rw kind (ap (is_subdomain_of q.domain) span.text ∙ under),
    inl (
        In-append_left (collect_domain x (engine x rules) q.domain) _ (
          collect_domain-sub x (engine x rules) q.domain b id
            ((is_subdomain_of_iff q.domain b).0 under)
            (get-build x d (built x rules).sub_pairs (x.hash_one b) id pair))),
  )

  regex-Listed :
      (re : Bytes)
      → pattern_of (built x rules).records (built x rules).regexes id ≡ some re
      → In (id, tokens) (meta_of (built x rules) oc)
      → x.is_match re q.domain ≡ true
      → ((t : ℕ) → In t tokens → In t (query_tokens q.domain))
      → Listed
  unfolding from_rules
  regex-Listed re is_pattern listed matches has = elim (Bool-cases oc) [
    | inl overriding ↦ inl (
        In-append_right (collect_domain x (engine x rules) q.domain) _ (
          scan_group-unindexed x d (built x rules).records (built x rules).regexes
            (built x rules).override_meta id tokens re q.domain []
            (subst (λ o. In (id, tokens) (meta_of (built x rules) o)) overriding listed) is_pattern
            matches))
    | inr plain ↦ inr (
      plain,
      scan_group-tokens x (built x rules).records (built x rules).regexes
          (engine x rules).block_scan q.domain (query_tokens q.domain) id
          (scan_group-indexed x d (built x rules).records (built x rules).regexes
            (built x rules).block_meta id tokens re q.domain (query_tokens q.domain)
            (subst (λ o. In (id, tokens) (meta_of (built x rules) o)) plain listed) is_pattern
            matches has),
    )
  ]

  -- A rule whose pattern matches is a candidate, if the query has the tokens it is indexed by.
  pub pattern_matches-Listed :
      (p : Pattern)
      → At p
      → pattern_matches x p q.domain ≡ true
      → ((t : ℕ) → In t tokens → In t (query_tokens q.domain))
      → (domain_matches (engine x rules) r q.domain ≡ true) × Listed
  unfolding pattern_matches domain_matches pattern_of
  pattern_matches-Listed (Pattern.exact b) h same has = exact-Listed b h same
  pattern_matches-Listed (Pattern.subdomain b) h under has = subdomain-Listed b h under
  pattern_matches-Listed (Pattern.wildcard re) (kind, at, listed) matches has =
      (rw kind, regex-Listed re (rw (record_at, kind) at) listed matches has)
  pattern_matches-Listed (Pattern.regex re) (kind, at, listed) matches has =
      (rw kind, regex-Listed re (rw (record_at, kind) at) listed matches has)

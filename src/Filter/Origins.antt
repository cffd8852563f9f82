-- ===== src/Filter/Origins.antt =====
-- engine.rs: candidates traced back to the rules that they stand for.
use bulwark.Common.{
  ℕ, zero, suc, ◌+◌, ◌^◌, ◌≤◌, ◌<◌, ◌≡◌, sym, ap, subst, ◌∙◌, ◌≢◌, ◌⊎◌, inl, inr, true, false, some,
  List, [], arith, if◌then◌else◌, Bool-cases, Option-cases, length, get_elem?, All, In, In-append,
  some_injective,
}
use bulwark.Common.Bytes.{Bytes, bytes_eq}
use bulwark.Filter.Rule.{Pattern, BuildRule}
use bulwark.Filter.External.{External, IsDocumented}
use bulwark.Filter.Index.{get, index_is_empty}
use bulwark.Filter.Scan.{RuleRecord, is_pattern, pattern_of}
use bulwark.Filter.Token.{query_tokens}
use bulwark.Filter.Engine.{
  Query, suffix_hits, collect_domain, domain_matches, domain_of, domain_candidates,
  block_candidates, after_dot,
}
use bulwark.Filter.Engine.Builder.{from_rules, empty_build, no_mods, is_subdomain_of}
use bulwark.Filter.Hits.{Hit, scan_group-Hit, get-build_from}
use bulwark.Filter.Gather.{PatternAt, Represents, overrides}
use bulwark.Filter.Gathered.{Fits, gather-Represents, stored_total, IsShort}
use bulwark.Filter.Plain.{Plain, gather-PlainPairs}
use bulwark.Filter.Meaning.{pattern_matches, built, engine}

-- The rules fit the engine's index and span widths, and a query that a rule's pattern matches has
-- the tokens that the rule is indexed by.
pub record IsCompiled (x : External) (rules : List BuildRule) (domain : Bytes) : Type 0 where
  pub few : length rules ≤ no_mods
  pub small : stored_total rules < 2 ^ 32
  pub short : All IsShort rules
  pub tokens_hold :
      (br : BuildRule)
      → In br rules
      → pattern_matches x br.rule.pattern domain ≡ true
      → (t : ℕ) → In t br.index_tokens
      → In t (query_tokens domain)

true_ne_false : true ≢ false
true_ne_false h = cc

-- What a candidate is, by the list that it comes from: an exact or subdomain rule, or a match.
abbrev pub Origin : External → List BuildRule → Bytes → ℕ → Type 0
Origin x rules domain id =
    Plain (built x rules) id ⊎ Hit x (built x rules).records (built x rules).regexes domain id

module _ (x : External) (d : IsDocumented x) (rules : List BuildRule) (q : Query)
    (ok : IsCompiled x rules q.domain) where
  compiled-Fits : Fits empty_build rules
  compiled-Fits = record {
    records = omega (arith, ok.few);
    mods = omega (arith, ok.few);
    regexes = omega (arith, ok.few);
    arena = omega (arith, ok.small);
    short = ok.short;
  }

  pub represented :
      (i : ℕ) (br : BuildRule) → get_elem? rules i ≡ some br → Represents x (built x rules) i br
  represented i br at =
      subst (λ j. Represents x (built x rules) j br) zero_add
        (gather-Represents x rules empty_build i br compiled-Fits at)
    where
      zero_add : 0 + i ≡ i
      zero_add = omega arith

  indexed-Plain :
      (id k : ℕ)
      → In (k, id) (built x rules).exact_pairs ⊎ In (k, id) (built x rules).sub_pairs
      → Plain (built x rules) id
  indexed-Plain id k =
      gather-PlainPairs x rules empty_build compiled-Fits
        (λ j i. elim [ inl m ↦ elim m [ ] | inr m ↦ elim m [ ] ]) k id

  suffix_hits-Plain :
      (fuel : ℕ) (hay : Bytes) (id : ℕ)
      → In id (suffix_hits x (engine x rules).subdomain_index fuel hay)
      → Plain (built x rules) id
  unfolding suffix_hits from_rules
  suffix_hits-Plain zero hay id m = elim m [ ]
  suffix_hits-Plain (suc fuel) hay id m =
      In-append (get (engine x rules).subdomain_index (x.hash_one hay)) _
        (λ early.
          let (k, pair) = get-build_from x d (built x rules).sub_pairs (x.hash_one hay) id early in
          indexed-Plain id k (inr pair))
        (λ late. elim (Option-cases (after_dot hay)) [
          | inl nothing ↦ elim (rw nothing at late) [ ]
          | inr (rest, there_is) ↦ suffix_hits-Plain fuel rest id (rw there_is at late)
        ])
        m

  collect_domain-Plain :
      (domain : Bytes) (id : ℕ)
      → In id (collect_domain x (engine x rules) domain)
      → Plain (built x rules) id
  unfolding collect_domain from_rules
  collect_domain-Plain domain id m =
      In-append
        (if index_is_empty (engine x rules).exact_index
          then []
          else get (engine x rules).exact_index (x.hash_one domain))
        (if index_is_empty (engine x rules).subdomain_index
          then []
          else suffix_hits x (engine x rules).subdomain_index (suc (length domain)) domain)
        (λ early. elim (Bool-cases (index_is_empty (engine x rules).exact_index)) [
          | inl nothing ↦ elim (rw nothing at early) [ ]
          | inr some_exact ↦
              let (k, pair) =
                get-build_from x d (built x rules).exact_pairs (x.hash_one domain) id
                  (rw some_exact at early) in
              indexed-Plain id k (inl pair)
        ])
        (λ late. elim (Bool-cases (index_is_empty (engine x rules).subdomain_index)) [
          | inl nothing ↦ elim (rw nothing at late) [ ]
          | inr some_sub ↦ suffix_hits-Plain (suc (length domain)) domain id (rw some_sub at late)
        ])
        m

  pub domain_candidates-Origin :
      (id : ℕ) → In id (domain_candidates x (engine x rules) q) → Origin x rules q.domain id
  unfolding from_rules
  domain_candidates-Origin id m =
      In-append (collect_domain x (engine x rules) q.domain) _
        (λ early. inl (collect_domain-Plain q.domain id early))
        (λ late. inr (
          scan_group-Hit x (built x rules).records (built x rules).regexes d
            (built x rules).override_meta false q.domain [] id late))
        m

  pub block_candidates-Origin :
      (id : ℕ) → In id (block_candidates x (engine x rules) q) → Origin x rules q.domain id
  unfolding from_rules
  block_candidates-Origin id m = inr (
      scan_group-Hit x (built x rules).records (built x rules).regexes d (built x rules).block_meta
        true q.domain _ id m)

  hit_matches :
      (id : ℕ) (r : RuleRecord) (re : Bytes)
      → get_elem? (built x rules).records id ≡ some r
      → is_pattern r.kind ≡ true
      → get_elem? (built x rules).regexes r.dom_or_re ≡ some re
      → Origin x rules q.domain id
      → x.is_match re q.domain ≡ true
  unfolding pattern_of
  hit_matches id r re at kind place (inl (r', at', plain)) =
      let same : r' ≡ r = some_injective (sym at' ∙ at) in
      absurd (true_ne_false (sym kind ∙ ap (λ s. is_pattern s.kind) (sym same) ∙ plain))
  hit_matches id r re at kind place (inr (p, is_there, matches)) =
      let same : p ≡ re = some_injective (sym (rw (at, kind) at is_there) ∙ place) in
      ap (λ t. x.is_match t q.domain) (sym same) ∙ matches

  -- A candidate whose record matches is a rule whose pattern matches.
  pub Origin-pattern_matches :
      (id : ℕ) (br : BuildRule) (r : RuleRecord) (p : Pattern)
      → get_elem? (built x rules).records id ≡ some r
      → PatternAt x (built x rules) id (overrides br) br.index_tokens r.kind r.dom_or_re r.dom_len p
      → Origin x rules q.domain id
      → domain_matches (engine x rules) r q.domain ≡ true
      → pattern_matches x p q.domain ≡ true
  unfolding from_rules domain_matches domain_of pattern_matches pattern_of
  Origin-pattern_matches id br r (Pattern.exact b) at (kind, span, pair) o m =
      ap (λ t. bytes_eq t q.domain) (sym span.text) ∙ rw kind at m
  Origin-pattern_matches id br r (Pattern.subdomain b) at (kind, span, pair) o m =
      ap (is_subdomain_of q.domain) (sym span.text) ∙ rw kind at m
  Origin-pattern_matches id br r (Pattern.wildcard re) at (kind, place, listed) o m =
      hit_matches id r re at (rw kind) place o
  Origin-pattern_matches id br r (Pattern.regex re) at (kind, place, listed) o m =
      hit_matches id r re at (rw kind) place o

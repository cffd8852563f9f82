-- ===== src/Filter/Examples.antt =====
-- Tests and examples for the filter engine, with plain stand-ins for the crates that it calls.
use bulwark.Common.{
  ℕ, zero, suc, ◌≡◌, refl, sym, ap, subst, ◌↔◌, ◌⊎◌, inr, Bool, true, false, none, some, List, [],
  ◌∷◌, arith, length, get_elem?, In, here, there, some_injective,
}
use bulwark.Common.Bytes.{Bytes, bytes_eq}
use bulwark.Filter.Rule.{
  rewrite, no_modifiers, RewriteData, block, allow, ClientInfo, Pattern, BuildRule,
}
use bulwark.Filter.External.{External, IsDocumented}
use bulwark.Filter.Rule.{rule_priority, is_important}
use bulwark.Filter.Crates.{
  crates_of, crates_of-IsDocumented, insertion_sort, insert_by_key, matches_from,
}
use bulwark.Filter.Index.{build, build_sorted, group, take_run, index_is_empty, get, find_span}
use bulwark.Filter.Scan.{
  build_scan_group, scan_is_empty, scan_group, collect, add_chunks, distribute,
}
use bulwark.Filter.Token.{query_tokens, query_tokens_from, close_run}
use bulwark.Filter.Engine.{
  find_best, consider, consider_one, better, domain_matches, domain_of, applicable, mods_of,
  priority, collect_domain, suffix_hits, after_dot, normalize, check, report, trim_dots, mods_apply,
  raw, Query,
}
use bulwark.Filter.Engine.Builder.{
  from_rules, gather, add_rule, add_mods, place, place_regex, is_subdomain_of, ends_with_label,
  is_blocked, MatchInfo, allowed,
}
use bulwark.Filter.Meaning.{rule_applies, pattern_matches}
use bulwark.Filter.Domain.{is_subdomain_of_iff, IsUnder}
use bulwark.Filter.Compiler.{
  prune_redundant, is_redundant, subsumers, ancestor_in, subsumer, is_plain_block,
}
use bulwark.Filter.Pruning.{Answered, prune_redundant-Answered}
use bulwark.Filter.Pruning.Ancestors.{ancestor_in_iff}
use bulwark.Filter.Rule.{contains_text}
use bulwark.Filter.Lookup.{get-build}
use bulwark.Filter.Origins.{IsCompiled}
use bulwark.Filter.Best.{IsBest, find_best-IsBest, find_best-none}
use bulwark.Filter.Verdicts.{check-allowed, check-blocked, check-unmatched}

-- Regexes that match their own text only.
abbrev plain_crates : External
plain_crates = crates_of bytes_eq

plain_crates-IsDocumented : IsDocumented plain_crates
plain_crates-IsDocumented = crates_of-IsDocumented bytes_eq

program : Unit {0}
unfolding from_rules gather add_rule add_mods place place_regex build_scan_group build build_sorted
    group take_run index_is_empty get find_span find_best consider consider_one better
    domain_matches domain_of is_subdomain_of ends_with_label applicable mods_of priority
    collect_domain suffix_hits after_dot scan_is_empty rule_applies pattern_matches normalize check
    report is_blocked insertion_sort insert_by_key matches_from scan_group collect add_chunks
    distribute trim_dots query_tokens query_tokens_from close_run mods_apply raw rule_priority
    bytes_eq
program = tt

-- `||a.b^`
abbrev blocking : BuildRule
blocking = record {
  rule = record {
    id = 0;
    raw = b'b' ∷ [];
    action = block;
    pattern = Pattern.subdomain (b'a' ∷ b'.' ∷ b'b' ∷ []);
    mods = none;
    list_id = 1;
  };
  badfilter = false;
  signature = [];
  index_tokens = [];
}

-- An allow rule for `c.a.b`, exactly.
abbrev allowing : BuildRule
allowing = record {
  rule = record {
    id = 0;
    raw = b'a' ∷ [];
    action = allow;
    pattern = Pattern.exact (b'c' ∷ b'.' ∷ b'a' ∷ b'.' ∷ b'b' ∷ []);
    mods = none;
    list_id = 1;
  };
  badfilter = false;
  signature = [];
  index_tokens = [];
}

-- A wildcard rule for `x`, which is scanned as a plain block.
abbrev scanned : BuildRule
scanned = record {
  rule = record {
    id = 0;
    raw = b'x' ∷ [];
    action = block;
    pattern = Pattern.wildcard (b'x' ∷ []);
    mods = none;
    list_id = 1;
  };
  badfilter = false;
  signature = [];
  index_tokens = [];
}

abbrev three_rules : List BuildRule
three_rules = blocking ∷ allowing ∷ scanned ∷ []

abbrev nobody : ClientInfo
nobody = record { ip = none; name = none; tags = [] }

abbrev query_of : Bytes → Query
query_of domain = record { domain = domain; rtype = b'A' ∷ []; client = nobody }

abbrev c_a_b : Bytes
c_a_b = b'c' ∷ b'.' ∷ b'a' ∷ b'.' ∷ b'b' ∷ []

abbrev d_a_b : Bytes
d_a_b = b'd' ∷ b'.' ∷ b'a' ∷ b'.' ∷ b'b' ∷ []

nothing_In : {t : ℕ} → In t [] → ⊥
nothing_In n = elim n [ ]

three_rules-IsCompiled : (domain : Bytes) → IsCompiled plain_crates three_rules domain
three_rules-IsCompiled domain = record {
  few = omega arith;
  small = omega arith;
  short = (omega arith, (omega arith, (omega arith, tt)));
  tokens_hold = λ br m h t n. absurd (no_tokens br m t n);
}
  where
    no_tokens : (br : BuildRule) → In br three_rules → (t : ℕ) → In t br.index_tokens → ⊥
    no_tokens br (here e) t n = nothing_In (subst (λ (c : BuildRule). In t c.index_tokens) e n)
    no_tokens br (there (here e)) t n =
        nothing_In (subst (λ (c : BuildRule). In t c.index_tokens) e n)
    no_tokens br (there (there (here e))) t n =
        nothing_In (subst (λ (c : BuildRule). In t c.index_tokens) e n)
    no_tokens br (there (there (there m))) t n = elim m [ ]

scan_found :
    find_best plain_crates (from_rules plain_crates three_rules) (query_of (b'x' ∷ []))
    ≡ some (2, 1)
unfolding program
scan_found = refl

find_best-IsBest_example : IsBest plain_crates three_rules (query_of c_a_b) 1 2
unfolding program
find_best-IsBest_example =
    find_best-IsBest plain_crates plain_crates-IsDocumented three_rules (query_of c_a_b)
      (three_rules-IsCompiled c_a_b) 1 2 refl

find_best-none_example : rule_applies plain_crates allowing.rule (query_of (b'y' ∷ [])) ≡ false
unfolding program
find_best-none_example =
    find_best-none plain_crates plain_crates-IsDocumented three_rules (query_of (b'y' ∷ []))
      (three_rules-IsCompiled (b'y' ∷ [])) refl 1 allowing refl

check-allowed_example :
    (info : MatchInfo) × (check plain_crates
        (from_rules plain_crates three_rules)
        c_a_b
        (b'A' ∷ [])
        nobody
      ≡ allowed (some info))
unfolding program
check-allowed_example =
    check-allowed plain_crates plain_crates-IsDocumented three_rules c_a_b (b'A' ∷ []) nobody
      (three_rules-IsCompiled c_a_b) 1 allowing refl refl refl (inr plain)
  where
    plain :
        (j : ℕ) (c : BuildRule)
        → get_elem? three_rules j ≡ some c
        → rule_applies plain_crates c.rule (query_of c_a_b) ≡ true
        → is_important c.rule.mods ≡ false
    plain zero c e h = ap (λ (d : BuildRule). is_important d.rule.mods) (sym (some_injective e))
    plain (suc zero) c e h =
        ap (λ (d : BuildRule). is_important d.rule.mods) (sym (some_injective e))
    plain (suc (suc zero)) c e h =
        ap (λ (d : BuildRule). is_important d.rule.mods) (sym (some_injective e))
    plain (suc (suc (suc j))) c e h = cc

check-blocked_example :
    (w p : ℕ) × (b : IsBest plain_crates three_rules (query_of d_a_b) w p) × (b.best.rule.action
      ≡ block)
unfolding program
check-blocked_example =
    check-blocked plain_crates plain_crates-IsDocumented three_rules d_a_b (b'A' ∷ []) nobody
      (three_rules-IsCompiled d_a_b) refl

check-unmatched_example :
    (check plain_crates (from_rules plain_crates three_rules) (b'y' ∷ []) (b'A' ∷ []) nobody
      ≡ allowed none)
    ↔ ((i : ℕ) (br : BuildRule)
        → get_elem? three_rules i ≡ some br
        → rule_applies plain_crates br.rule (query_of (b'y' ∷ [])) ≡ false)
unfolding program
check-unmatched_example =
    check-unmatched plain_crates plain_crates-IsDocumented three_rules (b'y' ∷ []) (b'A' ∷ [])
      nobody (three_rules-IsCompiled (b'y' ∷ []))

is_subdomain_of_example :
    (is_subdomain_of d_a_b (b'a' ∷ b'.' ∷ b'b' ∷ []) ≡ true)
    ↔ ((d_a_b ≡ b'a' ∷ b'.' ∷ b'b' ∷ []) ⊎ IsUnder d_a_b (b'a' ∷ b'.' ∷ b'b' ∷ []))
is_subdomain_of_example = is_subdomain_of_iff d_a_b (b'a' ∷ b'.' ∷ b'b' ∷ [])

get-build_example : In 7 (get (build insertion_sort ((9, 8) ∷ (5, 7) ∷ (5, 6) ∷ [])) 5)
get-build_example =
    get-build plain_crates plain_crates-IsDocumented ((9, 8) ∷ (5, 7) ∷ (5, 6) ∷ []) 5 7
      (there (here refl))

-- The allow rule for `c.a.b` made a plain block, which `||a.b^` makes redundant.
abbrev covered : BuildRule
covered = record allowing { rule = record allowing.rule { action = block } }

prunes : prune_redundant (covered ∷ blocking ∷ scanned ∷ []) ≡ blocking ∷ scanned ∷ []
unfolding program prune_redundant is_redundant subsumers ancestor_in subsumer is_plain_block
    contains_text
prunes = refl

prune_redundant-Answered_example :
    Answered plain_crates (covered ∷ blocking ∷ []) (query_of c_a_b) block 1
    ↔ Answered plain_crates (prune_redundant (covered ∷ blocking ∷ [])) (query_of c_a_b) block 1
prune_redundant-Answered_example =
    prune_redundant-Answered plain_crates (covered ∷ blocking ∷ []) (query_of c_a_b) block 1

-- `c.a.b`, rewritten to an address.
abbrev rewriting : BuildRule
rewriting = record allowing {
  rule = record allowing.rule {
    action = rewrite;
    mods = some (record no_modifiers { rewrite = some (RewriteData.a 1) });
  };
}

abbrev blocks_c_a_b : List BuildRule → Bool
blocks_c_a_b rules =
    is_blocked (check plain_crates (from_rules plain_crates rules) c_a_b (b'A' ∷ []) nobody)

-- Where a plain block and a rewrite tie, the pruning of the block tells them apart.
pruned_tie :
    (blocks_c_a_b (covered ∷ rewriting ∷ blocking ∷ []) ≡ true)
    × (blocks_c_a_b (prune_redundant (covered ∷ rewriting ∷ blocking ∷ [])) ≡ false)
unfolding program prune_redundant is_redundant subsumers ancestor_in subsumer is_plain_block
    contains_text
pruned_tie = (refl, refl)

ancestor_in_example :
    (ancestor_in (subsumers (blocking ∷ [])) (length c_a_b) c_a_b ≡ true)
    ↔ ((s : Bytes) × In s (subsumers (blocking ∷ [])) × IsUnder c_a_b s)
ancestor_in_example = ancestor_in_iff (subsumers (blocking ∷ [])) c_a_b

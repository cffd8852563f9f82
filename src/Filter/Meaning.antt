-- ===== src/Filter/Meaning.antt =====
-- What a rule means for a query, with no index and no arena; and how records agree with it.
use bulwark.Common.{
  ℕ, ◌+◌, ◌≡◌, ap, ap₂, ◌∙◌, inl, inr, Bool, true, ◌&&◌, Option, none, some, List, arith, ◌==◌,
  if◌then◌else◌, ==_iff, Bool-cases,
}
use bulwark.Common.Bytes.{Bytes, bytes_eq}
use bulwark.Filter.Rule.{
  Action, Pattern, RuleMods, Rule, BuildRule, rule_priority, is_important, base_priority,
}
use bulwark.Filter.External.{External}
use bulwark.Filter.Scan.{RuleRecord}
use bulwark.Filter.Engine.{Query, mods_apply, mods_of, applicable, priority}
use bulwark.Filter.Engine.Builder.{
  FilterEngine, Build, is_subdomain_of, from_rules, gather, empty_build, no_mods,
}
use bulwark.Filter.Gather.{ModsAt, Represents}

unfoldable pub pattern_matches : External → Pattern → Bytes → Bool
pattern_matches x (Pattern.exact d) domain = bytes_eq d domain
pattern_matches x (Pattern.subdomain d) domain = is_subdomain_of domain d
pattern_matches x (Pattern.wildcard re) domain = x.is_match re domain
pattern_matches x (Pattern.regex re) domain = x.is_match re domain

abbrev pub mods_pass : External → Action → Option RuleMods → Query → Bool
mods_pass x action none q = true
mods_pass x action (some m) q = mods_apply x action m q

-- The rule applies to the query: its pattern matches and its modifiers let it.
unfoldable pub rule_applies : External → Rule → Query → Bool
unfolding pattern_matches
rule_applies x r q = pattern_matches x r.pattern q.domain && mods_pass x r.action r.mods q

pub mods_of-ModsAt :
    (e : FilterEngine) (r : RuleRecord) (m : Option RuleMods)
    → ModsAt e.mods r.mods_idx m
    → mods_of e r ≡ m
unfolding mods_of
mods_of-ModsAt e r none h = rw ((==_iff r.mods_idx no_mods).1 h)
mods_of-ModsAt e r (some m) h = elim (Bool-cases (r.mods_idx == no_mods)) [
  | inl sentinel ↦ absurd (omega (arith, h.0, (==_iff r.mods_idx no_mods).0 sentinel))
  | inr index ↦ rw index h.1
]

applicable-mods :
    (x : External) (e : FilterEngine) (r : RuleRecord) (q : Query) (m : Option RuleMods)
    → mods_of e r ≡ m
    → applicable x e r q ≡ mods_pass x r.action m q
unfolding applicable
applicable-mods x e r q none h = rw (h, applicable)
applicable-mods x e r q (some m) h = rw (h, applicable)

module _ (x : External) (rules : List BuildRule) where
  abbrev pub built : Build
  built = gather x empty_build rules

  abbrev pub engine : FilterEngine
  engine = from_rules x rules

  pub Represents-applicable :
      (q : Query) (i : ℕ) (br : BuildRule) (h : Represents x built i br)
      → applicable x engine h.rec q ≡ mods_pass x br.rule.action br.rule.mods q
  unfolding from_rules
  Represents-applicable q i br h =
      applicable-mods x engine h.rec q br.rule.mods
        (mods_of-ModsAt engine h.rec br.rule.mods h.mods_at)
      ∙ ap (λ a. mods_pass x a br.rule.mods q) h.action_same

  pub Represents-priority :
      (i : ℕ) (br : BuildRule) (h : Represents x built i br)
      → priority engine h.rec ≡ rule_priority br.rule
  unfolding from_rules priority rule_priority
  Represents-priority i br h =
      ap₂ (λ a m. base_priority a + (if is_important m then 100 else 0)) h.action_same
        (mods_of-ModsAt engine h.rec br.rule.mods h.mods_at)

-- ===== src/Filter/Best.antt =====
-- engine.rs, the two phases of `check`: `find_best` against what the rules mean.
use bulwark.Common.{
  ℕ, zero, suc, ◌+◌, ◌≤◌, ◌<◌, ◌≡◌, refl, sym, ap, subst, ◌∙◌, ◌≢◌, ◌⊎◌, inl, inr, Bool, true,
  false, ◌&&◌, ◌||◌, Option, none, some, List, [], ◌∷◌, arith, if◌then◌else◌, Bool-cases,
  Option-cases, length, get_elem?, In, get_elem?-lt-length, get_elem?-In, some_injective,
}
use bulwark.Filter.Rule.{
  Action, block, allow, rewrite, BuildRule, rule_priority, is_important, base_priority,
}
use bulwark.Filter.External.{External, IsDocumented}
use bulwark.Filter.Scan.{RuleRecord, scan_is_empty}
use bulwark.Filter.Engine.{
  Query, priority, consider, find_best, domain_candidates, block_candidates,
}
use bulwark.Filter.Engine.Builder.{FilterEngine, from_rules, empty_build, is_allow}
use bulwark.Filter.Winner.{Applies, consider-none, consider-bound, consider-from}
use bulwark.Filter.Gather.{overrides}
use bulwark.Filter.Gathered.{length-gather}
use bulwark.Filter.Meaning.{
  pattern_matches, mods_pass, rule_applies, built, engine, Represents-applicable,
  Represents-priority,
}
use bulwark.Filter.Candidates.{pattern_matches-Listed, scan_is_empty-In}
use bulwark.Filter.Origins.{
  IsCompiled, Origin, represented, domain_candidates-Origin, block_candidates-Origin,
  Origin-pattern_matches,
}

-- Rule `w` applies to the query with priority `p`, and no rule that applies has a higher one.
pub record IsBest (x : External) (rules : List BuildRule) (q : Query) (w p : ℕ) : Type 0 where
  pub best : BuildRule
  pub best_at : get_elem? rules w ≡ some best
  pub applies : rule_applies x best.rule q ≡ true
  pub prio : p ≡ rule_priority best.rule
  pub highest :
      (i : ℕ) (br : BuildRule)
      → get_elem? rules i ≡ some br
      → rule_applies x br.rule q ≡ true
      → rule_priority br.rule ≤ p

&&-split : (a b : Bool) → a && b ≡ true → (a ≡ true) × (b ≡ true)
&&-split true b h = (refl, h)
&&-split false b h = cc

plain_priority : (br : BuildRule) → overrides br ≡ false → rule_priority br.rule ≤ 1
unfolding rule_priority
plain_priority br h = by_action br.rule.action (is_important br.rule.mods) h
  where
    by_action :
        (a : Action) (important : Bool)
        → is_allow a || important ≡ false
        → base_priority a + (if important then 100 else 0) ≤ 1
    by_action block false n = omega arith
    by_action block true n = cc
    by_action allow important n = cc
    by_action rewrite false n = omega arith
    by_action rewrite true n = cc

priority_positive : (e : FilterEngine) (r : RuleRecord) → 1 ≤ priority e r
unfolding priority
priority_positive e r = by_action r.action _
  where
    by_action : (a : Action) (n : ℕ) → 1 ≤ base_priority a + n
    by_action block n = omega arith
    by_action allow n = omega arith
    by_action rewrite n = omega arith

pub get_elem?-lt {ℓ} :
    {A : Type ℓ} (xs : List A) (i : ℕ) → i < length xs → (a : A) × (get_elem? xs i ≡ some a)
get_elem?-lt [] i h = absurd (omega arith)
get_elem?-lt (y ∷ xs) zero h = (y, refl)
get_elem?-lt (y ∷ xs) (suc i) h = get_elem?-lt xs i (omega arith)

module _ (x : External) (d : IsDocumented x) (rules : List BuildRule) (q : Query)
    (ok : IsCompiled x rules q.domain) where
  abbrev first_phase : Option (ℕ × ℕ)
  first_phase = consider x (engine x rules) q (domain_candidates x (engine x rules) q) none

  abbrev second_phase : Option (ℕ × ℕ)
  second_phase = consider x (engine x rules) q (block_candidates x (engine x rules) q) none

  -- A rule that applies is applicable by its record, and a candidate.
  record Candidate (i : ℕ) (br : BuildRule) : Type 0 where
    rec : RuleRecord
    rec_applies : Applies x (engine x rules) q i rec
    rec_priority : priority (engine x rules) rec ≡ rule_priority br.rule
    listed :
        In i (domain_candidates x (engine x rules) q)
        ⊎ ((overrides br ≡ false) × In i (block_candidates x (engine x rules) q))

  rule_applies-Candidate :
      (i : ℕ) (br : BuildRule)
      → get_elem? rules i ≡ some br
      → rule_applies x br.rule q ≡ true
      → Candidate i br
  unfolding rule_applies from_rules
  rule_applies-Candidate i br at h =
      let rep = represented x d rules q ok i br at in
      let (matches, passes) = &&-split (pattern_matches x br.rule.pattern q.domain) _ h in
      let (rec_matches, listed) =
        pattern_matches-Listed x d rules q i rep.rec (overrides br) br.index_tokens rep.record_at
          br.rule.pattern rep.pattern_at matches
          (ok.tokens_hold br (get_elem?-In rules i at) matches) in
      record {
        rec = rep.rec;
        rec_applies = record {
          record_at = rep.record_at;
          matches = rec_matches;
          applies = Represents-applicable x rules q i br rep ∙ passes;
        };
        rec_priority = Represents-priority x rules i br rep;
        listed = listed;
      }

  find_best-first :
      (best : ℕ × ℕ) → first_phase ≡ some best → find_best x (engine x rules) q ≡ some best
  unfolding find_best
  find_best-first best h = rw (h, find_best)

  find_best-second :
      (i : ℕ)
      → first_phase ≡ none
      → In i (block_candidates x (engine x rules) q)
      → find_best x (engine x rules) q ≡ second_phase
  unfolding find_best
  find_best-second i h m =
      rw (h, find_best)
        (rw (
          scan_is_empty-In x (engine x rules).rules (engine x rules).regexes
            (engine x rules).block_scan q.domain _ i m))

  find_best-phases :
      (best : ℕ × ℕ)
      → find_best x (engine x rules) q ≡ some best
      → (first_phase ≡ some best) ⊎ ((first_phase ≡ none) × (second_phase ≡ some best))
  unfolding find_best
  find_best-phases best h = elim (Option-cases first_phase) [
    | inr (found, is_there) ↦ inl (is_there ∙ rw (is_there, find_best) at h)
    | inl nothing ↦ elim (Bool-cases (scan_is_empty (engine x rules).block_scan)) [
      | inl no_blocks ↦ absurd (none_some (rw no_blocks at (rw (nothing, find_best) at h)))
      | inr blocks ↦ inr (nothing, rw blocks at (rw (nothing, find_best) at h))
    ]
  ]
    where
      none_some : {b : ℕ × ℕ} → none ≢ some b
      none_some e = cc

  -- If the rules fit the widths of the arenas, the crates behave as documented, and a query has
  -- the index tokens of each rule whose pattern matches it, then nothing is found for the query
  -- only if no rule of the list applies to it.
  pub find_best-none :
      find_best x (engine x rules) q ≡ none
      → (i : ℕ) (br : BuildRule) → get_elem? rules i ≡ some br
      → rule_applies x br.rule q ≡ false
  find_best-none h i br at = elim (Bool-cases (rule_applies x br.rule q)) [
    | inr misses ↦ misses
    | inl hits ↦ absurd (not_listed (rule_applies-Candidate i br at hits))
  ]
    where
      not_listed : Candidate i br → ⊥
      not_listed c = elim (Option-cases first_phase) [
        | inr (found, is_there) ↦ some_none (sym (find_best-first found is_there) ∙ h)
        | inl nothing ↦ elim c.listed [
          | inl m ↦ (consider-none x (engine x rules) q _ none nothing).1 i c.rec m c.rec_applies
          | inr (plain, m) ↦
              (consider-none x (engine x rules) q _ none (sym (find_best-second i nothing m) ∙ h)).1
                i c.rec m c.rec_applies
        ]
      ]
        where
          some_none : {b : ℕ × ℕ} → some b ≢ none
          some_none e = cc

  -- The winner's priority is not below that of any rule that applies.
  find_best-highest :
      (w p i : ℕ) (br : BuildRule)
      → find_best x (engine x rules) q ≡ some (w, p)
      → Candidate i br
      → rule_priority br.rule ≤ p
  find_best-highest w p i br h c = elim (find_best-phases (w, p) h) [
    | inl first ↦ elim c.listed [
      | inl m ↦ omega (
        arith,
        c.rec_priority,
        consider-bound x (engine x rules) q _ none w p i c.rec first m c.rec_applies,
      )
      | inr (plain, m) ↦ elim (consider-from x (engine x rules) q _ none w p first) [
        | inl before ↦ absurd (none_some before)
        | inr (r, among, a, prio) ↦
            omega (arith, prio, plain_priority br plain, priority_positive (engine x rules) r)
      ]
    ]
    | inr (nothing, second) ↦ elim c.listed [
      | inl m ↦
          absurd ((consider-none x (engine x rules) q _ none nothing).1 i c.rec m c.rec_applies)
      | inr (plain, m) ↦ omega (
        arith,
        c.rec_priority,
        consider-bound x (engine x rules) q _ none w p i c.rec second m c.rec_applies,
      )
    ]
  ]
    where
      none_some : {b : ℕ × ℕ} → none ≢ some b
      none_some e = cc

  winner_Origin :
      (w p : ℕ)
      → find_best x (engine x rules) q ≡ some (w, p)
      → (r : RuleRecord) × Origin x rules q.domain w
        × Applies x (engine x rules) q w r
        × (p ≡ priority (engine x rules) r)
  winner_Origin w p h = elim (find_best-phases (w, p) h) [
    | inl first ↦ elim (consider-from x (engine x rules) q _ none w p first) [
      | inl before ↦ absurd (none_some before)
      | inr (r, among, a, prio) ↦ (r, domain_candidates-Origin x d rules q ok w among, a, prio)
    ]
    | inr (nothing, second) ↦ elim (consider-from x (engine x rules) q _ none w p second) [
      | inl before ↦ absurd (none_some before)
      | inr (r, among, a, prio) ↦ (r, block_candidates-Origin x d rules q ok w among, a, prio)
    ]
  ]
    where
      none_some : {b : ℕ × ℕ} → none ≢ some b
      none_some e = cc

  -- If the crates behave as documented, then for rules that fit the widths of the arenas, and a
  -- query that has the index tokens of each rule whose pattern matches it, the rule that the
  -- indexes, the scans and the two phases find is one of the rules, applies to the query by its
  -- own pattern and modifiers, has the priority found, and no rule of the list that applies has a
  -- higher one.
  pub find_best-IsBest :
      (w p : ℕ) → find_best x (engine x rules) q ≡ some (w, p) → IsBest x rules q w p
  unfolding rule_applies from_rules
  find_best-IsBest w p h =
      let (r, origin, a, prio) = winner_Origin w p h in
      let (br, at) = get_elem?-lt rules w (
        omega (
          arith,
          length-gather x rules empty_build,
          get_elem?-lt-length (built x rules).records w a.record_at,
        )) in
      let rep = represented x d rules q ok w br at in
      let same : r ≡ rep.rec = some_injective (sym a.record_at ∙ rep.record_at) in
      let b : Applies x (engine x rules) q w rep.rec =
        subst (Applies x (engine x rules) q w) same a in
      let matches =
        Origin-pattern_matches x d rules q ok w br rep.rec br.rule.pattern rep.record_at
          rep.pattern_at origin b.matches in
      let passes : mods_pass x br.rule.action br.rule.mods q ≡ true =
        sym (Represents-applicable x rules q w br rep) ∙ b.applies in
      record {
        best = br;
        best_at = at;
        applies = rw (matches, passes);
        prio = prio ∙ ap (priority (engine x rules)) same ∙ Represents-priority x rules w br rep;
        highest = λ i c c_at c_applies.
            find_best-highest w p i c h (rule_applies-Candidate i c c_at c_applies);
      }

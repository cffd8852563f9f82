-- ===== src/Filter/Verdicts.antt =====
-- engine.rs, `check`: what the verdict says of the rules.
use bulwark.Common.{
  ℕ, ◌+◌, ◌≤◌, ◌≡◌, refl, sym, ap, ◌∙◌, ◌≢◌, ◌↔◌, ◌⊎◌, inl, inr, Bool, true, false, none, some,
  List, arith, if◌then◌else◌, Option-cases, ◌>>=◌, get_elem?,
}
use bulwark.Common.Bytes.{Bytes}
use bulwark.Filter.Rule.{
  Action, block, allow, rewrite, ClientInfo, Rule, BuildRule, RewriteData, rule_priority,
  is_important, base_priority,
}
use bulwark.Filter.External.{External, IsDocumented}
use bulwark.Filter.Scan.{RuleRecord}
use bulwark.Filter.Engine.{Query, find_best, normalize, raw, report, check, mods_of, verdict_of}
use bulwark.Filter.Engine.Builder.{
  MatchInfo, Verdict, allowed, rewritten, panic, is_blocked, FilterEngine, from_rules,
}
use bulwark.Filter.Meaning.{rule_applies, engine, mods_of-ModsAt}
use bulwark.Filter.Origins.{IsCompiled, represented}
use bulwark.Filter.Best.{IsBest, find_best-none, find_best-IsBest}

-- A priority above 100 tells an important rule, and its last digit the action.
allow_by_priority :
    (r : Rule) (p : ℕ)
    → rule_priority r ≡ p
    → ((102 ≤ p) ⊎ ((2 ≤ p) × (is_important r.mods ≡ false)))
    → r.action ≡ allow
unfolding rule_priority
allow_by_priority r p e h = by_action r.action (is_important r.mods) e h
  where
    by_action :
        (a : Action) (important : Bool)
        → base_priority a + (if important then 100 else 0) ≡ p
        → ((102 ≤ p) ⊎ ((2 ≤ p) × (important ≡ false)))
        → a ≡ allow
    by_action allow important n k = refl
    by_action block true n (inl k) = absurd (omega arith)
    by_action block false n (inl k) = absurd (omega arith)
    by_action block true n (inr (k, quiet)) = cc
    by_action block false n (inr (k, quiet)) = absurd (omega arith)
    by_action rewrite true n (inl k) = absurd (omega arith)
    by_action rewrite false n (inl k) = absurd (omega arith)
    by_action rewrite true n (inr (k, quiet)) = cc
    by_action rewrite false n (inr (k, quiet)) = absurd (omega arith)

rule_priority-allow : (r : Rule) → r.action ≡ allow → 2 ≤ rule_priority r
unfolding rule_priority
rule_priority-allow r h = let base = ap base_priority h in omega (arith, base)

rule_priority-important :
    (r : Rule) → r.action ≡ allow → is_important r.mods ≡ true → 102 ≤ rule_priority r
unfolding rule_priority
rule_priority-important r h i = let base = ap base_priority h in rw i (omega (arith, base))

true_ne_false : true ≢ false
true_ne_false h = cc

verdict_of-matched :
    (e : FilterEngine) (r : RuleRecord) (info : MatchInfo) (a : Action)
    → verdict_of e r info a ≢ allowed none
verdict_of-matched e r info allow h = cc
verdict_of-matched e r info block h = cc
verdict_of-matched e r info rewrite h = elim (Option-cases (mods_of e r >>= λ m. m.rewrite)) [
  | inl nothing ↦ panicked (rw (verdict_of, nothing) at h)
  | inr (data_of, there_is) ↦ was_rewritten (rw (verdict_of, there_is) at h)
]
  where
    panicked : panic ≢ allowed none
    panicked k = cc

    was_rewritten : {rw_data : RewriteData} → rewritten info rw_data ≢ allowed none
    was_rewritten k = cc

verdict_of-blocked :
    (e : FilterEngine) (r : RuleRecord) (info : MatchInfo) (a : Action)
    → is_blocked (verdict_of e r info a) ≡ true
    → a ≡ block
unfolding is_blocked
verdict_of-blocked e r info allow h = cc
verdict_of-blocked e r info block h = refl
verdict_of-blocked e r info rewrite h = elim (Option-cases (mods_of e r >>= λ m. m.rewrite)) [
  | inl nothing ↦ absurd (false_true (rw (verdict_of, nothing) at h))
  | inr (data_of, there_is) ↦ absurd (false_true (rw (verdict_of, there_is) at h))
]
  where
    false_true : false ≢ true
    false_true k = cc

is_blocked-none : is_blocked (allowed none) ≢ true
unfolding is_blocked
is_blocked-none h = cc

module _ (x : External) (d : IsDocumented x) (rules : List BuildRule) (domain rtype : Bytes)
    (client : ClientInfo) where
  abbrev pub asked : Query
  asked = record { domain = normalize domain; rtype = rtype; client = client }

  abbrev verdict : Verdict
  verdict = check x (from_rules x rules) domain rtype client

  module _ (ok : IsCompiled x rules (normalize domain)) where
    pub check-found :
        (w p : ℕ)
        → find_best x (engine x rules) asked ≡ some (w, p)
        → verdict ≡ report (from_rules x rules) w
    unfolding check
    check-found w p h = rw (h, check)

    pub check-missed : find_best x (engine x rules) asked ≡ none → verdict ≡ allowed none
    unfolding check
    check-missed h = rw (h, check)

    -- The verdict for a rule is of the kind of its action.
    pub reported :
        (w : ℕ) (br : BuildRule)
        → get_elem? rules w ≡ some br
        → (r : RuleRecord) × (info : MatchInfo) × (mods_of (engine x rules) r ≡ br.rule.mods)
          × (report (engine x rules) w ≡ verdict_of (engine x rules) r info br.rule.action)
    unfolding report from_rules
    reported w br at =
        let rep = represented x d rules asked ok w br at in
        let info : MatchInfo = record {
          rule = raw (engine x rules) rep.rec;
          list_id = rep.rec.list_id;
          rule_id = w;
        } in
        (
          rep.rec,
          info,
          mods_of-ModsAt (engine x rules) rep.rec br.rule.mods rep.mods_at,
          rw (rep.record_at, report)
              (ap (verdict_of (engine x rules) rep.rec info) rep.action_same),
        )

    -- If the rules fit the widths of the arenas, the crates behave as documented, and the
    -- normalised query has the index tokens of each rule whose pattern matches it, then the
    -- verdict names no rule exactly if no rule of the list applies to the normalised query.
    pub check-unmatched : (verdict ≡ allowed none) ↔ (
        (i : ℕ) (br : BuildRule)
        → get_elem? rules i ≡ some br
        → rule_applies x br.rule asked ≡ false)
    check-unmatched = (
      λ h. elim (Option-cases (find_best x (engine x rules) asked)) [
        | inl nothing ↦ find_best-none x d rules asked ok nothing
        | inr ((w, p), is_there) ↦
            let best = find_best-IsBest x d rules asked ok w p is_there in
            let (r, info, mods_same, e) = reported w best.best best.best_at in
            absurd (
              verdict_of-matched (engine x rules) r info best.best.rule.action
                (sym e ∙ sym (check-found w p is_there) ∙ h))
      ],
      λ misses. elim (Option-cases (find_best x (engine x rules) asked)) [
        | inl nothing ↦ check-missed nothing
        | inr ((w, p), is_there) ↦
            let best = find_best-IsBest x d rules asked ok w p is_there in
            absurd (true_ne_false (sym best.applies ∙ misses w best.best best.best_at))
      ],
    )

    -- If the rules fit the widths of the arenas, the crates behave as documented, and the
    -- normalised query has the index tokens of each rule whose pattern matches it, then the
    -- verdict blocks the query only for a block rule of the list that applies to the normalised
    -- query and that no rule that applies outranks.
    pub check-blocked :
        is_blocked verdict ≡ true
        → (w p : ℕ) × (b : IsBest x rules asked w p) × (b.best.rule.action ≡ block)
    check-blocked h = elim (Option-cases (find_best x (engine x rules) asked)) [
      | inl nothing ↦ absurd (not_blocked (ap is_blocked (sym (check-missed nothing)) ∙ h))
      | inr ((w, p), is_there) ↦
          let best = find_best-IsBest x d rules asked ok w p is_there in
          let (r, info, mods_same, e) = reported w best.best best.best_at in
          (
            w,
            p,
            best,
            verdict_of-blocked (engine x rules) r info best.best.rule.action
                (ap is_blocked (sym e ∙ sym (check-found w p is_there)) ∙ h),
          )
    ]
      where
        not_blocked : is_blocked (allowed none) ≢ true
        not_blocked e = is_blocked-none e

    -- If the rules fit the widths of the arenas, the crates behave as documented, and the
    -- normalised query has the index tokens of each rule whose pattern matches it, and if an
    -- allow rule applies to the normalised query and is important or no important rule applies,
    -- then the verdict allows the query by a rule.
    pub check-allowed :
        (i : ℕ) (br : BuildRule)
        → get_elem? rules i ≡ some br
        → rule_applies x br.rule asked ≡ true
        → br.rule.action ≡ allow
        → (is_important br.rule.mods ≡ true)
          ⊎ ((j : ℕ) (c : BuildRule)
              → get_elem? rules j ≡ some c
              → rule_applies x c.rule asked ≡ true
              → is_important c.rule.mods ≡ false)
        → (info : MatchInfo) × (verdict ≡ allowed (some info))
    check-allowed i br at applies allows unrivalled =
        elim (Option-cases (find_best x (engine x rules) asked)) [
          | inl nothing ↦
              absurd
                (true_ne_false (sym applies ∙ find_best-none x d rules asked ok nothing i br at))
          | inr ((w, p), is_there) ↦
              let best = find_best-IsBest x d rules asked ok w p is_there in
              let (r, info, mods_same, e) = reported w best.best best.best_at in
              let above = best.highest i br at applies in
              let action : best.best.rule.action ≡ allow =
                allow_by_priority best.best.rule p (sym best.prio) (elim unrivalled [
                  | inl important ↦
                      inl (omega (arith, above, rule_priority-important br.rule allows important))
                  | inr none_important ↦ inr (
                    omega (arith, above, rule_priority-allow br.rule allows),
                    none_important w best.best best.best_at best.applies,
                  )
                ]) in
              (info, check-found w p is_there ∙ e ∙ ap (verdict_of (engine x rules) r info) action)
        ]

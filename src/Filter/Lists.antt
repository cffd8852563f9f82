-- ===== src/Filter/Lists.antt =====
-- list.rs and parser.rs with engine.rs: an engine compiled from the lines of lists.
pub mod Reached
use bulwark.Common.{
  ℕ, ◌+◌, ◌^◌, ◌≤◌, ◌<◌, ◌≡◌, refl, sym, ap, subst, ◌∙◌, ◌≢◌, ◌↔◌, ◌⊎◌, inl, inr, Bool, true, false,
  Option, none, some, List, [], ◌∷◌, ◌++◌, arith, if◌then◌else◌, Bool-cases, Option-cases, length,
  All, In, here, there, All-In, get_elem?-In, In-get_elem?,
}
use bulwark.Common.Bytes.{Bytes}
use bulwark.Filter.Rule.{
  Action, block, allow, rewrite, Rule, RuleMods, RewriteData, BuildRule, ClientInfo, rule_priority,
  base_priority, is_important, contains_text, is_empty,
}
use bulwark.Filter.External.{External, IsDocumented}
use bulwark.Filter.Scan.{RuleRecord}
use bulwark.Filter.Engine.{Query, find_best, normalize, check, verdict_of, mods_of}
use bulwark.Filter.Engine.Builder.{
  MatchInfo, Verdict, allowed, rewritten, panic, is_blocked, FilterEngine, no_mods,
}
use bulwark.Filter.Gathered.{stored_total, IsShort}
use bulwark.Filter.Meaning.{engine}
use bulwark.Filter.Origins.{IsCompiled}
use bulwark.Filter.Best.{IsBest, find_best-none, find_best-IsBest}
use bulwark.Filter.Pruning.{keep_if-In, Answered, prune_redundant-Answered}
use bulwark.Filter.Verdicts.{asked, reported, check-found, check-missed, check-blocked}
use bulwark.Filter.Parser.Modifiers.{Reading}
use bulwark.Filter.Parser.{parse_line}
use bulwark.Filter.Parsing.{IsParsed, Rules, parse_line-IsParsed}
use bulwark.Filter.Parsing.Patterns.{IsAscii, MatchesGlobs, HasAnswer}
use bulwark.Filter.Compiler.{
  ListStats, Parsed, Compiler, new, add_parsed, add_line, add_lines, add_list, dedup_rules,
  subsumers, prune_redundant, active_rules, compile,
}
use bulwark.Filter.Lists.Reached.{Built, Built-IsParsed, prune_redundant-In, active_rules-In}

-- A rule of a block rule's priority is no allow rule.
rule_priority-block :
    (r s : Rule)
    → r.action ≡ block
    → rule_priority r ≡ rule_priority s
    → (s.action ≡ block) ⊎ (s.action ≡ rewrite)
unfolding rule_priority
rule_priority-block r s is e =
    by_action s.action (is_important r.mods) (is_important s.mods)
      (ap (λ a. base_priority a + (if is_important r.mods then 100 else 0)) (sym is) ∙ e)
  where
    by_action :
        (b : Action) (i j : Bool)
        → base_priority block + (if i then 100 else 0) ≡ base_priority b + (if j then 100 else 0)
        → (b ≡ block) ⊎ (b ≡ rewrite)
    by_action block i j k = inl refl
    by_action rewrite i j k = inr refl
    by_action allow true true k = absurd (omega arith)
    by_action allow true false k = absurd (omega arith)
    by_action allow false true k = absurd (omega arith)
    by_action allow false false k = absurd (omega arith)

-- The engine's rules, and their bounds: each rule and each span has its number.
abbrev pub compiled : Compiler → List BuildRule
compiled c = prune_redundant (active_rules c)

pub record IsRoomy (c : Compiler) : Type 0 where
  pub few : length (compiled c) ≤ no_mods
  pub small : stored_total (compiled c) < 2 ^ 32
  pub short : All IsShort (compiled c)

module _ (rd : Reading) (x : External) (d : IsDocumented x) (globs : MatchesGlobs x) (c : Compiler)
    (built_up : Built rd c) (room : IsRoomy c) (domain rtype : Bytes) (client : ClientInfo)
    (ascii : IsAscii (normalize domain)) where
  pub parsed : (br : BuildRule) → In br (compiled c) → IsParsed x (normalize domain) br
  parsed br m =
      All-In (IsParsed x (normalize domain)) c.rules
        (Built-IsParsed rd x globs (normalize domain) ascii c built_up)
        (active_rules-In c br (prune_redundant-In (active_rules c) br m))

  pub compiled-IsCompiled : IsCompiled x (compiled c) (normalize domain)
  compiled-IsCompiled = record {
    few = room.few;
    small = room.small;
    short = room.short;
    tokens_hold = λ br m. (parsed br m).has_tokens;
  }

  abbrev pub query : Query
  query = asked x d (compiled c) domain rtype client

  abbrev verdict : Verdict
  verdict = check x (compile x c).0 domain rtype client

  winner :
      (w p : ℕ)
      → find_best x (engine x (compiled c)) query ≡ some (w, p)
      → IsBest x (compiled c) query w p
  winner = find_best-IsBest x d (compiled c) query compiled-IsCompiled

  pub verdict_of-answered :
      (e : FilterEngine) (r : RuleRecord) (info : MatchInfo) (a : Action) (mods : Option RuleMods)
      → mods_of e r ≡ mods
      → HasAnswer a mods
      → verdict_of e r info a ≢ panic
  verdict_of-answered e r info allow mods is h k = cc
  verdict_of-answered e r info block mods is h k = cc
  verdict_of-answered e r info rewrite mods is h k =
      let (m, answer, there_is, gives) = h refl in
      not_panic (rw (is ∙ there_is, gives, verdict_of) at k)
    where
      not_panic : {answer : RewriteData} → rewritten info answer ≢ panic
      not_panic j = cc

  module _ (w p : ℕ) (is : find_best x (engine x (compiled c)) query ≡ some (w, p)) where
    abbrev best : IsBest x (compiled c) query w p
    best = find_best-IsBest x d (compiled c) query compiled-IsCompiled w p is

    best_reported :
        (r : RuleRecord) × (info : MatchInfo) × (mods_of (engine x (compiled c)) r
          ≡ best.best.rule.mods)
        × (verdict ≡ verdict_of (engine x (compiled c)) r info best.best.rule.action)
    unfolding compile
    best_reported =
        let (r, info, mods_same, e) =
          reported x d (compiled c) domain rtype client compiled-IsCompiled w best.best
            best.best_at in
        (
          r,
          info,
          mods_same,
          check-found x d (compiled c) domain rtype client compiled-IsCompiled w p is ∙ e,
        )

    found-answered : verdict ≢ panic
    found-answered h =
        let (r, info, mods_same, e) = best_reported in
        verdict_of-answered (engine x (compiled c)) r info best.best.rule.action best.best.rule.mods
          mods_same ((parsed best.best (get_elem?-In (compiled c) w best.best_at)).has_answer)
          (sym e ∙ h)

  best_Answered :
      (w p : ℕ) (b : IsBest x (compiled c) query w p) (a : Action)
      → b.best.rule.action ≡ a
      → Answered x (active_rules c) query a p
  best_Answered w p b a does =
      (prune_redundant-Answered x (active_rules c) query a p).1
        (b.best, get_elem?-In (compiled c) w b.best_at, b.applies, does, sym b.prio)

  missed : find_best x (engine x (compiled c)) query ≡ none → verdict ≡ allowed none
  unfolding compile
  missed h = check-missed x d (compiled c) domain rtype client compiled-IsCompiled h

  -- Let the crates behave as documented, a compiler be built by adding lists of ASCII lines that
  -- the parser reads, its compiled rules fit the widths of the arenas, and the regex of a
  -- wildcard pattern match only where the pattern does. Then for an ASCII name the verdict of the
  -- compiled engine is never the panic on a rewrite rule that has no answer.
  pub check-answered : verdict ≢ panic
  check-answered h = elim (Option-cases (find_best x (engine x (compiled c)) query)) [
    | inl nothing ↦ allowed_panic (sym (missed nothing) ∙ h)
    | inr ((w, p), is) ↦ found-answered w p is h
  ]
    where
      allowed_panic : allowed none ≢ panic
      allowed_panic k = cc

  -- A block rule that applies, and that no rule that applies outranks.
  abbrev pub BlockRuleWins : Type 0
  BlockRuleWins =
      (n : ℕ) × Answered x (active_rules c) query block n
      × ((a : Action) (m : ℕ) → Answered x (active_rules c) query a m → m ≤ n)

  abbrev pub Untied : Type 0
  Untied =
      (n : ℕ)
      → Answered x (active_rules c) query block n
      → ¬ Answered x (active_rules c) query rewrite n

  -- The best compiled rule is best among the active ones.
  best_highest :
      (w p : ℕ) (b : IsBest x (compiled c) query w p) (a : Action) (m : ℕ)
      → Answered x (active_rules c) query a m
      → m ≤ p
  best_highest w p b a m h =
      let (br, among, applies, does, prio) =
        (prune_redundant-Answered x (active_rules c) query a m).0 h in
      let (i, at) = In-get_elem? (compiled c) among in
      omega (arith, prio, b.highest i br at applies)

  blocked-BlockRuleWins : is_blocked verdict ≡ true → BlockRuleWins
  unfolding compile
  blocked-BlockRuleWins h =
      let (w, p, b, does) =
        check-blocked x d (compiled c) domain rtype client compiled-IsCompiled h in
      (p, best_Answered w p b block does, best_highest w p b)

  -- The winner's action is of the block rule's priority.
  blocked_by :
      (w p : ℕ) (is : find_best x (engine x (compiled c)) query ≡ some (w, p))
      → (best w p is).best.rule.action ≡ block
      → is_blocked verdict ≡ true
  unfolding is_blocked
  blocked_by w p is does = let (r, info, mods_same, e) = best_reported w p is in rw e (rw does)

  BlockRuleWins-blocked : Untied → BlockRuleWins → is_blocked verdict ≡ true
  BlockRuleWins-blocked untied (n, h, highest) =
      elim (Option-cases (find_best x (engine x (compiled c)) query)) [
        | inl nothing ↦
            let (br, among, applies, does, prio) =
              (prune_redundant-Answered x (active_rules c) query block n).0 h in
            let (i, at) = In-get_elem? (compiled c) among in
            absurd (
              true_false (
                sym applies
                ∙ find_best-none x d (compiled c) query compiled-IsCompiled nothing i br at))
        | inr ((w, p), is) ↦
            let b = best w p is in
            let same : n ≡ p = omega (
              arith,
              best_highest w p b block n h,
              highest b.best.rule.action p (best_Answered w p b b.best.rule.action refl),
            ) in
            let (br, among, applies, does, prio) = h in
            elim (rule_priority-block br.rule b.best.rule does (prio ∙ same ∙ b.prio)) [
              | inl blocks ↦ blocked_by w p is blocks
              | inr rewrites ↦ absurd (
                  untied n h (
                    subst (Answered x (active_rules c) query rewrite) (sym same)
                      (best_Answered w p b rewrite rewrites)))
            ]
      ]
    where
      true_false : true ≢ false
      true_false k = cc

  module _ (untied : Untied) where
    -- Let the crates behave as documented, a compiler be built by adding lists of ASCII lines
    -- that the parser reads, its compiled rules fit the widths of the arenas, the regex of a
    -- wildcard pattern match only where the pattern does, and no rewrite rule that applies have
    -- the priority of a block rule that does. Then the compiled engine blocks a query for an
    -- ASCII name exactly if, among the active rules before pruning, a block rule applies to the
    -- query and no rule that applies has a higher priority.
    pub check-BlockRuleWins : (is_blocked verdict ≡ true) ↔ BlockRuleWins
    check-BlockRuleWins = (blocked-BlockRuleWins, BlockRuleWins-blocked untied)

-- ===== src/Filter/Answered.antt =====
-- engine.rs, `check`, for an engine compiled from lists: the `expect` on a rule's answer holds for any text
-- that is looked up, in ASCII or not.
use bulwark.Common.{
  ℕ, ◌≡◌, sym, ◌∙◌, ◌≢◌, inl, inr, none, some, List, [], arith, Bool-cases, Option-cases, get_elem?,
  get_elem?-lt-length, get_elem?-In,
}
use bulwark.Common.Bytes.{Bytes}
use bulwark.Filter.Rule.{ClientInfo}
use bulwark.Filter.External.{External, IsDocumented}
use bulwark.Filter.Scan.{RuleRecord, scan_is_empty}
use bulwark.Filter.Engine.{
  Query, find_best, normalize, check, consider, domain_candidates, block_candidates,
}
use bulwark.Filter.Engine.Builder.{allowed, panic, FilterEngine, from_rules, empty_build}
use bulwark.Filter.Winner.{consider-from}
use bulwark.Filter.Gathered.{length-gather}
use bulwark.Filter.Meaning.{engine, built}
use bulwark.Filter.Best.{get_elem?-lt}
use bulwark.Filter.Verdicts.{reported}
use bulwark.Filter.Parser.Modifiers.{Reading}
use bulwark.Filter.Parsing.Patterns.{MatchesGlobs}
use bulwark.Filter.Compiler.{Compiler, compile}
use bulwark.Filter.Lists.{IsRoomy, compiled, parsed, compiled-IsCompiled, verdict_of-answered}
use bulwark.Filter.Lists.Reached.{Built}

-- What is found is the number of a record.
find_best-record :
    (x : External) (e : FilterEngine) (q : Query) (w p : ℕ)
    → find_best x e q ≡ some (w, p)
    → (r : RuleRecord) × (get_elem? e.rules w ≡ some r)
unfolding find_best
find_best-record x e q w p h = elim (Option-cases (consider x e q (domain_candidates x e q) none)) [
  | inr (found, is_there) ↦
      among (domain_candidates x e q) (is_there ∙ rw (is_there, find_best) at h)
  | inl nothing ↦ elim (Bool-cases (scan_is_empty e.block_scan)) [
    | inl no_blocks ↦ absurd (none_some (rw no_blocks at (rw (nothing, find_best) at h)))
    | inr blocks ↦ among (block_candidates x e q) (rw blocks at (rw (nothing, find_best) at h))
  ]
]
  where
    none_some : {b : ℕ × ℕ} → none ≢ some b
    none_some k = cc

    among :
        (ids : List ℕ)
        → consider x e q ids none ≡ some (w, p)
        → (r : RuleRecord) × (get_elem? e.rules w ≡ some r)
    among ids k = elim (consider-from x e q ids none w p k) [
      | inl before ↦ absurd (none_some before)
      | inr (r, m, a, prio) ↦ (r, a.record_at)
    ]

module _ (rd : Reading) (x : External) (d : IsDocumented x) (globs : MatchesGlobs x) (c : Compiler)
    (built_up : Built rd c) (room : IsRoomy c) where
  -- x
  pub check-never_panics :
      (domain rtype : Bytes) (client : ClientInfo)
      → check x (compile x c).0 domain rtype client ≢ panic
  unfolding check compile from_rules
  check-never_panics domain rtype client h =
      elim (Option-cases (find_best x (engine x (compiled c)) q)) [
        | inl nothing ↦ allowed_panic (rw (nothing, check) at h)
        | inr ((w, p), is) ↦
            let (r, at) = find_best-record x (engine x (compiled c)) q w p is in
            let (br, br_at) = get_elem?-lt (compiled c) w (
              omega (
                arith,
                length-gather x (compiled c) empty_build,
                get_elem?-lt-length (built x (compiled c)).records w at,
              )) in
            let (s, info, mods_same, e) =
              reported x d (compiled c) [] rtype client
                (compiled-IsCompiled rd x d globs c built_up room [] rtype client tt) w br br_at in
            verdict_of-answered rd x d globs c built_up room [] rtype client tt
              (engine x (compiled c)) s info br.rule.action br.rule.mods mods_same
              ((parsed rd x d globs c built_up room [] rtype client tt br
                (get_elem?-In (compiled c) w br_at)).has_answer)
              (sym e ∙ rw (is, check) at h)
      ]
    where
      q : Query
      q = record { domain = normalize domain; rtype = rtype; client = client }

      allowed_panic : allowed none ≢ panic
      allowed_panic k = cc

-- ===== src/Filter/Lists/Reached.antt =====
-- list.rs: the rules that a compiler holds.
use bulwark.Common.{ℕ, inl, inr, List, [], ◌∷◌, ◌++◌, Bool-cases, All, In, here, there}
use bulwark.Common.Bytes.{Bytes}
use bulwark.Filter.Rule.{BuildRule, contains_text, is_empty}
use bulwark.Filter.External.{External}
use bulwark.Filter.Pruning.{keep_if-In}
use bulwark.Filter.Parser.Modifiers.{Reading}
use bulwark.Filter.Parser.{parse_line}
use bulwark.Filter.Parsing.{IsParsed, Rules, parse_line-IsParsed}
use bulwark.Filter.Parsing.Patterns.{IsAscii, MatchesGlobs}
use bulwark.Filter.Compiler.{
  ListStats, Parsed, Compiler, new, add_parsed, add_line, add_lines, add_list, dedup_rules,
  subsumers, prune_redundant, active_rules,
}

-- A compiler that lists in ASCII were added to, one after the other.
pub data Built (rd : Reading) : Compiler → Type 0 where
  fresh : Built rd new
  added :
      (c : Compiler) (list_id : ℕ) (name : Bytes) (lines : List Bytes)
      → All IsAscii lines
      → Built rd c
      → Built rd (add_list (parse_line rd) list_id name lines c).0

All-snoc {κ} :
    (P : BuildRule → Type κ) (brs : List BuildRule) (br : BuildRule)
    → All P brs
    → P br
    → All P (brs ++ br ∷ [])
All-snoc P [] br h k = (k, tt)
All-snoc P (b ∷ brs) br h k = (h.0, All-snoc P brs br h.1 k)

module _ (rd : Reading) (x : External) (globs : MatchesGlobs x) (domain : Bytes)
    (ascii : IsAscii domain) where
  add_parsed-IsParsed :
      (list_id : ℕ) (brs : List BuildRule) (c : Compiler) (stats : ListStats)
      → All (IsParsed x domain) brs
      → All (IsParsed x domain) c.rules
      → All (IsParsed x domain) (add_parsed list_id brs (c, stats)).0.rules
  unfolding add_parsed
  add_parsed-IsParsed list_id [] c stats h k = k
  add_parsed-IsParsed list_id (br ∷ brs) c stats h k = elim (Bool-cases br.badfilter) [
    | inl names ↦ rw names (add_parsed-IsParsed list_id brs _ stats h.1 k)
    | inr stays ↦ rw stays (
        add_parsed-IsParsed list_id brs _ _ h.1 (
          All-snoc (IsParsed x domain) c.rules _ k
            (record { has_tokens = h.0.has_tokens; has_answer = h.0.has_answer })))
  ]

  add_line-IsParsed :
      (list_id : ℕ) (parsed : Parsed) (state : Compiler × ListStats)
      → Rules (IsParsed x domain) parsed
      → All (IsParsed x domain) state.0.rules
      → All (IsParsed x domain) (add_line list_id parsed state).0.rules
  unfolding add_line
  add_line-IsParsed list_id (Parsed.rules brs) (c, stats) h k =
      add_parsed-IsParsed list_id brs c stats h k
  add_line-IsParsed list_id Parsed.ignored state h k = k
  add_line-IsParsed list_id Parsed.unsupported (c, stats) h k = k
  add_line-IsParsed list_id Parsed.error (c, stats) h k = k

  add_lines-IsParsed :
      (list_id : ℕ) (lines : List Bytes) (state : Compiler × ListStats)
      → All IsAscii lines
      → All (IsParsed x domain) state.0.rules
      → All (IsParsed x domain) (add_lines (parse_line rd) list_id lines state).0.rules
  unfolding add_lines
  add_lines-IsParsed list_id [] state h k = k
  add_lines-IsParsed list_id (line ∷ lines) state h k =
      add_lines-IsParsed list_id lines (add_line list_id (parse_line rd line) state) h.1 (
        add_line-IsParsed list_id (parse_line rd line) state
          (parse_line-IsParsed rd x globs domain ascii line h.0) k)

  pub Built-IsParsed : (c : Compiler) → Built rd c → All (IsParsed x domain) c.rules
  unfolding add_list
  Built-IsParsed _ fresh = tt
  Built-IsParsed _ (added c list_id name lines h b) =
      add_lines-IsParsed list_id lines _ h (Built-IsParsed c b)

dedup_rules-In :
    (seen : List Bytes) (brs : List BuildRule) (br : BuildRule)
    → In br (dedup_rules seen brs)
    → In br brs
unfolding dedup_rules
dedup_rules-In seen [] br m = m
dedup_rules-In seen (b ∷ brs) br m = elim (Bool-cases (contains_text seen b.signature)) [
  | inl again ↦ there (dedup_rules-In seen brs br (rw again at m))
  | inr first ↦ elim (rw first at m) [
    | here e ↦ here e
    | there n ↦ there (dedup_rules-In (b.signature ∷ seen) brs br n)
  ]
]

pub prune_redundant-In :
    (active : List BuildRule) (br : BuildRule) → In br (prune_redundant active) → In br active
unfolding prune_redundant
prune_redundant-In active br m = elim (Bool-cases (is_empty (subsumers active))) [
  | inl no_subsumer ↦ rw no_subsumer at m
  | inr some_subsumer ↦ keep_if-In _ active br (rw some_subsumer at m)
]

pub active_rules-In : (c : Compiler) (br : BuildRule) → In br (active_rules c) → In br c.rules
unfolding active_rules
active_rules-In c br m = keep_if-In _ c.rules br (dedup_rules-In [] _ br m)

-- ===== src/Filter/Compiler.antt =====
-- crates/bulwark-filter/src/list.rs: what `Compiler` does with the rules that the parser returns.
-- The parser is the parameter `parse_line`; a hash set of texts is the list of its members.
use bulwark.Common.{
  ℕ, zero, suc, Bool, true, false, not, ◌&&◌, ◌||◌, Option, none, some, List, [], ◌∷◌, ◌++◌,
  if◌then◌else◌, is_some, length, keep_if,
}
use bulwark.Common.Bytes.{Bytes}
use bulwark.Filter.Rule.{
  Action, block, allow, rewrite, Pattern, Rule, BuildRule, contains_text, is_empty,
}
use bulwark.Filter.External.{External}
use bulwark.Filter.Engine.{after_dot}
use bulwark.Filter.Engine.Builder.{FilterEngine, from_rules}

pub record ListStats : Type 0 where
  pub list_id : ℕ
  pub name : Bytes
  pub rules : ℕ
  pub unsupported : ℕ
  pub errors : ℕ

-- `Result<Parsed, ParseError>`
pub data Parsed : Type 0 where
  rules : List BuildRule → Parsed
  ignored unsupported error : Parsed

pub record Compiler : Type 0 where
  pub rules : List BuildRule
  pub badfilter_sigs : List Bytes
  pub stats : List ListStats

abbrev pub new : Compiler
new = record { rules = []; badfilter_sigs = []; stats = [] }

-- A rule of a line: it gets the list's id, and a `$badfilter` one leaves its signature only.
unfoldable pub add_parsed : ℕ → List BuildRule → Compiler × ListStats → Compiler × ListStats
add_parsed list_id [] state = state
add_parsed list_id (br ∷ brs) (c, stats) =
    let owned = record br { rule = record br.rule { list_id = list_id } } in
    add_parsed list_id brs (
      if br.badfilter
      then (record c { badfilter_sigs = br.signature ∷ c.badfilter_sigs }, stats)
      else (record c { rules = c.rules ++ owned ∷ [] }, record stats { rules = suc stats.rules }))

unfoldable pub add_line : ℕ → Parsed → Compiler × ListStats → Compiler × ListStats
unfolding add_parsed
add_line list_id (Parsed.rules brs) state = add_parsed list_id brs state
add_line list_id Parsed.ignored state = state
add_line list_id Parsed.unsupported (c, stats) =
    (c, record stats { unsupported = suc stats.unsupported })
add_line list_id Parsed.error (c, stats) = (c, record stats { errors = suc stats.errors })

unfoldable pub add_lines :
    (Bytes → Parsed) → ℕ → List Bytes → Compiler × ListStats → Compiler × ListStats
unfolding add_line
add_lines parse_line list_id [] state = state
add_lines parse_line list_id (line ∷ lines) state =
    add_lines parse_line list_id lines (add_line list_id (parse_line line) state)

-- `add_list`, on the lines of the text
unfoldable pub add_list :
    (Bytes → Parsed) → ℕ → Bytes → List Bytes → Compiler → Compiler × ListStats
unfolding add_lines
add_list parse_line list_id name lines c =
    let (c', stats) =
      add_lines parse_line list_id lines
        (c, record { list_id = list_id; name = name; rules = 0; unsupported = 0; errors = 0 }) in
    (record c' { stats = c'.stats ++ stats ∷ [] }, stats)

-- `seen.insert(r.signature.clone())`, as a filter: the first rule of each signature stays.
unfoldable pub dedup_rules : List Bytes → List BuildRule → List BuildRule
unfolding contains_text
dedup_rules seen [] = []
dedup_rules seen (br ∷ brs) =
    let rest = dedup_rules seen brs in
    let rest_new = dedup_rules (br.signature ∷ seen) brs in
    if contains_text seen br.signature then rest else br ∷ rest_new

abbrev pub is_block : Action → Bool
is_block block = true
is_block allow = false
is_block rewrite = false

-- `action == Block && mods.is_none()`
unfoldable pub is_plain_block : Rule → Bool
is_plain_block r = is_block r.action && not (is_some r.mods)

abbrev pub subdomain_of : Pattern → Option Bytes
subdomain_of (Pattern.subdomain d) = some d
subdomain_of (Pattern.exact d) = none
subdomain_of (Pattern.wildcard re) = none
subdomain_of (Pattern.regex re) = none

unfoldable pub subsumer : Rule → Option Bytes
unfolding is_plain_block
subsumer r = if is_plain_block r then subdomain_of r.pattern else none

unfoldable pub subsumers : List BuildRule → List Bytes
unfolding subsumer
subsumers [] = []
subsumers (br ∷ brs) = elim (subsumer br.rule) [ none ↦ subsumers brs | some d ↦ d ∷ subsumers brs ]

-- The loop of `is_redundant` over what follows each dot; the length of the domain is enough fuel.
unfoldable pub ancestor_in : List Bytes → ℕ → Bytes → Bool
unfolding after_dot contains_text
ancestor_in subs zero rest = false
ancestor_in subs (suc fuel) rest = elim (after_dot rest) [
  | none ↦ false
  | some parent ↦ contains_text subs parent || ancestor_in subs fuel parent
]

-- The domain of a pattern that can be redundant, and whether it may itself be a subsumer.
abbrev pub own_domain : Pattern → Option (Bytes × Bool)
own_domain (Pattern.subdomain d) = some (d, false)
own_domain (Pattern.exact d) = some (d, true)
own_domain (Pattern.wildcard re) = none
own_domain (Pattern.regex re) = none

unfoldable pub is_redundant : List Bytes → BuildRule → Bool
unfolding is_plain_block ancestor_in
is_redundant subs br =
    if not (is_plain_block br.rule) then false else elim (own_domain br.rule.pattern) [
      | none ↦ false
      | some (d, include_self) ↦
          (include_self && contains_text subs d) || ancestor_in subs (length d) d
    ]

unfoldable pub prune_redundant : List BuildRule → List BuildRule
unfolding subsumers is_redundant
prune_redundant active =
    if is_empty (subsumers active)
    then active
    else keep_if (λ br. not (is_redundant (subsumers active) br)) active

-- The rules that `build` compiles: without those that a `$badfilter` names, without repeats.
unfoldable pub active_rules : Compiler → List BuildRule
unfolding dedup_rules contains_text
active_rules c =
    dedup_rules [] (keep_if (λ br. not (contains_text c.badfilter_sigs br.signature)) c.rules)

-- `Compiler::build`
unfoldable pub compile : External → Compiler → FilterEngine × List ListStats
unfolding active_rules prune_redundant
compile x c = (from_rules x (prune_redundant (active_rules c)), c.stats)

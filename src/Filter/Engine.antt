-- ===== src/Filter/Engine.antt =====
-- crates/bulwark-filter/src/engine.rs, `FilterEngine`: building it from rules, and a query's verdict.
-- Texts are bytes, arenas are lists of bytes; an index or a span that the source keeps in a narrower
-- type is cut to it where the source casts.
pub mod Builder
use bulwark.Common.{
  ℕ, zero, suc, ◌+◌, ◌-◌, ◌%◌, ◌^◌, min, Bool, true, false, not, ◌&&◌, ◌||◌, Option, none, some,
  List, [], ◌∷◌, ◌++◌, map, ltb, leb, ◌==◌, if◌then◌else◌, ◌>>=◌, is_some, unwrap_or, length,
  get_elem?, take, drop, any,
}
use bulwark.Common.Bytes.{Bytes, bytes_eq, to_ascii_lowercase}
use bulwark.Filter.Rule.{
  Action, block, allow, rewrite, Pattern, dnstype_matches, ClientInfo, client_matches, ctag_matches,
  RewriteData, RuleMods, BuildRule, base_priority, is_important, is_empty,
}
use bulwark.Filter.External.{External}
use bulwark.Filter.Index.{DomainIndex, build, get, index_is_empty}
use bulwark.Filter.Scan.{
  Kind, exact, subdomain, wildcard, regex, RuleRecord, ScanGroup, scan_is_empty, build_scan_group,
  scan_group,
}
use bulwark.Filter.Token.{query_tokens}
use bulwark.Filter.Engine.Builder.{
  no_mods, MatchInfo, Verdict, allowed, blocked, rewritten, panic, FilterEngine, is_subdomain_of,
}

-- `raw`, `domain`, `mods_of`
unfoldable pub raw : FilterEngine → RuleRecord → Bytes
raw e r = take r.raw_len (drop r.raw_start e.raw_arena)

unfoldable pub domain_of : FilterEngine → RuleRecord → Bytes
domain_of e r = take r.dom_len (drop r.dom_or_re e.domain_arena)

unfoldable pub mods_of : FilterEngine → RuleRecord → Option RuleMods
mods_of e r = if r.mods_idx == no_mods then none else get_elem? e.mods r.mods_idx

abbrev kind_matches : FilterEngine → RuleRecord → Bytes → Kind → Bool
kind_matches e r domain exact = bytes_eq (domain_of e r) domain
kind_matches e r domain subdomain = is_subdomain_of domain (domain_of e r)
kind_matches e r domain wildcard = true
kind_matches e r domain regex = true

unfoldable pub domain_matches : FilterEngine → RuleRecord → Bytes → Bool
domain_matches e r domain = kind_matches e r domain r.kind

unfoldable pub priority : FilterEngine → RuleRecord → ℕ
unfolding mods_of
priority e r = base_priority r.action + (if is_important (mods_of e r) then 100 else 0)

-- `hay.find('.')`, and the text behind it
unfoldable pub after_dot : Bytes → Option Bytes
after_dot [] = none
after_dot (c ∷ hay) = if c == b'.' then some hay else after_dot hay

-- The loop of `collect_domain` over the domain and what follows each of its dots.
unfoldable pub suffix_hits : External → DomainIndex → ℕ → Bytes → List ℕ
unfolding after_dot
suffix_hits x index zero hay = []
suffix_hits x index (suc fuel) hay =
    get index (x.hash_one hay)
    ++ (elim (after_dot hay) [ none ↦ [] | some rest ↦ suffix_hits x index fuel rest ])

unfoldable pub collect_domain : External → FilterEngine → Bytes → List ℕ
unfolding suffix_hits
collect_domain x e domain =
    (if index_is_empty e.exact_index then [] else get e.exact_index (x.hash_one domain))
    ++ (if index_is_empty e.subdomain_index
        then []
        else suffix_hits x e.subdomain_index (suc (length domain)) domain)

abbrev option_matches {ℓ} : {A : Type ℓ} → (A → Bool) → Option A → Bool
option_matches f none = true
option_matches f (some a) = f a

abbrev denied : Action → List Bytes → Bytes → Bool
denied allow denyallow domain = false
denied block denyallow domain = any (is_subdomain_of domain) denyallow
denied rewrite denyallow domain = any (is_subdomain_of domain) denyallow

-- A query: the normalised domain, the record type and the client.
pub record Query : Type 0 where
  pub domain : Bytes
  pub rtype : Bytes
  pub client : ClientInfo

unfoldable pub mods_apply : External → Action → RuleMods → Query → Bool
mods_apply x action m q =
    if not (option_matches (λ f. dnstype_matches f q.rtype) m.dnstype)
    then false
    else if not (option_matches (λ f. client_matches x.contains f q.client) m.client)
    then false
    else if not (option_matches (λ f. ctag_matches f q.client.tags) m.ctag)
    then false
    else if denied action m.denyallow q.domain
    then false
    else true

unfoldable pub applicable : External → FilterEngine → RuleRecord → Query → Bool
unfolding mods_of
applicable x e r q = elim (mods_of e r) [ none ↦ true | some m ↦ mods_apply x r.action m q ]

-- `consider`: the best rule so far, with its priority.
unfoldable pub better : ℕ → ℕ → Option (ℕ × ℕ) → Option (ℕ × ℕ)
better id prio none = some (id, prio)
better id prio (some (best, best_prio)) =
    if ltb best_prio prio then some (id, prio) else some (best, best_prio)

unfoldable pub consider_one : External → FilterEngine → Query → ℕ → Option (ℕ × ℕ) → Option (ℕ × ℕ)
unfolding better
consider_one x e q id best = elim (get_elem? e.rules id) [
  | none ↦ best
  | some r ↦
      if not (domain_matches e r q.domain) || not (applicable x e r q)
      then best
      else better id (priority e r) best
]

unfoldable pub consider : External → FilterEngine → Query → List ℕ → Option (ℕ × ℕ) → Option (ℕ × ℕ)
unfolding consider_one
consider x e q [] best = best
consider x e q (id ∷ ids) best = consider x e q ids (consider_one x e q id best)

abbrev pub domain_candidates : External → FilterEngine → Query → List ℕ
domain_candidates x e q =
    collect_domain x e q.domain ++ scan_group x e.rules e.regexes e.override_scan q.domain []

abbrev pub block_candidates : External → FilterEngine → Query → List ℕ
block_candidates x e q =
    scan_group x e.rules e.regexes e.block_scan q.domain
      (if is_empty e.block_scan.scan_index then [] else query_tokens q.domain)

-- The two phases of `check`: the plain blocks are scanned only if nothing else applies.
unfoldable pub find_best : External → FilterEngine → Query → Option (ℕ × ℕ)
unfolding consider
find_best x e q = elim (consider x e q (domain_candidates x e q) none) [
  | some best ↦ some best
  | none ↦ if scan_is_empty e.block_scan then none else consider x e q (block_candidates x e q) none
]

unfoldable pub trim_dots : Bytes → Bytes
trim_dots [] = []
trim_dots (c ∷ s) = elim (trim_dots s) [ [] ↦ if c == b'.' then [] else c ∷ [] | d ∷ t ↦ c ∷ d ∷ t ]

abbrev pub ends_with_dot : Bytes → Bool
ends_with_dot [] = false
ends_with_dot (c ∷ []) = c == b'.'
ends_with_dot (c ∷ d ∷ s) = ends_with_dot (d ∷ s)

abbrev pub is_ascii_uppercase : ℕ → Bool
is_ascii_uppercase c = leb 65 c && leb c 90

unfoldable pub normalize : Bytes → Bytes
unfolding trim_dots
normalize domain =
    if any is_ascii_uppercase domain || ends_with_dot domain
    then map to_ascii_lowercase (trim_dots domain)
    else domain

abbrev pub verdict_of : FilterEngine → RuleRecord → MatchInfo → Action → Verdict
verdict_of e r info allow = allowed (some info)
verdict_of e r info block = blocked info
verdict_of e r info rewrite = elim (mods_of e r >>= λ m. m.rewrite) [
  | none ↦ panic
  | some rw_data ↦ rewritten info rw_data
]

-- The verdict for the rule with the given id.
unfoldable pub report : FilterEngine → ℕ → Verdict
unfolding raw mods_of
report e id = elim (get_elem? e.rules id) [
  | none ↦ panic
  | some r ↦ verdict_of e r (record { rule = raw e r; list_id = r.list_id; rule_id = id }) r.action
]

unfoldable pub check : External → FilterEngine → Bytes → Bytes → ClientInfo → Verdict
unfolding normalize find_best report
check x e domain rtype client =
    elim (find_best x e (record { domain = normalize domain; rtype = rtype; client = client })) [
      | none ↦ allowed none
      | some (id, prio) ↦ report e id
    ]

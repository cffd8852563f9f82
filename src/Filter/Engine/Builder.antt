-- ===== src/Filter/Engine/Builder.antt =====
-- engine.rs: `FilterEngine::from_rules` and what it builds.
use bulwark.Common.{
  ℕ, ◌-◌, ◌%◌, ◌^◌, min, Bool, true, false, ◌&&◌, ◌||◌, Option, none, some, List, [], ◌∷◌, ◌++◌,
  ltb, ◌==◌, if◌then◌else◌, is_some, unwrap_or, length, get_elem?, drop,
}
use bulwark.Common.Bytes.{Bytes, bytes_eq}
use bulwark.Filter.Rule.{
  Action, block, allow, rewrite, Pattern, RewriteData, RuleMods, BuildRule, is_important,
}
use bulwark.Filter.External.{External}
use bulwark.Filter.Index.{DomainIndex, build}
use bulwark.Filter.Scan.{
  Kind, exact, subdomain, wildcard, regex, RuleRecord, ScanGroup, build_scan_group,
}

abbrev pub no_mods : ℕ
no_mods = 4294967295

pub record MatchInfo : Type 0 where
  pub rule : Bytes
  pub list_id : ℕ
  pub rule_id : ℕ

pub data Verdict : Type 0 where
  allowed : Option MatchInfo → Verdict
  blocked : MatchInfo → Verdict
  rewritten : MatchInfo → RewriteData → Verdict
  -- `expect("rewrite rule must carry rewrite data")` fails
  panic : Verdict

unfoldable pub is_blocked : Verdict → Bool
is_blocked (blocked info) = true
is_blocked (allowed info) = false
is_blocked (rewritten info rw_data) = false
is_blocked panic = false

pub record FilterEngine : Type 0 where
  pub rules : List RuleRecord
  pub raw_arena : Bytes
  pub domain_arena : Bytes
  pub mods : List RuleMods
  pub regexes : List Bytes
  pub exact_index : DomainIndex
  pub subdomain_index : DomainIndex
  pub override_scan : ScanGroup
  pub block_scan : ScanGroup
  pub has_client_dependent_rules : Bool
  pub content_hash : ℕ

-- `domain.ends_with(base)` behind a dot
unfoldable pub ends_with_label : Bytes → Bytes → Bool
ends_with_label domain base =
    ltb (length base) (length domain)
    && bytes_eq (drop (length domain - length base) domain) base
    && unwrap_or (get_elem? domain (length domain - length base - 1)) 0 == b'.'

unfoldable pub is_subdomain_of : Bytes → Bytes → Bool
unfolding ends_with_label
is_subdomain_of domain base = bytes_eq domain base || ends_with_label domain base

-- What the loop of `from_rules` has gathered.
pub record Build : Type 0 where
  pub records : List RuleRecord
  pub raw_arena : Bytes
  pub domain_arena : Bytes
  pub mods : List RuleMods
  pub regexes : List Bytes
  pub exact_pairs : List (ℕ × ℕ)
  pub sub_pairs : List (ℕ × ℕ)
  pub override_meta : List (ℕ × List ℕ)
  pub block_meta : List (ℕ × List ℕ)
  pub client_dependent : Bool
  pub hashed : List (Bytes × ℕ × Action)

abbrev pub empty_build : Build
empty_build = record {
  records = [];
  raw_arena = [];
  domain_arena = [];
  mods = [];
  regexes = [];
  exact_pairs = [];
  sub_pairs = [];
  override_meta = [];
  block_meta = [];
  client_dependent = false;
  hashed = [];
}

abbrev pub depends_on_client : RuleMods → Bool
depends_on_client m = is_some m.client || is_some m.ctag

-- `action == Action::Allow`
abbrev pub is_allow : Action → Bool
is_allow allow = true
is_allow block = false
is_allow rewrite = false

-- The modifiers of a rule: pushed, with the index that the record keeps.
unfoldable pub add_mods : Option RuleMods → Build → Build × ℕ
add_mods none b = (b, no_mods)
add_mods (some m) b = (
  record b {
    mods = b.mods ++ m ∷ [];
    client_dependent = b.client_dependent || depends_on_client m;
  },
  length b.mods % 2 ^ 32,
)

pub record Placed : Type 0 where
  pub build : Build
  pub kind : Kind
  pub dom_or_re : ℕ
  pub dom_len : ℕ

-- A wildcard or regex goes to the scan that runs first if it can override a plain block.
unfoldable pub place_regex : Kind → Bytes → Bool → List ℕ → ℕ → Build → Placed
place_regex kind re override_capable tokens id b = record {
  build =
      (if override_capable
        then record b {
          regexes = b.regexes ++ re ∷ [];
          override_meta = b.override_meta ++ (id, tokens) ∷ [];
        }
        else record b {
          regexes = b.regexes ++ re ∷ [];
          block_meta = b.block_meta ++ (id, tokens) ∷ [];
        });
  kind = kind;
  dom_or_re = length b.regexes % 2 ^ 32;
  dom_len = 0;
}

unfoldable pub place : External → Pattern → Bool → List ℕ → ℕ → Build → Placed
unfolding place_regex
place x (Pattern.exact d) override_capable tokens id b = record {
  build = record b {
    exact_pairs = b.exact_pairs ++ (x.hash_one d, id) ∷ [];
    domain_arena = b.domain_arena ++ d;
  };
  kind = exact;
  dom_or_re = length b.domain_arena % 2 ^ 32;
  dom_len = length d % 256;
}
place x (Pattern.subdomain d) override_capable tokens id b = record {
  build = record b {
    sub_pairs = b.sub_pairs ++ (x.hash_one d, id) ∷ [];
    domain_arena = b.domain_arena ++ d;
  };
  kind = subdomain;
  dom_or_re = length b.domain_arena % 2 ^ 32;
  dom_len = length d % 256;
}
place x (Pattern.wildcard re) override_capable tokens id b =
    place_regex wildcard re override_capable tokens id b
place x (Pattern.regex re) override_capable tokens id b =
    place_regex regex re override_capable tokens id b

-- One round of the loop of `from_rules`.
unfoldable pub add_rule : External → Build → BuildRule → Build
unfolding add_mods place
add_rule x b br =
    let rule = br.rule in
    let id = length b.records % 2 ^ 32 in
    let hashed = record b {
      hashed = b.hashed ++ (rule.raw, rule.list_id, rule.action) ∷ [];
      raw_arena = b.raw_arena ++ rule.raw;
    } in
    let with_mods = add_mods rule.mods hashed in
    let placed =
      place x rule.pattern (is_allow rule.action || is_important rule.mods) br.index_tokens id
        with_mods.0 in
    record placed.build {
      records =
          placed.build.records
          ++ record {
            raw_start = length b.raw_arena % 2 ^ 32;
            dom_or_re = placed.dom_or_re;
            mods_idx = with_mods.1;
            raw_len = min (length rule.raw) 65535;
            list_id = rule.list_id % 2 ^ 16;
            dom_len = placed.dom_len;
            action = rule.action;
            kind = placed.kind;
          }
            ∷ [];
    }

unfoldable pub gather : External → Build → List BuildRule → Build
unfolding add_rule
gather x b [] = b
gather x b (br ∷ rules) = gather x (add_rule x b br) rules

unfoldable pub from_rules : External → List BuildRule → FilterEngine
unfolding gather
from_rules x rules =
    let b = gather x empty_build rules in
    record {
      rules = b.records;
      raw_arena = b.raw_arena;
      domain_arena = b.domain_arena;
      mods = b.mods;
      regexes = b.regexes;
      exact_index = build x.sort_by_key b.exact_pairs;
      subdomain_index = build x.sort_by_key b.sub_pairs;
      override_scan = build_scan_group x b.override_meta b.records b.regexes false;
      block_scan = build_scan_group x b.block_meta b.records b.regexes true;
      has_client_dependent_rules = b.client_dependent;
      content_hash = x.hash_content b.hashed;
    }

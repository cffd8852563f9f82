-- ===== src/Filter/Rule.antt =====
-- crates/bulwark-filter/src/rule.rs. A regex is known by its source text (`Regex::as_str`).
use bulwark.Common.{
  ℕ, ◌+◌, Bool, true, false, not, ◌&&◌, Option, none, some, List, [], ◌∷◌, if◌then◌else◌, ◌>>=◌,
  is_some, any,
}
use bulwark.Common.Bytes.{Bytes, bytes_eq}
use bulwark.Net.{IpAddr, IpNet, ip_eq}

pub data Action : Type 0 where
  block allow rewrite : Action

pub data Pattern : Type 0 where
  subdomain : Bytes → Pattern
  exact : Bytes → Pattern
  wildcard : Bytes → Pattern
  regex : Bytes → Pattern

-- The indexable domain, and whether it stands for its subdomains too.
unfoldable pub index_key : Pattern → Option (Bytes × Bool)
index_key (subdomain d) = some (d, true)
index_key (exact d) = some (d, false)
index_key (wildcard re) = none
index_key (regex re) = none

-- `xs.iter().any(|x| x == t)`
unfoldable pub contains_text : List Bytes → Bytes → Bool
contains_text xs t = any (λ x. bytes_eq x t) xs

pub record DnsTypeFilter : Type 0 where
  pub include : List Bytes
  pub exclude : List Bytes

abbrev pub is_empty {ℓ} : {A : Type ℓ} → List A → Bool
is_empty [] = true
is_empty (x ∷ xs) = false

unfoldable pub dnstype_matches : DnsTypeFilter → Bytes → Bool
unfolding contains_text
dnstype_matches f rtype =
    if not (is_empty f.exclude) && contains_text f.exclude rtype
    then false
    else if not (is_empty f.include)
    then contains_text f.include rtype
    else true

pub data ClientMatch : Type 0 where
  ip : IpAddr → ClientMatch
  net : IpNet → ClientMatch
  name : Bytes → ClientMatch

pub record ClientFilter : Type 0 where
  pub include : List ClientMatch
  pub exclude : List ClientMatch

pub record ClientInfo : Type 0 where
  pub ip : Option IpAddr
  pub name : Option Bytes
  pub tags : List Bytes

unfoldable pub entry_matches : (IpNet → IpAddr → Bool) → ClientMatch → ClientInfo → Bool
entry_matches contains (ip a) client = elim client.ip [ none ↦ false | some b ↦ ip_eq b a ]
entry_matches contains (net n) client = elim client.ip [ none ↦ false | some b ↦ contains n b ]
entry_matches contains (name n) client = elim client.name [ none ↦ false | some m ↦ bytes_eq m n ]

unfoldable pub client_matches : (IpNet → IpAddr → Bool) → ClientFilter → ClientInfo → Bool
unfolding entry_matches
client_matches contains f client =
    if any (λ m. entry_matches contains m client) f.exclude
    then false
    else if not (is_empty f.include)
    then any (λ m. entry_matches contains m client) f.include
    else true

pub record CtagFilter : Type 0 where
  pub include : List Bytes
  pub exclude : List Bytes

unfoldable pub ctag_matches : CtagFilter → List Bytes → Bool
unfolding contains_text
ctag_matches f tags =
    if any (contains_text tags) f.exclude
    then false
    else if not (is_empty f.include)
    then any (contains_text tags) f.include
    else true

pub data RewriteRcode : Type 0 where
  no_error nx_domain refused serv_fail : RewriteRcode

pub data RewriteData : Type 0 where
  a : ℕ → RewriteData
  aaaa : ℕ → RewriteData
  cname : Bytes → RewriteData
  txt : Bytes → RewriteData
  mx : ℕ → Bytes → RewriteData
  ptr : Bytes → RewriteData
  rcode : RewriteRcode → RewriteData

pub record RuleMods : Type 0 where
  pub important : Bool
  pub dnstype : Option DnsTypeFilter
  pub client : Option ClientFilter
  pub ctag : Option CtagFilter
  pub denyallow : List Bytes
  pub rewrite : Option RewriteData

-- `RuleMods::default`
abbrev pub no_modifiers : RuleMods
no_modifiers = record {
  important = false;
  dnstype = none;
  client = none;
  ctag = none;
  denyallow = [];
  rewrite = none;
}

-- `RuleMods::is_empty`
unfoldable pub mods_is_empty : RuleMods → Bool
mods_is_empty m =
    not m.important
    && not (is_some m.dnstype)
    && not (is_some m.client)
    && not (is_some m.ctag)
    && is_empty m.denyallow
    && not (is_some m.rewrite)

pub record Rule : Type 0 where
  pub id : ℕ
  pub raw : Bytes
  pub action : Action
  pub pattern : Pattern
  pub mods : Option RuleMods
  pub list_id : ℕ

pub record BuildRule : Type 0 where
  pub rule : Rule
  pub badfilter : Bool
  pub signature : Bytes
  pub index_tokens : List ℕ

abbrev pub is_important : Option RuleMods → Bool
is_important none = false
is_important (some m) = m.important

abbrev pub base_priority : Action → ℕ
base_priority allow = 2
base_priority block = 1
base_priority rewrite = 1

-- `Rule::priority`
unfoldable pub rule_priority : Rule → ℕ
rule_priority r = base_priority r.action + (if is_important r.mods then 100 else 0)

-- `Rule::rewrite`
unfoldable pub rule_rewrite : Rule → Option RewriteData
rule_rewrite r = r.mods >>= λ m. m.rewrite

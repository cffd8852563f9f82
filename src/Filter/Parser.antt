-- ===== src/Filter/Parser.antt =====
-- crates/bulwark-filter/src/parser.rs: one line of a list to rules.
pub mod Patterns
pub mod Hosts
pub mod Modifiers
use bulwark.Common.{
  ℕ, zero, suc, ◌+◌, ◌-◌, ◌*◌, ◌/◌, ◌%◌, ◌^◌, ◌≤◌, ◌<◌, min, max, ◌≡◌, refl, sym, ap, ap₂, subst,
  ◌∙◌, fun_ext, ◌≢◌, ◌↔◌, ◌⊎◌, inl, inr, Bool, true, false, not, ◌&&◌, ◌||◌, Option, none, some,
  List, [], ◌∷◌, ◌++◌, map, append-nil, append_assoc, arith, ltb, leb, ◌==◌, if◌then◌else◌, ltb→lt,
  lt→ltb, leb→le, le→leb, ==_iff, Bool-cases, Option-cases, ◌>>=◌, ◌>>◌, guard, >>=-eq-some,
  guard-eq-some, is_some, unwrap_or, length, get_elem?, set, get_or, take, drop, any, all, keep_if,
  All, In, here, there, length-append, length-set, get_elem?-set_self, get_elem?-set_ne,
  get_elem?-lt-length, length-take, length-drop, take-append_self, drop-append_self, drop-drop,
  get_elem?-drop, In-append_left, In-append_right, All-In, get_elem?-append_left,
  get_elem?-append_length, take-append_left, span-append_left, take-length, In-append, get_elem?-In,
  In-get_elem?, In-map, some_injective,
}
use bulwark.Common.Bytes.{Bytes, bytes_eq, codes, is_ascii_alphanumeric}
use bulwark.Net.{IpAddr, v4, v6}
use bulwark.Filter.Text.{
  trim, trim_end_matches, lowercase, split_on, split_once, split_whitespace, starts_with,
  strip_prefix, strip_suffix, contains_byte, find_text, sort_texts, join,
}
use bulwark.Filter.Rule.{
  Action, block, allow, rewrite, Pattern, RuleMods, no_modifiers, mods_is_empty, Rule, BuildRule,
  contains_text, is_empty,
}
use bulwark.Filter.Token.{tokenize_pattern_safe}
use bulwark.Filter.Compiler.{Parsed}
use bulwark.Filter.Parser.Modifiers.{
  Reading, norm_domain, not_empty, ip_rewrite, parse_dnstype, parse_client, parse_ctag,
  parse_denyallow, parse_dnsrewrite,
}
use bulwark.Filter.Parser.Hosts.{ip_literal, is_cosmetic, is_dns_hostname, try_parse_hosts}
use bulwark.Filter.Parser.Patterns.{parse_pattern}

-- `split_modifiers`
unfoldable pub split_modifiers : Bytes → Bytes × Option Bytes
split_modifiers s =
    if starts_with s (b'/' ∷ [])
    then elim (find_text (codes "/$") s) [
      | some idx ↦ (take (idx + 1) s, some (drop (idx + 2) s))
      | none ↦ (s, none)
    ]
    else elim (split_once b'$' s) [ some (front, mods) ↦ (front, some mods) | none ↦ (s, none) ]

abbrev is_signed : Bytes → Bool
is_signed s = not_empty s && not (bytes_eq s (codes "badfilter"))

abbrev signature_prefix : Action → Bytes
signature_prefix allow = codes "@@"
signature_prefix block = []
signature_prefix rewrite = []

unfoldable pub make_signature : Action → Bytes → Option Bytes → Bytes
make_signature action pattern mods =
    let parts : List Bytes = elim mods [
      | none ↦ []
      | some m ↦ keep_if is_signed (map trim (split_on b',' m))
    ] in
    signature_prefix action
    ++ (lowercase pattern ++ (codes "|$" ++ join (b',' ∷ []) (sort_texts parts)))

-- What the loop over the modifiers has read.
pub record Reads : Type 0 where
  pub mods : RuleMods
  pub badfilter : Bool
  pub action : Action

pub data ModifierResult : Type 0 where
  next : Reads → ModifierResult
  unknown bad : ModifierResult

abbrev pub read_or_bad {ℓ} : {A : Type ℓ} → Option A → (A → Reads) → ModifierResult
read_or_bad none f = bad
read_or_bad (some v) f = next (f v)

abbrev pub rewriting : Action → Action
rewriting block = rewrite
rewriting allow = allow
rewriting rewrite = rewrite

-- One modifier by its key.
unfoldable pub read_modifier : Reading → Bytes → Bytes → Reads → ModifierResult
read_modifier rd key value r =
    if bytes_eq key (codes "important")
    then next (record r { mods = record r.mods { important = true } })
    else if bytes_eq key (codes "badfilter")
    then next (record r { badfilter = true })
    else if bytes_eq key (codes "dnstype")
    then read_or_bad (parse_dnstype value)
        (λ v. record r { mods = record r.mods { dnstype = some v } })
    else if bytes_eq key (codes "client")
    then read_or_bad (parse_client rd value)
        (λ v. record r { mods = record r.mods { client = some v } })
    else if bytes_eq key (codes "ctag")
    then read_or_bad (parse_ctag value) (λ v. record r { mods = record r.mods { ctag = some v } })
    else if bytes_eq key (codes "denyallow")
    then read_or_bad (parse_denyallow value)
        (λ v. record r { mods = record r.mods { denyallow = v } })
    else if bytes_eq key (codes "dnsrewrite")
    then read_or_bad (parse_dnsrewrite rd value)
        (λ v. record r { mods = record r.mods { rewrite = some v }; action = rewriting r.action })
    else unknown

-- `tok.split_once('=')`, the value empty where there is none
unfoldable pub key_value : Bytes → Bytes × Bytes
key_value tok = elim (split_once b'=' tok) [ none ↦ (tok, []) | some (k, v) ↦ (k, v) ]

unfoldable pub read_modifiers : Reading → List Bytes → Reads → ModifierResult
read_modifiers rd [] r = next r
read_modifiers rd (raw ∷ toks) r =
    let tok = trim raw in
    if is_empty tok
    then read_modifiers rd toks r
    else elim (read_modifier rd (key_value tok).0 (key_value tok).1 r) [
      | next r' ↦ read_modifiers rd toks r'
      | unknown ↦ unknown
      | bad ↦ bad
    ]

abbrev pub action_prefix : Bytes → Action × Bytes
action_prefix line = elim (strip_prefix (codes "@@") line) [
  | some rest ↦ (allow, rest)
  | none ↦ (block, line)
]

-- The rule of a line whose modifiers are read.
unfoldable pub adblock_rule : Bytes → Bytes → Pattern → List ℕ → Reads → BuildRule
adblock_rule line signature pattern index_tokens r = record {
  rule = record {
    id = 0;
    raw = line;
    action = r.action;
    pattern = pattern;
    mods = (if mods_is_empty r.mods then none else some r.mods);
    list_id = 0;
  };
  badfilter = r.badfilter;
  signature = signature;
  index_tokens = index_tokens;
}

-- The line, by what the loop over its modifiers comes to.
unfoldable pub read_rule : Bytes → Bytes → Pattern → List ℕ → ModifierResult → Parsed
read_rule line signature pattern index_tokens (next r) =
    Parsed.rules (adblock_rule line signature pattern index_tokens r ∷ [])
read_rule line signature pattern index_tokens unknown = Parsed.unsupported
read_rule line signature pattern index_tokens bad = Parsed.error

abbrev pub modifier_tokens : Option Bytes → List Bytes
modifier_tokens none = []
modifier_tokens (some mods) = split_on b',' mods

unfoldable pub parse_adblock : Reading → Bytes → Parsed
parse_adblock rd line =
    let (action, body) = action_prefix line in
    let (pattern_part, mods) = split_modifiers body in
    let pattern_str = trim pattern_part in
    if is_empty pattern_str then Parsed.error else elim (parse_pattern rd pattern_str) [
      | none ↦ Parsed.error
      | some (pattern, index_tokens) ↦
          read_rule line (make_signature action pattern_str mods) pattern index_tokens (
            read_modifiers rd (modifier_tokens mods)
              (record { mods = no_modifiers; badfilter = false; action = action }))
    ]

abbrev pub starts_comment : Bytes → Bool
starts_comment line =
    starts_with line (b'!' ∷ []) || starts_with line (b'#' ∷ []) || starts_with line (b'[' ∷ [])

-- `parse_line`
unfoldable pub parse_line : Reading → Bytes → Parsed
parse_line rd raw =
    let line = trim raw in
    if is_empty line || starts_comment line
    then Parsed.ignored
    else elim (try_parse_hosts rd line) [
      | some hosts ↦ if is_empty hosts then Parsed.ignored else Parsed.rules hosts
      | none ↦ if is_cosmetic line then Parsed.unsupported else parse_adblock rd line
    ]

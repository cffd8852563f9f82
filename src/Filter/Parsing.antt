-- ===== src/Filter/Parsing.antt =====
-- parser.rs: the rules of a line.
pub mod Answers
pub mod Patterns
use bulwark.Common.{
  ℕ, ◌+◌, ◌-◌, ◌<◌, ◌≡◌, refl, subst, ◌≢◌, ◌⊎◌, inl, inr, Bool, true, false, not, ◌&&◌, ◌||◌,
  Option, none, some, List, [], ◌∷◌, ◌++◌, leb, if◌then◌else◌, Bool-cases, Option-cases, ◌>>=◌,
  >>=-eq-some, length, take, drop, All, In, some_injective,
}
use bulwark.Common.Bytes.{Bytes, bytes_eq, codes}
use bulwark.Net.{IpAddr}
use bulwark.Filter.Text.{
  trim, trim_end_matches, lowercase, strip_prefix, strip_suffix, split_whitespace, split_once,
  find_text, starts_with,
}
use bulwark.Filter.Rule.{
  Action, block, rewrite, Pattern, RuleMods, no_modifiers, mods_is_empty, BuildRule, RewriteData,
  contains_text, is_empty,
}
use bulwark.Filter.External.{External}
use bulwark.Filter.Token.{tokenize_pattern_safe, query_tokens}
use bulwark.Filter.Meaning.{pattern_matches}
use bulwark.Filter.Compiler.{Parsed}
use bulwark.Filter.Glob.{GlobIn}
use bulwark.Filter.Safe.{tokenize_pattern_safe-query_tokens}
use bulwark.Filter.Parts.{
  All-take, All-strip_prefix, All-strip_suffix, All-split_once, All-trim, All-trim_end_matches,
}
use bulwark.Filter.Parser.Modifiers.{
  Reading, norm_domain, ip_rewrite, parse_dnstype, parse_client, parse_ctag, parse_denyallow,
  parse_dnsrewrite,
}
use bulwark.Filter.Parser.{
  split_modifiers, Reads, ModifierResult, next, unknown, bad, read_or_bad, read_modifier,
  read_modifiers, key_value, adblock_rule, read_rule, modifier_tokens, action_prefix,
  starts_comment, make_signature, parse_adblock, parse_line,
}
use bulwark.Filter.Parser.Patterns.{
  wildcard_source, front_anchors, end_anchor, plain_pattern, regex_pattern, wildcard_pattern,
  anchored_pattern, parse_pattern, has_wildcard, is_regex,
}
use bulwark.Filter.Parser.Hosts.{
  host_rule, host_rules, try_parse_hosts, ip_literal, before_comment, is_blocking_ip, hosts_noise,
  is_cosmetic, is_dns_hostname,
}
use bulwark.Filter.Parsing.Patterns.{
  IsAscii, MatchesGlobs, HasTokens, HasAnswer, no_tokens, parse_pattern-HasTokens,
}
use bulwark.Filter.Parsing.Answers.{Keeps, read_modifiers-IsAnswered, adblock_rule-HasAnswer}

-- A rule of a line: what it is indexed by, and its answer if it is a rewrite.
pub record IsParsed (x : External) (domain : Bytes) (br : BuildRule) : Type 0 where
  pub has_tokens : HasTokens x domain br.rule.pattern br.index_tokens
  pub has_answer : HasAnswer br.rule.action br.rule.mods

host_rule-IsParsed :
    (x : External) (asked first : Bytes) (i : IpAddr) (host domain : Bytes)
    → IsParsed x asked (host_rule first i host domain)
unfolding host_rule
host_rule-IsParsed x asked first i host domain = record {
  has_tokens = no_tokens x asked (Pattern.exact domain);
  has_answer = by_kind (is_blocking_ip i);
}
  where
    by_kind :
        (blocks : Bool)
        → HasAnswer
            (if blocks then block else rewrite)
            (if blocks then none else some (record no_modifiers { rewrite = some (ip_rewrite i) }))
    by_kind true is = cc
    by_kind false is = (_, ip_rewrite i, refl, refl)

host_rules-IsParsed :
    (x : External) (asked first : Bytes) (i : IpAddr) (hosts : List Bytes)
    → All (IsParsed x asked) (host_rules first i hosts)
unfolding host_rules
host_rules-IsParsed x asked first i [] = tt
host_rules-IsParsed x asked first i (host ∷ hosts) =
    let rest = host_rules-IsParsed x asked first i hosts in
    let rule = host_rule-IsParsed x asked first i host (norm_domain host) in
    All-if (is_empty (norm_domain host) || contains_text hosts_noise (norm_domain host)) _ _ rest
      (rule, rest)
  where
    All-if :
        (b : Bool) (brs brs' : List BuildRule)
        → All (IsParsed x asked) brs
        → All (IsParsed x asked) brs'
        → All (IsParsed x asked) (if b then brs else brs')
    All-if true brs brs' h k = h
    All-if false brs brs' h k = k

-- The rules of a line all satisfy `P`.
abbrev pub Rules {κ} : (BuildRule → Type κ) → Parsed → Type κ
Rules P (Parsed.rules brs) = All P brs
Rules P Parsed.ignored = Unit
Rules P Parsed.unsupported = Unit
Rules P Parsed.error = Unit

try_parse_hosts-IsParsed :
    (x : External) (rd : Reading) (asked line : Bytes) (brs : List BuildRule)
    → try_parse_hosts rd line ≡ some brs
    → All (IsParsed x asked) brs
unfolding try_parse_hosts
try_parse_hosts-IsParsed x rd asked line brs e = by_words (split_whitespace line) e
  where
    no_rules : {brs : List BuildRule} → none ≢ some brs
    no_rules k = cc

    by_words :
        (words : List Bytes)
        → elim words [
          | [] ↦ none
          | first ∷ parts ↦ rd.parse_ip first >>= λ i.
              let hosts = before_comment parts in
              if is_empty hosts then none else some (host_rules first i hosts)
        ]
          ≡ some brs
        → All (IsParsed x asked) brs
    by_words [] k = cc
    by_words (first ∷ parts) k =
        let (i, parsed, made) = >>=-eq-some (rd.parse_ip first) _ k in
        elim (Bool-cases (is_empty (before_comment parts))) [
          | inl no_hosts ↦ absurd (no_rules (rw no_hosts at made))
          | inr hosts ↦
              subst (All (IsParsed x asked)) (some_injective (rw hosts at made))
                (host_rules-IsParsed x asked first i (before_comment parts))
        ]

split_modifiers-IsAscii : (s : Bytes) → IsAscii s → IsAscii (split_modifiers s).0
unfolding split_modifiers
split_modifiers-IsAscii s h = elim (Bool-cases (starts_with s (b'/' ∷ []))) [
  | inl slash ↦ elim (Option-cases (find_text (codes "/$") s)) [
    | inl no_end ↦ rw (slash, no_end, split_modifiers) h
    | inr (idx, is) ↦ rw (slash, is, split_modifiers) (All-take _ (idx + 1) s h)
  ]
  | inr other ↦ elim (Option-cases (split_once b'$' s)) [
    | inl no_mods ↦ rw (other, no_mods, split_modifiers) h
    | inr ((front, mods), is) ↦
        rw (other, is, split_modifiers) (All-split_once _ b'$' s front mods is h).0
  ]
]

-- The front of a line: no rewrite yet.
abbrev Opened : Action × Bytes → Type 0
Opened (action, body) = (action ≢ rewrite) × IsAscii body

action_prefix-Opened : (line : Bytes) → IsAscii line → Opened (action_prefix line)
action_prefix-Opened line h = elim (Option-cases (strip_prefix (codes "@@") line)) [
  | inl blocks ↦ rw (blocks, action_prefix) ((λ e. cc), h)
  | inr (rest, is) ↦
      rw (is, action_prefix) ((λ e. cc), All-strip_prefix _ (codes "@@") line rest is h)
]

module _ (rd : Reading) (x : External) (globs : MatchesGlobs x) (domain : Bytes)
    (ascii : IsAscii domain) where
  read_rule-IsParsed :
      (line signature : Bytes) (pattern : Pattern) (ts : List ℕ) (m : ModifierResult)
      → HasTokens x domain pattern ts
      → Keeps m
      → Rules (IsParsed x domain) (read_rule line signature pattern ts m)
  unfolding read_rule adblock_rule
  read_rule-IsParsed line signature pattern ts (next r) h k =
      (record { has_tokens = h; has_answer = adblock_rule-HasAnswer r (k r refl) }, tt)
  read_rule-IsParsed line signature pattern ts unknown h k = tt
  read_rule-IsParsed line signature pattern ts bad h k = tt

  parse_adblock-IsParsed :
      (line : Bytes) → IsAscii line → Rules (IsParsed x domain) (parse_adblock rd line)
  unfolding parse_adblock
  parse_adblock-IsParsed line h =
      let (action, body) = action_prefix line in
      let (opened, body_ascii) : Opened (action_prefix line) = action_prefix-Opened line h in
      let (pattern_part, mods) = split_modifiers body in
      let pattern_str = trim pattern_part in
      elim (Bool-cases (is_empty pattern_str)) [
        | inl blank ↦ rw (blank, parse_adblock) tt
        | inr there_is ↦ elim (Option-cases (parse_pattern rd pattern_str)) [
          | inl refused ↦ rw (there_is, refused, parse_adblock) tt
          | inr ((pattern, ts), is) ↦
              rw (there_is, is, parse_adblock)
                (read_rule-IsParsed line (make_signature action pattern_str mods) pattern ts _
                  (parse_pattern-HasTokens rd x globs domain ascii pattern_str pattern ts
                    (All-trim _ pattern_part (split_modifiers-IsAscii body body_ascii)) is)
                  (read_modifiers-IsAnswered rd (modifier_tokens mods)
                    (record { mods = no_modifiers; badfilter = false; action = action })
                    (λ e. absurd (opened e))))
        ]
      ]

  pub parse_line-IsParsed :
      (raw : Bytes) → IsAscii raw → Rules (IsParsed x domain) (parse_line rd raw)
  unfolding parse_line
  parse_line-IsParsed raw h =
      let line = trim raw in
      elim (Bool-cases (is_empty line || starts_comment line)) [
        | inl nothing_here ↦ rw (nothing_here, parse_line) tt
        | inr words ↦ elim (Option-cases (try_parse_hosts rd line)) [
          | inl no_hosts ↦ elim (Bool-cases (is_cosmetic line)) [
            | inl cosmetic ↦ rw (words, no_hosts, cosmetic, parse_line) tt
            | inr other ↦
                rw (words, no_hosts, other, parse_line)
                  (parse_adblock-IsParsed line (All-trim _ raw h))
          ]
          | inr (hosts, is) ↦ elim (Bool-cases (is_empty hosts)) [
            | inl all_noise ↦ rw (words, is, all_noise, parse_line) tt
            | inr some_left ↦
                rw (words, is, some_left, parse_line)
                  (try_parse_hosts-IsParsed x rd domain line hosts is)
          ]
        ]
      ]

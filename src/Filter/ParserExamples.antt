-- ===== src/Filter/ParserExamples.antt =====
-- Tests and examples for the list parser, with plain stand-ins for what it calls.
use bulwark.Common.{
  ℕ, ◌≡◌, refl, sym, ap, subst, ◌∙◌, ◌≢◌, ◌↔◌, ◌⊎◌, inl, inr, Bool, true, false, not, none, some,
  List, [], ◌∷◌, ◌++◌, map, arith, ltb, ◌==◌, if◌then◌else◌, ltb→lt, Bool-cases, get_or, drop, all,
  In, here, there,
}
use bulwark.Common.Bytes.{
  Bytes, bytes_eq, bytes_eq_sound, codes, is_ascii_alphanumeric, to_ascii_lowercase,
}
use bulwark.Net.{v4}
use bulwark.Filter.Text.{
  trim, reverse_onto, starts_with, strip_prefix, strip_suffix, split_once, split_on, find_text,
  space_front, space_back, drop_while_space, words_from, trim_start_matches, trim_end_matches,
  sort_texts, insert_text, bytes_leb, join, digits, parse_u16, lowercase,
}
use bulwark.Filter.Rule.{
  Action, block, allow, rewrite, Pattern, mods_is_empty, BuildRule, ClientInfo, contains_text,
}
use bulwark.Filter.External.{External, IsDocumented}
use bulwark.Filter.Crates.{crates_of, crates_of-IsDocumented}
use bulwark.Filter.Token.{
  tokenize_pattern_safe, pattern_tokens_from, close_safe, query_tokens, query_tokens_from,
  close_run, hash_from, fast_hash, sort, insert_sorted, dedup,
}
use bulwark.Filter.Glob.{Glob, matched, star_stop, literal, GlobIn}
use bulwark.Filter.Safe.{tokenize_pattern_safe-query_tokens}
use bulwark.Filter.Rule.{rule_priority}
use bulwark.Filter.Engine.{normalize, trim_dots, check}
use bulwark.Filter.Engine.Builder.{is_subdomain_of, ends_with_label, panic, is_blocked}
use bulwark.Filter.Meaning.{rule_applies, pattern_matches}
use bulwark.Filter.Parsing.Patterns.{IsAscii, MatchesGlobs}
use bulwark.Filter.Lists.{
  compiled, IsRoomy, BlockRuleWins, Untied, check-answered, check-BlockRuleWins,
}
use bulwark.Filter.Lists.Reached.{Built, fresh, added}
use bulwark.Filter.Compiler.{
  Parsed, Compiler, new, add_parsed, add_line, add_lines, add_list, dedup_rules, subsumers,
  subsumer, is_plain_block, is_redundant, ancestor_in, prune_redundant, active_rules, compile,
}
use bulwark.Filter.Parser.Modifiers.{
  Reading, norm_domain, ip_rewrite, parse_dnstype, parse_client, parse_ctag, parse_denyallow,
  parse_dnsrewrite, rcode_of,
}
use bulwark.Filter.Parser.{
  split_modifiers, make_signature, read_modifier, read_modifiers, key_value, adblock_rule,
  read_rule, parse_adblock, parse_line,
}
use bulwark.Filter.Parser.Patterns.{
  wildcard_char, wildcard_body, wildcard_source, is_escaped, front_anchors, end_anchor,
  plain_pattern, regex_pattern, wildcard_pattern, anchored_pattern, parse_pattern,
}
use bulwark.Filter.Parser.Hosts.{
  is_blocking_ip, ip_literal, hash_follows, is_cosmetic, is_dns_hostname, before_comment, host_rule,
  host_rules, try_parse_hosts,
}

-- Two addresses, no networks, and every regex compiles.
abbrev pub plain_reading : Reading
plain_reading = record {
  parse_ip = λ s.
      if bytes_eq s (codes "0.0.0.0")
      then some (v4 0)
      else if bytes_eq s (codes "10.0.0.1")
      then some (v4 167772161)
      else none;
  ip_text = λ i. codes "0.0.0.0";
  parse_net = λ s. none;
  compiles = λ s. true;
}

program : Unit {0}
unfolding reverse_onto starts_with strip_prefix strip_suffix split_once split_on find_text
    space_front space_back drop_while_space words_from trim trim_start_matches trim_end_matches
    sort_texts insert_text bytes_leb join digits parse_u16 bytes_eq is_blocking_ip ip_literal
    hash_follows is_cosmetic is_dns_hostname before_comment host_rule host_rules try_parse_hosts
    split_modifiers make_signature wildcard_char wildcard_body wildcard_source front_anchors
    end_anchor plain_pattern regex_pattern wildcard_pattern anchored_pattern parse_pattern
    read_modifier read_modifiers key_value adblock_rule read_rule parse_adblock parse_line
    norm_domain mods_is_empty contains_text parse_dnsrewrite parse_dnstype parse_client parse_ctag
    parse_denyallow rcode_of tokenize_pattern_safe pattern_tokens_from close_safe query_tokens
    query_tokens_from close_run hash_from fast_hash sort insert_sorted dedup to_ascii_lowercase
    is_ascii_alphanumeric ip_rewrite add_parsed add_line add_lines add_list dedup_rules subsumers
    subsumer is_plain_block is_redundant ancestor_in prune_redundant active_rules is_subdomain_of
    normalize trim_dots rule_applies pattern_matches ends_with_label rule_priority
program = tt

abbrev rules_of : Parsed → List (Action × Pattern × Bytes)
rules_of (Parsed.rules brs) = map (λ br. (br.rule.action, br.rule.pattern, br.signature)) brs
rules_of Parsed.ignored = []
rules_of Parsed.unsupported = []
rules_of Parsed.error = []

subdomain_line :
    rules_of (parse_line plain_reading (codes " ||Ads.com^ "))
    ≡ (block, Pattern.subdomain (codes "ads.com"), codes "||ads.com^|$") ∷ []
unfolding program
subdomain_line = refl

allow_line :
    rules_of (parse_line plain_reading (codes "@@|a.b|$important,badfilter"))
    ≡ (allow, Pattern.exact (codes "a.b"), codes "@@|a.b||$important") ∷ []
unfolding program
allow_line = refl

hosts_line :
    rules_of (parse_line plain_reading (codes "0.0.0.0 localhost a.b. # c"))
    ≡ (block, Pattern.exact (codes "a.b"), codes "hosts|a.b|block") ∷ []
unfolding program
hosts_line = refl

rewritten_line :
    rules_of (parse_line plain_reading (codes "10.0.0.1 nas"))
    ≡ (rewrite, Pattern.exact (codes "nas"), codes "hosts|nas|rewrite") ∷ []
unfolding program
rewritten_line = refl

wildcard_line :
    rules_of (parse_line plain_reading (codes "||a*.b^"))
    ≡ (block, Pattern.wildcard (codes "(?i)(?:^|\\.)a.*\\.b$"), codes "||a*.b^|$") ∷ []
unfolding program
wildcard_line = refl

cosmetic_line : parse_line plain_reading (codes "a.b##.ad") ≡ Parsed.unsupported
unfolding program
cosmetic_line = refl

comment_line : parse_line plain_reading (codes "! note") ≡ Parsed.ignored
unfolding program
comment_line = refl

dnsrewrite_line :
    rules_of (parse_line plain_reading (codes "||a.b^$dnsrewrite=NXDOMAIN"))
    ≡ (rewrite, Pattern.subdomain (codes "a.b"), codes "||a.b^|$dnsrewrite=NXDOMAIN") ∷ []
unfolding program
dnsrewrite_line = refl

unknown_line : parse_line plain_reading (codes "||a.b^$popup") ≡ Parsed.unsupported
unfolding program
unknown_line = refl

bad_line : parse_line plain_reading (codes "||a b^") ≡ Parsed.error
unfolding program
bad_line = refl

abbrev ads_body : Bytes
ads_body = codes ".ads.*"

abbrev ads_host : Bytes
ads_host = codes "x.ADS.com"

abbrev ads_token : ℕ
ads_token = get_or (tokenize_pattern_safe (lowercase ads_body)) 0 0

ads_glob : GlobIn ads_body ads_host
unfolding program
ads_glob = (
  codes "x",
  codes ".ADS.com",
  refl,
  same b'.' b'.' _ _ refl (λ e. omega (arith, e)) (λ e. omega (arith, e))
      (same b'a' b'A' _ _ refl (λ e. omega (arith, e)) (λ e. omega (arith, e))
        (same b'd' b'D' _ _ refl (λ e. omega (arith, e)) (λ e. omega (arith, e))
          (same b's' b'S' _ _ refl (λ e. omega (arith, e)) (λ e. omega (arith, e))
            (same b'.' b'.' _ _ refl (λ e. omega (arith, e)) (λ e. omega (arith, e))
              (star_stop b'*' [] _ refl (matched _)))))),
)
  where
    same :
        (c d : ℕ) (p t : Bytes)
        → to_ascii_lowercase c ≡ to_ascii_lowercase d
        → c ≢ b'*'
        → c ≢ b'^'
        → Glob p t
        → Glob (c ∷ p) (d ∷ t)
    same c d p t e no_star no_hat g = literal c d p t no_star no_hat e g

tokenize_pattern_safe-query_tokens_example : In ads_token (query_tokens ads_host)
unfolding program
tokenize_pattern_safe-query_tokens_example =
    tokenize_pattern_safe-query_tokens ads_body ads_host ads_token ads_glob (here refl)

-- The empty regex only, which matches every name.
abbrev pub crates : External
crates = crates_of (λ re domain. bytes_eq re (codes "(?i)"))

wildcard_char-cons : (c : ℕ) → (d : ℕ) × (ds : Bytes) × (wildcard_char c ≡ d ∷ ds)
unfolding wildcard_char
wildcard_char-cons c = elim (Bool-cases (c == b'*')) [
  | inl star ↦ (b'.', b'*' ∷ [], rw (star, wildcard_char) refl)
  | inr no_star ↦ elim (Bool-cases (c == b'^')) [
    | inl hat ↦ (b'(', codes "?:[^a-z0-9._-]|$)", rw (no_star, hat, wildcard_char) refl)
    | inr no_hat ↦ elim (Bool-cases (is_escaped c)) [
      | inl escaped ↦ (b'\\', c ∷ [], rw (no_star, no_hat, escaped, wildcard_char) refl)
      | inr plain ↦ (c, [], rw (no_star, no_hat, plain, wildcard_char) refl)
    ]
  ]
]

wildcard_body-nil : (body end : Bytes) → wildcard_body body ++ end ≡ [] → body ≡ []
unfolding wildcard_body
wildcard_body-nil [] end e = refl
wildcard_body-nil (c ∷ body) end e =
    let (d, ds, is) = wildcard_char-cons c in absurd (cons_nil (rw (is, wildcard_body) at e))
  where
    cons_nil : {d : ℕ} {ds : Bytes} → d ∷ ds ≢ []
    cons_nil k = cc

wildcard_source-nil :
    (body : Bytes) (subdomain_anchor start_anchor end_anchor : Bool)
    → wildcard_source body subdomain_anchor start_anchor end_anchor ≡ codes "(?i)"
    → body ≡ []
unfolding wildcard_source
wildcard_source-nil body false false end_anchor e =
    wildcard_body-nil body (if end_anchor then b'$' ∷ [] else []) (ap (drop 4) e)
wildcard_source-nil body false true end_anchor e = absurd (cons_nil (ap (drop 4) e))
  where
    cons_nil : {d : ℕ} {ds : Bytes} → d ∷ ds ≢ []
    cons_nil k = cc
wildcard_source-nil body true start_anchor end_anchor e = absurd (cons_nil (ap (drop 4) e))
  where
    cons_nil : {d : ℕ} {ds : Bytes} → d ∷ ds ≢ []
    cons_nil k = cc

pub crates-MatchesGlobs : MatchesGlobs crates
crates-MatchesGlobs body domain subdomain_anchor start_anchor end_anchor h k m =
    let is_empty_body =
      wildcard_source-nil body subdomain_anchor start_anchor end_anchor (bytes_eq_sound _ _ m) in
    ([], domain, refl, subst (λ b. Glob b domain) (sym is_empty_body) (matched domain))

pub all-IsAscii : (s : Bytes) → all (λ c. ltb c 128) s ≡ true → IsAscii s
all-IsAscii [] h = tt
all-IsAscii (c ∷ s) h = elim (Bool-cases (ltb c 128)) [
  | inl low ↦ (ltb→lt c 128 low, all-IsAscii s (rw low at h))
  | inr high ↦ absurd (false_true (rw high at h))
]
  where
    false_true : false ≢ true
    false_true k = cc

abbrev pub lists : Compiler
lists =
    (add_list (parse_line plain_reading) 1 (codes "l")
      (codes "||ads.com^" ∷ codes "0.0.0.0 x.ads.com" ∷ codes "@@||ok.ads.com^" ∷ []) new).0

pub lists-Built : Built plain_reading lists
lists-Built =
    added new 1 (codes "l") _
      (
        all-IsAscii (codes "||ads.com^") refl,
        (
          all-IsAscii (codes "0.0.0.0 x.ads.com") refl,
          (all-IsAscii (codes "@@||ok.ads.com^") refl, tt),
        ),
      )
      fresh

lists-compiled :
    map (λ br. br.signature) (compiled lists)
    ≡ codes "||ads.com^|$" ∷ codes "@@||ok.ads.com^|$" ∷ []
unfolding program
lists-compiled = refl

pub lists-IsRoomy : IsRoomy lists
unfolding program
lists-IsRoomy = record {
  few = omega arith;
  small = omega arith;
  short = (omega arith, (omega arith, tt));
}

abbrev nobody : ClientInfo
nobody = record { ip = none; name = none; tags = [] }

pub crates-IsDocumented : IsDocumented crates
crates-IsDocumented = crates_of-IsDocumented (λ re domain. bytes_eq re (codes "(?i)"))

host-IsAscii : IsAscii (normalize ads_host)
unfolding program
host-IsAscii = all-IsAscii (normalize ads_host) refl

check-answered_example : check crates (compile crates lists).0 ads_host (codes "A") nobody ≢ panic
check-answered_example =
    check-answered plain_reading crates crates-IsDocumented crates-MatchesGlobs lists lists-Built
      lists-IsRoomy ads_host (codes "A") nobody host-IsAscii

unfoldable is_rewrite : Action → Bool
is_rewrite rewrite = true
is_rewrite block = false
is_rewrite allow = false

none_rewrites :
    (brs : List BuildRule)
    → all (λ br. not (is_rewrite br.rule.action)) brs ≡ true
    → (br : BuildRule) → In br brs
    → br.rule.action ≢ rewrite
unfolding is_rewrite
none_rewrites [] h br m does = elim m [ ]
none_rewrites (b ∷ brs) h br m does = elim (action-cases b.rule.action) [
  | inl rewrites ↦ absurd (false_true (rw rewrites at h))
  | inr quiet ↦ elim m [
    | here e ↦
        false_true
          (sym quiet ∙ ap is_rewrite (sym (ap (λ (c : BuildRule). c.rule.action) e) ∙ does))
    | there n ↦ none_rewrites brs (rw quiet at h) br n does
  ]
]
  where
    action-cases : (k : Action) → (k ≡ rewrite) ⊎ (is_rewrite k ≡ false)
    action-cases rewrite = inl refl
    action-cases block = inr refl
    action-cases allow = inr refl

    false_true : false ≢ true
    false_true k = cc

no_rewrites :
    Untied plain_reading crates crates-IsDocumented crates-MatchesGlobs lists lists-Built
      lists-IsRoomy ads_host
      (codes "A")
      nobody
      host-IsAscii
unfolding program is_rewrite
no_rewrites n h (br, m, applies, does, prio) = none_rewrites (active_rules lists) refl br m does

check-BlockRuleWins_example :
    (is_blocked (check crates (compile crates lists).0 ads_host (codes "A") nobody) ≡ true)
    ↔ BlockRuleWins plain_reading crates crates-IsDocumented crates-MatchesGlobs lists lists-Built
        lists-IsRoomy ads_host
        (codes "A")
        nobody
        host-IsAscii
check-BlockRuleWins_example =
    check-BlockRuleWins plain_reading crates crates-IsDocumented crates-MatchesGlobs lists
      lists-Built lists-IsRoomy ads_host (codes "A") nobody host-IsAscii no_rewrites

-- ===== src/Filter/Parsing/Patterns.antt =====
-- parser.rs: the tokens that the pattern of a line is indexed by.
use bulwark.Common.{
  ℕ, ◌-◌, ◌<◌, ◌≡◌, subst, ◌≢◌, inl, inr, Bool, true, not, ◌&&◌, ◌||◌, Option, none, some, List, [],
  ◌∷◌, ◌++◌, leb, if◌then◌else◌, Bool-cases, Option-cases, length, take, drop, All, In,
  some_injective,
}
use bulwark.Common.Bytes.{Bytes, codes}
use bulwark.Filter.Text.{trim_end_matches, lowercase, strip_prefix, strip_suffix}
use bulwark.Filter.Rule.{Action, rewrite, Pattern, RuleMods, RewriteData, is_empty}
use bulwark.Filter.External.{External}
use bulwark.Filter.Token.{tokenize_pattern_safe, query_tokens}
use bulwark.Filter.Meaning.{pattern_matches}
use bulwark.Filter.Glob.{GlobIn}
use bulwark.Filter.Safe.{tokenize_pattern_safe-query_tokens}
use bulwark.Filter.Parts.{All-strip_prefix, All-strip_suffix, All-trim_end_matches}
use bulwark.Filter.Parser.Modifiers.{Reading, norm_domain}
use bulwark.Filter.Parser.Patterns.{
  wildcard_source, front_anchors, end_anchor, plain_pattern, regex_pattern, wildcard_pattern,
  anchored_pattern, parse_pattern, has_wildcard, is_regex,
}
use bulwark.Filter.Parser.Hosts.{ip_literal, is_dns_hostname}

abbrev pub IsAscii : Bytes → Type 0
IsAscii = All (λ c. c < 128)

-- The regex of a wildcard pattern in ASCII matches a name in ASCII only where the pattern does.
abbrev pub MatchesGlobs : External → Type 0
MatchesGlobs x =
    (body domain : Bytes) (subdomain_anchor start_anchor end_anchor : Bool)
    → IsAscii body
    → IsAscii domain
    → x.is_match (wildcard_source body subdomain_anchor start_anchor end_anchor) domain ≡ true
    → GlobIn body domain

-- A name that the pattern matches has all tokens that it is indexed by.
abbrev pub HasTokens : External → Bytes → Pattern → List ℕ → Type 0
HasTokens x domain pattern tokens =
    pattern_matches x pattern domain ≡ true → (t : ℕ) → In t tokens → In t (query_tokens domain)

-- A rewrite rule has an answer to give.
abbrev pub HasAnswer : Action → Option RuleMods → Type 0
HasAnswer action mods =
    action ≡ rewrite
    → (m : RuleMods) × (answer : RewriteData) × (mods ≡ some m) × (m.rewrite ≡ some answer)

pub no_tokens : (x : External) (domain : Bytes) (pattern : Pattern) → HasTokens x domain pattern []
no_tokens x domain pattern h t m = elim m [ ]

same_pattern :
    (x : External) (domain : Bytes) (p q : Pattern) (ts us : List ℕ)
    → ◌≡◌ {A = Option (Pattern × List ℕ)} (some (p, ts)) (some (q, us))
    → HasTokens x domain p ts
    → HasTokens x domain q us
same_pattern x domain p q ts us e h =
    subst (λ (r : Pattern × List ℕ). HasTokens x domain r.0 r.1) (some_injective e) h

nothing : {p : Pattern × List ℕ} → none ≢ some p
nothing k = cc

front_anchors-IsAscii : (p : Bytes) → IsAscii p → IsAscii (front_anchors p).0
unfolding front_anchors
front_anchors-IsAscii p h = elim (Option-cases (strip_prefix (codes "||") p)) [
  | inr (rest, is) ↦ rw (is, front_anchors) (All-strip_prefix _ (codes "||") p rest is h)
  | inl no_bars ↦ elim (Option-cases (strip_prefix (b'|' ∷ []) p)) [
    | inr (rest, is) ↦ rw (no_bars, is, front_anchors) (All-strip_prefix _ (b'|' ∷ []) p rest is h)
    | inl no_bar ↦ rw (no_bars, no_bar, front_anchors) h
  ]
]

end_anchor-IsAscii : (s : Bytes) → IsAscii s → IsAscii (end_anchor s).0
unfolding end_anchor
end_anchor-IsAscii s h = elim (Option-cases (strip_suffix (b'^' ∷ []) s)) [
  | inr (rest, is) ↦ rw (is, end_anchor) (All-strip_suffix _ (b'^' ∷ []) s rest is h)
  | inl no_hat ↦ elim (Option-cases (strip_suffix (b'|' ∷ []) s)) [
    | inr (rest, is) ↦ rw (no_hat, is, end_anchor) (All-strip_suffix _ (b'|' ∷ []) s rest is h)
    | inl no_bar ↦ rw (no_hat, no_bar, end_anchor) h
  ]
]

matched_source :
    (x : External) (source domain : Bytes)
    → pattern_matches x (Pattern.wildcard source) domain ≡ true
    → x.is_match source domain ≡ true
unfolding pattern_matches
matched_source x source domain k = k

module _ (rd : Reading) (x : External) (globs : MatchesGlobs x) (domain : Bytes)
    (ascii : IsAscii domain) where
  regex_pattern-HasTokens :
      (p : Bytes) (pattern : Pattern) (ts : List ℕ)
      → regex_pattern rd p ≡ some (pattern, ts)
      → HasTokens x domain pattern ts
  unfolding regex_pattern
  regex_pattern-HasTokens p pattern ts e =
      let inner = take (length p - 2) (drop 1 p) in
      elim (Bool-cases (leb (length inner) 1000 && rd.compiles (codes "(?i)" ++ inner))) [
        | inl good ↦
            same_pattern x domain _ pattern [] ts (rw good at e)
              (no_tokens x domain (Pattern.regex (codes "(?i)" ++ inner)))
        | inr refused ↦ absurd (nothing (rw refused at e))
      ]

  plain_pattern-HasTokens :
      (s : Bytes) (start_anchor : Bool) (pattern : Pattern) (ts : List ℕ)
      → plain_pattern rd s start_anchor ≡ some (pattern, ts)
      → HasTokens x domain pattern ts
  unfolding plain_pattern
  plain_pattern-HasTokens s start_anchor pattern ts e = elim (Option-cases (ip_literal rd s)) [
    | inr (i, is) ↦
        same_pattern x domain _ pattern [] ts (rw (is, plain_pattern) at e)
          (no_tokens x domain (Pattern.exact i))
    | inl no_ip ↦
        elim (Bool-cases (is_empty (norm_domain s) || not (is_dns_hostname (norm_domain s)))) [
          | inl no_host ↦ absurd (nothing (rw (no_ip, no_host, plain_pattern) at e))
          | inr host ↦
              same_pattern x domain _ pattern [] ts (rw (no_ip, host, plain_pattern) at e) (
                no_tokens x domain (
                  if start_anchor
                  then Pattern.exact (norm_domain s)
                  else Pattern.subdomain (norm_domain s)))
        ]
  ]

  wildcard_pattern-HasTokens :
      (s : Bytes) (subdomain_anchor start_anchor ends : Bool) (pattern : Pattern) (ts : List ℕ)
      → IsAscii s
      → wildcard_pattern rd s subdomain_anchor start_anchor ends ≡ some (pattern, ts)
      → HasTokens x domain pattern ts
  unfolding wildcard_pattern
  wildcard_pattern-HasTokens s subdomain_anchor start_anchor ends pattern ts h e =
      let source = wildcard_source s subdomain_anchor start_anchor ends in
      elim (Bool-cases (rd.compiles source)) [
        | inl good ↦
            same_pattern x domain (Pattern.wildcard source) pattern
              (tokenize_pattern_safe (lowercase s)) ts (rw good at e)
              (λ matches t m.
                tokenize_pattern_safe-query_tokens s domain t
                  (globs s domain subdomain_anchor start_anchor ends h ascii
                    (matched_source x source domain matches))
                  m)
        | inr refused ↦ absurd (nothing (rw refused at e))
      ]

  anchored_pattern-HasTokens :
      (p : Bytes) (pattern : Pattern) (ts : List ℕ)
      → IsAscii p
      → anchored_pattern rd p ≡ some (pattern, ts)
      → HasTokens x domain pattern ts
  unfolding anchored_pattern
  anchored_pattern-HasTokens p pattern ts h e =
      let behind = front_anchors p in
      let front = end_anchor behind.0 in
      let s = trim_end_matches b'^' front.0 in
      elim (Bool-cases (has_wildcard s)) [
        | inl wild ↦
            wildcard_pattern-HasTokens s behind.1 behind.2 front.1 pattern ts
              (All-trim_end_matches _ b'^' front.0
                (end_anchor-IsAscii behind.0 (front_anchors-IsAscii p h)))
              (rw wild at e)
        | inr plain ↦ plain_pattern-HasTokens s behind.2 pattern ts (rw plain at e)
      ]

  pub parse_pattern-HasTokens :
      (p : Bytes) (pattern : Pattern) (ts : List ℕ)
      → IsAscii p
      → parse_pattern rd p ≡ some (pattern, ts)
      → HasTokens x domain pattern ts
  unfolding parse_pattern
  parse_pattern-HasTokens p pattern ts h e = elim (Bool-cases (is_regex p)) [
    | inl re ↦ regex_pattern-HasTokens p pattern ts (rw re at e)
    | inr other ↦ anchored_pattern-HasTokens p pattern ts h (rw other at e)
  ]

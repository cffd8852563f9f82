-- ===== src/Filter/Parser/Patterns.antt =====
-- parser.rs: patterns and their regexes.
use bulwark.Common.{
  ℕ, ◌-◌, Bool, true, false, not, ◌&&◌, ◌||◌, Option, none, some, List, [], ◌∷◌, ◌++◌, leb, ◌==◌,
  if◌then◌else◌, ◌>>◌, guard, is_some, length, take, drop,
}
use bulwark.Common.Bytes.{Bytes, codes}
use bulwark.Filter.Text.{
  trim_end_matches, lowercase, starts_with, strip_prefix, strip_suffix, contains_byte,
}
use bulwark.Filter.Rule.{Pattern, is_empty}
use bulwark.Filter.Token.{tokenize_pattern_safe}
use bulwark.Filter.Parser.Modifiers.{Reading, norm_domain}
use bulwark.Filter.Parser.Hosts.{ip_literal, is_dns_hostname}

-- Characters that the regex syntax gives a meaning.
abbrev pub is_escaped : ℕ → Bool
is_escaped c = contains_byte c (codes "\\.+?()[]{}|$")

-- One character of the body of a wildcard pattern.
unfoldable pub wildcard_char : ℕ → Bytes
wildcard_char c =
    if c == b'*'
    then codes ".*"
    else if c == b'^'
    then codes "(?:[^a-z0-9._-]|$)"
    else if is_escaped c
    then b'\\' ∷ c ∷ []
    else c ∷ []

unfoldable pub wildcard_body : Bytes → Bytes
wildcard_body [] = []
wildcard_body (c ∷ body) = wildcard_char c ++ wildcard_body body

-- The source text that `build_wildcard_regex` compiles.
unfoldable pub wildcard_source : Bytes → Bool → Bool → Bool → Bytes
wildcard_source body subdomain_anchor start_anchor end_anchor =
    codes "(?i)"
    ++ ((if subdomain_anchor then codes "(?:^|\\.)" else if start_anchor then b'^' ∷ [] else [])
        ++ (wildcard_body body ++ (if end_anchor then b'$' ∷ [] else [])))

-- The anchors at the front: the rest, `||`, `|`.
unfoldable pub front_anchors : Bytes → Bytes × Bool × Bool
front_anchors p = elim (strip_prefix (codes "||") p) [
  | some rest ↦ (rest, true, false)
  | none ↦ elim (strip_prefix (b'|' ∷ []) p) [
    | some rest ↦ (rest, false, true)
    | none ↦ (p, false, false)
  ]
]

-- The anchor at the end: the rest, and whether there is one.
unfoldable pub end_anchor : Bytes → Bytes × Bool
end_anchor s = elim (strip_suffix (b'^' ∷ []) s) [
  | some rest ↦ (rest, true)
  | none ↦ elim (strip_suffix (b'|' ∷ []) s) [ some rest ↦ (rest, true) | none ↦ (s, false) ]
]

abbrev pub is_regex : Bytes → Bool
is_regex p = starts_with p (b'/' ∷ []) && is_some (strip_suffix (b'/' ∷ []) p) && leb 2 (length p)

-- A pattern with no wildcard: an address, or a host name.
unfoldable pub plain_pattern : Reading → Bytes → Bool → Option (Pattern × List ℕ)
plain_pattern rd s start_anchor = elim (ip_literal rd s) [
  | some i ↦ some (Pattern.exact i, [])
  | none ↦
      let domain = norm_domain s in
      if is_empty domain || not (is_dns_hostname domain)
      then none
      else some ((if start_anchor then Pattern.exact domain else Pattern.subdomain domain), [])
]

-- `/regex/`
unfoldable pub regex_pattern : Reading → Bytes → Option (Pattern × List ℕ)
regex_pattern rd p =
    let inner = take (length p - 2) (drop 1 p) in
    let source = codes "(?i)" ++ inner in
    guard (leb (length inner) 1000 && rd.compiles source) >> some (Pattern.regex source, [])

unfoldable pub wildcard_pattern : Reading → Bytes → Bool → Bool → Bool → Option (Pattern × List ℕ)
wildcard_pattern rd s subdomain_anchor start_anchor ends =
    let source = wildcard_source s subdomain_anchor start_anchor ends in
    guard (rd.compiles source)
    >> some (Pattern.wildcard source, tokenize_pattern_safe (lowercase s))

abbrev pub has_wildcard : Bytes → Bool
has_wildcard s = contains_byte b'*' s || contains_byte b'^' s

unfoldable pub anchored_pattern : Reading → Bytes → Option (Pattern × List ℕ)
anchored_pattern rd p =
    let (behind, subdomain_anchor, start_anchor) = front_anchors p in
    let (front, ends) = end_anchor behind in
    let s = trim_end_matches b'^' front in
    if has_wildcard s
    then wildcard_pattern rd s subdomain_anchor start_anchor ends
    else plain_pattern rd s start_anchor

-- `parse_pattern`: the pattern and the tokens that it is indexed by.
unfoldable pub parse_pattern : Reading → Bytes → Option (Pattern × List ℕ)
parse_pattern rd p = if is_regex p then regex_pattern rd p else anchored_pattern rd p

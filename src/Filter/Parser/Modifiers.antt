-- ===== src/Filter/Parser/Modifiers.antt =====
-- crates/bulwark-filter/src/parser.rs: the modifiers of a rule. `none` is an error; its text is left out.
-- Reading an address or a network from text is a parameter.
use bulwark.Common.{
  Bool, not, ◌&&◌, Option, none, some, List, [], ◌∷◌, map, if◌then◌else◌, ◌>>=◌, ◌>>◌, guard,
  keep_if,
}
use bulwark.Common.Bytes.{Bytes, bytes_eq, codes}
use bulwark.Net.{IpAddr, v4, v6, IpNet}
use bulwark.Filter.Text.{
  trim, trim_matches, trim_end_matches, lowercase, uppercase, split_on, split_once,
  split_whitespace, strip_prefix, contains_byte, parse_u16,
}
use bulwark.Filter.Rule.{
  DnsTypeFilter, ClientMatch, ip, net, name, ClientFilter, CtagFilter, RewriteRcode, no_error,
  nx_domain, refused, serv_fail, RewriteData, a, aaaa, cname, txt, mx, ptr, rcode, is_empty,
}

-- What the parser calls of `std::net`, `ipnet` and `regex`.
pub record Reading : Type 0 where
  pub parse_ip : Bytes → Option IpAddr
  pub ip_text : IpAddr → Bytes
  pub parse_net : Bytes → Option IpNet
  -- whether `RegexBuilder` compiles the source within the size limit
  pub compiles : Bytes → Bool

-- `norm_domain`
unfoldable pub norm_domain : Bytes → Bytes
norm_domain d = lowercase (trim_end_matches b'.' (trim d))

abbrev pub not_empty : Bytes → Bool
not_empty s = not (is_empty s)

-- The parts of a value between `|`, without the empty ones.
abbrev pub alternatives : Bytes → List Bytes
alternatives value = keep_if not_empty (split_on b'|' value)

-- Parts behind `~` are excluded.
unfoldable pub sort_out {ℓ} : {A : Type ℓ} → (Bytes → A) → List Bytes → List A × List A
sort_out f [] = ([], [])
sort_out f (t ∷ parts) =
    let (include, exclude) = sort_out f parts in
    elim (strip_prefix (b'~' ∷ []) t) [
      | some neg ↦ (include, f neg ∷ exclude)
      | none ↦ (f t ∷ include, exclude)
    ]

abbrev pub both_empty {ℓ} : {A : Type ℓ} → List A × List A → Bool
both_empty lists = is_empty lists.0 && is_empty lists.1

unfoldable pub parse_dnstype : Bytes → Option DnsTypeFilter
parse_dnstype value =
    let lists = sort_out uppercase (alternatives value) in
    guard (not (both_empty lists)) >> some (record { include = lists.0; exclude = lists.1 })

unfoldable pub client_match : Reading → Bytes → ClientMatch
client_match rd raw =
    let spec = trim_matches b'\'' (trim_matches b'"' raw) in
    elim (rd.parse_net spec) [
      | some n ↦ net n
      | none ↦ elim (rd.parse_ip spec) [ some i ↦ ip i | none ↦ name spec ]
    ]

unfoldable pub parse_client : Reading → Bytes → Option ClientFilter
parse_client rd value =
    let lists = sort_out (client_match rd) (alternatives value) in
    guard (not (both_empty lists)) >> some (record { include = lists.0; exclude = lists.1 })

unfoldable pub parse_ctag : Bytes → Option CtagFilter
parse_ctag value =
    let lists = sort_out (λ t. t) (alternatives value) in
    guard (not (both_empty lists)) >> some (record { include = lists.0; exclude = lists.1 })

unfoldable pub parse_denyallow : Bytes → Option (List Bytes)
parse_denyallow value =
    let domains = map norm_domain (alternatives value) in
    guard (not (is_empty domains)) >> some domains

unfoldable pub ip_rewrite : IpAddr → RewriteData
ip_rewrite (v4 n) = a n
ip_rewrite (v6 n) = aaaa n

-- The response codes by name.
unfoldable pub rcode_of : Bytes → Option RewriteRcode
rcode_of v =
    if bytes_eq v (codes "NOERROR")
    then some no_error
    else if bytes_eq v (codes "NXDOMAIN")
    then some nx_domain
    else if bytes_eq v (codes "REFUSED")
    then some refused
    else if bytes_eq v (codes "SERVFAIL")
    then some serv_fail
    else none

abbrev v4_only : Option IpAddr → Option RewriteData
v4_only none = none
v4_only (some (v4 n)) = some (a n)
v4_only (some (v6 n)) = none

abbrev v6_only : Option IpAddr → Option RewriteData
v6_only none = none
v6_only (some (v4 n)) = none
v6_only (some (v6 n)) = some (aaaa n)

-- `preference exchange`, and words that are not read
unfoldable pub parse_mx : List Bytes → Option RewriteData
parse_mx [] = none
parse_mx (pref ∷ []) = none
parse_mx (pref ∷ exchange ∷ words) =
    parse_u16 pref >>= λ preference. some (mx preference (norm_domain exchange))

-- The value of `class;type;data`, by its type; the outer `none` is another type.
unfoldable pub typed_rewrite : Reading → Bytes → Bytes → Option (Option RewriteData)
typed_rewrite rd rtype text =
    if bytes_eq rtype (codes "A")
    then some (v4_only (rd.parse_ip text))
    else if bytes_eq rtype (codes "AAAA")
    then some (v6_only (rd.parse_ip text))
    else if bytes_eq rtype (codes "CNAME")
    then some (some (cname (norm_domain text)))
    else if bytes_eq rtype (codes "TXT")
    then some (some (txt (trim_matches b'"' text)))
    else if bytes_eq rtype (codes "PTR")
    then some (some (ptr (norm_domain text)))
    else if bytes_eq rtype (codes "MX")
    then some (parse_mx (split_whitespace text))
    else none

-- `v.splitn(3, ';')`, if there are three parts
unfoldable pub three_parts : Bytes → Option (Bytes × Bytes × Bytes)
three_parts v = split_once b';' v >>= λ (first, rest).
    split_once b';' rest >>= λ (second, third). some (first, second, third)

-- A bare name is a CNAME.
unfoldable pub name_rewrite : Bytes → Option RewriteData
name_rewrite v =
    if contains_byte b'.' v && not (contains_byte b';' v)
    then some (cname (norm_domain v))
    else none

unfoldable pub parse_dnsrewrite : Reading → Bytes → Option RewriteData
parse_dnsrewrite rd value =
    let v = trim value in
    elim (rcode_of (uppercase v)) [
      | some code ↦ some (rcode code)
      | none ↦ elim (rd.parse_ip v) [
        | some i ↦ some (ip_rewrite i)
        | none ↦ elim (three_parts v) [
          | none ↦ name_rewrite v
          | some (class, rtype, text) ↦ elim (typed_rewrite rd (uppercase rtype) text) [
            | some parsed ↦ parsed
            | none ↦ name_rewrite v
          ]
        ]
      ]
    ]

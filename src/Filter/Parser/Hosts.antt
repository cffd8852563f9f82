-- ===== src/Filter/Parser/Hosts.antt =====
-- parser.rs: the hosts format, host names and cosmetic marks.
use bulwark.Common.{
  ℕ, ◌/◌, Bool, false, ◌&&◌, ◌||◌, Option, none, some, List, [], ◌∷◌, ◌++◌, leb, ◌==◌,
  if◌then◌else◌, ◌>>=◌, unwrap_or, length, all,
}
use bulwark.Common.Bytes.{Bytes, codes, is_ascii_alphanumeric}
use bulwark.Net.{IpAddr, v4, v6}
use bulwark.Filter.Text.{split_on, split_whitespace, starts_with, strip_prefix, strip_suffix}
use bulwark.Filter.Rule.{block, rewrite, Pattern, no_modifiers, BuildRule, contains_text, is_empty}
use bulwark.Filter.Parser.Modifiers.{Reading, norm_domain, not_empty, ip_rewrite}

abbrev pub hosts_noise : List Bytes
hosts_noise =
    codes "localhost"
    ∷ codes "localhost.localdomain"
    ∷ codes "local"
    ∷ codes "broadcasthost"
    ∷ codes "ip6-localhost"
    ∷ codes "ip6-loopback"
    ∷ codes "ip6-localnet"
    ∷ codes "ip6-mcastprefix"
    ∷ codes "ip6-allnodes"
    ∷ codes "ip6-allrouters"
    ∷ codes "ip6-allhosts"
    ∷ codes "0.0.0.0"
    ∷ []

-- Unspecified and loopback addresses: 0.0.0.0 and 127.0.0.0/8, or :: and ::1.
unfoldable pub is_blocking_ip : IpAddr → Bool
is_blocking_ip (v4 n) = n == 0 || n / 16777216 == 127
is_blocking_ip (v6 n) = n == 0 || n == 1

-- `ip_literal`
unfoldable pub ip_literal : Reading → Bytes → Option Bytes
ip_literal rd s =
    let bare = unwrap_or (strip_prefix (b'[' ∷ []) s >>= λ r. strip_suffix (b']' ∷ []) r) s in
    rd.parse_ip bare >>= λ i. some (rd.ip_text i)

abbrev is_cosmetic_mark : ℕ → Bool
is_cosmetic_mark c = c == b'@' || c == b'?' || c == b'$' || c == b'%'

-- A `#` behind any marks, as after a first `#`.
unfoldable pub hash_follows : Bytes → Bool
hash_follows [] = false
hash_follows (c ∷ s) = if is_cosmetic_mark c then hash_follows s else c == b'#'

unfoldable pub is_cosmetic : Bytes → Bool
is_cosmetic [] = false
is_cosmetic (c ∷ s) =
    (c == b'#' && hash_follows s)
    || (starts_with (c ∷ s) (codes "$$") || starts_with (c ∷ s) (codes "$@$"))
    || is_cosmetic s

abbrev pub is_host_byte : ℕ → Bool
is_host_byte c = is_ascii_alphanumeric c || c == b'-' || c == b'_'

abbrev pub is_host_label : Bytes → Bool
is_host_label label = not_empty label && leb (length label) 63 && all is_host_byte label

unfoldable pub is_dns_hostname : Bytes → Bool
is_dns_hostname d = not_empty d && leb (length d) 253 && all is_host_label (split_on b'.' d)

-- The hosts of a line, up to a comment.
unfoldable pub before_comment : List Bytes → List Bytes
before_comment [] = []
before_comment (tok ∷ parts) =
    if starts_with tok (b'#' ∷ []) then [] else tok ∷ before_comment parts

unfoldable pub host_rule : Bytes → IpAddr → Bytes → Bytes → BuildRule
host_rule first i host domain =
    let blocks = is_blocking_ip i in
    record {
      rule = record {
        id = 0;
        raw = first ++ (b' ' ∷ host);
        action = (if blocks then block else rewrite);
        pattern = Pattern.exact domain;
        mods =
            (if blocks then none else some (record no_modifiers { rewrite = some (ip_rewrite i) }));
        list_id = 0;
      };
      badfilter = false;
      signature =
          codes "hosts|"
          ++ (domain ++ (b'|' ∷ (if blocks then codes "block" else codes "rewrite")));
      index_tokens = [];
    }

unfoldable pub host_rules : Bytes → IpAddr → List Bytes → List BuildRule
host_rules first i [] = []
host_rules first i (host ∷ hosts) =
    let domain = norm_domain host in
    let rest = host_rules first i hosts in
    if is_empty domain || contains_text hosts_noise domain
    then rest
    else host_rule first i host domain ∷ rest

unfoldable pub try_parse_hosts : Reading → Bytes → Option (List BuildRule)
try_parse_hosts rd line = elim (split_whitespace line) [
  | [] ↦ none
  | first ∷ parts ↦ rd.parse_ip first >>= λ i.
      let hosts = before_comment parts in
      if is_empty hosts then none else some (host_rules first i hosts)
]

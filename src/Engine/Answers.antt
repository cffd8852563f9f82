-- ===== src/Engine/Answers.antt =====
-- crates/bulwark-engine/src/lib.rs: the response-side filter, and labels. The text of an address fits the
-- buffer it is rendered into, and is a parameter, as is decoding a message.
use bulwark.Common.{ℕ, Option, none, some, List, [], ◌∷◌, ◌==◌, if◌then◌else◌, unwrap_or}
use bulwark.Common.Bytes.{Bytes, codes}
use bulwark.Net.{IpAddr, v4, v6}
use bulwark.Dns.{SvcParam, ipv4_hint, ipv6_hint, other_param, RData, Record, Message}
use bulwark.Filter.Rule.{ClientInfo}
use bulwark.Filter.External.{External}
use bulwark.Filter.Text.{trim_end_matches}
use bulwark.Filter.Engine.{check}
use bulwark.Filter.Engine.Builder.{
  MatchInfo, Verdict, allowed, blocked, rewritten, panic, FilterEngine,
}
use bulwark.Clients.{ResolvedClient}
use bulwark.Cache.Entries.{CachedResponse}

abbrev pub client_info : ResolvedClient → ClientInfo
client_info client = record { ip = some client.ip; name = client.name; tags = client.tags }

-- `none` is the panic of a check, on a rewrite rule that has no answer.
abbrev pub block_of : Verdict → Option (Option MatchInfo)
block_of (blocked info) = some (some info)
block_of (allowed info) = some none
block_of (rewritten info data_of) = some none
block_of panic = none

-- The loop up to the first block, or to a panic.
abbrev pub find_block {ℓ κ} :
    {A : Type ℓ} {B : Type κ} → (A → Option (Option B)) → List A → Option (Option B)
find_block f [] = some none
find_block f (x ∷ xs) = elim (f x) [
  | none ↦ none
  | some found ↦ elim found [ none ↦ find_block f xs | some b ↦ some (some b) ]
]

module _ (x : External) (ip_text : IpAddr → Bytes) (filter : FilterEngine)
    (client : ResolvedClient) where
  abbrev pub blocks : Bytes → Bytes → Option (Option MatchInfo)
  blocks text rtype = block_of (check x filter text rtype (client_info client))

  unfoldable pub param_block : SvcParam → Option (Option MatchInfo)
  param_block (ipv4_hint ips) = find_block (λ i. blocks (ip_text (v4 i)) (codes "HTTPS")) ips
  param_block (ipv6_hint ips) = find_block (λ i. blocks (ip_text (v6 i)) (codes "HTTPS")) ips
  param_block other_param = some none

  unfoldable pub hint_block : List SvcParam → Option (Option MatchInfo)
  unfolding param_block
  hint_block params = find_block param_block params

  unfoldable pub record_block : RData → Option (Option MatchInfo)
  unfolding hint_block
  record_block (RData.cname name) = blocks (trim_end_matches b'.' name) (codes "CNAME")
  record_block (RData.a i) = blocks (ip_text (v4 i)) (codes "A")
  record_block (RData.aaaa i) = blocks (ip_text (v6 i)) (codes "AAAA")
  record_block (RData.https params) = hint_block params
  record_block (RData.svcb params) = hint_block params
  record_block (RData.ptr name) = some none
  record_block (RData.txt text) = some none
  record_block (RData.mx preference exchange) = some none
  record_block (RData.soa s) = some none
  record_block (RData.other bytes) = some none

  unfoldable pub filter_answers : List Record → Option (Option MatchInfo)
  unfolding record_block
  filter_answers answers = find_block (λ (rec : Record). record_block rec.rdata) answers

unfoldable pub cached_answers : (Bytes → Option Message) → CachedResponse → List Record
cached_answers from_vec (CachedResponse.wire bytes rcode answers) = elim (from_vec bytes) [
  | none ↦ []
  | some m ↦ m.answers
]
cached_answers from_vec (CachedResponse.message m) = m.answers

-- `find_map`
abbrev pub find_map {ℓ κ} : {A : Type ℓ} {B : Type κ} → (A → Option B) → List A → Option B
find_map f [] = none
find_map f (x ∷ xs) = elim (f x) [ none ↦ find_map f xs | some b ↦ some b ]

abbrev rcodes : List (ℕ × Bytes)
rcodes =
    (0, codes "NOERROR")
    ∷ (1, codes "FORMERR")
    ∷ (2, codes "SERVFAIL")
    ∷ (3, codes "NXDOMAIN")
    ∷ (4, codes "NOTIMP")
    ∷ (5, codes "REFUSED")
    ∷ []

-- The text that stands at a number.
abbrev pub text_at : ℕ → List (ℕ × Bytes) → Option Bytes
text_at n = find_map (λ (p : ℕ × Bytes). if p.0 == n then some p.1 else none)

unfoldable pub rcode_label : (ℕ → Bytes) → ℕ → Bytes
rcode_label other_code n = unwrap_or (text_at n rcodes) (other_code n)

abbrev rtypes : List (ℕ × Bytes)
rtypes =
    (1, codes "A")
    ∷ (28, codes "AAAA")
    ∷ (5, codes "CNAME")
    ∷ (15, codes "MX")
    ∷ (2, codes "NS")
    ∷ (12, codes "PTR")
    ∷ (6, codes "SOA")
    ∷ (33, codes "SRV")
    ∷ (16, codes "TXT")
    ∷ (257, codes "CAA")
    ∷ (65, codes "HTTPS")
    ∷ (64, codes "SVCB")
    ∷ (43, codes "DS")
    ∷ (48, codes "DNSKEY")
    ∷ (35, codes "NAPTR")
    ∷ (52, codes "TLSA")
    ∷ []

unfoldable pub rtype_label : (ℕ → Bytes) → ℕ → Bytes
rtype_label other_type t = unwrap_or (text_at t rtypes) (other_type t)

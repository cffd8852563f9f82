-- ===== src/Engine/Ids.antt =====
-- block.rs: how long a response that blocks is cached.
use bulwark.Common.{ℕ, max, ◌≡◌, ◌⊎◌, inl, inr, Option, arith}
use bulwark.Common.Bytes.{Bytes}
use bulwark.Dns.{Message}
use bulwark.Cache.Message.{soa_ttl, negative_ttl, base_ttl}
use bulwark.Engine.Block.{
  BlockingMode, nx_domain_mode, null_ip, custom_ip, refused_mode, no_data, base, negative_soa,
  block_response,
}

-- The modes that answer with no address but with an SOA record.
abbrev pub IsNegative : BlockingMode → Type 0
IsNegative mode = (mode ≡ nx_domain_mode) ⊎ (mode ≡ no_data)

-- A response that blocks by NXDOMAIN or by no data gives a cache the configured blocking TTL,
-- raised to 1.
pub base_ttl-block_response :
    (from_str : Bytes → Option Bytes) (query : Message) (mode : BlockingMode) (v4 v6 ttl : ℕ)
    → IsNegative mode
    → base_ttl (block_response from_str query mode v4 v6 ttl) ≡ max ttl 1
unfolding base_ttl negative_ttl soa_ttl block_response negative_soa base
base_ttl-block_response from_str query nx_domain_mode v4 v6 ttl h = omega arith
base_ttl-block_response from_str query no_data v4 v6 ttl h = omega arith
base_ttl-block_response from_str query null_ip v4 v6 ttl h = elim h [ inl e ↦ cc | inr e ↦ cc ]
base_ttl-block_response from_str query custom_ip v4 v6 ttl h = elim h [ inl e ↦ cc | inr e ↦ cc ]
base_ttl-block_response from_str query refused_mode v4 v6 ttl h = elim h [ inl e ↦ cc | inr e ↦ cc ]

-- ===== src/Cache/Message.antt =====
-- cache.rs, `negative_ttl`, `adjust_ttls` and the TTL of `cacheable_ttl`.
use bulwark.Common.{
  ℕ, min, max, Bool, not, ◌||◌, Option, none, some, List, [], ◌∷◌, ◌==◌, if◌then◌else◌, ◌>>◌, guard,
  unwrap_or,
}
use bulwark.Dns.{RData, Record, Message}

abbrev pub default_negative_ttl : ℕ
default_negative_ttl = 30

-- The loop of `negative_ttl` over the authorities.
unfoldable pub soa_ttl : List Record → ℕ
soa_ttl [] = default_negative_ttl
soa_ttl (r ∷ recs) =
    let rest = soa_ttl recs in
    elim r.rdata [ RData.soa soa ↦ max (min soa.minimum r.ttl) 1 | _ ↦ rest ]

unfoldable pub negative_ttl : Message → ℕ
unfolding soa_ttl
negative_ttl m = soa_ttl m.authorities

unfoldable pub min_ttl_of : List Record → Option ℕ
min_ttl_of [] = none
min_ttl_of (r ∷ recs) = elim (min_ttl_of recs) [ none ↦ some r.ttl | some t ↦ some (min r.ttl t) ]

unfoldable pub set_ttls : ℕ → List Record → List Record
set_ttls ttl [] = []
set_ttls ttl (r ∷ recs) = record r { ttl = ttl } ∷ set_ttls ttl recs

unfoldable pub adjust_ttls : Message → ℕ → Message
unfolding set_ttls
adjust_ttls m ttl = record m {
  answers = set_ttls ttl m.answers;
  authorities = set_ttls ttl m.authorities;
  additionals = set_ttls ttl m.additionals;
}

abbrev pub no_error : ℕ
no_error = 0

abbrev pub nx_domain : ℕ
nx_domain = 3

pub record CacheConfig : Type 0 where
  pub enabled : Bool
  pub min_ttl : ℕ
  -- 0 is no upper clamp
  pub max_ttl : ℕ
  -- 0 is no serving of stale answers
  pub stale_max_age : ℕ
  pub store_summaries : Bool

unfoldable pub base_ttl : Message → ℕ
unfolding negative_ttl min_ttl_of
base_ttl m = elim m.answers [
  | [] ↦ negative_ttl m
  | r ∷ recs ↦ unwrap_or (min_ttl_of (r ∷ recs)) default_negative_ttl
]

unfoldable pub clamp_ttl : CacheConfig → ℕ → ℕ
clamp_ttl cfg base =
    let ttl = max base cfg.min_ttl in if cfg.max_ttl == 0 then ttl else min ttl cfg.max_ttl

-- `cacheable_ttl`
unfoldable pub cacheable_ttl : CacheConfig → Message → Option ℕ
unfolding base_ttl clamp_ttl
cacheable_ttl cfg m = do
  guard (m.response_code == no_error || m.response_code == nx_domain)
  guard (not m.truncation)
  let ttl = clamp_ttl cfg (base_ttl m)
  guard (not (ttl == 0))
  some ttl

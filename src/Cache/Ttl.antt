-- ===== src/Cache/Ttl.antt =====
-- cache.rs, `cacheable_ttl`: which responses are cached, and for how long.
use bulwark.Common.{
  ℕ, zero, suc, ◌≤◌, ◌≡◌, refl, sym, subst, ◌∙◌, ◌≢◌, ◌⊎◌, inl, inr, Bool, true, false, not, ◌||◌,
  some, arith, ◌==◌, ==_iff, Bool-cases, guard-eq-some, some_injective,
}
use bulwark.Dns.{Message}
use bulwark.Cache.Message.{CacheConfig, base_ttl, clamp_ttl, cacheable_ttl, no_error, nx_domain}

clamp_ttl-bounds :
    (cfg : CacheConfig) (base : ℕ)
    → ((cfg.max_ttl ≡ 0) ⊎ (clamp_ttl cfg base ≤ cfg.max_ttl))
      × ((cfg.max_ttl ≡ 0) ⊎ (cfg.min_ttl ≤ cfg.max_ttl) → cfg.min_ttl ≤ clamp_ttl cfg base)
unfolding clamp_ttl
clamp_ttl-bounds cfg base = elim (Bool-cases (cfg.max_ttl == 0)) [
  | inl free ↦ (inl ((==_iff cfg.max_ttl 0).0 free), λ h. rw (free, clamp_ttl) (omega arith))
  | inr clamped ↦ (
    inr (rw (clamped, clamp_ttl) (omega arith)),
    elim [
      | inl h ↦ absurd (false_true (sym clamped ∙ (==_iff cfg.max_ttl 0).1 h))
      | inr h ↦ rw (clamped, clamp_ttl) (omega (arith, h))
    ],
  )
]
  where
    false_true : false ≢ true
    false_true e = cc

-- A TTL that a response is cached for is at least 1, at most the upper clamp if there is one, and
-- at least the lower clamp if that is not above the upper one; the response is NOERROR or
-- NXDOMAIN and not truncated.
pub cacheable_ttl-bounds :
    (cfg : CacheConfig) (m : Message) (ttl : ℕ)
    → cacheable_ttl cfg m ≡ some ttl
    → (1 ≤ ttl)
      × ((cfg.max_ttl ≡ 0) ⊎ (ttl ≤ cfg.max_ttl))
      × ((cfg.max_ttl ≡ 0) ⊎ (cfg.min_ttl ≤ cfg.max_ttl) → cfg.min_ttl ≤ ttl)
      × ((m.response_code ≡ no_error) ⊎ (m.response_code ≡ nx_domain))
      × (m.truncation ≡ false)
unfolding cacheable_ttl
cacheable_ttl-bounds cfg m ttl h =
    let (rcodes, h₁) =
      guard-eq-some (m.response_code == no_error || m.response_code == nx_domain) _ h in
    let (whole, h₂) = guard-eq-some (not m.truncation) _ h₁ in
    let (positive, h₃) = guard-eq-some (not (clamp_ttl cfg (base_ttl m) == 0)) _ h₂ in
    let same : clamp_ttl cfg (base_ttl m) ≡ ttl = some_injective h₃ in
    let (upper, lower) = clamp_ttl-bounds cfg (base_ttl m) in
    (
      subst (λ t. 1 ≤ t) same (nonzero (clamp_ttl cfg (base_ttl m)) positive),
      subst (λ t. (cfg.max_ttl ≡ 0) ⊎ (t ≤ cfg.max_ttl)) same upper,
      subst (λ t. (cfg.max_ttl ≡ 0) ⊎ (cfg.min_ttl ≤ cfg.max_ttl) → cfg.min_ttl ≤ t) same lower,
      one_of m.response_code rcodes,
      not_true m.truncation whole,
    )
  where
    nonzero : (n : ℕ) → not (n == 0) ≡ true → 1 ≤ n
    nonzero zero e = cc
    nonzero (suc n) e = omega arith

    one_of : (n : ℕ) → n == no_error || n == nx_domain ≡ true → (n ≡ no_error) ⊎ (n ≡ nx_domain)
    one_of n e = elim (Bool-cases (n == no_error)) [
      | inl zeroth ↦ inl ((==_iff n no_error).0 zeroth)
      | inr other ↦ inr ((==_iff n nx_domain).0 (rw other at e))
    ]

    not_true : (b : Bool) → not b ≡ true → b ≡ false
    not_true true e = sym e
    not_true false e = refl

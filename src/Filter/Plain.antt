-- ===== src/Filter/Plain.antt =====
-- engine.rs, `from_rules`: which rules the domain indexes list.
use bulwark.Common.{
  ℕ, ◌%◌, ◌^◌, ◌≡◌, refl, ap, ap₂, ◌∙◌, ◌⊎◌, inl, inr, Bool, true, false, Option, none, some, List,
  [], ◌∷◌, ◌++◌, arith, length, get_elem?, In, here, there, get_elem?-append_length, In-append,
}
use bulwark.Filter.Rule.{Pattern, RuleMods, BuildRule}
use bulwark.Filter.External.{External}
use bulwark.Filter.Scan.{RuleRecord, is_pattern}
use bulwark.Filter.Engine.Builder.{Build, add_mods, place, place_regex, add_rule, gather}
use bulwark.Filter.Gather.{Grows-get_elem?, overrides}
use bulwark.Filter.Gathered.{
  Fits, add_rule-Fits, add_rule-Extends, hashed, with_mods, new_record, placed_records,
}

abbrev pub AnyPair : Build → ℕ → ℕ → Type 0
AnyPair b k i = In (k, i) b.exact_pairs ⊎ In (k, i) b.sub_pairs

-- Record `i` is that of an exact or subdomain rule.
abbrev pub Plain : Build → ℕ → Type 0
Plain b i = (r : RuleRecord) × (get_elem? b.records i ≡ some r) × (is_pattern r.kind ≡ false)

abbrev pub PlainPairs : Build → Type 0
PlainPairs b = (k i : ℕ) → AnyPair b k i → Plain b i

In-snoc {ℓ} : {A : Type ℓ} (xs : List A) (y a : A) → In a (xs ++ y ∷ []) → In a xs ⊎ (a ≡ y)
In-snoc xs y a m = In-append xs (y ∷ []) (λ early. inl early) (λ late. inr (only late)) m
  where
    only : In a (y ∷ []) → a ≡ y
    only (here e) = e
    only (there m') = elim m' [ ]

add_mods-AnyPair :
    (m : Option RuleMods) (b : Build) (k i : ℕ) → AnyPair (add_mods m b).0 k i → AnyPair b k i
unfolding add_mods
add_mods-AnyPair none b k i a = a
add_mods-AnyPair (some m) b k i a = a

module _ (x : External) where
  place-AnyPair :
      (p : Pattern) (oc : Bool) (tokens : List ℕ) (id : ℕ) (b : Build) (k i : ℕ)
      → AnyPair (place x p oc tokens id b).build k i
      → AnyPair b k i ⊎ ((i ≡ id) × (is_pattern (place x p oc tokens id b).kind ≡ false))
  unfolding place place_regex
  place-AnyPair (Pattern.exact d) oc tokens id b k i (inl m) = elim (In-snoc b.exact_pairs _ _ m) [
    | inl before ↦ inl (inl before)
    | inr new ↦ inr (ap (λ (p : ℕ × ℕ). p.1) new, refl)
  ]
  place-AnyPair (Pattern.exact d) oc tokens id b k i (inr m) = inl (inr m)
  place-AnyPair (Pattern.subdomain d) oc tokens id b k i (inl m) = inl (inl m)
  place-AnyPair (Pattern.subdomain d) oc tokens id b k i (inr m) =
      elim (In-snoc b.sub_pairs _ _ m) [
        | inl before ↦ inl (inr before)
        | inr new ↦ inr (ap (λ (p : ℕ × ℕ). p.1) new, refl)
      ]
  place-AnyPair (Pattern.wildcard re) true tokens id b k i a = inl a
  place-AnyPair (Pattern.wildcard re) false tokens id b k i a = inl a
  place-AnyPair (Pattern.regex re) true tokens id b k i a = inl a
  place-AnyPair (Pattern.regex re) false tokens id b k i a = inl a

  add_rule-PlainPairs :
      (b : Build) (br : BuildRule) (rules : List BuildRule)
      → Fits b (br ∷ rules)
      → PlainPairs b
      → PlainPairs (add_rule x b br)
  unfolding add_rule
  add_rule-PlainPairs b br rules f plain k i a =
      elim (place-AnyPair br.rule.pattern (overrides br) br.index_tokens (length b.records % 2 ^ 32)
        (with_mods x b br).0 k i a) [
          | inl before ↦
              let (r, at, kind) =
                plain k i (add_mods-AnyPair br.rule.mods (hashed x b br) k i before) in
              (
                r,
                Grows-get_elem? b.records (add_rule x b br).records i
                    (add_rule-Extends x b br).records at,
                kind,
              )
          | inr (new, kind) ↦
              let place_at : i ≡ length b.records = new ∙ omega (arith, f.records) in
              (
                new_record x b br,
                ap₂ (λ l (n : ℕ). get_elem? (l ++ new_record x b br ∷ []) n) (placed_records x b br)
                      place_at
                    ∙ get_elem?-append_length b.records [] (new_record x b br),
                kind,
              )
        ]

  pub gather-PlainPairs :
      (rules : List BuildRule) (b : Build)
      → Fits b rules
      → PlainPairs b
      → PlainPairs (gather x b rules)
  unfolding gather
  gather-PlainPairs [] b f plain = plain
  gather-PlainPairs (br ∷ rules) b f plain =
      gather-PlainPairs rules (add_rule x b br) (add_rule-Fits x b br rules f)
        (add_rule-PlainPairs b br rules f plain)

-- ===== src/Filter/Winner.antt =====
-- engine.rs, `consider`: the candidates and the one that it keeps.
use bulwark.Common.{
  ℕ, ◌≤◌, ◌≡◌, sym, ap, subst, ◌∙◌, ◌≢◌, ◌⊎◌, inl, inr, true, Option, none, some, List, [], ◌∷◌,
  arith, Bool-cases, Option-cases, get_elem?, In, here, there,
}
use bulwark.Filter.External.{External}
use bulwark.Filter.Scan.{RuleRecord}
use bulwark.Filter.Engine.{
  Query, domain_matches, applicable, priority, better, consider_one, consider,
}
use bulwark.Filter.Engine.Builder.{FilterEngine}

pub record Applies (x : External) (e : FilterEngine) (q : Query) (id : ℕ) (r : RuleRecord)
    : Type 0 where
  pub record_at : get_elem? e.rules id ≡ some r
  pub matches : domain_matches e r q.domain ≡ true
  pub applies : applicable x e r q ≡ true

better-le :
    (id prio b pb w p : ℕ) → better id prio (some (b, pb)) ≡ some (w, p) → (pb ≤ p) × (prio ≤ p)
unfolding better
better-le id prio b pb w p h = ground arith

better-from :
    (id prio w p : ℕ) (best : Option (ℕ × ℕ))
    → better id prio best ≡ some (w, p)
    → (best ≡ some (w, p)) ⊎ ((w ≡ id) × (p ≡ prio))
unfolding better
better-from id prio w p none h = ground arith
better-from id prio w p (some (b, pb)) h = ground arith

better-some : (id prio : ℕ) (best : Option (ℕ × ℕ)) → better id prio best ≢ none
unfolding better
better-some id prio none h = cc
better-some id prio (some (b, pb)) h = ground arith

better-bound :
    (id prio w p : ℕ) (best : Option (ℕ × ℕ)) → better id prio best ≡ some (w, p) → prio ≤ p
unfolding better
better-bound id prio w p none h = ground arith
better-bound id prio w p (some (b, pb)) h = ground arith

module _ (x : External) (e : FilterEngine) (q : Query) where
  consider_one-Applies :
      (id : ℕ) (r : RuleRecord) (best : Option (ℕ × ℕ))
      → Applies x e q id r
      → consider_one x e q id best ≡ better id (priority e r) best
  unfolding consider_one
  consider_one-Applies id r best a = rw (a.record_at, consider_one) (rw (a.matches, a.applies))

  consider_one-cases :
      (id : ℕ) (best : Option (ℕ × ℕ))
      → (consider_one x e q id best ≡ best)
        ⊎ ((r : RuleRecord) × Applies x e q id r
            × (consider_one x e q id best ≡ better id (priority e r) best))
  unfolding consider_one
  consider_one-cases id best = elim (Option-cases (get_elem? e.rules id)) [
    | inl nothing ↦ inl (rw (nothing, consider_one))
    | inr (r, there_is) ↦ elim (Bool-cases (domain_matches e r q.domain)) [
      | inr misses ↦ inl (rw (there_is, consider_one) (rw misses))
      | inl matches ↦ elim (Bool-cases (applicable x e r q)) [
        | inr excluded ↦ inl (rw (there_is, consider_one) (rw (matches, excluded)))
        | inl applies ↦
            let a : Applies x e q id r = record {
              record_at = there_is;
              matches = matches;
              applies = applies;
            } in
            inr (r, a, consider_one-Applies id r best a)
      ]
    ]
  ]

  consider_mono :
      (ids : List ℕ) (best : Option (ℕ × ℕ)) (b pb w p : ℕ)
      → best ≡ some (b, pb)
      → consider x e q ids best ≡ some (w, p)
      → pb ≤ p
  unfolding consider
  consider_mono [] best b pb w p e₁ h = ground arith
  consider_mono (id ∷ ids) best b pb w p e₁ h = elim (consider_one-cases id best) [
    | inl same ↦ consider_mono ids (consider_one x e q id best) b pb w p (same ∙ e₁) h
    | inr (r, a, step) ↦ elim (Option-cases (consider_one x e q id best)) [
      | inl nothing ↦ absurd (better-some id (priority e r) best (sym step ∙ nothing))
      | inr ((c, pc), now) ↦
          let up =
            better-le id (priority e r) b pb c pc
              (ap (better id (priority e r)) (sym e₁) ∙ sym step ∙ now) in
          omega (arith, consider_mono ids (consider_one x e q id best) c pc w p now h)
    ]
  ]

  -- Nothing was found: no candidate applies.
  pub consider-none :
      (ids : List ℕ) (best : Option (ℕ × ℕ))
      → consider x e q ids best ≡ none
      → (best ≡ none) × ((id : ℕ) (r : RuleRecord) → In id ids → ¬ Applies x e q id r)
  unfolding consider
  consider-none [] best h = (h, λ id r m. elim m [ ])
  consider-none (id ∷ ids) best h =
      let (one_none, rest) = consider-none ids (consider_one x e q id best) h in
      elim (consider_one-cases id best) [
        | inr (r, a, step) ↦ absurd (better-some id (priority e r) best (sym step ∙ one_none))
        | inl same ↦ (sym same ∙ one_none, λ j r m. none_of one_none rest j r m)
      ]
    where
      none_of :
          consider_one x e q id best ≡ none
          → ((j : ℕ) (r : RuleRecord) → In j ids → ¬ Applies x e q j r)
          → (j : ℕ) (r : RuleRecord) → In j (id ∷ ids)
          → ¬ Applies x e q j r
      none_of one_none rest j r (there m) a = rest j r m a
      none_of one_none rest j r (here same) a =
          let b = subst (λ k. Applies x e q k r) same a in
          better-some id (priority e r) best (sym (consider_one-Applies id r best b) ∙ one_none)

  -- The winner's priority is not below that of any candidate that applies.
  pub consider-bound :
      (ids : List ℕ) (best : Option (ℕ × ℕ)) (w p id : ℕ) (r : RuleRecord)
      → consider x e q ids best ≡ some (w, p)
      → In id ids
      → Applies x e q id r
      → priority e r ≤ p
  unfolding consider
  consider-bound [] best w p id r h m a = elim m [ ]
  consider-bound (j ∷ ids) best w p id r h (there m) a =
      consider-bound ids (consider_one x e q j best) w p id r h m a
  consider-bound (j ∷ ids) best w p id r h (here same) a =
      let b = subst (λ k. Applies x e q k r) same a in
      let step = consider_one-Applies j r best b in
      elim (Option-cases (consider_one x e q j best)) [
        | inl nothing ↦ absurd (better-some j (priority e r) best (sym step ∙ nothing))
        | inr ((c, pc), now) ↦ omega (
          arith,
          better-bound j (priority e r) c pc best (sym step ∙ now),
          consider_mono ids (consider_one x e q j best) c pc w p now h,
        )
      ]

  -- The winner is a candidate that applies, or was there before.
  pub consider-from :
      (ids : List ℕ) (best : Option (ℕ × ℕ)) (w p : ℕ)
      → consider x e q ids best ≡ some (w, p)
      → (best ≡ some (w, p))
        ⊎ ((r : RuleRecord) × In w ids × Applies x e q w r × (p ≡ priority e r))
  unfolding consider
  consider-from [] best w p h = inl h
  consider-from (id ∷ ids) best w p h =
      elim (consider-from ids (consider_one x e q id best) w p h) [
        | inr (r, m, a, prio) ↦ inr (r, there m, a, prio)
        | inl now ↦ elim (consider_one-cases id best) [
          | inl same ↦ inl (sym same ∙ now)
          | inr (r, a, step) ↦ elim (better-from id (priority e r) w p best (sym step ∙ now)) [
            | inl before ↦ inl before
            | inr (who, prio) ↦ inr (r, here who, subst (λ k. Applies x e q k r) (sym who) a, prio)
          ]
        ]
      ]

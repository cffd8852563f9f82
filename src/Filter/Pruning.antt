-- ===== src/Filter/Pruning.antt =====
-- list.rs, `prune_redundant`: the rules before and after it.
pub mod Ancestors
use bulwark.Common.{
  ℕ, zero, suc, ◌+◌, ◌≤◌, ◌<◌, ◌≡◌, refl, sym, ap, ap₂, subst, ◌∙◌, ◌≢◌, ◌↔◌, ◌⊎◌, inl, inr, Bool,
  true, false, not, ◌&&◌, ◌||◌, Option, none, some, List, [], ◌∷◌, ◌++◌, append_assoc, arith, ◌==◌,
  if◌then◌else◌, ==_iff, Bool-cases, Option-cases, is_some, unwrap_or, length, keep_if, In, here,
  there, length-append, some_injective,
}
use bulwark.Common.Bytes.{Bytes, bytes_eq, bytes_eq_sound, bytes_eq_refl}
use bulwark.Filter.Rule.{
  Action, block, allow, rewrite, Pattern, Rule, BuildRule, contains_text, is_empty, rule_priority,
  base_priority, is_important, RuleMods,
}
use bulwark.Filter.External.{External}
use bulwark.Filter.Engine.{after_dot, Query}
use bulwark.Filter.Domain.{IsUnder, is_subdomain_of_iff, after_dot-IsUnder, after_dot-lt}
use bulwark.Filter.Meaning.{rule_applies, pattern_matches}
use bulwark.Filter.Compiler.{
  is_block, subdomain_of, own_domain, is_plain_block, subsumer, subsumers, ancestor_in,
  is_redundant, prune_redundant,
}
use bulwark.Filter.Pruning.Ancestors.{
  contains_text-In, IsUnder-trans, IsUnder-lt, ancestor_in_sound,
}

-- A rule with the given action and priority applies to the query.
abbrev pub Answered : External → List BuildRule → Query → Action → ℕ → Type 0
Answered x rules q a n =
    (br : BuildRule) × In br rules
    × (rule_applies x br.rule q ≡ true)
    × (br.rule.action ≡ a)
    × (rule_priority br.rule ≡ n)

pub keep_if-In {ℓ} :
    {A : Type ℓ} (p : A → Bool) (xs : List A) (a : A) → In a (keep_if p xs) → In a xs
keep_if-In p [] a m = m
keep_if-In p (y ∷ xs) a m = elim (Bool-cases (p y)) [
  | inr drops ↦ there (keep_if-In p xs a (rw drops at m))
  | inl keeps ↦ elim (rw keeps at m) [ here e ↦ here e | there n ↦ there (keep_if-In p xs a n) ]
]

In-keep_if {ℓ} :
    {A : Type ℓ} (p : A → Bool) (xs : List A) (a : A) → In a xs → p a ≡ true → In a (keep_if p xs)
In-keep_if p [] a m h = m
In-keep_if p (y ∷ xs) a (here e) h = rw (ap p (sym e) ∙ h) (here e)
In-keep_if p (y ∷ xs) a (there m) h = elim (Bool-cases (p y)) [
  | inl keeps ↦ rw keeps (there (In-keep_if p xs a m h))
  | inr drops ↦ rw drops (In-keep_if p xs a m h)
]

-- A plain block of a domain and what is under it.
abbrev IsSubsumer : Bytes → BuildRule → Type 0
IsSubsumer s br = (is_plain_block br.rule ≡ true) × (br.rule.pattern ≡ Pattern.subdomain s)

subsumer-IsSubsumer : (br : BuildRule) (s : Bytes) → subsumer br.rule ≡ some s → IsSubsumer s br
unfolding subsumer
subsumer-IsSubsumer br s h = elim (Bool-cases (is_plain_block br.rule)) [
  | inr other ↦ absurd (none_some (rw other at h))
  | inl plain ↦ (plain, by_pattern br.rule.pattern (rw plain at h))
]
  where
    none_some : {t : Bytes} → none ≢ some t
    none_some e = cc

    by_pattern : (p : Pattern) → subdomain_of p ≡ some s → p ≡ Pattern.subdomain s
    by_pattern (Pattern.subdomain d) e = ap Pattern.subdomain (some_injective e)
    by_pattern (Pattern.exact d) e = cc
    by_pattern (Pattern.wildcard re) e = cc
    by_pattern (Pattern.regex re) e = cc

subsumers-In :
    (brs : List BuildRule) (s : Bytes)
    → In s (subsumers brs)
    → (br : BuildRule) × In br brs × IsSubsumer s br
unfolding subsumers
subsumers-In [] s m = elim m [ ]
subsumers-In (br ∷ brs) s m = elim (Option-cases (subsumer br.rule)) [
  | inl nothing ↦
      let (c, mc, is) = subsumers-In brs s (rw (nothing, subsumers) at m) in (c, there mc, is)
  | inr (d, there_is) ↦ elim (rw (there_is, subsumers) at m) [
    | here e ↦ (br, here refl, subsumer-IsSubsumer br s (there_is ∙ ap some (sym e)))
    | there n ↦ let (c, mc, is) = subsumers-In brs s n in (c, there mc, is)
  ]
]

plain_block_fields :
    (r : Rule)
    → is_plain_block r ≡ true
    → (r.action ≡ block) × (r.mods ≡ none) × (rule_priority r ≡ 1)
unfolding is_plain_block rule_priority
plain_block_fields r h = by_fields r.action r.mods h
  where
    by_fields :
        (a : Action) (m : Option RuleMods)
        → is_block a && not (is_some m) ≡ true
        → (a ≡ block) × (m ≡ none) × (base_priority a + (if is_important m then 100 else 0) ≡ 1)
    by_fields block none k = (refl, refl, omega arith)
    by_fields block (some m) k = cc
    by_fields allow m k = cc
    by_fields rewrite m k = cc

module _ (x : External) (active : List BuildRule) (q : Query) where
  abbrev keeps : BuildRule → Bool
  keeps br = not (is_redundant (subsumers active) br)

  abbrev Kept : Action → ℕ → Type 0
  Kept a n = Answered x (keep_if keeps active) q a n

  plain_block-applies :
      (br : BuildRule)
      → is_plain_block br.rule ≡ true
      → pattern_matches x br.rule.pattern q.domain ≡ true
      → rule_applies x br.rule q ≡ true
  unfolding rule_applies
  plain_block-applies br plain matches =
      let (action, mods, prio) = plain_block_fields br.rule plain in rw (matches, mods) refl

  redundant_by_pattern :
      (p : Pattern)
      → (elim (own_domain p) [
        | none ↦ false
        | some (d, include_self) ↦
            (include_self && contains_text (subsumers active) d)
            || ancestor_in (subsumers active) (length d) d
      ])
        ≡ true
      → pattern_matches x p q.domain ≡ true
      → (s : Bytes) × In s (subsumers active)
        × ((q.domain ≡ s) ⊎ IsUnder q.domain s)
        × ((d : Bytes) → p ≡ Pattern.subdomain d → length s < length d)
  unfolding pattern_matches
  redundant_by_pattern (Pattern.subdomain d) h matches =
      let (s, m, under) = ancestor_in_sound (subsumers active) (length d) d h in
      (
        s,
        m,
        inr (IsUnder-trans q.domain d s ((is_subdomain_of_iff q.domain d).0 matches) under),
        λ d' e.
            subst (λ t. length s < length t) (ap (λ p. unwrap_or (subdomain_of p) []) e)
              (IsUnder-lt d s under),
      )
  redundant_by_pattern (Pattern.exact d) h matches =
      elim (Bool-cases (contains_text (subsumers active) d)) [
        | inl listed ↦ (
          d,
          (contains_text-In (subsumers active) d).0 listed,
          inl (sym (bytes_eq_sound d q.domain matches)),
          λ d' e. cc,
        )
        | inr unlisted ↦
            let (s, m, under) =
              ancestor_in_sound (subsumers active) (length d) d (rw unlisted at h) in
            (
              s,
              m,
              inr (
                  IsUnder-trans q.domain d s (inl (sym (bytes_eq_sound d q.domain matches))) under),
              λ d' e. cc,
            )
      ]
  redundant_by_pattern (Pattern.wildcard re) h matches = cc
  redundant_by_pattern (Pattern.regex re) h matches = cc

  -- Redundancy is only ever due to a subsumer above the rule's domain, or at it.
  is_redundant_sound :
      (br : BuildRule)
      → is_redundant (subsumers active) br ≡ true
      → pattern_matches x br.rule.pattern q.domain ≡ true
      → (is_plain_block br.rule ≡ true)
        × ((s : Bytes) × In s (subsumers active)
            × ((q.domain ≡ s) ⊎ IsUnder q.domain s)
            × ((d : Bytes) → br.rule.pattern ≡ Pattern.subdomain d → length s < length d))
  unfolding is_redundant pattern_matches
  is_redundant_sound br h matches = elim (Bool-cases (is_plain_block br.rule)) [
    | inr other ↦ absurd (false_true (rw (other, is_redundant) at h))
    | inl plain ↦
        (plain, redundant_by_pattern br.rule.pattern (rw (plain, is_redundant) at h) matches)
  ]
    where
      false_true : false ≢ true
      false_true e = cc

  pruned-Answered : (a : Action) (n : ℕ) → Kept a n → Answered x active q a n
  pruned-Answered a n (br, m, applies, act, prio) =
      (br, keep_if-In keeps active br m, applies, act, prio)

  -- Above any subsumer that covers the query stands one that is kept.
  subsumer-Kept :
      (size : ℕ) (s : Bytes)
      → length s < size
      → In s (subsumers active)
      → (q.domain ≡ s) ⊎ IsUnder q.domain s
      → Kept block 1
  unfolding pattern_matches
  subsumer-Kept zero s f m under = absurd (omega arith)
  subsumer-Kept (suc size) s f m under =
      let (br, mb, (plain, pattern)) = subsumers-In active s m in
      let matches : pattern_matches x br.rule.pattern q.domain ≡ true =
        rw pattern ((is_subdomain_of_iff q.domain s).1 under) in
      let (action, mods, prio) = plain_block_fields br.rule plain in
      elim (Bool-cases (is_redundant (subsumers active) br)) [
        | inr needed ↦ (
          br,
          In-keep_if keeps active br mb (ap not needed),
          plain_block-applies br plain matches,
          action,
          prio,
        )
        | inl redundant ↦
            let (p, (t, mt, under_t, shorter)) = is_redundant_sound br redundant matches in
            subsumer-Kept size t (omega (arith, shorter s pattern)) mt under_t
      ]

  Answered-pruned : (a : Action) (n : ℕ) → Answered x active q a n → Kept a n
  unfolding rule_applies
  Answered-pruned a n (br, m, applies, act, prio) =
      elim (Bool-cases (is_redundant (subsumers active) br)) [
        | inr needed ↦ (br, In-keep_if keeps active br m (ap not needed), applies, act, prio)
        | inl redundant ↦
            let matches = and_left (pattern_matches x br.rule.pattern q.domain) _ applies in
            let (plain, (s, ms, under, shorter)) = is_redundant_sound br redundant matches in
            let (action, mods, one) = plain_block_fields br.rule plain in
            subst (λ b. Kept b n) (sym action ∙ act)
              (subst (Kept block) (sym one ∙ prio)
                (subsumer-Kept (suc (length s)) s (omega arith) ms under))
      ]
    where
      and_left : (b c : Bool) → b && c ≡ true → b ≡ true
      and_left true c e = refl
      and_left false c e = cc

  -- For any query, a rule of a given action and priority applies among the rules before the
  -- pruning exactly if one does among those that the pruning keeps.
  pub prune_redundant-Answered :
      (a : Action) (n : ℕ) → Answered x active q a n ↔ Answered x (prune_redundant active) q a n
  unfolding prune_redundant
  prune_redundant-Answered a n = elim (Bool-cases (is_empty (subsumers active))) [
    | inl no_subsumer ↦ rw no_subsumer (λ h. h, λ h. h)
    | inr some_subsumer ↦ rw some_subsumer (Answered-pruned a n, pruned-Answered a n)
  ]

-- ===== src/Filter/Pruning/Ancestors.antt =====
-- list.rs, `is_redundant`: the names above a name.
use bulwark.Common.{
  ℕ, zero, suc, ◌≤◌, ◌<◌, ◌≡◌, refl, sym, ap, ap₂, subst, ◌∙◌, ◌≢◌, ◌↔◌, ◌⊎◌, inl, inr, Bool, true,
  false, ◌||◌, some, List, [], ◌∷◌, ◌++◌, append_assoc, arith, ◌==◌, ==_iff, Bool-cases,
  Option-cases, length, In, here, there, length-append, some_injective,
}
use bulwark.Common.Bytes.{Bytes, bytes_eq, bytes_eq_sound, bytes_eq_refl}
use bulwark.Filter.Rule.{contains_text}
use bulwark.Filter.Engine.{after_dot}
use bulwark.Filter.Domain.{IsUnder, after_dot-IsUnder, after_dot-lt}
use bulwark.Filter.Compiler.{ancestor_in}

pub contains_text-In : (xs : List Bytes) (t : Bytes) → contains_text xs t ≡ true ↔ In t xs
unfolding contains_text
contains_text-In [] t = (λ h. cc, λ m. elim m [ ])
contains_text-In (y ∷ xs) t = (
  λ h. elim (Bool-cases (bytes_eq y t)) [
    | inl same ↦ here (sym (bytes_eq_sound y t same))
    | inr other ↦ there ((contains_text-In xs t).0 (ground arith))
  ],
  elim [
    | here e ↦ rw (ap (bytes_eq y) e ∙ bytes_eq_refl y)
    | there m ↦ ground (arith, (contains_text-In xs t).1 m)
  ],
)

pub IsUnder-trans : (q d s : Bytes) → (q ≡ d) ⊎ IsUnder q d → IsUnder d s → IsUnder q s
IsUnder-trans q d s (inl same) (front, e) = (front, same ∙ e)
IsUnder-trans q d s (inr (f, e)) (g, e') =
    (f ++ b'.' ∷ g, e ∙ ap (λ l. f ++ b'.' ∷ l) e' ∙ sym (append_assoc f (b'.' ∷ g) (b'.' ∷ s)))

pub IsUnder-lt : (d s : Bytes) → IsUnder d s → length s < length d
IsUnder-lt d s (front, e) = omega (arith, ap length e, length-append front (b'.' ∷ s))

after_dot-front : (d parent : Bytes) → after_dot d ≡ some parent → IsUnder d parent
unfolding after_dot
after_dot-front [] parent h = cc
after_dot-front (c ∷ d) parent h = elim (Bool-cases (c == b'.')) [
  | inl dot ↦ ([], ap₂ ◌∷◌ ((==_iff c b'.').0 dot) (some_injective (rw dot at h)))
  | inr other ↦
      let (front, e) = after_dot-front d parent (rw other at h) in (c ∷ front, ap (◌∷◌ c) e)
]

pub ancestor_in_sound :
    (subs : List Bytes) (fuel : ℕ) (d : Bytes)
    → ancestor_in subs fuel d ≡ true
    → (s : Bytes) × In s subs × IsUnder d s
unfolding ancestor_in
ancestor_in_sound subs zero d h = cc
ancestor_in_sound subs (suc fuel) d h = elim (Option-cases (after_dot d)) [
  | inl nothing ↦ absurd (false_true (rw (nothing, ancestor_in) at h))
  | inr (parent, there_is) ↦ elim (Bool-cases (contains_text subs parent)) [
    | inl listed ↦
        (parent, (contains_text-In subs parent).0 listed, after_dot-front d parent there_is)
    | inr unlisted ↦
        let (s, m, under) =
          ancestor_in_sound subs fuel parent (rw unlisted at (rw (there_is, ancestor_in) at h)) in
        (s, m, IsUnder-trans d parent s (inr (after_dot-front d parent there_is)) under)
  ]
]
  where
    false_true : false ≢ true
    false_true e = cc

ancestor_in_complete :
    (subs : List Bytes) (fuel : ℕ) (d s : Bytes)
    → length d ≤ fuel
    → In s subs
    → IsUnder d s
    → ancestor_in subs fuel d ≡ true
unfolding ancestor_in
ancestor_in_complete subs zero d s f m u = absurd (omega (arith, IsUnder-lt d s u))
ancestor_in_complete subs (suc fuel) d s f m (front, e) =
    let (parent, found, under) = after_dot-IsUnder front s in
    let there_is : after_dot d ≡ some parent = ap after_dot e ∙ found in
    elim under [
      | inl same ↦ rw (
        there_is,
        ancestor_in,
        (contains_text-In subs parent).1 (subst (λ t. In t subs) (sym same) m),
      )
      | inr below ↦
          let later =
            ancestor_in_complete subs fuel parent s (omega (arith, after_dot-lt d parent there_is))
              m below in
          rw (there_is, ancestor_in, later) (or_true (contains_text subs parent))
    ]
  where
    or_true : (b : Bool) → b || true ≡ true
    or_true true = refl
    or_true false = refl

-- The loop over what follows each dot of a domain, given as much fuel as the domain is long,
-- finds a listed domain exactly if the domain lies strictly under one.
pub ancestor_in_iff :
    (subs : List Bytes) (d : Bytes)
    → (ancestor_in subs (length d) d ≡ true) ↔ ((s : Bytes) × In s subs × IsUnder d s)
ancestor_in_iff subs d = (
  ancestor_in_sound subs (length d) d,
  λ (s, m, under). ancestor_in_complete subs (length d) d s (omega arith) m under,
)

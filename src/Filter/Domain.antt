-- ===== src/Filter/Domain.antt =====
-- engine.rs, `is_subdomain_of` against the relation that it decides.
use bulwark.Common.{
  ℕ, zero, suc, ◌+◌, ◌-◌, ◌<◌, ◌≡◌, refl, sym, ap, ap₂, ◌∙◌, ◌↔◌, ◌⊎◌, inl, inr, true, some, [],
  ◌∷◌, ◌++◌, arith, ◌==◌, lt→ltb, Bool-cases, unwrap_or, length, get_elem?, take, drop,
  length-append, drop-append_self, drop-drop, get_elem?-append_length,
}
use bulwark.Common.Bytes.{Bytes, bytes_eq, bytes_eq_sound, bytes_eq_refl}
use bulwark.Filter.Engine.{after_dot}
use bulwark.Filter.Engine.Builder.{is_subdomain_of, ends_with_label}

-- `domain` is some labels, a dot and `base`.
abbrev pub IsUnder : Bytes → Bytes → Type 0
IsUnder domain base = (front : Bytes) × (domain ≡ front ++ b'.' ∷ base)

drop_at :
    (n : ℕ) (xs : Bytes)
    → n < length xs
    → drop n xs ≡ unwrap_or (get_elem? xs n) 0 ∷ drop (suc n) xs
drop_at n [] h = elim h [ ]
drop_at zero (x ∷ xs) h = refl
drop_at (suc n) (x ∷ xs) h = drop_at n xs (omega arith)

take-append-drop : (n : ℕ) (xs : Bytes) → xs ≡ take n xs ++ drop n xs
take-append-drop zero xs = refl
take-append-drop (suc n) [] = refl
take-append-drop (suc n) (x ∷ xs) = ap (◌∷◌ x) (take-append-drop n xs)

ends_with_label-IsUnder :
    (domain base : Bytes) → ends_with_label domain base ≡ true → IsUnder domain base
unfolding ends_with_label
ends_with_label-IsUnder domain base h =
    let n = length domain - length base - 1 in
    let longer : length base < length domain = ground arith in
    let tail : drop (length domain - length base) domain ≡ base =
      bytes_eq_sound (drop (length domain - length base) domain) base (ground arith) in
    let dot : unwrap_or (get_elem? domain n) 0 ≡ b'.' = ground arith in
    let index : suc n ≡ length domain - length base = omega arith in
    (
      take n domain,
      take-append-drop n domain
          ∙ ap (◌++◌ (take n domain))
              (drop_at n domain (omega arith) ∙ ap₂ ◌∷◌ dot (ap (λ k. drop k domain) index ∙ tail)),
    )

IsUnder-ends_with_label :
    (domain base : Bytes) → IsUnder domain base → ends_with_label domain base ≡ true
unfolding ends_with_label
IsUnder-ends_with_label domain base (front, e) =
    let size = length-append front (b'.' ∷ base) in
    let total : length domain ≡ length front + suc (length base) = ap length e ∙ size in
    let whole : drop (length front + 1) domain ≡ base =
      sym (drop-drop 1 (length front) domain)
      ∙ ap (λ l. drop 1 (drop (length front) l)) e
      ∙ ap (drop 1) (drop-append_self front (b'.' ∷ base)) in
    let dot : get_elem? domain (length front) ≡ some b'.' =
      ap (λ l. get_elem? l (length front)) e ∙ get_elem?-append_length front base b'.' in
    let cut : length domain - length base ≡ length front + 1 = omega arith in
    let before : length domain - length base - 1 ≡ length front = omega arith in
    rw (
      lt→ltb (length base) (length domain) (omega arith),
      before,
      dot,
      cut,
      whole,
      bytes_eq_refl base,
    )

-- A text is taken for a subdomain of a base exactly if it is the base or some text, a dot and the
-- base: merely ending in the base is not enough.
pub is_subdomain_of_iff :
    (domain base : Bytes)
    → (is_subdomain_of domain base ≡ true) ↔ ((domain ≡ base) ⊎ IsUnder domain base)
unfolding is_subdomain_of
is_subdomain_of_iff domain base = (
  λ h. elim (Bool-cases (bytes_eq domain base)) [
    | inl same ↦ inl (bytes_eq_sound domain base same)
    | inr other ↦ inr (ends_with_label-IsUnder domain base (ground arith))
  ],
  elim [
    | inl same ↦ rw (same, bytes_eq_refl base)
    | inr under ↦ ground (arith, IsUnder-ends_with_label domain base under)
  ],
)

-- What follows the first dot of a subdomain is a subdomain still, or the base.
pub after_dot-IsUnder :
    (front base : Bytes)
    → (rest : Bytes) × (after_dot (front ++ b'.' ∷ base) ≡ some rest)
      × ((rest ≡ base) ⊎ IsUnder rest base)
unfolding after_dot
after_dot-IsUnder [] base = (base, refl, inl refl)
after_dot-IsUnder (c ∷ front) base = elim (Bool-cases (c == b'.')) [
  | inl dot ↦ (front ++ b'.' ∷ base, rw dot, inr (front, refl))
  | inr other ↦ let (rest, e, under) = after_dot-IsUnder front base in (rest, rw other e, under)
]

pub after_dot-lt : (hay rest : Bytes) → after_dot hay ≡ some rest → length rest < length hay
unfolding after_dot
after_dot-lt [] rest h = cc
after_dot-lt (c ∷ hay) rest h = elim (Bool-cases (c == b'.')) [
  | inl dot ↦
      let same : some hay ≡ some rest = rw dot at h in
      omega (arith, ap (λ o. length (unwrap_or o [])) same)
  | inr other ↦ omega (arith, after_dot-lt hay rest (rw other at h))
]

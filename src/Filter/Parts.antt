-- ===== src/Filter/Parts.antt =====
-- The operations of `str`: what holds of all bytes of a text, for the parts of it.
use bulwark.Common.{
  ℕ, zero, suc, ◌≡◌, refl, ap, subst, ◌≢◌, ◌⊎◌, inl, inr, none, some, [], ◌∷◌, ◌==◌, Bool-cases,
  >>=-eq-some, length, take, drop, All, some_injective,
}
use bulwark.Common.Bytes.{Bytes}
use bulwark.Filter.Text.{
  reverse_onto, reverse, starts_with, strip_prefix, strip_suffix, split_once, trim,
  drop_while_space, space_front, space_back, trim_start_matches, trim_end_matches,
}

module _ {κ} (P : ℕ → Type κ) where
  pub All-drop : (n : ℕ) (s : Bytes) → All P s → All P (drop n s)
  All-drop zero s h = h
  All-drop (suc n) [] h = h
  All-drop (suc n) (c ∷ s) h = All-drop n s h.1

  pub All-take : (n : ℕ) (s : Bytes) → All P s → All P (take n s)
  All-take zero s h = tt
  All-take (suc n) [] h = h
  All-take (suc n) (c ∷ s) h = (h.0, All-take n s h.1)

  All-reverse_onto : (s acc : Bytes) → All P s → All P acc → All P (reverse_onto s acc)
  unfolding reverse_onto
  All-reverse_onto [] acc h k = k
  All-reverse_onto (c ∷ s) acc h k = All-reverse_onto s (c ∷ acc) h.1 (h.0, k)

  All-reverse : (s : Bytes) → All P s → All P (reverse s)
  All-reverse s h = All-reverse_onto s [] h tt

  pub All-strip_prefix :
      (prefix s rest : Bytes) → strip_prefix prefix s ≡ some rest → All P s → All P rest
  unfolding strip_prefix
  All-strip_prefix prefix s rest e h = elim (Bool-cases (starts_with s prefix)) [
    | inl front ↦ subst (All P) (some_injective (rw front at e)) (All-drop (length prefix) s h)
    | inr other ↦ absurd (nothing (rw other at e))
  ]
    where
      nothing : {r : Bytes} → none ≢ some r
      nothing k = cc

  pub All-strip_suffix :
      (suffix s rest : Bytes) → strip_suffix suffix s ≡ some rest → All P s → All P rest
  unfolding strip_suffix
  All-strip_suffix suffix s rest e h =
      let (front, stripped, is) = >>=-eq-some (strip_prefix (reverse suffix) (reverse s)) _ e in
      subst (All P) (some_injective is) (
        All-reverse front
          (All-strip_prefix (reverse suffix) (reverse s) front stripped (All-reverse s h)))

  pub All-split_once :
      (b : ℕ) (s front back : Bytes)
      → split_once b s ≡ some (front, back)
      → All P s
      → All P front × All P back
  unfolding split_once
  All-split_once b [] front back e h = cc
  All-split_once b (c ∷ s) front back e h = elim (Bool-cases (c == b)) [
    | inl found ↦
        let pair = some_injective (rw found at e) in
        (subst (All P) (ap (λ p. p.0) pair) tt, subst (All P) (ap (λ p. p.1) pair) h.1)
    | inr other ↦
        let ((f, k), at, is) = >>=-eq-some (split_once b s) _ (rw other at e) in
        let pair = some_injective is in
        let (hf, hk) = All-split_once b s f k at h.1 in
        (subst (All P) (ap (λ p. p.0) pair) (h.0, hf), subst (All P) (ap (λ p. p.1) pair) hk)
  ]

  All-drop_while_space :
      (front : Bytes → ℕ) (fuel : ℕ) (s : Bytes) → All P s → All P (drop_while_space front fuel s)
  unfolding drop_while_space
  All-drop_while_space front zero s h = h
  All-drop_while_space front (suc fuel) s h = elim (ℕ-cases (front s)) [
    | inl none_left ↦ rw (none_left, drop_while_space) h
    | inr (n, more) ↦
        rw (more, drop_while_space)
          (All-drop_while_space front fuel (drop (suc n) s) (All-drop (suc n) s h))
  ]
    where
      ℕ-cases : (n : ℕ) → (n ≡ 0) ⊎ ((m : ℕ) × (n ≡ suc m))
      ℕ-cases zero = inl refl
      ℕ-cases (suc n) = inr (n, refl)

  pub All-trim : (s : Bytes) → All P s → All P (trim s)
  unfolding trim
  All-trim s h =
      let t = drop_while_space space_front (length s) s in
      All-reverse _ (
        All-drop_while_space space_back (length t) (reverse t)
          (All-reverse t (All-drop_while_space space_front (length s) s h)))

  All-trim_start_matches : (b : ℕ) (s : Bytes) → All P s → All P (trim_start_matches b s)
  unfolding trim_start_matches
  All-trim_start_matches b [] h = h
  All-trim_start_matches b (c ∷ s) h = elim (Bool-cases (c == b)) [
    | inl front ↦ rw front (All-trim_start_matches b s h.1)
    | inr other ↦ rw other h
  ]

  pub All-trim_end_matches : (b : ℕ) (s : Bytes) → All P s → All P (trim_end_matches b s)
  unfolding trim_end_matches
  All-trim_end_matches b s h =
      All-reverse _ (All-trim_start_matches b (reverse s) (All-reverse s h))

-- ===== src/Wire/Names.antt =====
-- wire.rs, names: the fuel of the two name loops, where they stop, and how they agree.
use bulwark.Common.{
  ℕ, zero, suc, ◌+◌, ◌/◌, ◌≤◌, ◌<◌, ◌≡◌, refl, ap, ◌∙◌, ◌≢◌, none, some, arith, [], ◌∷◌, length,
  get_elem?, Option-cases, inl, inr, ◌==◌, Bool-cases, some_injective, subst, sym, true, false, ◌↔◌,
}
use bulwark.Common.Bytes.{Bytes}
use bulwark.Wire.{skip_name}

-- A read past the end fails.
get_elem?-none : (buf : Bytes) (i : ℕ) → length buf ≤ i → get_elem? buf i ≡ none
get_elem?-none [] i h = refl
get_elem?-none (x ∷ buf) zero h = absurd (omega arith)
get_elem?-none (x ∷ buf) (suc i) h = get_elem?-none buf i (omega arith)

-- Where a name ends, with no bound on the walk: a zero byte or a pointer ends it, and a label is
-- stepped over.
pub data NameEnds (buf : Bytes) : ℕ → ℕ → Type 0 where
  root : (pos : ℕ) → get_elem? buf pos ≡ some 0 → NameEnds buf pos (pos + 1)
  pointer : (pos b : ℕ) → get_elem? buf pos ≡ some b → b / 64 ≡ 3 → NameEnds buf pos (pos + 2)
  label :
      (pos b end : ℕ)
      → get_elem? buf pos ≡ some b
      → b / 64 ≡ 0
      → 1 ≤ b
      → NameEnds buf (pos + (1 + b)) end
      → NameEnds buf pos end

skip_name-NameEnds :
    (fuel : ℕ) (buf : Bytes) (pos end : ℕ)
    → skip_name fuel buf pos ≡ some end
    → NameEnds buf pos end
unfolding skip_name
skip_name-NameEnds zero buf pos end h = cc
skip_name-NameEnds (suc fuel) buf pos end h = elim (Option-cases (get_elem? buf pos)) [
  | inl e ↦ absurd (none_some (rw (e, skip_name) at h))
  | inr (b, e) ↦ elim (Bool-cases (b / 64 == 0)) [
    | inl small ↦ elim (Bool-cases (b == 0)) [
      | inl zero_byte ↦
          subst (NameEnds buf pos) (some_injective (rw (e, small, zero_byte, skip_name) at h))
            (root pos (e ∙ ap some (ground arith)))
      | inr more ↦
          label pos b end e (ground arith) (ground arith)
            (skip_name-NameEnds fuel buf (pos + (1 + b)) end (rw (e, small, more, skip_name) at h))
    ]
    | inr big ↦ elim (Bool-cases (b / 64 == 3)) [
      | inl points ↦
          subst (NameEnds buf pos) (some_injective (rw (e, big, points, skip_name) at h))
            (pointer pos b e (ground arith))
      | inr other ↦ absurd (none_some (rw (e, big, other, skip_name) at h))
    ]
  ]
]
  where
    none_some : {i : ℕ} → none ≢ some i
    none_some k = cc

past : (buf : Bytes) (pos b : ℕ) → length buf ≤ pos → get_elem? buf pos ≢ some b
past buf pos b h e = none_some (sym (get_elem?-none buf pos h) ∙ e)
  where
    none_some : {i : ℕ} → none ≢ some i
    none_some k = cc

NameEnds-skip_name :
    (fuel : ℕ) (buf : Bytes) (pos end : ℕ)
    → length buf ≤ pos + fuel
    → NameEnds buf pos end
    → skip_name fuel buf pos ≡ some end
unfolding skip_name
NameEnds-skip_name zero buf pos end h (root _ e) = absurd (past buf pos 0 (omega arith) e)
NameEnds-skip_name zero buf pos end h (pointer _ b e p) = absurd (past buf pos b (omega arith) e)
NameEnds-skip_name zero buf pos end h (label _ b _ e p q n) =
    absurd (past buf pos b (omega arith) e)
NameEnds-skip_name (suc fuel) buf pos end h (root _ e) = rw (e, skip_name) refl
NameEnds-skip_name (suc fuel) buf pos end h (pointer _ b e p) =
    let not_small : b / 64 == 0 ≡ false = ground arith in
    let points : b / 64 == 3 ≡ true = ground arith in rw (e, not_small, points, skip_name) refl
NameEnds-skip_name (suc fuel) buf pos end h (label _ b _ e p q n) =
    let small : b / 64 == 0 ≡ true = ground arith in
    let more : b == 0 ≡ false = ground arith in
    rw (e, small, more, skip_name) (NameEnds-skip_name fuel buf (pos + (1 + b)) end (omega arith) n)

-- With fuel for the bytes that are left, skip_name finds an end exactly if the walk of the
-- source, which has no bound, comes to it: over labels up to a zero byte or a pointer.
pub skip_name_iff :
    (fuel : ℕ) (buf : Bytes) (pos end : ℕ)
    → length buf ≤ pos + fuel
    → (skip_name fuel buf pos ≡ some end) ↔ NameEnds buf pos end
skip_name_iff fuel buf pos end h =
    (skip_name-NameEnds fuel buf pos end, NameEnds-skip_name fuel buf pos end h)

-- A name takes at least one byte.
pub skip_name-lt : (f : ℕ) (buf : Bytes) (pos e : ℕ) → skip_name f buf pos ≡ some e → pos < e
unfolding skip_name
skip_name-lt zero buf pos e h = cc
skip_name-lt (suc f) buf pos e h = elim (Option-cases (get_elem? buf pos)) [
  | inl n ↦ ground arith
  | inr (b, n) ↦ ground (arith, skip_name-lt f buf (pos + (1 + b)) e)
]

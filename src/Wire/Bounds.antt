-- ===== src/Wire/Bounds.antt =====
-- wire.rs: where the offsets that the scan finds can lie.
use bulwark.Common.{
  ℕ, zero, suc, ◌+◌, ◌≤◌, ◌≡◌, inl, inr, some, List, [], ◌∷◌, arith, leb, ◌==◌, if◌then◌else◌,
  leb→le, le→leb, Bool-cases, >>=-eq-some, guard-eq-some, length,
}
use bulwark.Common.Bytes.{Bytes, u16_at}
use bulwark.Wire.{skip_name, skip_questions, record_offsets, scan_ttl_offsets, type_opt}
use bulwark.Wire.Names.{skip_name-lt}

-- Offsets from `lo` on: each has a slot of four bytes in a buffer of `n` bytes, and the next slot
-- begins behind it.
abbrev pub Slots : ℕ → ℕ → List ℕ → Type 0
Slots n lo [] = Unit {0}
Slots n lo (o ∷ offsets) = (lo ≤ o) × (o + 4 ≤ n) × Slots n (o + 4) offsets

pub Slots-mono :
    (n : ℕ) {lo lo' : ℕ} (offsets : List ℕ) → lo ≤ lo' → Slots n lo' offsets → Slots n lo offsets
Slots-mono n [] h s = tt
Slots-mono n (o ∷ offsets) h s = (omega arith, s.1, s.2)

-- One record of the loop, taken apart.
pub record Step (buf : Bytes) (pos : ℕ) (count : ℕ) (offsets : List ℕ) : Type 0 where
  pub fixed : ℕ
  pub rest : List ℕ
  pub name : skip_name (length buf) buf pos ≡ some fixed
  pub fits : fixed + 10 ≤ length buf
  pub data_fits : fixed + (10 + u16_at buf (fixed + 8)) ≤ length buf
  pub tail : record_offsets count buf (fixed + (10 + u16_at buf (fixed + 8))) ≡ some rest
  pub head : offsets ≡ (if u16_at buf fixed == type_opt then rest else (fixed + 4) ∷ rest)

pub record_offsets-Step :
    (count : ℕ) (buf : Bytes) (pos : ℕ) (offsets : List ℕ)
    → record_offsets (suc count) buf pos ≡ some offsets
    → Step buf pos count offsets
unfolding record_offsets
record_offsets-Step count buf pos offsets h =
    let (fixed, name, h₁) = >>=-eq-some (skip_name (length buf) buf pos) _ h in
    let (fits, h₂) = guard-eq-some (leb (fixed + 10) (length buf)) _ h₁ in
    let next = fixed + (10 + u16_at buf (fixed + 8)) in
    let (data_fits, h₃) = guard-eq-some (leb next (length buf)) _ h₂ in
    let (rest, tail, h₄) = >>=-eq-some (record_offsets count buf next) _ h₃ in
    record {
      fixed = fixed;
      rest = rest;
      name = name;
      fits = leb→le _ _ fits;
      data_fits = leb→le _ _ data_fits;
      tail = tail;
      head = ground arith;
    }

-- The other way round: one record in front of those that follow.
pub record_offsets-suc :
    (count : ℕ) (buf : Bytes) (pos fixed : ℕ) (rest : List ℕ)
    → skip_name (length buf) buf pos ≡ some fixed
    → fixed + 10 ≤ length buf
    → fixed + (10 + u16_at buf (fixed + 8)) ≤ length buf
    → record_offsets count buf (fixed + (10 + u16_at buf (fixed + 8))) ≡ some rest
    → record_offsets (suc count) buf pos
      ≡ some (if u16_at buf fixed == type_opt then rest else (fixed + 4) ∷ rest)
unfolding record_offsets
record_offsets-suc count buf pos fixed rest name fits data_fits tail =
    rw (name, le→leb _ _ fits, le→leb _ _ data_fits, tail)

pub record_offsets-Slots :
    (count : ℕ) (buf : Bytes) (pos : ℕ) (offsets : List ℕ)
    → record_offsets count buf pos ≡ some offsets
    → Slots (length buf) pos offsets
unfolding record_offsets
record_offsets-Slots zero buf pos [] h = tt
record_offsets-Slots zero buf pos (o ∷ offsets) h = cc
record_offsets-Slots (suc count) buf pos offsets h =
    let s = record_offsets-Step count buf pos offsets h in
    let later = record_offsets-Slots count buf _ s.rest s.tail in
    let past = skip_name-lt (length buf) buf pos s.fixed s.name in
    elim (Bool-cases (u16_at buf s.fixed == type_opt)) [
      | inl opt ↦ rw (s.head, opt) (Slots-mono (length buf) s.rest (omega arith) later)
      | inr rr ↦
          rw (s.head, rr)
            (omega arith, omega arith, Slots-mono (length buf) s.rest (omega arith) later)
    ]

pub skip_questions-le :
    (qd : ℕ) (buf : Bytes) (pos e : ℕ) → skip_questions qd buf pos ≡ some e → pos ≤ e
unfolding skip_questions
skip_questions-le zero buf pos e h = ground arith
skip_questions-le (suc qd) buf pos e h =
    let (name_end, name, h₁) = >>=-eq-some (skip_name (length buf) buf pos) _ h in
    let (fits, h₂) = guard-eq-some (leb (name_end + 4) (length buf)) _ h₁ in
    omega (
      arith,
      skip_questions-le qd buf (name_end + 4) e h₂,
      skip_name-lt (length buf) buf pos name_end name,
    )

-- Every offset that the scan returns has its whole four-byte slot inside the buffer and behind
-- the header, and the slots stand in order and do not overlap.
pub scan_ttl_offsets-Slots :
    (buf : Bytes) (offsets : List ℕ)
    → scan_ttl_offsets buf ≡ some offsets
    → Slots (length buf) 12 offsets
unfolding scan_ttl_offsets
scan_ttl_offsets-Slots buf offsets h =
    let (long, h₁) = guard-eq-some (leb 12 (length buf)) _ h in
    let (pos, questions, h₂) = >>=-eq-some (skip_questions (u16_at buf 4) buf 12) _ h₁ in
    Slots-mono (length buf) offsets (skip_questions-le (u16_at buf 4) buf 12 pos questions)
      (record_offsets-Slots _ buf pos offsets h₂)

-- ===== src/Wire/Queries.antt =====
-- wire.rs, `parse_query`: what an accepted query is known to hold.
use bulwark.Common.{
  ℕ, zero, suc, ◌+◌, ◌≤◌, ◌≡◌, refl, ap, ◌∙◌, ◌⊎◌, inl, inr, Bool, true, false, Option, none, some,
  List, [], ◌∷◌, arith, leb, ◌==◌, if◌then◌else◌, leb→le, le→leb, ==_iff, >>=-eq-some,
  guard-eq-some, length,
}
use bulwark.Common.Bytes.{Bytes, u16_at}
use bulwark.Wire.{
  skip_name, skip_questions, record_offsets, scan_ttl_offsets, type_opt, parse_records, parse_query,
  see_opt, Edns, ParsedQuery, read_question_name,
}
use bulwark.Wire.Bounds.{record_offsets-suc}
use bulwark.Wire.Questions.{read_question_name-skip_name}

-- 1 if an OPT record was seen.
abbrev pub opt_count : Option ℕ → ℕ
opt_count none = 0
opt_count (some _) = 1

see_opt-opt_count :
    (buf : Bytes) (pos astart idx : ℕ) (e e' : Edns)
    → see_opt buf pos astart idx e ≡ some e'
    → ((u16_at buf pos == type_opt) ≡ true) × (opt_count e'.payload ≡ 1) × (opt_count e.payload ≡ 0)
      ⊎ ((u16_at buf pos == type_opt) ≡ false) × (e' ≡ e)
unfolding see_opt
see_opt-opt_count buf pos astart idx e e' h = ground arith

pick_left : {b : Bool} (x y : List ℕ) → b ≡ true → (if b then x else y) ≡ x
pick_left x y h = rw h

pick_right : {b : Bool} (x y : List ℕ) → b ≡ false → (if b then x else y) ≡ y
pick_right x y h = rw h

parse_records-record_offsets :
    (left : ℕ) (buf : Bytes) (astart idx pos : ℕ) (e e' : Edns)
    → parse_records left buf astart idx pos e ≡ some e'
    → (offsets : List ℕ) × (record_offsets left buf pos ≡ some offsets)
      × (length offsets + opt_count e'.payload ≡ left + opt_count e.payload)
unfolding parse_records record_offsets
parse_records-record_offsets zero buf astart idx pos e e' h = ([], refl, ground arith)
parse_records-record_offsets (suc left) buf astart idx pos e e' h =
    let (fixed, name, h₁) = >>=-eq-some (skip_name (length buf) buf pos) _ h in
    let (fits, h₂) = guard-eq-some (leb (fixed + 10) (length buf)) _ h₁ in
    let (e₁, seen, h₃) = >>=-eq-some (see_opt buf fixed astart idx e) _ h₂ in
    let next = fixed + (10 + u16_at buf (fixed + 8)) in
    let (data_fits, h₄) = guard-eq-some (leb next (length buf)) _ h₃ in
    let (rest, tail, total) =
      parse_records-record_offsets left buf astart (idx + 1) next e₁ e' h₄ in
    let one_more =
      record_offsets-suc left buf pos fixed rest name (leb→le _ _ fits) (leb→le _ _ data_fits)
        tail in
    elim (see_opt-opt_count buf fixed astart idx e e₁ seen) [
      | inl (opt, after, before) ↦ (rest, one_more ∙ ap some (pick_left _ _ opt), omega arith)
      | inr (rr, same) ↦ (
        (fixed + 4) ∷ rest,
        one_more ∙ ap some (pick_right _ _ rr),
        omega (arith, ap (λ (x : Edns). opt_count x.payload) same),
      )
    ]

-- A scan past a single question.
one_question :
    (buf : Bytes) (pos : ℕ) (offsets : List ℕ)
    → 12 ≤ length buf
    → u16_at buf 4 ≡ 1
    → skip_name (length buf) buf 12 ≡ some pos
    → pos + 4 ≤ length buf
    → record_offsets (u16_at buf 6 + u16_at buf 8 + u16_at buf 10) buf (pos + 4) ≡ some offsets
    → scan_ttl_offsets buf ≡ some offsets
unfolding scan_ttl_offsets skip_questions
one_question buf pos offsets long one name fits records =
    rw (le→leb 12 _ long, one, name, le→leb _ _ fits, records)

-- Every query that the fast path accepts has one question and is one that the TTL scanner reads
-- through, with one offset for each record but the OPT record; there is at most one of these, and
-- there is one exactly when an EDNS payload size is reported.
pub parse_query-scan_ttl_offsets :
    (buf : Bytes) (q : ParsedQuery)
    → parse_query buf ≡ some q
    → (u16_at buf 4 ≡ 1)
      × ((offsets : List ℕ) × (scan_ttl_offsets buf ≡ some offsets)
          × (length offsets + opt_count q.edns_payload
              ≡ u16_at buf 6 + u16_at buf 8 + u16_at buf 10))
unfolding parse_query
parse_query-scan_ttl_offsets buf q h =
    let (long, h₁) = guard-eq-some (leb 12 (length buf)) _ h in
    let (one, h₂) = guard-eq-some (u16_at buf 4 == 1) _ h₁ in
    let ((qname, pos), name, h₃) = >>=-eq-some (read_question_name buf 12) _ h₂ in
    let (fits, h₄) = guard-eq-some (leb (pos + 4) (length buf)) _ h₃ in
    let (e, records, h₅) = >>=-eq-some (parse_records _ buf _ 0 (pos + 4) _) _ h₄ in
    let (offsets, scan, total) = parse_records-record_offsets _ buf _ 0 (pos + 4) _ e records in
    let skip = (read_question_name-skip_name buf 12 qname pos name).0 in
    let payload : q.edns_payload ≡ e.payload = ap (λ x. x) (ground arith) in
    (
      (==_iff _ _).0 one,
      (
        offsets,
        one_question buf pos offsets (leb→le _ _ long) ((==_iff _ _).0 one) skip (leb→le _ _ fits)
            scan,
        omega (arith, ap opt_count payload),
      ),
    )

-- ===== src/Wire/Rescan.antt =====
-- wire.rs: scanning, patching and scanning again.
use bulwark.Common.{
  ℕ, zero, suc, ◌+◌, ◌≤◌, ◌<◌, ◌≡◌, sym, ap, subst, ◌∙◌, ◌⊎◌, inl, inr, Bool, true, false, some,
  List, [], ◌∷◌, arith, leb, ◌==◌, if◌then◌else◌, le→leb, >>=-eq-some, guard-eq-some, length,
  get_elem?, All,
}
use bulwark.Common.Bytes.{Bytes, u16_at, u32_at, at-get_elem?}
use bulwark.Wire.{
  skip_name, skip_questions, record_offsets, scan_ttl_offsets, type_opt, patch_id, patch, u32_bytes,
  u16_bytes,
}
use bulwark.Wire.Names.{skip_name-lt}
use bulwark.Wire.Bounds.{
  Slots, scan_ttl_offsets-Slots, record_offsets-Step, record_offsets-Slots, skip_questions-le,
}
use bulwark.Wire.Patch.{
  Outside, Slots-Outside, length-patch, get_elem?-patch_ne, Holds, patch_ttls-Holds,
  get_elem?-patch_ttls_ne, length-patch_id, get_elem?-copy_at_self,
}

Holds-u32_at : (buf : Bytes) (ttl o : ℕ) → Holds buf ttl o → u32_at buf o ≡ ttl
Holds-u32_at buf ttl o h = omega (
  arith,
  at-get_elem? buf (u32_bytes ttl) o 0 (ap (get_elem? buf) (omega arith) ∙ h 0 (omega arith)),
  at-get_elem? buf (u32_bytes ttl) (o + 1) 1 (h 1 (omega arith)),
  at-get_elem? buf (u32_bytes ttl) (o + 2) 2 (h 2 (omega arith)),
  at-get_elem? buf (u32_bytes ttl) (o + 3) 3 (h 3 (omega arith)),
)

All-map {ℓ κ μ} :
    {A : Type ℓ} (P : A → Type κ) (Q : A → Type μ) (xs : List A)
    → ((x : A) → P x → Q x)
    → All P xs
    → All Q xs
All-map P Q [] f h = tt
All-map P Q (x ∷ xs) f h = (f x h.0, All-map P Q xs f h.1)

patch-id_bytes :
    (buf : Bytes) (id ttl : ℕ) (offsets : List ℕ) (k : ℕ)
    → Slots (length buf) 12 offsets
    → 2 ≤ length buf
    → k < 2
    → get_elem? (patch buf id ttl offsets) k ≡ get_elem? (u16_bytes id) k
unfolding patch patch_id
patch-id_bytes buf id ttl offsets k s h lt =
    let written = get_elem?-copy_at_self 0 (u16_bytes id) buf k h lt in
    let index : 0 + k ≡ k = omega arith in
    get_elem?-patch_ttls_ne (patch_id buf id) ttl offsets k
      (Slots-Outside (length buf) {lo = 12} offsets (omega arith) s)
    ∙ ground arith

patch-u16_at :
    (buf : Bytes) (id ttl : ℕ) (offsets : List ℕ)
    → Slots (length buf) 12 offsets
    → 2 ≤ length buf
    → u16_at (patch buf id ttl offsets) 0 ≡ id
patch-u16_at buf id ttl offsets s h =
    let out = patch buf id ttl offsets in
    omega (
      arith,
      at-get_elem? out (u16_bytes id) 0 0 (patch-id_bytes buf id ttl offsets 0 s h (omega arith)),
      at-get_elem? out (u16_bytes id) 1 1 (patch-id_bytes buf id ttl offsets 1 s h (omega arith)),
    )

-- A response whose TTL offsets were scanned, once patched, has the given id and the given TTL at
-- each offset; its length and every byte outside the id and those TTL fields are as they were.
pub patch-scan_ttl_offsets :
    (buf : Bytes) (id ttl : ℕ) (offsets : List ℕ)
    → scan_ttl_offsets buf ≡ some offsets
    → (u16_at (patch buf id ttl offsets) 0 ≡ id)
      × All (λ o. u32_at (patch buf id ttl offsets) o ≡ ttl) offsets
      × (length (patch buf id ttl offsets) ≡ length buf)
      × ((i : ℕ)
          → 2 ≤ i
          → Outside i offsets
          → get_elem? (patch buf id ttl offsets) i ≡ get_elem? buf i)
unfolding patch scan_ttl_offsets
patch-scan_ttl_offsets buf id ttl offsets h =
    let slots = scan_ttl_offsets-Slots buf offsets h in
    let (long, _) = guard-eq-some (leb 12 (length buf)) _ h in
    (
      patch-u16_at buf id ttl offsets slots (ground arith),
      All-map (Holds (patch buf id ttl offsets) ttl) _ offsets
          (Holds-u32_at (patch buf id ttl offsets) ttl)
          (patch_ttls-Holds (patch_id buf id) ttl 12 offsets
            (subst (λ n. Slots n 12 offsets) (sym (length-patch_id buf id)) slots)),
      length-patch buf id ttl offsets,
      get_elem?-patch_ne buf id ttl offsets,
    )

-- `b` has the bytes of `a` from `pos` on, but for the slots.
abbrev Agree : Bytes → Bytes → ℕ → List ℕ → Type 0
Agree a b pos offsets = (i : ℕ) → pos ≤ i → Outside i offsets → get_elem? b i ≡ get_elem? a i

skip_name-Agree :
    (f : ℕ) (a b : Bytes) (pos e : ℕ)
    → skip_name f a pos ≡ some e
    → ((i : ℕ) → pos ≤ i → i < e → get_elem? b i ≡ get_elem? a i)
    → skip_name f b pos ≡ some e
unfolding skip_name
skip_name-Agree zero a b pos e h same = cc
skip_name-Agree (suc f) a b pos e h same =
    let (x, read, h₁) = >>=-eq-some (get_elem? a pos) _ h in
    let past = skip_name-lt (suc f) a pos e h in
    rw (same pos (omega arith) past, read)
      (ground (
        arith,
        skip_name-Agree f a b (pos + (1 + x)) e,
        λ (i : ℕ) (p : pos + (1 + x) ≤ i) (q : i < e). same i (omega arith) q,
      ))

u16_at-same :
    (a b : Bytes) (i : ℕ)
    → get_elem? b i ≡ get_elem? a i
    → get_elem? b (i + 1) ≡ get_elem? a (i + 1)
    → u16_at b i ≡ u16_at a i
u16_at-same a b i p q = omega (arith, at-get_elem? b a i i p, at-get_elem? b a (i + 1) (i + 1) q)

skip_questions-Agree :
    (qd : ℕ) (a b : Bytes) (pos e : ℕ)
    → length b ≡ length a
    → skip_questions qd a pos ≡ some e
    → ((i : ℕ) → pos ≤ i → i < e → get_elem? b i ≡ get_elem? a i)
    → skip_questions qd b pos ≡ some e
unfolding skip_questions
skip_questions-Agree zero a b pos e len h same = h
skip_questions-Agree (suc qd) a b pos e len h same =
    let (name_end, name, h₁) = >>=-eq-some (skip_name (length a) a pos) _ h in
    let (fits, h₂) = guard-eq-some (leb (name_end + 4) (length a)) _ h₁ in
    let past = skip_questions-le qd a (name_end + 4) e h₂ in
    let began = skip_name-lt (length a) a pos name_end name in
    rw
      (
        len,
        skip_name-Agree (length a) a b pos name_end name (λ i p q. same i p (omega arith)),
        fits,
      )
      (skip_questions-Agree qd a b (name_end + 4) e len h₂ (λ i p q. same i (omega arith) q))

clear_if :
    (opt : Bool) (i o : ℕ) (rest : List ℕ)
    → Outside i rest
    → (i < o) ⊎ (o + 4 ≤ i)
    → Outside i (if opt then rest else o ∷ rest)
clear_if true i o rest below h = below
clear_if false i o rest below h = (h, below)

module _ (a b : Bytes) (len : length b ≡ length a) where
  -- One record of `a`, read in `b`.
  record_offsets-Step_same :
      (count pos : ℕ) (offsets rest : List ℕ) (fixed : ℕ)
      → skip_name (length a) b pos ≡ some fixed
      → fixed + 10 ≤ length a
      → fixed + (10 + u16_at a (fixed + 8)) ≤ length a
      → u16_at b fixed ≡ u16_at a fixed
      → u16_at b (fixed + 8) ≡ u16_at a (fixed + 8)
      → record_offsets count b (fixed + (10 + u16_at a (fixed + 8))) ≡ some rest
      → offsets ≡ (if u16_at a fixed == type_opt then rest else (fixed + 4) ∷ rest)
      → record_offsets (suc count) b pos ≡ some offsets
  unfolding record_offsets
  record_offsets-Step_same count pos offsets rest fixed name fits data_fits kind size tail head =
      rw (len, name, le→leb _ _ fits, size, le→leb _ _ data_fits, tail, kind, head)

  record_offsets-Agree :
      (count pos : ℕ) (offsets : List ℕ)
      → record_offsets count a pos ≡ some offsets
      → Agree a b pos offsets
      → record_offsets count b pos ≡ some offsets
  unfolding record_offsets
  record_offsets-Agree zero pos offsets h same = h
  record_offsets-Agree (suc count) pos offsets h same =
      let s = record_offsets-Step count a pos offsets h in
      let next = s.fixed + (10 + u16_at a (s.fixed + 8)) in
      let slots = record_offsets-Slots count a next s.rest s.tail in
      let began = skip_name-lt (length a) a pos s.fixed s.name in
      let clear : (i : ℕ) → i < next → (i < s.fixed + 4) ⊎ (s.fixed + 8 ≤ i) → Outside i offsets =
        λ i p q.
          let below = Slots-Outside (length a) {lo = next} s.rest p slots in
          rw s.head
            (clear_if (u16_at a s.fixed == type_opt) i (s.fixed + 4) s.rest below (omega arith)) in
      let kept = λ (i : ℕ) (p : pos ≤ i) (q : i < next) (r : (i < s.fixed + 4) ⊎ (s.fixed + 8 ≤ i)).
        same i p (clear i q r) in
      record_offsets-Step_same count pos offsets s.rest s.fixed
        (skip_name-Agree (length a) a b pos s.fixed s.name
          (λ i p q. kept i p (omega arith) (inl (omega arith))))
        s.fits s.data_fits
        (u16_at-same a b s.fixed (kept s.fixed (omega arith) (omega arith) (inl (omega arith)))
          (kept (s.fixed + 1) (omega arith) (omega arith) (inl (omega arith))))
        (u16_at-same a b (s.fixed + 8)
          (kept (s.fixed + 8) (omega arith) (omega arith) (inr (omega arith)))
          (kept (s.fixed + 8 + 1) (omega arith) (omega arith) (inr (omega arith))))
        (record_offsets-Agree count next s.rest s.tail (λ i p q. same i (omega arith) (
          rw s.head (
            clear_if (u16_at a s.fixed == type_opt) i (s.fixed + 4) s.rest q (inr (omega arith))))))
        s.head

-- A patched response has the same TTL offsets: the cache can patch its own output again.
pub scan_ttl_offsets-patch :
    (buf : Bytes) (id ttl : ℕ) (offsets : List ℕ)
    → scan_ttl_offsets buf ≡ some offsets
    → scan_ttl_offsets (patch buf id ttl offsets) ≡ some offsets
unfolding scan_ttl_offsets
scan_ttl_offsets-patch buf id ttl offsets h =
    let out = patch buf id ttl offsets in
    let len = length-patch buf id ttl offsets in
    let slots = scan_ttl_offsets-Slots buf offsets h in
    let (long, h₁) = guard-eq-some (leb 12 (length buf)) _ h in
    let (pos, questions, h₂) = >>=-eq-some (skip_questions (u16_at buf 4) buf 12) _ h₁ in
    let body = record_offsets-Slots _ buf pos offsets h₂ in
    let past = skip_questions-le (u16_at buf 4) buf 12 pos questions in
    let header = λ (i : ℕ) (p : 2 ≤ i) (q : i < 12).
      get_elem?-patch_ne buf id ttl offsets i p
        (Slots-Outside (length buf) {lo = 12} offsets q slots) in
    let field = λ (i : ℕ) (p : 2 ≤ i) (q : i + 1 < 12).
      u16_at-same buf out i (header i p (omega arith)) (header (i + 1) (omega arith) q) in
    rw
      (
        len,
        long,
        field 4 (omega arith) (omega arith),
        field 6 (omega arith) (omega arith),
        field 8 (omega arith) (omega arith),
        field 10 (omega arith) (omega arith),
        skip_questions-Agree (u16_at buf 4) buf out 12 pos len questions (λ i p q.
            get_elem?-patch_ne buf id ttl offsets i (omega arith)
              (Slots-Outside (length buf) {lo = pos} offsets q body)),
      )
      (record_offsets-Agree buf out len _ pos offsets h₂
        (λ i p q. get_elem?-patch_ne buf id ttl offsets i (omega arith) q))

-- ===== src/Wire/Patch.antt =====
-- wire.rs: what `patch` writes, and what it leaves alone.
use bulwark.Common.{
  ℕ, zero, suc, ◌+◌, ◌≤◌, ◌<◌, ◌≡◌, refl, sym, ap, subst, ◌∙◌, ◌⊎◌, inl, inr, List, [], ◌∷◌, arith,
  length, get_elem?, set, All, length-set, get_elem?-set_self, get_elem?-set_ne,
}
use bulwark.Common.Bytes.{Bytes}
use bulwark.Wire.{copy_at, patch_ttl, patch_ttls, patch_id, patch, u32_bytes, u16_bytes}
use bulwark.Wire.Bounds.{Slots}

-- `i` lies in no slot.
abbrev pub Outside : ℕ → List ℕ → Type 0
Outside i = All (λ o. (i < o) ⊎ (o + 4 ≤ i))

pub Slots-Outside :
    (n : ℕ) {i lo : ℕ} (offsets : List ℕ) → i < lo → Slots n lo offsets → Outside i offsets
Slots-Outside n [] h s = tt
Slots-Outside n {i} (o ∷ offsets) h s =
    (inl (omega arith), Slots-Outside n {i = i} {lo = o + 4} offsets (omega arith) s.2)

length-copy_at : (i : ℕ) (bs buf : Bytes) → length (copy_at i bs buf) ≡ length buf
unfolding copy_at
length-copy_at i [] buf = refl
length-copy_at i (b ∷ bs) buf = length-copy_at (i + 1) bs (set buf i b) ∙ length-set buf i b

get_elem?-copy_at_ne :
    (i : ℕ) (bs buf : Bytes) (j : ℕ)
    → (j < i) ⊎ (i + length bs ≤ j)
    → get_elem? (copy_at i bs buf) j ≡ get_elem? buf j
unfolding copy_at
get_elem?-copy_at_ne i [] buf j h = refl
get_elem?-copy_at_ne i (b ∷ bs) buf j h =
    get_elem?-copy_at_ne (i + 1) bs (set buf i b) j (omega arith)
    ∙ get_elem?-set_ne buf i j b (omega arith)

pub get_elem?-copy_at_self :
    (i : ℕ) (bs buf : Bytes) (k : ℕ)
    → i + length bs ≤ length buf
    → k < length bs
    → get_elem? (copy_at i bs buf) (i + k) ≡ get_elem? bs k
unfolding copy_at
get_elem?-copy_at_self i [] buf k h lt = elim lt [ ]
get_elem?-copy_at_self i (b ∷ bs) buf zero h lt =
    get_elem?-copy_at_ne (i + 1) bs (set buf i b) (i + 0) (omega arith)
    ∙ ap (get_elem? (set buf i b)) (omega arith)
    ∙ get_elem?-set_self buf i b (omega arith)
get_elem?-copy_at_self i (b ∷ bs) buf (suc k) h lt =
    ap (get_elem? (copy_at (i + 1) bs (set buf i b))) (omega arith)
    ∙ get_elem?-copy_at_self (i + 1) bs (set buf i b) k (omega (arith, length-set buf i b))
        (omega arith)

length-patch_ttl : (buf : Bytes) (ttl o : ℕ) → length (patch_ttl buf ttl o) ≡ length buf
unfolding patch_ttl
length-patch_ttl buf ttl o = ground (arith, length-copy_at o (u32_bytes ttl) buf)

length-patch_ttls :
    (buf : Bytes) (ttl : ℕ) (offsets : List ℕ) → length (patch_ttls buf ttl offsets) ≡ length buf
unfolding patch_ttls
length-patch_ttls buf ttl [] = refl
length-patch_ttls buf ttl (o ∷ offsets) =
    length-patch_ttls (patch_ttl buf ttl o) ttl offsets ∙ length-patch_ttl buf ttl o

get_elem?-patch_ttl_ne :
    (buf : Bytes) (ttl o i : ℕ)
    → (i < o) ⊎ (o + 4 ≤ i)
    → get_elem? (patch_ttl buf ttl o) i ≡ get_elem? buf i
unfolding patch_ttl
get_elem?-patch_ttl_ne buf ttl o i h =
    ground (arith, get_elem?-copy_at_ne o (u32_bytes ttl) buf i (omega arith))

pub get_elem?-patch_ttls_ne :
    (buf : Bytes) (ttl : ℕ) (offsets : List ℕ) (i : ℕ)
    → Outside i offsets
    → get_elem? (patch_ttls buf ttl offsets) i ≡ get_elem? buf i
unfolding patch_ttls
get_elem?-patch_ttls_ne buf ttl [] i h = refl
get_elem?-patch_ttls_ne buf ttl (o ∷ offsets) i h =
    get_elem?-patch_ttls_ne (patch_ttl buf ttl o) ttl offsets i h.1
    ∙ get_elem?-patch_ttl_ne buf ttl o i h.0

-- The bytes of `ttl` stand in the slot at `o`.
abbrev pub Holds : Bytes → ℕ → ℕ → Type 0
Holds buf ttl o = (k : ℕ) → k < 4 → get_elem? buf (o + k) ≡ get_elem? (u32_bytes ttl) k

patch_ttl-Holds : (buf : Bytes) (ttl o : ℕ) → o + 4 ≤ length buf → Holds (patch_ttl buf ttl o) ttl o
unfolding patch_ttl
patch_ttl-Holds buf ttl o h k lt =
    ground (arith, get_elem?-copy_at_self o (u32_bytes ttl) buf k (omega arith) (omega arith))

pub patch_ttls-Holds :
    (buf : Bytes) (ttl lo : ℕ) (offsets : List ℕ)
    → Slots (length buf) lo offsets
    → All (Holds (patch_ttls buf ttl offsets) ttl) offsets
unfolding patch_ttls
patch_ttls-Holds buf ttl lo [] s = tt
patch_ttls-Holds buf ttl lo (o ∷ offsets) s =
    let buf' = patch_ttl buf ttl o in
    let later = subst (λ n. Slots n (o + 4) offsets) (sym (length-patch_ttl buf ttl o)) s.2 in
    (
      λ k lt.
          get_elem?-patch_ttls_ne buf' ttl offsets (o + k)
            (Slots-Outside (length buf') {lo = o + 4} offsets (omega arith) later)
          ∙ patch_ttl-Holds buf ttl o s.1 k lt,
      patch_ttls-Holds buf' ttl (o + 4) offsets later,
    )

pub length-patch_id : (buf : Bytes) (id : ℕ) → length (patch_id buf id) ≡ length buf
unfolding patch_id
length-patch_id buf id = ground (arith, length-copy_at 0 (u16_bytes id) buf)

get_elem?-patch_id_ne :
    (buf : Bytes) (id i : ℕ) → 2 ≤ i → get_elem? (patch_id buf id) i ≡ get_elem? buf i
unfolding patch_id
get_elem?-patch_id_ne buf id i h =
    ground (arith, get_elem?-copy_at_ne 0 (u16_bytes id) buf i (inr (omega arith)))

pub length-patch :
    (buf : Bytes) (id ttl : ℕ) (offsets : List ℕ) → length (patch buf id ttl offsets) ≡ length buf
unfolding patch
length-patch buf id ttl offsets =
    length-patch_ttls (patch_id buf id) ttl offsets ∙ length-patch_id buf id

-- Outside the id and the slots nothing changes.
pub get_elem?-patch_ne :
    (buf : Bytes) (id ttl : ℕ) (offsets : List ℕ) (i : ℕ)
    → 2 ≤ i
    → Outside i offsets
    → get_elem? (patch buf id ttl offsets) i ≡ get_elem? buf i
unfolding patch
get_elem?-patch_ne buf id ttl offsets i h out =
    get_elem?-patch_ttls_ne (patch_id buf id) ttl offsets i out ∙ get_elem?-patch_id_ne buf id i h

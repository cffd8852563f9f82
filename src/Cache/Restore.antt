-- ===== src/Cache/Restore.antt =====
-- cache.rs, `write_record` and `read_record`: writing an entry and reading it back.
use bulwark.Common.{
  ℕ, ◌+◌, ◌*◌, ◌/◌, ◌%◌, ◌≤◌, ◌<◌, ◌≡◌, refl, ap, ap₂, ◌∙◌, Bool, true, false, some, List, [], ◌∷◌,
  ◌++◌, append_assoc, arith, ltb, ◌==◌, le→leb, length, any, All, length-append, take-append_self,
  drop-append_self,
}
use bulwark.Common.Bytes.{Bytes}
use bulwark.Cache.Snapshot.{
  QueryKey, ParsedEntry, Codec, wire_matches_key, max_snapshot_wire_len, max_snapshot_answers,
  max_snapshot_ttl_offsets, le16, le32, take_bytes, read_u8, read_u16, read_u32, bit, key_flags,
  write_text, write_answers, write_offsets, write_key, write_record, read_text, read_answers,
  read_offsets, read_key, read_counted_answers, read_wire, read_slots, read_record,
}

pub read_u16-le16 : (n : ℕ) (r : Bytes) → n < 65536 → read_u16 (le16 n ++ r) ≡ some (n, r)
unfolding read_u16 le16
read_u16-le16 n r h = ap (λ (k : ℕ). some (k, r)) (omega arith)

pub read_u32-le32 : (n : ℕ) (r : Bytes) → n < 4294967296 → read_u32 (le32 n ++ r) ≡ some (n, r)
unfolding read_u32 le32
read_u32-le32 n r h = ap (λ (k : ℕ). some (k, r)) (omega arith)

pub take_bytes-append : (t r : Bytes) → take_bytes (length t) (t ++ r) ≡ some (t, r)
unfolding take_bytes
take_bytes-append t r =
    rw (le→leb (length t) (length (t ++ r)) (omega (arith, length-append t r)))
      (ap₂ (λ (a b : Bytes). some (a, b)) (take-append_self t r) (drop-append_self t r))

-- A text that the length field holds and that decoding leaves alone.
pub record IsText (c : Codec) (t : Bytes) : Type 0 where
  pub short : length t < 65536
  pub valid : c.lossy t ≡ t

module _ (c : Codec) where
  read_text-write_text : (t r : Bytes) → IsText c t → read_text c (write_text t ++ r) ≡ some (t, r)
  unfolding read_text write_text
  read_text-write_text t r h =
      rw
        (
          append_assoc (le16 (length t)) t r,
          read_u16-le16 (length t) (t ++ r) h.short,
          take_bytes-append t r,
        )
        (ap (λ (a : Bytes). some (a, r)) h.valid)

  read_answers-write_answers :
      (answers : List Bytes) (r : Bytes)
      → All (IsText c) answers
      → read_answers c (length answers) (write_answers answers ++ r) ≡ some (answers, r)
  unfolding read_answers write_answers
  read_answers-write_answers [] r h = refl
  read_answers-write_answers (a ∷ answers) r h =
      rw
        (
          append_assoc (write_text a) (write_answers answers) r,
          read_text-write_text a (write_answers answers ++ r) h.0,
          read_answers-write_answers answers r h.1,
        )
        refl

  read_offsets-write_offsets :
      (offsets : List ℕ) (r : Bytes)
      → All (λ o. o < 4294967296) offsets
      → read_offsets (length offsets) (write_offsets offsets ++ r) ≡ some (offsets, r)
  unfolding read_offsets write_offsets
  read_offsets-write_offsets [] r h = refl
  read_offsets-write_offsets (o ∷ offsets) r h =
      rw
        (
          append_assoc (le32 o) (write_offsets offsets) r,
          read_u32-le32 o (write_offsets offsets ++ r) h.0,
          read_offsets-write_offsets offsets r h.1,
        )
        refl

  pub read_key-write_key :
      (k : QueryKey) (r : Bytes)
      → IsText c k.name
      → k.rtype < 65536
      → k.class < 65536
      → read_key c (write_key k ++ r) ≡ some (k, r)
  unfolding read_key write_key read_u8 key_flags
  read_key-write_key k r text rtype class =
      rw
        (
          append_assoc (write_text k.name) (le16 k.rtype ++ (le16 k.class ++ key_flags k ∷ [])) r,
          read_text-write_text k.name ((le16 k.rtype ++ (le16 k.class ++ key_flags k ∷ [])) ++ r)
              text,
          append_assoc (le16 k.rtype) (le16 k.class ++ key_flags k ∷ []) r,
          read_u16-le16 k.rtype ((le16 k.class ++ key_flags k ∷ []) ++ r) rtype,
          append_assoc (le16 k.class) (key_flags k ∷ []) r,
          read_u16-le16 k.class (key_flags k ∷ r) class,
        )
        (ap₂ (λ d e. some (record k { dnssec_ok = d; checking_disabled = e }, r))
          (low_bit k.dnssec_ok k.checking_disabled) (high_bit k.dnssec_ok k.checking_disabled))
    where
      low_bit : (d e : Bool) → ((bit d + 2 * bit e) % 2 == 1) ≡ d
      low_bit true true = refl
      low_bit true false = refl
      low_bit false true = refl
      low_bit false false = refl

      high_bit : (d e : Bool) → ((bit d + 2 * bit e) / 2 % 2 == 1) ≡ e
      high_bit true true = refl
      high_bit true false = refl
      high_bit false true = refl
      high_bit false false = refl

  read_counted_answers-write_answers :
      (answers : List Bytes) (r : Bytes)
      → length answers ≤ max_snapshot_answers
      → All (IsText c) answers
      → read_counted_answers c (le16 (length answers) ++ (write_answers answers ++ r))
        ≡ some (answers, r)
  unfolding read_counted_answers
  read_counted_answers-write_answers answers r few h =
      rw
        (
          read_u16-le16 (length answers) (write_answers answers ++ r) (omega (arith, few)),
          le→leb (length answers) max_snapshot_answers few,
          read_answers-write_answers answers r h,
        )
        refl

  read_wire-le32 :
      (k : QueryKey) (wire r : Bytes)
      → length wire ≤ max_snapshot_wire_len
      → wire_matches_key c wire k ≡ true
      → read_wire c k (le32 (length wire) ++ (wire ++ r)) ≡ some (wire, r)
  unfolding read_wire
  read_wire-le32 k wire r small answers =
      rw
        (
          read_u32-le32 (length wire) (wire ++ r) (omega (arith, small)),
          le→leb (length wire) max_snapshot_wire_len small,
          take_bytes-append wire r,
          answers,
        )
        refl

  no_overrun :
      (wire : Bytes) (offsets : List ℕ)
      → All (λ o. o + 4 ≤ length wire) offsets
      → any (λ o. ltb (length wire) (o + 4)) offsets ≡ false
  no_overrun wire [] h = refl
  no_overrun wire (o ∷ offsets) h =
      let first : ltb (length wire) (o + 4) ≡ false = within (length wire) (o + 4) h.0 in
      rw first (no_overrun wire offsets h.1)
    where
      within : (a b : ℕ) → b ≤ a → ltb a b ≡ false
      within a b le = ground arith

  in_width :
      (wire : Bytes) (offsets : List ℕ)
      → length wire ≤ max_snapshot_wire_len
      → All (λ o. o + 4 ≤ length wire) offsets
      → All (λ o. o < 4294967296) offsets
  in_width wire [] small h = tt
  in_width wire (o ∷ offsets) small h = (omega (arith, small, h.0), in_width wire offsets small h.1)

  read_slots-write_offsets :
      (wire : Bytes) (offsets : List ℕ) (r : Bytes)
      → length wire ≤ max_snapshot_wire_len
      → length offsets ≤ max_snapshot_ttl_offsets
      → All (λ o. o + 4 ≤ length wire) offsets
      → read_slots wire (le32 (length offsets) ++ (write_offsets offsets ++ r)) ≡ some (offsets, r)
  unfolding read_slots
  read_slots-write_offsets wire offsets r small few h =
      rw
        (
          read_u32-le32 (length offsets) (write_offsets offsets ++ r) (omega (arith, few)),
          le→leb (length offsets) max_snapshot_ttl_offsets few,
          read_offsets-write_offsets offsets r (in_width wire offsets small h),
          no_overrun wire offsets h,
        )
        refl

-- The entry fits the fields of a record and the limits of the reader.
pub record IsRestorable (c : Codec) (e : ParsedEntry) : Type 0 where
  pub name : IsText c e.key.name
  pub rtype : e.key.rtype < 65536
  pub class : e.key.class < 65536
  pub age : e.age < 4294967296
  pub ttl : e.ttl < 4294967296
  pub rcode : e.rcode < 65536
  pub few_answers : length e.answers ≤ max_snapshot_answers
  pub answers : All (IsText c) e.answers
  pub small : length e.bytes ≤ max_snapshot_wire_len
  pub matches : wire_matches_key c e.bytes e.key ≡ true
  pub few_offsets : length e.ttl_offsets ≤ max_snapshot_ttl_offsets
  pub slots : All (λ o. o + 4 ≤ length e.bytes) e.ttl_offsets

-- The record with what follows it, each field in front of all the rest.
unfoldable pub nested : ParsedEntry → Bytes → Bytes
nested e r =
    write_key e.key
    ++ (le32 e.age
        ++ (le32 e.ttl
            ++ (le16 e.rcode
                ++ (le16 (length e.answers)
                    ++ (write_answers e.answers
                        ++ (le32 (length e.bytes)
                            ++ (e.bytes
                                ++ (le32 (length e.ttl_offsets)
                                    ++ (write_offsets e.ttl_offsets ++ r)))))))))

pub write_record-nested : (e : ParsedEntry) (r : Bytes) → write_record e ++ r ≡ nested e r
unfolding write_record nested
write_record-nested e r = simp append_assoc refl

-- An entry that fits the fields of a record and the limits of the reader is read back as it was
-- written, and the reader stands behind it.
pub read_record-write_record :
    (c : Codec) (e : ParsedEntry) (r : Bytes)
    → IsRestorable c e
    → read_record c (write_record e ++ r) ≡ some (e, r)
unfolding nested read_record
read_record-write_record c e r ok =
    ap (read_record c) (write_record-nested e r)
    ∙ rw
        (
          read_key-write_key c e.key _ ok.name ok.rtype ok.class,
          read_u32-le32 e.age _ ok.age,
          read_u32-le32 e.ttl _ ok.ttl,
          read_u16-le16 e.rcode _ ok.rcode,
          read_counted_answers-write_answers c e.answers _ ok.few_answers ok.answers,
          read_wire-le32 c e.key e.bytes _ ok.small ok.matches,
          read_slots-write_offsets c e.bytes e.ttl_offsets r ok.small ok.few_offsets ok.slots,
        )
        refl

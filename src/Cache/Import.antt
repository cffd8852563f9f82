-- ===== src/Cache/Import.antt =====
-- cache.rs, `export_snapshot` and `import_snapshot` one behind the other.
use bulwark.Common.{
  ℕ, ◌-◌, ◌/◌, ◌%◌, ◌<◌, ◌≡◌, refl, ap, ◌∙◌, inl, inr, Bool, false, none, some, List, [], ◌∷◌, ◌++◌,
  append_assoc, arith, leb, Bool-cases, length, keep_if, All,
}
use bulwark.Common.Bytes.{Bytes, bytes_eq_refl}
use bulwark.Cache.Snapshot.{
  ParsedEntry, Codec, max_snapshot_answers, le32, le64, read_u64, write_record, write_records,
  read_counted_answers, read_record, snapshot_magic, is_exported, is_restored, export_snapshot,
  import_records, import_snapshot, read_counts,
}
use bulwark.Cache.Restore.{
  IsText, IsRestorable, take_bytes-append, read_u16-le16, read_u32-le32, read_key-write_key,
  write_record-nested, nested, read_record-write_record,
}

read_u64-le64 :
    (n : ℕ) (r : Bytes) → n < 18446744073709551616 → read_u64 (le64 n ++ r) ≡ some (n, r)
unfolding read_u64 le64
read_u64-le64 n r h =
    rw
      (
        append_assoc (le32 (n % 4294967296)) (le32 (n / 4294967296)) r,
        read_u32-le32 (n % 4294967296) (le32 (n / 4294967296) ++ r) (omega arith),
        read_u32-le32 (n / 4294967296) r (omega arith),
      )
      (ap (λ (k : ℕ). some (k, r)) (omega arith))

import_records-write_records :
    (c : Codec) (restored : ParsedEntry → Bool) (entries : List ParsedEntry)
    → All (IsRestorable c) entries
    → import_records c restored (length entries) (write_records entries) ≡ keep_if restored entries
unfolding import_records write_records
import_records-write_records c restored [] h = refl
import_records-write_records c restored (e ∷ entries) h =
    rw
      (
        import_records,
        read_record-write_record c e (write_records entries) h.0,
        import_records-write_records c restored entries h.1,
      )
      refl

keep_if-All {κ} :
    (P : ParsedEntry → Type κ) (p : ParsedEntry → Bool) (entries : List ParsedEntry)
    → All P entries
    → All P (keep_if p entries)
keep_if-All P p [] h = h
keep_if-All P p (e ∷ entries) h = elim (Bool-cases (p e)) [
  | inl keeps ↦ rw keeps (h.0, keep_if-All P p entries h.1)
  | inr drops ↦ rw drops (keep_if-All P p entries h.1)
]

read_counts-le64 :
    (now count : ℕ) (r : Bytes)
    → now < 18446744073709551616
    → count < 4294967296
    → read_counts (le64 now ++ (le32 count ++ r)) ≡ some (now, count, r)
unfolding read_counts
read_counts-le64 now count r time few =
    rw (read_u64-le64 now (le32 count ++ r) time, read_u32-le32 count r few) refl

import_behind_magic :
    (c : Codec) (reaches : ℕ → Bool) (now stale : ℕ) (body : Bytes) (snap_unix count : ℕ)
    (r : Bytes)
    → read_counts body ≡ some (snap_unix, count, r)
    → import_snapshot c reaches now stale (snapshot_magic ++ body)
      ≡ import_records c (is_restored reaches (now - snap_unix) stale) count r
unfolding import_snapshot import_records
import_behind_magic c reaches now stale body snap_unix count r h =
    rw (import_snapshot, take_bytes-append snapshot_magic body, bytes_eq_refl snapshot_magic, h)
      refl

-- If every entry fits the record format and the limits of the reader, and the time and the number
-- of entries fit their fields, importing an export restores, in order, exactly the entries that
-- were exported and that at the time of the import are within their lifetime and stale window and
-- within reach of the clock.
pub import_snapshot-export_snapshot :
    (c : Codec) (reaches : ℕ → Bool) (now later stale later_stale : ℕ) (entries : List ParsedEntry)
    → now < 18446744073709551616
    → length (keep_if (is_exported stale) entries) < 4294967296
    → All (IsRestorable c) entries
    → import_snapshot c reaches later later_stale (export_snapshot now stale entries)
      ≡ keep_if
          (is_restored reaches (later - now) later_stale)
          (keep_if (is_exported stale) entries)
unfolding export_snapshot
import_snapshot-export_snapshot c reaches now later stale later_stale entries time few h =
    let live = keep_if (is_exported stale) entries in
    import_behind_magic c reaches later later_stale
      (le64 now ++ (le32 (length live) ++ write_records live)) now (length live)
      (write_records live) (read_counts-le64 now (length live) (write_records live) time few)
    ∙ import_records-write_records c (is_restored reaches (later - now) later_stale) live
        (keep_if-All (IsRestorable c) (is_exported stale) entries h)

-- An entry whose fields fit the format but that has more than 64 answers is written all the same,
-- and its record is refused when it is read.
pub read_record_refuses :
    (c : Codec) (e : ParsedEntry) (r : Bytes)
    → IsText c e.key.name
    → e.key.rtype < 65536
    → e.key.class < 65536
    → e.age < 4294967296
    → e.ttl < 4294967296
    → e.rcode < 65536
    → max_snapshot_answers < length e.answers
    → length e.answers < 65536
    → read_record c (write_record e ++ r) ≡ none
unfolding read_record nested read_counted_answers
read_record_refuses c e r name rtype class age ttl rcode many fits =
    let over : leb (length e.answers) max_snapshot_answers ≡ false = ground arith in
    ap (read_record c) (write_record-nested e r)
    ∙ rw
        (
          read_key-write_key c e.key _ name rtype class,
          read_u32-le32 e.age _ age,
          read_u32-le32 e.ttl _ ttl,
          read_u16-le16 e.rcode _ rcode,
          read_u16-le16 (length e.answers) _ fits,
          over,
        )
        refl

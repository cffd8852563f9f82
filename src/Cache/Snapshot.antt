-- ===== src/Cache/Snapshot.antt =====
-- crates/bulwark-engine/src/cache.rs, `write_record` and `read_record`: the entries of a snapshot.
-- A reader is the bytes that are left. Types, classes and codes of DNS are their numbers. Lossy decoding
-- of UTF-8 and the decoding of a message are parameters.
use bulwark.Common.{
  ℕ, zero, suc, ◌+◌, ◌-◌, ◌*◌, ◌/◌, ◌%◌, min, Bool, true, false, not, ◌&&◌, Option, none, some,
  List, [], ◌∷◌, ◌++◌, ltb, leb, ◌==◌, if◌then◌else◌, ◌>>=◌, ◌>>◌, guard, length, take, drop, any,
  keep_if, map,
}
use bulwark.Common.Bytes.{Bytes, bytes_eq, to_ascii_lowercase}
use bulwark.Dns.{Question, Message}

pub record QueryKey : Type 0 where
  pub name : Bytes
  pub rtype : ℕ
  pub class : ℕ
  pub dnssec_ok : Bool
  pub checking_disabled : Bool

-- `ParsedEntry`, its `Stored::Wire` taken apart
pub record ParsedEntry : Type 0 where
  pub key : QueryKey
  pub age : ℕ
  pub ttl : ℕ
  pub rcode : ℕ
  pub answers : List Bytes
  pub bytes : Bytes
  pub ttl_offsets : List ℕ

pub record Codec : Type 0 where
  pub lossy : Bytes → Bytes
  -- `Message::from_vec`
  pub from_vec : Bytes → Option Message

abbrev pub max_snapshot_wire_len : ℕ
max_snapshot_wire_len = 65536

abbrev pub max_snapshot_answers : ℕ
max_snapshot_answers = 64

abbrev pub max_snapshot_ttl_offsets : ℕ
max_snapshot_ttl_offsets = 256

-- `to_le_bytes`, behind the cast to the width
unfoldable pub le16 : ℕ → Bytes
le16 n = n % 256 ∷ n / 256 % 256 ∷ []

unfoldable pub le32 : ℕ → Bytes
le32 n = n % 256 ∷ n / 256 % 256 ∷ n / 65536 % 256 ∷ n / 16777216 % 256 ∷ []

-- `Reader::take`
unfoldable pub take_bytes : ℕ → Bytes → Option (Bytes × Bytes)
take_bytes n r = if leb n (length r) then some (take n r, drop n r) else none

unfoldable pub read_u8 : Bytes → Option (ℕ × Bytes)
read_u8 [] = none
read_u8 (a ∷ r) = some (a, r)

unfoldable pub read_u16 : Bytes → Option (ℕ × Bytes)
read_u16 [] = none
read_u16 (a ∷ []) = none
read_u16 (a ∷ b ∷ r) = some (a + 256 * b, r)

unfoldable pub read_u32 : Bytes → Option (ℕ × Bytes)
read_u32 [] = none
read_u32 (a ∷ []) = none
read_u32 (a ∷ b ∷ []) = none
read_u32 (a ∷ b ∷ c ∷ []) = none
read_u32 (a ∷ b ∷ c ∷ d ∷ r) = some (a + 256 * b + 65536 * c + 16777216 * d, r)

abbrev pub bit : Bool → ℕ
bit false = 0
bit true = 1

-- `dnssec_ok as u8 | (checking_disabled as u8) << 1`
unfoldable pub key_flags : QueryKey → ℕ
key_flags k = bit k.dnssec_ok + 2 * bit k.checking_disabled

-- A text behind its length.
unfoldable pub write_text : Bytes → Bytes
write_text t = le16 (length t) ++ t

unfoldable pub write_answers : List Bytes → Bytes
write_answers [] = []
write_answers (a ∷ answers) = write_text a ++ write_answers answers

unfoldable pub write_offsets : List ℕ → Bytes
write_offsets [] = []
write_offsets (o ∷ offsets) = le32 o ++ write_offsets offsets

unfoldable pub write_key : QueryKey → Bytes
write_key k = write_text k.name ++ (le16 k.rtype ++ (le16 k.class ++ key_flags k ∷ []))

-- `write_record`: what it appends.
unfoldable pub write_record : ParsedEntry → Bytes
write_record e =
    write_key e.key
    ++ (le32 e.age
        ++ (le32 e.ttl
            ++ (le16 e.rcode
                ++ (le16 (length e.answers)
                    ++ (write_answers e.answers
                        ++ (le32 (length e.bytes)
                            ++ (e.bytes
                                ++ (le32 (length e.ttl_offsets)
                                    ++ write_offsets e.ttl_offsets))))))))

unfoldable pub read_text : Codec → Bytes → Option (Bytes × Bytes)
read_text c r =
    read_u16 r >>= λ (len, r₁). take_bytes len r₁ >>= λ (text, r₂). some (c.lossy text, r₂)

unfoldable pub read_answers : Codec → ℕ → Bytes → Option (List Bytes × Bytes)
read_answers c zero r = some ([], r)
read_answers c (suc n) r =
    read_text c r >>= λ (a, r₁). read_answers c n r₁ >>= λ (answers, r₂). some (a ∷ answers, r₂)

unfoldable pub read_offsets : ℕ → Bytes → Option (List ℕ × Bytes)
read_offsets zero r = some ([], r)
read_offsets (suc n) r =
    read_u32 r >>= λ (o, r₁). read_offsets n r₁ >>= λ (offsets, r₂). some (o ∷ offsets, r₂)

unfoldable pub read_key : Codec → Bytes → Option (QueryKey × Bytes)
read_key c r = read_text c r >>= λ (name, r₁). read_u16 r₁ >>= λ (rtype, r₂).
    read_u16 r₂ >>= λ (class, r₃). read_u8 r₃ >>= λ (flags, r₄). some (
      record {
        name = name;
        rtype = rtype;
        class = class;
        dnssec_ok = flags % 2 == 1;
        checking_disabled = flags / 2 % 2 == 1;
      },
      r₄,
    )

-- The answers behind their count.
unfoldable pub read_counted_answers : Codec → Bytes → Option (List Bytes × Bytes)
read_counted_answers c r =
    read_u16 r >>= λ (count, r₁). guard (leb count max_snapshot_answers) >> read_answers c count r₁

abbrev answers_key : QueryKey → List Question → Bool
answers_key key [] = false
answers_key key (q ∷ queries) =
    q.query_type == key.rtype
    && (q.query_class == key.class
        && bytes_eq (map to_ascii_lowercase q.name) (map to_ascii_lowercase key.name))

unfoldable pub wire_matches_key : Codec → Bytes → QueryKey → Bool
wire_matches_key c bytes key = elim (c.from_vec bytes) [
  | none ↦ false
  | some m ↦ answers_key key m.queries
]

-- The message, which must answer the key.
unfoldable pub read_wire : Codec → QueryKey → Bytes → Option (Bytes × Bytes)
read_wire c key r = read_u32 r >>= λ (len, r₁).
    guard (leb len max_snapshot_wire_len) >> take_bytes len r₁ >>= λ (wire, r₂).
    guard (wire_matches_key c wire key) >> some (wire, r₂)

-- The offsets behind their count, each with its slot inside the message.
unfoldable pub read_slots : Bytes → Bytes → Option (List ℕ × Bytes)
read_slots wire r = read_u32 r >>= λ (count, r₁).
    guard (leb count max_snapshot_ttl_offsets) >> read_offsets count r₁ >>= λ (offsets, r₂).
    guard (not (any (λ o. ltb (length wire) (o + 4)) offsets)) >> some (offsets, r₂)

-- `read_record`
unfoldable pub read_record : Codec → Bytes → Option (ParsedEntry × Bytes)
read_record c r = read_key c r >>= λ (key, r₁). read_u32 r₁ >>= λ (age, r₂).
    read_u32 r₂ >>= λ (ttl, r₃). read_u16 r₃ >>= λ (rcode, r₄).
    read_counted_answers c r₄ >>= λ (answers, r₅). read_wire c key r₅ >>= λ (wire, r₆).
    read_slots wire r₆ >>= λ (offsets, r₇). some (
      record {
        key = key;
        age = age;
        ttl = ttl;
        rcode = rcode;
        answers = answers;
        bytes = wire;
        ttl_offsets = offsets;
      },
      r₇,
    )

unfoldable pub le64 : ℕ → Bytes
le64 n = le32 (n % 4294967296) ++ le32 (n / 4294967296)

unfoldable pub read_u64 : Bytes → Option (ℕ × Bytes)
read_u64 r =
    read_u32 r >>= λ (low, r₁). read_u32 r₁ >>= λ (high, r₂). some (low + 4294967296 * high, r₂)

-- `BLWKCSN2`
abbrev pub snapshot_magic : Bytes
snapshot_magic = 66 ∷ 76 ∷ 87 ∷ 75 ∷ 67 ∷ 83 ∷ 78 ∷ 50 ∷ []

-- An entry is left out once its age has passed its lifetime and the stale window.
unfoldable pub is_exported : ℕ → ParsedEntry → Bool
is_exported stale_max_age e = not (leb (min (e.ttl + stale_max_age) 4294967295) e.age)

unfoldable pub write_records : List ParsedEntry → Bytes
write_records [] = []
write_records (e ∷ entries) = write_record e ++ write_records entries

-- `export_snapshot`, on the wire entries of the shards, each with its present age.
unfoldable pub export_snapshot : ℕ → ℕ → List ParsedEntry → Bytes
export_snapshot now stale_max_age entries =
    let live = keep_if (is_exported stale_max_age) entries in
    snapshot_magic ++ (le64 now ++ (le32 (length live) ++ write_records live))

-- Whether an entry of that age is put back; `reaches` tells if the clock goes back that far.
unfoldable pub is_restored : (ℕ → Bool) → ℕ → ℕ → ParsedEntry → Bool
is_restored reaches elapsed stale_max_age e =
    not (leb (e.ttl + stale_max_age) (e.age + elapsed)) && reaches (e.age + elapsed)

-- The loop of `import_snapshot`: what it puts into the shards, in order.
unfoldable pub import_records : Codec → (ParsedEntry → Bool) → ℕ → Bytes → List ParsedEntry
import_records c restored zero r = []
import_records c restored (suc count) r = elim (read_record c r) [
  | none ↦ []
  | some (e, r') ↦
      let rest = import_records c restored count r' in if restored e then e ∷ rest else rest
]

-- The time and the number of records behind the magic.
unfoldable pub read_counts : Bytes → Option (ℕ × ℕ × Bytes)
read_counts r =
    read_u64 r >>= λ (snap_unix, r₁). read_u32 r₁ >>= λ (count, r₂). some (snap_unix, count, r₂)

unfoldable pub import_snapshot : Codec → (ℕ → Bool) → ℕ → ℕ → Bytes → List ParsedEntry
import_snapshot c reaches now stale_max_age snapshot = elim (take_bytes 8 snapshot) [
  | none ↦ []
  | some (magic, r) ↦ if not (bytes_eq magic snapshot_magic) then [] else elim (read_counts r) [
    | none ↦ []
    | some (snap_unix, count, r₂) ↦
        import_records c (is_restored reaches (now - snap_unix) stale_max_age) count r₂
  ]
]

-- ===== src/Wire.antt =====
-- crates/bulwark-engine/src/wire.rs: the query fast path and the patching of cached responses.
-- A buffer is a list of bytes. A `usize` never wraps here (a slice has at most 2^63 - 1 bytes), so
-- `checked_add` is `+`. `b & 0xC0` is read off as `b / 64`, the top two bits of a byte. Every
-- index `buf[i]` stands behind a length check in the source. The two `loop`s take fuel; `none` also
-- stands for fuel that ran out, and one unit for each byte of the buffer is enough (Wire.Names).
mod Names
mod Bounds
mod Patch
pub mod Rescan
mod Questions
mod Queries
mod Examples
use bulwark.Common.{
  ℕ, zero, suc, ◌+◌, ◌-◌, ◌*◌, ◌/◌, ◌%◌, ◌^◌, Bool, true, false, not, ◌&&◌, ◌||◌, Option, none,
  some, List, [], ◌∷◌, ◌++◌, ltb, leb, ◌==◌, if◌then◌else◌, length, get_elem?, take, drop, set,
  guard, ◌>>=◌, ◌>>◌, min, max, is_some, unwrap_or,
}
use bulwark.Common.Bytes.{Bytes, at, u16_at, is_ascii_alphanumeric}

abbrev pub type_opt : ℕ
type_opt = 41

-- The offset behind the name at `pos`; a pointer ends a name and is not followed.
unfoldable pub skip_name : ℕ → Bytes → ℕ → Option ℕ
skip_name zero buf pos = none
skip_name (suc fuel) buf pos = do
  b ← get_elem? buf pos
  let next = skip_name fuel buf (pos + (1 + b))
  if b / 64 == 0
      then (if b == 0 then some (pos + 1) else next)
      else if b / 64 == 3
      then some (pos + 2)
      else none

-- The loop over the questions of `scan_ttl_offsets`.
unfoldable pub skip_questions : ℕ → Bytes → ℕ → Option ℕ
skip_questions zero buf pos = some pos
skip_questions (suc qd) buf pos = do
  name_end ← skip_name (length buf) buf pos
  guard (leb (name_end + 4) (length buf))
  skip_questions qd buf (name_end + 4)

-- The loop over the records: the offsets that it pushes, in order.
unfoldable pub record_offsets : ℕ → Bytes → ℕ → Option (List ℕ)
record_offsets zero buf pos = some []
record_offsets (suc count) buf pos = do
  fixed ← skip_name (length buf) buf pos
  guard (leb (fixed + 10) (length buf))
  let next = fixed + (10 + u16_at buf (fixed + 8))
  guard (leb next (length buf))
  offsets ← record_offsets count buf next
  some (if u16_at buf fixed == type_opt then offsets else (fixed + 4) ∷ offsets)

unfoldable pub scan_ttl_offsets : Bytes → Option (List ℕ)
scan_ttl_offsets buf = do
  guard (leb 12 (length buf))
  pos ← skip_questions (u16_at buf 4) buf 12
  record_offsets (u16_at buf 6 + u16_at buf 8 + u16_at buf 10) buf pos

-- `slot.copy_from_slice(..)` at an index that is in range.
unfoldable pub copy_at : ℕ → Bytes → Bytes → Bytes
copy_at i [] buf = buf
copy_at i (b ∷ bs) buf = copy_at (i + 1) bs (set buf i b)

-- `u16::to_be_bytes`, `u32::to_be_bytes`
abbrev pub u16_bytes : ℕ → Bytes
u16_bytes n = (n / 256) ∷ (n % 256) ∷ []

abbrev pub u32_bytes : ℕ → Bytes
u32_bytes n = (n / 16777216) ∷ (n / 65536 % 256) ∷ (n / 256 % 256) ∷ (n % 256) ∷ []

-- A slot that does not fit in the buffer is left alone.
unfoldable pub patch_ttl : Bytes → ℕ → ℕ → Bytes
patch_ttl buf ttl o = if leb (o + 4) (length buf) then copy_at o (u32_bytes ttl) buf else buf

unfoldable pub patch_ttls : Bytes → ℕ → List ℕ → Bytes
patch_ttls buf ttl [] = buf
patch_ttls buf ttl (o ∷ offsets) = patch_ttls (patch_ttl buf ttl o) ttl offsets

unfoldable pub patch_id : Bytes → ℕ → Bytes
patch_id buf id = if leb 2 (length buf) then copy_at 0 (u16_bytes id) buf else buf

unfoldable pub patch : Bytes → ℕ → ℕ → List ℕ → Bytes
unfolding patch_id
patch buf id ttl offsets = patch_ttls (patch_id buf id) ttl offsets

pub record ParsedQuery : Type 0 where
  pub id : ℕ
  pub recursion_desired : Bool
  pub checking_disabled : Bool
  pub opcode : ℕ
  pub qname : Bytes
  pub qtype : ℕ
  pub qclass : ℕ
  pub edns_payload : Option ℕ
  pub dnssec_ok : Bool

-- A byte that the fast path may take over as it stands; `first` says that it opens its label.
unfoldable pub is_safe : Bool → ℕ → Bool
is_safe first c =
    is_ascii_alphanumeric c || c == b'_' || (c == b'-' && not first) || (c == b'*' && first)

unfoldable pub push_label : Bool → Bytes → Bytes → Option Bytes
push_label first [] name = some name
push_label first (c ∷ label) name = do
  guard (is_safe first c)
  push_label false label (name ++ c ∷ [])

-- `buf.get(from..from + n)`
unfoldable pub slice : Bytes → ℕ → ℕ → Option Bytes
slice buf from n = do guard (leb (from + n) (length buf)); some (take n (drop from buf))

abbrev pub or_root : Bytes → Bytes
or_root [] = b'.' ∷ []
or_root (c ∷ name) = c ∷ name

-- The loop of `read_question_name`, with the name read so far.
unfoldable pub read_labels : ℕ → Bytes → ℕ → ℕ → Bytes → Option (Bytes × ℕ)
read_labels zero buf start pos name = none
read_labels (suc fuel) buf start pos name = do
  b ← get_elem? buf pos
  let more = do
    label ← slice buf (pos + 1) b
    name' ← push_label true label name
    read_labels fuel buf start (pos + 1 + b) (name' ++ b'.' ∷ [])
  let done = guard (leb (pos + 1 - start) 255) >> some (or_root name, pos + 1)
  if b / 64 == 0 then (if b == 0 then done else more) else none

unfoldable pub read_question_name : Bytes → ℕ → Option (Bytes × ℕ)
unfolding read_labels
read_question_name buf start = read_labels (length buf) buf start start []

pub record Edns : Type 0 where
  pub payload : Option ℕ
  pub do_bit : Bool

-- An OPT record at index `idx`: only one, and only among the additional records.
unfoldable pub see_opt : Bytes → ℕ → ℕ → ℕ → Edns → Option Edns
see_opt buf pos additional_start idx e =
    if u16_at buf pos == type_opt
    then (if ltb idx additional_start || is_some e.payload
        then none
        else some
            (record { payload = some (u16_at buf (pos + 2)); do_bit = leb 128 (at buf (pos + 6)) }))
    else some e

-- The loop over the records, `left` of them from index `idx` on.
unfoldable pub parse_records : ℕ → Bytes → ℕ → ℕ → ℕ → Edns → Option Edns
parse_records zero buf additional_start idx pos e = some e
parse_records (suc left) buf additional_start idx pos e = do
  fixed ← skip_name (length buf) buf pos
  guard (leb (fixed + 10) (length buf))
  e' ← see_opt buf fixed additional_start idx e
  let next = fixed + (10 + u16_at buf (fixed + 8))
  guard (leb next (length buf))
  parse_records left buf additional_start (idx + 1) next e'

unfoldable pub parse_query : Bytes → Option ParsedQuery
unfolding read_question_name
parse_query buf = do
  guard (leb 12 (length buf))
  guard (u16_at buf 4 == 1)
  (qname, pos) ← read_question_name buf 12
  guard (leb (pos + 4) (length buf))
  let additional_start = u16_at buf 6 + u16_at buf 8
  let total = additional_start + u16_at buf 10
  e ←
      parse_records total buf additional_start 0 (pos + 4)
        (record { payload = none; do_bit = false })
  some (record {
    id = u16_at buf 0;
    recursion_desired = at buf 2 % 2 == 1;
    checking_disabled = at buf 3 / 16 % 2 == 1;
    opcode = at buf 2 / 8 % 16;
    qname = qname;
    qtype = u16_at buf pos;
    qclass = u16_at buf (pos + 2);
    edns_payload = e.payload;
    dnssec_ok = e.do_bit;
  })

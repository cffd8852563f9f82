-- ===== src/Cache/Examples.antt =====
-- cache.rs: tests and examples.
use bulwark.Common.{
  ℕ, zero, suc, ◌-◌, ◌<◌, ◌≡◌, refl, true, false, none, some, List, [], ◌∷◌, ◌++◌, arith, length,
  keep_if,
}
use bulwark.Common.Bytes.{Bytes, bytes_eq, to_ascii_lowercase}
use bulwark.Dns.{new_message}
use bulwark.Cache.Snapshot.{
  ParsedEntry, Codec, write_record, read_record, export_snapshot, import_snapshot, is_exported,
  is_restored, wire_matches_key, write_key, write_text, write_answers, write_offsets, key_flags,
  le16, le32,
}
use bulwark.Cache.Restore.{IsText, IsRestorable, read_record-write_record}
use bulwark.Cache.Import.{import_snapshot-export_snapshot, read_record_refuses}

program : Unit {0}
unfolding write_record write_key write_text write_answers write_offsets key_flags le16 le32
    is_exported is_restored wire_matches_key bytes_eq to_ascii_lowercase
program = tt

abbrev plain_codec : Codec
plain_codec = record {
  lossy = λ t. t;
  from_vec = λ wire. some (record (new_message 7 true 0) {
    queries = record { name = b'A' ∷ []; query_type = 1; query_class = 1 } ∷ [];
  });
}

abbrev repeat : ℕ → List Bytes
repeat zero = []
repeat (suc n) = (b'A' ∷ []) ∷ repeat n

abbrev entry_with : List Bytes → ParsedEntry
entry_with answers = record {
  key = record {
    name = b'a' ∷ [];
    rtype = 1;
    class = 1;
    dnssec_ok = true;
    checking_disabled = false;
  };
  age = 10;
  ttl = 300;
  rcode = 0;
  answers = answers;
  bytes = 1 ∷ 2 ∷ 3 ∷ 4 ∷ 5 ∷ [];
  ttl_offsets = 1 ∷ [];
}

record_bytes :
    write_record (entry_with (repeat 1))
    ≡ 1 ∷ 0 ∷ b'a' ∷ 1 ∷ 0 ∷ 1 ∷ 0 ∷ 1 ∷ 10 ∷ 0 ∷ 0 ∷ 0 ∷ 44 ∷ 1 ∷ 0 ∷ 0 ∷ 0 ∷ 0 ∷ 1 ∷ 0 ∷ 1 ∷ 0
      ∷ b'A' ∷ 5 ∷ 0 ∷ 0 ∷ 0 ∷ 1 ∷ 2 ∷ 3 ∷ 4 ∷ 5 ∷ 1 ∷ 0 ∷ 0 ∷ 0 ∷ 1 ∷ 0 ∷ 0 ∷ 0 ∷ []
unfolding program
record_bytes = refl

short-IsText : (t : Bytes) → length t < 65536 → IsText plain_codec t
short-IsText t h = record { short = h; valid = refl }

restorable : IsRestorable plain_codec (entry_with (repeat 1))
unfolding program
restorable = record {
  name = short-IsText (b'a' ∷ []) (omega arith);
  rtype = omega arith;
  class = omega arith;
  age = omega arith;
  ttl = omega arith;
  rcode = omega arith;
  few_answers = omega arith;
  answers = (short-IsText (b'A' ∷ []) (omega arith), tt);
  small = omega arith;
  matches = refl;
  few_offsets = omega arith;
  slots = (omega arith, tt);
}

read_record-write_record_example :
    read_record plain_codec (write_record (entry_with (repeat 1)) ++ (7 ∷ []))
    ≡ some (entry_with (repeat 1), 7 ∷ [])
read_record-write_record_example =
    read_record-write_record plain_codec (entry_with (repeat 1)) (7 ∷ []) restorable

import_snapshot-export_snapshot_example :
    import_snapshot plain_codec
      (λ n. true)
      1100
      60
      (export_snapshot 1000 60 (entry_with (repeat 1) ∷ []))
    ≡ keep_if
        (is_restored (λ n. true) (1100 - 1000) 60)
        (keep_if (is_exported 60) (entry_with (repeat 1) ∷ []))
unfolding program
import_snapshot-export_snapshot_example =
    import_snapshot-export_snapshot plain_codec (λ n. true) 1000 1100 60 60
      (entry_with (repeat 1) ∷ []) (omega arith) (omega arith) (restorable, tt)

read_record_refuses_example :
    read_record plain_codec (write_record (entry_with (repeat 65)) ++ []) ≡ none
read_record_refuses_example =
    read_record_refuses plain_codec (entry_with (repeat 65)) []
      (short-IsText (b'a' ∷ []) (omega arith)) (omega arith) (omega arith) (omega arith)
      (omega arith) (omega arith) (omega arith) (omega arith)

-- ===== src/Wire/Examples.antt =====
-- wire.rs: tests, and the theorems at concrete inputs.
use bulwark.Common.{
  ℕ, ◌+◌, ◌≤◌, ◌≡◌, refl, ◌↔◌, true, none, some, List, [], ◌∷◌, ◌++◌, arith, length, get_elem?, All,
}
use bulwark.Common.Bytes.{Bytes, u16_at, u32_at, codes, is_ascii_alphanumeric}
use bulwark.Wire.{
  skip_name, skip_questions, record_offsets, scan_ttl_offsets, parse_records, parse_query, see_opt,
  read_question_name, copy_at, patch_ttl, patch_ttls, patch, push_label, is_safe, slice, or_root,
  ParsedQuery,
}
use bulwark.Wire.Bounds.{Slots, scan_ttl_offsets-Slots}
use bulwark.Wire.Patch.{Outside}
use bulwark.Wire.Names.{NameEnds, skip_name_iff}
use bulwark.Wire.Rescan.{patch-scan_ttl_offsets, scan_ttl_offsets-patch}
use bulwark.Wire.Questions.{
  encode_name, dotted, read_question_name-encode_name, read_question_name-skip_name,
}
use bulwark.Wire.Queries.{parse_query-scan_ttl_offsets}

program : Unit {0}
unfolding skip_name skip_questions record_offsets scan_ttl_offsets copy_at patch_ttl patch_ttls
    patch is_safe push_label slice read_question_name see_opt parse_records parse_query
    is_ascii_alphanumeric encode_name dotted
program = tt

-- The question `a. A IN`.
abbrev question : Bytes
question = 1 ∷ b'a' ∷ 0 ∷ 0 ∷ 1 ∷ 0 ∷ 1 ∷ []

-- An OPT record with payload 1232 and the DO bit.
abbrev opt : Bytes
opt = 0 ∷ 0 ∷ 41 ∷ 4 ∷ 208 ∷ 0 ∷ 0 ∷ 128 ∷ 0 ∷ 0 ∷ 0 ∷ []

-- One answer, `a. A IN 300 1.2.3.4` behind a pointer, and an OPT record.
abbrev response : Bytes
response =
    171
    ∷ 205
    ∷ 129
    ∷ 128
    ∷ 0
    ∷ 1
    ∷ 0
    ∷ 1
    ∷ 0
    ∷ 0
    ∷ 0
    ∷ 1
    ∷ (question ++ (192 ∷ 12 ∷ 0 ∷ 1 ∷ 0 ∷ 1 ∷ 0 ∷ 0 ∷ 1 ∷ 44 ∷ 0 ∷ 4 ∷ 1 ∷ 2 ∷ 3 ∷ 4 ∷ opt))

abbrev query : Bytes
query = 18 ∷ 52 ∷ 1 ∷ 16 ∷ 0 ∷ 1 ∷ 0 ∷ 0 ∷ 0 ∷ 0 ∷ 0 ∷ 1 ∷ (question ++ opt)

abbrev parsed : ParsedQuery
parsed = record {
  id = 4660;
  recursion_desired = true;
  checking_disabled = true;
  opcode = 0;
  qname = b'a' ∷ b'.' ∷ [];
  qtype = 1;
  qclass = 1;
  edns_payload = some 1232;
  dnssec_ok = true;
}

scan_response : scan_ttl_offsets response ≡ some (25 ∷ [])
unfolding program
scan_response = refl

parses_query : parse_query query ≡ some parsed
unfolding program
parses_query = refl

read_name : read_question_name query 12 ≡ some (b'a' ∷ b'.' ∷ [], 15)
unfolding program
read_name = refl

-- Two OPT records, and one among the answers, are refused.
two_opts :
    parse_query (18 ∷ 52 ∷ 1 ∷ 16 ∷ 0 ∷ 1 ∷ 0 ∷ 0 ∷ 0 ∷ 0 ∷ 0 ∷ 2 ∷ (question ++ (opt ++ opt)))
    ≡ none
unfolding program
two_opts = refl

opt_as_answer :
    parse_query (18 ∷ 52 ∷ 1 ∷ 16 ∷ 0 ∷ 1 ∷ 0 ∷ 1 ∷ 0 ∷ 0 ∷ 0 ∷ 0 ∷ (question ++ opt)) ≡ none
unfolding program
opt_as_answer = refl

skip_name_iff_example : (skip_name 20 query 12 ≡ some 15) ↔ NameEnds query 12 15
skip_name_iff_example = skip_name_iff 20 query 12 15 (omega arith)

scan_ttl_offsets-Slots_example : Slots 46 12 (25 ∷ [])
scan_ttl_offsets-Slots_example = scan_ttl_offsets-Slots response (25 ∷ []) scan_response

patch-scan_ttl_offsets_example :
    (u16_at (patch response 7 60 (25 ∷ [])) 0 ≡ 7)
    × All (λ o. u32_at (patch response 7 60 (25 ∷ [])) o ≡ 60) (25 ∷ [])
    × (length (patch response 7 60 (25 ∷ [])) ≡ length response)
    × ((i : ℕ)
        → 2 ≤ i
        → Outside i (25 ∷ [])
        → get_elem? (patch response 7 60 (25 ∷ [])) i ≡ get_elem? response i)
patch-scan_ttl_offsets_example = patch-scan_ttl_offsets response 7 60 (25 ∷ []) scan_response

scan_ttl_offsets-patch_example : scan_ttl_offsets (patch response 7 60 (25 ∷ [])) ≡ some (25 ∷ [])
scan_ttl_offsets-patch_example = scan_ttl_offsets-patch response 7 60 (25 ∷ []) scan_response

abbrev labels : List Bytes
labels = codes "www" ∷ codes "example" ∷ codes "com" ∷ []

read_question_name-encode_name_example :
    read_question_name ((9 ∷ []) ++ (encode_name labels ++ (0 ∷ 1 ∷ []))) 1
    ≡ some (or_root (dotted labels), 1 + length (encode_name labels))
unfolding program
read_question_name-encode_name_example =
    read_question_name-encode_name (9 ∷ []) labels (0 ∷ 1 ∷ [])
      (
        (omega arith, omega arith, (refl, (refl, (refl, tt)))),
        (
          (omega arith, omega arith, (refl, (refl, (refl, (refl, (refl, (refl, (refl, tt)))))))),
          ((omega arith, omega arith, (refl, (refl, (refl, tt)))), tt),
        ),
      )
      (omega arith)

read_question_name-skip_name_example :
    (skip_name (length query) query 12 ≡ some 15) × (15 ≤ length query) × (15 ≤ 267)
read_question_name-skip_name_example =
    read_question_name-skip_name query 12 (b'a' ∷ b'.' ∷ []) 15 read_name

parse_query-scan_ttl_offsets_example :
    (u16_at query 4 ≡ 1)
    × ((offsets : List ℕ) × (scan_ttl_offsets query ≡ some offsets) × (length offsets + 1 ≡ 1))
parse_query-scan_ttl_offsets_example = parse_query-scan_ttl_offsets query parsed parses_query

-- ===== src/Dns.antt =====
-- A DNS message of the crate hickory-proto: the public fields that the source reads or writes.
-- Names are their presentation text, types, classes and codes their numbers.
use bulwark.Common.{ℕ, Bool, false, Option, none, List, []}
use bulwark.Common.Bytes.{Bytes}

pub record Question : Type 0 where
  pub name : Bytes
  pub query_type : ℕ
  pub query_class : ℕ

pub record Soa : Type 0 where
  pub mname : Bytes
  pub rname : Bytes
  pub serial : ℕ
  pub refresh : ℕ
  pub retry : ℕ
  pub expire : ℕ
  pub minimum : ℕ

pub data SvcParam : Type 0 where
  ipv4_hint ipv6_hint : List ℕ → SvcParam
  other_param : SvcParam

pub data RData : Type 0 where
  a aaaa : ℕ → RData
  cname ptr txt : Bytes → RData
  mx : ℕ → Bytes → RData
  soa : Soa → RData
  https svcb : List SvcParam → RData
  other : Bytes → RData

pub record Record : Type 0 where
  pub name : Bytes
  pub ttl : ℕ
  pub rdata : RData

pub record Edns : Type 0 where
  pub max_payload : ℕ
  pub dnssec_ok : Bool
  pub rest : Bytes

pub record Message : Type 0 where
  pub id : ℕ
  pub is_response : Bool
  pub op_code : ℕ
  pub recursion_desired : Bool
  pub recursion_available : Bool
  pub checking_disabled : Bool
  pub truncation : Bool
  pub response_code : ℕ
  pub queries : List Question
  pub answers : List Record
  pub authorities : List Record
  pub additionals : List Record
  pub edns : Option Edns

-- `Message::new`
abbrev pub new_message : ℕ → Bool → ℕ → Message
new_message id is_response op_code = record {
  id = id;
  is_response = is_response;
  op_code = op_code;
  recursion_desired = false;
  recursion_available = false;
  checking_disabled = false;
  truncation = false;
  response_code = 0;
  queries = [];
  answers = [];
  authorities = [];
  additionals = [];
  edns = none;
}

-- ===== src/Engine/Ingress.antt =====
-- crates/bulwark-engine/src/lib.rs: what a query comes in as. Decoding a message is a parameter.
use bulwark.Common.{
  ℕ, min, max, ◌⊎◌, inl, inr, Bool, true, false, Option, none, some, [], ◌∷◌, ◌>>=◌, unwrap_or,
}
use bulwark.Common.Bytes.{Bytes}
use bulwark.Dns.{Message, new_message}
use bulwark.Filter.Text.{lowercase}
use bulwark.Wire.{ParsedQuery, parse_query}
use bulwark.Engine.Block.{code_form_err}

pub data Ingress : Type 0 where
  fast : (bytes : Bytes) (parsed : ParsedQuery) → Ingress
  full : Message → Ingress

-- `Ingress::parse` and `Ingress::parse_owned`
unfoldable pub parse : (Bytes → Option Message) → Bytes → Option Ingress
parse from_vec bytes = elim (parse_query bytes) [
  | some parsed ↦ some (fast bytes parsed)
  | none ↦ from_vec bytes >>= λ m. some (full m)
]

abbrev pub advertised : Ingress → ℕ
advertised (fast bytes parsed) = unwrap_or parsed.edns_payload 512
advertised (full m) = elim m.edns [ none ↦ 512 | some e ↦ e.max_payload ]

unfoldable pub udp_max_payload : Ingress → ℕ
udp_max_payload i = min (max (advertised i) 512) 4096

pub record QueryFields : Type 0 where
  pub id : ℕ
  pub rtype : ℕ
  pub class : ℕ
  pub qname_display : Bytes
  pub name_lower : Bytes
  pub dnssec_ok : Bool
  pub checking_disabled : Bool

unfoldable pub from_parsed : ParsedQuery → QueryFields
from_parsed p = record {
  id = p.id;
  rtype = p.qtype;
  class = p.qclass;
  qname_display = p.qname;
  name_lower = lowercase p.qname;
  dnssec_ok = p.dnssec_ok;
  checking_disabled = p.checking_disabled;
}

-- `bulwark_upstream::dnssec_ok`
unfoldable pub dnssec_ok_of : Message → Bool
dnssec_ok_of m = elim m.edns [ none ↦ false | some e ↦ e.dnssec_ok ]

unfoldable pub from_message : Message → Option QueryFields
unfolding dnssec_ok_of
from_message m = elim m.queries [
  | [] ↦ none
  | q ∷ qs ↦ some (record {
    id = m.id;
    rtype = q.query_type;
    class = q.query_class;
    qname_display = q.name;
    name_lower = lowercase q.name;
    dnssec_ok = dnssec_ok_of m;
    checking_disabled = m.checking_disabled;
  })
]

pub data Lazy : Type 0 where
  bytes : Bytes → Lazy
  msg : Message → Lazy

unfoldable pub into_message : (Bytes → Option Message) → Lazy → Option Message
into_message from_vec (msg m) = some m
into_message from_vec (bytes b) = from_vec b

-- `into_parts`: a message with no question is an error.
unfoldable pub into_parts : Ingress → Message ⊎ (QueryFields × Lazy)
unfolding from_parsed from_message
into_parts (fast b parsed) = inr (from_parsed parsed, bytes b)
into_parts (full m) = elim (from_message m) [ some fields ↦ inr (fields, msg m) | none ↦ inl m ]

unfoldable pub formerr : ℕ → Message
formerr id = record (new_message id true 0) { response_code = code_form_err }

pub data EngineResponse : Type 0 where
  message : Message → EngineResponse
  wire : Bytes → EngineResponse

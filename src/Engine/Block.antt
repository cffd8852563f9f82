-- ===== src/Engine/Block.antt =====
-- crates/bulwark-engine/src/block.rs: blocked, rewritten and error responses. `Name::from_str` is a
-- parameter, which is `none` on an error.
use bulwark.Common.{ℕ, ◌*◌, min, true, ◌||◌, Option, [], ◌∷◌, ◌++◌, ◌==◌, if◌then◌else◌, unwrap_or}
use bulwark.Common.Bytes.{Bytes, codes}
use bulwark.Dns.{RData, Record, Message, new_message}
use bulwark.Filter.Rule.{
  RewriteRcode, no_error, nx_domain, refused, serv_fail, RewriteData, a, aaaa, cname, txt, mx, ptr,
  rcode,
}

-- Types and response codes.
abbrev pub type_a : ℕ
type_a = 1

abbrev pub type_cname : ℕ
type_cname = 5

abbrev pub type_ptr : ℕ
type_ptr = 12

abbrev pub type_mx : ℕ
type_mx = 15

abbrev pub type_txt : ℕ
type_txt = 16

abbrev pub type_aaaa : ℕ
type_aaaa = 28

abbrev pub code_form_err : ℕ
code_form_err = 1

abbrev pub code_serv_fail : ℕ
code_serv_fail = 2

abbrev pub code_nx_domain : ℕ
code_nx_domain = 3

abbrev pub code_refused : ℕ
code_refused = 5

abbrev pub root : Bytes
root = b'.' ∷ []

-- `base`: the response shell.
unfoldable pub base : Message → Message
base query = record (new_message query.id true query.op_code) {
  recursion_desired = query.recursion_desired;
  recursion_available = true;
  queries = query.queries;
  edns = query.edns;
}

unfoldable pub qtype : Message → ℕ
qtype query = elim query.queries [ [] ↦ type_a | q ∷ qs ↦ q.query_type ]

unfoldable pub qname : Message → Bytes
qname query = elim query.queries [ [] ↦ root | q ∷ qs ↦ q.name ]

abbrev pub answer_with : Message → Bytes → ℕ → RData → Message
answer_with m name ttl rdata = record m {
  answers = m.answers ++ record { name = name; ttl = ttl; rdata = rdata } ∷ [];
}

-- `push_ip`, which asks the message for its type
unfoldable pub push_ip : Message → Bytes → ℕ → ℕ → ℕ → Message
unfolding qtype
push_ip m name ttl v4 v6 =
    if qtype m == type_a
    then answer_with m name ttl (RData.a v4)
    else if qtype m == type_aaaa
    then answer_with m name ttl (RData.aaaa v6)
    else m

abbrev i32_max : ℕ
i32_max = 2147483647

unfoldable pub negative_soa : (Bytes → Option Bytes) → Bytes → ℕ → Record
negative_soa from_str name ttl =
    let secs = min ttl i32_max in
    record {
      name = name;
      ttl = ttl;
      rdata = RData.soa (record {
        mname = unwrap_or (from_str (codes "fake-for-negative-caching.bulwark.invalid.")) root;
        rname = unwrap_or (from_str (codes "hostmaster.bulwark.invalid.")) root;
        serial = 1;
        refresh = secs;
        retry = secs;
        expire = min (secs * 10) i32_max;
        minimum = ttl;
      });
    }

pub data BlockingMode : Type 0 where
  nx_domain_mode null_ip custom_ip refused_mode no_data : BlockingMode

unfoldable pub block_response :
    (Bytes → Option Bytes) → Message → BlockingMode → ℕ → ℕ → ℕ → Message
unfolding base qname push_ip negative_soa
block_response from_str query nx_domain_mode v4 v6 ttl = record (base query) {
  response_code = code_nx_domain;
  authorities = negative_soa from_str (qname query) ttl ∷ [];
}
block_response from_str query refused_mode v4 v6 ttl = record (base query) {
  response_code = code_refused;
}
block_response from_str query no_data v4 v6 ttl = record (base query) {
  authorities = negative_soa from_str (qname query) ttl ∷ [];
}
block_response from_str query null_ip v4 v6 ttl = push_ip (base query) (qname query) ttl 0 0
block_response from_str query custom_ip v4 v6 ttl = push_ip (base query) (qname query) ttl v4 v6

pub data Rewritten : Type 0 where
  done : Message → Rewritten
  resolve_cname : (message : Message) (target : Bytes) → Rewritten

unfoldable pub rcode_number : RewriteRcode → ℕ
rcode_number no_error = 0
rcode_number nx_domain = code_nx_domain
rcode_number refused = code_refused
rcode_number serv_fail = code_serv_fail

-- A record of type `t` answers a question of that type only.
abbrev pub answer_type : Message → ℕ → ℕ → RData → Rewritten
answer_type query t ttl rdata =
    done (if qtype query == t then answer_with (base query) (qname query) ttl rdata else base query)

unfoldable pub rewrite_response : (Bytes → Option Bytes) → Message → RewriteData → ℕ → Rewritten
unfolding base qname qtype rcode_number
rewrite_response from_str query (a i) ttl = answer_type query type_a ttl (RData.a i)
rewrite_response from_str query (aaaa i) ttl = answer_type query type_aaaa ttl (RData.aaaa i)
rewrite_response from_str query (txt text) ttl = answer_type query type_txt ttl (RData.txt text)
rewrite_response from_str query (mx preference exchange) ttl =
    answer_type query type_mx ttl (RData.mx preference (unwrap_or (from_str exchange) root))
rewrite_response from_str query (ptr target) ttl =
    answer_type query type_ptr ttl (RData.ptr (unwrap_or (from_str target) root))
rewrite_response from_str query (rcode rc) ttl =
    done (record (base query) { response_code = rcode_number rc })
rewrite_response from_str query (cname target) ttl =
    let target_name = unwrap_or (from_str target) root in
    let m = answer_with (base query) (qname query) ttl (RData.cname target_name) in
    if qtype query == type_a || qtype query == type_aaaa
    then resolve_cname m target_name
    else done m

-- `error_response`
unfoldable pub error_response : Message → ℕ → Message
unfolding base
error_response query code = record (base query) { response_code = code }

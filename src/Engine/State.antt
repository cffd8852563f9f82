-- ===== src/Engine/State.antt =====
-- crates/bulwark-engine/src/lib.rs: the state of the engine, and what the handler calls and returns.
use bulwark.Common.{ℕ, Bool, true, false, not, ◌&&◌, Option, none, some, [], ◌∷◌, ◌++◌}
use bulwark.Common.Bytes.{Bytes}
use bulwark.Net.{IpAddr}
use bulwark.Dns.{Message, new_message}
use bulwark.Filter.External.{External}
use bulwark.Filter.Engine.Builder.{MatchInfo, FilterEngine}
use bulwark.Clients.{AddressText, ClientMatcher}
use bulwark.Cache.Snapshot.{QueryKey}
use bulwark.Cache.Store.{DnsCache, Calls}
use bulwark.Engine.Block.{BlockingMode}
use bulwark.Engine.Ingress.{QueryFields, Lazy, EngineResponse}

-- What the handler calls of other crates.
pub record Crates : Type 0 where
  pub filters : External
  pub addresses : AddressText
  pub ip_text : IpAddr → Bytes
  pub from_vec : Bytes → Option Message
  pub from_str : Bytes → Option Bytes
  pub other_type : ℕ → Bytes
  pub other_code : ℕ → Bytes
  pub cache_calls : Calls
  -- `rand::random`
  pub random : ℕ

-- `bulwark_upstream::Resolved`
pub record Resolved : Type 0 where
  pub message : Message
  pub upstream : Bytes
  pub rtt_ms : ℕ

pub record EngineState : Type 0 where
  pub filter : FilterEngine
  pub clients : ClientMatcher
  -- `pool.resolve`: what the upstreams answer
  pub resolve : Message → Option Resolved
  pub filtering_enabled : Bool
  pub blocking_mode : BlockingMode
  pub block_v4 : ℕ
  pub block_v6 : ℕ
  pub blocked_ttl : ℕ

pub data QueryAction : Type 0 where
  forwarded : Bytes → QueryAction
  cached error : QueryAction
  blocked_by rewritten_by : (rule : Bytes) (list_id : ℕ) → QueryAction

pub record LogBuilder : Type 0 where
  pub client_ip : IpAddr
  pub question : Bytes
  pub qtype : Bytes
  pub allowlisted : Bool
  pub upstream_rtt_ms : Option ℕ

pub record Logged : Type 0 where
  pub log : LogBuilder
  pub action : QueryAction
  pub rcode : Bytes

-- The arguments of `spawn_refresh`
pub record Refresh : Type 0 where
  pub memoize : Bool
  pub lazy : Lazy
  pub key : QueryKey

pub record Reply (S : Type 0) : Type 0 where
  pub response : EngineResponse
  pub logged : Option Logged
  pub cache : DnsCache S
  pub refresh : Option Refresh

abbrev pub key_of : QueryFields → QueryKey
key_of f = record {
  name = f.name_lower;
  rtype = f.rtype;
  class = f.class;
  dnssec_ok = f.dnssec_ok;
  checking_disabled = f.checking_disabled;
}

abbrev pub action_of_block : MatchInfo → QueryAction
action_of_block info = blocked_by info.rule info.list_id

-- The query of `resolve_cname`
unfoldable pub cname_query : ℕ → Bytes → ℕ → Message
cname_query random target rtype = record (new_message random false 0) {
  recursion_desired = true;
  queries = record { name = target; query_type = rtype; query_class = 1 } ∷ [];
}

unfoldable pub append_resolved : Option Resolved → Message → Message
append_resolved none m = m
append_resolved (some r) m = record m { answers = m.answers ++ r.message.answers }

unfoldable pub memoizes : EngineState → Bool
memoizes s = s.filtering_enabled && not s.filter.has_client_dependent_rules

-- ===== src/Engine/Examples.antt =====
-- Tests and examples for the handler, with plain stand-ins for what it calls.
use bulwark.Common.{max, ◌≡◌, refl, inl, true, false, Option, none, some, [], ◌∷◌, ◌>>=◌, unwrap_or}
use bulwark.Dns.{Message}
use bulwark.Filter.Engine.{check}
use bulwark.Filter.Engine.Builder.{MatchInfo, allowed, FilterEngine}
use bulwark.Clients.{identify}
use bulwark.Cache.Store.{DnsCache, get, insert_inner}
use bulwark.Engine.Block.{block_response}
use bulwark.Engine.Answers.{client_info, filter_answers, rtype_label}
use bulwark.Engine.Ingress.{QueryFields, msg, into_message, into_parts, EngineResponse}
use bulwark.Engine.Handler.{
  finalize, finalize_wire, with_query, hit_block, cached_reply, hit_reply, kept_verdict,
  forwarded_reply, resolve_reply, lookup_reply, domain_of, filtered_reply, handle, run_refresh,
  served_reply,
}
use bulwark.Engine.State.{Crates, EngineState, forwarded, key_of, Refresh, Reply}
use bulwark.Common.Bytes.{codes, bytes_eq, to_ascii_lowercase}
use bulwark.Net.{v4}
use bulwark.Dns.{new_message}
use bulwark.Wire.{scan_ttl_offsets, skip_name, skip_questions, record_offsets}
use bulwark.Filter.Index.{build, build_sorted, group, take_run, index_is_empty, find_span}
use bulwark.Filter.Scan.{
  build_scan_group, scan_is_empty, scan_group, collect, add_chunks, distribute,
}
use bulwark.Filter.Text.{reverse_onto, trim_start_matches, trim_end_matches}
use bulwark.Filter.Engine.{
  find_best, consider, collect_domain, suffix_hits, after_dot, normalize, report, trim_dots,
}
use bulwark.Filter.Engine.Builder.{from_rules, gather}
use bulwark.Filter.Crates.{insertion_sort}
use bulwark.Filter.Compiler.{compile}
use bulwark.Filter.Token.{query_tokens, query_tokens_from, close_run}
use bulwark.Filter.ParserExamples.{
  plain_reading, crates, lists, crates-MatchesGlobs, crates-IsDocumented, lists-Built,
  lists-IsRoomy,
}
use bulwark.Clients.{best_match, find_host, AddressText}
use bulwark.Cache.Message.{soa_ttl, negative_ttl, min_ttl_of, base_ttl, clamp_ttl, cacheable_ttl}
use bulwark.Cache.Store.{
  new, replicate, shard_count, shard_cap, power_from, get_in, serve, respond, store,
}
use bulwark.Cache.Entries.{age_secs}
use bulwark.Cache.StoreExamples.{Plain, plain, calls, empty, answer, without}
use bulwark.Engine.Block.{nx_domain_mode, base}
use bulwark.Engine.Answers.{param_block, hint_block, record_block, rcode_label}
use bulwark.Engine.Ingress.{full, from_parsed, from_message, dnssec_ok_of, parse}
use bulwark.Engine.State.{memoizes}
use bulwark.Engine.Through.{Clean, handle-Clean}
use bulwark.Engine.Through.Stopping.{action_of, from_upstream}
use bulwark.Engine.Total.{handle-replies}
use bulwark.Engine.Ids.{base_ttl-block_response}

abbrev addresses : AddressText
addresses = record { parse_ip = λ s. none; parse_net = λ s. none; contains = λ net ip. false }

abbrev outside : Crates
outside = record {
  filters = crates;
  addresses = addresses;
  ip_text = λ i. codes "10.0.0.1";
  from_vec = λ b. none;
  from_str = λ s. some s;
  other_type = λ n. [];
  other_code = λ n. [];
  cache_calls = calls;
  random = 1;
}

-- The question `a. A IN`.
abbrev asks : Message
asks = record (new_message 9 false 0) {
  queries = record { name = codes "a."; query_type = 1; query_class = 1 } ∷ [];
}

abbrev state : FilterEngine → EngineState
state filter = record {
  filter = filter;
  clients = record { hosts = []; entries = [] };
  resolve = λ m. some (record { message = answer; upstream = codes "up"; rtt_ms = 5 });
  filtering_enabled = true;
  blocking_mode = nx_domain_mode;
  block_v4 = 0;
  block_v6 = 0;
  blocked_ttl = 60;
}

abbrev fields : QueryFields
fields = record {
  id = 9;
  rtype = 1;
  class = 1;
  qname_display = codes "a.";
  name_lower = codes "a.";
  dnssec_ok = false;
  checking_disabled = false;
}

program : Unit {0}
unfolding parse from_parsed from_message dnssec_ok_of into_parts into_message identify best_match
    find_host handle filtered_reply lookup_reply resolve_reply forwarded_reply finalize
    finalize_wire with_query hit_reply hit_block cached_reply kept_verdict served_reply memoizes get
    get_in insert_inner store cacheable_ttl base_ttl negative_ttl soa_ttl min_ttl_of clamp_ttl
    scan_ttl_offsets skip_name skip_questions record_offsets serve respond age_secs new replicate
    shard_count shard_cap power_from without filter_answers record_block hint_block param_block
    rtype_label rcode_label reverse_onto trim_start_matches trim_end_matches check normalize
    trim_dots find_best consider collect_domain suffix_hits after_dot scan_is_empty from_rules
    gather build build_sorted group take_run index_is_empty find_span build_scan_group scan_group
    collect add_chunks distribute query_tokens query_tokens_from close_run report insertion_sort
    base bytes_eq to_ascii_lowercase
program = tt

-- With no rules, the query goes to the upstreams.
abbrev passed : Option (Reply Plain)
passed = handle plain outside (state (from_rules crates [])) 0 (full asks) (v4 1) empty

forwards : (passed >>= λ r. action_of r) ≡ some (forwarded (codes "up"))
unfolding program
forwards = refl

abbrev no_reply : Reply Plain
no_reply = record {
  response = EngineResponse.wire [];
  logged = none;
  cache = empty;
  refresh = none;
}

handle-Clean_example :
    ((rule : Option MatchInfo) × (check crates
          (from_rules crates [])
          (domain_of plain outside (state (from_rules crates [])) fields)
          (rtype_label outside.other_type 1)
          (client_info (identify addresses (state (from_rules crates [])).clients (v4 1)))
        ≡ allowed rule))
    × Clean plain outside
        (state (from_rules crates []))
        (identify addresses (state (from_rules crates [])).clients (v4 1))
        0
        fields
        (msg asks)
        empty
        (unwrap_or passed no_reply)
unfolding program
handle-Clean_example =
    handle-Clean plain outside (state (from_rules crates [])) 0 (full asks) (v4 1) empty
      (unwrap_or passed no_reply) fields (msg asks) (forwarded (codes "up"))
      (from_upstream (codes "up")) refl refl refl refl

abbrev refresh : Refresh
refresh = record { memoize = true; lazy = msg asks; key = key_of fields }

handle-replies_example :
    ((r : Reply Plain) × (handle plain outside
          (state (compile crates lists).0)
          0
          (full asks)
          (v4 1)
          empty
        ≡ some r))
    × ((c : DnsCache Plain) × (run_refresh plain outside
            (state (compile crates lists).0)
            0
            refresh
            empty
          ≡ some c))
handle-replies_example =
    handle-replies plain outside (state (compile crates lists).0) plain_reading crates-IsDocumented
      crates-MatchesGlobs lists lists-Built lists-IsRoomy refl 0 (full asks) (v4 1) empty empty
      refresh

base_ttl-block_response_example :
    base_ttl (block_response (λ s. some s) asks nx_domain_mode 0 0 60) ≡ max 60 1
base_ttl-block_response_example =
    base_ttl-block_response (λ s. some s) asks nx_domain_mode 0 0 60 (inl refl)

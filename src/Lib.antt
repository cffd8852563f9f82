-- ===== src/Lib.antt =====
-- Bulwark, a filtering DNS resolver that one hosts oneself: a model of its core.
--
-- A query comes in as bytes. The fast path (crates/bulwark-engine/src/wire.rs) reads it and patches the
-- transaction id and the TTLs of cached responses in place. The filter engine
-- (crates/bulwark-filter/src) decides whether a name is allowed, blocked or rewritten: the list compiler
-- turns the parsed lines of the block lists into rules, and the engine indexes these by domain hash and by
-- rare tokens. A source address belongs to a configured client (crates/bulwark-engine/src/clients.rs),
-- whose name and tags the rules can ask for. What is neither blocked nor cached goes to the upstreams
-- (crates/bulwark-upstream/src/pool.rs), in the order of their health. The cache
-- (crates/bulwark-engine/src/cache.rs) keeps the answers and is saved over a restart. The handler
-- (crates/bulwark-engine/src/lib.rs) joins these: it filters the name, asks the cache, asks the
-- upstreams, filters the answers for the client, and keeps them with the verdict of the filter.
--
-- Files:
--   Common      shared names, Boolean tests, lists by native numbers, bytes of the wire
--   Net         addresses and networks
--   Wire        wire.rs: skip_name, scan_ttl_offsets, patch, read_question_name, parse_query;
--               Names, Bounds, Patch, Rescan, Questions, Queries prove things of them
--   Filter.Rule, Filter.Token, Filter.Compiler
--               rule.rs, token.rs and list.rs
--   Filter.Parser with Hosts, Patterns and Modifiers, Filter.Text
--               parser.rs, and the operations of str on bytes that it uses
--   Filter.Glob, Safe
--               what a wildcard pattern matches, and the tokens of such names
--   Filter.Parts, Parsing, Lists
--               (with their child modules) what the parser's rules satisfy, and an engine compiled
--               from lists of lines
--   Filter.Index, Filter.Scan, Filter.Engine with Builder
--               engine.rs: DomainIndex, ScanGroup, FilterEngine::from_rules and FilterEngine::check
--   Filter.External
--               what the engine calls of the crates regex, ipnet and ahash
--   Filter.Meaning
--               what a rule means for a query, with no index and no arena
--   Filter.Lookup, Covers, Tokens, Hits
--               what lookups and scans find, and where that comes from
--   Filter.Gather, Placing, Gathered, Plain
--               what from_rules keeps of each rule
--   Filter.Domain, Winner, Candidates, Origins, Best, Verdicts, Pruning
--               candidates, their origin, the winner and the verdict; the compiler's pruning
--   Clients     clients.rs
--   Upstream.Health, Upstream.Pool
--               pool.rs: Health, Upstream, UpstreamPool::ordered, resolve_sequential, probe_once;
--               Standing, Fallback and Order prove things of them
--   Cache.Message, Entries, Store
--               cache.rs: DnsCache::get, insert_inner, cacheable_ttl, reconfigure and the rest
--   Cache.Lru   what the cache calls of the crate lru, and that crate's documented behaviour
--   Cache.Keys, Lookup, Ttl, Hits, Effects, Runs, Served
--               what a key finds, what a lookup does, and a cache over any use of it
--   Cache.Snapshot
--               cache.rs: write_record, read_record, export_snapshot, import_snapshot
--   Dns         the parts of a DNS message that the source reads or writes
--   Engine.Block
--               block.rs
--   Engine.Ingress, Answers, State, Handler
--               lib.rs of bulwark-engine: Ingress, QueryFields, filter_answers, Engine::handle and
--               spawn_refresh, with the upstreams as a parameter
--   Engine.Through, Total, Ids
--               what gets through to a client, that each query gets a reply, and how long a block
--               is cached
--   Examples    in each part: tests, and the theorems at concrete inputs
--
-- Texts are lists of bytes. Integers are natural numbers, cut to their width where the source casts;
-- counters that the source only adds to are not cut, nor two casts to u32, of an offset in a buffer
-- (scan_ttl_offsets) and of a number of rules (DomainIndex), that a DNS message and a filter in memory stay
-- below. Loops over a buffer run on fuel: the length of
-- what is left, which each round shortens (skip_name, read_labels and the records of a message,
-- the chunks of a scan group, the suffixes of a domain, the characters of a text). A hash map is a
-- list of its entries. Code of other crates is a parameter; the laws that the theorems need of it are
-- IsDocumented in Filter.External, MatchesGlobs in Filter.Parsing.Patterns (the regex of a pattern in
-- ASCII matches only where the pattern does) and IsLru in Cache.Lru. Times are
-- numbers that the caller gives; f64 and random jitter are parameters of the upstream pool.
--
-- Not modelled: statistics, the query log, configuration, the coalescing of queries in flight, the
-- API of the server; sockets, TLS, HTTP and files.
pub mod Common
pub mod Wire
pub mod Upstream
pub mod Clients
pub mod Cache
pub mod Net
pub mod Dns
pub mod Engine
pub mod Filter

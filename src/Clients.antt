-- ===== src/Clients.antt =====
-- crates/bulwark-engine/src/clients.rs: which configured client a source address belongs to.
-- Reading an address or a network from text, and `IpNet::contains`, are parameters.
mod Longest
mod Examples
use bulwark.Common.{
  ℕ, zero, suc, ◌+◌, ◌-◌, ◌*◌, ◌/◌, ◌%◌, ◌^◌, ◌≤◌, ◌<◌, min, max, ◌≡◌, refl, sym, ap, ap₂, subst,
  ◌∙◌, fun_ext, ◌≢◌, ◌↔◌, ◌⊎◌, inl, inr, Bool, true, false, not, ◌&&◌, ◌||◌, Option, none, some,
  List, [], ◌∷◌, ◌++◌, map, append-nil, append_assoc, arith, ltb, leb, ◌==◌, if◌then◌else◌, ltb→lt,
  lt→ltb, leb→le, le→leb, ==_iff, Bool-cases, Option-cases, ◌>>=◌, ◌>>◌, guard, >>=-eq-some,
  guard-eq-some, is_some, unwrap_or, length, get_elem?, set, get_or, take, drop, any, all, keep_if,
  All, In, here, there, length-append, length-set, get_elem?-set_self, get_elem?-set_ne,
  get_elem?-lt-length, length-take, length-drop, take-append_self, drop-append_self, drop-drop,
  get_elem?-drop, In-append_left, In-append_right, All-In, get_elem?-append_left,
  get_elem?-append_length, take-append_left, span-append_left, take-length, In-append, get_elem?-In,
  In-get_elem?, In-map, some_injective,
}
use bulwark.Common.Bytes.{Bytes}
use bulwark.Net.{IpAddr, IpNet, ip_eq}

-- `bulwark_config::ClientConfig`, as far as it is read here.
pub record ClientConfig : Type 0 where
  pub name : Bytes
  pub ids : List Bytes
  pub tags : List Bytes
  pub filtering_enabled : Bool

pub record ClientEntry : Type 0 where
  pub name : Bytes
  pub nets : List IpNet
  pub tags : List Bytes
  pub filtering_enabled : Bool

pub record ResolvedClient : Type 0 where
  pub ip : IpAddr
  pub name : Option Bytes
  pub tags : List Bytes
  pub filtering_enabled : Bool

-- `ResolvedClient::label`; `ip_text` is the address as text.
unfoldable pub label : (IpAddr → Bytes) → ResolvedClient → Bytes
label ip_text c = unwrap_or c.name (ip_text c.ip)

-- The hosts are a map from address to index.
pub record ClientMatcher : Type 0 where
  pub hosts : List (IpAddr × ℕ)
  pub entries : List ClientEntry

pub record AddressText : Type 0 where
  pub parse_ip : Bytes → Option IpAddr
  pub parse_net : Bytes → Option IpNet
  pub contains : IpNet → IpAddr → Bool

unfoldable pub find_host : IpAddr → List (IpAddr × ℕ) → Option ℕ
find_host ip [] = none
find_host ip ((a, idx) ∷ hosts) = if ip_eq a ip then some idx else find_host ip hosts

-- `hosts.entry(ip).or_insert(idx)`
unfoldable pub or_insert : IpAddr → ℕ → List (IpAddr × ℕ) → List (IpAddr × ℕ)
unfolding find_host
or_insert ip idx hosts = elim (find_host ip hosts) [ none ↦ (ip, idx) ∷ hosts | some old ↦ hosts ]

-- The loop over the ids of one client: an address is a host, a network is kept, all else skipped.
unfoldable pub add_ids :
    AddressText → ℕ → List Bytes → List (IpAddr × ℕ) × List IpNet → List (IpAddr × ℕ) × List IpNet
unfolding or_insert
add_ids t idx [] acc = acc
add_ids t idx (id ∷ ids) (hosts, nets) = add_ids t idx ids (elim (t.parse_ip id) [
  | some ip ↦ (or_insert ip idx hosts, nets)
  | none ↦ elim (t.parse_net id) [ some net ↦ (hosts, nets ++ net ∷ []) | none ↦ (hosts, nets) ]
])

unfoldable pub add_client : AddressText → ClientMatcher → ClientConfig → ClientMatcher
unfolding add_ids
add_client t m c =
    let (hosts, nets) = add_ids t (length m.entries) c.ids (m.hosts, []) in
    record {
      hosts = hosts;
      entries =
          m.entries
          ++ record {
            name = c.name;
            nets = nets;
            tags = c.tags;
            filtering_enabled = c.filtering_enabled;
          }
            ∷ [];
    }

unfoldable pub add_clients : AddressText → ClientMatcher → List ClientConfig → ClientMatcher
unfolding add_client
add_clients t m [] = m
add_clients t m (c ∷ clients) = add_clients t (add_client t m c) clients

-- `ClientMatcher::build`
unfoldable pub build : AddressText → List ClientConfig → ClientMatcher
unfolding add_clients
build t clients = add_clients t (record { hosts = []; entries = [] }) clients

abbrev pub max_of : ℕ → Option ℕ → ℕ
max_of n none = n
max_of n (some m) = max n m

-- `nets.iter().filter(contains).map(prefix_len).max()`
unfoldable pub widest : AddressText → IpAddr → List IpNet → Option ℕ
widest t ip [] = none
widest t ip (n ∷ nets) =
    let rest = widest t ip nets in if t.contains n ip then some (max_of n.prefix_len rest) else rest

unfoldable pub better_entry :
    Option ℕ → ClientEntry → Option (ℕ × ClientEntry) → Option (ℕ × ClientEntry)
better_entry none e best = best
better_entry (some plen) e none = some (plen, e)
better_entry (some plen) e (some (b, old)) = if ltb b plen then some (plen, e) else some (b, old)

-- The loop of `best_match`.
unfoldable pub best_from :
    AddressText → IpAddr → List ClientEntry → Option (ℕ × ClientEntry) → Option (ℕ × ClientEntry)
unfolding widest better_entry
best_from t ip [] best = best
best_from t ip (e ∷ entries) best =
    best_from t ip entries (better_entry (widest t ip e.nets) e best)

unfoldable pub best_match : AddressText → ClientMatcher → IpAddr → Option ClientEntry
unfolding best_from find_host
best_match t m ip = elim (find_host ip m.hosts) [
  | some idx ↦ get_elem? m.entries idx
  | none ↦ elim (best_from t ip m.entries none) [ none ↦ none | some (plen, e) ↦ some e ]
]

unfoldable pub identify : AddressText → ClientMatcher → IpAddr → ResolvedClient
unfolding best_match
identify t m ip = elim (best_match t m ip) [
  | none ↦ record { ip = ip; name = none; tags = []; filtering_enabled = true }
  | some e ↦ record {
    ip = ip;
    name = some e.name;
    tags = e.tags;
    filtering_enabled = e.filtering_enabled;
  }
]

unfoldable pub name_for : AddressText → ClientMatcher → IpAddr → Option Bytes
unfolding best_match
name_for t m ip = elim (best_match t m ip) [ none ↦ none | some e ↦ some e.name ]

unfoldable pub name_for_str : AddressText → ClientMatcher → Bytes → Option Bytes
unfolding name_for
name_for_str t m ip = t.parse_ip ip >>= name_for t m

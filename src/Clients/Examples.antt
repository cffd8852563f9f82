-- ===== src/Clients/Examples.antt =====
-- clients.rs: tests and examples.
use bulwark.Common.{◌<◌, refl, Bool, true, false, Option, none, some, List, [], ◌∷◌, leb}
use bulwark.Common.Bytes.{Bytes}
use bulwark.Net.{IpAddr, v4, v6, IpNet, ip_eq}
use bulwark.Clients.{
  ClientConfig, ClientEntry, AddressText, find_host, or_insert, add_ids, add_client, add_clients,
  build, widest, better_entry, best_from, best_match,
}
use bulwark.Clients.Longest.{Longest, best_match-Longest, build-in_range}

program : Unit {0}
unfolding find_host or_insert add_ids add_client add_clients build widest better_entry best_from
    best_match ip_eq
program = tt

-- One byte is an address, two are a network that holds the addresses not below the first byte.
abbrev toy_ip : Bytes → Option IpAddr
toy_ip (a ∷ []) = some (v4 a)
toy_ip [] = none
toy_ip (a ∷ b ∷ rest) = none

abbrev toy_net : Bytes → Option IpNet
toy_net (a ∷ b ∷ []) = some (record { addr = v4 a; prefix_len = b })
toy_net [] = none
toy_net (a ∷ []) = none
toy_net (a ∷ b ∷ c ∷ rest) = none

abbrev addr_leb : IpAddr → IpAddr → Bool
addr_leb (v4 a) (v4 b) = leb a b
addr_leb (v4 a) (v6 b) = false
addr_leb (v6 a) b = false

abbrev toy : AddressText
toy = record { parse_ip = toy_ip; parse_net = toy_net; contains = λ n ip. addr_leb n.addr ip }

abbrev clients : List ClientConfig
clients =
    record { name = b'l' ∷ []; ids = (7 ∷ []) ∷ []; tags = []; filtering_enabled = true }
    ∷ record { name = b'g' ∷ []; ids = (3 ∷ 8 ∷ []) ∷ []; tags = []; filtering_enabled = false }
    ∷ record { name = b'h' ∷ []; ids = (4 ∷ 16 ∷ []) ∷ []; tags = []; filtering_enabled = true }
    ∷ []

abbrev entry_of : Bytes → List IpNet → ClientEntry
entry_of name nets = record { name = name; nets = nets; tags = []; filtering_enabled = true }

build-in_range_example : 0 < 3
unfolding program
build-in_range_example = build-in_range toy clients (v4 7) 0 refl

best_match-Longest_example :
    Longest toy
      (v4 9)
      (build toy clients)
      (entry_of (b'h' ∷ []) (record { addr = v4 4; prefix_len = 16 } ∷ []))
unfolding program
best_match-Longest_example =
    best_match-Longest toy (v4 9) (build toy clients)
      (entry_of (b'h' ∷ []) (record { addr = v4 4; prefix_len = 16 } ∷ [])) refl refl

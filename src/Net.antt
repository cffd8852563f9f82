-- ===== src/Net.antt =====
-- Addresses of `std::net`, as the numbers that they are, and `ipnet::IpNet` by its two public parts.
-- Whether a network contains an address is the `ipnet` crate's: a parameter of what uses it.
use bulwark.Common.{ℕ, Bool, false, ◌==◌}

pub data IpAddr : Type 0 where
  v4 : ℕ → IpAddr
  v6 : ℕ → IpAddr

unfoldable pub ip_eq : IpAddr → IpAddr → Bool
ip_eq (v4 a) (v4 b) = a == b
ip_eq (v6 a) (v6 b) = a == b
ip_eq (v4 a) (v6 b) = false
ip_eq (v6 a) (v4 b) = false

pub record IpNet : Type 0 where
  pub addr : IpAddr
  pub prefix_len : ℕ

-- ===== src/Net.antt =====
-- The address types of Rust's standard library, std::net, as far as the program uses them.
use pktauth.Base.{ℕ, List, [], ◌∷◌, ◌≡◌, Bool, ◌&&◌, ◌==◌, arith}

pub record Ipv4Addr : Type 0 where
  pub a : ℕ
  pub b : ℕ
  pub c : ℕ
  pub d : ℕ

abbrev pub octets : Ipv4Addr → List ℕ
octets ip = ip.a ∷ ip.b ∷ ip.c ∷ ip.d ∷ []

-- `Ipv4Addr::UNSPECIFIED`.
abbrev pub unspecified : Ipv4Addr
unspecified = record { a = 0; b = 0; c = 0; d = 0 }

abbrev pub is_unspecified : Ipv4Addr → Bool
is_unspecified ip = (ip.a == 0 && ip.b == 0) && (ip.c == 0 && ip.d == 0)

-- An IPv6 address by its sixteen octets.
pub data IpAddr : Type 0 where
  v4 : Ipv4Addr → IpAddr
  v6 : List ℕ → IpAddr

pub record SocketAddr : Type 0 where
  pub ip : IpAddr
  pub port : ℕ

-- The four octets determine the address.
pub octets_injective : (x y : Ipv4Addr) → octets x ≡ octets y → x ≡ y
octets_injective x y e = ground arith

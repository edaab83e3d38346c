-- ===== src/Base/Net.antt =====
-- `std::net::SocketAddr`. An IPv4 address is its four bytes and the port; an IPv6 address is its
-- printed form and the port.
use frclib_nettables.Base.Text.{Text, codes, show}
use frclib_nettables.Base.Map.{text_key}
use Prim.Native.Nat.{ℕ}
use mathlib.Core.List.{◌++◌}
use native.Mathlib.Decide.{ℕ_discrete}
use frclib_nettables.Base.Text.{Text-discrete}

pub data SocketAddr : Type 0 where
  v4 : ℕ → ℕ → ℕ → ℕ → ℕ → SocketAddr
  v6 : Text → ℕ → SocketAddr

unfoldable pub SocketAddr-discrete : Discrete SocketAddr
unfolding ℕ_discrete Text-discrete
SocketAddr-discrete = hlevel (ℕ_discrete, Text-discrete)

-- `Display` of an address.
unfoldable pub show_addr : SocketAddr → Text
show_addr (v4 a b c d port) =
    show a
    ++ codes "."
    ++ show b
    ++ codes "."
    ++ show c
    ++ codes "."
    ++ show d
    ++ codes ":"
    ++ show port
show_addr (v6 ip port) = codes "[" ++ ip ++ codes "]:" ++ show port

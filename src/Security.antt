-- ===== src/Security.antt =====
-- nanobot/security/network.py: which addresses may be fetched.
pub mod Internal
pub mod Fetch
pub mod Urls
pub mod Guard
mod Tests
use eeebot_self_evolving.Prelude.{
  ℕ, zero, suc, ◌+◌, ◌-◌, ◌*◌, ◌/◌, ◌^◌, Bool, true, false, ◌&&◌, ◌||◌, not, Option, none, some,
  String, List, [], ◌∷◌, ◌++◌, ◌==◌, if◌then◌else◌, or_else, str_eq, length, take, codes, text_of,
  is_space,
}
use eeebot_self_evolving.Prelude.Effects.{Error, Result, exception, cancelled, ok, raise, Method}

-- `ipaddress.IPv4Address` and `ipaddress.IPv6Address`, by their number.
pub data Address : Type 0 where
  ipv4 : ℕ → Address
  ipv6 : ℕ → Address

-- An `ip_network`: its first address and the length of its prefix.
pub data Network : Type 0 where
  network : Address → ℕ → Network

abbrev pub dotted : ℕ → ℕ → ℕ → ℕ → Address
dotted a b c d = ipv4 (((a * 256 + b) * 256 + c) * 256 + d)

-- `_BLOCKED_NETWORKS`
abbrev pub blocked_networks : List Network
blocked_networks =
    network (dotted 0 0 0 0) 8
    ∷ network (dotted 10 0 0 0) 8
    ∷ network (dotted 100 64 0 0) 10
    ∷ network (dotted 127 0 0 0) 8
    ∷ network (dotted 169 254 0 0) 16
    ∷ network (dotted 172 16 0 0) 12
    ∷ network (dotted 192 168 0 0) 16
    ∷ network (ipv6 1) 128
    ∷ network (ipv6 (64512 * 2 ^ 112)) 7
    ∷ network (ipv6 (65152 * 2 ^ 112)) 10
    ∷ []

-- `addr in net`: of the same version, and equal in the bits of the prefix.
abbrev pub is_in : Address → Network → Bool
is_in (ipv4 n) (network (ipv4 m) prefix) = (n / 2 ^ (32 - prefix)) == (m / 2 ^ (32 - prefix))
is_in (ipv6 n) (network (ipv6 m) prefix) = (n / 2 ^ (128 - prefix)) == (m / 2 ^ (128 - prefix))
is_in _ _ = false

abbrev pub any_in : Address → List Network → Bool
any_in a [] = false
any_in a (net ∷ nets) = is_in a net || any_in a nets

unfoldable pub is_private : Address → Bool
is_private a = any_in a blocked_networks

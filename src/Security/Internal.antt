-- ===== src/Security/Internal.antt =====
-- The blocked networks as ranges of addresses.
use eeebot_self_evolving.Prelude.{ℕ, ◌+◌, ◌*◌, ◌^◌, ◌≡◌, Bool, ◌==◌, ◌&&◌, ◌||◌, leb, ltb, arith}
use eeebot_self_evolving.Security.{Address, ipv4, ipv6, is_private}

abbrev between : ℕ → ℕ → ℕ → Bool
between low n high = leb low n && ltb n high

-- 0.*, 10.*, 100.64.* to 100.127.*, 127.*, 169.254.*, 172.16.* to 172.31.*, 192.168.*, and of IPv6
-- the loopback address, fc00 to fdff and fe80 to febf.
abbrev pub in_ranges : Address → Bool
in_ranges (ipv4 n) =
    ltb n (2 ^ 24)
    || (between (10 * 2 ^ 24) n (11 * 2 ^ 24)
        || (between (100 * 2 ^ 24 + 64 * 2 ^ 16) n (100 * 2 ^ 24 + 128 * 2 ^ 16)
            || (between (127 * 2 ^ 24) n (128 * 2 ^ 24)
                || (between (169 * 2 ^ 24 + 254 * 2 ^ 16) n (169 * 2 ^ 24 + 255 * 2 ^ 16)
                    || (between (172 * 2 ^ 24 + 16 * 2 ^ 16) n (172 * 2 ^ 24 + 32 * 2 ^ 16)
                        || between (192 * 2 ^ 24 + 168 * 2 ^ 16) n
                            (192 * 2 ^ 24 + 169 * 2 ^ 16))))))
in_ranges (ipv6 n) =
    (n == 1)
    || (between (252 * 2 ^ 120) n (254 * 2 ^ 120) || between (1018 * 2 ^ 118) n (1019 * 2 ^ 118))

-- An address is private exactly if it lies in one of the ranges that the blocked networks span.
pub is_private_lem : (a : Address) → is_private a ≡ in_ranges a
unfolding is_private
is_private_lem (ipv4 n) = ground arith
is_private_lem (ipv6 n) = ground arith

-- ===== src/Auth/Oidc/Address/Ranges.antt =====
-- The public addresses by their ranges.
use a2a_red_panda_server_con.Prelude.{
  ℕ, ◌<◌, ◌≡◌, ◌↔◌, ◌⊎◌, true, List, [], ◌∷◌, arith, All, ◌-◌, ◌*◌, ◌/◌, ◌^◌, ◌≢◌, false,
}
use a2a_red_panda_server_con.Auth.Oidc.Address.{
  v4, unmap, is_unspecified, is_loopback, is_multicast, is_link_local_unicast,
  is_link_local_multicast, is_private, is_global_unicast, in_prefixes, public_oidc_address, v6,
}

-- Each pair is the first and the last address of a range that is not public: 0.0.0.0, 10.0.0.0/8,
-- 100.64.0.0/10, 127.0.0.0/8, 169.254.0.0/16, 172.16.0.0/12, 192.0.0.0/24, 192.0.2.0/24,
-- 192.168.0.0/16, 198.18.0.0/15, 198.51.100.0/24, 203.0.113.0/24, 224.0.0.0/4 and 255.255.255.255.
abbrev pub refused_ranges : List (ℕ × ℕ)
refused_ranges =
    (0, 0)
    ∷ (0x0a000000, 0x0affffff)
    ∷ (0x64400000, 0x647fffff)
    ∷ (0x7f000000, 0x7fffffff)
    ∷ (0xa9fe0000, 0xa9feffff)
    ∷ (0xac100000, 0xac1fffff)
    ∷ (0xc0000000, 0xc00000ff)
    ∷ (0xc0000200, 0xc00002ff)
    ∷ (0xc0a80000, 0xc0a8ffff)
    ∷ (0xc6120000, 0xc613ffff)
    ∷ (0xc6336400, 0xc63364ff)
    ∷ (0xcb007100, 0xcb0071ff)
    ∷ (0xe0000000, 0xefffffff)
    ∷ (0xffffffff, 0xffffffff)
    ∷ []

-- An address of version 4 is public exactly when it lies outside of all the ranges.
pub public_oidc_address_ranges :
    (n : ℕ) → (public_oidc_address (v4 n) ≡ true) ↔ All (λ r. (n < r.0) ⊎ (r.1 < n)) refused_ranges
unfolding public_oidc_address unmap is_global_unicast is_private is_loopback is_link_local_unicast
    is_link_local_multicast is_multicast is_unspecified in_prefixes
public_oidc_address_ranges n = ground arith

-- The ranges of version 6 that are not public: :: and ::1, fc00::/7, fe80::/10, ff00::/8 and
-- 2001:db8::/32.
abbrev pub refused_ranges_v6 : List (ℕ × ℕ)
refused_ranges_v6 =
    (0, 1)
    ∷ (0x7e * 2 ^ 121, 0x7f * 2 ^ 121 - 1)
    ∷ (0x3fa * 2 ^ 118, 0x3fb * 2 ^ 118 - 1)
    ∷ (0xff * 2 ^ 120, 2 ^ 128 - 1)
    ∷ (0x20010db8 * 2 ^ 96, 0x20010db9 * 2 ^ 96 - 1)
    ∷ []

-- An address of version 6 with no zone, and not one of version 4 that is mapped, is public exactly
-- when it lies outside of all these ranges.
pub public_oidc_address_v6 :
    (n : ℕ)
    → n / 2 ^ 32 ≢ 0xffff
    → n < 2 ^ 128
    → (public_oidc_address (v6 false n) ≡ true) ↔ All (λ r. (n < r.0) ⊎ (r.1 < n)) refused_ranges_v6
unfolding public_oidc_address unmap is_global_unicast is_private is_loopback is_link_local_unicast
    is_link_local_multicast is_multicast is_unspecified in_prefixes
public_oidc_address_v6 n unmapped h = ground arith

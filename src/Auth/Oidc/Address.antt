-- ===== src/Auth/Oidc/Address.antt =====
-- internal/auth/oidc.go: `publicOIDCAddress` and `dialPublicOIDCAddress`. An address of the package
-- net/netip is its number; one of version 6 may have a zone.
pub mod Ranges
pub mod Dial
use a2a_red_panda_server_con.Prelude.{
  Text, ℕ, some, none, Option, ◌/◌, ◌%◌, ◌^◌, ◌⊎◌, inl, inr, Bool, ◌&&◌, ◌||◌, not, List, [], ◌∷◌,
  ◌==◌, if◌then◌else◌,
}
use a2a_red_panda_server_con.Config.Load.{address}

pub data Address : Type 0 where
  v4 : (n : ℕ) → Address
  v6 : (zoned : Bool) (n : ℕ) → Address

-- `Addr.Unmap`: an address under ::ffff:0:0/96 is one of version 4, and loses its zone.
unfoldable pub unmap : Address → Address
unmap (v4 n) = v4 n
unmap (v6 zoned n) = if n / 2 ^ 32 == 0xffff then v4 (n % 2 ^ 32) else v6 zoned n

-- The methods of `Addr`.
unfoldable pub is_unspecified : Address → Bool
is_unspecified (v4 n) = n == 0
is_unspecified (v6 zoned n) = n == 0 && not zoned

unfoldable pub is_loopback : Address → Bool
is_loopback (v4 n) = n / 2 ^ 24 == 127
is_loopback (v6 zoned n) = n == 1

unfoldable pub is_multicast : Address → Bool
is_multicast (v4 n) = n / 2 ^ 28 == 14
is_multicast (v6 zoned n) = n / 2 ^ 120 == 0xff

unfoldable pub is_link_local_unicast : Address → Bool
is_link_local_unicast (v4 n) = n / 2 ^ 16 == 0xa9fe
is_link_local_unicast (v6 zoned n) = n / 2 ^ 118 == 0x3fa

unfoldable pub is_link_local_multicast : Address → Bool
is_link_local_multicast (v4 n) = n / 2 ^ 8 == 0xe00000
is_link_local_multicast (v6 zoned n) = n / 2 ^ 120 == 0xff && n / 2 ^ 112 % 16 == 2

unfoldable pub is_private : Address → Bool
is_private (v4 n) = n / 2 ^ 24 == 10 || n / 2 ^ 20 == 0xac1 || n / 2 ^ 16 == 0xc0a8
is_private (v6 zoned n) = n / 2 ^ 121 == 0x7e

unfoldable pub is_global_unicast : Address → Bool
unfolding is_unspecified is_loopback is_multicast is_link_local_unicast
is_global_unicast (v4 n) =
    not (n == 0 || n == 0xffffffff)
    && not (is_unspecified (v4 n))
    && not (is_loopback (v4 n))
    && not (is_multicast (v4 n))
    && not (is_link_local_unicast (v4 n))
is_global_unicast (v6 zoned n) =
    not (is_unspecified (v6 zoned n))
    && not (is_loopback (v6 zoned n))
    && not (is_multicast (v6 zoned n))
    && not (is_link_local_unicast (v6 zoned n))

-- `prefix.Contains(address)`, for the prefixes of the list: an address with a zone is in none.
unfoldable pub in_prefixes : Address → Bool
in_prefixes (v4 n) =
    n / 2 ^ 22 == 0x191
    || n / 2 ^ 8 == 0xc00000
    || n / 2 ^ 8 == 0xc00002
    || n / 2 ^ 17 == 0x6309
    || n / 2 ^ 8 == 0xc63364
    || n / 2 ^ 8 == 0xcb0071
in_prefixes (v6 zoned n) = not zoned && n / 2 ^ 96 == 0x20010db8

unfoldable pub public_oidc_address : Address → Bool
public_oidc_address address =
    let parsed = unmap address in
    not (
      not (is_global_unicast parsed)
      || is_private parsed
      || is_loopback parsed
      || is_link_local_unicast parsed
      || is_link_local_multicast parsed
      || is_multicast parsed
      || is_unspecified parsed)
    && not (in_prefixes parsed)

-- How dialing ends: the destination cannot be read, or its host not be resolved; or it is
-- connected, or fails with the last error, or with none where no address was public.
pub data Dialed (Connection Failure : Type 0) : Type 0 where
  bad_destination : Dialed Connection Failure
  unresolved : Failure → Dialed Connection Failure
  connected : Connection → Dialed Connection Failure
  dial_failed : Failure → Dialed Connection Failure
  none_public : Dialed Connection Failure

-- The package net: `SplitHostPort`, `LookupNetIP` and `DialContext` to an address and a port.
pub record Network (Connection Failure : Type 0) : Type 0 where
  pub split_host_port : Text → Option (Text × Text)
  pub lookup_net_ip : (host : Text) → Failure ⊎ List Address
  pub dial : Address → (port : Text) → Failure ⊎ Connection

module _ {Connection Failure : Type 0} where
  -- The loop over the addresses that the host resolved to; `dial` is what the network answers.
  unfoldable pub dial_loop :
      (dial : Address → Failure ⊎ Connection)
      → Option Failure
      → List Address
      → Dialed Connection Failure
  dial_loop dial (some e) [] = dial_failed e
  dial_loop dial none [] = none_public
  dial_loop dial last (candidate ∷ rest) =
      if not (public_oidc_address candidate)
      then dial_loop dial last rest
      else elim (dial candidate) [
        | inr connection ↦ connected connection
        | inl e ↦ dial_loop dial (some e) rest
      ]

  unfoldable pub dial_public :
      Network Connection Failure → (destination : Text) → Dialed Connection Failure
  dial_public net destination = elim (net.split_host_port destination) [
    | none ↦ bad_destination
    | some (host, port) ↦ elim (net.lookup_net_ip host) [
      | inl e ↦ unresolved e
      | inr addresses ↦ dial_loop (λ candidate. net.dial candidate port) none addresses
    ]
  ]

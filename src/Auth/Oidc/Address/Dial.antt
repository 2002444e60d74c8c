-- ===== src/Auth/Oidc/Address/Dial.antt =====
-- Which address is dialed.
use a2a_red_panda_server_con.Prelude.{
  ◌≡◌, refl, ◌⊎◌, inl, inr, true, false, Option, none, some, List, [], ◌∷◌, Bool-cases, sum_cases,
  Among, All, Text, Option-cases,
}
use a2a_red_panda_server_con.Auth.Oidc.Address.{
  Address, public_oidc_address, Dialed, connected, dial_failed, none_public, dial_loop, dial_public,
  bad_destination, unresolved, Network,
}
use a2a_red_panda_server_con.Storage.Store.Create.{answered}

module _ {Connection Failure : Type 0} where
  module _ (dial : Address → Failure ⊎ Connection) where
    -- An address that gives no connection: it is not public, or dialing it fails.
    abbrev pub IsUnusable : Address → Type 0
    IsUnusable a = (public_oidc_address a ≡ false) ⊎ ((f : Failure) × (dial a ≡ inl f))

    -- The error is that of a public address that was dialed.
    abbrev pub IsErrorOf : List Address → Failure → Type 0
    IsErrorOf l e = (a : Address) × Among a l × (public_oidc_address a ≡ true) × (dial a ≡ inl e)

    -- What the result tells of the addresses that the host resolved to, and of the error before
    -- them.
    abbrev pub IsTried : Option Failure → List Address → Dialed Connection Failure → Type 0
    IsTried last l bad_destination = ⊥
    IsTried last l (unresolved e) = ⊥
    IsTried last l (connected c) =
        (a : Address) × Among a l × (public_oidc_address a ≡ true) × (dial a ≡ inr c)
    IsTried last l (dial_failed e) = ((last ≡ some e) ⊎ IsErrorOf l e) × All IsUnusable l
    IsTried last l none_public = (last ≡ none) × All (λ a. public_oidc_address a ≡ false) l

    error_behind :
        (a : Address) (l : List Address) (e : Failure) → IsErrorOf l e → IsErrorOf (a ∷ l) e
    error_behind a l e (b, among, fine, fails) = (b, inr among, fine, fails)

    skip_private :
        (last : Option Failure) (a : Address) (l : List Address) (r : Dialed Connection Failure)
        → public_oidc_address a ≡ false
        → IsTried last l r
        → IsTried last (a ∷ l) r
    skip_private last a l bad_destination shut h = h
    skip_private last a l (unresolved e) shut h = h
    skip_private last a l (connected c) shut (b, among, fine, answered) =
        (b, inr among, fine, answered)
    skip_private last a l (dial_failed e) shut (inl first, h) = (inl first, (inl shut, h))
    skip_private last a l (dial_failed e) shut (inr given, h) =
        (inr (error_behind a l e given), (inl shut, h))
    skip_private last a l none_public shut (first, h) = (first, (shut, h))

    skip_failed :
        (last : Option Failure) (f : Failure) (a : Address) (l : List Address)
        (r : Dialed Connection Failure)
        → public_oidc_address a ≡ true
        → dial a ≡ inl f
        → IsTried (some f) l r
        → IsTried last (a ∷ l) r
    skip_failed last f a l bad_destination fine fails h = h
    skip_failed last f a l (unresolved e) fine fails h = h
    skip_failed last f a l (connected c) fine fails (b, among, reached, answered) =
        (b, inr among, reached, answered)
    skip_failed last f a l (dial_failed e) fine fails (inl first, h) =
        (inr (a, inl refl, fine, cc), (inr (f, fails), h))
    skip_failed last f a l (dial_failed e) fine fails (inr given, h) =
        (inr (error_behind a l e given), (inr (f, fails), h))
    skip_failed last f a l none_public fine fails (first, h) = absurd cc

    dial_loop-IsTried :
        (last : Option Failure) (l : List Address) → IsTried last l (dial_loop dial last l)
    unfolding dial_loop
    dial_loop-IsTried (some e) [] = (inl refl, tt)
    dial_loop-IsTried none [] = (refl, tt)
    dial_loop-IsTried last (a ∷ l) = elim (Bool-cases (public_oidc_address a)) [
      | inl fine ↦ elim (sum_cases (dial a)) [
        | inl (f, fails) ↦
            rw (fine, fails)
              (skip_failed last f a l (dial_loop dial (some f) l) fine fails
                (dial_loop-IsTried (some f) l))
        | inr (c, answered) ↦ rw (fine, answered) (a, inl refl, fine, answered)
      ]
      | inr shut ↦
          rw shut (skip_private last a l (dial_loop dial last l) shut (dial_loop-IsTried last l))
    ]

  -- The destination is not a host and a port; or its host does not resolve, for that reason; or it
  -- resolves to the addresses that were tried.
  abbrev pub IsDialed : Network Connection Failure → Text → Dialed Connection Failure → Type 0
  IsDialed net destination r =
      ((net.split_host_port destination ≡ none) × (r ≡ bad_destination))
      ⊎ ((host : Text) × (port : Text) × (net.split_host_port destination ≡ some (host, port))
          × (((e : Failure) × (net.lookup_net_ip host ≡ inl e) × (r ≡ unresolved e))
              ⊎ ((l : List Address) × (net.lookup_net_ip host ≡ inr l)
                  × IsTried (λ a. net.dial a port) none l r)))

  -- Dialing fails where the destination is not a host and a port, and where looking the host up
  -- fails, with that error. Else it connects to a public address of the host, over the connection
  -- that the network gave for it and the port, if it connects; it fails with an error of dialing
  -- only if that is the error of a public address and every address is either not public or cannot
  -- be dialed; and it finds none to be public only if none is.
  pub dial_public-IsDialed :
      (net : Network Connection Failure) (destination : Text)
      → IsDialed net destination (dial_public net destination)
  unfolding dial_public
  dial_public-IsDialed net destination = elim (Option-cases (net.split_host_port destination)) [
    | inl unread ↦ inl (unread, rw (unread, dial_public) refl)
    | inr ((host, port), read) ↦ elim (sum_cases (net.lookup_net_ip host)) [
      | inl (e, fails) ↦ inr (host, port, read, inl (e, fails, rw (read, dial_public, fails) refl))
      | inr (l, found) ↦ inr (
        host,
        port,
        read,
        inr (
          l,
          found,
          rw (read, dial_public, found) (dial_loop-IsTried (λ a. net.dial a port) none l),
        ),
      )
    ]
  ]

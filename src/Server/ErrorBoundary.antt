-- ===== src/Server/ErrorBoundary.antt =====
-- internal/server/error_boundary.go: `clientSafeError` and the interceptor's `After`. A sentinel
-- error is a value of its own, for which a number stands. The SDK's sentinels and those of the
-- package context wrap nothing and are no `*a2a.Error`, and no error has `Is` or `As` methods of
-- its own.
pub mod Safe
use a2a_red_panda_server_con.Prelude.{
  ℕ, Bool, true, false, ◌&&◌, ◌||◌, not, Option, none, some, List, [], ◌∷◌, ◌==◌, if◌then◌else◌,
}

abbrev pub internal_error : ℕ
internal_error = 0

abbrev pub server_error : ℕ
server_error = 1

-- `clientSafeSentinels`, in their order: `context.Canceled`, `context.DeadlineExceeded`, and then
-- the SDK's from `ErrParseError` to `ErrUnauthorized`.
abbrev pub safe_sentinels : List ℕ
safe_sentinels = 2 ∷ 3 ∷ 4 ∷ 5 ∷ 6 ∷ 7 ∷ 8 ∷ 9 ∷ 10 ∷ 11 ∷ 12 ∷ 13 ∷ 14 ∷ 15 ∷ 16 ∷ 17 ∷ 18 ∷ []

-- An error: the sentinel that it is, if it is one, whether it is an `*a2a.Error`, and the errors
-- that it wraps.
mutual
  pub data GoError : Type 0 where
    go_error : (name : Option ℕ) → (protocol : Bool) → Wrapped → GoError

  pub data Wrapped : Type 0 where
    nil : Wrapped
    cons : GoError → Wrapped → Wrapped

abbrev pub sentinel : ℕ → GoError
sentinel s = go_error (some s) false nil

unfoldable pub is_named : ℕ → Option ℕ → Bool
is_named target none = false
is_named target (some s) = s == target

-- `errors.Is(err, target)`, depth first.
unfoldable mutual
  unfolding is_named

  pub error_is : ℕ → GoError → Bool
  error_is target (go_error name protocol wrapped) =
      is_named target name || wrapped_is target wrapped

  pub wrapped_is : ℕ → Wrapped → Bool
  wrapped_is target nil = false
  wrapped_is target (cons e es) = error_is target e || wrapped_is target es

abbrev first_of : Option GoError → Option GoError → Option GoError
first_of (some e) rest = some e
first_of none rest = rest

-- `errors.As(err, &protocolError)`, depth first.
unfoldable mutual
  pub as_protocol : GoError → Option GoError
  as_protocol (go_error name protocol wrapped) =
      let inner = wrapped_protocol wrapped in
      if protocol then some (go_error name protocol wrapped) else inner

  pub wrapped_protocol : Wrapped → Option GoError
  wrapped_protocol nil = none
  wrapped_protocol (cons e es) = first_of (as_protocol e) (wrapped_protocol es)

-- The loop over the safe sentinels: the first one that the error is.
unfoldable pub find_safe : List ℕ → GoError → Option ℕ
find_safe [] e = none
find_safe (s ∷ sentinels) e =
    let others = find_safe sentinels e in if error_is s e then some s else others

unfoldable pub protocol_safe_error : GoError → GoError
protocol_safe_error e =
    if error_is internal_error e || error_is server_error e
    then sentinel internal_error
    else elim (find_safe safe_sentinels e) [ none ↦ sentinel internal_error | some s ↦ e ]

unfoldable pub client_safe_error : GoError → GoError
client_safe_error e = elim (as_protocol e) [
  | some p ↦ protocol_safe_error p
  | none ↦ elim (find_safe safe_sentinels e) [
    | none ↦ sentinel internal_error
    | some s ↦ sentinel s
  ]
]

-- `err == a2a.ErrInternalError`
unfoldable pub is_internal_error : GoError → Bool
is_internal_error (go_error name protocol wrapped) = is_named internal_error name

-- `After`: the response's error behind it, if it had one, and the errors that are logged.
unfoldable pub after : Option GoError → Option GoError × List GoError
after none = (none, [])
after (some original) =
    let shown = client_safe_error original in
    (
      some shown,
      if is_internal_error shown && not (is_internal_error original) then original ∷ [] else [],
    )

-- ===== src/Server/ErrorBoundary/Safe.antt =====
-- What a client may see of an error.
use a2a_red_panda_server_con.Prelude.{
  ℕ, ◌≡◌, refl, sym, ◌⊎◌, inl, inr, true, false, none, some, List, [], ◌∷◌, arith, Among,
  Bool-cases, Option-cases,
}
use a2a_red_panda_server_con.Server.ErrorBoundary.{
  internal_error, server_error, safe_sentinels, GoError, go_error, sentinel, is_named, error_is,
  as_protocol, find_safe, protocol_safe_error, client_safe_error, is_internal_error, after,
}

-- An error of the safe kind is in the tree of the error.
abbrev pub HasSafe : GoError → Type 0
HasSafe e = (s : ℕ) × Among s safe_sentinels × (error_is s e ≡ true)

-- The protocol error in an error hides it: it is the internal or the server error, or safe in no
-- way.
abbrev pub IsHidden : GoError → Type 0
IsHidden p = (error_is internal_error p ≡ true) ⊎ (error_is server_error p ≡ true) ⊎ ¬ HasSafe p

-- The ways in which an error may be shown, and what is logged: as the internal error, when its
-- protocol error hides it or when it has none and is safe in no way, and then it is logged unless
-- it is the internal error itself; as a safe sentinel that it holds, if no protocol error is in
-- it; as the first protocol error in it, which holds a safe sentinel, and neither the internal nor
-- the server error.
pub data IsHandled (original : GoError) : GoError → List GoError → Type 0 where
  hidden :
      ((p : GoError) × (as_protocol original ≡ some p) × IsHidden p)
        ⊎ (as_protocol original ≡ none) × ¬ HasSafe original
      → is_internal_error original ≡ false
      → IsHandled original (sentinel internal_error) (original ∷ [])
  internal : is_internal_error original ≡ true → IsHandled original (sentinel internal_error) []
  known :
      (s : ℕ)
      → as_protocol original ≡ none
      → Among s safe_sentinels
      → error_is s original ≡ true
      → IsHandled original (sentinel s) []
  protocol :
      (p : GoError)
      → as_protocol original ≡ some p
      → HasSafe p
      → ¬ IsHidden p
      → IsHandled original p []

find_safe-Among :
    (l : List ℕ) (e : GoError) (s : ℕ) → find_safe l e ≡ some s → Among s l × (error_is s e ≡ true)
unfolding find_safe
find_safe-Among [] e s h = cc
find_safe-Among (t ∷ l) e s h = elim (Bool-cases (error_is t e)) [
  | inl here ↦ (let same : t ≡ s = ground arith in (inl (sym same), rw (← same) here))
  | inr there ↦ (let (among, holds) = find_safe-Among l e s (ground arith) in (inr among, holds))
]

find_safe-none :
    (l : List ℕ) (e : GoError)
    → find_safe l e ≡ none
    → (s : ℕ) → Among s l
    → error_is s e ≡ true
    → ⊥
unfolding find_safe
find_safe-none [] e h s among holds = elim among [ ]
find_safe-none (t ∷ l) e h s among holds = elim (Bool-cases (error_is t e)) [
  | inl here ↦ ground arith
  | inr there ↦ elim among [
    | inl same ↦ (let held : error_is t e ≡ true = rw (← same) holds in cc)
    | inr later ↦ find_safe-none l e (ground arith) s later holds
  ]
]

-- Without a safe sentinel among those looked for, an error has none.
unsafe_lem : (e : GoError) → find_safe safe_sentinels e ≡ none → ¬ HasSafe e
unsafe_lem e h (s, among, holds) = find_safe-none safe_sentinels e h s among holds

-- A safe sentinel is not the internal error.
is_internal_error-sentinel :
    (s : ℕ) → Among s safe_sentinels → is_internal_error (sentinel s) ≡ false
unfolding is_internal_error is_named
is_internal_error-sentinel s among = ground arith

-- An error that is not the internal error in the sense of `errors.Is` is not it itself.
is_internal_error-error_is :
    (e : GoError) → error_is internal_error e ≡ false → is_internal_error e ≡ false
unfolding is_internal_error error_is
is_internal_error-error_is (go_error name own wrapped) h = ground arith

-- What is shown of the error, and what is logged, is one of the ways of `IsHandled`.
abbrev Handled : GoError → Type 0
Handled e =
    (shown : GoError) × (l : List GoError) × (after (some e) ≡ (some shown, l))
    × IsHandled e shown l

-- An error that is shown as the internal error is logged unless it is the internal error.
after_hidden :
    (e : GoError)
    → client_safe_error e ≡ sentinel internal_error
    → ((p : GoError) × (as_protocol e ≡ some p) × IsHidden p) ⊎ (as_protocol e ≡ none) × ¬ HasSafe e
    → Handled e
unfolding after is_internal_error is_named
after_hidden e safe why = elim (Bool-cases (is_internal_error e)) [
  | inl is ↦ (sentinel internal_error, [], rw (safe, is) refl, internal is)
  | inr differs ↦ (sentinel internal_error, e ∷ [], rw (safe, differs) refl, hidden why differs)
]

-- An error that is shown as another is not logged.
after_kept :
    (e shown : GoError)
    → client_safe_error e ≡ shown
    → is_internal_error shown ≡ false
    → IsHandled e shown []
    → Handled e
unfolding after
after_kept e shown safe differs handled = (shown, [], rw (safe, differs) refl, handled)

-- A safe error that is neither the internal nor the server error is not hidden.
not-IsHidden :
    (p : GoError)
    → error_is internal_error p ≡ false
    → error_is server_error p ≡ false
    → HasSafe p
    → ¬ IsHidden p
not-IsHidden p fine good has (inl bad) = cc
not-IsHidden p fine good has (inr (inl bad)) = cc
not-IsHidden p fine good has (inr (inr unsafe)) = unsafe has

-- The protocol error in an error decides.
after_protocol : (e p : GoError) → as_protocol e ≡ some p → Handled e
unfolding client_safe_error protocol_safe_error
after_protocol e p found = elim (Bool-cases (error_is internal_error p)) [
  | inl bad ↦
      after_hidden e (simp (client_safe_error, protocol_safe_error, found, bad))
        (inl (p, found, inl bad))
  | inr fine ↦ elim (Bool-cases (error_is server_error p)) [
    | inl bad ↦
        after_hidden e (simp (client_safe_error, protocol_safe_error, found, fine, bad))
          (inl (p, found, inr (inl bad)))
    | inr good ↦ elim (Option-cases (find_safe safe_sentinels p)) [
      | inl none_safe ↦
          after_hidden e
            (simp (client_safe_error, protocol_safe_error, found, fine, good, none_safe))
            (inl (p, found, inr (inr (unsafe_lem p none_safe))))
      | inr (s, safe) ↦
          (let (among, holds) = find_safe-Among safe_sentinels p s safe in
            after_kept e p (simp (client_safe_error, protocol_safe_error, found, fine, good, safe))
              (is_internal_error-error_is p fine)
              (protocol p found (s, among, holds) (not-IsHidden p fine good (s, among, holds))))
    ]
  ]
]

-- For each error, what the interceptor leaves in the response and what it logs is as `IsHandled`
-- says: a client sees the internal error, a safe sentinel, or a protocol error that holds one and
-- is neither the internal nor the server error; and an error is logged exactly if it is replaced
-- by the internal error and is not itself the internal error.
pub after-IsHandled :
    (e : GoError)
    → (shown : GoError) × (l : List GoError) × (after (some e) ≡ (some shown, l))
      × IsHandled e shown l
unfolding client_safe_error
after-IsHandled e = elim (Option-cases (as_protocol e)) [
  | inr (p, found) ↦ after_protocol e p found
  | inl absent ↦ elim (Option-cases (find_safe safe_sentinels e)) [
    | inl none_safe ↦
        after_hidden e (simp (client_safe_error, absent, none_safe))
          (inr (absent, unsafe_lem e none_safe))
    | inr (s, safe) ↦
        (let (among, holds) = find_safe-Among safe_sentinels e s safe in
          after_kept e (sentinel s) (simp (client_safe_error, absent, safe))
            (is_internal_error-sentinel s among) (known s absent among holds))
  ]
]

-- ===== src/Auth/Bearer/Credential.antt =====
-- The credential's loop accepts the b64token grammar of RFC 6750, no more and no less.
use a2a_red_panda_server_con.Prelude.{
  ◌≤◌, ◌⊎◌, Among, Text, ℕ, zero, suc, ◌≡◌, ◌≢◌, refl, ◌↔◌, true, false, [], ◌∷◌, ◌++◌, arith, All,
  Bool-cases, inl, inr, ◌==◌,
}
use a2a_red_panda_server_con.Auth.Bearer.{b64_byte, credential_loop, valid_bearer_credential}

-- `=` as often as `n` says.
abbrev pub padding : ℕ → Text
padding zero = []
padding (suc n) = b'=' ∷ padding n

-- A byte of the grammar's alphabet.
abbrev pub IsB64Byte : ℕ → Type 0
IsB64Byte c =
    ((b'a' ≤ c) × (c ≤ b'z'))
    ⊎ ((b'A' ≤ c) × (c ≤ b'Z'))
    ⊎ ((b'0' ≤ c) × (c ≤ b'9'))
    ⊎ Among c (b'-' ∷ b'.' ∷ b'_' ∷ b'~' ∷ b'+' ∷ b'/' ∷ [])

b64_byte_iff : (c : ℕ) → (b64_byte c ≡ true) ↔ IsB64Byte c
unfolding b64_byte
b64_byte_iff c = ground arith

-- b64token = 1*( ALPHA / DIGIT / "-" / "." / "_" / "~" / "+" / "/" ) *"="
abbrev pub IsB64Token : Text → Type 0
IsB64Token s = (body : Text) × (n : ℕ) × (body ≢ []) × All IsB64Byte body × (s ≡ body ++ padding n)

not_pad : (c : ℕ) → IsB64Byte c → (c == b'=') ≡ false
not_pad c h = ground arith

padded_loop : (n : ℕ) → credential_loop true true (padding n) ≡ true
unfolding credential_loop
padded_loop zero = refl
padded_loop (suc n) = padded_loop n

padded_only : (s : Text) → credential_loop true true s ≡ true → (n : ℕ) × (s ≡ padding n)
unfolding credential_loop
padded_only [] h = (0, refl)
padded_only (c ∷ s) h = let (n, e) = padded_only s (ground arith) in (suc n, ground arith)

-- Behind some content: more content, then padding.
abbrev Tail : Text → Type 0
Tail s = (body : Text) × (n : ℕ) × All IsB64Byte body × (s ≡ body ++ padding n)

content_rest : (s : Text) → credential_loop false true s ≡ true → Tail s
unfolding credential_loop
content_rest [] h = ([], 0, tt, refl)
content_rest (c ∷ s) h = elim (Bool-cases (c == b'=')) [
  | inl pad ↦ (let (n, e) = padded_only s (ground arith) in ([], suc n, tt, ground arith))
  | inr other ↦
      (let (body, n, good, e) = content_rest s (ground arith) in
        (c ∷ body, n, ((b64_byte_iff c).0 (ground arith), good), ground arith))
]

tail_content :
    (body : Text) (n : ℕ)
    → All IsB64Byte body
    → credential_loop false true (body ++ padding n) ≡ true
unfolding credential_loop
tail_content [] zero h = refl
tail_content [] (suc n) h = padded_loop n
tail_content (c ∷ body) n (h, hs) =
    ground (arith, not_pad c h, b64_byte_iff c, tail_content body n hs)

credential_sound : (s : Text) → valid_bearer_credential s ≡ true → IsB64Token s
unfolding valid_bearer_credential
credential_sound [] h = cc
credential_sound (c ∷ s) h =
    let (body, n, good, e) = content_rest s (ground arith) in
    (c ∷ body, n, cc, ((b64_byte_iff c).0 (ground arith), good), ground arith)

credential_complete :
    (body : Text) (n : ℕ)
    → body ≢ []
    → All IsB64Byte body
    → valid_bearer_credential (body ++ padding n) ≡ true
unfolding valid_bearer_credential
credential_complete [] n ne h = absurd (ne refl)
credential_complete (c ∷ body) n ne (h, hs) =
    ground (arith, not_pad c h, b64_byte_iff c, tail_content body n hs)

-- A credential is accepted exactly when it is one or more content bytes, each a letter, a digit or
-- one of `-._~+/`, followed by any number of `=`.
pub valid_bearer_credential-IsB64Token :
    (s : Text) → (valid_bearer_credential s ≡ true) ↔ IsB64Token s
valid_bearer_credential-IsB64Token s = (
  credential_sound s,
  λ t. let (body, n, ne, good, e) = t in rw e (credential_complete body n ne good),
)

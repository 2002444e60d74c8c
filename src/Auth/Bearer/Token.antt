-- ===== src/Auth/Bearer/Token.antt =====
-- `bearerToken` reads exactly one header value of the form scheme, spaces, credential.
use a2a_red_panda_server_con.Prelude.{
  Text, ℕ, zero, suc, ◌≤◌, ◌≡◌, ◌≢◌, refl, ◌↔◌, true, false, some, List, [], ◌∷◌, ◌++◌, map, str,
  length, arith, All, Bool-cases, Option-cases, inl, inr, ◌==◌, text_eq_iff,
}
use a2a_red_panda_server_con.Strings.{cut, lower, equal_fold}
use a2a_red_panda_server_con.Strings.Split.{cut_sound, cut_complete}
use a2a_red_panda_server_con.Auth.Bearer.{
  b64_byte, max_header_bytes, skip_spaces, valid_bearer_credential, bearer_value, bearer_token,
}
use a2a_red_panda_server_con.Auth.Bearer.Credential.{IsB64Token, valid_bearer_credential-IsB64Token}

abbrev pub blanks : ℕ → Text
blanks zero = []
blanks (suc n) = b' ' ∷ blanks n

-- scheme SP *SP credential
abbrev pub IsBearerValue : Text → Text → Type 0
IsBearerValue value token =
    (scheme : Text) × (n : ℕ) × (value ≡ scheme ++ (b' ' ∷ (blanks n ++ token)))
    × (map lower scheme ≡ str "bearer")
    × (length value ≤ max_header_bytes)
    × IsB64Token token

skip_spaces_lem : (s : Text) → (n : ℕ) × (s ≡ blanks n ++ skip_spaces s)
unfolding skip_spaces
skip_spaces_lem [] = (0, refl)
skip_spaces_lem (c ∷ s) = elim (Bool-cases (c == b' ')) [
  | inl blank ↦ (let (n, e) = skip_spaces_lem s in (suc n, ground arith))
  | inr other ↦ (0, ground arith)
]

skip_blanks : (n : ℕ) (s : Text) → skip_spaces s ≡ s → skip_spaces (blanks n ++ s) ≡ s
unfolding skip_spaces
skip_blanks zero s h = h
skip_blanks (suc n) s h = skip_blanks n s h

skip_credential : (s : Text) → valid_bearer_credential s ≡ true → skip_spaces s ≡ s
unfolding skip_spaces valid_bearer_credential b64_byte
skip_credential [] h = refl
skip_credential (c ∷ s) h = ground arith

bearer_fold : (s : Text) → (equal_fold s (str "Bearer") ≡ true) ↔ (map lower s ≡ str "bearer")
unfolding equal_fold str
bearer_fold s = text_eq_iff _ _

-- Folding keeps a space, and the scheme's word has none.
free_of_blank : (s : Text) → All (λ c. c ≢ b' ') (map lower s) → All (λ c. c ≢ b' ') s
unfolding lower
free_of_blank [] h = tt
free_of_blank (c ∷ s) (h, hs) = (ground arith, free_of_blank s hs)

scheme_free : (s : Text) → map lower s ≡ str "bearer" → All (λ c. c ≢ b' ') s
unfolding str
scheme_free s e = free_of_blank s (rw e (omega arith))

value_sound : (value token : Text) → bearer_value value ≡ some token → IsBearerValue value token
unfolding bearer_value
value_sound value token h = elim (Option-cases (cut b' ' value)) [
  | inl nothing ↦ absurd (ground arith)
  | inr ((scheme, rest), found) ↦
      (let (whole, free) = cut_sound b' ' value scheme rest found in
        let (n, blank) = skip_spaces_lem rest in
        (
          scheme,
          n,
          ground arith,
          (bearer_fold scheme).0 (ground arith),
          ground arith,
          (valid_bearer_credential-IsB64Token token).0 (ground arith),
        ))
]

nonempty : (s : Text) → map lower s ≡ str "bearer" → (length s == 0) ≡ false
unfolding str
nonempty [] e = cc
nonempty (c ∷ s) e = ground arith

value_complete : (value token : Text) → IsBearerValue value token → bearer_value value ≡ some token
unfolding bearer_value
value_complete value token h =
    let (scheme, n, whole, word, short, good) = h in
    let valid = (valid_bearer_credential-IsB64Token token).1 good in
    let skipped = skip_blanks n token (skip_credential token valid) in
    ground (
      arith,
      cut_complete b' ' scheme (blanks n ++ token) (scheme_free scheme word),
      nonempty scheme word,
      bearer_fold scheme,
    )

-- A token comes out exactly when there is one `Authorization` value, of at most 16384 bytes, that
-- is the word "bearer" in any case, one or more spaces, and then the token, which is a b64token.
pub bearer_token-IsBearerValue :
    (values : List Text) (token : Text)
    → (bearer_token values ≡ some token)
      ↔ ((value : Text) × (values ≡ value ∷ []) × IsBearerValue value token)
unfolding bearer_token
bearer_token-IsBearerValue [] token = (λ h. cc, λ t. let (value, e, _) = t in cc)
bearer_token-IsBearerValue (v ∷ []) token = (
  λ h. (v, refl, value_sound v token h),
  λ t. let (value, e, good) = t in ground (arith, value_complete value token good),
)
bearer_token-IsBearerValue (v ∷ w ∷ vs) token = (λ h. cc, λ t. let (value, e, _) = t in cc)

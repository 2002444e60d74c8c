-- ===== src/Identity/OwnerKey.antt =====
-- The owner key is unambiguous: no two different owners share one.
use mathlib.Core.List.{append_assoc, append-nil}
use a2a_red_panda_server_con.Prelude.{
  Text, ℕ, ◌≤◌, ◌≡◌, refl, ◌↔◌, [], ◌∷◌, ◌++◌, arith, length, All,
}
use a2a_red_panda_server_con.Strings.{decimal}
use a2a_red_panda_server_con.Strings.Decimal.{decimal-IsDigit, decimal_injective}
use a2a_red_panda_server_con.Identity.{Identity, counted, owner_key}

-- Up to the first colon two texts agree if they agree whole.
split_at_colon :
    (s t u v : Text)
    → All (λ c. (48 ≤ c) × (c ≤ 57)) s
    → All (λ c. (48 ≤ c) × (c ≤ 57)) t
    → s ++ (b':' ∷ u) ≡ t ++ (b':' ∷ v)
    → (s ≡ t) × (u ≡ v)
split_at_colon [] [] u v hs ht e = ground arith
split_at_colon [] (d ∷ t) u v hs ht e = ground arith
split_at_colon (c ∷ s) [] u v hs ht e = ground arith
split_at_colon (c ∷ s) (d ∷ t) u v hs ht e = ground (arith, split_at_colon s t u v)

-- Texts of one length at the front are the same if the whole is.
split_at_length : (s t u v : Text) → length s ≡ length t → s ++ u ≡ t ++ v → (s ≡ t) × (u ≡ v)
split_at_length [] [] u v h e = (refl, e)
split_at_length [] (d ∷ t) u v h e = absurd (omega arith)
split_at_length (c ∷ s) [] u v h e = absurd (omega arith)
split_at_length (c ∷ s) (d ∷ t) u v h e = ground (arith, split_at_length s t u v)

tail_eq : {c d : ℕ} {s t : Text} → ◌≡◌ {A = Text} (c ∷ s) (d ∷ t) → s ≡ t
tail_eq e = cc

counted_inj : (s t u v : Text) → counted s ++ u ≡ counted t ++ v → (s ≡ t) × (u ≡ v)
unfolding counted
counted_inj s t u v e =
    let flat = simp append_assoc at e in
    let (digits, rest) =
      split_at_colon (decimal (length s)) (decimal (length t)) (s ++ u) (t ++ v)
        (decimal-IsDigit (length s)) (decimal-IsDigit (length t)) flat in
    split_at_length s t u v (decimal_injective (length s) (length t) digits) rest

same_owner :
    (a b : Identity)
    → owner_key a ≡ owner_key b
    → (a.issuer ≡ b.issuer) × (a.tenant ≡ b.tenant) × (a.subject ≡ b.subject)
unfolding owner_key
same_owner a b e =
    let (issuer, rest) = counted_inj a.issuer b.issuer _ _ e in
    let (tenant, rest') = counted_inj a.tenant b.tenant _ _ (tail_eq rest) in
    let (subject, _) = counted_inj a.subject b.subject [] [] (simp append-nil (tail_eq rest')) in
    (issuer, tenant, subject)

-- Two identities have the same owner key exactly when issuer, tenant and subject agree.
pub owner_key_injective :
    (a b : Identity)
    → (owner_key a ≡ owner_key b)
      ↔ ((a.issuer ≡ b.issuer) × (a.tenant ≡ b.tenant) × (a.subject ≡ b.subject))
owner_key_injective a b = (same_owner a b, λ same. unfold owner_key in cc (same.0, same.1, same.2))

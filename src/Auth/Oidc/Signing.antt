-- ===== src/Auth/Oidc/Signing.antt =====
-- The algorithms that loading accepts, the verifier accepts if they are different.
use a2a_red_panda_server_con.Prelude.{
  Text, text_eq, contains, text_eq_iff, ◌≡◌, refl, sym, subst, inl, inr, true, false, not, List, [],
  ◌∷◌, arith, Bool-cases, not-false, ok, Among, refuse_if, >>=-eq-ok, refuse_if-eq-ok,
}
use a2a_red_panda_server_con.Auth.Oidc.{check_signing}
use a2a_red_panda_server_con.Config.{bad_algorithm, allowed_oidc_algorithm}
use a2a_red_panda_server_con.Config.Oidc.{check_algorithms}

-- The texts are different from each other.
abbrev pub IsDistinct : List Text → Type 0
IsDistinct [] = Unit
IsDistinct (x ∷ xs) = ¬ Among x xs × IsDistinct xs

allowed_rest :
    (a : Text) (l : List Text)
    → check_algorithms (a ∷ l) ≡ ok tt
    → (allowed_oidc_algorithm a ≡ true) × (check_algorithms l ≡ ok tt)
unfolding check_algorithms
allowed_rest a l h =
    let (_, first, rest) =
      >>=-eq-ok (refuse_if (not (allowed_oidc_algorithm a)) (bad_algorithm a)) _ h in
    (
      not-false (allowed_oidc_algorithm a)
          (refuse_if-eq-ok (not (allowed_oidc_algorithm a)) (bad_algorithm a) first),
      rest,
    )

-- None of the texts was seen.
abbrev pub IsUnseen : List Text → List Text → Type 0
IsUnseen seen l = (a : Text) → Among a l → contains seen a ≡ false

IsUnseen-next :
    (seen : List Text) (a : Text) (l : List Text)
    → ¬ Among a l
    → IsUnseen seen (a ∷ l)
    → IsUnseen (a ∷ seen) l
unfolding contains
IsUnseen-next seen a l fresh unseen b among = elim (Bool-cases (text_eq a b)) [
  | inl same ↦ absurd (fresh (subst (λ x. Among x l) (sym ((text_eq_iff a b).0 same)) among))
  | inr differs ↦ (let later = unseen b (inr among) in ground (arith, differs, later))
]

pub check_signing_lem :
    (seen l : List Text)
    → check_algorithms l ≡ ok tt
    → IsDistinct l
    → IsUnseen seen l
    → check_signing seen l ≡ ok tt
unfolding check_signing
check_signing_lem seen [] h d u = refl
check_signing_lem seen (a ∷ l) h (fresh, d) u =
    let (allowed, rest) = allowed_rest a l h in
    let unseen = u a (inl refl) in
    let later = check_signing_lem (a ∷ seen) l rest d (IsUnseen-next seen a l fresh u) in
    simp (check_signing, allowed, unseen, later)

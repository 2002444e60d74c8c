-- ===== src/Strings/Split.antt =====
-- What `cut` and `split` make of a text, and that they take it apart without loss.
use a2a_red_panda_server_con.Prelude.{
  subst, Text, ℕ, ◌≡◌, ◌≢◌, some, [], ◌∷◌, ◌++◌, arith, All, Bool-cases, Option-cases, inl, inr,
  ◌==◌,
}
use a2a_red_panda_server_con.Strings.{cut}

abbrev Halves : ℕ → Text → Text → Text → Type 0
Halves sep s a b = (s ≡ a ++ (sep ∷ b)) × All (λ c. c ≢ sep) a

at_separator : (sep c : ℕ) (s a b : Text) → c ≡ sep → [] ≡ a → s ≡ b → Halves sep (c ∷ s) a b
at_separator sep c s [] b ec ea eb = (ground arith, tt)
at_separator sep c s (d ∷ a) b ec ea eb = cc

behind :
    (sep c : ℕ) (s a b a' b' : Text)
    → c ≢ sep
    → Halves sep s a' b'
    → (c ∷ a') ≡ a
    → b' ≡ b
    → Halves sep (c ∷ s) a b
behind sep c s [] b a' b' ne (e, free) ea eb = cc
behind sep c s (d ∷ a) b a' b' ne (e, free) ea eb =
    (ground arith, (ground arith, subst (λ x. All (λ c. c ≢ sep) x) (tail_eq ea) free))
  where
    tail_eq : (c ∷ a') ≡ (d ∷ a) → a' ≡ a
    tail_eq h = cc

-- What `cut` found: the text is the two parts round the separator, the first one free of it.
pub cut_sound :
    (sep : ℕ) (s a b : Text) → cut sep s ≡ some (a, b) → (s ≡ a ++ (sep ∷ b)) × All (λ c. c ≢ sep) a
unfolding cut
cut_sound sep [] a b h = cc
cut_sound sep (c ∷ s) a b h = elim (Bool-cases (c == sep)) [
  | inl same ↦ at_separator sep c s a b (ground arith) (ground arith) (ground arith)
  | inr other ↦ elim (Option-cases (cut sep s)) [
    | inl nothing ↦ absurd (ground arith)
    | inr ((a', b'), found) ↦
        behind sep c s a b a' b' (ground arith) (cut_sound sep s a' b' found) (ground arith)
          (ground arith)
  ]
]

pub cut_complete :
    (sep : ℕ) (a b : Text) → All (λ c. c ≢ sep) a → cut sep (a ++ (sep ∷ b)) ≡ some (a, b)
unfolding cut
cut_complete sep [] b h = ground arith
cut_complete sep (c ∷ a) b (h, hs) = ground (arith, cut_complete sep a b hs)

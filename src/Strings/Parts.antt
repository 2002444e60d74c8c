-- ===== src/Strings/Parts.antt =====
-- What `split` makes of a text.
use a2a_red_panda_server_con.Prelude.{
  Text, ℕ, ◌≡◌, ◌≢◌, refl, ap, List, [], ◌∷◌, ◌++◌, All, ◌==◌, Bool-cases, inl, inr, arith, sym,
  ◌∙◌,
}
use a2a_red_panda_server_con.Strings.{split, split_parts}

-- The parts with the separator between them.
abbrev pub spliced : ℕ → Text → List Text → Text
spliced sep part [] = part
spliced sep part (next ∷ parts) = part ++ (sep ∷ spliced sep next parts)

-- One or more parts, each without the separator, which with it between them are the text.
abbrev pub IsSplit : ℕ → Text → List Text → Type 0
IsSplit sep s parts =
    (first : Text) × (rest : List Text) × (parts ≡ first ∷ rest)
    × (s ≡ spliced sep first rest)
    × All (λ part. All (λ c. c ≢ sep) part) parts

spliced_byte :
    (sep c : ℕ) (part : Text) (parts : List Text)
    → spliced sep (c ∷ part) parts ≡ c ∷ spliced sep part parts
spliced_byte sep c part [] = refl
spliced_byte sep c part (next ∷ parts) = refl

split_parts_lem :
    (sep : ℕ) (s : Text)
    → (s ≡ spliced sep (split_parts sep s).0 (split_parts sep s).1)
      × All (λ part. All (λ c. c ≢ sep) part) ((split_parts sep s).0 ∷ (split_parts sep s).1)
unfolding split_parts
split_parts_lem sep [] = (refl, (tt, tt))
split_parts_lem sep (c ∷ s) =
    let (whole, (clear, others)) = split_parts_lem sep s in
    elim (Bool-cases (c == sep)) [
      | inl same ↦ rw same (ground (arith, same, whole), (tt, (clear, others)))
      | inr apart ↦ rw apart (
        ap (λ t. c ∷ t) whole
            ∙ sym (spliced_byte sep c (split_parts sep s).0 (split_parts sep s).1),
        ((ground (arith, apart), clear), others),
      )
    ]

pub split-IsSplit : (sep : ℕ) (s : Text) → IsSplit sep s (split sep s)
unfolding split
split-IsSplit sep s =
    let (whole, clear) = split_parts_lem sep s in
    ((split_parts sep s).0, (split_parts sep s).1, refl, whole, clear)

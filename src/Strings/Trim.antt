-- ===== src/Strings/Trim.antt =====
-- Trimming a string twice is trimming it once.
use mathlib.Core.List.{reverse-reverse, reverse-append, append_assoc, reverse, append-nil}
use a2a_red_panda_server_con.Prelude.{
  inl, inr, Text, ℕ, zero, suc, ◌≤◌, ◌≡◌, refl, none, some, List, [], ◌∷◌, ◌++◌, arith,
  Option-cases, length, All, sym, ap, ◌∙◌, length-append, map, subst, Among,
}
use a2a_red_panda_server_con.Strings.{
  strip_prefix, strip_any, trim_loop, trim_front, trim_back, spaces, trim_space,
}

-- One after the other, pieces of the list make up the text.
pub data IsMadeOf (ps : List Text) : Text → Type 0 where
  made_empty : IsMadeOf ps []
  made_piece : (p s t : Text) → t ≡ p ++ s → Among p ps → IsMadeOf ps s → IsMadeOf ps t

strip_prefix_sound : (p s r : Text) → strip_prefix p s ≡ some r → s ≡ p ++ r
unfolding strip_prefix
strip_prefix_sound [] s r h = ground arith
strip_prefix_sound (c ∷ p) [] r h = cc
strip_prefix_sound (c ∷ p) (d ∷ s) r h = ground (arith, strip_prefix_sound p s r)

strip_prefix_longer :
    (p s r z : Text) → strip_prefix p s ≡ some r → strip_prefix p (s ++ z) ≡ some (r ++ z)
unfolding strip_prefix
strip_prefix_longer [] s r z h = ground arith
strip_prefix_longer (c ∷ p) [] r z h = cc
strip_prefix_longer (c ∷ p) (d ∷ s) r z h = ground (arith, strip_prefix_longer p s r z)

abbrev IsNonempty : Text → Type 0
IsNonempty s = 1 ≤ length s

-- What `strip_any` takes off is one or more bytes.
strip_any_sound :
    (ps : List Text) (s r : Text)
    → All IsNonempty ps
    → strip_any ps s ≡ some r
    → (p : Text) × (s ≡ p ++ r) × IsNonempty p × Among p ps
unfolding strip_any
strip_any_sound [] s r some_byte h = cc
strip_any_sound (p ∷ ps) s r (first, rest) h = elim (Option-cases (strip_prefix p s)) [
  | inl absent ↦
      (let (q, whole, one, among) = strip_any_sound ps s r rest (ground (arith, absent, h)) in
        (q, whole, one, inr among))
  | inr (r', found) ↦ (
    p,
    (let same : r' ≡ r = ground (arith, found, h) in strip_prefix_sound p s r (rw (← same) found)),
    first,
    inl refl,
  )
]

pub strip_any_rest :
    (p : Text) (ps : List Text) (s : Text)
    → strip_any (p ∷ ps) s ≡ none
    → (strip_prefix p s ≡ none) × (strip_any ps s ≡ none)
unfolding strip_any
strip_any_rest p ps s h = elim (Option-cases (strip_prefix p s)) [
  | inl absent ↦ (absent, ground (arith, absent, h))
  | inr (r, found) ↦ ground (arith, found, h)
]

strip_any_shorter :
    (ps : List Text) (s z : Text) → strip_any ps (s ++ z) ≡ none → strip_any ps s ≡ none
unfolding strip_any
strip_any_shorter [] s z h = refl
strip_any_shorter (p ∷ ps) s z h =
    let (first, rest) = strip_any_rest p ps (s ++ z) h in
    let later = strip_any_shorter ps s z rest in
    elim (Option-cases (strip_prefix p s)) [
      | inl absent ↦ simp (strip_any, absent, later)
      | inr (r, found) ↦ (let longer = strip_prefix_longer p s r z found in cc)
    ]

trim_loop_same : (ps : List Text) (n : ℕ) (s : Text) → strip_any ps s ≡ none → trim_loop ps n s ≡ s
unfolding trim_loop
trim_loop_same ps zero s h = refl
trim_loop_same ps (suc n) s h = simp (trim_loop, h)

trim_loop_step :
    (ps : List Text) (n : ℕ) (s r : Text)
    → strip_any ps s ≡ some r
    → trim_loop ps (suc n) s ≡ trim_loop ps n r
unfolding trim_loop
trim_loop_step ps n s r h = simp (trim_loop, h)

module _ (ps : List Text) (some_byte : All IsNonempty ps) where
  strip_any-length : (s r : Text) → strip_any ps s ≡ some r → suc (length r) ≤ length s
  strip_any-length s r found =
      let (p, whole, one, _) = strip_any_sound ps s r some_byte found in
      rw whole (omega (arith, length-append p r, one))

  trim_loop_stops : (n : ℕ) (s : Text) → length s ≤ n → strip_any ps (trim_loop ps n s) ≡ none
  trim_loop_stops zero s h = elim (Option-cases (strip_any ps s)) [
    | inl absent ↦ rw (trim_loop_same ps zero s absent) absent
    | inr (r, found) ↦ absurd (omega (arith, strip_any-length s r found))
  ]
  trim_loop_stops (suc n) s h = elim (Option-cases (strip_any ps s)) [
    | inl absent ↦ rw (trim_loop_same ps (suc n) s absent) absent
    | inr (r, found) ↦
        rw (trim_loop_step ps n s r found)
          (trim_loop_stops n r (omega (arith, strip_any-length s r found)))
  ]

  pub trim_loop_suffix :
      (n : ℕ) (s : Text) → (u : Text) × (s ≡ u ++ trim_loop ps n s) × IsMadeOf ps u
  unfolding trim_loop
  trim_loop_suffix zero s = ([], refl, made_empty)
  trim_loop_suffix (suc n) s = elim (Option-cases (strip_any ps s)) [
    | inl absent ↦ ([], sym (trim_loop_same ps (suc n) s absent), made_empty)
    | inr (r, found) ↦
        (let (p, whole, one, among) = strip_any_sound ps s r some_byte found in
          let (u, e, made) = trim_loop_suffix n r in
          (
            p ++ u,
            whole
                ∙ ap (λ t. p ++ t) e
                ∙ sym (append_assoc p u (trim_loop ps n r))
                ∙ ap (λ t. (p ++ u) ++ t) (sym (trim_loop_step ps n s r found)),
            made_piece p u (p ++ u) refl among made,
          ))
  ]

pub spaces-IsNonempty : All IsNonempty spaces
spaces-IsNonempty = ground arith

back-IsNonempty : All IsNonempty (map reverse spaces)
back-IsNonempty = ground arith

Among-reverse : (q : Text) (ps : List Text) → Among q (map reverse ps) → Among (reverse q) ps
Among-reverse q [] h = h
Among-reverse q (p ∷ ps) (inl same) = inl (ap reverse same ∙ reverse-reverse p)
Among-reverse q (p ∷ ps) (inr among) = inr (Among-reverse q ps among)

piece_behind : (ps : List Text) (p s : Text) → Among p ps → IsMadeOf ps s → IsMadeOf ps (s ++ p)
piece_behind ps p [] among made_empty = made_piece p [] p (sym (append-nil p)) among made_empty
piece_behind ps p s among (made_piece q r t e first made) =
    made_piece q (r ++ p) (s ++ p) (ap (λ x. x ++ p) e ∙ append_assoc q r p) first
      (piece_behind ps p r among made)

reverse-IsMadeOf :
    (ps : List Text) (s : Text) → IsMadeOf (map reverse ps) s → IsMadeOf ps (reverse s)
reverse-IsMadeOf ps [] made_empty = made_empty
reverse-IsMadeOf ps s (made_piece q r t e first made) =
    subst (IsMadeOf ps) (sym (ap reverse e ∙ reverse-append q r)) (
      piece_behind ps (reverse q) (reverse r) (Among-reverse q ps first)
        (reverse-IsMadeOf ps r made))

-- What is trimmed from behind is a part of the text before it.
pub trim_back_prefix : (x : Text) → (z : Text) × (x ≡ trim_back spaces x ++ z) × IsMadeOf spaces z
unfolding trim_back trim_front
trim_back_prefix x =
    let (u, e, made) =
      trim_loop_suffix (map reverse spaces) back-IsNonempty (length (reverse x)) (reverse x) in
    (
      reverse u,
      sym (reverse-reverse x)
          ∙ ap reverse e
          ∙ reverse-append u (trim_front (map reverse spaces) (reverse x)),
      reverse-IsMadeOf spaces u made,
    )

trim_front_stops : (s : Text) → strip_any spaces (trim_front spaces s) ≡ none
unfolding trim_front
trim_front_stops s = trim_loop_stops spaces spaces-IsNonempty (length s) s (omega arith)

trim_back_twice : (x : Text) → trim_back spaces (trim_back spaces x) ≡ trim_back spaces x
unfolding trim_back trim_front
trim_back_twice x =
    let back = map reverse spaces in
    let w = reverse x in
    let stops = trim_loop_stops back back-IsNonempty (length w) w (omega arith) in
    ap reverse (
      ap (trim_front back) (reverse-reverse (trim_front back w))
      ∙ trim_loop_same back (length (trim_front back w)) (trim_front back w) stops)

-- Of a trimmed text, neither the front nor the back can be stripped.
pub trim_space_front : (s : Text) → strip_any spaces (trim_space s) ≡ none
unfolding trim_space trim_front
trim_space_front s =
    let front = trim_front spaces s in
    let (z, e, _) = trim_back_prefix front in
    strip_any_shorter spaces (trim_back spaces front) z (rw (← e) (trim_front_stops s))

pub trim_space_back : (s : Text) → strip_any (map reverse spaces) (reverse (trim_space s)) ≡ none
unfolding trim_space trim_back trim_front
trim_space_back s =
    let back = map reverse spaces in
    let w = reverse (trim_front spaces s) in
    rw (reverse-reverse (trim_front back w))
      (trim_loop_stops back back-IsNonempty (length w) w (omega arith))

-- `TrimSpace` of a trimmed string is that string.
pub trim_space_twice : (s : Text) → trim_space (trim_space s) ≡ trim_space s
unfolding trim_space trim_front
trim_space_twice s =
    let front = trim_front spaces s in
    let clear = trim_space_front s in
    ap (trim_back spaces)
      (trim_loop_same spaces (length (trim_back spaces front)) (trim_back spaces front) clear)
    ∙ trim_back_twice front

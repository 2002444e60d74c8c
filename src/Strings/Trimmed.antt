-- ===== src/Strings/Trimmed.antt =====
-- What `TrimSpace` takes off, and what it leaves.
use mathlib.Core.List.{reverse, reverse-append}
use a2a_red_panda_server_con.Prelude.{
  Text, ◌≡◌, refl, ap, ◌∙◌, ◌≢◌, inl, inr, none, some, List, [], ◌∷◌, ◌++◌, map, arith, length,
  Among,
}
use a2a_red_panda_server_con.Strings.{strip_prefix, strip_any, trim_front, spaces, trim_space}
use a2a_red_panda_server_con.Strings.Trim.{
  IsMadeOf, trim_loop_suffix, trim_back_prefix, trim_space_front, trim_space_back, strip_any_rest,
  spaces-IsNonempty,
}

strip_prefix-append : (p r : Text) → strip_prefix p (p ++ r) ≡ some r
unfolding strip_prefix
strip_prefix-append [] r = refl
strip_prefix-append (c ∷ p) r = ground (arith, strip_prefix-append p r)

strip_any-piece :
    (p : Text) (ps : List Text) (s r : Text) → Among p ps → s ≡ p ++ r → strip_any ps s ≢ none
strip_any-piece p [] s r among e h = elim among [ ]
strip_any-piece p (q ∷ ps) s r (inl same) e h =
    let (absent, _) = strip_any_rest q ps s h in
    let there : strip_prefix q s ≡ some r = rw (e, ← same) (strip_prefix-append p r) in
    absurd (cc (there, absent))
strip_any-piece p (q ∷ ps) s r (inr among) e h =
    let (_, absent) = strip_any_rest q ps s h in strip_any-piece p ps s r among e absent

Among-map-reverse : (p : Text) (ps : List Text) → Among p ps → Among (reverse p) (map reverse ps)
Among-map-reverse p [] h = h
Among-map-reverse p (q ∷ ps) (inl same) = inl (ap reverse same)
Among-map-reverse p (q ∷ ps) (inr among) = inr (Among-map-reverse p ps among)

-- The text is the trimmed one between spaces, and the trimmed one neither begins nor ends with one.
pub record IsTrimmed (s trimmed : Text) : Type 0 where
  pub front : Text
  pub back : Text
  pub whole : s ≡ front ++ (trimmed ++ back)
  pub front_spaces : IsMadeOf spaces front
  pub back_spaces : IsMadeOf spaces back
  pub begins : (p r : Text) → Among p spaces → trimmed ≢ p ++ r
  pub ends : (p r : Text) → Among p spaces → trimmed ≢ r ++ p

pub trim_space-IsTrimmed : (s : Text) → IsTrimmed s (trim_space s)
unfolding trim_space trim_front
trim_space-IsTrimmed s =
    let rest = trim_front spaces s in
    let (front, e, front_spaces) = trim_loop_suffix spaces spaces-IsNonempty (length s) s in
    let (back, k, back_spaces) = trim_back_prefix rest in
    record {
      front = front;
      back = back;
      whole = e ∙ ap (λ x. front ++ x) k;
      front_spaces = front_spaces;
      back_spaces = back_spaces;
      begins = λ p r among same.
          strip_any-piece p spaces (trim_space s) r among same (trim_space_front s);
      ends = λ p r among same.
          strip_any-piece (reverse p) (map reverse spaces) (reverse (trim_space s)) (reverse r)
            (Among-map-reverse p spaces among) (ap reverse same ∙ reverse-append r p)
            (trim_space_back s);
    }

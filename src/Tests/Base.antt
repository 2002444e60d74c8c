-- ===== src/Tests/Base.antt =====
-- Concrete functions for what the program takes from elsewhere: an encoding of tasks, a writing of
-- times, an order of texts; and identities and requests.
use a2a_red_panda_server_con.Prelude.{
  Text, str, ℕ, ◌+◌, ◌-◌, ◌≡◌, refl, ap, ◌≢◌, ◌⊎◌, inl, inr, Bool, true, false, ◌&&◌, ◌||◌, Option,
  none, some, [], ◌∷◌, ◌++◌, arith, ltb, ◌==◌, length, take, drop, subst,
}
use a2a_red_panda_server_con.Identity.{Identity}
use a2a_red_panda_server_con.Storage.Cursor.{TokenText}
use a2a_red_panda_server_con.Storage.Cursor.RoundTrip.{IsTokenText}
use a2a_red_panda_server_con.Storage.Listing.Order.{IsCollation}
use a2a_red_panda_server_con.Storage.Store.{Codec, IsFaithful}
use a2a_red_panda_server_con.Storage.Table.{Task}

-- A text behind its length.
pack : Text → Text → Text
pack s rest = length s ∷ (s ++ rest)

unpack : Text → Option (Text × Text)
unpack [] = none
unpack (n ∷ s) = some (take n s, drop n s)

take_front : (s r : Text) → take (length s) (s ++ r) ≡ s
take_front [] r = refl
take_front (c ∷ s) r = ap (λ t. c ∷ t) (take_front s r)

drop_front : (s r : Text) → drop (length s) (s ++ r) ≡ r
drop_front [] r = refl
drop_front (c ∷ s) r = drop_front s r

unpack-pack : (s r : Text) → unpack (pack s r) ≡ some (s, r)
unfolding pack unpack
unpack-pack s r = cc (take_front s r, drop_front s r)

stamp : Option ℕ → Text
stamp none = []
stamp (some n) = n ∷ []

unstamp : Text → Option ℕ
unstamp [] = none
unstamp (n ∷ s) = some n

unstamp-stamp : (o : Option ℕ) → unstamp (stamp o) ≡ o
unfolding stamp unstamp
unstamp-stamp none = refl
unstamp-stamp (some n) = refl

encode_task : Task ℕ ℕ → Text
encode_task t = pack t.id (
    pack t.context_id
      (pack t.state (pack (stamp t.status_timestamp) (pack t.history (pack t.artifacts [])))))

infixl 5 ◌then◌
abbrev ◌then◌ {ℓ κ} : {A : Type ℓ} {B : Type κ} → Option A → (A → Option B) → Option B
none then f = none
some a then f = f a

decode_task : Text → Option (Task ℕ ℕ)
decode_task s = unpack s then λ p. unpack p.1 then λ q. unpack q.1 then λ r. unpack r.1 then λ u.
    unpack u.1 then λ v. unpack v.1 then λ w. some (record {
      id = p.0;
      context_id = q.0;
      state = r.0;
      status_timestamp = unstamp u.0;
      history = v.0;
      artifacts = w.0;
    })

decode-encode_task : (t : Task ℕ ℕ) → decode_task (encode_task t) ≡ some t
unfolding decode_task encode_task
decode-encode_task t = simp (unpack-pack, unstamp-stamp)

unfoldable pub plain_codec : Codec ℕ ℕ
unfolding encode_task decode_task pack unpack stamp unstamp
plain_codec = record {
  encode = λ t. some (encode_task t);
  to_jsonb = λ s. some s;
  decode = decode_task;
}

pub plain_codec-IsFaithful : IsFaithful plain_codec
unfolding plain_codec
plain_codec-IsFaithful = record {
  decode-encode = λ t payload stored e f.
      let same : encode_task t ≡ stored = cc (e, f) in
      subst (λ s. decode_task s ≡ some t) same (decode-encode_task t);
}

-- Times as one number above the underscore, and base64 as the identity.
unfoldable pub plain_text : TokenText
plain_text = record {
  format_time = λ n. (n + 96) ∷ [];
  parse_time = λ s. elim s [ [] ↦ none | c ∷ _ ↦ some (c - 96) ];
  encode_base64 = λ s. s;
  decode_base64 = λ s. some s;
}

pub plain_text-IsTokenText : IsTokenText plain_text
unfolding plain_text
plain_text-IsTokenText = record {
  time_nonempty = λ n. cc;
  time_plain = λ n. (omega arith, tt);
  parse-format = λ n. ap some (omega arith);
  decode-encode = λ s. refl;
  decode-nil = refl;
}

-- Texts in the order of their bytes.
unfoldable pub text_less : Text → Text → Bool
text_less [] [] = false
text_less [] (d ∷ t) = true
text_less (c ∷ s) [] = false
text_less (c ∷ s) (d ∷ t) = ltb c d || (c == d && text_less s t)

less_trans : (a b c : Text) → text_less a b ≡ true → text_less b c ≡ true → text_less a c ≡ true
unfolding text_less
less_trans [] [] c h k = k
less_trans [] (y ∷ b) [] h k = cc
less_trans [] (y ∷ b) (z ∷ c) h k = refl
less_trans (x ∷ a) [] c h k = cc
less_trans (x ∷ a) (y ∷ b) [] h k = cc
less_trans (x ∷ a) (y ∷ b) (z ∷ c) h k = ground (arith, less_trans a b c)

less_asym : (a b : Text) → text_less a b ≡ true → text_less b a ≡ false
unfolding text_less
less_asym [] [] h = refl
less_asym [] (y ∷ b) h = refl
less_asym (x ∷ a) [] h = cc
less_asym (x ∷ a) (y ∷ b) h = ground (arith, less_asym a b)

less_total : (a b : Text) → a ≢ b → (text_less a b ≡ true) ⊎ (text_less b a ≡ true)
unfolding text_less
less_total [] [] ne = absurd (ne refl)
less_total [] (y ∷ b) ne = inl refl
less_total (x ∷ a) [] ne = inr refl
less_total (x ∷ a) (y ∷ b) ne = ground (arith, less_total a b)

pub text_less-IsCollation : IsCollation text_less
text_less-IsCollation = record {
  less_trans = less_trans;
  less_asym = less_asym;
  less_total = less_total;
}

abbrev pub alice : Identity
alice = record {
  issuer = str "https://issuer";
  subject = str "alice";
  tenant = str "acme";
  scopes = str "a2a" ∷ [];
}

abbrev pub bob : Identity
bob = record {
  issuer = str "https://issuer";
  subject = str "bob";
  tenant = str "other";
  scopes = [];
}

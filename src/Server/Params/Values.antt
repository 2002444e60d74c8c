-- ===== src/Server/Params/Values.antt =====
-- What the two service parameters hold after they have been normalized.
use a2a_red_panda_server_con.Prelude.{
  Text, text_eq, text_eq_iff, text_eq_refl, ◌≡◌, ◌≢◌, refl, List, ◌++◌, arith, if◌then◌else◌, sym,
  ap, ◌∙◌, subst, ◌⊎◌, inl, inr, [], ◌∷◌, Bool-cases,
}
use a2a_red_panda_server_con.Http.{Request, canonical_key, header_values, header_del}
use a2a_red_panda_server_con.Http.Headers.{values-del, values-add_all}
use a2a_red_panda_server_con.Server.Params.{
  split_parameter_values, query_values, merge_equal, put_values, normalize_version_parameter,
  normalize_list_parameter, normalize_service_parameters,
}
use a2a_red_panda_server_con.Server.Params.Items.{
  AreValuesItems, split_parameter_values-AreValuesItems,
}

values-put_values :
    (name j : Text) (vs : List Text) (req : Request)
    → header_values j (put_values name vs req).header
      ≡ (if text_eq (canonical_key name) (canonical_key j) then vs else header_values j req.header)
unfolding put_values
values-put_values name j vs req = ground (
  arith,
  values-add_all name j vs (header_del name req.header),
  values-del name name req.header,
  values-del name j req.header,
  text_eq_refl (canonical_key name),
)

query-put_values :
    (name n : Text) (vs : List Text) (req : Request)
    → query_values n (put_values name vs req) ≡ query_values n req
unfolding query_values put_values
query-put_values name n vs req = refl

-- Two equal items, and no more, become one; any others stay.
abbrev pub IsMerged : (items merged : List Text) → Type 0
IsMerged items merged =
    ((v : Text) × (items ≡ v ∷ v ∷ []) × (merged ≡ v ∷ []))
    ⊎ (((v : Text) → items ≢ v ∷ v ∷ []) × (merged ≡ items))

merge_equal-IsMerged : (items : List Text) → IsMerged items (merge_equal items)
unfolding merge_equal
merge_equal-IsMerged [] = inr (λ v e. cc, refl)
merge_equal-IsMerged (v ∷ []) = inr (λ w e. cc, refl)
merge_equal-IsMerged (v ∷ w ∷ []) = elim (Bool-cases (text_eq v w)) [
  | inl same ↦
      (let equal = (text_eq_iff v w).0 same in
        inl (w, ap (λ x. x ∷ w ∷ []) equal, rw same (ap (λ x. x ∷ []) equal)))
  | inr apart ↦
      inr
        (λ x e. (let equal : v ≡ w = cc e in cc ((text_eq_iff v w).1 equal, apart)), rw apart refl)
]
merge_equal-IsMerged (v ∷ w ∷ x ∷ rest) = inr (λ y e. cc, refl)

normalized :
    (version_name extensions_name : Text) (req : Request) (j : Text)
    → canonical_key version_name ≢ canonical_key extensions_name
    → header_values j (normalize_service_parameters version_name extensions_name req).header ≡ (
        if text_eq (canonical_key version_name) (canonical_key j)
        then merge_equal (
            split_parameter_values (header_values version_name req.header)
            ++ split_parameter_values (query_values version_name req))
        else if text_eq (canonical_key extensions_name) (canonical_key j)
        then split_parameter_values
            (header_values extensions_name req.header ++ query_values extensions_name req)
        else header_values j req.header)
unfolding normalize_service_parameters normalize_version_parameter normalize_list_parameter
normalized version_name extensions_name req j apart =
    let version = merge_equal (
      split_parameter_values (header_values version_name req.header)
      ++ split_parameter_values (query_values version_name req)) in
    let before = put_values version_name version req in
    ground (
      arith,
      values-put_values extensions_name j
          (split_parameter_values
            (header_values extensions_name before.header ++ query_values extensions_name before))
          before,
      values-put_values version_name extensions_name version req,
      values-put_values version_name j version req,
      query-put_values version_name extensions_name version req,
      text_eq_iff (canonical_key version_name) (canonical_key extensions_name),
      text_eq_iff (canonical_key version_name) (canonical_key j),
      text_eq_iff (canonical_key extensions_name) (canonical_key j),
    )

-- What the request that goes on holds under the version's name: the items of the version's values
-- in the header and in the query, two equal ones as one.
abbrev pub IsVersion : (version_name : Text) → Request → List Text → Type 0
IsVersion version_name req shown =
    (own : List Text) × (asked : List Text) × AreValuesItems (header_values version_name req.header)
      own
    × AreValuesItems (query_values version_name req) asked
    × IsMerged (own ++ asked) shown

-- With two parameters of different names, the request that goes on holds under the version's name
-- the items of its values in header and query, two equal ones and no more as one, and under the
-- extensions' name those of its values in header and query in turn; every other header is as
-- before. The items of a value are what stands between its commas, without the spaces round it,
-- where it is more than spaces.
pub normalize_service_parameters_lem :
    (version_name extensions_name : Text) (req : Request)
    → canonical_key version_name ≢ canonical_key extensions_name
    → let header = (normalize_service_parameters version_name extensions_name req).header in
      IsVersion version_name req (header_values version_name header)
      × AreValuesItems
          (header_values extensions_name req.header ++ query_values extensions_name req)
          (header_values extensions_name header)
      × ((j : Text)
          → canonical_key j ≢ canonical_key version_name
          → canonical_key j ≢ canonical_key extensions_name
          → header_values j header ≡ header_values j req.header)
normalize_service_parameters_lem version_name extensions_name req apart =
    let own = split_parameter_values (header_values version_name req.header) in
    let asked = split_parameter_values (query_values version_name req) in
    let listed = header_values extensions_name req.header ++ query_values extensions_name req in
    let version = merge_equal (own ++ asked) in
    let of_version : header_values version_name
          (normalize_service_parameters version_name extensions_name req).header
        ≡ version =
      normalized version_name extensions_name req version_name apart
      ∙ rw (text_eq_refl (canonical_key version_name)) refl in
    let of_extensions : header_values extensions_name
          (normalize_service_parameters version_name extensions_name req).header
        ≡ split_parameter_values listed =
      normalized version_name extensions_name req extensions_name apart
      ∙ ground (
        arith,
        text_eq_iff (canonical_key version_name) (canonical_key extensions_name),
        text_eq_refl (canonical_key extensions_name),
      ) in
    (
      subst (IsVersion version_name req) (sym of_version) (
        own,
        asked,
        split_parameter_values-AreValuesItems (header_values version_name req.header),
        split_parameter_values-AreValuesItems (query_values version_name req),
        merge_equal-IsMerged (own ++ asked),
      ),
      subst (AreValuesItems listed) (sym of_extensions)
          (split_parameter_values-AreValuesItems listed),
      λ j away off.
          normalized version_name extensions_name req j apart
          ∙ ground (
            arith,
            text_eq_iff (canonical_key version_name) (canonical_key j),
            text_eq_iff (canonical_key extensions_name) (canonical_key j),
          ),
    )

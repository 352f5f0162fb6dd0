-- ===== src/Decoder/EncodeEnds/Fields.antt =====
-- node-api/src/decoder/encode.rs: fields, composites, vectors and tuples.
use substrate_api_client.Prelude.{
  ℕ, String, ◌<◌, ◌≡◌, refl, Bool, true, false, inl, inr, Option, none, some, List, [], ◌∷◌, All,
  length, not, ◌==◌,
}
use substrate_api_client.Decoder.Registry.{TypeId, Field}
use substrate_api_client.Decoder.Value
use substrate_api_client.Decoder.Value.{
  Primitive, Value, ValueDef, Composite, Values, NamedValues, value, named, unnamed, cons, nil,
  field, end, to_list, to_pairs, len, is_empty, into_values,
}
use substrate_api_client.Decoder.Encode.{
  EncodeError, Encoder, Written, failed, followed, take_named, encode_named, encode_unnamed,
  encode_matched, first_is_named, encode_composite_fields, encode_only, field_types,
  encode_composite_value, encode_values, encode_types, encode_tuple_value,
}
use substrate_api_client.Decoder.Ends.{Returns}
use substrate_api_client.Decoder.EncodeEnds.{Ends, followed-Ends, if-Ends}
use substrate_api_client.Decoder.RoundTrip.Fields.{AllNamed}
use substrate_api_client.Decoder.RoundTrip.Composites.{RegularFields}

module _ {T : Type 0} (rank : TypeId → ℕ) (rec : Encoder T) (n : ℕ)
    (k : (id : TypeId) → rank id < n → (v : Value T) → Ends (rec id v)) where
  named_step-Ends :
      (id t : TypeId) (name : String) (o : Option (Value T × List (String × Value T)))
      (next : List (String × Value T) → Written (EncodeError T))
      → rank t < n
      → ((vs : List (String × Value T)) → Ends (next vs))
      → Ends {E = EncodeError T} (elim o [
        | none ↦ failed (EncodeError.composite_field_is_missing name id)
        | some (v, rest) ↦ followed (rec t v) (next rest)
      ])
  unfolding Returns
  named_step-Ends id t name none next l e = tt
  named_step-Ends id t name (some (v, rest)) next l e =
      followed-Ends (rec t v) (next rest) (k t l v) (e rest)

  encode_named-Ends :
      (id : TypeId) (fs : List Field)
      → AllNamed fs
      → All (λ f. rank f.ty < n) fs
      → (vs : List (String × Value T)) → Ends (encode_named rec id fs vs)
  unfolding encode_named Returns
  encode_named-Ends id [] u a vs = tt
  encode_named-Ends id (f ∷ fs) ((name, is_n, _), u) (l, a) vs = rw is_n (
      named_step-Ends id f.ty name (take_named name vs) (encode_named rec id fs) l
        (encode_named-Ends id fs u a))

  encode_unnamed-Ends :
      (fs : List Field) (vs : List (Value T))
      → All (λ f. rank f.ty < n) fs
      → Ends (encode_unnamed rec fs vs)
  unfolding encode_unnamed Returns
  encode_unnamed-Ends [] vs a = tt
  encode_unnamed-Ends (f ∷ fs) [] a = tt
  encode_unnamed-Ends (f ∷ fs) (v ∷ vs) (l, a) =
      followed-Ends (rec f.ty v) (encode_unnamed rec fs vs) (k f.ty l v)
        (encode_unnamed-Ends fs vs a)

  encode_matched-Ends :
      (id : TypeId) (fs : List Field) (values : Composite T) (b : Bool)
      → (b ≡ true → AllNamed fs)
      → All (λ f. rank f.ty < n) fs
      → Ends (encode_matched rec id fs values b)
  unfolding encode_matched Returns
  encode_matched-Ends id fs (named vs) true u a = encode_named-Ends id fs (u refl) a (to_pairs vs)
  encode_matched-Ends id fs (named vs) false u a = tt
  encode_matched-Ends id fs (unnamed vs) true u a = tt
  encode_matched-Ends id fs (unnamed vs) false u a = encode_unnamed-Ends fs (to_list vs) a

  first_is_named-AllNamed :
      (fs : List Field) → RegularFields fs → first_is_named rec fs ≡ true → AllNamed fs
  first_is_named-AllNamed fs (inl u) h = u
  first_is_named-AllNamed [] (inr u) h = tt
  first_is_named-AllNamed (f ∷ fs) (inr (e, u)) h = let h₁ : false ≡ true = rw e at h in cc

  pub encode_composite_fields-Ends :
      (id : TypeId) (fs : List Field) (values : Composite T)
      → RegularFields fs
      → All (λ f. rank f.ty < n) fs
      → Ends (encode_composite_fields rec values fs id)
  unfolding encode_composite_fields
  encode_composite_fields-Ends id fs values r a =
      if-Ends (not (length fs == len values)) _ _ (unfold Returns in tt) (
        if-Ends (is_empty values) _ _ (unfold Returns in tt) (
          encode_matched-Ends id fs values (first_is_named rec fs) (first_is_named-AllNamed fs r)
            a))

  encode_only-Ends :
      (id : TypeId) (ts : List TypeId) (v : Value T)
      → All (λ t. rank t < n) ts
      → Ends (encode_only rec id ts v)
  unfolding Returns
  encode_only-Ends id [] v a = tt
  encode_only-Ends id (t ∷ []) v (l, a) = k t l v
  encode_only-Ends id (t ∷ u ∷ ts) v a = tt

  All-field_types :
      (fs : List Field) → All (λ f. rank f.ty < n) fs → All (λ t. rank t < n) (field_types rec fs)
  All-field_types [] a = tt
  All-field_types (f ∷ fs) (l, a) = (l, All-field_types fs a)

  pub encode_composite_value-Ends :
      (id : TypeId) (fs : List Field) (v : Value T)
      → RegularFields fs
      → All (λ f. rank f.ty < n) fs
      → Ends (encode_composite_value rec v id fs)
  unfolding encode_composite_value
  encode_composite_value-Ends id fs (value (Value.composite c) t) r a =
      encode_composite_fields-Ends id fs c r a
  encode_composite_value-Ends id fs v r a =
      encode_only-Ends id (field_types rec fs) _ (All-field_types fs a)

  pub encode_values-Ends :
      (t : TypeId) (vs : List (Value T)) → rank t < n → Ends (encode_values rec t vs)
  unfolding encode_values Returns
  encode_values-Ends t [] l = tt
  encode_values-Ends t (v ∷ vs) l =
      followed-Ends (rec t v) (encode_values rec t vs) (k t l v) (encode_values-Ends t vs l)

  encode_types-Ends :
      (ts : List TypeId) (vs : List (Value T))
      → All (λ t. rank t < n) ts
      → Ends (encode_types rec ts vs)
  unfolding encode_types Returns
  encode_types-Ends [] vs a = tt
  encode_types-Ends (t ∷ ts) [] a = tt
  encode_types-Ends (t ∷ ts) (v ∷ vs) (l, a) =
      followed-Ends (rec t v) (encode_types rec ts vs) (k t l v) (encode_types-Ends ts vs a)

  pub encode_tuple_value-Ends :
      (id : TypeId) (ts : List TypeId) (v : Value T)
      → All (λ t. rank t < n) ts
      → Ends (encode_tuple_value rec v id ts)
  unfolding encode_tuple_value
  encode_tuple_value-Ends id ts (value (Value.composite c) t) a =
      if-Ends (not (len c == length ts)) _ _ (unfold Returns in tt)
        (encode_types-Ends ts (into_values c) a)
  encode_tuple_value-Ends id ts v a = encode_only-Ends id ts _ a

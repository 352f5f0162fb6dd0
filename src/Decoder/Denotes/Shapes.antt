-- ===== src/Decoder/Denotes/Shapes.antt =====
-- node-api/src/decoder/encode.rs: composites, tuples, vectors and variants are written as what they
-- denote.
use substrate_api_client.Prelude.{
  suc, ◌≡◌, refl, ap, ◌∙◌, String, Option-cases, inl, inr, List, [], ◌∷◌, ◌++◌, map, length,
  ==_refl,
}
use mathlib.Core.List.{append_assoc}
use substrate_api_client.Codec.{Codec, IsLawful, w64, IsUint}
use substrate_api_client.Decoder.Registry.{TypeId, Field, VariantType, PortableRegistry}
use substrate_api_client.Decoder.Value
use substrate_api_client.Decoder.Value.{
  Value, ValueDef, Composite, Values, NamedValues, value, named, unnamed, from_list, to_list,
  to_pairs, len, into_values,
}
use substrate_api_client.Decoder.Decode.{
  Parser, mapped, wrap_field, decode_each, decode_types, decode_fields, decode_tuple_value,
  decode_variant_value, decode_sequence_value, decode_array_value,
}
use substrate_api_client.Decoder.Encode.{
  Encoder, encode_composite_value, encode_sequence_value, encode_array_value, encode_tuple_value,
  encode_variant_value,
}
use substrate_api_client.Decoder.RoundTrip.Pieces.{Reencodes, Reencodes-mapped}
use substrate_api_client.Decoder.Denotes.{AllAs, CompositeAs, TupleAs, VariantAs}
use substrate_api_client.Decoder.Denotes.Fields.{
  length-EachAs, length-AllAs, EachAs-Reencodes, AllAs-Reencodes, FieldsAs-Reencodes,
}

length-seconds : {A : Type 0} (vs : List (String × A)) → length vs ≡ length (map (λ p. p.1) vs)
length-seconds [] = refl
length-seconds (v ∷ vs) = ap suc (length-seconds vs)

len-into_values : {T : Type 0} (c : Composite T) → len c ≡ length (into_values c)
unfolding len into_values
len-into_values (named vs) = length-seconds (to_pairs vs)
len-into_values (unnamed vs) = refl

module _ (c : Codec) (lawful : IsLawful c) (types : PortableRegistry) {T : Type 0}
    (R : TypeId → Value T → Value TypeId → Type 0) (rec_d : TypeId → Parser (Value TypeId))
    (rec_e : Encoder T) (rec₀ : Encoder (Unit {0}))
    (writes : (id : TypeId) (v : Value T) (v' : Value TypeId)
      → R id v v'
      → Reencodes (rec_d id) v' (rec_e id v)) where
  only-Reencodes :
      (f : Field) (v : Value T) (v' : Value TypeId)
      → R f.ty v v'
      → Reencodes (decode_fields rec_d (f ∷ [])) (wrap_field f.name v') (rec_e f.ty v)
  unfolding decode_fields decode_each
  only-Reencodes f v v' r =
      let (w, p, q) = writes f.ty v v' r in
      elim (Option-cases f.name) [
        | inl n ↦ (w, p, λ more. rw (q more, n))
        | inr (s, n) ↦ (w, p, λ more. rw (q more, n))
      ]

  pub CompositeAs-Reencodes :
      (id : TypeId) (fs : List Field) (d : ValueDef T) (t : T) (d' : ValueDef TypeId)
      → CompositeAs R fs d t d'
      → Reencodes
          (λ b. mapped Value.composite (decode_fields rec_d fs b))
          d'
          (encode_composite_value rec_e (value d t) id fs)
  unfolding encode_composite_value
  CompositeAs-Reencodes id fs (Value.composite v) t d' (c', h, e) = rw e (
      Reencodes-mapped (decode_fields rec_d fs) Value.composite
        (FieldsAs-Reencodes R rec_d rec_e writes id h))
  CompositeAs-Reencodes id (f ∷ []) (Value.variant n v) t d' (v', r, e) = rw e (
      Reencodes-mapped (decode_fields rec_d (f ∷ [])) Value.composite
        (only-Reencodes f (value (Value.variant n v) t) v' r))
  CompositeAs-Reencodes id (f ∷ []) (Value.bit_sequence b) t d' (v', r, e) = rw e (
      Reencodes-mapped (decode_fields rec_d (f ∷ [])) Value.composite
        (only-Reencodes f (value (Value.bit_sequence b) t) v' r))
  CompositeAs-Reencodes id (f ∷ []) (Value.primitive p) t d' (v', r, e) = rw e (
      Reencodes-mapped (decode_fields rec_d (f ∷ [])) Value.composite
        (only-Reencodes f (value (Value.primitive p) t) v' r))
  CompositeAs-Reencodes id [] (Value.variant n v) t d' h = absurd h
  CompositeAs-Reencodes id [] (Value.bit_sequence b) t d' h = absurd h
  CompositeAs-Reencodes id [] (Value.primitive p) t d' h = absurd h
  CompositeAs-Reencodes id (f ∷ g ∷ fs) (Value.variant n v) t d' h = absurd h
  CompositeAs-Reencodes id (f ∷ g ∷ fs) (Value.bit_sequence b) t d' h = absurd h
  CompositeAs-Reencodes id (f ∷ g ∷ fs) (Value.primitive p) t d' h = absurd h

  only_type-Reencodes :
      (ty : TypeId) (v : Value T) (v' : Value TypeId)
      → R ty v v'
      → Reencodes
          (λ b. mapped Value.composite (decode_tuple_value rec_d (ty ∷ []) b))
          (Value.composite (unnamed (from_list (v' ∷ []))))
          (rec_e ty v)
  unfolding decode_tuple_value decode_types
  only_type-Reencodes ty v v' r = let (w, p, q) = writes ty v v' r in (w, p, λ more. rw (q more))

  pub TupleAs-Reencodes :
      (id : TypeId) (tys : List TypeId) (d : ValueDef T) (t : T) (d' : ValueDef TypeId)
      → TupleAs R tys d t d'
      → Reencodes
          (λ b. mapped Value.composite (decode_tuple_value rec_d tys b))
          d'
          (encode_tuple_value rec_e (value d t) id tys)
  unfolding encode_tuple_value decode_tuple_value
  TupleAs-Reencodes id tys (Value.composite v) t d' (vs', h, e) =
      let l : len v ≡ length tys = len-into_values v ∙ length-EachAs R tys (into_values v) vs' h in
      rw (l, ==_refl (length tys), e)
        (Reencodes-mapped (λ b. mapped (λ vs. unnamed (from_list vs)) (decode_types rec_d tys b))
          Value.composite
          (Reencodes-mapped (decode_types rec_d tys) (λ vs. unnamed (from_list vs))
            (EachAs-Reencodes R rec_d rec_e writes tys (into_values v) vs' h)))
  TupleAs-Reencodes id (ty ∷ []) (Value.variant n v) t d' (v', r, e) =
      rw e (only_type-Reencodes ty (value (Value.variant n v) t) v' r)
  TupleAs-Reencodes id (ty ∷ []) (Value.bit_sequence b) t d' (v', r, e) =
      rw e (only_type-Reencodes ty (value (Value.bit_sequence b) t) v' r)
  TupleAs-Reencodes id (ty ∷ []) (Value.primitive p) t d' (v', r, e) =
      rw e (only_type-Reencodes ty (value (Value.primitive p) t) v' r)
  TupleAs-Reencodes id [] (Value.variant n v) t d' h = absurd h
  TupleAs-Reencodes id [] (Value.bit_sequence b) t d' h = absurd h
  TupleAs-Reencodes id [] (Value.primitive p) t d' h = absurd h
  TupleAs-Reencodes id (x ∷ y ∷ tys) (Value.variant n v) t d' h = absurd h
  TupleAs-Reencodes id (x ∷ y ∷ tys) (Value.bit_sequence b) t d' h = absurd h
  TupleAs-Reencodes id (x ∷ y ∷ tys) (Value.primitive p) t d' h = absurd h

  pub sequence-Reencodes :
      (id ty : TypeId) (v : Composite T) (t : T) (vs' : List (Value TypeId))
      → AllAs R ty (into_values v) vs'
      → IsUint w64 (length vs')
      → Reencodes
          (λ b. mapped Value.composite (decode_sequence_value c rec_d ty b))
          (Value.composite (unnamed (from_list vs')))
          (encode_sequence_value c rec_e rec₀ (value (Value.composite v) t) id ty)
  unfolding encode_sequence_value decode_sequence_value
  sequence-Reencodes id ty v t vs' h range =
      let l : len v ≡ length vs' = len-into_values v ∙ length-AllAs R ty (into_values v) vs' h in
      let (w, p, q) = AllAs-Reencodes R rec_d rec_e writes ty (into_values v) vs' h in
      rw (l, p)
        (
          c.encode_compact w64 (length vs') ++ w,
          refl,
          λ more. rw (
            append_assoc (c.encode_compact w64 (length vs')) w more,
            lawful.compact w64 (length vs') range (w ++ more),
            q more,
          ),
        )

  pub array-Reencodes :
      (id ty : TypeId) (v : Composite T) (t : T) (vs' : List (Value TypeId))
      → AllAs R ty (into_values v) vs'
      → Reencodes
          (λ b. mapped Value.composite (decode_array_value rec_d (length vs') ty b))
          (Value.composite (unnamed (from_list vs')))
          (encode_array_value c rec_e rec₀ (value (Value.composite v) t) id (length vs') ty)
  unfolding encode_array_value decode_array_value
  array-Reencodes id ty v t vs' h =
      let l : len v ≡ length vs' = len-into_values v ∙ length-AllAs R ty (into_values v) vs' h in
      let (w, p, q) = AllAs-Reencodes R rec_d rec_e writes ty (into_values v) vs' h in
      rw (l, ==_refl (length vs')) (w, p, λ more. rw (q more))

  pub VariantAs-Reencodes :
      (id : TypeId) (vs : List VariantType) (d : ValueDef T) (t : T) (d' : ValueDef TypeId)
      → VariantAs R vs d d'
      → Reencodes
          (λ b. mapped (λ v. Value.variant v.0 v.1) (decode_variant_value rec_d vs b))
          d'
          (encode_variant_value c rec_e rec₀ (value d t) id vs)
  unfolding encode_variant_value decode_variant_value
  VariantAs-Reencodes id vs (Value.variant n v) t d' (x, c', by_name, by_index, range, h, e) =
      let (w, p, q) = FieldsAs-Reencodes R rec_d rec_e writes id h in
      (
        x.index ∷ w,
        rw (by_name, encode_variant_value) (rw (p, lawful.u8 x.index range)),
        λ more. rw (by_index, q more, e),
      )
  VariantAs-Reencodes id vs (Value.composite v) t d' h = absurd h
  VariantAs-Reencodes id vs (Value.bit_sequence b) t d' h = absurd h
  VariantAs-Reencodes id vs (Value.primitive p) t d' h = absurd h

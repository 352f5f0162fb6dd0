-- ===== src/Decoder/EncodeEnds/Main.antt =====
-- node-api/src/decoder/encode.rs: the encoder as a whole.
use substrate_api_client.Prelude.{
  ℕ, zero, suc, ◌≤◌, ◌<◌, List, [], ◌∷◌, Bytes, All, find, length, not, str_eq, ◌==◌, if◌then◌else◌,
  arith,
}
use substrate_api_client.Codec.{Codec, w64, w8, IsUint}
use substrate_api_client.Decoder.Registry.{
  TypeId, TypeDef, VariantType, PortableRegistry, composite, variant, sequence, array, tuple,
  primitive, compact, bit_sequence,
}
use substrate_api_client.Decoder.Value
use substrate_api_client.Decoder.Value.{
  Primitive, Value, ValueDef, Composite, Values, NamedValues, value, named, unnamed, cons, nil,
  field, end, to_list, to_pairs, len, is_empty, into_values,
}
use substrate_api_client.Decoder.Encode.{
  EncodeError, Encoder, written, failed, followed, encode_composite_fields, encode_values,
  encode_bytes, encode_sequence_value, encode_array_value, encode_variant_value, encode_def,
  encode_value_as_type,
}
use substrate_api_client.Decoder.Ends.{Returns, returned, find-All, RefersBelow, IsRanked}
use substrate_api_client.Decoder.EncodeEnds.{
  Ends, followed-Ends, prefixed-Ends, or_fail-Ends, if-Ends, chosen-Ends,
}
use substrate_api_client.Decoder.RoundTrip.Composites.{RegularFields}
use substrate_api_client.Decoder.RoundTrip.Values.{RegularDef, IsRegular}
use substrate_api_client.Decoder.EncodeEnds.Fields.{
  encode_composite_fields-Ends, encode_composite_value-Ends, encode_values-Ends,
  encode_tuple_value-Ends,
}
use substrate_api_client.Decoder.EncodeEnds.Scalars.{
  encode_primitive_value-Ends, encode_compact_value-Ends, encode_bitsequence_value-Ends,
}

module _ {T : Type 0} (c : Codec) (rank : TypeId → ℕ) (rec : Encoder T) (rec₀ : Encoder (Unit {0}))
    (n : ℕ) (k : (id : TypeId) → rank id < n → (v : Value T) → Ends (rec id v))
    (k₀ : (id : TypeId) → rank id < n → (v : Value (Unit {0})) → Ends (rec₀ id v)) where
  encode_bytes-Ends :
      (v : Value T) (id t : TypeId) (bs : Bytes) → rank t < n → Ends (encode_bytes rec₀ v id t bs)
  unfolding encode_bytes
  encode_bytes-Ends v id t [] l = returned _ _ _
  encode_bytes-Ends v id t (b ∷ bs) l =
      followed-Ends _ (encode_bytes rec₀ v id t bs) (or_fail-Ends _ (rec₀ t _) (k₀ t l _))
        (encode_bytes-Ends v id t bs l)

  byte_sequence-Ends :
      (v : Value T) (id t : TypeId) (bs : Bytes)
      → rank t < n
      → Ends (followed (written (c.encode_compact w64 (length bs))) (encode_bytes rec₀ v id t bs))
  byte_sequence-Ends v id t bs l =
      prefixed-Ends (c.encode_compact w64 (length bs)) (encode_bytes rec₀ v id t bs)
        (encode_bytes-Ends v id t bs l)

  encode_sequence_value-Ends :
      (v : Value T) (id t : TypeId) → rank t < n → Ends (encode_sequence_value c rec rec₀ v id t)
  unfolding encode_sequence_value Returns
  encode_sequence_value-Ends (value (Value.composite vs) t₀) id t l =
      prefixed-Ends (c.encode_compact w64 (len vs)) (encode_values rec t (into_values vs))
        (encode_values-Ends rank rec n k t (into_values vs) l)
  encode_sequence_value-Ends (value (Value.primitive (Primitive.u256 a)) t₀) id t l =
      byte_sequence-Ends _ id t a l
  encode_sequence_value-Ends (value (Value.primitive (Primitive.i256 a)) t₀) id t l =
      byte_sequence-Ends _ id t a l
  encode_sequence_value-Ends v id t l = tt

  byte_array-Ends :
      (v : Value T) (id t : TypeId) (size : ℕ) (bs : Bytes)
      → rank t < n
      → Ends (
          if not (length bs == size)
          then failed (EncodeError.wrong_shape v id)
          else encode_bytes rec₀ v id t bs)
  byte_array-Ends v id t size bs l =
      if-Ends (not (length bs == size)) _ (encode_bytes rec₀ v id t bs) (unfold Returns in tt)
        (encode_bytes-Ends v id t bs l)

  encode_array_value-Ends :
      (v : Value T) (id t : TypeId) (size : ℕ)
      → rank t < n
      → Ends (encode_array_value c rec rec₀ v id size t)
  unfolding encode_array_value Returns
  encode_array_value-Ends (value (Value.composite vs) t₀) id t size l =
      if-Ends (not (len vs == size)) _ (encode_values rec t (into_values vs)) tt
        (encode_values-Ends rank rec n k t (into_values vs) l)
  encode_array_value-Ends (value (Value.primitive (Primitive.u256 a)) t₀) id t size l =
      byte_array-Ends _ id t size a l
  encode_array_value-Ends (value (Value.primitive (Primitive.i256 a)) t₀) id t size l =
      byte_array-Ends _ id t size a l
  encode_array_value-Ends v id t size l = tt

  encode_variant_value-Ends :
      (v : Value T) (id : TypeId) (vs : List VariantType)
      → All (λ v. IsUint w8 v.index × RegularFields v.fields) vs
      → All (λ v. All (λ f. rank f.ty < n) v.fields) vs
      → Ends (encode_variant_value c rec rec₀ v id vs)
  unfolding encode_variant_value Returns
  encode_variant_value-Ends (value (Value.variant name values) t) id vs r a =
      chosen-Ends _ _ (find (λ v. str_eq v.name name) vs) tt (λ v e.
        prefixed-Ends (c.encode_uint w8 v.index) (encode_composite_fields rec values v.fields id) (
          encode_composite_fields-Ends rank rec n k id v.fields values
            (find-All (λ v. IsUint w8 v.index × RegularFields v.fields) _ vs r e).1
            (find-All (λ v. All (λ f. rank f.ty < n) v.fields) _ vs a e)))
  encode_variant_value-Ends v id vs r a = tt

  encode_def-Ends :
      (types : PortableRegistry) (ranked : IsRanked rank types) (fuel : ℕ) (id : TypeId)
      (d : TypeDef) (v : Value T)
      → n ≤ fuel
      → RegularDef d
      → RefersBelow rank n d
      → Ends (encode_def c rec rec₀ types fuel id d v)
  unfolding encode_def
  encode_def-Ends types ranked fuel id (composite fs) v m r a =
      encode_composite_value-Ends rank rec n k id fs v r a
  encode_def-Ends types ranked fuel id (sequence t) v m r a = encode_sequence_value-Ends v id t a
  encode_def-Ends types ranked fuel id (array size t) v m r a =
      encode_array_value-Ends v id t size a
  encode_def-Ends types ranked fuel id (tuple ts) v m r a =
      encode_tuple_value-Ends rank rec n k id ts v a
  encode_def-Ends types ranked fuel id (variant vs) v m r a =
      encode_variant_value-Ends v id vs r.1 a
  encode_def-Ends types ranked fuel id (primitive p) v m r a = encode_primitive_value-Ends c v id p
  encode_def-Ends types ranked fuel id (compact t) v m r a =
      encode_compact_value-Ends T types rank ranked fuel v id t c (omega (arith, a, m))
  encode_def-Ends types ranked fuel id (bit_sequence s o) v m r a =
      encode_bitsequence_value-Ends c types v id s o

module _ (c : Codec) (types : PortableRegistry) (rank : TypeId → ℕ) (ranked : IsRanked rank types)
    (reg : IsRegular types) where
  -- Where every type of a regular registry refers to types of lower rank only, fuel above the rank
  -- of a type is enough to encode any value as that type: its bytes are written or there is an
  -- error, and there is no panic.
  pub encode_value_as_type-Returns :
      {T : Type 0} (fuel : ℕ) (id : TypeId) (v : Value T)
      → rank id < fuel
      → Returns (encode_value_as_type c types fuel id v).1
  unfolding encode_value_as_type Returns
  encode_value_as_type-Returns zero id v r = omega (arith, r)
  encode_value_as_type-Returns {T} (suc fuel) id v r =
      chosen-Ends _ _ (types.resolve id) tt (λ ty e.
        encode_def-Ends c rank (encode_value_as_type c types {T = T} fuel)
          (encode_value_as_type c types {T = Unit {0}} fuel) (rank id)
          (λ j s u. encode_value_as_type-Returns fuel j u (omega (arith, r, s)))
          (λ j s u. encode_value_as_type-Returns fuel j u (omega (arith, r, s))) types ranked fuel
          id ty.type_def v (omega (arith, r)) (reg.regular id ty e) (ranked.refers_below id ty e))

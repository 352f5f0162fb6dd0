-- ===== src/Decoder/Terminates.antt =====
-- node-api/src/decoder/decode.rs: with enough fuel, decoding a value returns a value or an error.
use substrate_api_client.Prelude.{ℕ, zero, suc, ◌≤◌, ◌<◌, ◌≡◌, some, [], ◌∷◌, Bytes, arith}
use substrate_api_client.Codec.{Codec, w8, w16, w32, w64, w128}
use substrate_api_client.Decoder.Registry.{
  TypeId, TypeDef, TypeDefPrimitive, ScaleType, PortableRegistry, composite, variant, sequence,
  array, tuple, primitive, compact, bit_sequence,
}
use substrate_api_client.Decoder.Value.{Value}
use substrate_api_client.Decoder.Decode.{
  Parser, invalid_char, char_from_u32, compact_width, decode_array_value, decode_tuple_value,
  decode_sequence_value, decode_primitive_value, compact_step, decode_compact, decode_compact_value,
  decode_bit_sequence_value, decode_def, decode_value_as_type,
}
use substrate_api_client.Decoder.Ends.{
  Returns, returned, failed, >>=-Returns, map_err-Returns, found-Returns, mapped-Returns,
  get_bitsequence_details-Returns, IsReturning, RefersBelow, IsRanked, decode_fields-Returns,
  decode_variant_value-Returns, decode_count-Returns, decode_types-Returns,
}

module _ (c : Codec) (l : IsReturning c) where
  decode_primitive_value-Returns :
      (p : TypeDefPrimitive) (b : Bytes) → Returns (decode_primitive_value c p b)
  unfolding decode_primitive_value
  decode_primitive_value-Returns TypeDefPrimitive.bool b =
      mapped-Returns _ _ (map_err-Returns _ _ (l.bool b))
  decode_primitive_value-Returns TypeDefPrimitive.char b =
      >>=-Returns _ _ (map_err-Returns _ _ (l.uint w32 b))
        (λ p. found-Returns (invalid_char p.0) (char_from_u32 p.0) _ (λ ch e. returned _ _ _))
  decode_primitive_value-Returns TypeDefPrimitive.str b =
      mapped-Returns _ _ (map_err-Returns _ _ (l.str b))
  decode_primitive_value-Returns TypeDefPrimitive.u8 b =
      mapped-Returns _ _ (map_err-Returns _ _ (l.uint w8 b))
  decode_primitive_value-Returns TypeDefPrimitive.u16 b =
      mapped-Returns _ _ (map_err-Returns _ _ (l.uint w16 b))
  decode_primitive_value-Returns TypeDefPrimitive.u32 b =
      mapped-Returns _ _ (map_err-Returns _ _ (l.uint w32 b))
  decode_primitive_value-Returns TypeDefPrimitive.u64 b =
      mapped-Returns _ _ (map_err-Returns _ _ (l.uint w64 b))
  decode_primitive_value-Returns TypeDefPrimitive.u128 b =
      mapped-Returns _ _ (map_err-Returns _ _ (l.uint w128 b))
  decode_primitive_value-Returns TypeDefPrimitive.u256 b =
      mapped-Returns _ _ (map_err-Returns _ _ (l.array32 b))
  decode_primitive_value-Returns TypeDefPrimitive.i8 b =
      mapped-Returns _ _ (map_err-Returns _ _ (l.int w8 b))
  decode_primitive_value-Returns TypeDefPrimitive.i16 b =
      mapped-Returns _ _ (map_err-Returns _ _ (l.int w16 b))
  decode_primitive_value-Returns TypeDefPrimitive.i32 b =
      mapped-Returns _ _ (map_err-Returns _ _ (l.int w32 b))
  decode_primitive_value-Returns TypeDefPrimitive.i64 b =
      mapped-Returns _ _ (map_err-Returns _ _ (l.int w64 b))
  decode_primitive_value-Returns TypeDefPrimitive.i128 b =
      mapped-Returns _ _ (map_err-Returns _ _ (l.int w128 b))
  decode_primitive_value-Returns TypeDefPrimitive.i256 b =
      mapped-Returns _ _ (map_err-Returns _ _ (l.array32 b))

  module _ (types : PortableRegistry) (rank : TypeId → ℕ) (ranked : IsRanked rank types) where
    compact_step-Returns :
        (rec : ScaleType → Parser _) (n : ℕ)
        → ((id : TypeId) (ty : ScaleType)
            → types.resolve id ≡ some ty
            → rank id < n
            → (b : Bytes) → Returns (rec ty b))
        → (inner : ScaleType) (d : TypeDef) → RefersBelow rank n d
        → (b : Bytes) → Returns (compact_step c types rec inner d b)
    unfolding compact_step
    compact_step-Returns rec n k inner (primitive p) r b =
        found-Returns _ (compact_width p) _
          (λ w e. >>=-Returns _ _ (map_err-Returns _ _ (l.compact w b)) (λ q. returned _ _ _))
    compact_step-Returns rec n k inner (composite (f ∷ [])) (r, _) b =
        found-Returns _ (types.resolve f.ty) _
          (λ t e. >>=-Returns _ _ (k f.ty t e r b) (λ p. returned _ _ _))
    compact_step-Returns rec n k inner (composite []) r b = failed _ _ _
    compact_step-Returns rec n k inner (composite (f ∷ g ∷ fs)) r b = failed _ _ _
    compact_step-Returns rec n k inner (variant vs) r b = failed _ _ _
    compact_step-Returns rec n k inner (sequence t) r b = failed _ _ _
    compact_step-Returns rec n k inner (array m t) r b = failed _ _ _
    compact_step-Returns rec n k inner (tuple ts) r b = failed _ _ _
    compact_step-Returns rec n k inner (compact t) r b = failed _ _ _
    compact_step-Returns rec n k inner (bit_sequence s o) r b = failed _ _ _

    decode_compact-Returns :
        (fuel : ℕ) (id : TypeId) (ty : ScaleType)
        → types.resolve id ≡ some ty
        → rank id < fuel
        → (b : Bytes) → Returns (decode_compact c types fuel ty b)
    unfolding decode_compact Returns
    decode_compact-Returns zero id ty e r b = omega (arith, r)
    decode_compact-Returns (suc fuel) id ty e r b =
        compact_step-Returns (decode_compact c types fuel) (rank id)
          (λ j t f s. decode_compact-Returns fuel j t f (omega (arith, r, s))) ty ty.type_def
          (ranked.refers_below id ty e) b

    decode_def-Returns :
        (rec : TypeId → Parser (Value TypeId)) (n fuel : ℕ)
        → ((id : TypeId) → rank id < n → (b : Bytes) → Returns (rec id b))
        → n ≤ fuel
        → (d : TypeDef) → RefersBelow rank n d
        → (b : Bytes) → Returns (decode_def c types rec fuel d b)
    unfolding decode_def decode_array_value decode_tuple_value decode_sequence_value
        decode_compact_value decode_bit_sequence_value
    decode_def-Returns rec n fuel k m (composite fs) r b =
        mapped-Returns _ _ (decode_fields-Returns rank rec n k fs r b)
    decode_def-Returns rec n fuel k m (sequence t) r b = mapped-Returns _ _ (
        >>=-Returns _ _ (map_err-Returns _ _ (l.compact w64 b))
          (λ p. mapped-Returns _ _ (decode_count-Returns rank rec n k p.0 t r p.1)))
    decode_def-Returns rec n fuel k m (array len t) r b =
        mapped-Returns _ _ (mapped-Returns _ _ (decode_count-Returns rank rec n k len t r b))
    decode_def-Returns rec n fuel k m (tuple ts) r b =
        mapped-Returns _ _ (mapped-Returns _ _ (decode_types-Returns rank rec n k ts r b))
    decode_def-Returns rec n fuel k m (variant vs) r b =
        mapped-Returns _ _ (decode_variant_value-Returns rank rec n k vs r b)
    decode_def-Returns rec n fuel k m (primitive p) r b =
        mapped-Returns _ _ (decode_primitive_value-Returns p b)
    decode_def-Returns rec n fuel k m (compact t) r b =
        found-Returns _ (types.resolve t) _
          (λ ty e. decode_compact-Returns fuel t ty e (omega (arith, r, m)) b)
    decode_def-Returns rec n fuel k m (bit_sequence s o) r b = mapped-Returns _ _ (
        >>=-Returns _ _ (map_err-Returns _ _ (get_bitsequence_details-Returns types s o))
          (λ p. map_err-Returns _ _ (l.bit_vec p.0 p.1 b)))

    -- When the codec's decoders return a value or an error, and every type of the registry refers
    -- to types of lower rank only, fuel above the rank of a type is enough: decoding bytes as that
    -- type returns a value or an error, whatever the bytes are.
    pub decode_value_as_type-Returns :
        (fuel : ℕ) (id : TypeId)
        → rank id < fuel
        → (b : Bytes) → Returns (decode_value_as_type c types fuel id b)
    unfolding decode_value_as_type Returns
    decode_value_as_type-Returns zero id r b = omega (arith, r)
    decode_value_as_type-Returns (suc fuel) id r b = found-Returns _ (types.resolve id) _ (λ ty e.
        >>=-Returns _ _
          (decode_def-Returns (decode_value_as_type c types fuel) (rank id) fuel
            (λ j s. decode_value_as_type-Returns fuel j (omega (arith, r, s))) (omega (arith, r))
            ty.type_def (ranked.refers_below id ty e) b)
          (λ p. tt))

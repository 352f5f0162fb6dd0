-- ===== src/Decoder/Decode.antt =====
-- node-api/src/decoder/decode.rs: bytes to values, by the shape of a type.
-- `&mut &[u8]` is the input, returned with what was read taken off; after an error nothing reads it.
-- The functions that call `decode_value_as_type` take that call as their argument `rec`.
use substrate_api_client.Prelude.{
  ℕ, zero, suc, ◌&&◌, ◌||◌, String, Bool, true, false, Option, none, some,
}
use substrate_api_client.Prelude.{List, [], ◌∷◌, map, Bytes, Result, ok, err, out_of_fuel, ◌>>=◌}
use substrate_api_client.Prelude.{map_err, ok_or, find, any, ltb, leb, ◌==◌, if◌then◌else◌}
use substrate_api_client.Codec.{Codec, CodecError, Width, w8, w16, w32, w64, w128}
use substrate_api_client.Decoder.Registry.{TypeId, TypeDef, TypeDefPrimitive, Field, VariantType}
use substrate_api_client.Decoder.Registry.{
  ScaleType, PortableRegistry, composite, variant, sequence,
}
use substrate_api_client.Decoder.Registry.{array, tuple, primitive, compact, bit_sequence}
use substrate_api_client.Decoder.BitSequence.{BitSequenceError, get_bitsequence_details}
use substrate_api_client.Decoder.Value
use substrate_api_client.Decoder.Value.{
  Primitive, Value, ValueDef, Composite, value, named, unnamed,
}
use substrate_api_client.Decoder.Value.{from_list, from_pairs}
use mathlib.Core.Option.{get_or}

pub data DecodeError : Type 0 where
  codec_error : CodecError → DecodeError
  invalid_char : ℕ → DecodeError
  type_id_not_found : TypeId → DecodeError
  eof : DecodeError
  variant_not_found : ℕ → List VariantType → DecodeError
  cannot_decode_compact_into_type : ScaleType → DecodeError
  bit_sequence_error : BitSequenceError → DecodeError

abbrev pub Parser : Type 0 → Type 0
Parser A = Bytes → Result DecodeError (A × Bytes)

abbrev pub mapped :
    {A B : Type 0} → (A → B) → Result DecodeError (A × Bytes) → Result DecodeError (B × Bytes)
mapped f r = r >>= λ p. ok (f p.0, p.1)

-- `char::from_u32`: not above the last code point, and no surrogate.
unfoldable pub char_from_u32 : ℕ → Option ℕ
char_from_u32 n = if ltb n 0xd800 || (leb 0xe000 n && ltb n 0x110000) then some n else none

abbrev pub is_some : {A : Type 0} → Option A → Bool
is_some none = false
is_some (some a) = true

module _ (rec : TypeId → Parser (Value TypeId)) where
  -- The fields in order, each with its name or the empty one.
  unfoldable pub decode_each : List Field → Parser (List (String × Value TypeId))
  decode_each [] bytes = ok ([], bytes)
  decode_each (f ∷ fs) bytes = do
    (v, bytes₁) ← rec f.ty bytes
    (vs, bytes₂) ← decode_each fs bytes₁
    ok ((get_or f.name "", v) ∷ vs, bytes₂)

  unfoldable pub decode_fields : List Field → Parser (Composite TypeId)
  unfolding decode_each
  decode_fields fields bytes = do
    (vals, rest) ← decode_each fields bytes
    ok (
      if any (λ f. is_some f.name) fields
          then named (from_pairs vals)
          else unnamed (from_list (map (λ p. p.1) vals)),
      rest,
    )

  unfoldable pub decode_variant_value : List VariantType → Parser (String × Composite TypeId)
  unfolding decode_fields
  decode_variant_value variants [] = err eof
  decode_variant_value variants (index ∷ bytes) = do
    v ← ok_or (variant_not_found index variants) (find (λ v. v.index == index) variants)
    (fields, rest) ← decode_fields v.fields bytes
    ok ((v.name, fields), rest)

  -- `(0..n).map(|_| decode_value_as_type(…))`, collected
  unfoldable pub decode_count : ℕ → TypeId → Parser (List (Value TypeId))
  decode_count zero ty bytes = ok ([], bytes)
  decode_count (suc n) ty bytes = do
    (v, bytes₁) ← rec ty bytes
    (vs, bytes₂) ← decode_count n ty bytes₁
    ok (v ∷ vs, bytes₂)

  unfoldable pub decode_array_value : ℕ → TypeId → Parser (Composite TypeId)
  unfolding decode_count
  decode_array_value len ty bytes =
      mapped (λ vs. unnamed (from_list vs)) (decode_count len ty bytes)

  unfoldable pub decode_types : List TypeId → Parser (List (Value TypeId))
  decode_types [] bytes = ok ([], bytes)
  decode_types (ty ∷ tys) bytes = do
    (v, bytes₁) ← rec ty bytes
    (vs, bytes₂) ← decode_types tys bytes₁
    ok (v ∷ vs, bytes₂)

  unfoldable pub decode_tuple_value : List TypeId → Parser (Composite TypeId)
  unfolding decode_types
  decode_tuple_value tys bytes = mapped (λ vs. unnamed (from_list vs)) (decode_types tys bytes)

-- The unsigned types that `Compact` decodes.
abbrev pub compact_width : TypeDefPrimitive → Option Width
compact_width TypeDefPrimitive.u8 = some w8
compact_width TypeDefPrimitive.u16 = some w16
compact_width TypeDefPrimitive.u32 = some w32
compact_width TypeDefPrimitive.u64 = some w64
compact_width TypeDefPrimitive.u128 = some w128
compact_width _ = none

module _ (c : Codec) where
  unfoldable pub decode_sequence_value :
      (TypeId → Parser (Value TypeId)) → TypeId → Parser (Composite TypeId)
  unfolding decode_count
  decode_sequence_value rec ty bytes = do
    (len, bytes₁) ← map_err codec_error (c.decode_compact w64 bytes)
    mapped (λ vs. unnamed (from_list vs)) (decode_count rec len ty bytes₁)

  abbrev uint : Width → Parser Primitive
  uint w bytes = mapped Primitive.u128 (map_err codec_error (c.decode_uint w bytes))

  abbrev int : Width → Parser Primitive
  int w bytes = mapped Primitive.i128 (map_err codec_error (c.decode_int w bytes))

  unfoldable pub decode_primitive_value : TypeDefPrimitive → Parser Primitive
  unfolding char_from_u32
  decode_primitive_value TypeDefPrimitive.bool bytes =
      mapped Primitive.bool (map_err codec_error (c.decode_bool bytes))
  decode_primitive_value TypeDefPrimitive.char bytes = do
    (n, rest) ← map_err codec_error (c.decode_uint w32 bytes)
    ch ← ok_or (invalid_char n) (char_from_u32 n)
    ok (Primitive.char ch, rest)
  decode_primitive_value TypeDefPrimitive.str bytes =
      mapped Primitive.string (map_err codec_error (c.decode_str bytes))
  decode_primitive_value TypeDefPrimitive.u8 bytes = uint w8 bytes
  decode_primitive_value TypeDefPrimitive.u16 bytes = uint w16 bytes
  decode_primitive_value TypeDefPrimitive.u32 bytes = uint w32 bytes
  decode_primitive_value TypeDefPrimitive.u64 bytes = uint w64 bytes
  decode_primitive_value TypeDefPrimitive.u128 bytes = uint w128 bytes
  decode_primitive_value TypeDefPrimitive.u256 bytes =
      mapped Primitive.u256 (map_err codec_error (c.decode_array32 bytes))
  decode_primitive_value TypeDefPrimitive.i8 bytes = int w8 bytes
  decode_primitive_value TypeDefPrimitive.i16 bytes = int w16 bytes
  decode_primitive_value TypeDefPrimitive.i32 bytes = int w32 bytes
  decode_primitive_value TypeDefPrimitive.i64 bytes = int w64 bytes
  decode_primitive_value TypeDefPrimitive.i128 bytes = int w128 bytes
  decode_primitive_value TypeDefPrimitive.i256 bytes =
      mapped Primitive.i256 (map_err codec_error (c.decode_array32 bytes))

-- The vector around the one value of a single-field composite.
abbrev pub wrap_field : Option String → Value TypeId → Composite TypeId
wrap_field (some n) v = named (from_pairs ((n, v) ∷ []))
wrap_field none v = unnamed (from_list (v ∷ []))

module _ (c : Codec) (types : PortableRegistry) where
  abbrev resolved : TypeId → Result DecodeError ScaleType
  resolved id = ok_or (type_id_not_found id) (types.resolve id)

  -- One call of the inner `decode_compact`; `rec` is its call on the type of the only field.
  unfoldable pub compact_step :
      (ScaleType → Parser (ValueDef TypeId)) → ScaleType → TypeDef → Parser (ValueDef TypeId)
  compact_step rec inner (primitive p) bytes = do
    w ← ok_or (cannot_decode_compact_into_type inner) (compact_width p)
    (n, rest) ← map_err codec_error (c.decode_compact w bytes)
    ok (Value.primitive (Primitive.u128 n), rest)
  compact_step rec inner (composite (f ∷ [])) bytes = do
    inner_ty ← resolved f.ty
    (d, rest) ← rec inner_ty bytes
    ok (Value.composite (wrap_field f.name (value d f.ty)), rest)
  compact_step rec inner _ bytes = err (cannot_decode_compact_into_type inner)

  unfoldable pub decode_compact : ℕ → ScaleType → Parser (ValueDef TypeId)
  unfolding compact_step
  decode_compact zero inner bytes = out_of_fuel
  decode_compact (suc fuel) inner bytes =
      compact_step (decode_compact fuel) inner inner.type_def bytes

  unfoldable pub decode_compact_value : ℕ → TypeId → Parser (ValueDef TypeId)
  unfolding decode_compact
  decode_compact_value fuel id bytes = do inner ← resolved id; decode_compact fuel inner bytes

  unfoldable pub decode_bit_sequence_value : TypeId → TypeId → Parser (List Bool)
  unfolding get_bitsequence_details
  decode_bit_sequence_value store order bytes = do
    (o, s) ← map_err bit_sequence_error (get_bitsequence_details store order types)
    map_err codec_error (c.decode_bits o s bytes)

  -- The match of `decode_value_as_type` on the type's definition.
  unfoldable pub decode_def :
      (TypeId → Parser (Value TypeId)) → ℕ → TypeDef → Parser (ValueDef TypeId)
  unfolding decode_fields decode_sequence_value decode_array_value decode_tuple_value
      decode_variant_value decode_primitive_value decode_compact_value decode_bit_sequence_value
  decode_def rec fuel (composite fields) bytes =
      mapped Value.composite (decode_fields rec fields bytes)
  decode_def rec fuel (sequence ty) bytes =
      mapped Value.composite (decode_sequence_value c rec ty bytes)
  decode_def rec fuel (array len ty) bytes =
      mapped Value.composite (decode_array_value rec len ty bytes)
  decode_def rec fuel (tuple tys) bytes = mapped Value.composite (decode_tuple_value rec tys bytes)
  decode_def rec fuel (variant vs) bytes =
      mapped (λ v. Value.variant v.0 v.1) (decode_variant_value rec vs bytes)
  decode_def rec fuel (primitive p) bytes =
      mapped Value.primitive (decode_primitive_value c p bytes)
  decode_def rec fuel (compact ty) bytes = decode_compact_value fuel ty bytes
  decode_def rec fuel (bit_sequence store order) bytes =
      mapped Value.bit_sequence (decode_bit_sequence_value store order bytes)

  -- The fuel bounds how deep types nest.
  unfoldable pub decode_value_as_type : ℕ → TypeId → Parser (Value TypeId)
  unfolding decode_def
  decode_value_as_type zero id bytes = out_of_fuel
  decode_value_as_type (suc fuel) id bytes = do
    ty ← resolved id
    (d, rest) ← decode_def (decode_value_as_type fuel) fuel ty.type_def bytes
    ok (value d id, rest)

-- ===== src/Decoder/Encode/Shapes.antt =====
-- node-api/src/decoder/encode.rs: sequences, arrays, variants, and the match on a type's shape.
use substrate_api_client.Decoder.Encode.Writer.{Written, written, failed, followed, or_fail}
use substrate_api_client.Decoder.Encode.Fields.{
  EncodeError, Encoder, type_id_not_found, wrong_shape, variant_not_found,
}
use substrate_api_client.Decoder.Encode.Fields.{
  composite_is_wrong_length, encode_values, encode_composite_fields, encode_composite_value,
  encode_tuple_value,
}
use substrate_api_client.Decoder.Encode.Scalars.{
  encode_primitive_value, encode_compact_value, encode_bitsequence_value,
}
use substrate_api_client.Prelude.{ℕ, zero, suc, none, some, not}
use substrate_api_client.Prelude.{
  List, [], ◌∷◌, Bytes, out_of_fuel, find, length, ◌==◌, str_eq, if◌then◌else◌,
}
use substrate_api_client.Codec.{Codec, w8, w64}
use substrate_api_client.Decoder.Registry.{TypeId, TypeDef, VariantType, PortableRegistry}
use substrate_api_client.Decoder.Registry.{
  composite, variant, sequence, array, tuple, primitive, compact, bit_sequence,
}
use substrate_api_client.Decoder.Value
use substrate_api_client.Decoder.Value.{Primitive, Value, Composite, value, len, into_values}

-- `rec₀` is the call at `Value<()>`, the type of `Value::uint(…)`.
module _ {T : Type 0} (rec₀ : Encoder (Unit {0})) where
  -- The bytes of a 256 bit integer `v`, each encoded as a number of its own. Where one fails, the
  -- error is about the integer.
  unfoldable pub encode_bytes : Value T → TypeId → TypeId → Bytes → Written (EncodeError T)
  encode_bytes v id ty [] = written []
  encode_bytes v id ty (b ∷ bs) =
      followed
        (or_fail (wrong_shape v id) (rec₀ ty (value (Value.primitive (Primitive.u128 b)) tt)))
        (encode_bytes v id ty bs)

module _ {T : Type 0} (c : Codec) (rec : Encoder T) (rec₀ : Encoder (Unit {0})) where
  abbrev byte_sequence : Value T → TypeId → TypeId → Bytes → Written (EncodeError T)
  byte_sequence v id ty a =
      followed (written (c.encode_compact w64 (length a))) (encode_bytes rec₀ v id ty a)

  unfoldable pub encode_sequence_value : Value T → TypeId → TypeId → Written (EncodeError T)
  unfolding encode_values encode_bytes len into_values
  encode_sequence_value (value (Value.composite vs) t) id ty =
      followed (written (c.encode_compact w64 (len vs))) (encode_values rec ty (into_values vs))
  encode_sequence_value (value (Value.primitive (Primitive.u256 a)) t) id ty =
      byte_sequence (value (Value.primitive (Primitive.u256 a)) t) id ty a
  encode_sequence_value (value (Value.primitive (Primitive.i256 a)) t) id ty =
      byte_sequence (value (Value.primitive (Primitive.i256 a)) t) id ty a
  encode_sequence_value v id ty = failed (wrong_shape v id)

  abbrev byte_array : Value T → TypeId → ℕ → TypeId → Bytes → Written (EncodeError T)
  byte_array v id size ty a =
      if not (length a == size) then failed (wrong_shape v id) else encode_bytes rec₀ v id ty a

  unfoldable pub encode_array_value : Value T → TypeId → ℕ → TypeId → Written (EncodeError T)
  unfolding encode_values encode_bytes len into_values
  encode_array_value (value (Value.composite vs) t) id size ty =
      if not (len vs == size)
      then failed (composite_is_wrong_length vs id size)
      else encode_values rec ty (into_values vs)
  encode_array_value (value (Value.primitive (Primitive.u256 a)) t) id size ty =
      byte_array (value (Value.primitive (Primitive.u256 a)) t) id size ty a
  encode_array_value (value (Value.primitive (Primitive.i256 a)) t) id size ty =
      byte_array (value (Value.primitive (Primitive.i256 a)) t) id size ty a
  encode_array_value v id size ty = failed (wrong_shape v id)

  unfoldable pub encode_variant_value :
      Value T → TypeId → List VariantType → Written (EncodeError T)
  unfolding encode_composite_fields
  encode_variant_value (value (Value.variant name values) t) id variants =
      elim (find (λ v. str_eq v.name name) variants) [
        | none ↦ failed (variant_not_found name values id)
        | some v ↦
            followed (written (c.encode_uint w8 v.index))
              (encode_composite_fields rec values v.fields id)
      ]
  encode_variant_value v id variants = failed (wrong_shape v id)

  -- The match of `encode_value_as_type` on the type's definition.
  unfoldable pub encode_def :
      PortableRegistry → ℕ → TypeId → TypeDef → Value T → Written (EncodeError T)
  unfolding encode_composite_value encode_sequence_value encode_array_value encode_tuple_value
      encode_variant_value encode_primitive_value encode_compact_value encode_bitsequence_value
  encode_def types fuel id (composite fields) v = encode_composite_value rec v id fields
  encode_def types fuel id (sequence ty) v = encode_sequence_value v id ty
  encode_def types fuel id (array size ty) v = encode_array_value v id size ty
  encode_def types fuel id (tuple tys) v = encode_tuple_value rec v id tys
  encode_def types fuel id (variant vs) v = encode_variant_value v id vs
  encode_def types fuel id (primitive p) v = encode_primitive_value c v id p
  encode_def types fuel id (compact ty) v = encode_compact_value c types fuel v id ty
  encode_def types fuel id (bit_sequence store order) v =
      encode_bitsequence_value c types v id store order

module _ (c : Codec) (types : PortableRegistry) where
  -- The fuel bounds how deep types nest.
  unfoldable pub encode_value_as_type : {T : Type 0} → ℕ → Encoder T
  unfolding encode_def
  encode_value_as_type zero id v = ([], out_of_fuel)
  encode_value_as_type {T} (suc fuel) id v = elim (types.resolve id) [
    | none ↦ failed (type_id_not_found id)
    | some ty ↦
        encode_def c (encode_value_as_type {T = T} fuel) (encode_value_as_type {T = Unit {0}} fuel)
          types fuel id ty.type_def v
  ]

-- ===== src/Decoder/Encode/Fields.antt =====
-- node-api/src/decoder/encode.rs: errors, fields, composites and tuples.
-- The functions that call `encode_value_as_type` take that call as `rec`.
use substrate_api_client.Decoder.Encode.Writer.{Written, written, failed, followed}
use substrate_api_client.Decoder.Encode.Named.{take_named}
use substrate_api_client.Prelude.{ℕ, String, Bool, true, false, none, some, not}
use substrate_api_client.Prelude.{List, [], ◌∷◌, panic}
use substrate_api_client.Prelude.{length, ◌==◌, if◌then◌else◌}
use substrate_api_client.Decoder.Registry.{TypeId, Field}
use substrate_api_client.Decoder.BitSequence.{BitSequenceError}
use substrate_api_client.Decoder.Value
use substrate_api_client.Decoder.Value.{
  Primitive, Value, ValueDef, Composite, Values, value, named, unnamed,
}
use substrate_api_client.Decoder.Value.{
  to_list, to_pairs, from_pairs, from_list, len, is_empty, into_values,
}
use substrate_api_client.Decoder.Decode.{is_some}

pub data EncodeError (T : Type 0) : Type 0 where
  composite_is_wrong_length : Composite T → TypeId → ℕ → EncodeError T
  composite_is_wrong_shape : Composite T → TypeId → EncodeError T
  variant_not_found : String → Composite T → TypeId → EncodeError T
  composite_field_is_missing : String → TypeId → EncodeError T
  type_id_not_found : TypeId → EncodeError T
  wrong_shape : Value T → TypeId → EncodeError T
  bit_sequence_error : BitSequenceError → EncodeError T
  cannot_compact_encode : TypeId → EncodeError T

-- A call of `encode_value_as_type`, with the registry and the buffer left out.
abbrev pub Encoder : Type 0 → Type 0
Encoder T = TypeId → Value T → Written (EncodeError T)

module _ {T : Type 0} (rec : Encoder T) where
  -- Named values are matched up by name, in the order of the type's fields.
  unfoldable pub encode_named :
      TypeId → List Field → List (String × Value T) → Written (EncodeError T)
  encode_named id [] values = written []
  encode_named id (f ∷ fs) values = elim f.name [
    | none ↦ ([], panic)
    | some n ↦ elim (take_named n values) [
      | none ↦ failed (composite_field_is_missing n id)
      | some (v, rest) ↦ followed (rec f.ty v) (encode_named id fs rest)
    ]
  ]

  -- `fields.iter().zip(values)`
  unfoldable pub encode_unnamed : List Field → List (Value T) → Written (EncodeError T)
  encode_unnamed [] values = written []
  encode_unnamed (f ∷ fs) [] = written []
  encode_unnamed (f ∷ fs) (v ∷ values) = followed (rec f.ty v) (encode_unnamed fs values)

  -- The match on the values and on whether the type's first field has a name.
  unfoldable pub encode_matched : TypeId → List Field → Composite T → Bool → Written (EncodeError T)
  unfolding encode_named encode_unnamed
  encode_matched id fields (named values) true = encode_named id fields (to_pairs values)
  encode_matched id fields (unnamed values) false = encode_unnamed fields (to_list values)
  encode_matched id fields values _ = failed (composite_is_wrong_shape values id)

  abbrev pub first_is_named : List Field → Bool
  first_is_named [] = false
  first_is_named (f ∷ fs) = is_some f.name

  unfoldable pub encode_composite_fields :
      Composite T → List Field → TypeId → Written (EncodeError T)
  unfolding encode_matched len is_empty
  encode_composite_fields c fields id =
      if not (length fields == len c)
      then failed (composite_is_wrong_length c id (length fields))
      else if is_empty c
      then written []
      else encode_matched id fields c (first_is_named fields)

  -- What is not a composite goes into the only field of a single-field type.
  abbrev pub encode_only : TypeId → List TypeId → Value T → Written (EncodeError T)
  encode_only id (ty ∷ []) v = rec ty v
  encode_only id _ v = failed (wrong_shape v id)

  abbrev pub field_types : List Field → List TypeId
  field_types [] = []
  field_types (f ∷ fs) = f.ty ∷ field_types fs

  unfoldable pub encode_composite_value : Value T → TypeId → List Field → Written (EncodeError T)
  unfolding encode_composite_fields
  encode_composite_value (value (Value.composite c) t) id fields =
      encode_composite_fields c fields id
  encode_composite_value v id fields = encode_only id (field_types fields) v

  -- The values one after the other, all of one type.
  unfoldable pub encode_values : TypeId → List (Value T) → Written (EncodeError T)
  encode_values ty [] = written []
  encode_values ty (v ∷ vs) = followed (rec ty v) (encode_values ty vs)

  -- `ty.fields().iter().zip(composite.into_values())`
  unfoldable pub encode_types : List TypeId → List (Value T) → Written (EncodeError T)
  encode_types [] vs = written []
  encode_types (ty ∷ tys) [] = written []
  encode_types (ty ∷ tys) (v ∷ vs) = followed (rec ty v) (encode_types tys vs)

  unfoldable pub encode_tuple_value : Value T → TypeId → List TypeId → Written (EncodeError T)
  unfolding encode_types len into_values
  encode_tuple_value (value (Value.composite c) t) id tys =
      if not (len c == length tys)
      then failed (composite_is_wrong_length c id (length tys))
      else encode_types tys (into_values c)
  encode_tuple_value v id tys = encode_only id tys v

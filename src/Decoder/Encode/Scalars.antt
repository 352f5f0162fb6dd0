-- ===== src/Decoder/Encode/Scalars.antt =====
-- node-api/src/decoder/encode.rs: primitive, compact and bit sequence values.
use substrate_api_client.Decoder.Encode.Writer.{Written, written, failed}
use substrate_api_client.Decoder.Encode.Fields.{
  EncodeError, type_id_not_found, wrong_shape, bit_sequence_error, cannot_compact_encode,
}
use substrate_api_client.Prelude.{ℕ, zero, suc, ◌^◌, Bool, Option, none, some}
use substrate_api_client.Prelude.{List, [], ◌∷◌, Bytes, Result, ok, err, panic, out_of_fuel, ◌>>=◌}
use substrate_api_client.Prelude.{map_err, ok_or, ltb, if◌then◌else◌}
use substrate_api_client.Prelude.Int.{ℤ, pos, negsuc}
use substrate_api_client.Codec.{Codec, Width, w8, w16, w32, w64, w128, bits, half_range}
use substrate_api_client.Decoder.Registry.{TypeId, TypeDef, TypeDefPrimitive}
use substrate_api_client.Decoder.Registry.{PortableRegistry, composite, tuple, primitive}
use substrate_api_client.Decoder.BitSequence.{get_bitsequence_details}
use substrate_api_client.Decoder.Value
use substrate_api_client.Decoder.Value.{
  Primitive, Value, Composite, Values, NamedValues, value, named, unnamed, cons, nil, field, end,
}
use substrate_api_client.Decoder.Decode.{compact_width}
use mathlib.Core.Option

-- `primitive_to_integer!` at an unsigned type: `try_into`, or no number at all.
unfoldable pub primitive_to_uint : Width → Primitive → Option ℕ
primitive_to_uint w (Primitive.u128 n) = if ltb n (2 ^ bits w) then some n else none
primitive_to_uint w (Primitive.i128 (pos n)) = if ltb n (2 ^ bits w) then some n else none
primitive_to_uint w (Primitive.char n) = if ltb n (2 ^ bits w) then some n else none
primitive_to_uint w _ = none

-- … and at a signed type.
unfoldable pub primitive_to_int : Width → Primitive → Option ℤ
primitive_to_int w (Primitive.u128 n) = if ltb n (half_range w) then some (pos n) else none
primitive_to_int w (Primitive.i128 (pos n)) = if ltb n (half_range w) then some (pos n) else none
primitive_to_int w (Primitive.i128 (negsuc n)) =
    if ltb n (half_range w) then some (negsuc n) else none
primitive_to_int w (Primitive.char n) = if ltb n (half_range w) then some (pos n) else none
primitive_to_int w _ = none

module _ (c : Codec) where
  -- The match of `encode_primitive_value`; `none` stands for its `WrongShape` errors, which are
  -- all the same.
  unfoldable pub primitive_bytes : TypeDefPrimitive → Primitive → Option Bytes
  unfolding primitive_to_uint primitive_to_int
  primitive_bytes TypeDefPrimitive.bool (Primitive.bool b) = some (c.encode_bool b)
  primitive_bytes TypeDefPrimitive.char (Primitive.char ch) = some (c.encode_uint w32 ch)
  primitive_bytes TypeDefPrimitive.str (Primitive.string s) = some (c.encode_str s)
  primitive_bytes TypeDefPrimitive.i256 (Primitive.i256 a) = some (c.encode_array32 a)
  primitive_bytes TypeDefPrimitive.u256 (Primitive.u256 a) = some (c.encode_array32 a)
  primitive_bytes TypeDefPrimitive.u8 p = Option.map (c.encode_uint w8) (primitive_to_uint w8 p)
  primitive_bytes TypeDefPrimitive.u16 p = Option.map (c.encode_uint w16) (primitive_to_uint w16 p)
  primitive_bytes TypeDefPrimitive.u32 p = Option.map (c.encode_uint w32) (primitive_to_uint w32 p)
  primitive_bytes TypeDefPrimitive.u64 p = Option.map (c.encode_uint w64) (primitive_to_uint w64 p)
  primitive_bytes TypeDefPrimitive.u128 p =
      Option.map (c.encode_uint w128) (primitive_to_uint w128 p)
  primitive_bytes TypeDefPrimitive.i8 p = Option.map (c.encode_int w8) (primitive_to_int w8 p)
  primitive_bytes TypeDefPrimitive.i16 p = Option.map (c.encode_int w16) (primitive_to_int w16 p)
  primitive_bytes TypeDefPrimitive.i32 p = Option.map (c.encode_int w32) (primitive_to_int w32 p)
  primitive_bytes TypeDefPrimitive.i64 p = Option.map (c.encode_int w64) (primitive_to_int w64 p)
  primitive_bytes TypeDefPrimitive.i128 p = Option.map (c.encode_int w128) (primitive_to_int w128 p)
  primitive_bytes _ p = none

  unfoldable pub encode_primitive_value :
      {T : Type 0} → Value T → TypeId → TypeDefPrimitive → Written (EncodeError T)
  unfolding primitive_bytes
  encode_primitive_value (value (Value.primitive p) t) id ty = elim (primitive_bytes ty p) [
    | none ↦ failed (wrong_shape (value (Value.primitive p) t) id)
    | some w ↦ written w
  ]
  encode_primitive_value v id ty = failed (wrong_shape v id)

module _ (types : PortableRegistry) where
  -- One round of the loop that resolves the type inside a compact type, at its definition; `rec` is
  -- the next round.
  abbrev pub resolve_step :
      {T : Type 0}
      → (TypeId → Result (EncodeError T) (Width × TypeId))
      → TypeId
      → TypeDef
      → Result (EncodeError T) (Width × TypeId)
  resolve_step rec id (composite (f ∷ [])) = rec f.ty
  resolve_step rec id (tuple (ty ∷ [])) = rec ty
  resolve_step rec id (primitive p) =
      ok_or (cannot_compact_encode id) (Option.map (λ w. (w, id)) (compact_width p))
  resolve_step rec id _ = err (cannot_compact_encode id)

  -- The width to encode, and the ID of the type that has it.
  unfoldable pub resolve_compact :
      {T : Type 0} → ℕ → TypeId → Result (EncodeError T) (Width × TypeId)
  resolve_compact zero id = out_of_fuel
  resolve_compact (suc fuel) id = do
    ty ← ok_or (type_id_not_found id) (types.resolve id)
    resolve_step (resolve_compact fuel) id ty.type_def

-- The loop that unwraps composites of one value down to a primitive, with the context it has there.
unfoldable pub innermost : {T : Type 0} → Value T → TypeId → Result (EncodeError T) (Primitive × T)
innermost (value (Value.composite (unnamed (cons v nil))) t) id = innermost v id
innermost (value (Value.composite (named (field n v end))) t) id = innermost v id
innermost (value (Value.primitive p) t) id = ok (p, t)
innermost v id = err (wrong_shape v id)

-- The bits that a bit sequence or a vector of Booleans stands for.
abbrev pub bools_of : {T : Type 0} → TypeId → List (Value T) → Result (EncodeError T) (List Bool)
bools_of id [] = ok []
bools_of id (value (Value.primitive (Primitive.bool b)) t ∷ vs) =
    bools_of id vs >>= λ bs. ok (b ∷ bs)
bools_of id (v ∷ vs) = err (wrong_shape v id)

abbrev pub to_bools : {T : Type 0} → TypeId → Value T → Result (EncodeError T) (List Bool)
to_bools id (value (Value.bit_sequence bs) t) = ok bs
to_bools id (value (Value.composite (unnamed vs)) t) = bools_of id (Value.to_list vs)
to_bools id v = err (wrong_shape v id)

-- A result that writes nothing where it fails.
abbrev pub finished : {E : Type 0} → Result E Bytes → Written E
finished (ok w) = written w
finished (err e) = failed e
finished panic = ([], panic)
finished out_of_fuel = ([], out_of_fuel)

module _ (c : Codec) (types : PortableRegistry) where
  unfoldable pub encode_compact_value :
      {T : Type 0} → ℕ → Value T → TypeId → TypeId → Written (EncodeError T)
  unfolding resolve_compact innermost primitive_to_uint
  encode_compact_value fuel v id inner = finished do
    (w, inner_id) ← resolve_compact types fuel inner
    (p, t) ← innermost v inner_id
    n ← ok_or (wrong_shape (value (Value.primitive p) t) id) (primitive_to_uint w p)
    ok (c.encode_compact w n)

  unfoldable pub encode_bitsequence_value :
      {T : Type 0} → Value T → TypeId → TypeId → TypeId → Written (EncodeError T)
  unfolding get_bitsequence_details
  encode_bitsequence_value v id store order = finished do
    bools ← to_bools id v
    (o, s) ← map_err bit_sequence_error (get_bitsequence_details store order types)
    ok (c.encode_bits o s bools)

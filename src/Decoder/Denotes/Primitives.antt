-- ===== src/Decoder/Denotes/Primitives.antt =====
-- node-api/src/decoder/encode.rs: primitive values are written as what they denote.
use substrate_api_client.Prelude.{ℕ, ◌≡◌, refl, some, ◌++◌, arith, Bytes, ok, map_err, lt→ltb}
use substrate_api_client.Prelude.Int.{ℤ, pos, negsuc}
use substrate_api_client.Codec.{Codec, IsLawful, Width, w8, w16, w32, w64, w128, IsUint, IsInt}
use substrate_api_client.Decoder.Registry.{TypeId, TypeDefPrimitive}
use substrate_api_client.Decoder.Value
use substrate_api_client.Decoder.Value.{Primitive, Value, ValueDef, value, unnamed, named, to_list}
use substrate_api_client.Decoder.Decode.{codec_error, char_from_u32, decode_primitive_value, mapped}
use substrate_api_client.Decoder.Encode.{
  primitive_to_uint, primitive_to_int, primitive_bytes, encode_primitive_value,
}
use substrate_api_client.Decoder.RoundTrip.Pieces.{Reencodes}
use substrate_api_client.Decoder.Denotes.{number_of, UintAs, IntAs, PrimitiveAs}
use mathlib.Core.Option

pub primitive_to_uint-number_of :
    (w : Width) (p : Primitive) (n : ℕ)
    → number_of p ≡ some (pos n)
    → IsUint w n
    → primitive_to_uint w p ≡ some n
unfolding primitive_to_uint
primitive_to_uint-number_of w (Primitive.u128 m) n h l = let e : m ≡ n = cc in rw (e, lt→ltb _ _ l)
primitive_to_uint-number_of w (Primitive.i128 z) n h l =
    let e : z ≡ pos n = cc in rw (e, lt→ltb _ _ l)
primitive_to_uint-number_of w (Primitive.char m) n h l = let e : m ≡ n = cc in rw (e, lt→ltb _ _ l)
primitive_to_uint-number_of w (Primitive.bool b) n h l = cc
primitive_to_uint-number_of w (Primitive.string b) n h l = cc
primitive_to_uint-number_of w (Primitive.u256 b) n h l = cc
primitive_to_uint-number_of w (Primitive.i256 b) n h l = cc

primitive_to_int-number_of :
    (w : Width) (p : Primitive) (z : ℤ)
    → number_of p ≡ some z
    → IsInt w z
    → primitive_to_int w p ≡ some z
unfolding primitive_to_int
primitive_to_int-number_of w (Primitive.u128 m) z h l =
    let e : z ≡ pos m = cc in rw e (rw (lt→ltb _ _ (rw e at l)))
primitive_to_int-number_of w (Primitive.i128 (pos m)) z h l =
    let e : z ≡ pos m = cc in rw e (rw (lt→ltb _ _ (rw e at l)))
primitive_to_int-number_of w (Primitive.i128 (negsuc m)) z h l =
    let e : z ≡ negsuc m = cc in rw e (rw (lt→ltb _ _ (rw e at l)))
primitive_to_int-number_of w (Primitive.char m) z h l =
    let e : z ≡ pos m = cc in rw e (rw (lt→ltb _ _ (rw e at l)))
primitive_to_int-number_of w (Primitive.bool b) n h l = cc
primitive_to_int-number_of w (Primitive.string b) n h l = cc
primitive_to_int-number_of w (Primitive.u256 b) n h l = cc
primitive_to_int-number_of w (Primitive.i256 b) n h l = cc

char_from_u32-IsUint : (n : ℕ) → char_from_u32 n ≡ some n → IsUint w32 n
unfolding char_from_u32
char_from_u32-IsUint n h = ground arith

module _ (c : Codec) (lawful : IsLawful c) where
  -- What the primitive decoder reads from the bytes that the primitive encoder writes.
  abbrev WrittenAs : TypeDefPrimitive → Primitive → Primitive → Type 0
  WrittenAs ty p p' =
      (v : Bytes) × (primitive_bytes c ty p ≡ some v)
      × ((more : Bytes) → decode_primitive_value c ty (v ++ more) ≡ ok (p', more))

  uint_case :
      (w : Width) (p p' : Primitive)
      → UintAs w p p'
      → (v : Bytes) × (Option.map (c.encode_uint w) (primitive_to_uint w p) ≡ some v)
        × ((more : Bytes)
            → mapped Primitive.u128 (map_err codec_error (c.decode_uint w (v ++ more)))
              ≡ ok (p', more))
  uint_case w p p' (n, e, range, is_p) = (
    c.encode_uint w n,
    rw (primitive_to_uint-number_of w p n e range),
    λ more. rw (lawful.uint w n range more, is_p),
  )

  int_case :
      (w : Width) (p p' : Primitive)
      → IntAs w p p'
      → (v : Bytes) × (Option.map (c.encode_int w) (primitive_to_int w p) ≡ some v)
        × ((more : Bytes)
            → mapped Primitive.i128 (map_err codec_error (c.decode_int w (v ++ more)))
              ≡ ok (p', more))
  int_case w p p' (n, e, range, is_p) = (
    c.encode_int w n,
    rw (primitive_to_int-number_of w p n e range),
    λ more. rw (lawful.int w n range more, is_p),
  )

  PrimitiveAs-WrittenAs :
      (ty : TypeDefPrimitive) (p p' : Primitive) → PrimitiveAs ty p p' → WrittenAs ty p p'
  unfolding decode_primitive_value primitive_bytes
  PrimitiveAs-WrittenAs TypeDefPrimitive.bool p p' (b, e, is_p) =
      rw (is_p, e) (c.encode_bool b, refl, λ more. rw (lawful.bool b more))
  PrimitiveAs-WrittenAs TypeDefPrimitive.char p p' (n, e, valid, is_p) =
      let range = char_from_u32-IsUint n valid in
      rw (is_p, e) (c.encode_uint w32 n, refl, λ more. rw (lawful.uint w32 n range more, valid))
  PrimitiveAs-WrittenAs TypeDefPrimitive.str p p' (s, e, is_p) =
      rw (is_p, e) (c.encode_str s, refl, λ more. rw (lawful.str s more))
  PrimitiveAs-WrittenAs TypeDefPrimitive.u256 p p' (a, e, size, is_p) =
      rw (is_p, e) (c.encode_array32 a, refl, λ more. rw (lawful.array32 a size more))
  PrimitiveAs-WrittenAs TypeDefPrimitive.i256 p p' (a, e, size, is_p) =
      rw (is_p, e) (c.encode_array32 a, refl, λ more. rw (lawful.array32 a size more))
  PrimitiveAs-WrittenAs TypeDefPrimitive.u8 p p' h = uint_case w8 p p' h
  PrimitiveAs-WrittenAs TypeDefPrimitive.u16 p p' h = uint_case w16 p p' h
  PrimitiveAs-WrittenAs TypeDefPrimitive.u32 p p' h = uint_case w32 p p' h
  PrimitiveAs-WrittenAs TypeDefPrimitive.u64 p p' h = uint_case w64 p p' h
  PrimitiveAs-WrittenAs TypeDefPrimitive.u128 p p' h = uint_case w128 p p' h
  PrimitiveAs-WrittenAs TypeDefPrimitive.i8 p p' h = int_case w8 p p' h
  PrimitiveAs-WrittenAs TypeDefPrimitive.i16 p p' h = int_case w16 p p' h
  PrimitiveAs-WrittenAs TypeDefPrimitive.i32 p p' h = int_case w32 p p' h
  PrimitiveAs-WrittenAs TypeDefPrimitive.i64 p p' h = int_case w64 p p' h
  PrimitiveAs-WrittenAs TypeDefPrimitive.i128 p p' h = int_case w128 p p' h

  pub PrimitiveAs-Reencodes :
      {T : Type 0} (ty : TypeDefPrimitive) (id : TypeId) (t : T) (p p' : Primitive)
      → PrimitiveAs ty p p'
      → Reencodes
          (decode_primitive_value c ty)
          p'
          (encode_primitive_value c (value (Value.primitive p) t) id ty)
  unfolding encode_primitive_value
  PrimitiveAs-Reencodes ty id t p p' h =
      let (w, e, q) = PrimitiveAs-WrittenAs ty p p' h in (w, rw (e, encode_primitive_value), q)

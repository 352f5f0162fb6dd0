-- ===== src/Decoder/RoundTrip/Scalars.antt =====
-- The round trip through primitive, compact and bit sequence values.
use substrate_api_client.Prelude.{ℕ, ◌≡◌, refl, some}
use substrate_api_client.Prelude.{◌++◌, arith, Bytes, ok, map_err, ok_or, lt→ltb}
use substrate_api_client.Prelude.{>>=-eq-ok, ok_or-eq-ok, map_err-eq-ok}
use substrate_api_client.Prelude.Int.{ℤ, pos, negsuc}
use substrate_api_client.Codec.{Codec, IsLawful, Width, w8, w16, w32, w64, w128, IsUint, IsInt}
use substrate_api_client.Decoder.Registry.{TypeId, TypeDefPrimitive}
use substrate_api_client.Decoder.Value
use substrate_api_client.Decoder.Value.{Primitive, Value, ValueDef, value}
use substrate_api_client.Decoder.Decode.{
  codec_error, char_from_u32, decode_primitive_value, mapped, invalid_char,
}
use substrate_api_client.Decoder.Encode.{
  primitive_to_uint, primitive_to_int, primitive_bytes, encode_primitive_value,
}
use substrate_api_client.Decoder.RoundTrip.Pieces.{Reencodes, mapped-eq-ok}
use mathlib.Core.Option

pub primitive_to_uint_fits :
    (w : Width) (n : ℕ) → IsUint w n → primitive_to_uint w (Primitive.u128 n) ≡ some n
unfolding primitive_to_uint
primitive_to_uint_fits w n h = rw (lt→ltb _ _ h)

primitive_to_int_fits :
    (w : Width) (n : ℤ) → IsInt w n → primitive_to_int w (Primitive.i128 n) ≡ some n
unfolding primitive_to_int
primitive_to_int_fits w (pos n) h = rw (lt→ltb _ _ h)
primitive_to_int_fits w (negsuc n) h = rw (lt→ltb _ _ h)

pub char_from_u32-eq-some : (n ch : ℕ) → char_from_u32 n ≡ some ch → ch ≡ n
unfolding char_from_u32
char_from_u32-eq-some n ch h = ground arith

module _ (c : Codec) (lawful : IsLawful c) where
  -- What the primitive decoder reads, the primitive encoder writes.
  abbrev Roundtrips : TypeDefPrimitive → Type 0
  Roundtrips ty =
      (bytes : Bytes) (p : Primitive) (rest : Bytes)
      → decode_primitive_value c ty bytes ≡ ok (p, rest)
      → (w : Bytes) × (primitive_bytes c ty p ≡ some w)
        × ((more : Bytes) → decode_primitive_value c ty (w ++ more) ≡ ok (p, more))

  uint_case :
      (w : Width) (bytes : Bytes) (p : Primitive) (rest : Bytes)
      → mapped Primitive.u128 (map_err codec_error (c.decode_uint w bytes)) ≡ ok (p, rest)
      → (v : Bytes) × (Option.map (c.encode_uint w) (primitive_to_uint w p) ≡ some v)
        × ((more : Bytes)
            → mapped Primitive.u128 (map_err codec_error (c.decode_uint w (v ++ more)))
              ≡ ok (p, more))
  uint_case w bytes p rest h =
      let (n, q, e) =
        mapped-eq-ok (λ b. map_err codec_error (c.decode_uint w b)) Primitive.u128 bytes h in
      let range = lawful.uint_range w bytes n rest (map_err-eq-ok codec_error _ q) in
      rw e (
        c.encode_uint w n,
        rw (primitive_to_uint_fits w n range),
        λ more. rw (lawful.uint w n range more),
      )

  int_case :
      (w : Width) (bytes : Bytes) (p : Primitive) (rest : Bytes)
      → mapped Primitive.i128 (map_err codec_error (c.decode_int w bytes)) ≡ ok (p, rest)
      → (v : Bytes) × (Option.map (c.encode_int w) (primitive_to_int w p) ≡ some v)
        × ((more : Bytes)
            → mapped Primitive.i128 (map_err codec_error (c.decode_int w (v ++ more)))
              ≡ ok (p, more))
  int_case w bytes p rest h =
      let (n, q, e) =
        mapped-eq-ok (λ b. map_err codec_error (c.decode_int w b)) Primitive.i128 bytes h in
      let range = lawful.int_range w bytes n rest (map_err-eq-ok codec_error _ q) in
      rw e (
        c.encode_int w n,
        rw (primitive_to_int_fits w n range),
        λ more. rw (lawful.int w n range more),
      )

  pub primitive-Roundtrips : (ty : TypeDefPrimitive) → Roundtrips ty
  unfolding decode_primitive_value primitive_bytes
  primitive-Roundtrips TypeDefPrimitive.bool bytes p rest h =
      let (b, q, e) =
        mapped-eq-ok (λ b. map_err codec_error (c.decode_bool b)) Primitive.bool bytes h in
      rw e (c.encode_bool b, refl, λ more. rw (lawful.bool b more))
  primitive-Roundtrips TypeDefPrimitive.char bytes p rest h =
      let ((n, mid), q, r) = >>=-eq-ok (map_err codec_error (c.decode_uint w32 bytes)) _ h in
      let (ch, s, t) = >>=-eq-ok (ok_or (invalid_char n) (char_from_u32 n)) _ r in
      let some_ch = ok_or-eq-ok (invalid_char n) (char_from_u32 n) s in
      let e : ch ≡ n = char_from_u32-eq-some n ch some_ch in
      let range = lawful.uint_range w32 bytes n mid (map_err-eq-ok codec_error _ q) in
      let is_p : p ≡ Primitive.char n = ground (arith, t, e) in
      rw is_p (c.encode_uint w32 n, refl, λ more. rw (lawful.uint w32 n range more, some_ch, e))
  primitive-Roundtrips TypeDefPrimitive.str bytes p rest h =
      let (s, q, e) =
        mapped-eq-ok (λ b. map_err codec_error (c.decode_str b)) Primitive.string bytes h in
      rw e (c.encode_str s, refl, λ more. rw (lawful.str s more))
  primitive-Roundtrips TypeDefPrimitive.u8 bytes p rest h = uint_case w8 bytes p rest h
  primitive-Roundtrips TypeDefPrimitive.u16 bytes p rest h = uint_case w16 bytes p rest h
  primitive-Roundtrips TypeDefPrimitive.u32 bytes p rest h = uint_case w32 bytes p rest h
  primitive-Roundtrips TypeDefPrimitive.u64 bytes p rest h = uint_case w64 bytes p rest h
  primitive-Roundtrips TypeDefPrimitive.u128 bytes p rest h = uint_case w128 bytes p rest h
  primitive-Roundtrips TypeDefPrimitive.i8 bytes p rest h = int_case w8 bytes p rest h
  primitive-Roundtrips TypeDefPrimitive.i16 bytes p rest h = int_case w16 bytes p rest h
  primitive-Roundtrips TypeDefPrimitive.i32 bytes p rest h = int_case w32 bytes p rest h
  primitive-Roundtrips TypeDefPrimitive.i64 bytes p rest h = int_case w64 bytes p rest h
  primitive-Roundtrips TypeDefPrimitive.i128 bytes p rest h = int_case w128 bytes p rest h
  primitive-Roundtrips TypeDefPrimitive.u256 bytes p rest h =
      let (a, q, e) =
        mapped-eq-ok (λ b. map_err codec_error (c.decode_array32 b)) Primitive.u256 bytes h in
      let size = lawful.array32_length bytes a rest (map_err-eq-ok codec_error _ q) in
      rw e (c.encode_array32 a, refl, λ more. rw (lawful.array32 a size more))
  primitive-Roundtrips TypeDefPrimitive.i256 bytes p rest h =
      let (a, q, e) =
        mapped-eq-ok (λ b. map_err codec_error (c.decode_array32 b)) Primitive.i256 bytes h in
      let size = lawful.array32_length bytes a rest (map_err-eq-ok codec_error _ q) in
      rw e (c.encode_array32 a, refl, λ more. rw (lawful.array32 a size more))

  pub Reencodes-primitive :
      (ty : TypeDefPrimitive) (id t : TypeId) (bytes : Bytes) (p : Primitive) (rest : Bytes)
      → decode_primitive_value c ty bytes ≡ ok (p, rest)
      → Reencodes
          (decode_primitive_value c ty)
          p
          (encode_primitive_value c (value (Value.primitive p) t) id ty)
  unfolding encode_primitive_value
  Reencodes-primitive ty id t bytes p rest h =
      let (w, e, q) = primitive-Roundtrips ty bytes p rest h in
      (w, rw (e, encode_primitive_value), q)

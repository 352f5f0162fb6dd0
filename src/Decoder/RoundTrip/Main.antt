-- ===== src/Decoder/RoundTrip/Main.antt =====
-- The round trip of `decode_value_as_type` and `encode_value_as_type`.
use substrate_api_client.Prelude.{ℕ, zero, suc, ◌≡◌, ◌∙◌, some, Bytes, ok, ok_or, ◌++◌}
use substrate_api_client.Prelude.{>>=-eq-ok, ok_or-eq-ok}
use substrate_api_client.Codec.{Codec, IsLawful}
use substrate_api_client.Decoder.Registry.{
  TypeId, TypeDef, ScaleType, PortableRegistry, composite, primitive, tuple, variant, sequence,
  array, compact, bit_sequence,
}
use substrate_api_client.Decoder.Value
use substrate_api_client.Decoder.Value.{Value, ValueDef, value}
use substrate_api_client.Decoder.Decode.{
  Parser, mapped, type_id_not_found, decode_fields, decode_sequence_value, decode_array_value,
  decode_tuple_value, decode_variant_value, decode_primitive_value, decode_bit_sequence_value,
  decode_def, decode_value_as_type,
}
use substrate_api_client.Decoder.Encode.{Encoder, encode_def, encode_value_as_type, written}
use substrate_api_client.Decoder.RoundTrip.Pieces.{
  Faithful, Reencodes, Reencodes-mapped, mapped-eq-ok,
}
use substrate_api_client.Decoder.RoundTrip.Composites.{Faithful-fields, Reencodes-variant}
use substrate_api_client.Decoder.RoundTrip.Scalars.{Reencodes-primitive}
use substrate_api_client.Decoder.RoundTrip.Compact.{Reencodes-compact, Reencodes-bits}
use substrate_api_client.Decoder.RoundTrip.Values.{
  IsRegular, RegularDef, Reencodes-sequence, Reencodes-array, Reencodes-tuple,
}

module _ (c : Codec) (lawful : IsLawful c) (types : PortableRegistry)
    (rec_d : TypeId → Parser (Value TypeId)) (rec_e : Encoder TypeId) (rec₀ : Encoder (Unit {0}))
    (faithful : (id : TypeId) → Faithful (rec_d id) (rec_e id)) where
  Reencodes-def :
      (fuel : ℕ) (def : TypeDef) (id t : TypeId) (bytes : Bytes) (d : ValueDef TypeId)
      (rest : Bytes)
      → RegularDef def
      → decode_def c types rec_d fuel def bytes ≡ ok (d, rest)
      → Reencodes
          (decode_def c types rec_d fuel def)
          d
          (encode_def c rec_e rec₀ types fuel id def (value d t))
  unfolding decode_def encode_def
  Reencodes-def fuel (composite fields) id t bytes d rest r h =
      let (v, p, e) = mapped-eq-ok (decode_fields rec_d fields) Value.composite bytes h in
      rw e (
        Reencodes-mapped (decode_fields rec_d fields) Value.composite
          (Faithful-fields rec_d rec_e faithful fields id r bytes v rest p))
  Reencodes-def fuel (sequence ty) id t bytes d rest r h =
      let (v, p, e) = mapped-eq-ok (decode_sequence_value c rec_d ty) Value.composite bytes h in
      rw e (
        Reencodes-mapped (decode_sequence_value c rec_d ty) Value.composite
          (Reencodes-sequence c lawful types rec_d rec_e rec₀ faithful ty id t bytes v rest p))
  Reencodes-def fuel (array n ty) id t bytes d rest r h =
      let (v, p, e) = mapped-eq-ok (decode_array_value rec_d n ty) Value.composite bytes h in
      rw e (
        Reencodes-mapped (decode_array_value rec_d n ty) Value.composite
          (Reencodes-array c lawful types rec_d rec_e rec₀ faithful n ty id t bytes v rest p))
  Reencodes-def fuel (tuple tys) id t bytes d rest r h =
      let (v, p, e) = mapped-eq-ok (decode_tuple_value rec_d tys) Value.composite bytes h in
      rw e (
        Reencodes-mapped (decode_tuple_value rec_d tys) Value.composite
          (Reencodes-tuple c lawful types rec_d rec_e rec₀ faithful tys id t bytes v rest p))
  Reencodes-def fuel (variant vs) id t bytes d rest r h =
      let (v, p, e) =
        mapped-eq-ok (decode_variant_value rec_d vs) (λ v. Value.variant v.0 v.1) bytes h in
      rw e (
        Reencodes-mapped (decode_variant_value rec_d vs) (λ v. Value.variant v.0 v.1)
          (Reencodes-variant c lawful rec_d rec_e rec₀ faithful vs id t bytes v.0 v.1 rest r p))
  Reencodes-def fuel (primitive ty) id t bytes d rest r h =
      let (v, p, e) = mapped-eq-ok (decode_primitive_value c ty) Value.primitive bytes h in
      rw e (
        Reencodes-mapped (decode_primitive_value c ty) Value.primitive
          (Reencodes-primitive c lawful ty id t bytes v rest p))
  Reencodes-def fuel (compact ty) id t bytes d rest r h =
      Reencodes-compact c lawful types fuel ty id t bytes d rest h
  Reencodes-def fuel (bit_sequence store order) id t bytes d rest r h =
      let (v, p, e) =
        mapped-eq-ok (decode_bit_sequence_value c types store order) Value.bit_sequence bytes h in
      rw e (
        Reencodes-mapped (decode_bit_sequence_value c types store order) Value.bit_sequence
          (Reencodes-bits c lawful types store order id t bytes v rest p))

module _ (c : Codec) (types : PortableRegistry) where
  pub decode_found :
      (fuel : ℕ) (id : TypeId) (ty : ScaleType) (bytes : Bytes)
      → types.resolve id ≡ some ty
      → decode_value_as_type c types (suc fuel) id bytes
        ≡ mapped
            (λ d. value d id)
            (decode_def c types (decode_value_as_type c types fuel) fuel ty.type_def bytes)
  unfolding decode_value_as_type
  decode_found fuel id ty bytes h = rw h

  pub encode_found :
      {T : Type 0} (fuel : ℕ) (id : TypeId) (ty : ScaleType) (v : Value T)
      → types.resolve id ≡ some ty
      → encode_value_as_type c types (suc fuel) id v
        ≡ encode_def c
            (encode_value_as_type c types fuel)
            (encode_value_as_type c types fuel)
            types
            fuel
            id
            ty.type_def
            v
  unfolding encode_value_as_type
  encode_found fuel id ty v h = rw (h, encode_value_as_type)

  pub found_type :
      (fuel : ℕ) (id : TypeId) (bytes : Bytes) (p : Value TypeId × Bytes)
      → decode_value_as_type c types (suc fuel) id bytes ≡ ok p
      → (ty : ScaleType) × (types.resolve id ≡ some ty)
  unfolding decode_value_as_type
  found_type fuel id bytes p h =
      let (ty, q, _) = >>=-eq-ok (ok_or (type_id_not_found id) (types.resolve id)) _ h in
      (ty, ok_or-eq-ok _ (types.resolve id) q)

module _ (c : Codec) (lawful : IsLawful c) (types : PortableRegistry) (reg : IsRegular types) where
  Faithful-value :
      (fuel : ℕ) (id : TypeId)
      → Faithful (decode_value_as_type c types fuel id) (encode_value_as_type c types fuel id)
  Faithful-value zero id bytes v rest h = absurd (unfold decode_value_as_type in cc)
  Faithful-value (suc fuel) id bytes v rest h =
      let (ty, found) = found_type c types fuel id bytes (v, rest) h in
      let parse = decode_def c types (decode_value_as_type c types fuel) fuel ty.type_def in
      let (d, p, e) =
        mapped-eq-ok parse (λ d. value d id) bytes
          (rw (decode_found c types fuel id ty bytes found) at h) in
      let (w, q, reads) =
        Reencodes-mapped parse (λ d. value d id)
          (Reencodes-def c lawful types (decode_value_as_type c types fuel)
            (encode_value_as_type c types fuel) (encode_value_as_type c types fuel)
            (Faithful-value fuel) fuel ty.type_def id id bytes d rest (reg.regular id ty found)
            p) in
      rw e (
        w,
        encode_found c types fuel id ty (value d id) found ∙ q,
        λ more. decode_found c types fuel id ty (w ++ more) found ∙ reads more,
      )

  -- Whatever the decoder reads as a type of a regular registry, the encoder accepts for that type: it
  -- ends without error, and from the bytes that it writes, whatever follows them, the decoder reads
  -- the same value, contexts included, and leaves what follows. The codec is lawful.
  pub encode-decode :
      (fuel : ℕ) (id : TypeId) (bytes : Bytes) (v : Value TypeId) (rest : Bytes)
      → decode_value_as_type c types fuel id bytes ≡ ok (v, rest)
      → (w : Bytes) × (encode_value_as_type c types fuel id v ≡ written w)
        × ((more : Bytes) → decode_value_as_type c types fuel id (w ++ more) ≡ ok (v, more))
  encode-decode fuel id bytes v rest h = Faithful-value fuel id bytes v rest h

-- ===== src/Decoder/RoundTrip/Values.antt =====
-- The round trip of whole values, by induction on the nesting of types.
use mathlib.Core.List.{append_assoc}
use substrate_api_client.Prelude.{
  ℕ, zero, suc, ◌≡◌, refl, some, List, [], ◌∷◌, ◌++◌, arith, length, ==_refl,
}
use substrate_api_client.Prelude.{Bytes, ok, map_err, >>=-eq-ok, map_err-eq-ok}
use substrate_api_client.Codec.{Codec, IsLawful, w64}
use substrate_api_client.Decoder.Registry.{
  TypeId, TypeDef, ScaleType, PortableRegistry, composite, variant,
}
use substrate_api_client.Decoder.Value
use substrate_api_client.Decoder.Value.{
  Value, ValueDef, Composite, value, unnamed, from_list, to_list-from_list, into_values, len,
}
use substrate_api_client.Decoder.Decode.{
  Parser, codec_error, decode_count, decode_types, decode_sequence_value, decode_array_value,
  decode_tuple_value,
}
use substrate_api_client.Decoder.Encode.{
  Encoder, written, followed, encode_values, encode_types, encode_sequence_value,
  encode_array_value, encode_tuple_value,
}
use substrate_api_client.Decoder.RoundTrip.Pieces.{
  Faithful, Reencodes, Reencodes-mapped, mapped-eq-ok, paired-eq-ok,
}
use substrate_api_client.Decoder.RoundTrip.Fields.{Faithful-count, Faithful-types}
use substrate_api_client.Decoder.RoundTrip.Composites.{RegularFields, RegularVariants}

-- Fields are all named, with different names, or all unnamed; the names of variants differ.
abbrev pub RegularDef : TypeDef → Type 0
RegularDef (composite fields) = RegularFields fields
RegularDef (variant vs) = RegularVariants vs
RegularDef _ = Unit

pub record IsRegular (types : PortableRegistry) : Type 0 where
  pub regular : (id : TypeId) (ty : ScaleType) → types.resolve id ≡ some ty → RegularDef ty.type_def

module _ (rec_d : TypeId → Parser (Value TypeId)) where
  pub length-count :
      (n : ℕ) (ty : TypeId) (bytes : Bytes) (vs : List (Value TypeId)) (rest : Bytes)
      → decode_count rec_d n ty bytes ≡ ok (vs, rest)
      → length vs ≡ n
  unfolding decode_count
  length-count zero ty bytes vs rest h = let e : vs ≡ [] = ground (arith, h) in rw e
  length-count (suc n) ty bytes vs rest h =
      let (v, vs', mid, p, q, e) =
        paired-eq-ok (rec_d ty) (decode_count rec_d n ty) (λ v vs. v ∷ vs) bytes h in
      rw (e, length-count n ty mid vs' rest q)

  length-types :
      (tys : List TypeId) (bytes : Bytes) (vs : List (Value TypeId)) (rest : Bytes)
      → decode_types rec_d tys bytes ≡ ok (vs, rest)
      → length vs ≡ length tys
  unfolding decode_types
  length-types [] bytes vs rest h = let e : vs ≡ [] = ground (arith, h) in rw e
  length-types (ty ∷ tys) bytes vs rest h =
      let (v, vs', mid, p, q, e) =
        paired-eq-ok (rec_d ty) (decode_types rec_d tys) (λ v vs. v ∷ vs) bytes h in
      rw (e, length-types tys mid vs' rest q)

-- The composite of a vector of values.
abbrev gather : List (Value TypeId) → Composite TypeId
gather vs = unnamed (from_list vs)

module _ (rec_e : Encoder TypeId) (id t : TypeId) (vs : List (Value TypeId)) where
  encode_tuple-gather :
      (tys : List TypeId)
      → length vs ≡ length tys
      → encode_tuple_value rec_e (value (Value.composite (gather vs)) t) id tys
        ≡ encode_types rec_e tys vs
  unfolding encode_tuple_value
  encode_tuple-gather tys l = rw (to_list-from_list vs, l, ==_refl (length tys))

  module _ (c : Codec) (rec₀ : Encoder (Unit {0})) (ty : TypeId) where
    encode_array-gather :
        (n : ℕ)
        → length vs ≡ n
        → encode_array_value c rec_e rec₀ (value (Value.composite (gather vs)) t) id n ty
          ≡ encode_values rec_e ty vs
    unfolding encode_array_value
    encode_array-gather n l = rw (to_list-from_list vs, l, ==_refl n)

    encode_sequence-gather :
        encode_sequence_value c rec_e rec₀ (value (Value.composite (gather vs)) t) id ty
        ≡ followed (written (c.encode_compact w64 (length vs))) (encode_values rec_e ty vs)
    unfolding encode_sequence_value
    encode_sequence-gather = rw (to_list-from_list vs)

module _ (c : Codec) (lawful : IsLawful c) (types : PortableRegistry)
    (rec_d : TypeId → Parser (Value TypeId)) (rec_e : Encoder TypeId) (rec₀ : Encoder (Unit {0}))
    (faithful : (id : TypeId) → Faithful (rec_d id) (rec_e id)) where
  pub Reencodes-sequence :
      (ty id t : TypeId) (bytes : Bytes) (v : Composite TypeId) (rest : Bytes)
      → decode_sequence_value c rec_d ty bytes ≡ ok (v, rest)
      → Reencodes
          (decode_sequence_value c rec_d ty)
          v
          (encode_sequence_value c rec_e rec₀ (value (Value.composite v) t) id ty)
  unfolding decode_sequence_value
  Reencodes-sequence ty id t bytes v rest h =
      let ((n, mid), p, q) = >>=-eq-ok (map_err codec_error (c.decode_compact w64 bytes)) _ h in
      let (vs, r, e) = mapped-eq-ok (decode_count rec_d n ty) gather mid q in
      let range = lawful.compact_range w64 bytes n mid (map_err-eq-ok codec_error _ p) in
      let l = length-count rec_d n ty mid vs rest r in
      let (w, s, reads) = Faithful-count rec_d rec_e faithful n ty mid vs rest r in
      rw (e, encode_sequence-gather rec_e id t vs c rec₀ ty, l, s)
        (
          c.encode_compact w64 n ++ w,
          refl,
          λ more. rw (
            append_assoc (c.encode_compact w64 n) w more,
            lawful.compact w64 n range (w ++ more),
            reads more,
          ),
        )

  pub Reencodes-array :
      (n : ℕ) (ty id t : TypeId) (bytes : Bytes) (v : Composite TypeId) (rest : Bytes)
      → decode_array_value rec_d n ty bytes ≡ ok (v, rest)
      → Reencodes
          (decode_array_value rec_d n ty)
          v
          (encode_array_value c rec_e rec₀ (value (Value.composite v) t) id n ty)
  unfolding decode_array_value
  Reencodes-array n ty id t bytes v rest h =
      let (vs, r, e) = mapped-eq-ok (decode_count rec_d n ty) gather bytes h in
      let l = length-count rec_d n ty bytes vs rest r in
      rw (e, encode_array-gather rec_e id t vs c rec₀ ty n l)
        (Reencodes-mapped (decode_count rec_d n ty) gather
          (Faithful-count rec_d rec_e faithful n ty bytes vs rest r))

  pub Reencodes-tuple :
      (tys : List TypeId) (id t : TypeId) (bytes : Bytes) (v : Composite TypeId) (rest : Bytes)
      → decode_tuple_value rec_d tys bytes ≡ ok (v, rest)
      → Reencodes
          (decode_tuple_value rec_d tys)
          v
          (encode_tuple_value rec_e (value (Value.composite v) t) id tys)
  unfolding decode_tuple_value
  Reencodes-tuple tys id t bytes v rest h =
      let (vs, r, e) = mapped-eq-ok (decode_types rec_d tys) gather bytes h in
      let l = length-types rec_d tys bytes vs rest r in
      rw (e, encode_tuple-gather rec_e id t vs tys l)
        (Reencodes-mapped (decode_types rec_d tys) gather
          (Faithful-types rec_d rec_e faithful tys bytes vs rest r))

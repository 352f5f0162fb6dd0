-- ===== src/Decoder/Denotes/Decoded.antt =====
-- node-api/src/decoder/decode.rs: a decoded value has the type that it was decoded as, since it
-- denotes itself.
use substrate_api_client.Prelude.{
  ℕ, zero, suc, ◌≡◌, refl, ap, ◌∙◌, String, some, inl, inr, List, [], ◌∷◌, map, arith, Bytes, ok,
  ok_or, map_err, >>=-eq-ok, ok_or-eq-ok, map_err-eq-ok,
}
use mathlib.Core.Path.{subst}
use substrate_api_client.Codec.{Codec, IsLawful, Width, w8, w16, w32, w64, w128}
use substrate_api_client.Decoder.Registry.{TypeId, TypeDefPrimitive, Field}
use substrate_api_client.Decoder.Value
use substrate_api_client.Decoder.Value.{
  Primitive, Value, ValueDef, Composite, value, named, unnamed, from_list, from_pairs, to_list,
  to_list-from_list, into_values,
}
use substrate_api_client.Decoder.Decode.{
  Parser, mapped, codec_error, invalid_char, char_from_u32, decode_each, decode_count, decode_types,
  decode_fields, decode_primitive_value,
}
use substrate_api_client.Decoder.RoundTrip.Pieces.{mapped-eq-ok, paired-eq-ok}
use substrate_api_client.Decoder.RoundTrip.Lookup.{Covers, Covers-self}
use substrate_api_client.Decoder.RoundTrip.Fields.{
  AllNamed, AllUnnamed, label, each-NodupNames, length-each,
}
use substrate_api_client.Decoder.RoundTrip.Composites.{
  RegularFields, gathered, gathered_named, gathered_unnamed,
}
use substrate_api_client.Decoder.RoundTrip.Scalars.{char_from_u32-eq-some}
use substrate_api_client.Decoder.Denotes.{
  UintAs, IntAs, PrimitiveAs, EachAs, AllAs, UnnamedAs, NamedAs, FieldsAs, no_fields, by_name,
  in_order,
}

module _ (R : TypeId → Value TypeId → Value TypeId → Type 0)
    (rec_d : TypeId → Parser (Value TypeId))
    (itself : (id : TypeId) (b : Bytes) (v : Value TypeId) (rest : Bytes)
      → rec_d id b ≡ ok (v, rest)
      → R id v v) where
  pub decode_types-EachAs :
      (tys : List TypeId) (b : Bytes) (vs : List (Value TypeId)) (rest : Bytes)
      → decode_types rec_d tys b ≡ ok (vs, rest)
      → EachAs R tys vs vs
  unfolding decode_types
  decode_types-EachAs [] b vs rest h = let e : vs ≡ [] = ground (arith, h) in rw e tt
  decode_types-EachAs (ty ∷ tys) b vs rest h =
      let (v, vs', mid, p, q, e) =
        paired-eq-ok (rec_d ty) (decode_types rec_d tys) (λ v vs. v ∷ vs) b h in
      rw e (itself ty b v mid p, decode_types-EachAs tys mid vs' rest q)

  pub decode_count-AllAs :
      (n : ℕ) (ty : TypeId) (b : Bytes) (vs : List (Value TypeId)) (rest : Bytes)
      → decode_count rec_d n ty b ≡ ok (vs, rest)
      → AllAs R ty vs vs
  unfolding decode_count
  decode_count-AllAs zero ty b vs rest h = let e : vs ≡ [] = ground (arith, h) in rw e tt
  decode_count-AllAs (suc n) ty b vs rest h =
      let (v, vs', mid, p, q, e) =
        paired-eq-ok (rec_d ty) (decode_count rec_d n ty) (λ v vs. v ∷ vs) b h in
      rw e (itself ty b v mid p, decode_count-AllAs n ty mid vs' rest q)

  decode_each-UnnamedAs :
      (fs : List Field) (b : Bytes) (vs : List (String × Value TypeId)) (rest : Bytes)
      → AllUnnamed fs
      → decode_each rec_d fs b ≡ ok (vs, rest)
      → UnnamedAs R fs (map (λ p. p.1) vs) (map (λ p. p.1) vs)
  unfolding decode_each
  decode_each-UnnamedAs [] b vs rest u h = let e : vs ≡ [] = ground (arith, h) in rw e tt
  decode_each-UnnamedAs (f ∷ fs) b vs rest (n, u) h =
      let (v, vs', mid, p, q, e) =
        paired-eq-ok (rec_d f.ty) (decode_each rec_d fs) (λ v vs. label rec_d f v ∷ vs) b h in
      rw e (n, itself f.ty b v mid p, decode_each-UnnamedAs fs mid vs' rest u q)

  decode_each-NamedAs :
      (fs : List Field) (b : Bytes) (vs vals : List (String × Value TypeId)) (rest : Bytes)
      → AllNamed fs
      → Covers vals vs
      → decode_each rec_d fs b ≡ ok (vs, rest)
      → NamedAs R fs vals vs
  unfolding decode_each
  decode_each-NamedAs [] b vs vals rest u cov h = let e : vs ≡ [] = ground (arith, h) in rw e tt
  decode_each-NamedAs (f ∷ fs) b vs vals rest ((m, is_m, others), u) cov h =
      let (v, vs', mid, p, q, e) =
        paired-eq-ok (rec_d f.ty) (decode_each rec_d fs) (λ v vs. label rec_d f v ∷ vs) b h in
      let (found, cov') = subst (Covers vals) e cov in
      rw e (
        (is_m ∙ rw is_m, v, found, itself f.ty b v mid p),
        decode_each-NamedAs fs mid vs' vals rest u cov' q,
      )

  no_values : into_values {T = TypeId} (unnamed Value.nil) ≡ []
  unfolding into_values
  no_values = refl

  gathered-FieldsAs :
      (fs : List Field) (b : Bytes) (vs : List (String × Value TypeId)) (rest : Bytes)
      → RegularFields fs
      → decode_each rec_d fs b ≡ ok (vs, rest)
      → FieldsAs R fs (gathered fs vs) (gathered fs vs)
  gathered-FieldsAs [] b [] rest r h = no_fields {c = unnamed Value.nil} no_values
  gathered-FieldsAs [] b (v ∷ vs) rest r h =
      absurd (omega (arith, length-each rec_d [] b (v ∷ vs) rest h))
  gathered-FieldsAs (f ∷ fs) b [] rest r h =
      absurd (omega (arith, length-each rec_d (f ∷ fs) b [] rest h))
  gathered-FieldsAs (f ∷ fs) b (v ∷ vs) rest (inl u) h =
      let d = each-NodupNames rec_d (f ∷ fs) b (v ∷ vs) rest u h in
      let e = gathered_named f fs v vs u.0.1 in
      by_name (v ∷ vs) (v ∷ vs) e e (length-each rec_d (f ∷ fs) b (v ∷ vs) rest h) u d
        (decode_each-NamedAs (f ∷ fs) b (v ∷ vs) (v ∷ vs) rest u (Covers-self (v ∷ vs) d) h)
  gathered-FieldsAs (f ∷ fs) b (v ∷ vs) rest (inr u) h =
      let e = gathered_unnamed (f ∷ fs) (v ∷ vs) u in
      in_order (map (λ p. p.1) (v ∷ vs)) (map (λ p. p.1) (v ∷ vs)) e e
        (decode_each-UnnamedAs (f ∷ fs) b (v ∷ vs) rest u h)

  pub decode_fields-FieldsAs :
      (fs : List Field) (b : Bytes) (v : Composite TypeId) (rest : Bytes)
      → RegularFields fs
      → decode_fields rec_d fs b ≡ ok (v, rest)
      → FieldsAs R fs v v
  unfolding decode_fields
  decode_fields-FieldsAs fs b v rest r h =
      let (vs, p, e) = mapped-eq-ok (decode_each rec_d fs) (gathered fs) b h in
      rw e (gathered-FieldsAs fs b vs rest r p)

uint_itself :
    (c : Codec) (lawful : IsLawful c) (w : Width) (b : Bytes) (p : Primitive) (rest : Bytes)
    → mapped Primitive.u128 (map_err codec_error (c.decode_uint w b)) ≡ ok (p, rest)
    → UintAs w p p
uint_itself c lawful w b p rest h =
    let (n, q, e) =
      mapped-eq-ok (λ b. map_err codec_error (c.decode_uint w b)) Primitive.u128 b h in
    rw e (n, refl, lawful.uint_range w b n rest (map_err-eq-ok codec_error _ q), refl)

int_itself :
    (c : Codec) (lawful : IsLawful c) (w : Width) (b : Bytes) (p : Primitive) (rest : Bytes)
    → mapped Primitive.i128 (map_err codec_error (c.decode_int w b)) ≡ ok (p, rest)
    → IntAs w p p
int_itself c lawful w b p rest h =
    let (n, q, e) = mapped-eq-ok (λ b. map_err codec_error (c.decode_int w b)) Primitive.i128 b h in
    rw e (n, refl, lawful.int_range w b n rest (map_err-eq-ok codec_error _ q), refl)

module _ (c : Codec) (lawful : IsLawful c) where
  pub decode_primitive_value-PrimitiveAs :
      (ty : TypeDefPrimitive) (b : Bytes) (p : Primitive) (rest : Bytes)
      → decode_primitive_value c ty b ≡ ok (p, rest)
      → PrimitiveAs ty p p
  unfolding decode_primitive_value
  decode_primitive_value-PrimitiveAs TypeDefPrimitive.bool b p rest h =
      let (x, q, e) =
        mapped-eq-ok (λ b. map_err codec_error (c.decode_bool b)) Primitive.bool b h in
      (x, e, refl)
  decode_primitive_value-PrimitiveAs TypeDefPrimitive.char b p rest h =
      let ((n, mid), q, r) = >>=-eq-ok (map_err codec_error (c.decode_uint w32 b)) _ h in
      let (ch, s, t) = >>=-eq-ok (ok_or (invalid_char n) (char_from_u32 n)) _ r in
      let some_ch = ok_or-eq-ok (invalid_char n) (char_from_u32 n) s in
      let e : ch ≡ n = char_from_u32-eq-some n ch some_ch in
      (n, ground (arith, t, e), some_ch ∙ ap some e, refl)
  decode_primitive_value-PrimitiveAs TypeDefPrimitive.str b p rest h =
      let (x, q, e) =
        mapped-eq-ok (λ b. map_err codec_error (c.decode_str b)) Primitive.string b h in
      (x, e, refl)
  decode_primitive_value-PrimitiveAs TypeDefPrimitive.u256 b p rest h =
      let (x, q, e) =
        mapped-eq-ok (λ b. map_err codec_error (c.decode_array32 b)) Primitive.u256 b h in
      (x, e, lawful.array32_length b x rest (map_err-eq-ok codec_error _ q), refl)
  decode_primitive_value-PrimitiveAs TypeDefPrimitive.i256 b p rest h =
      let (x, q, e) =
        mapped-eq-ok (λ b. map_err codec_error (c.decode_array32 b)) Primitive.i256 b h in
      (x, e, lawful.array32_length b x rest (map_err-eq-ok codec_error _ q), refl)
  decode_primitive_value-PrimitiveAs TypeDefPrimitive.u8 b p rest h =
      uint_itself c lawful w8 b p rest h
  decode_primitive_value-PrimitiveAs TypeDefPrimitive.u16 b p rest h =
      uint_itself c lawful w16 b p rest h
  decode_primitive_value-PrimitiveAs TypeDefPrimitive.u32 b p rest h =
      uint_itself c lawful w32 b p rest h
  decode_primitive_value-PrimitiveAs TypeDefPrimitive.u64 b p rest h =
      uint_itself c lawful w64 b p rest h
  decode_primitive_value-PrimitiveAs TypeDefPrimitive.u128 b p rest h =
      uint_itself c lawful w128 b p rest h
  decode_primitive_value-PrimitiveAs TypeDefPrimitive.i8 b p rest h =
      int_itself c lawful w8 b p rest h
  decode_primitive_value-PrimitiveAs TypeDefPrimitive.i16 b p rest h =
      int_itself c lawful w16 b p rest h
  decode_primitive_value-PrimitiveAs TypeDefPrimitive.i32 b p rest h =
      int_itself c lawful w32 b p rest h
  decode_primitive_value-PrimitiveAs TypeDefPrimitive.i64 b p rest h =
      int_itself c lawful w64 b p rest h
  decode_primitive_value-PrimitiveAs TypeDefPrimitive.i128 b p rest h =
      int_itself c lawful w128 b p rest h

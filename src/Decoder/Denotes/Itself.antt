-- ===== src/Decoder/Denotes/Itself.antt =====
-- node-api/src/decoder/decode.rs: whole decoded values denote themselves.
use substrate_api_client.Prelude.{
  ℕ, zero, suc, ◌≡◌, refl, ◌∙◌, Option, none, some, List, [], ◌∷◌, arith, Bytes, ok, ok_or, map_err,
  ◌==◌, ==_iff, >>=-eq-ok, ok_or-eq-ok, map_err-eq-ok,
}
use substrate_api_client.Codec.{Codec, IsLawful, Width, w64, IsUint}
use substrate_api_client.Decoder.BitSequence.{get_bitsequence_details}
use substrate_api_client.Decoder.Registry.{
  TypeId, TypeDef, VariantType, ScaleType, PortableRegistry, composite, variant, sequence, array,
  tuple, primitive, compact, bit_sequence,
}
use substrate_api_client.Decoder.Value
use substrate_api_client.Decoder.Value.{
  Primitive, Value, ValueDef, Composite, value, unnamed, from_list, to_list-from_list, into_values,
}
use substrate_api_client.Decoder.Decode.{
  Parser, codec_error, bit_sequence_error, type_id_not_found, cannot_decode_compact_into_type,
  compact_width, wrap_field, decode_count, decode_types, decode_fields, decode_tuple_value,
  decode_variant_value, decode_sequence_value, decode_array_value, decode_primitive_value,
  compact_step, decode_compact, decode_compact_value, decode_bit_sequence_value, decode_def,
  decode_value_as_type,
}
use substrate_api_client.Decoder.RoundTrip.Pieces.{mapped-eq-ok}
use substrate_api_client.Decoder.RoundTrip.Composites.{
  RegularVariants, find_sound, find_by_name, decode_variant_inv,
}
use substrate_api_client.Decoder.RoundTrip.Compact
use substrate_api_client.Decoder.RoundTrip.Values.{IsRegular, RegularDef, length-count}
use substrate_api_client.Decoder.RoundTrip.Main.{decode_found, found_type}
use substrate_api_client.Decoder.Denotes.{
  Holds, bare, under, under_named, CompactAs, number, struct, VariantAs, DefAs, Denotes,
}
use substrate_api_client.Decoder.Denotes.Decoded.{
  decode_types-EachAs, decode_count-AllAs, decode_fields-FieldsAs,
  decode_primitive_value-PrimitiveAs,
}

Holds-wrap_field :
    {p : Primitive} (name : Option _) (v : Value TypeId) (t : TypeId)
    → Holds p v
    → Holds p (value (Value.composite (wrap_field name v)) t)
Holds-wrap_field none v t h = under h
Holds-wrap_field (some n) v t h = under_named h

into_values-from_list : (vs : List (Value TypeId)) → into_values (unnamed (from_list vs)) ≡ vs
unfolding into_values
into_values-from_list vs = to_list-from_list vs

module _ (c : Codec) (lawful : IsLawful c) (types : PortableRegistry) where
  -- A compact number that was decoded.
  abbrev ReadCompact : ℕ → TypeId → ValueDef TypeId → Type 0
  ReadCompact fuel id r =
      (w : Width) × (n : ℕ) × IsUint w n
      × CompactAs types w n fuel id r
      × ((t : TypeId) → Holds (Primitive.u128 n) (value r t))

  compact_step-ReadCompact :
      (fuel : ℕ)
      → ((id : TypeId) (b : Bytes) (r : ValueDef TypeId) (rest : Bytes)
          → decode_compact_value c types fuel id b ≡ ok (r, rest)
          → ReadCompact fuel id r)
      → (id : TypeId) (ty : ScaleType) (def : TypeDef) (b : Bytes) (r : ValueDef TypeId)
        (rest : Bytes)
      → types.resolve id ≡ some ty
      → ty.type_def ≡ def
      → compact_step c types (decode_compact c types fuel) ty def b ≡ ok (r, rest)
      → ReadCompact (suc fuel) id r
  unfolding compact_step
  compact_step-ReadCompact fuel ih id ty (primitive p) b r rest found is_p h =
      let (w, p₁, h₁) =
        >>=-eq-ok (ok_or (cannot_decode_compact_into_type ty) (compact_width p)) _ h in
      let ((n, mid), p₂, h₂) = >>=-eq-ok (map_err codec_error (c.decode_compact w b)) _ h₁ in
      let width = ok_or-eq-ok _ (compact_width p) p₁ in
      let range = lawful.compact_range w b n mid (map_err-eq-ok codec_error _ p₂) in
      let is_r : r ≡ Value.primitive (Primitive.u128 n) = ground (arith, h₂) in
      rw is_r (w, n, range, number found is_p width, λ t. bare)
  compact_step-ReadCompact fuel ih id ty (composite (f ∷ [])) b r rest found is_c h =
      let (ty₁, p₁, h₁) = >>=-eq-ok (ok_or (type_id_not_found f.ty) (types.resolve f.ty)) _ h in
      let ((d, mid), p₂, h₂) = >>=-eq-ok (decode_compact c types fuel ty₁ b) _ h₁ in
      let at = ok_or-eq-ok _ (types.resolve f.ty) p₁ in
      let (w, n, range, inner, holds) =
        ih f.ty b d mid (Compact.read_found c lawful types fuel f.ty ty₁ b at ∙ p₂) in
      let is_r : r ≡ Value.composite (wrap_field f.name (value d f.ty)) = ground (arith, h₂) in
      (
        w,
        n,
        range,
        struct found is_c inner is_r,
        rw is_r (λ t. Holds-wrap_field f.name (value d f.ty) t (holds f.ty)),
      )
  compact_step-ReadCompact fuel ih id ty (composite []) b r rest found e h = cc
  compact_step-ReadCompact fuel ih id ty (composite (f ∷ g ∷ fs)) b r rest found e h = cc
  compact_step-ReadCompact fuel ih id ty _ b r rest found e h = cc

  decode_compact_value-ReadCompact :
      (fuel : ℕ) (id : TypeId) (b : Bytes) (r : ValueDef TypeId) (rest : Bytes)
      → decode_compact_value c types fuel id b ≡ ok (r, rest)
      → ReadCompact fuel id r
  decode_compact_value-ReadCompact zero id b r rest h =
      absurd (Compact.no_fuel c lawful types id b (r, rest) h)
  decode_compact_value-ReadCompact (suc fuel) id b r rest h =
      let (ty, found) = Compact.found_type c lawful types (suc fuel) id b (r, rest) h in
      compact_step-ReadCompact fuel (decode_compact_value-ReadCompact fuel) id ty ty.type_def b r
        rest found refl (rw (Compact.step_found c lawful types fuel id ty b found) at h)

  module _ (R : TypeId → Value TypeId → Value TypeId → Type 0)
      (rec_d : TypeId → Parser (Value TypeId))
      (itself : (id : TypeId) (b : Bytes) (v : Value TypeId) (rest : Bytes)
        → rec_d id b ≡ ok (v, rest)
        → R id v v) where
    decode_variant_value-VariantAs :
        (vs : List VariantType) (b : Bytes) (v : _ × Composite TypeId) (rest : Bytes)
        → RegularVariants vs
        → decode_variant_value rec_d vs b ≡ ok (v, rest)
        → VariantAs R vs (Value.variant v.0 v.1) (Value.variant v.0 v.1)
    decode_variant_value-VariantAs vs [] v rest r h = unfold decode_variant_value in cc
    decode_variant_value-VariantAs vs (i ∷ b) (name, fields) rest (d, r) h =
        let (x, found, body, e) = decode_variant_inv rec_d vs i b name fields rest h in
        let ((small, regular), same) = find_sound (λ y. y.index == i) _ vs x found r in
        let is_i : x.index ≡ i = (==_iff x.index i).0 same in
        (
          x,
          fields,
          rw e (find_by_name i vs x found d),
          rw is_i found,
          small,
          decode_fields-FieldsAs R rec_d itself x.fields b fields rest regular body,
          rw e refl,
        )

    decode_def-DefAs :
        (fuel : ℕ) (def : TypeDef) (t : TypeId) (b : Bytes) (d : ValueDef TypeId) (rest : Bytes)
        → RegularDef def
        → decode_def c types rec_d fuel def b ≡ ok (d, rest)
        → DefAs types R fuel def d t d
    unfolding decode_def decode_sequence_value decode_array_value decode_tuple_value
        decode_bit_sequence_value
    decode_def-DefAs fuel (composite fs) t b d rest r h =
        let (v, p, e) = mapped-eq-ok (decode_fields rec_d fs) Value.composite b h in
        rw e (v, decode_fields-FieldsAs R rec_d itself fs b v rest r p, refl)
    decode_def-DefAs fuel (sequence ty) t b d rest r h =
        let (v, p, e) = mapped-eq-ok (decode_sequence_value c rec_d ty) Value.composite b h in
        let ((n, mid), q, s) = >>=-eq-ok (map_err codec_error (c.decode_compact w64 b)) _ p in
        let (vs, u, e₁) =
          mapped-eq-ok (decode_count rec_d n ty) (λ vs. unnamed (from_list vs)) mid s in
        let range = lawful.compact_range w64 b n mid (map_err-eq-ok codec_error _ q) in
        (
          v,
          vs,
          e,
          rw (e₁, into_values-from_list vs) (decode_count-AllAs R rec_d itself n ty mid vs rest u),
          rw (length-count rec_d n ty mid vs rest u) range,
          rw (e, e₁) refl,
        )
    decode_def-DefAs fuel (array n ty) t b d rest r h =
        let (v, p, e) = mapped-eq-ok (decode_array_value rec_d n ty) Value.composite b h in
        let (vs, u, e₁) =
          mapped-eq-ok (decode_count rec_d n ty) (λ vs. unnamed (from_list vs)) b p in
        (
          v,
          vs,
          e,
          rw (e₁, into_values-from_list vs) (decode_count-AllAs R rec_d itself n ty b vs rest u),
          length-count rec_d n ty b vs rest u,
          rw (e, e₁) refl,
        )
    decode_def-DefAs fuel (tuple tys) t b d rest r h =
        let (v, p, e) = mapped-eq-ok (decode_tuple_value rec_d tys) Value.composite b h in
        let (vs, u, e₁) =
          mapped-eq-ok (decode_types rec_d tys) (λ vs. unnamed (from_list vs)) b p in
        let each = decode_types-EachAs R rec_d itself tys b vs rest u in
        rw (e, e₁) (vs, rw (into_values-from_list vs) each, refl)
    decode_def-DefAs fuel (variant vs) t b d rest r h =
        let (v, p, e) =
          mapped-eq-ok (decode_variant_value rec_d vs) (λ v. Value.variant v.0 v.1) b h in
        rw e (decode_variant_value-VariantAs vs b v rest r p)
    decode_def-DefAs fuel (primitive ty) t b d rest r h =
        let (p, q, e) = mapped-eq-ok (decode_primitive_value c ty) Value.primitive b h in
        (p, p, e, decode_primitive_value-PrimitiveAs c lawful ty b p rest q, e)
    decode_def-DefAs fuel (compact ty) t b d rest r h =
        let (w, n, range, stands, holds) = decode_compact_value-ReadCompact fuel ty b d rest h in
        (Primitive.u128 n, w, n, holds t, refl, range, stands)
    decode_def-DefAs fuel (bit_sequence store order) t b d rest r h =
        let (bs, p, e) =
          mapped-eq-ok (decode_bit_sequence_value c types store order) Value.bit_sequence b h in
        let (details, q, s) =
          >>=-eq-ok (map_err bit_sequence_error (get_bitsequence_details store order types)) _ p in
        (bs, details, map_err-eq-ok bit_sequence_error _ q, rw e refl, e)

  -- Every value that is decoded as a type of a regular registry has that type, with the contexts and
  -- the form that the decoder gives: it denotes itself, where types nest as deep as the fuel. The
  -- codec is lawful.
  pub decode_value_as_type-Denotes :
      IsRegular types
      → (fuel : ℕ) (id : TypeId) (b : Bytes) (v : Value TypeId) (rest : Bytes)
      → decode_value_as_type c types fuel id b ≡ ok (v, rest)
      → Denotes types fuel id v v
  decode_value_as_type-Denotes reg zero id b v rest h = absurd (unfold decode_value_as_type in cc)
  decode_value_as_type-Denotes reg (suc fuel) id b v rest h =
      let (ty, found) = found_type c types fuel id b (v, rest) h in
      let parse = decode_def c types (decode_value_as_type c types fuel) fuel ty.type_def in
      let (d, p, e) =
        mapped-eq-ok parse (λ d. value d id) b
          (rw (decode_found c types fuel id ty b found) at h) in
      rw e (
        ty,
        d,
        found,
        refl,
        decode_def-DefAs (Denotes types fuel) (decode_value_as_type c types fuel)
            (decode_value_as_type-Denotes reg fuel) fuel ty.type_def id b d rest
            (reg.regular id ty found) p,
      )

-- ===== src/Decoder/RoundTrip/Compact.antt =====
-- The round trip through compact and bit sequence values.
use substrate_api_client.Prelude.{
  ℕ, zero, suc, ◌≡◌, refl, ◌∙◌, String, Bool, Option, none, some, List, [], ◌∷◌, ◌++◌, arith,
}
use mathlib.Core.Path.{subst}
use substrate_api_client.Prelude.{
  Bytes, Result, ok, map_err, ok_or, >>=-eq-ok, ok_or-eq-ok, map_err-eq-ok,
}
use substrate_api_client.Codec.{Codec, IsLawful, Width, IsUint}
use substrate_api_client.Decoder.Registry.{
  TypeId, TypeDef, Field, ScaleType, PortableRegistry, composite, primitive,
}
use substrate_api_client.Decoder.BitSequence.{get_bitsequence_details}
use substrate_api_client.Decoder.Value
use substrate_api_client.Decoder.Value.{Primitive, Value, ValueDef, value}
use substrate_api_client.Decoder.Decode.{
  Parser, codec_error, bit_sequence_error, type_id_not_found, cannot_decode_compact_into_type,
  compact_width, wrap_field, compact_step, decode_compact, decode_compact_value,
  decode_bit_sequence_value,
}
use substrate_api_client.Decoder.Encode.{
  EncodeError, resolve_step, resolve_compact, innermost, encode_compact_value,
  encode_bitsequence_value,
}
use substrate_api_client.Decoder.RoundTrip.Pieces.{Reencodes}
use substrate_api_client.Decoder.RoundTrip.Scalars.{primitive_to_uint_fits}

-- The value is a number, under any composites of one value.
abbrev Wraps : ValueDef TypeId → ℕ → Type 0
Wraps d n = (t id : TypeId) → (t' : TypeId) × (innermost (value d t) id ≡ ok (Primitive.u128 n, t'))

Wraps-wrap :
    (name : Option String) (d : ValueDef TypeId) (ty : TypeId) (n : ℕ)
    → Wraps d n
    → Wraps (Value.composite (wrap_field name (value d ty))) n
unfolding innermost
Wraps-wrap none d ty n h t id = h ty id
Wraps-wrap (some x) d ty n h t id = h ty id

module _ (c : Codec) (lawful : IsLawful c) (types : PortableRegistry) where
  -- The width that the encoder resolves, and a number of that width whose compact form `parse` reads.
  abbrev CompactRun :
      Result (EncodeError TypeId) (Width × TypeId)
      → Parser (ValueDef TypeId)
      → ValueDef TypeId
      → Type 0
  CompactRun resolved parse r =
      (w : Width) × (n : ℕ) × (at : TypeId) × (resolved ≡ ok (w, at))
      × IsUint w n
      × Wraps r n
      × ((more : Bytes) → parse (c.encode_compact w n ++ more) ≡ ok (r, more))

  pub read_found :
      (fuel : ℕ) (id : TypeId) (ty : ScaleType) (bytes : Bytes)
      → types.resolve id ≡ some ty
      → decode_compact_value c types fuel id bytes ≡ decode_compact c types fuel ty bytes
  unfolding decode_compact_value
  read_found fuel id ty bytes h = rw h

  field-run :
      (fuel : ℕ) (f : Field) (ty : ScaleType) (d : ValueDef TypeId) (inner : ScaleType)
      (id : TypeId)
      → types.resolve f.ty ≡ some ty
      → CompactRun (resolve_compact types fuel f.ty) (decode_compact_value c types fuel f.ty) d
      → CompactRun
          (resolve_step types (resolve_compact types fuel) id (composite (f ∷ [])))
          (compact_step c types (decode_compact c types fuel) inner (composite (f ∷ [])))
          (Value.composite (wrap_field f.name (value d f.ty)))
  unfolding compact_step
  field-run fuel f ty d inner id found (w, n, at, e, range, wraps, reads) = (
    w,
    n,
    at,
    e,
    range,
    Wraps-wrap f.name d f.ty n wraps,
    λ more.
        rw (found, ← read_found fuel f.ty ty (c.encode_compact w n ++ more) found)
          (rw (reads more)),
  )

  compact_step-run :
      (fuel : ℕ)
      → ((id : TypeId) (bytes : Bytes) (r : ValueDef TypeId) (rest : Bytes)
          → decode_compact_value c types fuel id bytes ≡ ok (r, rest)
          → CompactRun (resolve_compact types fuel id) (decode_compact_value c types fuel id) r)
      → (inner : ScaleType) (id : TypeId) (def : TypeDef) (bytes : Bytes) (r : ValueDef TypeId)
        (rest : Bytes)
      → compact_step c types (decode_compact c types fuel) inner def bytes ≡ ok (r, rest)
      → CompactRun
          (resolve_step types (resolve_compact types fuel) id def)
          (compact_step c types (decode_compact c types fuel) inner def)
          r
  unfolding compact_step
  compact_step-run fuel ih inner id (primitive p) bytes r rest h =
      let (w, p₁, h₁) =
        >>=-eq-ok (ok_or (cannot_decode_compact_into_type inner) (compact_width p)) _ h in
      let ((n, mid), p₂, h₂) = >>=-eq-ok (map_err codec_error (c.decode_compact w bytes)) _ h₁ in
      let width = ok_or-eq-ok _ (compact_width p) p₁ in
      let range = lawful.compact_range w bytes n mid (map_err-eq-ok codec_error _ p₂) in
      let is_r : r ≡ Value.primitive (Primitive.u128 n) = ground (arith, h₂) in
      rw (is_r, width)
        (
          w,
          n,
          id,
          refl,
          range,
          (λ t at. (t, unfold innermost in refl)),
          λ more. rw (lawful.compact w n range more),
        )
  compact_step-run fuel ih inner id (composite (f ∷ [])) bytes r rest h =
      let (ty, p₁, h₁) = >>=-eq-ok (ok_or (type_id_not_found f.ty) (types.resolve f.ty)) _ h in
      let ((d, mid), p₂, h₂) = >>=-eq-ok (decode_compact c types fuel ty bytes) _ h₁ in
      let found = ok_or-eq-ok _ (types.resolve f.ty) p₁ in
      let run = ih f.ty bytes d mid (read_found fuel f.ty ty bytes found ∙ p₂) in
      subst
        (λ x.
          CompactRun (resolve_step types (resolve_compact types fuel) id (composite (f ∷ [])))
            (compact_step c types (decode_compact c types fuel) inner (composite (f ∷ []))) x)
        (ground (arith, h₂)) (field-run fuel f ty d inner id found run)
  compact_step-run fuel ih inner id (composite []) bytes r rest h = cc
  compact_step-run fuel ih inner id (composite (f ∷ g ∷ fs)) bytes r rest h = cc
  compact_step-run fuel ih inner id _ bytes r rest h = cc

  pub no_fuel :
      (id : TypeId) (bytes : Bytes) (p : ValueDef TypeId × Bytes)
      → decode_compact_value c types zero id bytes ≡ ok p
      → ⊥
  unfolding decode_compact_value
  no_fuel id bytes p h = ground arith

  pub resolve_found :
      {T : Type 0} (fuel : ℕ) (id : TypeId) (ty : ScaleType)
      → types.resolve id ≡ some ty
      → resolve_compact types {T = T} (suc fuel) id
        ≡ resolve_step types (resolve_compact types fuel) id ty.type_def
  unfolding resolve_compact
  resolve_found fuel id ty h = rw h

  pub step_found :
      (fuel : ℕ) (id : TypeId) (ty : ScaleType) (bytes : Bytes)
      → types.resolve id ≡ some ty
      → decode_compact_value c types (suc fuel) id bytes
        ≡ compact_step c types (decode_compact c types fuel) ty ty.type_def bytes
  unfolding decode_compact_value
  step_found fuel id ty bytes h = rw h

  pub found_type :
      (fuel : ℕ) (id : TypeId) (bytes : Bytes) (p : ValueDef TypeId × Bytes)
      → decode_compact_value c types fuel id bytes ≡ ok p
      → (ty : ScaleType) × (types.resolve id ≡ some ty)
  unfolding decode_compact_value
  found_type fuel id bytes p h =
      let (ty, q, _) = >>=-eq-ok (ok_or (type_id_not_found id) (types.resolve id)) _ h in
      (ty, ok_or-eq-ok _ (types.resolve id) q)

  decode_compact_value-run :
      (fuel : ℕ) (id : TypeId) (bytes : Bytes) (r : ValueDef TypeId) (rest : Bytes)
      → decode_compact_value c types fuel id bytes ≡ ok (r, rest)
      → CompactRun (resolve_compact types fuel id) (decode_compact_value c types fuel id) r
  decode_compact_value-run zero id bytes r rest h = absurd (no_fuel id bytes (r, rest) h)
  decode_compact_value-run (suc fuel) id bytes r rest h =
      let (ty, found) = found_type (suc fuel) id bytes (r, rest) h in
      let (w, n, at, e, range, wraps, reads) =
        compact_step-run fuel (decode_compact_value-run fuel) ty id ty.type_def bytes r rest
          (rw (step_found fuel id ty bytes found) at h) in
      (
        w,
        n,
        at,
        resolve_found fuel id ty found ∙ e,
        range,
        wraps,
        λ more. step_found fuel id ty (c.encode_compact w n ++ more) found ∙ reads more,
      )

  pub Reencodes-compact :
      (fuel : ℕ) (inner id t : TypeId) (bytes : Bytes) (r : ValueDef TypeId) (rest : Bytes)
      → decode_compact_value c types fuel inner bytes ≡ ok (r, rest)
      → Reencodes
          (decode_compact_value c types fuel inner)
          r
          (encode_compact_value c types fuel (value r t) id inner)
  unfolding encode_compact_value
  Reencodes-compact fuel inner id t bytes r rest h =
      let (w, n, at, e, range, wraps, reads) = decode_compact_value-run fuel inner bytes r rest h in
      let (t', inside) = wraps t at in
      (c.encode_compact w n, rw (e, inside, primitive_to_uint_fits w n range), reads)

  pub Reencodes-bits :
      (store order id t : TypeId) (bytes : Bytes) (v : List Bool) (rest : Bytes)
      → decode_bit_sequence_value c types store order bytes ≡ ok (v, rest)
      → Reencodes
          (decode_bit_sequence_value c types store order)
          v
          (encode_bitsequence_value c types (value (Value.bit_sequence v) t) id store order)
  unfolding decode_bit_sequence_value encode_bitsequence_value
  Reencodes-bits store order id t bytes v rest h =
      let ((o, s), p, q) =
        >>=-eq-ok (map_err bit_sequence_error (get_bitsequence_details store order types)) _ h in
      let details = map_err-eq-ok bit_sequence_error _ p in
      (c.encode_bits o s v, rw details, λ more. rw (details, lawful.bit_vec o s v more))

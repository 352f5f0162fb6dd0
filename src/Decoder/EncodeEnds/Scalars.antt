-- ===== src/Decoder/EncodeEnds/Scalars.antt =====
-- node-api/src/decoder/encode.rs: primitive, compact and bit sequence values.
use substrate_api_client.Prelude.{ℕ, zero, suc, ◌<◌, List, [], ◌∷◌, Result, arith}
use substrate_api_client.Codec.{Codec, Width}
use substrate_api_client.Decoder.Registry.{
  TypeId, TypeDef, TypeDefPrimitive, PortableRegistry, composite, variant, sequence, array, tuple,
  primitive, compact, bit_sequence,
}
use substrate_api_client.Decoder.Value
use substrate_api_client.Decoder.Value.{
  Primitive, Value, ValueDef, Composite, Values, NamedValues, value, named, unnamed, cons, nil,
  field, end, to_list, to_pairs, len, is_empty, into_values,
}
use substrate_api_client.Decoder.Encode.{
  EncodeError, written, primitive_bytes, encode_primitive_value, primitive_to_uint, resolve_step,
  resolve_compact, innermost, bools_of, to_bools, encode_compact_value, encode_bitsequence_value,
}
use substrate_api_client.Decoder.Ends.{
  Returns, returned, >>=-Returns, map_err-Returns, found-Returns, ok_or-Returns, RefersBelow,
  IsRanked,
}
use substrate_api_client.Decoder.Ends.{get_bitsequence_details-Returns}
use substrate_api_client.Decoder.EncodeEnds.{Ends, finished-Ends, chosen-Ends}

innermost-Returns : {T : Type 0} (v : Value T) (id : TypeId) → Returns (innermost v id)
unfolding innermost Returns
innermost-Returns (value (Value.composite (unnamed nil)) t) id = tt
innermost-Returns (value (Value.composite (unnamed (cons v nil))) t) id = innermost-Returns v id
innermost-Returns (value (Value.composite (unnamed (cons v (cons w vs)))) t) id = tt
innermost-Returns (value (Value.composite (named end)) t) id = tt
innermost-Returns (value (Value.composite (named (field m v end))) t) id = innermost-Returns v id
innermost-Returns (value (Value.composite (named (field m v (field m' w vs)))) t) id = tt
innermost-Returns (value (Value.variant m c) t) id = tt
innermost-Returns (value (Value.bit_sequence b) t) id = tt
innermost-Returns (value (Value.primitive p) t) id = tt

bools_of-Returns : {T : Type 0} (id : TypeId) (vs : List (Value T)) → Returns (bools_of id vs)
unfolding Returns
bools_of-Returns id [] = tt
bools_of-Returns id (value (Value.primitive (Primitive.bool b)) t ∷ vs) =
    >>=-Returns (bools_of id vs) _ (bools_of-Returns id vs) (λ bs. tt)
bools_of-Returns id (v ∷ vs) = tt

module _ (T : Type 0) (types : PortableRegistry) (rank : TypeId → ℕ)
    (ranked : IsRanked rank types) where
  resolve_step-Returns :
      (rec : TypeId → Result (EncodeError T) (Width × TypeId)) (n : ℕ)
      → ((id : TypeId) → rank id < n → Returns (rec id))
      → (id : TypeId) (d : TypeDef) → RefersBelow rank n d
      → Returns (resolve_step types rec id d)
  unfolding Returns
  resolve_step-Returns rec n k id (composite []) r = tt
  resolve_step-Returns rec n k id (composite (f ∷ [])) (r, _) = k f.ty r
  resolve_step-Returns rec n k id (composite (f ∷ g ∷ fs)) r = tt
  resolve_step-Returns rec n k id (tuple []) r = tt
  resolve_step-Returns rec n k id (tuple (t ∷ [])) (r, _) = k t r
  resolve_step-Returns rec n k id (tuple (t ∷ u ∷ ts)) r = tt
  resolve_step-Returns rec n k id (primitive p) r = ok_or-Returns _ _
  resolve_step-Returns rec n k id (variant vs) r = tt
  resolve_step-Returns rec n k id (sequence t) r = tt
  resolve_step-Returns rec n k id (array m t) r = tt
  resolve_step-Returns rec n k id (compact t) r = tt
  resolve_step-Returns rec n k id (bit_sequence s o) r = tt

  resolve_compact-Returns :
      (fuel : ℕ) (id : TypeId) → rank id < fuel → Returns (resolve_compact types {T = T} fuel id)
  unfolding resolve_compact Returns
  resolve_compact-Returns zero id r = omega (arith, r)
  resolve_compact-Returns (suc fuel) id r = found-Returns _ (types.resolve id) _ (λ ty e.
      resolve_step-Returns (resolve_compact types fuel) (rank id)
        (λ j s. resolve_compact-Returns fuel j (omega (arith, r, s))) id ty.type_def
        (ranked.refers_below id ty e))

  pub encode_compact_value-Ends :
      (fuel : ℕ) (v : Value T) (id inner : TypeId) (c : Codec)
      → rank inner < fuel
      → Ends (encode_compact_value c types fuel v id inner)
  unfolding encode_compact_value
  encode_compact_value-Ends fuel v id inner c r = finished-Ends _ (
      >>=-Returns (resolve_compact types fuel inner) _ (resolve_compact-Returns fuel inner r) (λ w.
        >>=-Returns (innermost v w.1) _ (innermost-Returns v w.1)
          (λ p. found-Returns _ (primitive_to_uint w.0 p.0) _ (λ n e. returned _ _ _))))

to_bools-Returns : {T : Type 0} (id : TypeId) (v : Value T) → Returns (to_bools id v)
unfolding Returns
to_bools-Returns id (value (Value.bit_sequence bs) t) = tt
to_bools-Returns id (value (Value.composite (unnamed vs)) t) = bools_of-Returns id (to_list vs)
to_bools-Returns id (value (Value.composite (named vs)) t) = tt
to_bools-Returns id (value (Value.variant m c) t) = tt
to_bools-Returns id (value (Value.primitive p) t) = tt

pub encode_bitsequence_value-Ends :
    {T : Type 0} (c : Codec) (types : PortableRegistry) (v : Value T) (id s o : TypeId)
    → Ends (encode_bitsequence_value c types v id s o)
unfolding encode_bitsequence_value
encode_bitsequence_value-Ends c types v id s o = finished-Ends _ (
    >>=-Returns (to_bools id v) _ (to_bools-Returns id v) (λ bs.
      >>=-Returns _ _ (map_err-Returns _ _ (get_bitsequence_details-Returns types s o))
        (λ p. returned _ _ _)))

pub encode_primitive_value-Ends :
    {T : Type 0} (c : Codec) (v : Value T) (id : TypeId) (p : TypeDefPrimitive)
    → Ends (encode_primitive_value c v id p)
unfolding encode_primitive_value Returns
encode_primitive_value-Ends c (value (Value.primitive q) t) id p =
    chosen-Ends _ written (primitive_bytes c p q) tt (λ w e. tt)
encode_primitive_value-Ends c (value (Value.composite q) t) id p = tt
encode_primitive_value-Ends c (value (Value.variant m q) t) id p = tt
encode_primitive_value-Ends c (value (Value.bit_sequence q) t) id p = tt

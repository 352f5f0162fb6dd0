-- ===== src/Decoder/Denotes/Main.antt =====
-- node-api/src/decoder/encode.rs: what a value denotes as a type is what is decoded from its bytes.
use substrate_api_client.Prelude.{ℕ, zero, suc, ◌≡◌, ◌∙◌, ◌++◌, Bytes, ok}
use substrate_api_client.Codec.{Codec, IsLawful}
use substrate_api_client.Decoder.Registry.{
  TypeId, TypeDef, PortableRegistry, composite, variant, sequence, array, tuple, primitive, compact,
  bit_sequence,
}
use substrate_api_client.Decoder.Value
use substrate_api_client.Decoder.Value.{
  Value, ValueDef, Composite, Values, NamedValues, value, named, unnamed, from_list, to_list,
  to_pairs, len, into_values,
}
use substrate_api_client.Decoder.Decode.{
  Parser, decode_primitive_value, decode_bit_sequence_value, decode_def, decode_value_as_type,
}
use substrate_api_client.Decoder.Encode.{Encoder, written, encode_def, encode_value_as_type}
use substrate_api_client.Decoder.RoundTrip.Pieces.{Reencodes, Reencodes-mapped}
use substrate_api_client.Decoder.RoundTrip.Main.{decode_found, encode_found}
use substrate_api_client.Decoder.Denotes.{DefAs, Denotes}
use substrate_api_client.Decoder.Denotes.Fields.{}
use substrate_api_client.Decoder.Denotes.Primitives.{PrimitiveAs-Reencodes}
use substrate_api_client.Decoder.Denotes.Scalars.{CompactAs-Reencodes, BitsAs-Reencodes}
use substrate_api_client.Decoder.Denotes.Shapes.{
  CompositeAs-Reencodes, TupleAs-Reencodes, sequence-Reencodes, array-Reencodes,
  VariantAs-Reencodes,
}

module _ (c : Codec) (lawful : IsLawful c) (types : PortableRegistry) {T : Type 0}
    (R : TypeId → Value T → Value TypeId → Type 0) (rec_d : TypeId → Parser (Value TypeId))
    (rec_e : Encoder T) (rec₀ : Encoder (Unit {0}))
    (writes : (id : TypeId) (v : Value T) (v' : Value TypeId)
      → R id v v'
      → Reencodes (rec_d id) v' (rec_e id v)) where
  DefAs-Reencodes :
      (fuel : ℕ) (id : TypeId) (def : TypeDef) (d : ValueDef T) (t : T) (d' : ValueDef TypeId)
      → DefAs types R fuel def d t d'
      → Reencodes
          (decode_def c types rec_d fuel def)
          d'
          (encode_def c rec_e rec₀ types fuel id def (value d t))
  unfolding decode_def encode_def
  DefAs-Reencodes fuel id (composite fs) d t d' h =
      CompositeAs-Reencodes c lawful types R rec_d rec_e rec₀ writes id fs d t d' h
  DefAs-Reencodes fuel id (sequence ty) d t d' (v, vs', is_v, h, range, e) =
      rw (is_v, e)
        (sequence-Reencodes c lawful types R rec_d rec_e rec₀ writes id ty v t vs' h range)
  DefAs-Reencodes fuel id (array size ty) d t d' (v, vs', is_v, h, l, e) =
      rw (is_v, e, ← l) (array-Reencodes c lawful types R rec_d rec_e rec₀ writes id ty v t vs' h)
  DefAs-Reencodes fuel id (tuple tys) d t d' h =
      TupleAs-Reencodes c lawful types R rec_d rec_e rec₀ writes id tys d t d' h
  DefAs-Reencodes fuel id (variant vs) d t d' h =
      VariantAs-Reencodes c lawful types R rec_d rec_e rec₀ writes id vs d t d' h
  DefAs-Reencodes fuel id (primitive ty) d t d' (p, p', is_p, h, e) =
      rw (is_p, e)
        (Reencodes-mapped (decode_primitive_value c ty) Value.primitive
          (PrimitiveAs-Reencodes c lawful ty id t p p' h))
  DefAs-Reencodes fuel id (compact ty) d t d' (p, w, n, holds, is_n, range, h) =
      CompactAs-Reencodes c lawful types fuel ty id (value d t) p w n d' holds is_n range h
  DefAs-Reencodes fuel id (bit_sequence store order) d t d' (bs, (o, s), details, h, e) = rw e (
      Reencodes-mapped (decode_bit_sequence_value c types store order) Value.bit_sequence
        (BitsAs-Reencodes c lawful types store order id d t bs o s details h))

module _ (c : Codec) (lawful : IsLawful c) (types : PortableRegistry) {T : Type 0} where
  -- A value that stands for a decoded value `v'` of a type is written by the encoder as bytes from
  -- which, whatever follows them, the decoder reads `v'` and leaves what follows: whatever the
  -- contexts are, whatever the order of named fields is, with any numbers that fit, and with single
  -- fields given without the composite around them. The codec is lawful.
  pub encode_value_as_type-Denotes :
      (fuel : ℕ) (id : TypeId) (v : Value T) (v' : Value TypeId)
      → Denotes types fuel id v v'
      → (w : Bytes) × (encode_value_as_type c types fuel id v ≡ written w)
        × ((more : Bytes) → decode_value_as_type c types fuel id (w ++ more) ≡ ok (v', more))
  encode_value_as_type-Denotes zero id v v' h = absurd h
  encode_value_as_type-Denotes (suc fuel) id (value d t) v' (ty, d', found, is_v, h) =
      let parse = decode_def c types (decode_value_as_type c types fuel) fuel ty.type_def in
      let (w, p, q) =
        Reencodes-mapped parse (λ d. value d id)
          (DefAs-Reencodes c lawful types (Denotes types fuel) (decode_value_as_type c types fuel)
            (encode_value_as_type c types {T = T} fuel)
            (encode_value_as_type c types {T = Unit {0}} fuel) (encode_value_as_type-Denotes fuel)
            fuel id ty.type_def d t d' h) in
      rw is_v (
        w,
        encode_found c types fuel id ty (value d t) found ∙ p,
        λ more. decode_found c types fuel id ty (w ++ more) found ∙ q more,
      )

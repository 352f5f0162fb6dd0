-- ===== src/Decoder/Denotes/Scalars.antt =====
-- node-api/src/decoder/encode.rs: compact and bit sequence values are written as what they denote.
use substrate_api_client.Prelude.{ℕ, ◌≡◌, refl, ◌∙◌, Bool, some, List, [], ◌∷◌, ◌++◌, Bytes, ok}
use substrate_api_client.Prelude.Int.{pos}
use substrate_api_client.Codec.{Codec, IsLawful, Width, IsUint}
use substrate_api_client.Decoder.Registry.{TypeId, ScaleType, PortableRegistry}
use substrate_api_client.Decoder.BitSequence.{BitOrderTy, BitStoreTy, get_bitsequence_details}
use substrate_api_client.Decoder.Value
use substrate_api_client.Decoder.Value.{Primitive, Value, ValueDef, value, unnamed, named, to_list}
use substrate_api_client.Decoder.Decode.{
  compact_step, decode_compact_value, decode_bit_sequence_value,
}
use substrate_api_client.Decoder.Encode.{
  innermost, resolve_compact, encode_compact_value, to_bools, bools_of, encode_bitsequence_value,
}
use substrate_api_client.Decoder.RoundTrip.Pieces.{Reencodes}
use substrate_api_client.Decoder.RoundTrip.Compact.{read_found, resolve_found, step_found}
use substrate_api_client.Decoder.Denotes.{
  number_of, Holds, bare, under, under_named, CompactAs, number, struct, BoolsAs, BitsAs,
}
use substrate_api_client.Decoder.Denotes.Primitives.{primitive_to_uint-number_of}

Holds-innermost :
    {T : Type 0} {p : Primitive} {v : Value T} (id : TypeId)
    → Holds p v
    → (t : T) × (innermost v id ≡ ok (p, t))
unfolding innermost
Holds-innermost id (bare {t = t}) = (t, refl)
Holds-innermost id (under h) = Holds-innermost id h
Holds-innermost id (under_named h) = Holds-innermost id h

bools_of-BoolsAs :
    {T : Type 0} (id : TypeId) (vs : List (Value T)) (bs : List Bool)
    → BoolsAs vs bs
    → bools_of id vs ≡ ok bs
bools_of-BoolsAs id [] [] h = refl
bools_of-BoolsAs id (value d t ∷ vs) (b ∷ bs) (e, h) = rw e (rw (bools_of-BoolsAs id vs bs h))
bools_of-BoolsAs id [] (b ∷ bs) h = absurd h
bools_of-BoolsAs id (value d t ∷ vs) [] h = absurd h

to_bools-BitsAs :
    {T : Type 0} (id : TypeId) (d : ValueDef T) (t : T) (bs : List Bool)
    → BitsAs d bs
    → to_bools id (value d t) ≡ ok bs
to_bools-BitsAs id (Value.bit_sequence bs') t bs h = rw h
to_bools-BitsAs id (Value.composite (unnamed vs)) t bs h = bools_of-BoolsAs id (to_list vs) bs h
to_bools-BitsAs id (Value.composite (named vs)) t bs h = absurd h
to_bools-BitsAs id (Value.variant n c) t bs h = absurd h
to_bools-BitsAs id (Value.primitive p) t bs h = absurd h

module _ (c : Codec) (lawful : IsLawful c) (types : PortableRegistry) where
  CompactAs-resolve_compact :
      {T : Type 0} {w : Width} {n fuel id : ℕ} {r : ValueDef TypeId}
      → CompactAs types w n fuel id r
      → (at : TypeId) × (resolve_compact types {T = T} fuel id ≡ ok (w, at))
  CompactAs-resolve_compact {T} {id = id} (number {fuel = k} {ty = ty} found is_p width) =
      (id, resolve_found c lawful types k id ty found ∙ rw (is_p, width))
  CompactAs-resolve_compact {T} {id = id} (struct {fuel = k} {ty = ty} found is_c h is_r) =
      let (at, e) = CompactAs-resolve_compact {T = T} h in
      (at, resolve_found c lawful types k id ty found ∙ rw is_c e)

  CompactAs-resolved :
      {w : Width} {n fuel id : ℕ} {r : ValueDef TypeId}
      → CompactAs types w n fuel id r
      → (ty : ScaleType) × (types.resolve id ≡ some ty)
  CompactAs-resolved (number {ty = ty} found is_p width) = (ty, found)
  CompactAs-resolved (struct {ty = ty} found is_c h is_r) = (ty, found)

  CompactAs-reads :
      {w : Width} {n fuel id : ℕ} {r : ValueDef TypeId}
      → IsUint w n
      → CompactAs types w n fuel id r
      → (more : Bytes)
      → decode_compact_value c types fuel id (c.encode_compact w n ++ more) ≡ ok (r, more)
  unfolding compact_step
  CompactAs-reads {w} {n} {id = id} range (number {fuel = k} {ty = ty} found is_p width) more =
      step_found c lawful types k id ty (c.encode_compact w n ++ more) found
      ∙ rw (is_p, width) (rw (lawful.compact w n range more))
  CompactAs-reads {w} {n} {id = id} range (struct {fuel = k} {ty = ty} {f = f} found is_c h is_r)
        more =
      let bytes = c.encode_compact w n ++ more in
      let (inner, e) = CompactAs-resolved h in
      let reads = CompactAs-reads range h more in
      step_found c lawful types k id ty bytes found
      ∙ rw (is_c, e, ← read_found c lawful types k f.ty inner bytes e, reads, is_r)

  pub CompactAs-Reencodes :
      {T : Type 0} (fuel : ℕ) (inner id : TypeId) (v : Value T) (p : Primitive) (w : Width) (n : ℕ)
      (r : ValueDef TypeId)
      → Holds p v
      → number_of p ≡ some (pos n)
      → IsUint w n
      → CompactAs types w n fuel inner r
      → Reencodes
          (decode_compact_value c types fuel inner)
          r
          (encode_compact_value c types fuel v id inner)
  unfolding encode_compact_value
  CompactAs-Reencodes {T} fuel inner id v p w n r holds e range h =
      let (at, found) = CompactAs-resolve_compact {T = T} h in
      let (t, inside) = Holds-innermost at holds in
      (
        c.encode_compact w n,
        rw (found, inside, primitive_to_uint-number_of w p n e range),
        CompactAs-reads range h,
      )

  pub BitsAs-Reencodes :
      {T : Type 0} (store order id : TypeId) (d : ValueDef T) (t : T) (bs : List Bool)
      (o : BitOrderTy) (s : BitStoreTy)
      → get_bitsequence_details store order types ≡ ok (o, s)
      → BitsAs d bs
      → Reencodes
          (decode_bit_sequence_value c types store order)
          bs
          (encode_bitsequence_value c types (value d t) id store order)
  unfolding decode_bit_sequence_value encode_bitsequence_value
  BitsAs-Reencodes store order id d t bs o s details h = (
    c.encode_bits o s bs,
    rw (to_bools-BitsAs id d t bs h, details),
    λ more. rw (details, lawful.bit_vec o s bs more),
  )

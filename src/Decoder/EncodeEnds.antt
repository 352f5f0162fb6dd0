-- ===== src/Decoder/EncodeEnds.antt =====
-- node-api/src/decoder/encode.rs: with enough fuel, encoding a value writes it or returns an error.
pub mod Fields
pub mod Scalars
pub mod Main
use substrate_api_client.Prelude.{
  ℕ, zero, suc, String, ◌≤◌, ◌<◌, ◌≡◌, refl, Bool, true, false, inl, inr, Option, none, some, List,
  [], ◌∷◌, Bytes, Result, ok, err, panic, out_of_fuel, All, find, length, not, str_eq, ◌==◌,
  if◌then◌else◌, arith,
}
use substrate_api_client.Codec.{Codec, Width}
use substrate_api_client.Decoder.Registry.{
  TypeId, TypeDef, TypeDefPrimitive, Field, VariantType, ScaleType, PortableRegistry, composite,
  variant, sequence, array, tuple, primitive, compact, bit_sequence,
}
use substrate_api_client.Decoder.Value
use substrate_api_client.Decoder.Value.{
  Primitive, Value, ValueDef, Composite, Values, NamedValues, value, named, unnamed, cons, nil,
  field, end, to_list, to_pairs, len, is_empty, into_values,
}
use substrate_api_client.Decoder.Decode.{compact_width}
use substrate_api_client.Decoder.Encode.{
  EncodeError, Encoder, Written, written, failed, followed, or_fail, finished, take_named,
  encode_named, encode_unnamed, encode_matched, first_is_named, encode_composite_fields,
  encode_only, field_types, encode_composite_value, encode_values, encode_types, encode_tuple_value,
  primitive_bytes, encode_primitive_value, primitive_to_uint, resolve_step, resolve_compact,
  innermost, bools_of, to_bools, encode_compact_value, encode_bitsequence_value, encode_bytes,
  encode_sequence_value, encode_array_value, encode_variant_value, encode_def, encode_value_as_type,
}
use substrate_api_client.Decoder.Ends.{
  Returns, >>=-Returns, map_err-Returns, found-Returns, find-All, RefersBelow, IsRanked,
}
use substrate_api_client.Decoder.Ends.{get_bitsequence_details-Returns}
use substrate_api_client.Decoder.RoundTrip.Fields.{AllNamed}
use substrate_api_client.Decoder.RoundTrip.Composites.{RegularFields, RegularVariants}
use substrate_api_client.Decoder.RoundTrip.Values.{RegularDef, IsRegular}

-- Bytes with a value or an error of the program.
abbrev pub Ends : {E : Type 0} → Written E → Type 0
Ends w = Returns w.1

module _ {E : Type 0} where
  pub followed-Ends : (m k : Written E) → Ends m → Ends k → Ends (followed m k)
  unfolding Returns
  followed-Ends (w, ok u) k r s = s
  followed-Ends (w, err e) k r s = tt
  followed-Ends (w, panic) k r s = r
  followed-Ends (w, out_of_fuel) k r s = r

  pub prefixed-Ends : (w : Bytes) (k : Written E) → Ends k → Ends (followed (written w) k)
  prefixed-Ends w k r = r

  pub or_fail-Ends : {F : Type 0} (e : F) (m : Written E) → Ends m → Ends (or_fail e m)
  unfolding Returns
  or_fail-Ends e (w, ok u) r = tt
  or_fail-Ends e (w, err _) r = tt
  or_fail-Ends e (w, panic) r = r
  or_fail-Ends e (w, out_of_fuel) r = r

  pub if-Ends : (b : Bool) (m k : Written E) → Ends m → Ends k → Ends (if b then m else k)
  if-Ends true m k r s = r
  if-Ends false m k r s = s

  pub finished-Ends : (m : Result E Bytes) → Returns m → Ends (finished m)
  unfolding Returns
  finished-Ends (ok w) r = tt
  finished-Ends (err e) r = tt
  finished-Ends panic r = r
  finished-Ends out_of_fuel r = r

  pub chosen-Ends :
      {A : Type 0} (m : Written E) (f : A → Written E) (o : Option A)
      → Ends m
      → ((a : A) → o ≡ some a → Ends (f a))
      → Ends (elim o [ none ↦ m | some a ↦ f a ])
  chosen-Ends m f none r k = r
  chosen-Ends m f (some a) r k = k a refl

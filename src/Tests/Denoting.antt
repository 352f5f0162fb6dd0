-- ===== src/Tests/Denoting.antt =====
-- A transfer given with its fields the other way round, other contexts and other kinds of numbers.
use substrate_api_client.Prelude.{
  ◌≡◌, ◌≢◌, refl, ap, true, false, str_eq, String, List, [], ◌∷◌, ◌++◌, Bytes, ok, arith,
}
use substrate_api_client.Prelude.Int.{pos}
use substrate_api_client.Codec.{w32}
use substrate_api_client.Codec.Sample.Instance.{sample_codec, sample_codec-IsLawful}
use substrate_api_client.Decoder.Registry.{TypeDefPrimitive, composite, compact, primitive}
use substrate_api_client.Decoder.Value
use substrate_api_client.Decoder.Value.{Primitive, Value, Composite, value, named, from_pairs}
use substrate_api_client.Decoder.Decode.{decode_value_as_type}
use substrate_api_client.Decoder.Encode.{encode_value_as_type, written}
use substrate_api_client.Decoder.Denotes.{Denotes, bare, number, by_name}
use substrate_api_client.Decoder.Denotes.Main.{encode_value_as_type-Denotes}
use substrate_api_client.Decoder.Denotes.Itself.{decode_value_as_type-Denotes}
use substrate_api_client.Tests.Sample.{
  registry, registry-IsRegular, plain_type, both_named, amount_field, to_field,
}
use substrate_api_client.Tests.Decoding.{transfer, transfer_decodes}

abbrev swapped_fields : List (String × Value String)
swapped_fields =
    ("to", value (Value.primitive (Primitive.char 9)) "the receiver")
    ∷ ("amount", value (Value.primitive (Primitive.i128 (pos 100))) "a balance")
    ∷ []

abbrev swapped : Value String
swapped = value (Value.composite (named (from_pairs swapped_fields))) "a transfer"

fresh : ◌≢◌ {A = String} "amount" "to"
fresh h = let b : false ≡ true = ap (λ o. str_eq o "to") h in cc

swapped-Denotes : Denotes registry 5 1 swapped transfer
swapped-Denotes = (
  plain_type (composite (amount_field ∷ to_field ∷ [])),
  _,
  refl,
  refl,
  (
    _,
    by_name swapped_fields
        (("amount", value (Value.primitive (Primitive.u128 100)) 2)
          ∷ ("to", value (Value.primitive (Primitive.u128 9)) 0)
          ∷ [])
        refl refl refl both_named ((fresh, tt), (tt, tt))
        (
          (
            refl,
            value (Value.primitive (Primitive.i128 (pos 100))) "a balance",
            refl,
            (
              plain_type (compact 3),
              Value.primitive (Primitive.u128 100),
              refl,
              refl,
              (
                Primitive.i128 (pos 100),
                w32,
                100,
                bare,
                refl,
                omega arith,
                number {ty = plain_type (primitive TypeDefPrimitive.u32)} refl refl refl,
              ),
            ),
          ),
          (
            (
              refl,
              value (Value.primitive (Primitive.char 9)) "the receiver",
              refl,
              (
                plain_type (primitive TypeDefPrimitive.u8),
                Value.primitive (Primitive.u128 9),
                refl,
                refl,
                (Primitive.char 9, Primitive.u128 9, refl, (9, refl, omega arith, refl), refl),
              ),
            ),
            tt,
          ),
        ),
    refl,
  ),
)

encode_value_as_type-Denotes_example :
    (w : Bytes) × (encode_value_as_type sample_codec registry 5 1 swapped ≡ written w)
    × ((more : Bytes)
        → decode_value_as_type sample_codec registry 5 1 (w ++ more) ≡ ok (transfer, more))
encode_value_as_type-Denotes_example =
    encode_value_as_type-Denotes sample_codec sample_codec-IsLawful registry 5 1 swapped transfer
      swapped-Denotes

decode_value_as_type-Denotes_example : Denotes registry 5 1 transfer transfer
decode_value_as_type-Denotes_example =
    decode_value_as_type-Denotes sample_codec sample_codec-IsLawful registry registry-IsRegular 5 1
      (145 ∷ 1 ∷ 9 ∷ 77 ∷ []) transfer (77 ∷ []) transfer_decodes

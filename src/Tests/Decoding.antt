-- ===== src/Tests/Decoding.antt =====
-- Decoding values with the sample codec.
use substrate_api_client.Prelude.{◌≡◌, refl, [], ◌∷◌, ◌++◌, Bytes, ok}
use substrate_api_client.Codec.Sample.Instance.{sample_codec, sample_codec-IsLawful}
use substrate_api_client.Codec.Sample.Consuming.{sample_codec-IsConsuming}
use substrate_api_client.Decoder.Registry.{TypeId}
use substrate_api_client.Decoder.Value
use substrate_api_client.Decoder.Value.{
  Primitive, Value, ValueDef, Composite, value, named, from_pairs,
}
use substrate_api_client.Decoder.Decode.{decode_value_as_type}
use substrate_api_client.Decoder.Encode.{encode_value_as_type, written}
use substrate_api_client.Decoder.Front.{Front, decode_value_as_type-Consumes}
use substrate_api_client.Decoder.RoundTrip.Main.{encode-decode}
use substrate_api_client.Tests.Sample.{registry, registry-IsRegular}

-- A transfer of 100 to 9.
abbrev pub transfer : Value TypeId
transfer =
    value
      (Value.composite (
        named (
          from_pairs (
            ("amount", value (Value.primitive (Primitive.u128 100)) 2)
            ∷ ("to", value (Value.primitive (Primitive.u128 9)) 0)
            ∷ []))))
      1

pub transfer_decodes :
    decode_value_as_type sample_codec registry 5 1 (145 ∷ 1 ∷ 9 ∷ 77 ∷ []) ≡ ok (transfer, 77 ∷ [])
unfolding decode_value_as_type sample_codec
transfer_decodes = refl

encode-decode_example :
    (w : Bytes) × (encode_value_as_type sample_codec registry 5 1 transfer ≡ written w)
    × ((more : Bytes)
        → decode_value_as_type sample_codec registry 5 1 (w ++ more) ≡ ok (transfer, more))
encode-decode_example =
    encode-decode sample_codec sample_codec-IsLawful registry registry-IsRegular 5 1
      (145 ∷ 1 ∷ 9 ∷ 77 ∷ []) transfer (77 ∷ []) transfer_decodes

transfer_rest_left : Front (145 ∷ 1 ∷ 9 ∷ 77 ∷ []) (77 ∷ [])
transfer_rest_left =
    decode_value_as_type-Consumes sample_codec sample_codec-IsConsuming registry 5 1
      (145 ∷ 1 ∷ 9 ∷ 77 ∷ []) transfer (77 ∷ []) transfer_decodes

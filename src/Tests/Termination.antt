-- ===== src/Tests/Termination.antt =====
-- Decoding and encoding with the sample registry end.
use substrate_api_client.Prelude.{ℕ, zero, suc, ◌≡◌, some, [], ◌∷◌, get_elem?, arith}
use mathlib.Core.Option.{get_or}
use substrate_api_client.Codec.Sample.Instance.{sample_codec}
use substrate_api_client.Codec.Sample.Returning.{sample_codec-IsReturning}
use substrate_api_client.Decoder.Registry.{TypeId, ScaleType}
use substrate_api_client.Decoder.Decode.{decode_value_as_type}
use substrate_api_client.Decoder.Ends.{Returns, RefersBelow, IsRanked}
use substrate_api_client.Decoder.Terminates.{decode_value_as_type-Returns}
use substrate_api_client.Decoder.Value
use substrate_api_client.Decoder.Value.{Primitive, Value, Composite, value, named, from_pairs}
use substrate_api_client.Decoder.Encode.{encode_value_as_type}
use substrate_api_client.Decoder.EncodeEnds.Main.{encode_value_as_type-Returns}
use substrate_api_client.Tests.Sample.{registry, registry-IsRegular}

-- How deep each type nests.
abbrev rank : TypeId → ℕ
rank id = get_or (get_elem? (0 ∷ 2 ∷ 1 ∷ 0 ∷ 2 ∷ 0 ∷ 2 ∷ 0 ∷ []) id) 0

registry-IsRanked : IsRanked rank registry
registry-IsRanked = record { refers_below = below }
  where
    of :
        {a b : ScaleType} (n : ℕ)
        → RefersBelow rank n a.type_def
        → some a ≡ some b
        → RefersBelow rank n b.type_def
    of {a} {b} n r e = let q : a ≡ b = cc in rw (← q) r

    below :
        (id : TypeId) (ty : ScaleType)
        → registry.resolve id ≡ some ty
        → RefersBelow rank (rank id) ty.type_def
    below zero ty e = of 0 tt e
    below (suc zero) ty e = of 2 (omega arith, (omega arith, tt)) e
    below (suc (suc zero)) ty e = of 1 (omega arith) e
    below (suc (suc (suc zero))) ty e = of 0 tt e
    below (suc (suc (suc (suc zero)))) ty e = of 2 ((omega arith, (omega arith, tt)), tt) e
    below (suc (suc (suc (suc (suc zero))))) ty e = of 0 (tt, tt) e
    below (suc (suc (suc (suc (suc (suc zero)))))) ty e =
        of 2 ((omega arith, (omega arith, tt)), tt) e
    below (suc (suc (suc (suc (suc (suc (suc zero))))))) ty e = of 0 (tt, tt) e
    below (suc (suc (suc (suc (suc (suc (suc (suc n)))))))) ty e = cc

decode_value_as_type-Returns_example :
    Returns (decode_value_as_type sample_codec registry 3 1 (145 ∷ 1 ∷ 9 ∷ []))
decode_value_as_type-Returns_example =
    decode_value_as_type-Returns sample_codec sample_codec-IsReturning registry rank
      registry-IsRanked 3 1 (omega arith) (145 ∷ 1 ∷ 9 ∷ [])

-- A transfer whose second field has a wrong name.
abbrev misnamed : Value (Unit {0})
misnamed =
    value
      (Value.composite (
        named (
          from_pairs (
            ("amount", value (Value.primitive (Primitive.u128 100)) tt)
            ∷ ("for", value (Value.primitive (Primitive.u128 9)) tt)
            ∷ []))))
      tt

encode_value_as_type-Returns_example :
    Returns (encode_value_as_type sample_codec registry 3 1 misnamed).1
encode_value_as_type-Returns_example =
    encode_value_as_type-Returns sample_codec registry rank registry-IsRanked registry-IsRegular 3 1
      misnamed (omega arith)

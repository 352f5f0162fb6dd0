-- ===== src/Tests/Composing.antt =====
-- The transfer composed by its name.
use mathlib.Core.List.Memᴰ
use substrate_api_client.Prelude.{
  zero, suc, ◌≡◌, refl, sym, ◌∙◌, String, some, List, [], ◌∷◌, Bytes, ok, ok-inj, ◌>>=◌,
}
use substrate_api_client.Decoder.Registry.{TypeId, VariantType}
use substrate_api_client.Decoder.Value.{Value}
use substrate_api_client.Decoder.Decode.{
  Parser, decode_fields, decode_variant_value, decode_value_as_type,
}
use substrate_api_client.Codec.Sample.Instance.{sample_codec}
use substrate_api_client.Node.Maps.{text}
use substrate_api_client.Node.Metadata.Types.{PalletMetadata, find_pallet}
use substrate_api_client.Node.Metadata.Collect.{get_type_def_variant}
use substrate_api_client.Primitives.Params.{compose_call}
use substrate_api_client.Primitives.CallDecodes.{Indexed, compose_call-decodes}
use substrate_api_client.Tests.Sample.{registry, runtime, metadata, collected}

indices_differ :
    (ty : TypeId) (vs : List VariantType) → get_type_def_variant registry ty ≡ ok vs → Indexed vs
unfolding get_type_def_variant
indices_differ zero vs e = cc
indices_differ (suc zero) vs e = cc
indices_differ (suc (suc zero)) vs e = cc
indices_differ (suc (suc (suc zero))) vs e = cc
indices_differ (suc (suc (suc (suc zero)))) vs e =
    rw (← ok-inj e) (λ v w a b i. Memᴰ.eq_of_singleton a ∙ sym (Memᴰ.eq_of_singleton b))
indices_differ (suc (suc (suc (suc (suc zero))))) vs e =
    rw (← ok-inj e) (λ v w a b i. Memᴰ.eq_of_singleton a ∙ sym (Memᴰ.eq_of_singleton b))
indices_differ (suc (suc (suc (suc (suc (suc zero)))))) vs e =
    rw (← ok-inj e) (λ v w a b i. Memᴰ.eq_of_singleton a ∙ sym (Memᴰ.eq_of_singleton b))
indices_differ (suc (suc (suc (suc (suc (suc (suc zero))))))) vs e =
    rw (← ok-inj e) (λ v w a b i. Memᴰ.eq_of_singleton a ∙ sym (Memᴰ.eq_of_singleton b))
indices_differ (suc (suc (suc (suc (suc (suc (suc (suc n)))))))) vs e = cc

abbrev decode : TypeId → Parser (Value TypeId)
decode = decode_value_as_type sample_codec registry 5

call_composed :
    compose_call {E = String} metadata "Balances" "transfer" (145 ∷ 1 ∷ 9 ∷ [])
    ≡ ok (5 ∷ 7 ∷ 145 ∷ 1 ∷ 9 ∷ [])
unfolding compose_call text
call_composed = refl

compose_call-decodes_example :
    (p : PalletMetadata) × (ty : TypeId) × (vs : List VariantType) × (v : VariantType)
    × (body : Bytes) × (find_pallet metadata "Balances" ≡ ok p)
    × (p.call_ty_id ≡ some ty)
    × (get_type_def_variant registry ty ≡ ok vs)
    × (v.name ≡ "transfer")
    × (◌≡◌ {A = Bytes} (5 ∷ 7 ∷ 145 ∷ 1 ∷ 9 ∷ []) (p.index ∷ body))
    × (decode_variant_value decode vs body
        ≡ (decode_fields decode v.fields (145 ∷ 1 ∷ 9 ∷ []) >>= λ x. ok (("transfer", x.0), x.1)))
compose_call-decodes_example =
    compose_call-decodes runtime metadata collected indices_differ {E = String} "Balances"
      "transfer" (145 ∷ 1 ∷ 9 ∷ []) (5 ∷ 7 ∷ 145 ∷ 1 ∷ 9 ∷ []) call_composed decode

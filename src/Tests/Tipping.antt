-- ===== src/Tests/Tipping.antt =====
-- An extrinsic with a tip in an asset, with the sample codec.
use substrate_api_client.Prelude.{
  ℕ, zero, suc, ◌<◌, ◌^◌, refl, Bool, true, false, Option, none, some, [], ◌∷◌, Bytes, length, ok,
  err, arith,
}
use substrate_api_client.Codec.{Decoder, Inverts, w32, w128}
use substrate_api_client.Codec.Sample.Instance.{sample_codec, sample_codec-IsLawful}
use substrate_api_client.Primitives.Extrinsic.{Coded, new_signed, body, encode, decode}
use substrate_api_client.Primitives.Params.{Era, immortal, mortal, SubstrateDefaultSignedExtra}
use substrate_api_client.Primitives.Tips.{
  AssetTip, ExtraCodec, asset_tip_coded, signed_extra_coded, decode-encode_tipped,
}

abbrev encode_era : Era → Bytes
encode_era immortal = 0 ∷ []
encode_era (mortal period phase) = 1 ∷ period ∷ phase ∷ []

abbrev decode_era : Decoder Era
decode_era (zero ∷ rest) = ok (immortal, rest)
decode_era (suc n ∷ period ∷ phase ∷ rest) = ok (mortal period phase, rest)
decode_era _ = err "era"

abbrev encode_option : Option ℕ → Bytes
encode_option none = 0 ∷ []
encode_option (some n) = 1 ∷ n ∷ []

abbrev decode_option : Decoder (Option ℕ)
decode_option (zero ∷ rest) = ok (none, rest)
decode_option (suc n ∷ asset ∷ rest) = ok (some asset, rest)
decode_option _ = err "option"

abbrev extra_codec : ExtraCodec
extra_codec = record {
  encode_era = encode_era;
  decode_era = decode_era;
  encode_option = encode_option;
  decode_option = decode_option;
}

abbrev flag : Coded Bool
flag = record { encode = sample_codec.encode_bool; decode = sample_codec.decode_bool }

abbrev tipped : SubstrateDefaultSignedExtra (AssetTip ℕ) ℕ
tipped = record { era = mortal 64 3; nonce = 5; tip = record { tip = 1000; asset = some 7 } }

abbrev extra : Coded (SubstrateDefaultSignedExtra (AssetTip ℕ) ℕ)
extra =
    signed_extra_coded sample_codec extra_codec w128 w32
      (asset_tip_coded sample_codec extra_codec w128 w32)

tipped_is_short :
    length (body sample_codec flag flag extra flag 100 (new_signed false true false tipped))
    < 2 ^ 32
unfolding body sample_codec signed_extra_coded asset_tip_coded new_signed
tipped_is_short = omega arith

tipped_decodes :
    Inverts
      (decode sample_codec flag flag extra flag 100)
      (new_signed false true false tipped)
      (encode sample_codec flag flag extra flag 100 (new_signed false true false tipped))
tipped_decodes =
    decode-encode_tipped sample_codec extra_codec w128 w32 sample_codec-IsLawful flag flag flag 100
      true false false tipped (sample_codec-IsLawful.bool true) (sample_codec-IsLawful.bool false)
      (sample_codec-IsLawful.bool false) (λ rest. refl) (λ rest. refl) (omega arith) (omega arith)
      tipped_is_short

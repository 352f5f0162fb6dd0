-- ===== src/Primitives/Tips.antt =====
-- primitives/src/extrinsic_params.rs: tips, and how the signed extra of an extrinsic is encoded.
use substrate_api_client.Prelude.{ℕ, ◌++◌, Option, none, some, Bytes, length, ok, ◌>>=◌}
use mathlib.Core.List.{append_assoc}
use substrate_api_client.Codec.{Codec, Decoder, Inverts, IsLawful, Width, IsUint, w32}
use substrate_api_client.Primitives.Extrinsic.{
  Coded, InvertsAt, new_signed, body, encode, decode, decode-encode,
}
use substrate_api_client.Primitives.Params.{Era, SubstrateDefaultSignedExtra}

pub record PlainTip (Balance : Type 0) : Type 0 where
  pub tip : Balance

pub record AssetTip (Balance : Type 0) : Type 0 where
  pub tip : Balance
  pub asset : Option ℕ

module _ {Balance : Type 0} where
  unfoldable pub new_plain_tip : Balance → PlainTip Balance
  new_plain_tip amount = record { tip = amount }

  unfoldable pub plain_tip_from : Balance → PlainTip Balance
  unfolding new_plain_tip
  plain_tip_from n = new_plain_tip n

  unfoldable pub new_asset_tip : Balance → AssetTip Balance
  new_asset_tip amount = record { tip = amount; asset = none }

  unfoldable pub of_asset : AssetTip Balance → ℕ → AssetTip Balance
  of_asset t asset = record t { asset = some asset }

  unfoldable pub asset_tip_from : Balance → AssetTip Balance
  unfolding new_asset_tip
  asset_tip_from n = new_asset_tip n

-- From a tip to `u128`.
unfoldable pub plain_tip_amount : PlainTip ℕ → ℕ
plain_tip_amount t = t.tip

unfoldable pub asset_tip_amount : AssetTip ℕ → ℕ
asset_tip_amount t = t.tip

-- The codec's impls for types that only extrinsics use: `Era` and `Option<u32>`.
pub record ExtraCodec : Type 0 where
  pub encode_era : Era → Bytes
  pub decode_era : Decoder Era
  pub encode_option : Option ℕ → Bytes
  pub decode_option : Decoder (Option ℕ)

module _ (c : Codec) (x : ExtraCodec) (balance index : Width) where
  -- `#[codec(compact)]` on the only field.
  unfoldable pub plain_tip_coded : Coded (PlainTip ℕ)
  plain_tip_coded = record {
    encode = λ t. c.encode_compact balance t.tip;
    decode = λ bytes. c.decode_compact balance bytes >>= λ p. ok (record { tip = p.0 }, p.1);
  }

  unfoldable pub asset_tip_coded : Coded (AssetTip ℕ)
  asset_tip_coded = record {
    encode = λ t. c.encode_compact balance t.tip ++ x.encode_option t.asset;
    decode = λ bytes. c.decode_compact balance bytes >>= λ p.
        x.decode_option p.1 >>= λ q. ok (record { tip = p.0; asset = q.0 }, q.1);
  }

  module _ {Tip : Type 0} (t : Coded Tip) where
    -- The derived `Encode` and `Decode` of `SubstrateDefaultSignedExtra`, whose nonce is compact.
    unfoldable pub signed_extra_coded : Coded (SubstrateDefaultSignedExtra Tip ℕ)
    signed_extra_coded = record {
      encode = λ e. x.encode_era e.era ++ (c.encode_compact index e.nonce ++ t.encode e.tip);
      decode = λ bytes. x.decode_era bytes >>= λ p. c.decode_compact index p.1 >>= λ q.
          t.decode q.1 >>= λ r. ok (record { era = p.0; nonce = q.0; tip = r.0 }, r.1);
    }

  module _ (lawful : IsLawful c) where
    InvertsAt-plain_tip_coded :
        (t : PlainTip ℕ) → IsUint balance t.tip → InvertsAt plain_tip_coded t
    unfolding plain_tip_coded
    InvertsAt-plain_tip_coded t range rest = rw (lawful.compact balance t.tip range rest)

    InvertsAt-asset_tip_coded :
        (t : AssetTip ℕ)
        → IsUint balance t.tip
        → Inverts x.decode_option t.asset (x.encode_option t.asset)
        → InvertsAt asset_tip_coded t
    unfolding asset_tip_coded
    InvertsAt-asset_tip_coded t range option rest = rw (
      append_assoc (c.encode_compact balance t.tip) (x.encode_option t.asset) rest,
      lawful.compact balance t.tip range (x.encode_option t.asset ++ rest),
      option rest,
    )

    InvertsAt-signed_extra_coded :
        {Tip : Type 0} (t : Coded Tip) (e : SubstrateDefaultSignedExtra Tip ℕ)
        → Inverts x.decode_era e.era (x.encode_era e.era)
        → IsUint index e.nonce
        → InvertsAt t e.tip
        → InvertsAt (signed_extra_coded t) e
    unfolding signed_extra_coded
    InvertsAt-signed_extra_coded t e era range tip rest = rw (
      append_assoc (x.encode_era e.era) (c.encode_compact index e.nonce ++ t.encode e.tip) rest,
      era ((c.encode_compact index e.nonce ++ t.encode e.tip) ++ rest),
      append_assoc (c.encode_compact index e.nonce) (t.encode e.tip) rest,
      lawful.compact index e.nonce range (t.encode e.tip ++ rest),
      tip rest,
    )

    module _ {Address Signature Call : Type 0} (address : Coded Address) (sig : Coded Signature)
        (call : Coded Call) (size : ℕ) (a : Address) (s : Signature) (f : Call)
        (e : SubstrateDefaultSignedExtra (AssetTip ℕ) ℕ) (ia : InvertsAt address a)
        (is : InvertsAt sig s) (ic : InvertsAt call f)
        (era : Inverts x.decode_era e.era (x.encode_era e.era))
        (option : Inverts x.decode_option e.tip.asset (x.encode_option e.tip.asset))
        (nonce : IsUint index e.nonce) (tip : IsUint balance e.tip.tip) where
      abbrev extra : Coded (SubstrateDefaultSignedExtra (AssetTip ℕ) ℕ)
      extra = signed_extra_coded asset_tip_coded

      -- A signed extrinsic with a tip in an asset decodes from its encoding, whatever follows, with
      -- the nonce, the era, the tip and the asset that it was signed with: the nonce and the tip
      -- fit their types, the encodings of address, signature, call, era and asset decode to these,
      -- and the encoded extrinsic is shorter than 2 ^ 32 bytes.
      pub decode-encode_tipped :
          IsUint w32 (length (body c address sig extra call size (new_signed f a s e)))
          → Inverts
              (decode c address sig extra call size)
              (new_signed f a s e)
              (encode c address sig extra call size (new_signed f a s e))
      unfolding new_signed
      decode-encode_tipped short =
          let inverts =
            InvertsAt-signed_extra_coded asset_tip_coded e era nonce
              (InvertsAt-asset_tip_coded e.tip tip option) in
          decode-encode c address sig extra call size lawful (new_signed f a s e)
            ((ia, is, inverts), ic) short

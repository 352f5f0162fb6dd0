-- ===== src/Primitives/Params.antt =====
-- primitives/src/extrinsic_params.rs, compose-macros/src/lib.rs and the parts of
-- src/src/api/api_client.rs that they use: what is signed with an extrinsic, and how it is composed.
use substrate_api_client.Prelude.{ℕ, String, Option, none, some, ◌∷◌, ◌++◌}
use substrate_api_client.Prelude.{Bytes, length, Result, ok, panic, ◌>>=◌, if◌then◌else◌, ltb}
use substrate_api_client.Node.Metadata.Types.{Metadata, find_pallet, call_index}
use substrate_api_client.Primitives.Extrinsic.{UncheckedExtrinsicV4, new_signed}
use mathlib.Core.Option.{get_or}

-- `Era` of sp_runtime, as far as it is used.
pub data Era : Type 0 where
  immortal : Era
  mortal : ℕ → ℕ → Era

pub record SubstrateDefaultSignedExtra (Tip Index : Type 0) : Type 0 where
  pub era : Era
  pub nonce : Index
  pub tip : Tip

-- The fields that are not the unit.
pub record SubstrateDefaultAdditionalSigned (Hash : Type 0) : Type 0 where
  pub spec_version : ℕ
  pub transaction_version : ℕ
  pub genesis_hash : Hash
  pub mortality_checkpoint : Hash

pub record BaseExtrinsicParams (Tip Index Hash : Type 0) : Type 0 where
  pub era : Era
  pub nonce : Index
  pub tip : Tip
  pub spec_version : ℕ
  pub transaction_version : ℕ
  pub genesis_hash : Hash
  pub mortality_checkpoint : Hash

pub record BaseExtrinsicParamsBuilder (Tip Hash : Type 0) : Type 0 where
  pub era : Era
  pub mortality_checkpoint : Option Hash
  pub tip : Tip

-- src/src/api/api_client.rs, without the RPC client; the versions are those of `runtime_version`.
pub record Api (Signer Tip Hash : Type 0) : Type 0 where
  pub signer : Option Signer
  pub genesis_hash : Hash
  pub metadata : Metadata
  pub spec_version : ℕ
  pub transaction_version : ℕ
  pub extrinsic_params_builder : Option (BaseExtrinsicParamsBuilder Tip Hash)

module _ {Tip Hash : Type 0} where
  unfoldable pub set_era :
      BaseExtrinsicParamsBuilder Tip Hash → Era → Hash → BaseExtrinsicParamsBuilder Tip Hash
  set_era b era checkpoint = record b { era = era; mortality_checkpoint = some checkpoint }

  unfoldable pub set_tip :
      BaseExtrinsicParamsBuilder Tip Hash → Tip → BaseExtrinsicParamsBuilder Tip Hash
  set_tip b tip = record b { tip = tip }

module _ {Tip : Type 0} (Hash : Type 0) where
  -- `Default`, by the default tip.
  unfoldable pub default_builder : Tip → BaseExtrinsicParamsBuilder Tip Hash
  default_builder tip = record { era = immortal; mortality_checkpoint = none; tip = tip }

module _ {Tip Index Hash : Type 0} where
  unfoldable pub new_params :
      ℕ
      → ℕ
      → Index
      → Hash
      → BaseExtrinsicParamsBuilder Tip Hash
      → BaseExtrinsicParams Tip Index Hash
  new_params spec_version transaction_version nonce genesis_hash b = record {
    era = b.era;
    nonce = nonce;
    tip = b.tip;
    spec_version = spec_version;
    transaction_version = transaction_version;
    genesis_hash = genesis_hash;
    mortality_checkpoint = get_or b.mortality_checkpoint genesis_hash;
  }

  unfoldable pub signed_extra :
      BaseExtrinsicParams Tip Index Hash → SubstrateDefaultSignedExtra Tip Index
  signed_extra p = record { era = p.era; nonce = p.nonce; tip = p.tip }

  unfoldable pub additional_signed :
      BaseExtrinsicParams Tip Index Hash → SubstrateDefaultAdditionalSigned Hash
  additional_signed p = record {
    spec_version = p.spec_version;
    transaction_version = p.transaction_version;
    genesis_hash = p.genesis_hash;
    mortality_checkpoint = p.mortality_checkpoint;
  }

  unfoldable pub extrinsic_params :
      {Signer : Type 0} → Tip → Api Signer Tip Hash → Index → BaseExtrinsicParams Tip Index Hash
  unfolding new_params default_builder
  extrinsic_params default_tip api nonce =
      new_params api.spec_version api.transaction_version nonce api.genesis_hash
        (get_or api.extrinsic_params_builder (default_builder Hash default_tip))

-- A call as its encoded bytes. `unwrap` panics on names that the metadata does not have.
unfoldable pub compose_call : {E : Type 0} → Metadata → String → String → Bytes → Result E Bytes
unfolding find_pallet call_index
compose_call m pallet call_name args = elim (find_pallet m pallet) [
  | ok p ↦ elim (call_index p call_name) [ ok i ↦ ok (p.index ∷ i ∷ args) | _ ↦ panic ]
  | _ ↦ panic
]

-- Code that is called: the signer's key pair, and the encodings and the hash of the payload.
pub record Signing (Signer Account Signature Tip Index Hash : Type 0) : Type 0 where
  pub sign : Signer → Bytes → Signature
  pub account : Signer → Account
  pub encode_extra : SubstrateDefaultSignedExtra Tip Index → Bytes
  pub encode_additional : SubstrateDefaultAdditionalSigned Hash → Bytes
  pub blake2_256 : Bytes → Bytes

module _ {Signer Account Signature Tip Index Hash : Type 0}
    (k : Signing Signer Account Signature Tip Index Hash) where
  -- `SignedPayload::using_encoded`: what is signed for an encoded payload.
  unfoldable pub using_encoded : Bytes → Bytes
  using_encoded payload = if ltb 256 (length payload) then k.blake2_256 payload else payload

  unfoldable pub payload :
      Bytes → SubstrateDefaultSignedExtra Tip Index → SubstrateDefaultAdditionalSigned Hash → Bytes
  payload call extra additional = call ++ (k.encode_extra extra ++ k.encode_additional additional)

  abbrev pub Composed : Type 0
  Composed = UncheckedExtrinsicV4 Account Signature (SubstrateDefaultSignedExtra Tip Index) Bytes

  unfoldable pub compose_extrinsic_offline :
      Signer → Bytes → BaseExtrinsicParams Tip Index Hash → Composed
  unfolding signed_extra additional_signed using_encoded payload new_signed
  compose_extrinsic_offline signer call params =
      let extra = signed_extra params in
      let signature =
        k.sign signer (using_encoded (payload call extra (additional_signed params))) in
      new_signed call (k.account signer) signature extra

  -- `nonce` is what the node answers to `get_nonce`.
  unfoldable pub compose_extrinsic :
      {E : Type 0}
      → Tip
      → Api Signer Tip Hash
      → Result E Index
      → String
      → String
      → Bytes
      → Result E Composed
  unfolding compose_call compose_extrinsic_offline extrinsic_params
  compose_extrinsic default_tip api nonce pallet call_name args =
      compose_call api.metadata pallet call_name args >>= λ call. elim api.signer [
        | some signer ↦ elim nonce [
          | ok n ↦ ok (compose_extrinsic_offline signer call (extrinsic_params default_tip api n))
          | _ ↦ panic
        ]
        | none ↦ ok (record { signature = none; function = call })
      ]

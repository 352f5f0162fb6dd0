-- ===== src/Client/Runtime.antt =====
-- src/src/api/api_client.rs: making an `Api` and keeping it up to date, from what the node answers.
use substrate_api_client.Prelude.{
  ℕ, String, Option, none, some, [], ◌∷◌, Bytes, Result, ok, err, panic, out_of_fuel, map_err,
  ok_or, ◌>>=◌ as and_then,
}
use substrate_api_client.Codec.{Decoder}
use substrate_api_client.Node.Runtime.{RuntimeMetadata}
use substrate_api_client.Node.Metadata.Types.{Metadata}
use substrate_api_client.Node.Metadata.Collect.{try_from}
use substrate_api_client.Node.Storage.Keys.{Hashes}
use substrate_api_client.Primitives.Params.{Api, BaseExtrinsicParamsBuilder}
use substrate_api_client.Rpc.Action.{Action, Request, lift, map_action_err, ◌>>=◌}
use substrate_api_client.Client.Error.{
  ApiError, genesis, no_signer, invalid_metadata, storage_value_decode, rpc_client,
}
use substrate_api_client.Client.State.{StorageFormats}
use substrate_api_client.Client.System.{AccountInfo, get_account_info, mapped}

-- `RuntimeVersion` of sp_version, as far as it is used.
pub record RuntimeVersion : Type 0 where
  pub spec_version : ℕ
  pub transaction_version : ℕ

-- Serialized parameters and answers, and `RuntimeMetadataPrefixed::decode`.
pub record RuntimeFormats (Json Hash : Type 0) : Type 0 where
  pub number : Option ℕ → Json
  pub to_hash : Json → Result String (Option Hash)
  pub to_version : Json → Result String RuntimeVersion
  pub to_bytes : Json → Result String Bytes
  pub decode_metadata : Decoder (ℕ × RuntimeMetadata)

module _ {Signer Tip Hash : Type 0} where
  unfoldable pub new_offline : Hash → Metadata → RuntimeVersion → Api Signer Tip Hash
  new_offline genesis_hash m version = record {
    signer = none;
    genesis_hash = genesis_hash;
    metadata = m;
    spec_version = version.spec_version;
    transaction_version = version.transaction_version;
    extrinsic_params_builder = none;
  }

  unfoldable pub set_signer : Api Signer Tip Hash → Signer → Api Signer Tip Hash
  set_signer api signer = record api { signer = some signer }

  unfoldable pub set_extrinsic_params_builder :
      Api Signer Tip Hash → BaseExtrinsicParamsBuilder Tip Hash → Api Signer Tip Hash
  set_extrinsic_params_builder api b = record api { extrinsic_params_builder = some b }

  unfoldable pub signer_account :
      {AccountId : Type 0} → (Signer → AccountId) → Api Signer Tip Hash → Option AccountId
  signer_account account api = elim api.signer [ none ↦ none | some pair ↦ some (account pair) ]

-- The assignments at the end of `update_runtime`, which an error skips.
unfoldable pub stored :
    {Signer Tip Hash S : Type 0}
    → Api Signer Tip Hash
    → S
    → Result ApiError (Metadata × RuntimeVersion)
    → Result {0, 0} ApiError Unit × (Api Signer Tip Hash × S)
stored api s (ok (m, version)) = (
  ok tt,
  (
    record api {
      metadata = m;
      spec_version = version.spec_version;
      transaction_version = version.transaction_version;
    },
    s,
  ),
)
stored api s (err e) = (err e, (api, s))
stored api s panic = (panic, (api, s))
stored api s out_of_fuel = (out_of_fuel, (api, s))

module _ {Json S Hash : Type 0} (client : Request Json S) (f : RuntimeFormats Json Hash) where
  unfoldable pub get_genesis_hash : Action S ApiError Hash
  get_genesis_hash =
      map_action_err rpc_client
        (client.request f.to_hash "chain_getBlockHash" (f.number (some 0) ∷ []))
      >>= λ answer. lift (ok_or genesis answer)

  unfoldable pub get_runtime_version : Action S ApiError RuntimeVersion
  get_runtime_version =
      map_action_err rpc_client (client.request f.to_version "state_getRuntimeVersion" [])

  -- What is made of the bytes of the metadata.
  unfoldable pub read_metadata : Bytes → Result ApiError Metadata
  unfolding try_from
  read_metadata bytes =
      and_then (map_err storage_value_decode (f.decode_metadata bytes))
        (λ p. map_err invalid_metadata (try_from p.0))

  unfoldable pub get_metadata : Action S ApiError Metadata
  unfolding read_metadata
  get_metadata =
      map_action_err rpc_client (client.request f.to_bytes "state_getMetadata" []) >>= λ bytes.
      lift (read_metadata bytes)

  unfoldable pub new : {Signer Tip : Type 0} → Action S ApiError (Api Signer Tip Hash)
  unfolding get_genesis_hash get_metadata get_runtime_version new_offline
  new = get_genesis_hash >>= λ genesis_hash. get_metadata >>= λ m.
      get_runtime_version >>= λ version. lift (ok (new_offline genesis_hash m version))

  -- Both answers that `update_runtime` asks for.
  unfoldable pub read_runtime : Action S ApiError (Metadata × RuntimeVersion)
  unfolding get_metadata get_runtime_version
  read_runtime = get_metadata >>= λ m. mapped (λ version. (m, version)) get_runtime_version

  -- The `Api` is changed in place: it is returned with the result.
  unfoldable pub update_runtime :
      {Signer Tip : Type 0}
      → Api Signer Tip Hash
      → S
      → Result {0, 0} ApiError Unit × (Api Signer Tip Hash × S)
  unfolding read_runtime stored
  update_runtime api s = let p = read_runtime s in stored api p.1 p.0

module _ {Json S Signer Tip Hash Proof AccountId AccountData : Type 0} (client : Request Json S)
    (f : StorageFormats Json Hash Proof) (h : Hashes) (account : Signer → AccountId)
    (encode_account : AccountId → Bytes) (decode_info : Decoder (AccountInfo ℕ AccountData)) where
  unfoldable pub get_nonce : Api Signer Tip Hash → Action S ApiError ℕ
  unfolding signer_account get_account_info
  get_nonce api = lift (ok_or no_signer (signer_account account api)) >>= λ address.
      mapped (λ found. elim found [ none ↦ 0 | some info ↦ info.nonce ])
        (get_account_info client f h encode_account decode_info api.metadata address)

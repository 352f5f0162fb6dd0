-- ===== src/Client/State.antt =====
-- src/src/api/rpc_api/state.rs: reading the storage of a node. Keys are encoded by the caller, and
-- a decoder stands for the type that is decoded.
use substrate_api_client.Prelude.{
  String, Option, none, some, List, [], ◌∷◌, Bytes, Result, ok, map_err, ◌>>=◌ as and_then,
}
use substrate_api_client.Codec.{Decoder}
use substrate_api_client.Node.Metadata.Types.{Metadata, find_pallet, find_constant}
use substrate_api_client.Node.Storage.Keys.{
  Hashes, storage_value_key, storage_map_key, storage_map_key_prefix, storage_double_map_key,
}
use substrate_api_client.Rpc.Action.{Action, Request, lift, map_action_err, ◌>>=◌}
use substrate_api_client.Client.Error.{ApiError, metadata, rpc_client, storage_value_decode}

-- Serialized parameters and answers (serde, and the types of sp_core and sc_rpc).
pub record StorageFormats (Json Hash Proof : Type 0) : Type 0 where
  pub storage_key : Bytes → Json
  pub storage_keys : List Bytes → Json
  pub block : Option Hash → Json
  pub to_storage_data : Json → Result String (Option Bytes)
  pub to_read_proof : Json → Result String (Option Proof)
  pub to_strings : Json → Result String (Option (List String))

-- `Decode::decode` of a whole value: bytes behind it are left alone.
abbrev pub decoded : {V : Type 0} → Decoder V → Bytes → Result ApiError V
decoded decode bytes = map_err storage_value_decode (and_then (decode bytes) (λ p. ok p.0))

module _ {V : Type 0} (decode : Decoder V) where
  unfoldable pub decode_optional : Option Bytes → Result ApiError (Option V)
  decode_optional none = ok none
  decode_optional (some storage) = and_then (decoded decode storage) (λ v. ok (some v))

module _ {Json S Hash Proof : Type 0} (client : Request Json S)
    (f : StorageFormats Json Hash Proof) where
  unfoldable pub get_opaque_storage_by_key_hash :
      Bytes → Option Hash → Action S ApiError (Option Bytes)
  get_opaque_storage_by_key_hash key at_block = map_action_err rpc_client (
      client.request f.to_storage_data "state_getStorage"
        (f.storage_key key ∷ f.block at_block ∷ []))

  unfoldable pub get_storage_by_key_hash :
      {V : Type 0} → Decoder V → Bytes → Option Hash → Action S ApiError (Option V)
  unfolding get_opaque_storage_by_key_hash decode_optional
  get_storage_by_key_hash decode key at_block =
      get_opaque_storage_by_key_hash key at_block >>= λ s. lift (decode_optional decode s)

  unfoldable pub get_storage_proof_by_keys :
      List Bytes → Option Hash → Action S ApiError (Option Proof)
  get_storage_proof_by_keys keys at_block = map_action_err rpc_client (
      client.request f.to_read_proof "state_getReadProof"
        (f.storage_keys keys ∷ f.block at_block ∷ []))

  unfoldable pub get_keys : Bytes → Option Hash → Action S ApiError (Option (List String))
  get_keys key at_block =
      map_action_err rpc_client
        (client.request f.to_strings "state_getKeys" (f.storage_key key ∷ f.block at_block ∷ []))

  module _ (h : Hashes) (m : Metadata) (storage_prefix storage_key_name : String) where
    module _ {V : Type 0} (decode : Decoder V) where
      unfoldable pub get_storage_value : Option Hash → Action S ApiError (Option V)
      unfolding storage_value_key get_storage_by_key_hash
      get_storage_value at_block =
          lift (map_err metadata (storage_value_key h m storage_prefix storage_key_name))
          >>= λ storagekey. get_storage_by_key_hash decode storagekey at_block

      unfoldable pub get_storage_map : Bytes → Option Hash → Action S ApiError (Option V)
      unfolding storage_map_key get_storage_by_key_hash
      get_storage_map map_key at_block =
          lift (map_err metadata (storage_map_key h m storage_prefix storage_key_name map_key))
          >>= λ storagekey. get_storage_by_key_hash decode storagekey at_block

      unfoldable pub get_storage_double_map :
          Bytes → Bytes → Option Hash → Action S ApiError (Option V)
      unfolding storage_double_map_key get_storage_by_key_hash
      get_storage_double_map first second at_block =
          lift (
            map_err metadata
              (storage_double_map_key h m storage_prefix storage_key_name first second))
          >>= λ storagekey. get_storage_by_key_hash decode storagekey at_block

    unfoldable pub get_storage_map_key_prefix : Action S ApiError Bytes
    unfolding storage_map_key_prefix
    get_storage_map_key_prefix =
        lift (map_err metadata (storage_map_key_prefix h m storage_prefix storage_key_name))

    unfoldable pub get_storage_value_proof : Option Hash → Action S ApiError (Option Proof)
    unfolding storage_value_key get_storage_proof_by_keys
    get_storage_value_proof at_block =
        lift (map_err metadata (storage_value_key h m storage_prefix storage_key_name))
        >>= λ storagekey. get_storage_proof_by_keys (storagekey ∷ []) at_block

    unfoldable pub get_storage_map_proof : Bytes → Option Hash → Action S ApiError (Option Proof)
    unfolding storage_map_key get_storage_proof_by_keys
    get_storage_map_proof map_key at_block =
        lift (map_err metadata (storage_map_key h m storage_prefix storage_key_name map_key))
        >>= λ storagekey. get_storage_proof_by_keys (storagekey ∷ []) at_block

    unfoldable pub get_storage_double_map_proof :
        Bytes → Bytes → Option Hash → Action S ApiError (Option Proof)
    unfolding storage_double_map_key get_storage_proof_by_keys
    get_storage_double_map_proof first second at_block =
        lift (
          map_err metadata
            (storage_double_map_key h m storage_prefix storage_key_name first second))
        >>= λ storagekey. get_storage_proof_by_keys (storagekey ∷ []) at_block

unfoldable pub get_constant :
    {C : Type 0} → Decoder C → Metadata → String → String → Result ApiError C
unfolding find_pallet find_constant
get_constant decode m pallet constant =
    and_then (map_err metadata (and_then (find_pallet m pallet) (λ p. find_constant p constant)))
      (λ c. decoded decode c.value)

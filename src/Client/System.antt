-- ===== src/Client/System.antt =====
-- src/src/utils.rs and src/src/api/rpc_api/frame_system.rs: accounts, and the subscription to events.
use substrate_api_client.Prelude.{
  String, Option, none, some, List, [], ◌∷◌, ◌++◌, Bytes, ok, map_err,
}
use substrate_api_client.Codec.{Decoder}
use substrate_api_client.Node.Metadata.Types.{Metadata}
use substrate_api_client.Node.Storage.Keys.{Hashes, storage_map_key}
use substrate_api_client.Rpc.Error.{RpcClientError}
use substrate_api_client.Rpc.Action.{Action, Request, lift, map_action_err, then_do, ◌>>=◌}
use substrate_api_client.Client.Error.{ApiError, metadata, rpc_client}
use substrate_api_client.Client.State.{StorageFormats, get_storage_by_key_hash}

-- `utils::storage_key`
unfoldable pub storage_key : Hashes → String → String → Bytes
storage_key h module_name storage_key_name =
    h.twox_128 (h.as_bytes module_name) ++ h.twox_128 (h.as_bytes storage_key_name)

-- `AccountInfo` of frame_system, as far as it is used.
pub record AccountInfo (Index AccountData : Type 0) : Type 0 where
  pub nonce : Index
  pub «data» : AccountData

-- `map` on what an action returns.
abbrev pub mapped : {S E A B : Type 0} → (A → B) → Action S E A → Action S E B
mapped f action s = then_do (action s).0 (action s).1 (λ a. lift (ok (f a)))

abbrev pub option_map : {A B : Type 0} → (A → B) → Option A → Option B
option_map f none = none
option_map f (some a) = some (f a)

module _ {Json S Hash Proof AccountId Index AccountData : Type 0} (client : Request Json S)
    (f : StorageFormats Json Hash Proof) (h : Hashes) (encode_account : AccountId → Bytes)
    (decode_info : Decoder (AccountInfo Index AccountData)) (m : Metadata) where
  unfoldable pub get_account_info :
      AccountId → Action S ApiError (Option (AccountInfo Index AccountData))
  unfolding storage_map_key get_storage_by_key_hash
  get_account_info address =
      lift (map_err metadata (storage_map_key h m "System" "Account" (encode_account address)))
      >>= λ storagekey. get_storage_by_key_hash client f decode_info storagekey none

  unfoldable pub get_account_data : AccountId → Action S ApiError (Option AccountData)
  unfolding get_account_info
  get_account_data address = mapped (option_map (λ i. i.«data»)) (get_account_info address)

-- `subscribe`: a method, its parameters and the method that ends the subscription.
unfoldable pub subscribe_system_events :
    {Json S Subscription : Type 0}
    → (String → List Json → String → Action S RpcClientError Subscription)
    → (List Bytes → Json)
    → Hashes
    → Action S ApiError Subscription
unfolding storage_key
subscribe_system_events subscribe storage_keys h = map_action_err rpc_client (
    subscribe "state_subscribeStorage" (storage_keys (storage_key h "System" "Events" ∷ []) ∷ [])
      "state_unsubscribeStorage")

-- ===== src/Client/Submit.antt =====
-- src/src/api/rpc_api/author.rs and state.rs: submitting extrinsics, and subscribing to a storage entry.
use substrate_api_client.Prelude.{String, List, [], ◌∷◌, Bytes, Result}
use substrate_api_client.Node.Storage.Keys.{Hashes}
use substrate_api_client.Rpc.Error.{RpcClientError}
use substrate_api_client.Rpc.Action.{Action, Request, map_action_err}
use substrate_api_client.Client.Error.{ApiError, rpc_client}
use substrate_api_client.Client.System.{storage_key}

unfoldable pub submit_extrinsic :
    {Json S Hash : Type 0}
    → Request Json S
    → (String → Json)
    → (Json → Result String Hash)
    → String
    → Action S ApiError Hash
submit_extrinsic client string to_hash xthex_prefixed =
    map_action_err rpc_client
      (client.request to_hash "author_submitExtrinsic" (string xthex_prefixed ∷ []))

-- `subscribe`: a method, its parameters and the method that ends the subscription.
module _ {Json S Subscription : Type 0}
    (subscribe : String → List Json → String → Action S RpcClientError Subscription) where
  unfoldable pub submit_and_watch_extrinsic :
      (String → Json) → String → Action S ApiError Subscription
  submit_and_watch_extrinsic string xthex_prefixed = map_action_err rpc_client (
      subscribe "author_submitAndWatchExtrinsic" (string xthex_prefixed ∷ [])
        "author_unsubmitAndWatchExtrinsic")

  unfoldable pub subscribe_state :
      (List Bytes → Json) → Hashes → String → String → Action S ApiError Subscription
  unfolding storage_key
  subscribe_state storage_keys h pallet storage_key_name = map_action_err rpc_client (
      subscribe "state_subscribeStorage"
        (storage_keys (storage_key h pallet storage_key_name ∷ []) ∷ []) "state_unsubscribeStorage")

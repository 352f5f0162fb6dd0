-- ===== src/Client/Chain.antt =====
-- src/src/api/rpc_api/chain.rs: headers and blocks.
use substrate_api_client.Prelude.{◌≡◌, String, Option, List, [], ◌∷◌, Result, ok}
use substrate_api_client.Rpc.Error.{RpcClientError}
use substrate_api_client.Rpc.Action.{Action, Request, map_action_err, ◌>>=◌}
use substrate_api_client.Client.Error.{ApiError, rpc_client}
use substrate_api_client.Client.System.{mapped, option_map}

-- `SignedBlock` of sp_runtime; a justification is opaque.
pub record SignedBlock (Block Justification : Type 0) : Type 0 where
  pub block : Block
  pub justifications : Option Justification

-- Serialized parameters and answers.
pub record ChainFormats (Json Number Hash Header Block Justification : Type 0) : Type 0 where
  pub number : Option Number → Json
  pub hash : Option Hash → Json
  pub to_hash : Json → Result String (Option Hash)
  pub to_header : Json → Result String (Option Header)
  pub to_block : Json → Result String (Option (SignedBlock Block Justification))

module _ {Json S Number Hash Header Block Justification : Type 0} (client : Request Json S)
    (f : ChainFormats Json Number Hash Header Block Justification) where
  unfoldable pub get_finalized_head : Action S ApiError (Option Hash)
  get_finalized_head =
      map_action_err rpc_client (client.request f.to_hash "chain_getFinalizedHead" [])

  unfoldable pub get_header : Option Hash → Action S ApiError (Option Header)
  get_header hash =
      map_action_err rpc_client (client.request f.to_header "chain_getHeader" (f.hash hash ∷ []))

  unfoldable pub get_block_hash : Option Number → Action S ApiError (Option Hash)
  get_block_hash number =
      map_action_err rpc_client
        (client.request f.to_hash "chain_getBlockHash" (f.number number ∷ []))

  unfoldable pub get_signed_block :
      Option Hash → Action S ApiError (Option (SignedBlock Block Justification))
  get_signed_block hash =
      map_action_err rpc_client (client.request f.to_block "chain_getBlock" (f.hash hash ∷ []))

  unfoldable pub get_signed_block_by_num :
      Option Number → Action S ApiError (Option (SignedBlock Block Justification))
  unfolding get_block_hash get_signed_block
  get_signed_block_by_num number = get_block_hash number >>= λ h. get_signed_block h

  unfoldable pub get_block : Option Hash → Action S ApiError (Option Block)
  unfolding get_signed_block
  get_block hash = mapped (option_map (λ sb. sb.block)) (get_signed_block hash)

  unfoldable pub get_block_by_num : Option Number → Action S ApiError (Option Block)
  unfolding get_signed_block_by_num
  get_block_by_num number = mapped (option_map (λ sb. sb.block)) (get_signed_block_by_num number)

-- `subscribe`: a method, its parameters and the method that ends the subscription.
unfoldable pub subscribe_finalized_heads :
    {Json S Subscription : Type 0}
    → (String → List Json → String → Action S RpcClientError Subscription)
    → Action S ApiError Subscription
subscribe_finalized_heads subscribe =
    map_action_err rpc_client
      (subscribe "chain_subscribeFinalizedHeads" [] "chain_unsubscribeFinalizedHeads")

-- What a node knows: the hash of the block with a number (the best block's, without a number), and
-- the block with a hash (the best block, without a hash).
pub record ChainState (Number Hash Block Justification : Type 0) : Type 0 where
  pub hash_of : Option Number → Option Hash
  pub block_of : Option Hash → Option (SignedBlock Block Justification)

module _ {Json Number Hash Header Block Justification : Type 0}
    (client : Request Json (ChainState Number Hash Block Justification))
    (f : ChainFormats Json Number Hash Header Block Justification) where
  pub record ServesChain : Type 0 where
    pub serves_hash :
        (s : ChainState Number Hash Block Justification) (n : Option Number)
        → client.request f.to_hash "chain_getBlockHash" (f.number n ∷ []) s ≡ (ok (s.hash_of n), s)
    pub serves_block :
        (s : ChainState Number Hash Block Justification) (h : Option Hash)
        → client.request f.to_block "chain_getBlock" (f.hash h ∷ []) s ≡ (ok (s.block_of h), s)

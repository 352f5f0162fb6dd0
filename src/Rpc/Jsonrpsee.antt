-- ===== src/Rpc/Jsonrpsee.antt =====
-- src/src/rpc/jsonrpsee_client: a client on the library jsonrpsee; `block_on` waits for its calls.
use substrate_api_client.Prelude.{ℕ, String, Option, none, some, List}
use substrate_api_client.Prelude.{Result, ok, map_err, ◌>>=◌ as and_then}
use substrate_api_client.Rpc.Error.{RpcClientError, client}
use substrate_api_client.Rpc.Action.{Action, lift, map_action_err, ◌>>=◌}
use mathlib.Core.Option

-- The calls of jsonrpsee, on parameters as they are built (none where there are none). Texts are
-- raw JSON values.
pub record Jsonrpsee (W Uri Transport Inner Sub Json : Type 0) : Type 0 where
  pub parse : String → Result String Uri
  pub build_transport : Uri → Action W String Transport
  -- with the bound on the notifications that a subscription holds back
  pub build_client : ℕ → Transport → W → Inner × W
  pub build_params : List Json → Option String
  pub raw_value : String → Result String String
  pub request : Inner → String → Result String (Option String) → Action W String Json
  pub subscribe : Inner → String → Result String (Option String) → String → Action W String Sub
  pub next : Sub → W → Option (Result String Json) × W
  pub unsubscribe : Sub → Action W String Unit

module _ {W Uri Transport Inner Sub Json : Type 0}
    (lib : Jsonrpsee W Uri Transport Inner Sub Json) where
  -- `JsonrpseeClient::async_new`; the client is the library's.
  unfoldable pub async_new : String → Action W RpcClientError Inner
  async_new url = lift (map_err client (lib.parse url)) >>= λ uri.
      map_action_err client (lib.build_transport uri) >>= λ transport.
      λ w. (ok (lib.build_client 4096 transport w).0, (lib.build_client 4096 transport w).1)

  -- `JsonrpseeClient::new`
  unfoldable pub new : String → Action W RpcClientError Inner
  unfolding async_new
  new url = async_new url

  unfoldable pub with_default_url : Action W RpcClientError Inner
  unfolding new
  with_default_url = new "ws://127.0.0.1:9944"

  -- `RpcParamsWrapper::to_rpc_params`
  unfoldable pub to_rpc_params : List Json → Result String (Option String)
  to_rpc_params params = elim (lib.build_params params) [
    | none ↦ ok none
    | some json ↦ and_then (lib.raw_value json) (λ raw. ok (some raw))
  ]

  -- `Request for JsonrpseeClient`; `of` deserializes the answer, which the library does.
  unfoldable pub request :
      Inner
      → {R : Type 0} → (Json → Result String R)
      → String
      → List Json
      → Action W RpcClientError R
  unfolding to_rpc_params
  request inner of method params =
      map_action_err client (lib.request inner method (to_rpc_params params)) >>= λ answer.
      lift (map_err client (of answer))

  -- `Subscribe for JsonrpseeClient`
  unfoldable pub subscribe : Inner → String → List Json → String → Action W RpcClientError Sub
  unfolding to_rpc_params
  subscribe inner sub params unsub =
      map_action_err client (lib.subscribe inner sub (to_rpc_params params) unsub)

  -- `SubscriptionWrapper::next`
  unfoldable pub next : Sub → W → Option (Result RpcClientError Json) × W
  next inner w = (Option.map (map_err client) (lib.next inner w).0, (lib.next inner w).1)

  -- `SubscriptionWrapper::unsubscribe`
  unfoldable pub unsubscribe : Sub → Action W RpcClientError Unit
  unsubscribe inner = map_action_err client (lib.unsubscribe inner)

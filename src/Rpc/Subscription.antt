-- ===== src/Rpc/Subscription.antt =====
-- src/src/rpc/tungstenite_client/subscription.rs, and the part of client.rs that makes subscriptions:
-- the receiving end of the channel that the thread of a subscription fills.
use substrate_api_client.Prelude.{ℕ, String, Option, none, some, List}
use substrate_api_client.Prelude.{Result, ok, panic, map_err, ◌>>=◌ as and_then}
use substrate_api_client.Rpc.Error.{RpcClientError, serde}
use substrate_api_client.Rpc.Action.{Action, lift, ◌>>=◌}
use substrate_api_client.Rpc.Tungstenite.{to_json_req, Network, TungsteniteRpcClient, client_thread}

-- The calls of `std`: `recv` waits for a message, and its error is that the sender is gone; `spawn`
-- starts a thread.
pub record Threads (W : Type 0) : Type 0 where
  pub recv : Action W Unit String
  pub spawn : Action W RpcClientError Unit → W → W

module _ {Url : Type 0} (parse : String → Result String Url) where
  -- `TungsteniteRpcClient::new`; `parse` is `Url::parse`.
  unfoldable pub new : String → ℕ → Result RpcClientError (TungsteniteRpcClient Url)
  new s max_attempts =
      and_then (map_err RpcClientError.url (parse s))
        (λ u. ok (record { url = u; max_attempts = max_attempts }))

  unfoldable pub with_default_url : ℕ → Result RpcClientError (TungsteniteRpcClient Url)
  unfolding new
  with_default_url max_attempts = elim (new "ws://127.0.0.1:9944" max_attempts) [
    | ok self ↦ ok self
    | _ ↦ panic
  ]

module _ {W Url Socket Json : Type 0} (net : Network W Url Socket Json) (std : Threads W) where
  -- What is read from a notification.
  abbrev pub read : {N : Type 0} → (Json → Result String N) → String → Result RpcClientError N
  read of s = map_err serde (and_then (net.from_str s) of)

  unfoldable pub after_recv :
      {N : Type 0}
      → (Json → Result String N)
      → Result {0, 0} Unit String
      → Option (Result RpcClientError N)
  after_recv of (ok s) = some (read of s)
  after_recv of _ = none

  -- `TungsteniteSubscriptionWrapper::next`
  unfoldable pub next :
      {N : Type 0} → (Json → Result String N) → W → Option (Result RpcClientError N) × W
  unfolding after_recv
  next of w = (after_recv of (std.recv w).0, (std.recv w).1)

  -- `TungsteniteSubscriptionWrapper::unsubscribe`
  unfoldable pub unsubscribe : Action W RpcClientError Unit
  unsubscribe w = (ok tt, w)

  -- `start_rpc_client_thread`; the bounds are those of the thread's loops.
  unfoldable pub start_rpc_client_thread :
      TungsteniteRpcClient Url → ℕ → ℕ → ℕ → String → Action W RpcClientError Unit
  unfolding client_thread
  start_rpc_client_thread self fuel n rounds json_req w =
      (ok tt, std.spawn (client_thread net self fuel n json_req rounds 0) w)

  -- `Subscribe for TungsteniteRpcClient`
  unfoldable pub subscribe :
      TungsteniteRpcClient Url → ℕ → ℕ → ℕ → String → List Json → Action W RpcClientError Unit
  unfolding to_json_req start_rpc_client_thread
  subscribe self fuel n rounds sub params = lift (to_json_req net sub params) >>= λ json_req.
      start_rpc_client_thread self fuel n rounds json_req

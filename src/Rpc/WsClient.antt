-- ===== src/Rpc/WsClient.antt =====
-- src/src/rpc/ws_client/client.rs and subscription.rs: a client on the library ws, which runs the
-- handlers of Rpc/Ws. The channel of a request is made by the request: it is a part of the state.
use substrate_api_client.Prelude.{String, Option, List, ◌≡◌, refl}
use substrate_api_client.Prelude.{Result, ok, panic, map_err}
use substrate_api_client.Rpc.Error.{RpcClientError, serde, io, client, channel_disconnected}
use substrate_api_client.Rpc.Action.{Action, lift, map_action_err, ◌>>=◌}
use substrate_api_client.Rpc.Tungstenite.{to_json_req, Network}
use substrate_api_client.Rpc.Subscription.{Threads, after_recv}
use substrate_api_client.Rpc.Ws.{WsNetwork, on_open, response, handle_request, handle_notification}

-- `RpcClient`: what ws calls when the connection is open and when a message comes.
pub record Handler (W Message : Type 0) : Type 0 where
  pub open_action : Action W String Unit
  pub message_action : Message → Action W String Unit

-- The connections of ws: `connect` runs a handler until the connection closes; `build` makes a socket
-- with a handler and `connect_socket` connects it; `run` is a thread that runs it.
pub record WsConnections (W Url WsSocket Message : Type 0) : Type 0 where
  pub parse : String → Result String Url
  pub connect : Url → Handler W Message → Action W String Unit
  pub build : Handler W Message → Action W String WsSocket
  pub connect_socket : WsSocket → Url → Action W String Unit
  pub run : WsSocket → Action W String Unit
  pub shutdown : WsSocket → Action W String Unit
  -- From the channel of a request; an error is that the sender is gone.
  pub recv_response : Action W Unit (Result RpcClientError String)

module _ {W Url Socket WsSocket Json Message : Type 0} (net : Network W Url Socket Json)
    (ws : WsNetwork W Message) (con : WsConnections W Url WsSocket Message) where
  -- `WsRpcClient::new`; the client is its URL.
  unfoldable pub new : String → Result RpcClientError Url
  new s = map_err RpcClientError.url (con.parse s)

  unfoldable pub with_default_url : Result RpcClientError Url
  unfolding new
  with_default_url = elim (new "ws://127.0.0.1:9944") [ ok self ↦ ok self | _ ↦ panic ]

  unfoldable pub request_handler : String → Handler W Message
  unfolding on_open handle_request
  request_handler json_req = record {
    open_action = on_open net ws json_req;
    message_action = handle_request net ws;
  }

  unfoldable pub subscription_handler : String → Handler W Message
  unfolding on_open handle_notification
  subscription_handler json_req = record {
    open_action = on_open net ws json_req;
    message_action = handle_notification net ws;
  }

  unfoldable pub direct_rpc_request :
      Url → Handler W Message → Action W RpcClientError (Result RpcClientError String)
  direct_rpc_request self handler = map_action_err client (con.connect self handler) >>= λ _.
      map_action_err (λ _. channel_disconnected) con.recv_response

  -- `Request for WsRpcClient`
  unfoldable pub request :
      Url → {R : Type 0} → (Json → Result String R) → String → List Json → Action W RpcClientError R
  unfolding to_json_req direct_rpc_request request_handler
  request self of method params = lift (to_json_req net method params) >>= λ json_req.
      direct_rpc_request self (request_handler json_req) >>= λ result. lift result >>= λ response.
      lift (map_err serde (net.from_str response)) >>= λ value. lift (map_err serde (of value))

  unfoldable pub start_rpc_client_thread :
      Url → Handler W Message → Action W RpcClientError WsSocket
  start_rpc_client_thread self handler = map_action_err client (con.build handler) >>= λ socket.
      map_action_err client (con.connect_socket socket self) >>= λ _.
      map_action_err io (con.run socket) >>= λ _. lift (ok socket)

  -- `Subscribe for WsRpcClient`: the subscription is the socket's sender.
  unfoldable pub subscribe : Url → String → List Json → Action W RpcClientError WsSocket
  unfolding to_json_req start_rpc_client_thread subscription_handler
  subscribe self sub params = lift (to_json_req net sub params) >>= λ json_req.
      start_rpc_client_thread self (subscription_handler json_req)

  -- `WsSubscriptionWrapper::next`
  unfoldable pub next :
      {N : Type 0} → Threads W → (Json → Result String N) → W → Option (Result RpcClientError N) × W
  unfolding after_recv
  next std of w = (after_recv net std of (std.recv w).0, (std.recv w).1)

  -- `WsSubscriptionWrapper::unsubscribe`
  unfoldable pub unsubscribe : WsSocket → Action W RpcClientError Unit
  unsubscribe ws_sender = map_action_err client (con.shutdown ws_sender)

  -- Its `drop`, where a failure is only logged.
  unfoldable pub drop : WsSocket → W → W
  drop ws_sender w = (con.shutdown ws_sender w).1

  -- Where connecting opens the connection and then brings one message, a text, whose handling closes
  -- the connection and puts the text's result into the channel of the request, a request returns
  -- what is deserialized from that result.
  pub request-answers :
      {R : Type 0} (self : Url) (of : Json → Result String R) (method : String) (params : List Json)
      (req s : String) (msg : Message) (message answer : Json) (r : R) (w u v x y : W)
      → to_json_req net method params ≡ ok req
      → con.connect self (request_handler req) w
        ≡ (on_open net ws req >>= λ _. handle_request net ws msg) w
      → ws.send_request req w ≡ (ok tt, u)
      → ws.as_text msg ≡ ok s
      → net.from_str s ≡ ok message
      → (ws.close u).1 ≡ v
      → ws.send_response (ok (net.result_text message)) v ≡ (ok tt, x)
      → con.recv_response x ≡ (ok (ok (net.result_text message)), y)
      → net.from_str (net.result_text message) ≡ ok answer
      → of answer ≡ ok r
      → request self of method params w ≡ (ok r, y)
  unfolding request direct_rpc_request on_open handle_request response
  request-answers self of method params req s msg message answer r w u v x y a b c d e f g h i j =
      rw a (rw (b, c, d, e, f, g, h) (rw (i, j) refl))

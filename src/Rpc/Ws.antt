-- ===== src/Rpc/Ws.antt =====
-- src/src/rpc/ws_client/mod.rs: what the ws client does with a message. `W` is the state of the
-- socket and of the channels; errors of the library ws are their texts.
use substrate_api_client.Prelude.{◌≡◌, ap, inl, inr, String, none, some, Option-cases, Result-cases}
use substrate_api_client.Prelude.{Result, ok, err, panic, out_of_fuel, map_err, ◌>>=◌ as and_then}
use substrate_api_client.Rpc.Error.{RpcClientError, serde, send}
use substrate_api_client.Rpc.Action.{Action, lift, map_action_err, ◌>>=◌}
use substrate_api_client.Rpc.Tungstenite.{Network, send_message_to_client}

-- The calls of ws and of `std`: `Message` is a type of ws, and the channel of a request takes a
-- result.
pub record WsNetwork (W Message : Type 0) : Type 0 where
  pub close : Action W String Unit
  pub send_request : String → Action W String Unit
  pub as_text : Message → Result String String
  pub send_response : Result RpcClientError String → Action W String Unit
  -- The ws error that boxes an error of the client.
  pub boxed : RpcClientError → String

module _ {W Url Socket Json Message : Type 0} (net : Network W Url Socket Json)
    (ws : WsNetwork W Message) where
  -- `RpcClient::on_open`
  unfoldable pub on_open : String → Action W String Unit
  on_open request = ws.send_request request

  -- What is sent for a response: its result, or the error of reading it.
  unfoldable pub response : String → Result RpcClientError String
  response message = and_then (map_err serde (net.from_str message)) (λ v. ok (net.result_text v))

  -- `RequestHandler::handle_message`: a failure to close is only logged.
  unfoldable pub handle_request : Message → Action W String Unit
  unfolding response
  handle_request msg w =
      (lift (ws.as_text msg) >>= λ message.
      map_action_err (λ e. ws.boxed (send e)) (ws.send_response (response message)))
        (ws.close w).1

  -- What is done after sending to the channel of a subscription: where it failed, the socket closes.
  unfoldable pub after_send : Result {0, 0} String Unit → Action W String Unit
  after_send (ok _) w = (ok tt, w)
  after_send (err e) w = ws.close w
  after_send panic w = (panic, w)
  after_send out_of_fuel w = (out_of_fuel, w)

  -- `SubscriptionHandler::handle_message`
  unfoldable pub handle_notification : Message → Action W String Unit
  unfolding after_send
  handle_notification msg = lift (ws.as_text msg) >>= λ message.
      lift (map_err (λ e. ws.boxed (serde e)) (net.from_str message)) >>= λ value.
      elim (net.id_str value) [
        | some id ↦ lift (ok tt)
        | none ↦ lift (map_err (λ e. ws.boxed (serde e)) (net.params_result value)) >>= λ answer.
            λ w. after_send (net.send_result answer w).0 (net.send_result answer w).1
      ]

  -- Where the tungstenite client takes a text without an error, the ws client does the same with a
  -- message of that text: both return, with the same state of the channel behind.
  pub handle_notification-send_message_to_client :
      (msg : Message) (s : String)
      → ws.as_text msg ≡ ok s
      → (w u : W) → send_message_to_client net s w ≡ (ok tt, u)
      → handle_notification msg w ≡ (ok tt, u)
  unfolding handle_notification send_message_to_client after_send
  handle_notification-send_message_to_client msg s t w u h = elim (Result-cases (net.from_str s)) [
    | inl (v, a) ↦ elim (Option-cases (net.id_str v)) [
      | inl n ↦ elim (Result-cases (net.params_result v)) [
        | inl (x, p) ↦
            rw (t, a, n, p) (sent (net.send_result x w) (rw (a, n, p, send_message_to_client) at h))
        | inr (inl (x, p)) ↦ let y = rw (a, n, p, send_message_to_client) at h in cc
        | inr (inr (inl p)) ↦ let y = rw (a, n, p, send_message_to_client) at h in cc
        | inr (inr (inr p)) ↦ let y = rw (a, n, p, send_message_to_client) at h in cc
      ]
      | inr (i, n) ↦
          rw (t, a, n)
            (ap (λ q. (ok tt, q)) (ap (λ q. q.1) (rw (a, n, send_message_to_client) at h)))
    ]
    | inr (inl (x, a)) ↦ let y = rw (a, send_message_to_client) at h in cc
    | inr (inr (inl a)) ↦ let y = rw (a, send_message_to_client) at h in cc
    | inr (inr (inr a)) ↦ let y = rw (a, send_message_to_client) at h in cc
  ]
    where
      sent :
          (p : Result {0, 0} String Unit × W)
          → ◌≡◌ {A = Result {0, 0} RpcClientError Unit × W} (map_err send p.0, p.1) (ok tt, u)
          → after_send p.0 p.1 ≡ (ok tt, u)
      sent (ok _, v) e = ap (λ q. (ok tt, q)) (ap (λ q. q.1) e)
      sent (err x, v) e = cc
      sent (panic, v) e = cc
      sent (out_of_fuel, v) e = cc

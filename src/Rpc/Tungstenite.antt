-- ===== src/Rpc/Tungstenite.antt =====
-- src/src/rpc/tungstenite_client/client.rs: a client that opens a socket for each request, and one in
-- a thread for each subscription. `W` is the state of the network and of the channels.
use substrate_api_client.Prelude.{
  ℕ, zero, suc, String, Bool, true, false, Option, none, some, List, [], ◌∷◌, ltb, leb,
  if◌then◌else◌, not,
}
use substrate_api_client.Prelude.{Result, ok, err, panic, out_of_fuel, map_err, ◌>>=◌ as and_then}
use substrate_api_client.Rpc.Error.{
  RpcClientError, serde, send, connection_attempts_exceeded, connection_closed, client,
}
use substrate_api_client.Rpc.Action.{Action, Request, lift, map_action_err, then_do, ◌>>=◌}

-- `Message` of tungstenite; contents that nothing reads are left out.
pub data Message : Type 0 where
  text : String → Message
  binary ping pong close frame : Message

-- The calls of tungstenite and of `std`, of serde_json on the messages, and of `RpcParams`.
pub record Network (W Url Socket Json : Type 0) : Type 0 where
  pub connect_with_config : Url → Action W String Socket
  pub write_message : Socket → String → Action W String Unit
  pub read_message : Socket → Action W String Message
  pub sleep : W → W
  -- Into the channel of a subscription; an error gives the message back.
  pub send_result : String → Action W String Unit
  pub from_str : String → Result String Json
  -- `RpcParams::to_json_value`
  pub to_json_value : List Json → Result String Json
  -- `json!({…}).to_string()`, on the object's fields, and a text as a value of one
  pub object_text : List (String × Json) → String
  pub text_value : String → Json
  -- `value["result"].to_string()`
  pub result_text : Json → String
  -- `value["id"].as_str()`
  pub id_str : Json → Option String
  -- `serde_json::to_string(&value["params"]["result"])`
  pub params_result : Json → Result String String

pub record TungsteniteRpcClient (Url : Type 0) : Type 0 where
  pub url : Url
  pub max_attempts : ℕ

unfoldable pub do_reconnect : RpcClientError → Bool
do_reconnect (serde e) = true
do_reconnect connection_closed = true
do_reconnect (client e) = true
do_reconnect _ = false

module _ {W Url Socket Json : Type 0} (net : Network W Url Socket Json) where
  -- src/src/rpc/mod.rs
  unfoldable pub to_json_req : String → List Json → Result RpcClientError String
  to_json_req method params = and_then (map_err serde (net.to_json_value params)) (λ value. ok (
      net.object_text (
        ("method", net.text_value method)
        ∷ ("params", value)
        ∷ ("jsonrpc", net.text_value "2.0")
        ∷ ("id", net.text_value "1")
        ∷ [])))

  -- The outcome of a connection attempt at the loop's variable `current_attempt`; `again` is the
  -- loop from the next value on, which 255 does not have: adding to it panics.
  unfoldable pub after_attempt :
      ℕ → Action W RpcClientError Socket → Result String Socket → Action W RpcClientError Socket
  after_attempt current_attempt again (ok socket) w = (ok socket, w)
  after_attempt current_attempt again (err e) w =
      if ltb current_attempt 255 then again (net.sleep w) else (panic, net.sleep w)
  after_attempt current_attempt again panic w = (panic, w)
  after_attempt current_attempt again out_of_fuel w = (out_of_fuel, w)

  -- The loop of `attempt_connection_until`; `n` bounds its rounds.
  unfoldable pub attempts : Url → ℕ → ℕ → ℕ → Action W RpcClientError Socket
  unfolding after_attempt
  attempts url max_attempts zero current_attempt w = (out_of_fuel, w)
  attempts url max_attempts (suc n) current_attempt w =
      let again = attempts url max_attempts n (suc current_attempt) in
      let answer = net.connect_with_config url w in
      if leb current_attempt max_attempts
      then after_attempt current_attempt again answer.0 answer.1
      else (err connection_attempts_exceeded, w)

  -- `current_attempt` is a `u8`: there are at most 256 rounds, and one that ends the loop.
  unfoldable pub attempt_connection_until : Url → ℕ → Action W RpcClientError Socket
  unfolding attempts
  attempt_connection_until url max_attempts = attempts url max_attempts 257 0

  -- What is done with a message; `again` is the loop behind it.
  unfoldable pub after_read :
      Action W RpcClientError String → Message → Action W RpcClientError String
  after_read again (text s) w = (ok s, w)
  after_read again close w = (err connection_closed, w)
  after_read again _ w = again w

  -- `fuel` bounds how many messages are read.
  unfoldable pub read_until_text_message : ℕ → Socket → Action W RpcClientError String
  unfolding after_read
  read_until_text_message zero socket w = (out_of_fuel, w)
  read_until_text_message (suc fuel) socket w =
      let again = read_until_text_message fuel socket in
      let answer = net.read_message socket w in
      then_do (map_err client answer.0) answer.1 (after_read again)

  unfoldable pub direct_rpc_request :
      TungsteniteRpcClient Url → ℕ → String → Action W RpcClientError String
  unfolding attempt_connection_until read_until_text_message
  direct_rpc_request self fuel json_req =
      attempt_connection_until self.url self.max_attempts >>= λ socket.
      map_action_err client (net.write_message socket json_req) >>= λ _.
      read_until_text_message fuel socket >>= λ msg.
      lift (map_err serde (net.from_str msg)) >>= λ v. lift (ok (net.result_text v))

  -- `Request for TungsteniteRpcClient`
  unfoldable pub request :
      TungsteniteRpcClient Url
      → ℕ
      → {R : Type 0} → (Json → Result String R)
      → String
      → List Json
      → Action W RpcClientError R
  unfolding to_json_req direct_rpc_request
  request self fuel of method params = lift (to_json_req method params) >>= λ json_req.
      direct_rpc_request self fuel json_req >>= λ response.
      lift (map_err serde (net.from_str response)) >>= λ value. lift (map_err serde (of value))

  -- The client as the interface that the rest of the program uses.
  abbrev pub as_request : TungsteniteRpcClient Url → ℕ → Request Json W
  as_request self fuel = record { request = λ of method params. request self fuel of method params }

  unfoldable pub send_message_to_client : String → Action W RpcClientError Unit
  send_message_to_client message = lift (map_err serde (net.from_str message)) >>= λ value.
      elim (net.id_str value) [
        | some id ↦ lift (ok tt)
        | none ↦ lift (map_err serde (net.params_result value)) >>= λ answer.
            map_action_err send (net.send_result answer)
      ]

  -- The loop of `subscribe_to_server`, which only an error ends; `n` bounds its rounds.
  unfoldable pub forward : ℕ → ℕ → Socket → Action W RpcClientError Unit
  unfolding read_until_text_message send_message_to_client
  forward fuel zero socket w = (out_of_fuel, w)
  forward fuel (suc n) socket w =
      let again = forward fuel n socket in
      (read_until_text_message fuel socket >>= λ msg. send_message_to_client msg >>= λ _. again) w

  unfoldable pub subscribe_to_server : Url → ℕ → ℕ → ℕ → String → Action W RpcClientError Unit
  unfolding attempt_connection_until forward
  subscribe_to_server url max_attempts fuel n json_req =
      attempt_connection_until url max_attempts >>= λ socket.
      map_action_err client (net.write_message socket json_req) >>= λ _. forward fuel n socket

  -- What the thread of a subscription does after `subscribe_to_server` came back; `again` is the loop
  -- at the next value of `current_attempt`.
  unfoldable pub after_subscription :
      ℕ
      → Action W RpcClientError Unit
      → Result {0, 0} RpcClientError Unit
      → Action W RpcClientError Unit
  unfolding do_reconnect
  after_subscription current_attempt again (ok _) w =
      if ltb current_attempt 255 then again w else (panic, w)
  after_subscription current_attempt again (err e) w =
      if not (do_reconnect e)
      then (ok tt, w)
      else if ltb current_attempt 255
      then again w
      else (panic, w)
  after_subscription current_attempt again panic w = (panic, w)
  after_subscription current_attempt again out_of_fuel w = (out_of_fuel, w)

  -- The thread of `start_rpc_client_thread`; `rounds` bounds the rounds of its loop.
  unfoldable pub client_thread :
      TungsteniteRpcClient Url → ℕ → ℕ → String → ℕ → ℕ → Action W RpcClientError Unit
  unfolding subscribe_to_server after_subscription
  client_thread self fuel n json_req zero current_attempt w = (out_of_fuel, w)
  client_thread self fuel n json_req (suc rounds) current_attempt w =
      let again = client_thread self fuel n json_req rounds (suc current_attempt) in
      let answer = subscribe_to_server self.url self.max_attempts fuel n json_req w in
      if leb current_attempt self.max_attempts
      then after_subscription current_attempt again answer.0 answer.1
      else (ok tt, w)

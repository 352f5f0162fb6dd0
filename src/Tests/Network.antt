-- ===== src/Tests/Network.antt =====
-- A network that refuses two connections, and one that refuses all of them.
use substrate_api_client.Prelude.{
  ℕ, ◌+◌, ◌≡◌, ◌↔◌, ◌<◌, refl, String, none, [], Result, ok, err, panic, ltb, if◌then◌else◌, arith,
}
use substrate_api_client.Rpc.Error.{RpcClientError, connection_attempts_exceeded, connection_closed}
use substrate_api_client.Rpc.Tungstenite.{
  Network, TungsteniteRpcClient, to_json_req, text, ping, close, client_thread, subscribe_to_server,
  forward, attempt_connection_until, read_until_text_message, request, send_message_to_client,
}
use substrate_api_client.Rpc.Attempts.{
  Fails, no_more, once_more, attempt_connection_until-connects, attempt_connection_until-exceeds,
}
use substrate_api_client.Rpc.Subscribing.{client_thread-ends, client_thread-receiver_gone}
use substrate_api_client.Rpc.Ws.{
  WsNetwork, handle_notification, handle_notification-send_message_to_client,
}
use substrate_api_client.Rpc.Reading.{
  Skips, skip_no_more, skip_once_more, read_until_text_message_iff, request-answers,
}

-- The state counts what was done; after two refusals there are a connection, a write, a ping and
-- a text.
abbrev network : Network ℕ Unit ℕ String
network = record {
  connect_with_config = λ url n. (if ltb n 2 then err "refused" else ok 7, n + 1);
  write_message = λ socket s n. (ok tt, n + 1);
  read_message = λ socket n. (if ltb n 5 then ok ping else ok (text "answer"), n + 1);
  sleep = λ n. n;
  send_result = λ s n. (ok tt, n);
  from_str = λ s. ok s;
  to_json_value = λ ps. ok "[]";
  object_text = λ fs. "{}";
  text_value = λ s. s;
  result_text = λ s. s;
  id_str = λ s. none;
  params_result = λ s. ok s;
}

two_refusals : Fails network tt 2 0 2
two_refusals = once_more {k = 1} {u = 1} refl (once_more {k = 0} {u = 2} refl no_more)

attempt_connection_until-connects_example : attempt_connection_until network tt 3 0 ≡ (ok 7, 3)
attempt_connection_until-connects_example =
    attempt_connection_until-connects network tt 3 2 0 2 3 7 two_refusals refl (omega arith)
      (omega arith)

attempt_connection_until-exceeds_example :
    attempt_connection_until network tt 1 0
    ≡ (if ltb 1 255 then err connection_attempts_exceeded else panic, 2)
attempt_connection_until-exceeds_example =
    attempt_connection_until-exceeds network tt 1 0 2 two_refusals (omega arith)

one_ping : Skips network 7 1 4 5
one_ping = skip_once_more {k = 0} {u = 5} {m = ping} refl tt skip_no_more

read_until_text_message_iff_example : (read_until_text_message network 3 7 4 ≡ (ok "answer", 6)) ↔ (
    (k : ℕ) × (v : ℕ) × (k < 3)
    × Skips network 7 k 4 v
    × (network.read_message 7 v ≡ (ok (text "answer"), 6)))
read_until_text_message_iff_example = read_until_text_message_iff network 7 3 4 6 "answer"

abbrev client : TungsteniteRpcClient Unit
client = record { url = tt; max_attempts = 5 }

abbrev as_text : String → Result String String
as_text s = ok s

request_text : to_json_req network "chain_getBlockHash" [] ≡ ok "{}"
unfolding to_json_req
request_text = refl

request-answers_example :
    request network client 3 as_text "chain_getBlockHash" [] 0 ≡ (ok "answer", 6)
request-answers_example =
    request-answers network client (omega arith) as_text "chain_getBlockHash" [] "{}" request_text 2
      0 2 3 7 two_refusals refl (omega arith) 4 refl 1 3 5 6 "answer" one_ping refl (omega arith)
      "answer" "answer" "answer" refl refl refl

-- Closing adds one to the count.
abbrev ws : WsNetwork ℕ String
ws = record {
  close = λ n. (ok tt, n + 1);
  send_request = λ s n. (ok tt, n + 1);
  as_text = as_text;
  send_response = λ r n. (ok tt, n);
  boxed = λ e. "error";
}

handle_notification-send_message_to_client_example :
    handle_notification network ws "answer" 4 ≡ (ok tt, 4)
unfolding send_message_to_client
handle_notification-send_message_to_client_example =
    handle_notification-send_message_to_client network ws "answer" "answer" refl 4 4 refl

-- The same network, where the receiver of a subscription is gone.
abbrev dropped : Network ℕ Unit ℕ String
dropped = record network { send_result = λ s n. (err "gone", n + 1) }

client_thread-receiver_gone_example :
    client_thread dropped client 3 1 "chain_subscribeNewHead" 1 0 0 ≡ (ok tt, 7)
client_thread-receiver_gone_example =
    client_thread-receiver_gone dropped client (omega arith) "chain_subscribeNewHead" 2 0 2 3 7
      (once_more {k = 1} {u = 1} refl (once_more {k = 0} {u = 2} refl no_more)) refl (omega arith) 4
      refl 1 3 5 6 "answer" (skip_once_more {k = 0} {u = 5} {m = ping} refl tt skip_no_more) refl
      (omega arith) "answer" "answer" refl refl refl "gone" 7 refl 0 0

-- A network that closes every connection.
abbrev closing : Network ℕ Unit ℕ String
closing = record network {
  connect_with_config = λ url n. (ok 7, n + 1);
  read_message = λ socket n. (ok close, n + 1);
}

abbrev closed :
    (w : ℕ)
    → (e : RpcClientError) × (u : ℕ) × (subscribe_to_server closing tt 5 1 1
          "chain_subscribeNewHead" w
        ≡ (err e, u))
unfolding subscribe_to_server forward read_until_text_message
closed w = (connection_closed, w + 1 + 1 + 1, refl)

client_thread-ends_example :
    (u : ℕ) × (client_thread closing client 1 1 "chain_subscribeNewHead" 7 0 0 ≡ (ok tt, u))
client_thread-ends_example =
    client_thread-ends closing client 1 1 "chain_subscribeNewHead" closed (omega arith) 7
      (omega arith) 0

-- ===== src/Tests/Channel.antt =====
-- The channel of a subscription, with two notifications of which one is received.
use substrate_api_client.Prelude.{
  ℕ, ◌≡◌, refl, sym, ap, String, none, List, [], ◌∷◌, ◌++◌, map, Result, ok, err, arith,
}
use substrate_api_client.Rpc.Tungstenite.{Network, ping, send_message_to_client}
use substrate_api_client.Rpc.Subscription.{Threads, read, next}
use substrate_api_client.Rpc.Delivery.{IsQueue, Run, start, forwarded, delivered, Run-in_order}

abbrev as_text : String → Result String String
as_text s = ok s

-- A network of which only the channel of a subscription matters, and that channel.
abbrev channel : Network (List String) Unit ℕ String
channel = record {
  connect_with_config = λ url q. (ok 7, q);
  write_message = λ socket s q. (ok tt, q);
  read_message = λ socket q. (ok ping, q);
  sleep = λ q. q;
  send_result = λ s q. (ok tt, q ++ (s ∷ []));
  from_str = λ s. ok s;
  to_json_value = λ ps. ok "[]";
  object_text = λ fs. "{}";
  text_value = λ s. s;
  result_text = λ s. s;
  id_str = λ s. none;
  params_result = λ s. ok s;
}

abbrev take_first : List String → Result {0, 0} Unit String × List String
take_first [] = (err tt, [])
take_first (s ∷ q) = (ok s, q)

abbrev threads : Threads (List String)
threads = record { recv = take_first; spawn = λ t q. q }

take_first-cons : (s : String) (q u : List String) → take_first q ≡ (ok s, u) → q ≡ s ∷ u
take_first-cons s [] u h = cc
take_first-cons s (x ∷ q) u h = ground arith

channel-IsQueue : IsQueue channel threads (λ q. q)
channel-IsQueue = record { sends = λ s w u h. ap (λ p. p.1) (sym h); receives = take_first-cons }

two_and_one : Run channel threads as_text (λ q. q) [] ("a" ∷ "b" ∷ []) (ok "a" ∷ []) ("b" ∷ [])
unfolding send_message_to_client next
two_and_one = delivered (forwarded "b" (forwarded "a" start refl) refl) refl

Run-in_order_example :
    map (read channel threads as_text) ("a" ∷ "b" ∷ [])
    ≡ (ok "a" ∷ []) ++ map (read channel threads as_text) ("b" ∷ [])
Run-in_order_example = Run-in_order channel threads as_text (λ q. q) channel-IsQueue two_and_one

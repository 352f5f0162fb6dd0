-- ===== src/Rpc/Subscribing.antt =====
-- src/src/rpc/tungstenite_client/client.rs: the thread of a subscription.
use substrate_api_client.Prelude.{
  ℕ, zero, suc, ◌+◌, ◌≤◌, ◌<◌, ◌≡◌, refl, none, inl, inr, Bool-cases, String, true, ltb, leb, arith,
}
use substrate_api_client.Prelude.{ok, err}
use substrate_api_client.Rpc.Error.{RpcClientError, send}
use substrate_api_client.Rpc.Attempts.{Fails, le→leb, attempt_connection_until-connects}
use substrate_api_client.Rpc.Reading.{Skips, reads-text}
use substrate_api_client.Rpc.Tungstenite.{
  Network, text, forward, send_message_to_client, TungsteniteRpcClient, do_reconnect,
  after_subscription, client_thread, subscribe_to_server,
}

module _ {W Url Socket Json : Type 0} (net : Network W Url Socket Json)
    (self : TungsteniteRpcClient Url) (fuel n : ℕ) (json_req : String)
    (fails : (w : W)
      → (e : RpcClientError) × (u : W) × (subscribe_to_server net self.url self.max_attempts fuel n
            json_req w
          ≡ (err e, u)))
    (m : self.max_attempts < 255) where
  thread-ends :
      (rounds i : ℕ)
      → i ≤ suc self.max_attempts
      → suc self.max_attempts < rounds + i
      → (w : W) → (u : W) × (client_thread net self fuel n json_req rounds i w ≡ (ok tt, u))
  unfolding client_thread after_subscription
  thread-ends zero i l b w = let x : ⊥ = omega (arith, l, b) in absurd x
  thread-ends (suc rounds) i l b w = elim (Bool-cases (leb i self.max_attempts)) [
    | inr over ↦ (w, rw over refl)
    | inl more ↦
        let (e, u, s) = fails w in
        elim (Bool-cases (do_reconnect e)) [
          | inr stop ↦ (u, rw (more, s, stop) refl)
          | inl again ↦
              let (v, r) = thread-ends rounds (suc i) (next more) (omega (arith, b)) u in
              (v, rw (more, s, again, below more) r)
        ]
  ]
    where
      next : leb i self.max_attempts ≡ true → suc i ≤ suc self.max_attempts
      next y = ground arith

      below : leb i self.max_attempts ≡ true → ltb i 255 ≡ true
      below y = ground arith

  -- Where every connection of a subscription ends with an error sooner or later and `max_attempts`
  -- is below 255, the thread of the subscription ends: it connects at most `max_attempts` times
  -- again.
  pub client_thread-ends :
      (rounds : ℕ)
      → suc self.max_attempts < rounds
      → (w : W) → (u : W) × (client_thread net self fuel n json_req rounds 0 w ≡ (ok tt, u))
  client_thread-ends rounds l w = thread-ends rounds 0 (omega arith) (omega (arith, l)) w

module _ {W Url Socket Json : Type 0} (net : Network W Url Socket Json)
    (self : TungsteniteRpcClient Url) (m : self.max_attempts ≤ 255) (req : String) (k : ℕ)
    (w v u : W) (socket : Socket) (f : Fails net self.url k w v)
    (c : net.connect_with_config self.url v ≡ (ok socket, u)) (l : k ≤ self.max_attempts) (x : W)
    (b : net.write_message socket req u ≡ (ok tt, x)) (j fuel : ℕ) (y z : W) (s : String)
    (skips : Skips net socket j x y) (d : net.read_message socket y ≡ (ok (text s), z))
    (i : j < fuel) (message : Json) (answer : String) (g : net.from_str s ≡ ok message)
    (a : net.id_str message ≡ none) (p : net.params_result message ≡ ok answer) (e : String) (t : W)
    (h : net.send_result answer z ≡ (err e, t)) where
  subscribe_to_server-receiver_gone :
      (n : ℕ)
      → subscribe_to_server net self.url self.max_attempts fuel (suc n) req w ≡ (err (send e), t)
  unfolding subscribe_to_server forward send_message_to_client
  subscribe_to_server-receiver_gone n =
      let connects =
        attempt_connection_until-connects net self.url self.max_attempts k w v u socket f c l m in
      let reads = reads-text net socket j fuel x y z s skips d i in
      rw (connects, b, reads, g, a, p, h) refl

  -- Where the thread of a subscription connects, reads a text with a notification, and the receiver
  -- is gone, so that sending to it fails, the thread ends: it does not connect again.
  pub client_thread-receiver_gone :
      (n rounds : ℕ) → client_thread net self fuel (suc n) req (suc rounds) 0 w ≡ (ok tt, t)
  unfolding client_thread after_subscription do_reconnect
  client_thread-receiver_gone n rounds =
      rw (subscribe_to_server-receiver_gone n, le→leb 0 self.max_attempts (omega arith)) refl

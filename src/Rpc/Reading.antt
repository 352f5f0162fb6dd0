-- ===== src/Rpc/Reading.antt =====
-- src/src/rpc/tungstenite_client/client.rs: reading up to a text message, and a whole request.
use substrate_api_client.Prelude.{
  ℕ, zero, suc, ◌≤◌, ◌<◌, ◌≡◌, refl, ◌∙◌, ◌↔◌, ◌⊎◌, inl, inr, String, List, arith,
}
use substrate_api_client.Prelude.{Result, ok, err, panic, out_of_fuel, map_err}
use substrate_api_client.Rpc.Error.{RpcClientError, client}
use substrate_api_client.Rpc.Action.{Action, then_do}
use substrate_api_client.Rpc.Tungstenite.{
  to_json_req, Network, Message, TungsteniteRpcClient, text, binary, ping, pong, close, frame,
  after_read, read_until_text_message, direct_rpc_request, request,
}
use substrate_api_client.Rpc.Attempts.{Fails, attempt_connection_until-connects}

module _ {W Url Socket Json : Type 0} (net : Network W Url Socket Json) where
  -- Messages that are neither a text nor the end of the connection.
  abbrev pub IsSkipped : Message → Type 0
  IsSkipped (text s) = ⊥
  IsSkipped close = ⊥
  IsSkipped _ = Unit

  pub data Skips (socket : Socket) : ℕ → W → W → Type 0 where
    skip_no_more : {w : W} → Skips socket 0 w w
    skip_once_more :
        {k : ℕ} {w u v : W} {m : Message}
        → net.read_message socket w ≡ (ok m, u)
        → IsSkipped m
        → Skips socket k u v
        → Skips socket (suc k) w v

  module _ (socket : Socket) where
    skipped-after_read :
        (again : Action W RpcClientError String) (m : Message) (w : W)
        → IsSkipped m
        → after_read net again m w ≡ again w
    unfolding after_read
    skipped-after_read again (text s) w k = absurd k
    skipped-after_read again binary w k = refl
    skipped-after_read again ping w k = refl
    skipped-after_read again pong w k = refl
    skipped-after_read again close w k = absurd k
    skipped-after_read again frame w k = refl

    pub reads-text :
        (k fuel : ℕ) (w v u : W) (s : String)
        → Skips socket k w v
        → net.read_message socket v ≡ (ok (text s), u)
        → k < fuel
        → read_until_text_message net fuel socket w ≡ (ok s, u)
    unfolding read_until_text_message after_read
    reads-text k zero w v u s skips r l = let x : ⊥ = omega (arith, l) in absurd x
    reads-text zero (suc fuel) w v u s skip_no_more r l = rw r refl
    reads-text (suc k) (suc fuel) w v u s (skip_once_more {u = t} {m = m} e p skips) r l = rw e (
        skipped-after_read (read_until_text_message net fuel socket) m t p
        ∙ reads-text k fuel t v u s skips r (omega (arith, l)))

    -- What a successful read did with its first message.
    first_read :
        (again : Action W RpcClientError String) (answer : Result String Message × W) (s : String)
        (u : W)
        → then_do (map_err client answer.0) answer.1 (after_read net again) ≡ (ok s, u)
        → (answer ≡ (ok (text s), u))
          ⊎ ((m : Message) × (t : W) × (answer ≡ (ok m, t)) × IsSkipped m × (again t ≡ (ok s, u)))
    unfolding after_read
    first_read again (ok (text t), w) s u h = inl (texts h)
      where
        texts :
            {t : String} {w : W}
            → ◌≡◌ {A = Result RpcClientError String × W} (ok t, w) (ok s, u)
            → ◌≡◌ {A = Result String Message × W} (ok (text t), w) (ok (text s), u)
        texts e = cc
    first_read again (ok close, w) s u h = cc
    first_read again (ok binary, w) s u h = inr (binary, w, refl, tt, h)
    first_read again (ok ping, w) s u h = inr (ping, w, refl, tt, h)
    first_read again (ok pong, w) s u h = inr (pong, w, refl, tt, h)
    first_read again (ok frame, w) s u h = inr (frame, w, refl, tt, h)
    first_read again (err e, w) s u h = cc
    first_read again (panic, w) s u h = cc
    first_read again (out_of_fuel, w) s u h = cc

    text-read :
        (fuel : ℕ) (w u : W) (s : String)
        → read_until_text_message net fuel socket w ≡ (ok s, u)
        → (k : ℕ) × (v : W) × (k < fuel)
          × Skips socket k w v
          × (net.read_message socket v ≡ (ok (text s), u))
    unfolding read_until_text_message
    text-read zero w u s h = cc
    text-read (suc fuel) w u s h =
        elim (first_read (read_until_text_message net fuel socket) (net.read_message socket w) s u
          h) [
            | inl e ↦ (0, w, omega arith, skip_no_more, e)
            | inr (m, t, e, p, h₂) ↦
                let (k, v, l, skips, r) = text-read fuel t u s h₂ in
                (suc k, v, omega (arith, l), skip_once_more e p skips, r)
          ]

    -- Reading returns a text if and only if it is the first message, of those that the bound
    -- allows to read, that is not skipped: binary messages, pings, pongs and frames are, the end of
    -- the connection is not.
    pub read_until_text_message_iff :
        (fuel : ℕ) (w u : W) (s : String)
        → (read_until_text_message net fuel socket w ≡ (ok s, u)) ↔ (
            (k : ℕ) × (v : W) × (k < fuel)
            × Skips socket k w v
            × (net.read_message socket v ≡ (ok (text s), u)))
    read_until_text_message_iff fuel w u s =
        (text-read fuel w u s, λ (k, v, l, skips, r). reads-text k fuel w v u s skips r l)

  -- A request whose connection is made after at most `max_attempts` failed attempts, and to which
  -- a text comes after messages that are skipped, fewer than the bound on messages read, returns
  -- what is deserialized from the text's result.
  pub request-answers :
      (self : TungsteniteRpcClient Url)
      → self.max_attempts ≤ 255
      → {R : Type 0} (of : Json → Result String R) (method : String) (params : List Json)
        (req : String)
      → to_json_req net method params ≡ ok req
      → (k : ℕ) (w v u : W) (socket : Socket) → Fails net self.url k w v
      → net.connect_with_config self.url v ≡ (ok socket, u)
      → k ≤ self.max_attempts
      → (x : W) → net.write_message socket req u ≡ (ok tt, x)
      → (j fuel : ℕ) (y z : W) (s : String) → Skips socket j x y
      → net.read_message socket y ≡ (ok (text s), z)
      → j < fuel
      → (message answer : Json) (r : R) → net.from_str s ≡ ok message
      → net.from_str (net.result_text message) ≡ ok answer
      → of answer ≡ ok r
      → request net self fuel of method params w ≡ (ok r, z)
  unfolding request direct_rpc_request
  request-answers self m of method params req a k w v u socket f c l x b j fuel y z s skips d i
        message answer r e g h =
      let connects =
        attempt_connection_until-connects net self.url self.max_attempts k w v u socket f c l m in
      let reads = reads-text socket j fuel x y z s skips d i in
      rw a (rw (connects, b, reads, e, g, h) refl)

-- ===== src/Rpc/Delivery.antt =====
-- src/src/rpc/tungstenite_client: notifications go through the channel of a subscription in order.
use substrate_api_client.Prelude.{
  ◌≡◌, sym, ap, ◌∙◌, inl, inr, String, Option, none, some, Option-cases, Result-cases, List, [],
  ◌∷◌, ◌++◌, map, Result, ok, err, panic, out_of_fuel, map_err,
}
use mathlib.Core.List.{append_assoc, map-append, append-nil}
use substrate_api_client.Rpc.Error.{RpcClientError, send}
use substrate_api_client.Rpc.Tungstenite.{Network, send_message_to_client}
use substrate_api_client.Rpc.Subscription.{Threads, read, after_recv, next}

-- The channel as a queue: sending puts a text at its end, receiving takes the first.
pub record IsQueue {W Url Socket Json : Type 0} (net : Network W Url Socket Json) (std : Threads W)
    (queue : W → List String) : Type 0 where
  pub sends :
      (s : String) (w u : W) → net.send_result s w ≡ (ok tt, u) → queue u ≡ queue w ++ (s ∷ [])
  pub receives : (s : String) (w u : W) → std.recv w ≡ (ok s, u) → queue w ≡ s ∷ queue u

module _ {W Url Socket Json N : Type 0} (net : Network W Url Socket Json) (std : Threads W)
    (of : Json → Result String N) (queue : W → List String) where
  -- What a text from the node holds for the subscriber: a notification's result, and nothing in the
  -- answer to a request.
  abbrev pub results : String → List String
  results s = elim (net.from_str s) [
    | ok v ↦ elim (net.id_str v) [
      | some i ↦ []
      | none ↦ elim (net.params_result v) [ ok a ↦ a ∷ [] | _ ↦ [] ]
    ]
    | _ ↦ []
  ]

  -- Steps of the thread and of the subscriber in any order: the texts' results that were forwarded
  -- and the notifications that were received, and whatever else leaves the channel alone.
  pub data Run (w : W) : List String → List (Result RpcClientError N) → W → Type 0 where
    start : Run w [] [] w
    forwarded :
        {sent : List String} {got : List (Result RpcClientError N)} {u v : W} (s : String)
        → Run w sent got u
        → send_message_to_client net s u ≡ (ok tt, v)
        → Run w (sent ++ results s) got v
    delivered :
        {sent : List String} {got : List (Result RpcClientError N)} {u v : W}
        {r : Result RpcClientError N}
        → Run w sent got u
        → next net std of u ≡ (some r, v)
        → Run w sent (got ++ (r ∷ [])) v
    elsewhere :
        {sent : List String} {got : List (Result RpcClientError N)} {u v : W}
        → Run w sent got u
        → queue v ≡ queue u
        → Run w sent got v

  was_sent :
      (p : Result {0, 0} String Unit × W) {v : W}
      → ◌≡◌ {A = Result {0, 0} RpcClientError Unit × W} (map_err send p.0, p.1) (ok tt, v)
      → p ≡ (ok tt, v)
  was_sent (ok _, w) h = ap (λ q. (ok tt, q.1)) h
  was_sent (err e, w) h = cc
  was_sent (panic, w) h = cc
  was_sent (out_of_fuel, w) h = cc

  module _ (q : IsQueue net std queue) where
    queue-send_message_to_client :
        (s : String) (u v : W)
        → send_message_to_client net s u ≡ (ok tt, v)
        → queue v ≡ queue u ++ results s
    unfolding send_message_to_client
    queue-send_message_to_client s u v h = elim (Result-cases (net.from_str s)) [
      | inl (x, a) ↦ elim (Option-cases (net.id_str x)) [
        | inl n ↦ elim (Result-cases (net.params_result x)) [
          | inl (y, p) ↦
              rw (a, n, p, results)
                (q.sends y u v
                  (was_sent (net.send_result y u) (rw (a, n, p, send_message_to_client) at h)))
          | inr (inl (y, p)) ↦ let z = rw (a, n, p, send_message_to_client) at h in cc
          | inr (inr (inl p)) ↦ let z = rw (a, n, p, send_message_to_client) at h in cc
          | inr (inr (inr p)) ↦ let z = rw (a, n, p, send_message_to_client) at h in cc
        ]
        | inr (i, n) ↦
            let same : u ≡ v = ap (λ q. q.1) (rw (a, n, send_message_to_client) at h) in
            rw (a, n, ← same, results) (sym (append-nil (queue u)))
      ]
      | inr (inl (x, a)) ↦ let z = rw (a, send_message_to_client) at h in cc
      | inr (inr (inl a)) ↦ let z = rw (a, send_message_to_client) at h in cc
      | inr (inr (inr a)) ↦ let z = rw (a, send_message_to_client) at h in cc
    ]

    queue-next :
        (u v : W) (r : Result RpcClientError N)
        → next net std of u ≡ (some r, v)
        → (s : String) × (queue u ≡ s ∷ queue v) × (read net std of s ≡ r)
    unfolding next after_recv
    queue-next u v r h = let (s, e, p) = received (std.recv u) h in (s, q.receives s u v e, p)
      where
        received :
            (p : Result {0, 0} Unit String × W)
            → ◌≡◌ {A = Option (Result RpcClientError N) × W}
                (after_recv net std of p.0, p.1)
                (some r, v)
            → (s : String) × (p ≡ (ok s, v)) × (read net std of s ≡ r)
        received (ok s, w) h = (s, ap (λ q. (ok s, q.1)) h, cc)
        received (err e, w) h = cc
        received (panic, w) h = cc
        received (out_of_fuel, w) h = cc

    -- However the thread's sending and the subscriber's receiving interleave, the notifications
    -- received and behind them those that are read from what is in the channel are, in this order,
    -- what was in the channel at the start and behind it the results forwarded, each read: none is
    -- lost, doubled or overtaken. The channel is a queue.
    pub Run-in_order :
        {w u : W} {sent : List String} {got : List (Result RpcClientError N)}
        → Run w sent got u
        → map (read net std of) (queue w ++ sent) ≡ got ++ map (read net std of) (queue u)
    Run-in_order {w} start = ap (map (read net std of)) (append-nil (queue w))
    Run-in_order {w} (forwarded {sent = sent} {got = got} {u = u} {v = v} s run h) =
        let f = read net std of in
        rw
          (
            ← append_assoc (queue w) sent (results s),
            map-append f (queue w ++ sent) (results s),
            Run-in_order run,
            queue-send_message_to_client s u v h,
            map-append f (queue u) (results s),
          )
          (append_assoc got (map f (queue u)) (map f (results s)))
    Run-in_order {w} (delivered {sent = sent} {got = got} {u = u} {v = v} {r = r} run h) =
        let f = read net std of in
        let (s, e, p) = queue-next u v r h in
        Run-in_order run ∙ rw (e, p) (sym (append_assoc got (r ∷ []) (map f (queue v))))
    Run-in_order (elsewhere run e) = Run-in_order run ∙ rw e

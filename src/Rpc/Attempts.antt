-- ===== src/Rpc/Attempts.antt =====
-- src/src/rpc/tungstenite_client/client.rs: connecting again and again.
use substrate_api_client.Prelude.{
  ℕ, zero, suc, ◌+◌, ◌≤◌, ◌<◌, ◌≡◌, refl, ap, inl, inr, Bool-cases, ltb→lt, if◌then◌else◌, String,
  true, false, ltb, leb, lt→ltb, arith,
}
use substrate_api_client.Prelude.{ok, err, panic}
use substrate_api_client.Rpc.Error.{connection_attempts_exceeded}
use substrate_api_client.Rpc.Tungstenite.{
  Network, after_attempt, attempts, attempt_connection_until,
}

pub le→leb : (a b : ℕ) → a ≤ b → leb a b ≡ true
le→leb a b h = ground arith

pub lt→leb : (a b : ℕ) → b < a → leb a b ≡ false
lt→leb a b h = ground arith

le→ltb : (a b : ℕ) → b ≤ a → ltb a b ≡ false
le→ltb a b h = ground arith

module _ {W Url Socket Json : Type 0} (net : Network W Url Socket Json) where
  -- A number of attempts that fail, one after the other, each with a pause behind it.
  pub data Fails (url : Url) : ℕ → W → W → Type 0 where
    no_more : {w : W} → Fails url 0 w w
    once_more :
        {k : ℕ} {w u v : W} {e : String}
        → net.connect_with_config url w ≡ (err e, u)
        → Fails url k (net.sleep u) v
        → Fails url (suc k) w v

  Fails-zero : (url : Url) {w v : W} → Fails url 0 w v → w ≡ v
  Fails-zero url no_more = refl

  module _ (url : Url) (max_attempts : ℕ) where
    attempts-connects :
        (k : ℕ) (w v u : W) (socket : Socket)
        → Fails url k w v
        → net.connect_with_config url v ≡ (ok socket, u)
        → max_attempts ≤ 255
        → (n i : ℕ) → k < n
        → i + k ≤ max_attempts
        → attempts net url max_attempts n i w ≡ (ok socket, u)
    unfolding attempts after_attempt
    attempts-connects k w v u socket f c m zero i l b = let x : ⊥ = omega (arith, l) in absurd x
    attempts-connects zero w v u socket no_more c m (suc n) i l b =
        rw (le→leb i max_attempts (omega (arith, b)), c) refl
    attempts-connects (suc k) w v u socket (once_more e f) c m (suc n) i l b =
        rw (le→leb i max_attempts (omega (arith, b)), e, lt→ltb i 255 (omega (arith, b, m)))
          (attempts-connects k _ v u socket f c m n (suc i) (omega (arith, l)) (omega (arith, b)))

    attempts-exceeds :
        (k : ℕ) (w v : W)
        → Fails url k w v
        → max_attempts < 255
        → (n i : ℕ) → k < n
        → i + k ≡ suc max_attempts
        → attempts net url max_attempts n i w ≡ (err connection_attempts_exceeded, v)
    unfolding attempts after_attempt
    attempts-exceeds k w v f m zero i l b = let x : ⊥ = omega (arith, l) in absurd x
    attempts-exceeds zero w v no_more m (suc n) i l b =
        rw (lt→leb i max_attempts (omega (arith, b))) refl
    attempts-exceeds (suc k) w v (once_more e f) m (suc n) i l b =
        rw (le→leb i max_attempts (omega (arith, b)), e, lt→ltb i 255 (omega (arith, b, m)))
          (attempts-exceeds k _ v f m n (suc i) (omega (arith, l)) (omega (arith, b)))

    attempts-overflows :
        (k : ℕ) (w v : W)
        → Fails url k w v
        → max_attempts ≡ 255
        → (n i : ℕ) → k < n
        → i + k ≡ 256
        → 0 < k
        → attempts net url max_attempts n i w ≡ (panic, v)
    unfolding attempts after_attempt
    attempts-overflows k w v f m zero i l b p = let x : ⊥ = omega (arith, l) in absurd x
    attempts-overflows zero w v f m (suc n) i l b p = let x : ⊥ = omega (arith, p) in absurd x
    attempts-overflows (suc zero) w v (once_more e f) m (suc n) i l b p =
        rw (le→leb i max_attempts (omega (arith, b, m)), e, le→ltb i 255 (omega (arith, b)))
          (ap (λ x. (panic, x)) (Fails-zero url f))
    attempts-overflows (suc (suc k)) w v (once_more e f) m (suc n) i l b p =
        rw (le→leb i max_attempts (omega (arith, b, m)), e, lt→ltb i 255 (omega (arith, b)))
          (attempts-overflows (suc k) _ v f m n (suc i) (omega (arith, l)) (omega (arith, b))
            (omega arith))

    -- Where at most `max_attempts` attempts fail and the one behind them connects, its socket is
    -- returned.
    pub attempt_connection_until-connects :
        (k : ℕ) (w v u : W) (socket : Socket)
        → Fails url k w v
        → net.connect_with_config url v ≡ (ok socket, u)
        → k ≤ max_attempts
        → max_attempts ≤ 255
        → attempt_connection_until net url max_attempts w ≡ (ok socket, u)
    unfolding attempt_connection_until
    attempt_connection_until-connects k w v u socket f c l m =
        attempts-connects k w v u socket f c m 257 0 (omega (arith, l, m)) (omega (arith, l))

    -- Where one attempt more than `max_attempts` fails, no further one is made: the error is that
    -- there were too many, unless `max_attempts` is 255, where counting the attempts panics.
    pub attempt_connection_until-exceeds :
        (w v : W)
        → Fails url (suc max_attempts) w v
        → max_attempts ≤ 255
        → attempt_connection_until net url max_attempts w
          ≡ (if ltb max_attempts 255 then err connection_attempts_exceeded else panic, v)
    unfolding attempt_connection_until
    attempt_connection_until-exceeds w v f m = elim (Bool-cases (ltb max_attempts 255)) [
      | inl y ↦
          let l = ltb→lt max_attempts 255 y in
          rw y (attempts-exceeds (suc max_attempts) w v f l 257 0 (omega (arith, m)) (omega arith))
      | inr n ↦
          let e : max_attempts ≡ 255 = at_most max_attempts n m in
          rw n (
            attempts-overflows (suc max_attempts) w v f e 257 0 (omega (arith, m))
              (omega (arith, e)) (omega arith))
    ]
      where
        at_most : (a : ℕ) → ltb a 255 ≡ false → a ≤ 255 → a ≡ 255
        at_most a n m = ground arith

-- ===== src/Node/Events/Cover.antt =====
-- node-api/src/events.rs: the iterator over the events, call after call.
use substrate_api_client.Prelude.{
  ℕ, zero, suc, ◌+◌, ◌≤◌, ◌<◌, ◌≡◌, refl, sym, ◌∙◌, ap, ◌||◌, Bool-cases, false, inl, inr, none,
  some, List, [], ◌∷◌, ◌++◌, map, append_assoc,
}
use substrate_api_client.Prelude.{
  Bytes, length, drop, Result, ok, err, ◌>>=◌, Result-cases, arith, leb, ◌==◌,
}
use substrate_api_client.Codec.{Codec, Decoder}
use substrate_api_client.Decoder.Front.{Consumes, IsConsuming}
use substrate_api_client.Node.Error.{Error}
use substrate_api_client.Node.Events.Slices.{leb_of}
use substrate_api_client.Node.Events.Details.{EventDetails, decode_from, bytes}
use substrate_api_client.Node.Events.Parts.{decode_from-eq-ok}
use substrate_api_client.Node.Events.Layout.{rest-Decoded}
use substrate_api_client.Node.Events.Iterate.{Events, Position, next, Steps, stay, step}

-- The numbers i, i + 1, …, as many as the second argument says.
abbrev pub count_from : ℕ → ℕ → List ℕ
count_from i zero = []
count_from i (suc n) = i ∷ count_from (i + 1) n

module _ (c : Codec) (topics : Decoder (List Bytes)) (fuel : ℕ) {Hash : Type 0}
    (es : Events Hash) where
  -- What a call that returned an event has done.
  pub record Took (p : Position) (d : EventDetails) (q : Position) : Type 0 where
    pub inside : p.pos < length es.event_bytes
    pub counted : (es.num_events == p.index) ≡ false
    pub decoded : decode_from c topics fuel es.metadata es.event_bytes p.pos p.index ≡ ok d
    pub taken : Bytes
    pub of_bytes : bytes c topics fuel d ≡ ok taken
    pub pos : q.pos ≡ p.pos + length taken
    pub index : q.index ≡ p.index + 1

  guard_open : (n m i j : ℕ) → (leb n m || (i == j)) ≡ false → (m < n) × ((i == j) ≡ false)
  guard_open n m i j h = (ground arith, ground arith)

  pub next-eq-some :
      (p q : Position) (d : EventDetails) → next c topics fuel es p ≡ (some (ok d), q) → Took p d q
  unfolding next
  next-eq-some p q d h =
      elim (Bool-cases (leb (length es.event_bytes) p.pos || (es.num_events == p.index))) [
        | inl g ↦ let x = rw (g, next) at h in cc
        | inr g ↦
            elim (Result-cases
              (decode_from c topics fuel es.metadata es.event_bytes p.pos p.index)) [
                | inr (inl (e, f)) ↦ let x = rw (g, f, next) at h in cc
                | inr (inr (inl f)) ↦ let x = rw (g, f, next) at h in cc
                | inr (inr (inr f)) ↦ let x = rw (g, f, next) at h in cc
                | inl (d₂, f) ↦ elim (Result-cases (bytes c topics fuel d₂)) [
                  | inr (inl (e, b)) ↦ let x = rw (g, f, b, next) at h in cc
                  | inr (inr (inl b)) ↦ let x = rw (g, f, b, next) at h in cc
                  | inr (inr (inr b)) ↦ let x = rw (g, f, b, next) at h in cc
                  | inl (w, b) ↦
                      let x = rw (g, f, b, next) at h in
                      let same : d₂ ≡ d = cc in
                      let (lt, ne) =
                        guard_open (length es.event_bytes) p.pos es.num_events p.index g in
                      record {
                        inside = lt;
                        counted = ne;
                        decoded = rw (← same) f;
                        taken = w;
                        of_bytes = rw (← same) b;
                        pos = ap (λ r. r.1.pos) (sym x);
                        index = ap (λ r. r.1.index) (sym x);
                      }
                ]
              ]
      ]

  -- After a call that returned an error, from where there was still something to decode, every
  -- later call returns nothing and changes nothing.
  pub next-after_err :
      (p q : Position) (e : Error)
      → next c topics fuel es p ≡ (some (err e), q)
      → next c topics fuel es q ≡ (none, q)
  unfolding next
  next-after_err p q e h =
      elim (Bool-cases (leb (length es.event_bytes) p.pos || (es.num_events == p.index))) [
        | inl g ↦ let x = rw (g, next) at h in cc
        | inr g ↦
            elim (Result-cases
              (decode_from c topics fuel es.metadata es.event_bytes p.pos p.index)) [
                | inr (inl (e₂, f)) ↦
                    let x = rw (g, f, next) at h in
                    let at_end : length es.event_bytes ≡ q.pos = ap (λ r. r.1.pos) x in
                    rw (leb_of (length es.event_bytes) q.pos (omega arith))
                | inr (inr (inl f)) ↦ let x = rw (g, f, next) at h in cc
                | inr (inr (inr f)) ↦ let x = rw (g, f, next) at h in cc
                | inl (d₂, f) ↦ elim (Result-cases (bytes c topics fuel d₂)) [
                  | inr (inl (e₂, b)) ↦ let x = rw (g, f, b, next) at h in cc
                  | inr (inr (inl b)) ↦ let x = rw (g, f, b, next) at h in cc
                  | inr (inr (inr b)) ↦ let x = rw (g, f, b, next) at h in cc
                  | inl (w, b) ↦ let x = rw (g, f, b, next) at h in cc
                ]
              ]
      ]

  -- The bytes of events, one after the other.
  unfoldable pub all_bytes : List EventDetails → Result Error Bytes
  unfolding bytes
  all_bytes [] = ok []
  all_bytes (d ∷ ds) = bytes c topics fuel d >>= λ b. all_bytes ds >>= λ bs. ok (b ++ bs)

  Took-bytes :
      IsConsuming c
      → Consumes topics
      → (p q : Position) (d : EventDetails) (k : Took p d q)
      → (q.pos ≤ length es.event_bytes)
        × (drop p.pos es.event_bytes ≡ k.taken ++ drop q.pos es.event_bytes)
  Took-bytes l t p q d k =
      let w =
        decode_from-eq-ok c l topics t fuel es.metadata es.event_bytes p.pos p.index d k.decoded in
      let r =
        rest-Decoded c topics fuel es.metadata es.event_bytes p.pos p.index d w k.taken
          k.of_bytes in
      rw k.pos r

  -- The events taken by calls of the iterator have, one after the other, exactly the bytes between
  -- the first position and the last: none is skipped and none is read twice.
  -- The decoders that are called take bytes off the front of their input.
  pub Steps-all_bytes :
      IsConsuming c
      → Consumes topics
      → (p q : Position) (ds : List EventDetails) → Steps c topics fuel es p ds q
      → p.pos ≤ length es.event_bytes
      → (b : Bytes) × (all_bytes ds ≡ ok b)
        × (q.pos ≤ length es.event_bytes)
        × (drop p.pos es.event_bytes ≡ b ++ drop q.pos es.event_bytes)
  unfolding all_bytes
  Steps-all_bytes l t p q [] stay fits = ([], refl, fits, refl)
  Steps-all_bytes l t p r (d ∷ ds) (step {q = q} n s) fits =
      let k = next-eq-some p q d n in
      let (fits₂, e) = Took-bytes l t p q d k in
      let (b, a, i, f) = Steps-all_bytes l t q r ds s fits₂ in
      (
        k.taken ++ b,
        rw (k.of_bytes, a),
        i,
        e ∙ ap (λ x. k.taken ++ x) f ∙ sym (append_assoc k.taken b _),
      )

  -- The events taken have the indices from that of the first position on, one after the other, and
  -- no more events are taken than the encoded number says.
  -- The decoders that are called take bytes off the front of their input.
  pub Steps-index :
      IsConsuming c
      → Consumes topics
      → (p q : Position) (ds : List EventDetails) → Steps c topics fuel es p ds q
      → p.index ≤ es.num_events
      → (map (λ d. d.index) ds ≡ count_from p.index (length ds))
        × (q.index ≡ p.index + length ds)
        × (q.index ≤ es.num_events)
  Steps-index l t p q [] stay le = (refl, omega arith, le)
  Steps-index l t p r (d ∷ ds) (step {q = q} n s) le =
      let k = next-eq-some p q d n in
      let w =
        decode_from-eq-ok c l topics t fuel es.metadata es.event_bytes p.pos p.index d k.decoded in
      let ne = below es.num_events p.index k.counted in
      let (f, a, b) = Steps-index l t q r ds s (omega (arith, k.index)) in
      (
        rw (w.of_index) (ap (λ l. p.index ∷ l) (f ∙ ap (λ i. count_from i (length ds)) k.index)),
        omega (arith, a, k.index),
        b,
      )
    where
      below : (n i : ℕ) → (n == i) ≡ false → i ≤ n → i < n
      below n i ne le = ground arith

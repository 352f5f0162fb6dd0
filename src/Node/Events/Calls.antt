-- ===== src/Node/Events/Calls.antt =====
-- node-api/src/events.rs: a loop over the iterator makes no more calls of it than there are events,
-- and one for the end.
use substrate_api_client.Prelude.{
  ℕ, zero, suc, ◌+◌, ◌≤◌, ◌<◌, ◌≡◌, ◌≢◌, All, [], ◌∷◌, refl, ◌⊎◌, inl, inr, sym, Bool-cases,
  Result-cases, true, ◌||◌, leb, ==_iff, length, false, Option, none, some, List, Bytes, Result, ok,
  err, panic, out_of_fuel, ◌>>=◌, ◌==◌, arith,
}
use substrate_api_client.Codec.{Codec, Decoder}
use substrate_api_client.Node.Error.{Error}
use substrate_api_client.Node.Events.Details.{
  EventDetails, StaticEvent, as_event, decode_from, bytes,
}
use substrate_api_client.Node.Events.Iterate.{
  Events, Position, start, next, find_first, Steps, stay, step,
}
use substrate_api_client.Node.Events.Slices.{le_of}
use substrate_api_client.Node.Events.Cover.{next-eq-some}

-- What is no item.
abbrev pub IsStop : {E A : Type 0} → Result E A → Type 0
IsStop (ok a) = ⊥
IsStop _ = Unit

-- What a call of the iterator returns: nothing, an event, or no event.
pub item-cases :
    {E A : Type 0} (o : Option (Result E A))
    → (o ≡ none) ⊎ ((a : A) × (o ≡ some (ok a))) ⊎ ((r : Result E A) × (o ≡ some r) × IsStop r)
item-cases none = inl refl
item-cases (some (ok a)) = inr (inl (a, refl))
item-cases (some (err e)) = inr (inr (err e, refl, tt))
item-cases (some panic) = inr (inr (panic, refl, tt))
item-cases (some out_of_fuel) = inr (inr (out_of_fuel, refl, tt))

-- Where there is no item, what would be done with it does not matter.
pub stop->>= :
    {E A B : Type 0} (r : Result E A) (f g : A → Result E B) → IsStop r → (r >>= f) ≡ (r >>= g)
stop->>= (ok a) f g s = absurd s
stop->>= (err e) f g s = refl
stop->>= panic f g s = refl
stop->>= out_of_fuel f g s = refl

-- What is found is nothing, or else it is returned.
found-cases :
    {E : Type 0} (r : Result Error (Option E))
    → (r ≡ ok none)
      ⊎ ((r ≢ ok none)
          × ((rest : Result Error (Option E))
              → (r >>= λ found. elim found [ none ↦ rest | some x ↦ ok (some x) ]) ≡ r))
found-cases (ok none) = inl refl
found-cases (ok (some x)) = inr (λ h. cc, λ rest. refl)
found-cases (err e) = inr (λ h. cc, λ rest. refl)
found-cases panic = inr (λ h. cc, λ rest. refl)
found-cases out_of_fuel = inr (λ h. cc, λ rest. refl)

module _ (c : Codec) (topics : Decoder (List Bytes)) (fuel : ℕ) {Hash : Type 0}
    (es : Events Hash) where
  -- An event that a call returns is counted.
  pub next-counts :
      (p : Position) (d : EventDetails)
      → (next c topics fuel es p).0 ≡ some (ok d)
      → p.index ≤ es.num_events
      → ((next c topics fuel es p).1.index ≡ p.index + 1)
        × ((next c topics fuel es p).1.index ≤ es.num_events)
  next-counts p d e le =
      let k =
        next-eq-some c topics fuel es p (next c topics fuel es p).1 d
          (λ i. (e i, (next c topics fuel es p).1)) in
      let lt = below es.num_events p.index k.counted le in (k.index, omega (arith, k.index, lt))
    where
      below : (n i : ℕ) → (n == i) ≡ false → i ≤ n → i < n
      below n i ne le = ground arith

  guard_true : (n m i j : ℕ) → (leb n m || (i == j)) ≡ true → n ≤ m ⊎ (j ≡ i)
  guard_true n m i j h = elim (Bool-cases (leb n m)) [
    | inl t ↦ inl (le_of n m t)
    | inr f ↦ inr (sym ((==_iff i j).0 (rw f at h)))
  ]

  -- A call that returns nothing is behind the last byte or behind the last event.
  next-eq-none :
      (p : Position)
      → (next c topics fuel es p).0 ≡ none
      → length es.event_bytes ≤ p.pos ⊎ (p.index ≡ es.num_events)
  unfolding next
  next-eq-none p h =
      elim (Bool-cases (leb (length es.event_bytes) p.pos || (es.num_events == p.index))) [
        | inl g ↦ guard_true (length es.event_bytes) p.pos es.num_events p.index g
        | inr g ↦
            elim (Result-cases
              (decode_from c topics fuel es.metadata es.event_bytes p.pos p.index)) [
                | inr (inl (e, f)) ↦ let x = rw (g, f, next) at h in cc
                | inr (inr (inl f)) ↦ let x = rw (g, f, next) at h in cc
                | inr (inr (inr f)) ↦ let x = rw (g, f, next) at h in cc
                | inl (d, f) ↦ elim (Result-cases (bytes c topics fuel d)) [
                  | inr (inl (e, b)) ↦ let x = rw (g, f, b, next) at h in cc
                  | inr (inr (inl b)) ↦ let x = rw (g, f, b, next) at h in cc
                  | inr (inr (inr b)) ↦ let x = rw (g, f, b, next) at h in cc
                  | inl (w, b) ↦ let x = rw (g, f, b, next) at h in cc
                ]
              ]
      ]

  -- How a loop over the iterator ends at a position, and its result: all bytes are read or all
  -- events counted, or the next event is of the kind looked for or cannot be read as one, or there
  -- is no next one for an error, which is the result.
  abbrev pub EndsAt : {E : Type 0} → StaticEvent E → Position → Result Error (Option E) → Type 0
  EndsAt ev q r =
      ((length es.event_bytes ≤ q.pos ⊎ (q.index ≡ es.num_events)) × (r ≡ ok none))
      ⊎ ((d : EventDetails) × ((next c topics fuel es q).0 ≡ some (ok d))
          × (as_event c topics fuel d ev ≢ ok none)
          × (r ≡ as_event c topics fuel d ev))
      ⊎ ((item : Result Error EventDetails) × ((next c topics fuel es q).0 ≡ some item)
          × IsStop item
          × (r ≡ (item >>= λ d. ok none)))

  -- With more calls of the iterator than there are events, looking for the first event of a kind
  -- comes to an end: it passes over events that are not of the kind, taken one after the other from
  -- the start. Then all bytes are read or all events counted, and nothing is found; or the next
  -- event is of the kind or cannot be read as one, and the result is what it is read as; or there
  -- is an error in place of the next event, and the result is that error.
  pub find_first-ends :
      {E : Type 0} (ev : StaticEvent E) (n : ℕ)
      → es.num_events < n
      → (ds : List EventDetails) × (q : Position) × Steps c topics fuel es (start es) ds q
        × All (λ d. as_event c topics fuel d ev ≡ ok none) ds
        × EndsAt ev q (find_first c topics fuel es ev n (start es))
  unfolding find_first
  find_first-ends {E} ev n lt = from n (start es) (omega (arith, lt)) (omega arith)
    where
      from :
          (n : ℕ) (p : Position)
          → es.num_events < n + p.index
          → p.index ≤ es.num_events
          → (ds : List EventDetails) × (q : Position) × Steps c topics fuel es p ds q
            × All (λ d. as_event c topics fuel d ev ≡ ok none) ds
            × EndsAt ev q (find_first c topics fuel es ev n p)
      from zero p lt le = let x : ⊥ = omega (arith, lt, le) in absurd x
      from (suc n) p lt le = elim (item-cases (next c topics fuel es p).0) [
        | inl e ↦ ([], p, stay, tt, inl (next-eq-none p e, rw (e, find_first) refl))
        | inr (inl (d, e)) ↦
            let (i, le₂) = next-counts p d e le in
            let (ds, q, steps, passed, ends) =
              from n (next c topics fuel es p).1 (omega (arith, i, lt)) le₂ in
            elim (found-cases (as_event c topics fuel d ev)) [
              | inl other_kind ↦ (
                d ∷ ds,
                q,
                step (λ i. (e i, (next c topics fuel es p).1)) steps,
                (other_kind, passed),
                rw (e, other_kind, find_first) ends,
              )
              | inr other ↦
                  ([], p, stay, tt, inr (inl (d, e, other.0, rw (e, find_first) (other.1 _))))
            ]
        | inr (inr (r, e, s)) ↦
            ([], p, stay, tt, inr (inr (r, e, s, rw (e, find_first) (stop->>= r _ _ s))))
      ]

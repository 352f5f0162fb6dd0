-- ===== src/Client/FoundEvent.antt =====
-- src/src/api/rpc_api/subscribe_events.rs: the event that waiting returns is the first of its kind.
use substrate_api_client.Prelude.{
  ℕ, zero, suc, ◌≡◌, sym, ◌∙◌, ap, ◌⊎◌, inl, inr, Bool, true, false, Bool-cases, Option, none, some,
  List, [], ◌∷◌, ◌++◌, Bytes, All, Option-cases,
}
use substrate_api_client.Prelude.{
  Result, ok, err, panic, out_of_fuel, ◌>>=◌, >>=-open, map_err, map_err-eq-ok, ok-inj,
}
use substrate_api_client.Codec.{Codec, Decoder}
use substrate_api_client.Node.Metadata.Types.{Metadata, EventMetadata}
use substrate_api_client.Node.Dispatch
use substrate_api_client.Node.Error.{Error}
use substrate_api_client.Node.Events.Details.{
  EventDetails, StaticEvent, event_metadata, field_bytes,
}
use substrate_api_client.Node.Events.Iterate.{Events, Position, new, start, next, Steps, stay, step}
use substrate_api_client.Node.Events.Calls.{IsStop, item-cases}
use substrate_api_client.Rpc.Error.{RpcClientError}
use substrate_api_client.Client.Error.{ApiError, rpc_client, node_api}
use substrate_api_client.Client.WaitForEvent.{
  StorageChangeSet, first_change, extrinsic_has_failed, named_as, look_at, search,
  wait_for_event_details,
}

module _ (c : Codec) (topics : Decoder (List Bytes)) (fuel : ℕ) {E : Type 0} (ev : StaticEvent E)
    (m : Metadata) where
  -- An event that is no failed extrinsic, and is named as looked for or not.
  abbrev pub Seen : Bool → EventDetails → Type 0
  Seen named d =
      (e : EventMetadata) × (extrinsic_has_failed c topics fuel d ≡ ok false)
      × (event_metadata c topics fuel d ≡ ok e)
      × (named_as ev.pallet ev.event e ≡ named)

  look_at-eq-ok :
      (d : EventDetails) (rest : Result ApiError (Option EventDetails)) (o : Option EventDetails)
      → look_at c topics fuel ev m d rest ≡ ok o
      → (Seen true d × (o ≡ some d)) ⊎ (Seen false d × (rest ≡ ok o))
  unfolding look_at
  look_at-eq-ok d rest o h =
      >>=-open (map_err node_api (extrinsic_has_failed c topics fuel d)) _ h (λ failed a h₁.
        elim (Bool-cases failed) [
          | inl y ↦
              >>=-open (map_err node_api (field_bytes c topics fuel d)) _ (rw y at h₁) (λ b p h₂.
                >>=-open (map_err node_api (Dispatch.decode_from m b)) _ h₂ (λ e q h₃. cc))
          | inr n ↦
              >>=-open (map_err node_api (event_metadata c topics fuel d)) _ (rw n at h₁) (λ e p h₂.
                let f = map_err-eq-ok node_api _ a ∙ ap ok n in
                let g = map_err-eq-ok node_api _ p in
                elim (Bool-cases (named_as ev.pallet ev.event e)) [
                  | inl t ↦ inl ((e, f, g, t), ok-inj (sym (rw t at h₂)))
                  | inr t ↦ inr ((e, f, g, t), rw t at h₂)
                ])
        ])

  -- The search of a block's events that finds one: the events before it are passed over.
  search-eq-some :
      {Hash : Type 0} (es : Events Hash) (n : ℕ) (p : Position) (d : EventDetails)
      → search c topics fuel ev m es n p ≡ ok (some d)
      → (ds : List EventDetails) × (q : Position) × Steps c topics fuel es p (ds ++ (d ∷ [])) q
        × All (Seen false) ds
        × Seen true d
  unfolding search
  search-eq-some es zero p d h = cc
  search-eq-some es (suc n) p d h = elim (item-cases (next c topics fuel es p).0) [
    | inl e ↦ let x = rw (e, search) at h in cc
    | inr (inl (d₂, e)) ↦
        let call : next c topics fuel es p ≡ (some (ok d₂), (next c topics fuel es p).1) =
          λ i. (e i, (next c topics fuel es p).1) in
        elim (look_at-eq-ok d₂ _ _ (rw (e, search) at h)) [
          | inl (s, f) ↦
              let same : d₂ ≡ d = cc in
              ([], (next c topics fuel es p).1, rw (← same) (step call stay), tt, rw (← same) s)
          | inr (s, f) ↦
              let (ds, q, steps, a, t) = search-eq-some es n (next c topics fuel es p).1 d f in
              (d₂ ∷ ds, q, step call steps, (s, a), t)
        ]
    | inr (inr (r, e, s)) ↦ stopped _ r s (rw (e, search) at h)
  ]
    where
      stopped :
          {A : Type 0} (f : EventDetails → Result ApiError A) {a : A} {C : Type 0}
          (r : Result Error EventDetails)
          → IsStop r
          → (map_err node_api r >>= f) ≡ ok a
          → C
      stopped f (ok x) s h = absurd s
      stopped f (err x) s h = cc
      stopped f panic s h = cc
      stopped f out_of_fuel s h = cc

  module _ {Hash : Type 0} (hash : Hash) where
    abbrev events_of : Bytes → Events Hash
    events_of b = new c m hash b

    -- A change set with an events value in which the search finds nothing.
    abbrev pub FindsNothing : Result RpcClientError (StorageChangeSet Hash) → Type 0
    FindsNothing item =
        (set : StorageChangeSet Hash) × (b : Bytes) × (item ≡ ok set)
        × (first_change set ≡ ok b)
        × (search c topics fuel ev m (events_of b) (suc (events_of b).num_events)
              (start (events_of b))
            ≡ ok none)

    -- When waiting returns an event, it is an event of the first change set in which the search
    -- finds one: it is named as looked for and no failed extrinsic, and the events before it in
    -- that block are neither named so nor failed extrinsics.
    pub wait_for_event_details-first :
        (items : List (Result RpcClientError (StorageChangeSet Hash))) (d : EventDetails)
        → wait_for_event_details c topics fuel ev m hash items ≡ ok d
        → (before : List (Result RpcClientError (StorageChangeSet Hash))) × (set : StorageChangeSet
            Hash)
          × (after : List (Result RpcClientError (StorageChangeSet Hash))) × (b : Bytes)
          × (ds : List EventDetails) × (q : Position) × (items ≡ before ++ (ok set ∷ after))
          × All FindsNothing before
          × (first_change set ≡ ok b)
          × Steps c topics fuel (events_of b) (start (events_of b)) (ds ++ (d ∷ [])) q
          × All (Seen false) ds
          × Seen true d
    unfolding wait_for_event_details
    wait_for_event_details-first [] d h = cc
    wait_for_event_details-first (item ∷ items) d h =
        >>=-open (map_err rpc_client item) _ h (λ set a h₁.
          >>=-open (first_change set) _ h₁ (λ b p h₂.
            >>=-open
              (search c topics fuel ev m (events_of b) (suc (events_of b).num_events)
                (start (events_of b)))
              _ h₂
              (λ found f h₃. elim (Option-cases found) [
                | inl n ↦
                    let (before, set₂, after, b₂, ds, q, e, all, v, w, x, y) =
                      wait_for_event_details-first items d (rw n at h₃) in
                    let g = map_err-eq-ok rpc_client item a in
                    (
                      item ∷ before,
                      set₂,
                      after,
                      b₂,
                      ds,
                      q,
                      ap (λ l. item ∷ l) e,
                      ((set, b, g, p, f ∙ ap ok n), all),
                      v,
                      w,
                      x,
                      y,
                    )
                | inr (x, y) ↦
                    let same : x ≡ d = ok-inj (rw y at h₃) in
                    let (ds, q, steps, w, v) =
                      search-eq-some (events_of b) (suc (events_of b).num_events)
                        (start (events_of b)) d (f ∙ ap ok (y ∙ ap some same)) in
                    let g = map_err-eq-ok rpc_client item a in
                    ([], set, items, b, ds, q, ap (λ l. l ∷ items) g, tt, p, steps, w, v)
              ])))

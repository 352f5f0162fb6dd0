-- ===== src/Node/Events/Iterate.antt =====
-- node-api/src/events.rs: `Events` and its iterator.
use substrate_api_client.Prelude.{
  ℕ, zero, suc, ◌+◌, ◌-◌, ◌||◌, ◌≡◌, Bool, true, false, Option, none, some, List, [], ◌∷◌, Bytes,
  length,
}
use substrate_api_client.Prelude.{
  Result, ok, err, panic, out_of_fuel, ◌>>=◌, if◌then◌else◌, leb, ◌==◌,
}
use substrate_api_client.Codec.{Codec, Decoder, w32}
use substrate_api_client.Node.Metadata.Types.{Metadata}
use substrate_api_client.Node.Error.{Error}
use substrate_api_client.Node.Events.Details.{
  EventDetails, StaticEvent, decode_from, bytes, as_event,
}

pub record Events (Hash : Type 0) : Type 0 where
  pub metadata : Metadata
  pub block_hash : Hash
  pub event_bytes : Bytes
  pub start_idx : ℕ
  pub num_events : ℕ

-- What the closure of `iter` captures by `mut`.
pub record Position : Type 0 where
  pub pos : ℕ
  pub index : ℕ

module _ (c : Codec) {Hash : Type 0} where
  -- Where the number of events cannot be decoded, it is 0. (What the failed decoding took off is
  -- then the start, which is written 0 here: with no events, no position is looked at.)
  unfoldable pub new : Metadata → Hash → Bytes → Events Hash
  new m block_hash event_bytes = elim (c.decode_compact w32 event_bytes) [
    | ok p ↦ record {
      metadata = m;
      block_hash = block_hash;
      event_bytes = event_bytes;
      start_idx = length event_bytes - length p.1;
      num_events = p.0;
    }
    | _ ↦ record {
      metadata = m;
      block_hash = block_hash;
      event_bytes = event_bytes;
      start_idx = 0;
      num_events = 0;
    }
  ]

module _ {Hash : Type 0} (es : Events Hash) where
  unfoldable pub is_empty : Bool
  is_empty = es.num_events == 0

  abbrev pub start : Position
  start = record { pos = es.start_idx; index = 0 }

module _ (c : Codec) (topics : Decoder (List Bytes)) (fuel : ℕ) {Hash : Type 0}
    (es : Events Hash) where
  -- One call of the closure: the item, if there is one, and the variables behind it. An item
  -- that panics ends the iteration.
  unfoldable pub next : Position → Option (Result Error EventDetails) × Position
  unfolding decode_from bytes
  next p =
      if leb (length es.event_bytes) p.pos || (es.num_events == p.index)
      then (none, p)
      else elim (decode_from c topics fuel es.metadata es.event_bytes p.pos p.index) [
        | ok d ↦ elim (bytes c topics fuel d) [
          | ok b ↦ (some (ok d), record { pos = p.pos + length b; index = p.index + 1 })
          | _ ↦ (some panic, p)
        ]
        | err e ↦ (some (err e), record { pos = length es.event_bytes; index = p.index })
        | panic ↦ (some panic, p)
        | out_of_fuel ↦ (some out_of_fuel, p)
      ]

  -- Events taken one after the other, from one position to another.
  pub data Steps : Position → List EventDetails → Position → Type 0 where
    stay : {p : Position} → Steps p [] p
    step :
        {p q r : Position} {d : EventDetails} {ds : List EventDetails}
        → next p ≡ (some (ok d), q)
        → Steps q ds r
        → Steps p (d ∷ ds) r

  -- `find_first`: the first item of the iterator that is an error or the event looked for. `n`
  -- bounds the calls of `next`.
  unfoldable pub find_first : {E : Type 0} → StaticEvent E → ℕ → Position → Result Error (Option E)
  unfolding next as_event
  find_first ev zero p = out_of_fuel
  find_first ev (suc n) p =
      let step = next p in
      let rest = find_first ev n step.1 in
      elim step.0 [
        | none ↦ ok none
        | some item ↦ item >>= λ d. as_event c topics fuel d ev >>= λ found. elim found [
          | none ↦ rest
          | some e ↦ ok (some e)
        ]
      ]

  unfoldable pub has : {E : Type 0} → StaticEvent E → ℕ → Position → Result Error Bool
  unfolding find_first
  has ev n p = find_first ev n p >>= λ found. elim found [ none ↦ ok false | some e ↦ ok true ]

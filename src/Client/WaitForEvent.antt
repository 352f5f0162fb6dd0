-- ===== src/Client/WaitForEvent.antt =====
-- src/src/api/rpc_api/subscribe_events.rs: waiting for an event in the change sets of a subscription,
-- which are a list that ends where `next` returns `None`.
use substrate_api_client.Prelude.{
  ℕ, zero, suc, ◌&&◌, String, Bool, Option, none, some, List, [], ◌∷◌, Bytes,
}
use substrate_api_client.Prelude.{
  Result, ok, err, panic, out_of_fuel, ◌>>=◌, map_err, if◌then◌else◌, str_eq,
}
use substrate_api_client.Codec.{Codec, Decoder}
use substrate_api_client.Node.Metadata.Types.{Metadata, EventMetadata}
use substrate_api_client.Node.Error
use substrate_api_client.Node.Dispatch
use substrate_api_client.Node.Events.Details.{
  EventDetails, StaticEvent, pallet_name, variant_name, event_metadata, field_bytes, as_event,
}
use substrate_api_client.Node.Events.Iterate.{Events, Position, new, start, next}
use substrate_api_client.Rpc.Error.{RpcClientError}
use substrate_api_client.Client.Error.{ApiError, rpc_client, node_api, dispatch, no_stream, other}

-- `StorageChangeSet` of sp_core.
pub record StorageChangeSet (Hash : Type 0) : Type 0 where
  pub block : Hash
  pub changes : List (Bytes × Option Bytes)

-- `changes[0].1.as_ref().unwrap()`
unfoldable pub first_change : {Hash : Type 0} → StorageChangeSet Hash → Result ApiError Bytes
first_change set = elim set.changes [
  | [] ↦ panic
  | change ∷ _ ↦ elim change.1 [ none ↦ panic | some value ↦ ok value ]
]

abbrev pub named_as : String → String → EventMetadata → Bool
named_as pallet event e = str_eq e.pallet pallet && str_eq e.event event

module _ (c : Codec) (topics : Decoder (List Bytes)) (fuel : ℕ) where
  unfoldable pub extrinsic_has_failed : EventDetails → Result Error.Error Bool
  unfolding pallet_name variant_name
  extrinsic_has_failed d = do
    pallet ← pallet_name c topics fuel d
    variant ← variant_name c topics fuel d
    ok (str_eq pallet "System" && str_eq variant "ExtrinsicFailed")

  module _ {E : Type 0} (ev : StaticEvent E) (m : Metadata) where
    -- The body of the loop over events; `rest` is what the loop does after this event.
    unfoldable pub look_at :
        EventDetails → Result ApiError (Option EventDetails) → Result ApiError (Option EventDetails)
    unfolding extrinsic_has_failed field_bytes event_metadata Dispatch.decode_from
    look_at d rest = do
      failed ← map_err node_api (extrinsic_has_failed d)
      if failed
          then (map_err node_api (field_bytes c topics fuel d) >>= λ b.
              map_err node_api (Dispatch.decode_from m b) >>= λ e. err (dispatch e))
          else (map_err node_api (event_metadata c topics fuel d) >>= λ e.
              if named_as ev.pallet ev.event e then ok (some d) else rest)

    -- The loop over the events of a block. `n` bounds the calls of `next`.
    unfoldable pub search :
        {Hash : Type 0} → Events Hash → ℕ → Position → Result ApiError (Option EventDetails)
    unfolding next look_at
    search es zero p = out_of_fuel
    search es (suc n) p =
        let step = next c topics fuel es p in
        let rest = search es n step.1 in
        elim step.0 [ none ↦ ok none | some item ↦ map_err node_api item >>= λ d. look_at d rest ]

    -- `Default::default()` is a hash that nothing reads. More calls of `next` than there are events
    -- are not made.
    unfoldable pub wait_for_event_details :
        {Hash : Type 0}
        → Hash
        → List (Result RpcClientError (StorageChangeSet Hash))
        → Result ApiError EventDetails
    unfolding search first_change new
    wait_for_event_details hash [] = err no_stream
    wait_for_event_details hash (item ∷ items) =
        let later = wait_for_event_details hash items in
        map_err rpc_client item >>= λ set. first_change set >>= λ event_bytes.
        let es = new c m hash event_bytes in
        search es (suc es.num_events) (start es) >>= λ found. elim found [
          | none ↦ later
          | some d ↦ ok d
        ]

    unfoldable pub wait_for_event :
        {Hash : Type 0}
        → Hash
        → List (Result RpcClientError (StorageChangeSet Hash))
        → Result ApiError E
    unfolding wait_for_event_details as_event
    wait_for_event hash items = do
      d ← wait_for_event_details hash items
      found ← map_err node_api (as_event c topics fuel d ev)
      elim found [ none ↦ err (other "Could not find the specific event") | some e ↦ ok e ]

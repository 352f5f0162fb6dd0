-- ===== src/Tests/Waiting.antt =====
-- Waiting for the transfer of the sample block, and looking for it.
use substrate_api_client.Prelude.{
  true, false, ℕ, ◌≡◌, refl, none, some, List, [], ◌∷◌, ◌++◌, Bytes, All, Result, ok, arith,
}
use substrate_api_client.Codec.Sample.Instance.{sample_codec}
use substrate_api_client.Decoder.Decode.{decode_value_as_type}
use substrate_api_client.Node.Maps.{text}
use substrate_api_client.Node.Metadata.Types.{find_event}
use substrate_api_client.Node.Events.Details.{EventDetails, StaticEvent, as_event}
use substrate_api_client.Node.Events.Iterate.{Position, new, start, find_first, Steps}
use substrate_api_client.Node.Events.Calls.{EndsAt, find_first-ends}
use substrate_api_client.Rpc.Error.{RpcClientError}
use substrate_api_client.Client.WaitForEvent.{
  StorageChangeSet, first_change, wait_for_event_details,
}
use substrate_api_client.Client.FoundEvent.{Seen, FindsNothing, wait_for_event_details-first}
use substrate_api_client.Tests.Sample.{metadata}
use substrate_api_client.Tests.Events.{topics, block, events, transfer}

abbrev transfers : StaticEvent Bytes
transfers = record { pallet = "Balances"; event = "Transfer"; decode = λ b. ok b }

find_first-ends_example :
    (ds : List EventDetails) × (q : Position) × Steps sample_codec topics 5 events
      (start events)
      ds
      q
    × All (λ d. as_event sample_codec topics 5 d transfers ≡ ok none) ds
    × EndsAt sample_codec topics 5 events transfers q
        (find_first sample_codec topics 5 events transfers 2 (start events))
find_first-ends_example = find_first-ends sample_codec topics 5 events transfers 2 (omega arith)

abbrev change_set : Bytes → StorageChangeSet ℕ
change_set b = record { block = 1; changes = ([], some b) ∷ [] }

-- A block without events, and then the block with the transfer.
abbrev items : List (Result RpcClientError (StorageChangeSet ℕ))
items = ok (change_set (0 ∷ [])) ∷ ok (change_set block) ∷ []

found : wait_for_event_details sample_codec topics 5 transfers metadata 0 items ≡ ok transfer
unfolding wait_for_event_details sample_codec topics text find_event decode_value_as_type
found = refl

wait_for_event_details-first_example :
    (before : List (Result RpcClientError (StorageChangeSet ℕ))) × (set : StorageChangeSet ℕ)
    × (after : List (Result RpcClientError (StorageChangeSet ℕ))) × (b : Bytes) × (ds : List
        EventDetails)
    × (q : Position) × (items ≡ before ++ (ok set ∷ after))
    × All (FindsNothing sample_codec topics 5 transfers metadata 0) before
    × (first_change set ≡ ok b)
    × Steps sample_codec topics 5 {Hash = ℕ}
        (new sample_codec metadata 0 b)
        (start {Hash = ℕ} (new sample_codec metadata 0 b))
        (ds ++ (transfer ∷ []))
        q
    × All (Seen sample_codec topics 5 transfers metadata false) ds
    × Seen sample_codec topics 5 transfers metadata true transfer
wait_for_event_details-first_example =
    wait_for_event_details-first sample_codec topics 5 transfers metadata 0 items transfer found

-- ===== src/Tests/Events.antt =====
-- The events of a block with one transfer.
use substrate_api_client.Prelude.{
  ℕ, zero, suc, ◌≤◌, ◌≡◌, refl, none, some, List, [], ◌∷◌, ◌++◌, map, Bytes, drop, ok, err, ◌>>=◌,
  arith,
}
use substrate_api_client.Codec.{Decoder, w32}
use substrate_api_client.Codec.Sample.Instance.{sample_codec}
use substrate_api_client.Codec.Sample.Texts.{read_array}
use substrate_api_client.Codec.Sample.Consuming.{sample_codec-IsConsuming, read_array-Consumes}
use substrate_api_client.Decoder.Front.{Consumes, bind, done}
use substrate_api_client.Node.Error.{codec}
use substrate_api_client.Node.Maps.{text}
use substrate_api_client.Node.Metadata.Types.{find_event}
use substrate_api_client.Decoder.Decode.{decode_value_as_type}
use substrate_api_client.Node.Events.Details.{
  EventDetails, apply_extrinsic, decode_from, bytes, field_bytes, pallet_index, variant_index,
  event_metadata,
}
use substrate_api_client.Node.Events.Iterate.{Events, Position, new, start, next, Steps, stay, step}
use substrate_api_client.Node.Events.Parts.{Decoded}
use substrate_api_client.Node.Events.Layout.{decode_from-accessors}
use substrate_api_client.Node.Events.Cover.{
  all_bytes, count_from, Steps-all_bytes, Steps-index, next-after_err,
}
use substrate_api_client.Tests.Sample.{metadata}

hashes : ℕ → Decoder (List Bytes)
unfolding read_array
hashes zero b = ok ([], b)
hashes (suc n) b = read_array 32 b >>= λ p. hashes n p.1 >>= λ q. ok (p.0 ∷ q.0, q.1)

-- A vector of 32-byte hashes.
unfoldable pub topics : Decoder (List Bytes)
unfolding hashes sample_codec
topics b = sample_codec.decode_compact w32 b >>= λ p. hashes p.0 p.1

hashes-Consumes : (n : ℕ) → Consumes (hashes n)
unfolding hashes
hashes-Consumes zero b = done _ b
hashes-Consumes (suc n) b =
    bind _ _ b (read_array-Consumes 32 b)
      (λ a r. bind _ _ r (hashes-Consumes n r) (λ s t. done _ t))

topics-Consumes : Consumes topics
unfolding topics
topics-Consumes b = bind _ _ b (sample_codec-IsConsuming.compact w32 b) (λ n r. hashes-Consumes n r)

abbrev pub block : Bytes
block = 4 ∷ 0 ∷ 0 ∷ 0 ∷ 0 ∷ 0 ∷ 5 ∷ 1 ∷ 145 ∷ 1 ∷ 9 ∷ 0 ∷ []

abbrev pub events : Events ℕ
events = record {
  metadata = metadata;
  block_hash = 0;
  event_bytes = block;
  start_idx = 1;
  num_events = 1;
}

events_are_new : new sample_codec metadata 0 block ≡ events
unfolding new sample_codec
events_are_new = refl

abbrev pub transfer : EventDetails
transfer = record {
  phase = apply_extrinsic 0;
  index = 0;
  all_bytes = block;
  start_idx = 1;
  fields_start_idx = 8;
  fields_end_idx = 11;
  end_idx = 12;
  metadata = metadata;
}

abbrev last : Position
last = record { pos = 12; index = 1 }

first_next : next sample_codec topics 5 events (start events) ≡ (some (ok transfer), last)
unfolding next sample_codec topics text find_event decode_value_as_type
first_next = refl

one_step : Steps sample_codec topics 5 events (start events) (transfer ∷ []) last
one_step = step first_next stay

Steps-all_bytes_example :
    (b : Bytes) × (all_bytes sample_codec topics 5 events (transfer ∷ []) ≡ ok b)
    × (12 ≤ 12)
    × (drop 1 block ≡ b ++ drop 12 block)
Steps-all_bytes_example =
    Steps-all_bytes sample_codec topics 5 events sample_codec-IsConsuming topics-Consumes
      (start events) last (transfer ∷ []) one_step (omega arith)

Steps-index_example :
    (map (λ (d : EventDetails). d.index) (transfer ∷ []) ≡ count_from 0 1)
    × (◌≡◌ {A = ℕ} 1 1)
    × (1 ≤ 1)
Steps-index_example =
    Steps-index sample_codec topics 5 events sample_codec-IsConsuming topics-Consumes (start events)
      last (transfer ∷ []) one_step (omega arith)

transfer_decoded : decode_from sample_codec topics 5 metadata block 1 0 ≡ ok transfer
unfolding decode_from sample_codec topics text find_event decode_value_as_type
transfer_decoded = refl

decode_from-accessors_example :
    (w : Decoded sample_codec topics 5 metadata block 1 0 transfer) × (bytes sample_codec topics 5
        transfer
      ≡ ok (w.phase_bytes ++ (w.pallet ∷ w.variant ∷ (w.fields ++ w.topics))))
    × (field_bytes sample_codec topics 5 transfer ≡ ok w.fields)
    × (pallet_index sample_codec topics 5 transfer ≡ ok w.pallet)
    × (variant_index sample_codec topics 5 transfer ≡ ok w.variant)
    × (event_metadata sample_codec topics 5 transfer ≡ ok w.entry)
decode_from-accessors_example =
    decode_from-accessors sample_codec sample_codec-IsConsuming topics topics-Consumes 5 metadata
      block 1 0 transfer transfer_decoded

-- A block whose event has an unknown phase.
abbrev broken : Events ℕ
broken = record {
  metadata = metadata;
  block_hash = 0;
  event_bytes = 8 ∷ 9 ∷ [];
  start_idx = 1;
  num_events = 2;
}

abbrev behind_broken : Position
behind_broken = record { pos = 2; index = 0 }

broken-next :
    next sample_codec topics 5 broken (start broken)
    ≡ (some (err (codec "Could not decode `Phase`, variant doesn't exist")), behind_broken)
unfolding next sample_codec
broken-next = refl

next-after_err_example : next sample_codec topics 5 broken behind_broken ≡ (none, behind_broken)
next-after_err_example =
    next-after_err sample_codec topics 5 broken (start broken) behind_broken
      (codec "Could not decode `Phase`, variant doesn't exist") broken-next

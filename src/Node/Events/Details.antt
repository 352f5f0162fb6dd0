-- ===== src/Node/Events/Details.antt =====
-- node-api/src/events.rs: `EventDetails`, decoding one event and its accessors.
use mathlib.Core.Option.{get_or}
use substrate_api_client.Prelude.{
  ℕ, zero, suc, ◌-◌, ◌&&◌, String, Bool, false, Option, none, some, List, [], ◌∷◌, Bytes, length,
}
use substrate_api_client.Prelude.{Result, ok, err, panic, ◌>>=◌, map_err, if◌then◌else◌, str_eq}
use substrate_api_client.Codec.{Codec, CodecError, Decoder, w8, w32}
use substrate_api_client.Decoder.Registry.{TypeId}
use substrate_api_client.Decoder.Value.{Value, Composite, named, unnamed, from_list, from_pairs}
use substrate_api_client.Decoder.Decode.{is_some, decode_value_as_type}
use substrate_api_client.Node.Metadata.Types.{
  Metadata, EventMetadata, EventFieldMetadata, find_event,
}
use substrate_api_client.Node.Error.{Error, codec, metadata, decode_value}
use substrate_api_client.Node.Events.Slices.{slice, slice_from, byte_before}

-- lib.rs
pub data Phase : Type 0 where
  apply_extrinsic : ℕ → Phase
  finalization : Phase
  initialization : Phase

pub record EventDetails : Type 0 where
  pub phase : Phase
  pub index : ℕ
  pub all_bytes : Bytes
  pub start_idx : ℕ
  pub fields_start_idx : ℕ
  pub fields_end_idx : ℕ
  pub end_idx : ℕ
  pub metadata : Metadata

-- `StaticEvent`: the names, and the decoder of the event's fields.
pub record StaticEvent (E : Type 0) : Type 0 where
  pub pallet : String
  pub event : String
  pub decode : Bytes → Result CodecError E

-- `topics` is `Vec::<H256>::decode`; the fuel is the decoder's.
module _ (c : Codec) (topics : Decoder (List Bytes)) (fuel : ℕ) where
  -- The derived `Decode`: the variant's position, then its field.
  unfoldable pub decode_phase : Decoder Phase
  decode_phase [] = err "Not enough data to fill buffer"
  decode_phase (zero ∷ bytes) = c.decode_uint w32 bytes >>= λ p. ok (apply_extrinsic p.0, p.1)
  decode_phase (suc zero ∷ bytes) = ok (finalization, bytes)
  decode_phase (suc (suc zero) ∷ bytes) = ok (initialization, bytes)
  decode_phase (suc (suc (suc n)) ∷ bytes) = err "Could not decode `Phase`, variant doesn't exist"

  -- The field values in order, and the rest of the input.
  unfoldable pub field_decode :
      Metadata → List EventFieldMetadata → Bytes → Result Error (List (Value TypeId) × Bytes)
  field_decode m [] input = ok ([], input)
  field_decode m (f ∷ fs) input = do
    (v, input₁) ←
        map_err decode_value (decode_value_as_type c m.metadata.types fuel f.type_id input)
    (vs, input₂) ← field_decode m fs input₁
    ok (v ∷ vs, input₂)

  unfoldable pub decode_from : Metadata → Bytes → ℕ → ℕ → Result Error EventDetails
  unfolding decode_phase field_decode slice_from
  decode_from m all_bytes start_idx index = do
    input ← slice_from all_bytes start_idx
    (phase, input₁) ← map_err codec (decode_phase input)
    (pallet_index, input₂) ← map_err codec (c.decode_uint w8 input₁)
    (variant_index, input₃) ← map_err codec (c.decode_uint w8 input₂)
    event_metadata ← map_err metadata (find_event m pallet_index variant_index)
    (skipped, input₄) ← field_decode m event_metadata.fields input₃
    (_topics, input₅) ← map_err codec (topics input₄)
    ok (record {
      phase = phase;
      index = index;
      all_bytes = all_bytes;
      start_idx = start_idx;
      fields_start_idx = length all_bytes - length input₃;
      fields_end_idx = length all_bytes - length input₄;
      end_idx = length all_bytes - length input₅;
      metadata = m;
    })

  module _ (d : EventDetails) where
    unfoldable pub pallet_index : Result Error ℕ
    unfolding byte_before
    pallet_index = byte_before d.all_bytes d.fields_start_idx 2

    unfoldable pub variant_index : Result Error ℕ
    unfolding byte_before
    variant_index = byte_before d.all_bytes d.fields_start_idx 1

    -- `expect`: an event that is not in the metadata panics.
    unfoldable pub event_metadata : Result Error EventMetadata
    unfolding pallet_index variant_index
    event_metadata = do
      p ← pallet_index
      v ← variant_index
      elim (find_event d.metadata p v) [ ok e ↦ ok e | _ ↦ panic ]

    unfoldable pub pallet_name : Result Error String
    unfolding event_metadata
    pallet_name = event_metadata >>= λ e. ok e.pallet

    unfoldable pub variant_name : Result Error String
    unfolding event_metadata
    variant_name = event_metadata >>= λ e. ok e.event

    unfoldable pub bytes : Result Error Bytes
    unfolding slice
    bytes = slice d.all_bytes d.start_idx d.end_idx

    unfoldable pub field_bytes : Result Error Bytes
    unfolding slice
    field_bytes = slice d.all_bytes d.fields_start_idx d.fields_end_idx

    -- Whether the first field has a name.
    abbrev pub first_is_named : List EventFieldMetadata → Bool
    first_is_named [] = false
    first_is_named (f ∷ fs) = is_some f.name

    abbrev pub with_names :
        List EventFieldMetadata → List (Value TypeId) → List (String × Value TypeId)
    with_names (f ∷ fs) (v ∷ vs) = (get_or f.name "", v) ∷ with_names fs vs
    with_names _ _ = []

    unfoldable pub field_values : Result Error (Composite TypeId)
    unfolding field_bytes event_metadata field_decode
    field_values = do
      input ← field_bytes
      e ← event_metadata
      (vs, rest) ← field_decode d.metadata e.fields input
      ok (
          if first_is_named e.fields
          then named (from_pairs (with_names e.fields vs))
          else unnamed (from_list vs))

    module _ {E : Type 0} (ev : StaticEvent E) where
      unfoldable pub as_event : Result Error (Option E)
      unfolding event_metadata field_bytes
      as_event = do
        e ← event_metadata
        if str_eq e.pallet ev.pallet && str_eq e.event ev.event
            then (field_bytes >>= λ b. map_err codec (ev.decode b) >>= λ x. ok (some x))
            else ok none

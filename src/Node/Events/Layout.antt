-- ===== src/Node/Events/Layout.antt =====
-- node-api/src/events.rs: what the accessors of a decoded event return.
use substrate_api_client.Prelude.{
  ℕ, ◌+◌, ◌≤◌, ◌≡◌, sym, ◌∙◌, ap, List, [], ◌∷◌, ◌++◌, append_assoc, length-append,
}
use substrate_api_client.Prelude.{Bytes, length, drop, ok, ok-inj, arith}
use substrate_api_client.Codec.{Codec, Decoder}
use substrate_api_client.Decoder.Front.{Consumes, IsConsuming}
use substrate_api_client.Node.Metadata.Types.{Metadata, find_event}
use substrate_api_client.Node.Events.Slices.{slice_of, byte_of, room, behind}
use substrate_api_client.Node.Events.Details.{
  EventDetails, decode_from, pallet_index, variant_index, event_metadata, bytes, field_bytes,
}
use substrate_api_client.Node.Events.Parts.{Decoded, decode_from-eq-ok}

-- The accessors of an event with that layout do not panic, and return its parts.
module _ (c : Codec) (topics : Decoder (List Bytes)) (fuel : ℕ) (m : Metadata) (all : Bytes)
    (s i : ℕ) (d : EventDetails) (w : Decoded c topics fuel m all s i d) where
  abbrev own_bytes : Bytes
  own_bytes = w.phase_bytes ++ (w.pallet ∷ w.variant ∷ (w.fields ++ w.topics))

  joined : drop s all ≡ own_bytes ++ w.after
  joined =
      w.layout
      ∙ ap (λ b. w.phase_bytes ++ (w.pallet ∷ w.variant ∷ b))
          (sym (append_assoc w.fields w.topics w.after))
      ∙ sym (append_assoc w.phase_bytes (w.pallet ∷ w.variant ∷ (w.fields ++ w.topics)) w.after)

  pub bytes-Decoded :
      bytes c topics fuel d ≡ ok (w.phase_bytes ++ (w.pallet ∷ w.variant ∷ (w.fields ++ w.topics)))
  unfolding bytes
  bytes-Decoded =
      let l₁ = length-append w.phase_bytes (w.pallet ∷ w.variant ∷ (w.fields ++ w.topics)) in
      let l₂ = length-append w.fields w.topics in
      rw (w.of_bytes) (
        slice_of all s w.starts_inside [] own_bytes w.after d.start_idx d.end_idx joined
          (omega (arith, w.of_start))
          (omega (arith, w.of_start, w.ends, w.fields_end, w.fields_start, l₁, l₂)))

  -- What follows the event's bytes.
  pub rest-Decoded :
      (b : Bytes)
      → bytes c topics fuel d ≡ ok b
      → (s + length b ≤ length all) × (drop s all ≡ b ++ drop (s + length b) all)
  rest-Decoded b e =
      let q : own_bytes ≡ b = ok-inj (sym bytes-Decoded ∙ e) in
      let j : drop s all ≡ b ++ w.after = joined ∙ ap (λ x. x ++ w.after) q in
      let n = room all s w.starts_inside b w.after j in
      (omega arith, j ∙ ap (λ x. b ++ x) (sym (behind all s w.starts_inside b w.after j)))

  pub field_bytes-Decoded : field_bytes c topics fuel d ≡ ok w.fields
  unfolding field_bytes
  field_bytes-Decoded =
      let split : drop s all
          ≡ (w.phase_bytes ++ (w.pallet ∷ w.variant ∷ [])) ++ (w.fields ++ (w.topics ++ w.after)) =
        w.layout ∙ sym (append_assoc w.phase_bytes (w.pallet ∷ w.variant ∷ []) _) in
      rw (w.of_bytes) (
        slice_of all s w.starts_inside (w.phase_bytes ++ (w.pallet ∷ w.variant ∷ [])) w.fields _ _ _
          split
          (omega (arith, w.fields_start, length-append w.phase_bytes (w.pallet ∷ w.variant ∷ [])))
          w.fields_end)

  pub pallet_index-Decoded : pallet_index c topics fuel d ≡ ok w.pallet
  unfolding pallet_index
  pallet_index-Decoded =
      rw w.of_bytes
        (byte_of all s w.starts_inside w.phase_bytes w.pallet _ _ 2 w.layout w.fields_start)

  pub variant_index-Decoded : variant_index c topics fuel d ≡ ok w.variant
  unfolding variant_index
  variant_index-Decoded =
      let split : drop s all
          ≡ (w.phase_bytes ++ (w.pallet ∷ []))
            ++ (w.variant ∷ (w.fields ++ (w.topics ++ w.after))) =
        w.layout ∙ sym (append_assoc w.phase_bytes (w.pallet ∷ []) _) in
      rw w.of_bytes (
        byte_of all s w.starts_inside (w.phase_bytes ++ (w.pallet ∷ [])) w.variant _ _ 1 split
          (omega (arith, w.fields_start, length-append w.phase_bytes (w.pallet ∷ []))))

  pub event_metadata-Decoded : event_metadata c topics fuel d ≡ ok w.entry
  unfolding event_metadata find_event
  event_metadata-Decoded =
      rw (pallet_index-Decoded) (rw variant_index-Decoded (rw w.of_metadata (rw w.found)))

-- An event that was decoded has its phase, the two indices, its fields and its topics one after the
-- other, each the bytes that its decoder takes; and its accessors do not panic: they return these
-- bytes, the part that the decoder of the fields took, the indices, and the entry of the metadata
-- for them. The decoders that are called take bytes off the front of their input.
pub decode_from-accessors :
    (c : Codec)
    → IsConsuming c
    → (topics : Decoder (List Bytes)) → Consumes topics
    → (fuel : ℕ) (m : Metadata) (all : Bytes) (s i : ℕ) (d : EventDetails)
    → decode_from c topics fuel m all s i ≡ ok d
    → (w : Decoded c topics fuel m all s i d) × (bytes c topics fuel d
        ≡ ok (w.phase_bytes ++ (w.pallet ∷ w.variant ∷ (w.fields ++ w.topics))))
      × (field_bytes c topics fuel d ≡ ok w.fields)
      × (pallet_index c topics fuel d ≡ ok w.pallet)
      × (variant_index c topics fuel d ≡ ok w.variant)
      × (event_metadata c topics fuel d ≡ ok w.entry)
decode_from-accessors c l topics t fuel m all s i d h =
    let w = decode_from-eq-ok c l topics t fuel m all s i d h in
    (
      w,
      bytes-Decoded c topics fuel m all s i d w,
      field_bytes-Decoded c topics fuel m all s i d w,
      pallet_index-Decoded c topics fuel m all s i d w,
      variant_index-Decoded c topics fuel m all s i d w,
      event_metadata-Decoded c topics fuel m all s i d w,
    )

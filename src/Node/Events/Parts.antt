-- ===== src/Node/Events/Parts.antt =====
-- node-api/src/events.rs: where the parts of a decoded event stand.
use mathlib.Core.Path.{subst}
use substrate_api_client.Prelude.{
  ℕ, zero, suc, ◌+◌, ◌-◌, ◌≤◌, ◌≡◌, refl, sym, ◌∙◌, ap, Bool-cases, inl, inr, List, [], ◌∷◌, ◌++◌,
  length-append,
}
use substrate_api_client.Prelude.{
  Bytes, length, drop, Result, ok, ◌>>=◌, >>=-open, ok-inj, map_err-eq-ok, arith, leb,
}
use substrate_api_client.Codec.{Codec, Decoder, w32}
use substrate_api_client.Decoder.Registry.{TypeId}
use substrate_api_client.Decoder.Value.{Value}
use substrate_api_client.Decoder.Front.{
  Front, Consumes, IsConsuming, bind, done, relabelled, decode_value_as_type-Consumes,
}
use substrate_api_client.Node.Metadata.Types.{
  Metadata, EventMetadata, EventFieldMetadata, find_event,
}
use substrate_api_client.Node.Error.{Error, codec, metadata}
use substrate_api_client.Node.Events.Slices.{slice_from, index_of, room, le_of}
use substrate_api_client.Node.Events.Details.{
  Phase, EventDetails, decode_phase, field_decode, decode_from,
}

-- The event `d`, decoded from `all` at `s`: the phase, the two indices, the fields and the topics
-- follow each other, each part is what its decoder takes, the fields by the types that the metadata
-- has for the indices, and the positions kept are where the parts begin and end.
pub record Decoded (c : Codec) (decode_topics : Decoder (List Bytes)) (fuel : ℕ) (m : Metadata)
    (all : Bytes) (s i : ℕ) (d : EventDetails) : Type 0 where
  pub of_bytes : d.all_bytes ≡ all
  pub of_metadata : d.metadata ≡ m
  pub of_index : d.index ≡ i
  pub of_start : d.start_idx ≡ s
  pub pallet : ℕ
  pub variant : ℕ
  pub entry : EventMetadata
  pub found : find_event m pallet variant ≡ ok entry
  pub phase_bytes : Bytes
  pub fields : Bytes
  pub topics : Bytes
  pub after : Bytes
  pub values : List (Value TypeId)
  pub hashes : List Bytes
  pub starts_inside : s ≤ length all
  pub layout : drop s all ≡ phase_bytes ++ (pallet ∷ variant ∷ (fields ++ (topics ++ after)))
  pub phase_decoded :
      decode_phase c decode_topics fuel (drop s all)
      ≡ ok (d.phase, pallet ∷ variant ∷ (fields ++ (topics ++ after)))
  pub fields_decoded :
      field_decode c decode_topics fuel m entry.fields (fields ++ (topics ++ after))
      ≡ ok (values, topics ++ after)
  pub topics_decoded : decode_topics (topics ++ after) ≡ ok (hashes, after)
  pub fields_start : d.fields_start_idx ≡ s + length phase_bytes + 2
  pub fields_end : d.fields_end_idx ≡ d.fields_start_idx + length fields
  pub ends : d.end_idx ≡ d.fields_end_idx + length topics

module _ (c : Codec) (l : IsConsuming c) (topics : Decoder (List Bytes)) (t : Consumes topics)
    (fuel : ℕ) where
  decode_phase-Consumes : Consumes (decode_phase c topics fuel)
  unfolding decode_phase
  decode_phase-Consumes [] = λ a rest h. cc
  decode_phase-Consumes (zero ∷ b) =
      bind _ _ (0 ∷ b)
        (λ a rest h. let (w, e) = l.uint w32 b a rest h in (0 ∷ w, ap (λ x. 0 ∷ x) e))
        (λ a r. done _ r)
  decode_phase-Consumes (suc zero ∷ b) = λ a rest h. (1 ∷ [], ground (arith, h))
  decode_phase-Consumes (suc (suc zero) ∷ b) = λ a rest h. (2 ∷ [], ground (arith, h))
  decode_phase-Consumes (suc (suc (suc n)) ∷ b) = λ a rest h. cc

  field_decode-Consumes :
      (m : Metadata) (fs : List EventFieldMetadata) → Consumes (field_decode c topics fuel m fs)
  unfolding field_decode
  field_decode-Consumes m [] b = done _ b
  field_decode-Consumes m (f ∷ fs) b =
      bind _ _ b
        (relabelled _ _ b (decode_value_as_type-Consumes c l m.metadata.types fuel f.type_id b))
        (λ v r. bind _ _ r (field_decode-Consumes m fs r) (λ vs s. done _ s))

  -- The positions that the lengths of the inputs left give.
  placed :
      (m : Metadata) (all : Bytes) (s i : ℕ)
      → s ≤ length all
      → (ph : Phase) (e : EventMetadata) (vs : List (Value TypeId)) (ts : List Bytes)
        {b₁ b₂ b₃ b₅ b₆ : Bytes} {p v : ℕ}
      → decode_phase c topics fuel (drop s all) ≡ ok (ph, b₁)
      → field_decode c topics fuel m e.fields b₃ ≡ ok (vs, b₅)
      → topics b₅ ≡ ok (ts, b₆)
      → Front (drop s all) b₁
      → b₁ ≡ p ∷ b₂
      → b₂ ≡ v ∷ b₃
      → find_event m p v ≡ ok e
      → Front b₃ b₅
      → Front b₅ b₆
      → Decoded c topics fuel m all s i (record {
        phase = ph;
        index = i;
        all_bytes = all;
        start_idx = s;
        fields_start_idx = length all - length b₃;
        fields_end_idx = length all - length b₅;
        end_idx = length all - length b₆;
        metadata = m;
      })
  placed m all s i fits ph e vs ts {b₁} {b₂} {b₃} {b₅} {b₆} {p} {v} dp df dt (w, e₁) e₂ e₃ f (x, e₅)
        (y, e₆) =
      let at₃ : drop s all ≡ w ++ (p ∷ v ∷ b₃) = e₁ ∙ ap (λ b. w ++ b) (e₂ ∙ ap (λ b. p ∷ b) e₃) in
      let behind₃ : b₃ ≡ x ++ (y ++ b₆) = e₅ ∙ ap (λ b. x ++ b) e₆ in
      let behind₁ : b₁ ≡ p ∷ v ∷ (x ++ (y ++ b₆)) =
        e₂ ∙ ap (λ b. p ∷ b) (e₃ ∙ ap (λ b. v ∷ b) behind₃) in
      let at₆ : drop s all ≡ w ++ (p ∷ v ∷ (x ++ (y ++ b₆))) =
        at₃ ∙ ap (λ b. w ++ (p ∷ v ∷ b)) (e₅ ∙ ap (λ b. x ++ b) e₆) in
      let n₃ = index_of all s fits w _ at₃ in
      let l₃ : length b₃ ≡ length x + length b₅ = ap (λ b. length b) e₅ ∙ length-append x b₅ in
      let l₅ : length b₅ ≡ length y + length b₆ = ap (λ b. length b) e₆ ∙ length-append y b₆ in
      let total = room all s fits w _ at₃ in
      record {
        of_bytes = refl;
        of_metadata = refl;
        of_index = refl;
        of_start = refl;
        pallet = p;
        variant = v;
        entry = e;
        found = f;
        phase_bytes = w;
        fields = x;
        topics = y;
        after = b₆;
        values = vs;
        hashes = ts;
        starts_inside = fits;
        layout = at₆;
        phase_decoded = dp ∙ ap (λ b. ok (ph, b)) behind₁;
        fields_decoded =
            ap (field_decode c topics fuel m e.fields) (sym behind₃)
            ∙ (df ∙ ap (λ b. ok (vs, b)) e₆);
        topics_decoded = ap topics (sym e₆) ∙ dt;
        fields_start = omega arith;
        fields_end = omega arith;
        ends = omega arith;
      }

  -- Where an event is decoded from a position, it lies inside the bytes and has the layout of
  -- `Decoded`, with an entry of the metadata for its two indices. The decoders that are called take
  -- bytes off the front of their input.
  pub decode_from-eq-ok :
      (m : Metadata) (all : Bytes) (s i : ℕ) (d : EventDetails)
      → decode_from c topics fuel m all s i ≡ ok d
      → Decoded c topics fuel m all s i d
  unfolding decode_from slice_from
  decode_from-eq-ok m all s i d h =
      let (fits, h₀) = starts all s _ h in
      >>=-open _ _ h₀ (λ p₁ a₁ h₁. >>=-open _ _ h₁ (λ p₂ a₂ h₂. >>=-open _ _ h₂ (λ p₃ a₃ h₃.
        >>=-open _ _ h₃ (λ e a₄ h₄. >>=-open _ _ h₄ (λ p₅ a₅ h₅. >>=-open _ _ h₅ (λ p₆ a₆ h₆.
          subst (Decoded c topics fuel m all s i) (ok-inj h₆) (
            placed m all s i fits p₁.0 e p₅.0 p₆.0 (map_err-eq-ok codec _ a₁) a₅
              (map_err-eq-ok codec _ a₆)
              (decode_phase-Consumes _ p₁.0 p₁.1 (map_err-eq-ok codec _ a₁))
              (l.one_byte p₁.1 p₂.0 p₂.1 (map_err-eq-ok codec _ a₂))
              (l.one_byte p₂.1 p₃.0 p₃.1 (map_err-eq-ok codec _ a₃)) (map_err-eq-ok metadata _ a₄)
              (field_decode-Consumes m e.fields p₃.1 p₅.0 p₅.1 a₅)
              (t p₅.1 p₆.0 p₆.1 (map_err-eq-ok codec _ a₆)))))))))
    where
      starts :
          {B : Type 0} (all : Bytes) (s : ℕ) (f : Bytes → Result Error B) {b : B}
          → (slice_from all s >>= f) ≡ ok b
          → (s ≤ length all) × (f (drop s all) ≡ ok b)
      starts all s f h = elim (Bool-cases (leb s (length all))) [
        | inl y ↦ (le_of s _ y, rw (y, slice_from) at h)
        | inr n ↦ let x = rw (n, slice_from) at h in cc
      ]

-- ===== src/Node/Metadata/Found.antt =====
-- node-api/src/metadata.rs: the events and errors that are found after `try_from` are those that
-- the pallets' event and error types declare.
use substrate_api_client.Prelude.{ℕ, ◌≡◌, sym, ◌∙◌, ap, ◌↔◌, inl, inr, ◌⊎◌}
use substrate_api_client.Prelude.{List, [], Option, some, ok, >>=-eq-ok, ok_or-eq-ok, arith}
use substrate_api_client.Decoder.Registry.{TypeId, PortableRegistry, VariantType}
use substrate_api_client.Node.Maps.{BTreeMap, get, u8_pair}
use substrate_api_client.Node.Runtime.{Pallet, RuntimeMetadataV14, v14, meta_reserved}
use substrate_api_client.Node.Metadata.Types.{
  Metadata, EventMetadata, ErrorMetadata, find_event, find_error, event_not_found, error_not_found,
}
use substrate_api_client.Node.Metadata.Collect.{
  index_in, collect_variants, collect_pallets, event_entry, error_entry, collect_metadata, try_from,
}
use substrate_api_client.Node.Metadata.Lookup.{
  Declares, collect_variants-adds, collect_variants-only,
}

module _ {V : Type 0} (types : PortableRegistry) (ty : Pallet → Option TypeId)
    (entry : Pallet → VariantType → V) where
  -- An index names one entry. (A later entry would replace an earlier one.)
  abbrev pub Unique : List Pallet → Type 0
  Unique ps =
      (p q : Pallet) (v w : VariantType)
      → Declares types ty ps p v
      → Declares types ty ps q w
      → index_in p v ≡ index_in q w
      → entry p v ≡ entry q w

  -- The entry at an index is the entry of a variant with that index.
  abbrev pub IsEntry : List Pallet → ℕ × ℕ → V → Type 0
  IsEntry ps j e =
      (p : Pallet) × (v : VariantType) × Declares types ty ps p v
      × (index_in p v ≡ j)
      × (entry p v ≡ e)

  pub collect_variants_iff :
      (ps : List Pallet) (m : BTreeMap (ℕ × ℕ) V)
      → collect_variants types ty entry ps [] ≡ ok m
      → Unique ps
      → (j : ℕ × ℕ) (e : V) → (get u8_pair j m ≡ some e) ↔ IsEntry ps j e
  unfolding get
  collect_variants_iff ps m h u j e = (
    λ g. found (collect_variants-only types ty entry ps [] m j e h g),
    λ (p, v, d, a, b).
        let (f, k) =
          collect_variants-adds types ty entry ps [] m p v d.id d.variants h d.pallet_listed d.named
            d.resolved d.variant_listed in
        let k₂ : get u8_pair j m ≡ some f = rw (← a) k in
        let (q, w, c, a₂, b₂) = found (collect_variants-only types ty entry ps [] m j f h k₂) in
        k₂ ∙ ap some (sym b₂ ∙ u q p w v c d (a₂ ∙ sym a) ∙ b),
  )
    where
      found :
          {j : ℕ × ℕ} {e : V}
          → (get {K = ℕ × ℕ} {V = V} u8_pair j [] ≡ some e) ⊎ IsEntry ps j e
          → IsEntry ps j e
      found (inl n) = cc
      found (inr s) = s

module _ (r : RuntimeMetadataV14) (m : Metadata) (h : try_from (meta_reserved, v14 r) ≡ ok m) where
  collected_events : collect_variants r.types (λ p. p.event) event_entry r.pallets [] ≡ ok m.events
  unfolding try_from collect_metadata
  collected_events =
      let (ps, a, h₁) = >>=-eq-ok (collect_pallets r.types r.pallets []) _ h in
      let (es, b, h₂) =
        >>=-eq-ok (collect_variants r.types (λ p. p.event) event_entry r.pallets []) _ h₁ in
      let (fs, c, h₃) =
        >>=-eq-ok (collect_variants r.types (λ p. p.error) error_entry r.pallets []) _ h₂ in
      let q : es ≡ m.events = ground (arith, h₃) in b ∙ ap ok q

  collected_errors : collect_variants r.types (λ p. p.error) error_entry r.pallets [] ≡ ok m.errors
  unfolding try_from collect_metadata
  collected_errors =
      let (ps, a, h₁) = >>=-eq-ok (collect_pallets r.types r.pallets []) _ h in
      let (es, b, h₂) =
        >>=-eq-ok (collect_variants r.types (λ p. p.event) event_entry r.pallets []) _ h₁ in
      let (fs, c, h₃) =
        >>=-eq-ok (collect_variants r.types (λ p. p.error) error_entry r.pallets []) _ h₂ in
      let q : fs ≡ m.errors = ground (arith, h₃) in c ∙ ap ok q

  -- When `try_from` accepts the metadata of a node, and variants with the same pallet and variant
  -- index have equal entries, the event found at a pair of indices is the entry of a variant that
  -- a pallet's event type declares with these indices; and every such entry is found.
  pub find_event-try_from :
      Unique r.types (λ p. p.event) event_entry r.pallets
      → (a b : ℕ) (e : EventMetadata)
      → (find_event m a b ≡ ok e) ↔ IsEntry r.types (λ p. p.event) event_entry r.pallets (a, b) e
  unfolding find_event
  find_event-try_from u a b e =
      let both =
        collect_variants_iff r.types (λ p. p.event) event_entry r.pallets m.events collected_events
          u (a, b) e in
      (λ f. both.0 (ok_or-eq-ok (event_not_found a b) _ f), λ i. rw (both.1 i))

  -- When `try_from` accepts the metadata of a node, and variants with the same pallet and variant
  -- index have equal entries, the error found at a pair of indices is the entry of a variant that
  -- a pallet's error type declares with these indices; and every such entry is found.
  pub find_error-try_from :
      Unique r.types (λ p. p.error) error_entry r.pallets
      → (a b : ℕ) (e : ErrorMetadata)
      → (find_error m a b ≡ ok e) ↔ IsEntry r.types (λ p. p.error) error_entry r.pallets (a, b) e
  unfolding find_error
  find_error-try_from u a b e =
      let both =
        collect_variants_iff r.types (λ p. p.error) error_entry r.pallets m.errors collected_errors
          u (a, b) e in
      (λ f. both.0 (ok_or-eq-ok (error_not_found a b) _ f), λ i. rw (both.1 i))

-- ===== src/Node/Metadata/CallTypes.antt =====
-- node-api/src/metadata.rs: the call indices of a pallet are those of its call type's variants.
use mathlib.Core.List.{Memᴰ}
use substrate_api_client.Prelude.{
  ℕ, ◌≡◌, refl, inl, inr, String, List, [], Option, some, ok, >>=-open, ok-inj,
}
use substrate_api_client.Decoder.Registry.{TypeId, PortableRegistry, VariantType}
use substrate_api_client.Node.Maps.{BTreeMap, get, text}
use substrate_api_client.Node.Runtime.{Pallet, RuntimeMetadataV14, v14, meta_reserved}
use substrate_api_client.Node.Metadata.Types.{Metadata, PalletMetadata}
use substrate_api_client.Node.Metadata.Lookup.{insert_all-only}
use substrate_api_client.Node.Metadata.Names.{Everywhere, try_from-Everywhere}
use substrate_api_client.Node.Metadata.Collect.{
  get_type_def_variant, collect_calls, collect_pallet, try_from,
}

module _ (types : PortableRegistry) where
  -- Every call that a pallet lists is a variant of its call type.
  abbrev pub ListsCalls : String → PalletMetadata → Type 0
  ListsCalls name p =
      (call : String) (i : ℕ)
      → get text call p.call_indexes ≡ some i
      → (ty : TypeId) × (vs : List VariantType) × (v : VariantType) × (p.call_ty_id ≡ some ty)
        × (get_type_def_variant types ty ≡ ok vs)
        × Memᴰ v vs
        × (v.name ≡ call)
        × (v.index ≡ i)

  collect_calls-listed :
      (calls : Option TypeId) (m : BTreeMap String ℕ)
      → collect_calls types calls ≡ ok m
      → (call : String) (i : ℕ) → get text call m ≡ some i
      → (ty : TypeId) × (vs : List VariantType) × (v : VariantType) × (calls ≡ some ty)
        × (get_type_def_variant types ty ≡ ok vs)
        × Memᴰ v vs
        × (v.name ≡ call)
        × (v.index ≡ i)
  unfolding collect_calls get
  collect_calls-listed Option.none m h call i g = let x = rw (← ok-inj h) at g in cc
  collect_calls-listed (some ty) m h call i g =
      >>=-open (get_type_def_variant types ty) _ h (λ vs a b.
        elim (insert_all-only text (λ v. v.name) (λ v. v.index) vs [] call (rw (← ok-inj b) at g)) [
          | inl n ↦ cc
          | inr (v, t, c, d) ↦ (ty, vs, v, refl, a, t, c, d)
        ])

  collect_pallet-ListsCalls :
      (p : Pallet) (q : PalletMetadata) → collect_pallet types p ≡ ok q → ListsCalls p.name q
  unfolding collect_pallet
  collect_pallet-ListsCalls p q h =
      >>=-open (collect_calls types p.calls) _ h
        (λ calls a b. rw (← ok-inj b) (collect_calls-listed p.calls calls a))

pub try_from-ListsCalls :
    (r : RuntimeMetadataV14) (m : Metadata)
    → try_from (meta_reserved, v14 r) ≡ ok m
    → Everywhere text (ListsCalls r.types) m.pallets
try_from-ListsCalls r m h =
    try_from-Everywhere r m h (ListsCalls r.types) (collect_pallet-ListsCalls r.types)

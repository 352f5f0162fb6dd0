-- ===== src/Node/Metadata/Collect.antt =====
-- node-api/src/metadata.rs, `TryFrom<RuntimeMetadataPrefixed>`: the lookup tables of the client,
-- collected from the metadata of the node.
use substrate_api_client.Prelude.{
  ℕ, String, List, [], ◌∷◌, map, Option, none, some, Result, ok, err, ◌>>=◌, ok_or,
}
use substrate_api_client.Prelude.{Bool, false, ◌==◌, if◌then◌else◌, str_eq, find, ◌&&◌, not}
use substrate_api_client.Decoder.Registry.{
  TypeId, ScaleType, PortableRegistry, TypeDef, VariantType, Field, variant,
}
use substrate_api_client.Node.Maps.{BTreeMap, Key, insert, u8_pair, text}
use substrate_api_client.Node.Runtime.{
  RuntimeMetadata, RuntimeMetadataV14, Pallet, StorageEntry, v14, other_version, meta_reserved,
}
use substrate_api_client.Node.Metadata.Types.{
  InvalidMetadataError, invalid_prefix, invalid_version, missing_type, type_def_not_variant,
}
use substrate_api_client.Node.Metadata.Types.{
  Metadata, PalletMetadata, EventFieldMetadata, EventMetadata, ErrorMetadata,
}

-- `collect` into a `BTreeMap`: the entries are inserted in order.
unfoldable pub insert_all :
    {K V A : Type 0} → Key K → (A → K) → (A → V) → List A → BTreeMap K V → BTreeMap K V
unfolding insert
insert_all key k v [] m = m
insert_all key k v (a ∷ xs) m = insert_all key k v xs (insert key (k a) (v a) m)

abbrev pub variants_of : TypeId → TypeDef → Result InvalidMetadataError (List VariantType)
variants_of id (variant vs) = ok vs
variants_of id _ = err (type_def_not_variant id)

unfoldable pub event_field : Field → EventFieldMetadata
event_field f = record { name = f.name; type_name = f.type_name; type_id = f.ty }

unfoldable pub event_entry : Pallet → VariantType → EventMetadata
unfolding event_field
event_entry p v = record {
  pallet = p.name;
  event = v.name;
  fields = map event_field v.fields;
  docs = v.docs;
}

unfoldable pub error_entry : Pallet → VariantType → ErrorMetadata
error_entry p v = record { pallet = p.name; error = v.name; docs = v.docs }

abbrev pub index_in : Pallet → VariantType → ℕ × ℕ
index_in p v = (p.index, v.index)

-- `segments() == ["sp_runtime", "DispatchError"]`
unfoldable pub is_dispatch_error : List String → Bool
is_dispatch_error (a ∷ b ∷ []) = str_eq a "sp_runtime" && str_eq b "DispatchError"
is_dispatch_error _ = false

module _ (types : PortableRegistry) where
  unfoldable pub get_type_def_variant : TypeId → Result InvalidMetadataError (List VariantType)
  get_type_def_variant id =
      ok_or (missing_type id) (types.resolve id) >>= λ ty. variants_of id ty.type_def

  unfoldable pub collect_calls : Option TypeId → Result InvalidMetadataError (BTreeMap String ℕ)
  unfolding get_type_def_variant insert_all
  collect_calls none = ok []
  collect_calls (some ty) =
      get_type_def_variant ty >>= λ vs. ok (insert_all text (λ v. v.name) (λ v. v.index) vs [])

  unfoldable pub collect_storage : Option (List StorageEntry) → BTreeMap String StorageEntry
  unfolding insert_all
  collect_storage none = []
  collect_storage (some entries) = insert_all text (λ e. e.name) (λ e. e) entries []

  unfoldable pub collect_pallet : Pallet → Result InvalidMetadataError PalletMetadata
  unfolding collect_calls collect_storage insert_all
  collect_pallet p = collect_calls p.calls >>= λ call_indexes. ok (record {
    index = p.index;
    name = p.name;
    call_indexes = call_indexes;
    call_ty_id = p.calls;
    storage = collect_storage p.storage;
    constants = insert_all text (λ c. c.name) (λ c. c) p.constants [];
  })

  -- `collect::<Result<BTreeMap<_, _>, _>>`: up to the first error.
  unfoldable pub collect_pallets :
      List Pallet
      → BTreeMap String PalletMetadata
      → Result InvalidMetadataError (BTreeMap String PalletMetadata)
  unfolding collect_pallet insert
  collect_pallets [] m = ok m
  collect_pallets (p ∷ ps) m = collect_pallet p >>= λ q. collect_pallets ps (insert text p.name q m)

  -- The loops over the pallets' events and errors: `ty` is the enum of a pallet, if it has one.
  unfoldable pub collect_variants :
      {V : Type 0}
      → (Pallet → Option TypeId)
      → (Pallet → VariantType → V)
      → List Pallet
      → BTreeMap (ℕ × ℕ) V
      → Result InvalidMetadataError (BTreeMap (ℕ × ℕ) V)
  unfolding get_type_def_variant insert_all
  collect_variants ty entry [] m = ok m
  collect_variants ty entry (p ∷ ps) m =
      let skip = collect_variants ty entry ps m in
      elim (ty p) [
        | none ↦ skip
        | some id ↦ get_type_def_variant id >>= λ vs.
            collect_variants ty entry ps (insert_all u8_pair (index_in p) (entry p) vs m)
      ]

unfoldable pub find_dispatch_error : List (TypeId × ScaleType) → Option TypeId
unfolding is_dispatch_error
find_dispatch_error tys = elim (find (λ t. is_dispatch_error t.1.segments) tys) [
  | none ↦ none
  | some t ↦ some t.0
]

unfoldable pub collect_metadata : RuntimeMetadataV14 → Result InvalidMetadataError Metadata
unfolding collect_pallets collect_variants event_entry error_entry find_dispatch_error
collect_metadata r = do
  pallets ← collect_pallets r.types r.pallets []
  events ← collect_variants r.types (λ p. p.event) event_entry r.pallets []
  errors ← collect_variants r.types (λ p. p.error) error_entry r.pallets []
  ok (record {
    metadata = r;
    pallets = pallets;
    events = events;
    errors = errors;
    dispatch_error_ty = find_dispatch_error r.types.types;
  })

unfoldable pub try_from : ℕ × RuntimeMetadata → Result InvalidMetadataError Metadata
unfolding collect_metadata
try_from (magic, v14 r) =
    if not (magic == meta_reserved) then err invalid_prefix else collect_metadata r
try_from (magic, other_version) =
    if not (magic == meta_reserved) then err invalid_prefix else err invalid_version

-- ===== src/Node/Metadata/Types.antt =====
-- node-api/src/metadata.rs: the metadata the client keeps, and its lookups.
use substrate_api_client.Prelude.{
  ℕ, String, List, [], ◌∷◌, ◌++◌, Option, Bytes, Result, ok, ◌>>=◌, ok_or,
}
use substrate_api_client.Prelude.{◌==◌, if◌then◌else◌}
use substrate_api_client.Decoder.Registry.{TypeId, ScaleType}
use substrate_api_client.Codec.{CodecError}
use substrate_api_client.Node.Maps.{BTreeMap, get, u8_pair, text}
use substrate_api_client.Node.Runtime.{RuntimeMetadataV14, StorageEntry, Constant}

pub data MetadataError : Type 0 where
  pallet_not_found : String → MetadataError
  pallet_index_not_found : ℕ → MetadataError
  call_not_found : String → MetadataError
  event_not_found : ℕ → ℕ → MetadataError
  error_not_found : ℕ → ℕ → MetadataError
  storage_not_found : String → MetadataError
  storage_type_error : MetadataError
  default_error : CodecError → MetadataError
  constant_value_error : CodecError → MetadataError
  constant_not_found : String → MetadataError
  type_not_found : ℕ → MetadataError
  incompatible_constant_metadata : String → String → MetadataError
  incompatible_call_metadata : String → String → MetadataError
  incompatible_storage_metadata : String → String → MetadataError
  incompatible_metadata : MetadataError

pub data InvalidMetadataError : Type 0 where
  invalid_prefix : InvalidMetadataError
  invalid_version : InvalidMetadataError
  missing_type : TypeId → InvalidMetadataError
  type_def_not_variant : TypeId → InvalidMetadataError

pub record PalletMetadata : Type 0 where
  pub index : ℕ
  pub name : String
  pub call_indexes : BTreeMap String ℕ
  pub call_ty_id : Option TypeId
  pub storage : BTreeMap String StorageEntry
  pub constants : BTreeMap String Constant

pub record EventFieldMetadata : Type 0 where
  pub name : Option String
  pub type_name : Option String
  pub type_id : TypeId

pub record EventMetadata : Type 0 where
  pub pallet : String
  pub event : String
  pub fields : List EventFieldMetadata
  pub docs : List String

pub record ErrorMetadata : Type 0 where
  pub pallet : String
  pub error : String
  pub docs : List String

pub record Metadata : Type 0 where
  pub metadata : RuntimeMetadataV14
  pub pallets : BTreeMap String PalletMetadata
  pub events : BTreeMap (ℕ × ℕ) EventMetadata
  pub errors : BTreeMap (ℕ × ℕ) ErrorMetadata
  pub dispatch_error_ty : Option TypeId

-- `filter(|(k, _)| k.0 == pallet_index).map(|(_, v)| v)`
unfoldable pub values_of_pallet : {V : Type 0} → ℕ → BTreeMap (ℕ × ℕ) V → List V
values_of_pallet p [] = []
values_of_pallet p ((k, v) ∷ m) =
    let rest = values_of_pallet p m in if k.0 == p then v ∷ rest else rest

module _ (m : Metadata) where
  unfoldable pub find_pallet : String → Result MetadataError PalletMetadata
  unfolding get
  find_pallet name = ok_or (pallet_not_found name) (get text name m.pallets)

  unfoldable pub find_event : ℕ → ℕ → Result MetadataError EventMetadata
  unfolding get
  find_event pallet_index event_index =
      ok_or (event_not_found pallet_index event_index)
        (get u8_pair (pallet_index, event_index) m.events)

  unfoldable pub events_of : ℕ → List EventMetadata
  unfolding values_of_pallet
  events_of pallet_index = values_of_pallet pallet_index m.events

  unfoldable pub find_error : ℕ → ℕ → Result MetadataError ErrorMetadata
  unfolding get
  find_error pallet_index error_index =
      ok_or (error_not_found pallet_index error_index)
        (get u8_pair (pallet_index, error_index) m.errors)

  unfoldable pub errors_of : ℕ → List ErrorMetadata
  unfolding values_of_pallet
  errors_of pallet_index = values_of_pallet pallet_index m.errors

  unfoldable pub resolve_type : TypeId → Option ScaleType
  resolve_type id = m.metadata.types.resolve id

module _ (p : PalletMetadata) where
  unfoldable pub call_index : String → Result MetadataError ℕ
  unfolding get
  call_index function = ok_or (call_not_found function) (get text function p.call_indexes)

  unfoldable pub find_storage : String → Result MetadataError StorageEntry
  unfolding get
  find_storage key = ok_or (storage_not_found key) (get text key p.storage)

  unfoldable pub find_constant : String → Result MetadataError Constant
  unfolding get
  find_constant key = ok_or (constant_not_found key) (get text key p.constants)

  -- `args` are the encoded arguments.
  unfoldable pub encode_call : String → Bytes → Result MetadataError Bytes
  unfolding call_index
  encode_call call_name args =
      call_index call_name >>= λ fn_index. ok ((p.index ∷ fn_index ∷ []) ++ args)

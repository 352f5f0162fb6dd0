-- ===== src/Node/Runtime.antt =====
-- The metadata a node sends (the crate frame-metadata), as far as the program reads it.
use substrate_api_client.Prelude.{ℕ, String, List, Option, Bytes}
use substrate_api_client.Decoder.Registry.{TypeId, PortableRegistry}

pub data StorageHasher : Type 0 where
  blake2_128 blake2_256 blake2_128_concat twox128 twox256 twox64_concat identity : StorageHasher

-- `StorageEntryType`
pub data StorageEntryType : Type 0 where
  plain : TypeId → StorageEntryType
  map : (hashers : List StorageHasher) (key value : TypeId) → StorageEntryType

-- `StorageEntryMetadata`
pub record StorageEntry : Type 0 where
  pub name : String
  pub ty : StorageEntryType
  pub default : Bytes
  pub docs : List String

-- `PalletConstantMetadata`
pub record Constant : Type 0 where
  pub name : String
  pub ty : TypeId
  pub value : Bytes
  pub docs : List String

-- `frame_metadata::v14::PalletMetadata`; calls, events and errors are enum types of the registry.
pub record Pallet : Type 0 where
  pub name : String
  pub storage : Option (List StorageEntry)
  pub calls : Option TypeId
  pub event : Option TypeId
  pub constants : List Constant
  pub error : Option TypeId
  pub index : ℕ

-- `RuntimeMetadataV14`
pub record RuntimeMetadataV14 : Type 0 where
  pub types : PortableRegistry
  pub pallets : List Pallet

-- `RuntimeMetadata`; the other versions are refused.
pub data RuntimeMetadata : Type 0 where
  v14 : RuntimeMetadataV14 → RuntimeMetadata
  other_version : RuntimeMetadata

-- `META_RESERVED`, the bytes "meta" as a little-endian u32.
abbrev pub meta_reserved : ℕ
meta_reserved = 0x6174656d

-- ===== src/Node/Storage/Keys.antt =====
-- node-api/src/storage.rs, and the storage keys of node-api/src/metadata.rs. A storage key is
-- its bytes; the hash functions of sp_core are the parameter `h`.
use Prim.Native.String.{String}
use substrate_api_client.Prelude.{◌++◌, Bytes, Result, ok, err, ◌>>=◌, ok_or, get_elem?}
use substrate_api_client.Node.Runtime.{
  StorageEntry, StorageHasher, plain, map, blake2_128, blake2_256, blake2_128_concat, twox128,
  twox256, twox64_concat, identity,
}
use substrate_api_client.Node.Metadata.Types.{
  Metadata, MetadataError, storage_type_error, find_pallet, find_storage,
}

-- sp_core's hash functions, and the UTF-8 bytes of a text (`str::as_bytes`).
pub record Hashes : Type 0 where
  pub twox_64 : Bytes → Bytes
  pub twox_128 : Bytes → Bytes
  pub twox_256 : Bytes → Bytes
  pub blake2_128 : Bytes → Bytes
  pub blake2_256 : Bytes → Bytes
  pub as_bytes : String → Bytes

pub record StorageValue : Type 0 where
  pub module_prefix : Bytes
  pub storage_prefix : Bytes

pub record StorageMap : Type 0 where
  pub module_prefix : Bytes
  pub storage_prefix : Bytes
  pub hasher : StorageHasher

pub record StorageDoubleMap : Type 0 where
  pub module_prefix : Bytes
  pub storage_prefix : Bytes
  pub hasher : StorageHasher
  pub key2_hasher : StorageHasher

module _ (h : Hashes) where
  -- The key is given encoded.
  unfoldable pub key_hash : Bytes → StorageHasher → Bytes
  key_hash key identity = key
  key_hash key blake2_128 = h.blake2_128 key
  key_hash key blake2_128_concat = h.blake2_128 key ++ key
  key_hash key blake2_256 = h.blake2_256 key
  key_hash key twox128 = h.twox_128 key
  key_hash key twox256 = h.twox_256 key
  key_hash key twox64_concat = h.twox_64 key ++ key

  unfoldable pub value_key : StorageValue → Bytes
  value_key v = h.twox_128 v.module_prefix ++ h.twox_128 v.storage_prefix

  unfoldable pub map_key : StorageMap → Bytes → Bytes
  unfolding key_hash
  map_key m key =
      (h.twox_128 m.module_prefix ++ h.twox_128 m.storage_prefix) ++ key_hash key m.hasher

  unfoldable pub double_map_key : StorageDoubleMap → Bytes → Bytes → Bytes
  unfolding key_hash
  double_map_key m key1 key2 =
      ((h.twox_128 m.module_prefix ++ h.twox_128 m.storage_prefix) ++ key_hash key1 m.hasher)
      ++ key_hash key2 m.key2_hasher

  module _ (e : StorageEntry) (pallet_prefix : String) where
    unfoldable pub get_double_map : Result MetadataError StorageDoubleMap
    get_double_map = elim e.ty [
      | map hashers k v ↦ ok_or storage_type_error (get_elem? hashers 0) >>= λ hasher1.
          ok_or storage_type_error (get_elem? hashers 1) >>= λ hasher2. ok (record {
            module_prefix = h.as_bytes pallet_prefix;
            storage_prefix = h.as_bytes e.name;
            hasher = hasher1;
            key2_hasher = hasher2;
          })
      | _ ↦ err storage_type_error
    ]

    unfoldable pub get_map : Result MetadataError StorageMap
    get_map = elim e.ty [
      | map hashers k v ↦ ok_or storage_type_error (get_elem? hashers 0) >>= λ hasher. ok (record {
        module_prefix = h.as_bytes pallet_prefix;
        storage_prefix = h.as_bytes e.name;
        hasher = hasher;
      })
      | _ ↦ err storage_type_error
    ]

    unfoldable pub get_map_prefix : Result MetadataError Bytes
    get_map_prefix = elim e.ty [
      | map hashers k v ↦
          ok (h.twox_128 (h.as_bytes pallet_prefix) ++ h.twox_128 (h.as_bytes e.name))
      | _ ↦ err storage_type_error
    ]

    unfoldable pub get_value : Result MetadataError StorageValue
    get_value = elim e.ty [
      | plain t ↦
          ok (record {
            module_prefix = h.as_bytes pallet_prefix;
            storage_prefix = h.as_bytes e.name;
          })
      | _ ↦ err storage_type_error
    ]

  module _ (m : Metadata) (pallet entry : String) where
    unfoldable pub storage_entry : Result MetadataError StorageEntry
    unfolding find_pallet find_storage
    storage_entry = find_pallet m pallet >>= λ p. find_storage p entry

    unfoldable pub storage_value_key : Result MetadataError Bytes
    unfolding storage_entry get_value value_key
    storage_value_key = storage_entry >>= λ e. get_value e pallet >>= λ v. ok (value_key v)

    unfoldable pub storage_map_key : Bytes → Result MetadataError Bytes
    unfolding storage_entry get_map map_key
    storage_map_key key = storage_entry >>= λ e. get_map e pallet >>= λ v. ok (map_key v key)

    unfoldable pub storage_map_key_prefix : Result MetadataError Bytes
    unfolding storage_entry get_map_prefix
    storage_map_key_prefix = storage_entry >>= λ e. get_map_prefix e pallet

    unfoldable pub storage_double_map_key : Bytes → Bytes → Result MetadataError Bytes
    unfolding storage_entry get_double_map double_map_key
    storage_double_map_key first second =
        storage_entry >>= λ e. get_double_map e pallet >>= λ v. ok (double_map_key v first second)

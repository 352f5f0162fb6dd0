-- ===== src/Node/Storage/Laws.antt =====
-- node-api/src/storage.rs: how the keys of values, maps and double maps hang together.
use Prim.Native.String.{String}
use substrate_api_client.Prelude.{
  ◌≡◌, refl, sym, ◌∙◌, ap, ◌⊎◌, inl, inr, List, ◌++◌, Bytes, length, drop, drop-append, ok, err,
  >>=-eq-ok, ok_or, get_elem?, arith,
}
use substrate_api_client.Decoder.Registry.{TypeId}
use substrate_api_client.Node.Runtime.{
  StorageEntry, StorageHasher, StorageEntryType, plain, map, blake2_128, blake2_256,
  blake2_128_concat, twox128, twox256, twox64_concat, identity,
}
use substrate_api_client.Node.Metadata.Types.{Metadata, storage_type_error}
use substrate_api_client.Node.Storage.Keys.{
  Hashes, StorageMap, StorageValue, key_hash, map_key, get_map, get_map_prefix, get_double_map,
  get_value, storage_entry, storage_value_key, storage_map_key, storage_map_key_prefix,
  storage_double_map_key,
}

module _ {A : Type 0} where
  -- Two lists with prefixes of equal length agree behind them.
  append_cancel : (p q xs ys : List A) → length p ≡ length q → p ++ xs ≡ q ++ ys → xs ≡ ys
  append_cancel p q xs ys l e =
      sym (drop-append p xs) ∙ ap (drop (length p)) e ∙ rw l (drop-append q ys)

  append_cancel_prefix : (p xs ys : List A) → p ++ xs ≡ p ++ ys → xs ≡ ys
  append_cancel_prefix p xs ys e = append_cancel p p xs ys refl e

pub StorageEntryType-cases :
    (t : StorageEntryType)
    → ((id : TypeId) × (t ≡ plain id))
      ⊎ ((hs : List StorageHasher) × (k : TypeId) × (v : TypeId) × (t ≡ map hs k v))
StorageEntryType-cases (plain id) = inl (id, refl)
StorageEntryType-cases (map hs k v) = inr (hs, k, v, refl)

-- The hashers that keep the key they hash at the end.
abbrev pub IsTransparent : StorageHasher → Type 0
IsTransparent identity = Unit
IsTransparent blake2_128_concat = Unit
IsTransparent twox64_concat = Unit
IsTransparent _ = ⊥

-- A hash has a fixed number of bytes, whatever is hashed.
pub record HasFixedLength (h : Hashes) : Type 0 where
  pub blake2_128_length : (k : Bytes) → length (h.blake2_128 k) ≡ 16
  pub twox_64_length : (k : Bytes) → length (h.twox_64 k) ≡ 8

module _ (h : Hashes) where
  key_hash-inj :
      HasFixedLength h
      → (s : StorageHasher) → IsTransparent s
      → (j k : Bytes) → key_hash h j s ≡ key_hash h k s
      → j ≡ k
  unfolding key_hash
  key_hash-inj f identity t j k e = e
  key_hash-inj f blake2_128_concat t j k e =
      append_cancel _ _ j k (f.blake2_128_length j ∙ sym (f.blake2_128_length k)) e
  key_hash-inj f twox64_concat t j k e =
      append_cancel _ _ j k (f.twox_64_length j ∙ sym (f.twox_64_length k)) e
  key_hash-inj f blake2_128 t j k e = absurd t
  key_hash-inj f blake2_256 t j k e = absurd t
  key_hash-inj f twox128 t j k e = absurd t
  key_hash-inj f twox256 t j k e = absurd t

  -- When the hashes have fixed lengths and the map's hasher keeps its key, two encoded keys with
  -- the same storage key are the same.
  pub map_key-inj :
      HasFixedLength h
      → (m : StorageMap) → IsTransparent m.hasher
      → (j k : Bytes) → map_key h m j ≡ map_key h m k
      → j ≡ k
  unfolding map_key
  map_key-inj f m t j k e =
      key_hash-inj f m.hasher t j k
        (append_cancel_prefix (h.twox_128 m.module_prefix ++ h.twox_128 m.storage_prefix) _ _ e)

  module _ (e : StorageEntry) (pallet : String) where
    -- A successful `get_map` was on a map, and the other lookups of maps agree with it.
    get_map-eq-ok :
        (v : StorageMap)
        → get_map h e pallet ≡ ok v
        → get_map_prefix h e pallet ≡ ok (h.twox_128 v.module_prefix ++ h.twox_128 v.storage_prefix)
    unfolding get_map get_map_prefix
    get_map-eq-ok v b = elim (StorageEntryType-cases e.ty) [
      | inl (t, q) ↦ let x = rw (q, get_map) at b in cc
      | inr (hs, k, t, q) ↦
          let (s, a, c) =
            >>=-eq-ok (ok_or storage_type_error (get_elem? hs 0)) _ (rw (q, get_map) at b) in
          let f : h.as_bytes pallet ≡ v.module_prefix = ground (arith, c) in
          let g : h.as_bytes e.name ≡ v.storage_prefix = ground (arith, c) in rw (q, f, g)
    ]

    get_value-eq-ok :
        (v : StorageValue)
        → get_value h e pallet ≡ ok v
        → (get_map h e pallet ≡ err storage_type_error)
          × (get_map_prefix h e pallet ≡ err storage_type_error)
          × (get_double_map h e pallet ≡ err storage_type_error)
    unfolding get_value get_map get_map_prefix get_double_map
    get_value-eq-ok v b = elim (StorageEntryType-cases e.ty) [
      | inl (t, q) ↦ (rw q, rw q, rw q)
      | inr (hs, k, t, q) ↦ let x = rw (q, get_value) at b in cc
    ]

  module _ (m : Metadata) (pallet entry : String) where
    -- Where the key of a map's entry is given, it is the map's prefix with the hash of the encoded
    -- key behind it, by some hasher.
    pub storage_map_key-prefix :
        (key k : Bytes)
        → storage_map_key h m pallet entry key ≡ ok k
        → (p : Bytes) × (s : StorageHasher) × (storage_map_key_prefix h m pallet entry ≡ ok p)
          × (k ≡ p ++ key_hash h key s)
    unfolding storage_map_key storage_map_key_prefix map_key
    storage_map_key-prefix key k e =
        let (s, a, f) = >>=-eq-ok (storage_entry h m pallet entry) _ e in
        let (v, b, g) = >>=-eq-ok (get_map h s pallet) _ f in
        let g₂ : map_key h v key ≡ k = ground (arith, g) in
        (_, v.hasher, rw a (get_map-eq-ok s pallet v b), sym g₂)

    -- Where an entry has a key as a value, it has none as a map or a double map: all three
    -- lookups of maps return the error for a wrong storage type.
    pub storage_value_key-excludes :
        (first second k : Bytes)
        → storage_value_key h m pallet entry ≡ ok k
        → (storage_map_key h m pallet entry first ≡ err storage_type_error)
          × (storage_map_key_prefix h m pallet entry ≡ err storage_type_error)
          × (storage_double_map_key h m pallet entry first second ≡ err storage_type_error)
    unfolding storage_value_key storage_map_key storage_map_key_prefix storage_double_map_key
    storage_value_key-excludes first second k e =
        let (s, a, f) = >>=-eq-ok (storage_entry h m pallet entry) _ e in
        let (v, b, g) = >>=-eq-ok (get_value h s pallet) _ f in
        let (x, y, z) = get_value-eq-ok s pallet v b in (rw a (rw x), rw a (rw y), rw a (rw z))

-- ===== src/Client/Reads.antt =====
-- Reading a map of a node's storage, against an abstract map: what is stored under one key is read
-- under that key, and not under another.
use substrate_api_client.Prelude.{
  ◌≡◌, ◌≢◌, refl, ◌==◌, ==_iff, ==_refl, Bool, true, false, ◌&&◌, Bool-cases, if◌then◌else◌, inl,
  inr,
}
use substrate_api_client.Prelude.{String, Option, some, [], ◌∷◌, Bytes, ok, ◌>>=◌ as and_then}
use substrate_api_client.Codec.{Decoder}
use substrate_api_client.Node.Runtime.{StorageEntry}
use substrate_api_client.Node.Metadata.Types.{Metadata}
use substrate_api_client.Node.Storage.Keys.{
  Hashes, StorageMap, map_key, get_map, storage_entry, storage_map_key,
}
use substrate_api_client.Node.Storage.Laws.{HasFixedLength, IsTransparent, map_key-inj}
use substrate_api_client.Rpc.Action.{Request}
use substrate_api_client.Client.State.{
  StorageFormats, decoded, decode_optional, get_opaque_storage_by_key_hash, get_storage_by_key_hash,
  get_storage_map,
}

-- A node's storage at one block.
abbrev pub Storage : Type 0
Storage = Bytes → Option Bytes

unfoldable pub same_bytes : Bytes → Bytes → Bool
same_bytes [] [] = true
same_bytes [] (y ∷ ys) = false
same_bytes (x ∷ xs) [] = false
same_bytes (x ∷ xs) (y ∷ ys) = let rest = same_bytes xs ys in (x == y) && rest

same_bytes-eq : (xs ys : Bytes) → same_bytes xs ys ≡ true → xs ≡ ys
unfolding same_bytes
same_bytes-eq [] [] h = refl
same_bytes-eq [] (y ∷ ys) h = cc
same_bytes-eq (x ∷ xs) [] h = cc
same_bytes-eq (x ∷ xs) (y ∷ ys) h = elim (Bool-cases (x == y)) [
  | inl e ↦
      let t = same_bytes-eq xs ys (rw (e, same_bytes) at h) in
      let f = (==_iff x y).0 e in λ i. f i ∷ t i
  | inr e ↦ let f = rw (e, same_bytes) at h in cc
]

pub same_bytes_refl : (xs : Bytes) → same_bytes xs xs ≡ true
unfolding same_bytes
same_bytes_refl [] = refl
same_bytes_refl (x ∷ xs) = rw (==_refl x) (same_bytes_refl xs)

same_bytes-ne : (xs ys : Bytes) → xs ≢ ys → same_bytes xs ys ≡ false
same_bytes-ne xs ys n = elim (Bool-cases (same_bytes xs ys)) [
  | inl e ↦ absurd (n (same_bytes-eq xs ys e))
  | inr e ↦ e
]

-- The storage after a value was put under a key.
unfoldable pub put : Bytes → Bytes → Storage → Storage
unfolding same_bytes
put key value σ k = if same_bytes k key then some value else σ k

module _ {Json Hash Proof : Type 0} (client : Request Json Storage)
    (f : StorageFormats Json Hash Proof) (at_block : Option Hash) where
  -- The node answers `state_getStorage` with what is stored under the key.
  abbrev pub ServesStorage : Type 0
  ServesStorage =
      (σ : Storage) (key : Bytes)
      → client.request f.to_storage_data "state_getStorage"
          (f.storage_key key ∷ f.block at_block ∷ []) σ
        ≡ (ok (σ key), σ)

  module _ (serves : ServesStorage) {V : Type 0} (decode : Decoder V) where
    pub get_storage_by_key_hash-serves :
        (key : Bytes) (σ : Storage)
        → get_storage_by_key_hash client f decode key at_block σ
          ≡ (decode_optional decode (σ key), σ)
    unfolding get_storage_by_key_hash get_opaque_storage_by_key_hash
    get_storage_by_key_hash-serves key σ = rw (serves σ key) refl

    module _ (h : Hashes) (m : Metadata) (pallet entry : String) where
      get_storage_map-serves :
          (e : StorageEntry) (v : StorageMap)
          → storage_entry h m pallet entry ≡ ok e
          → get_map h e pallet ≡ ok v
          → (key : Bytes) (σ : Storage)
          → get_storage_map client f h m pallet entry decode key at_block σ
            ≡ (decode_optional decode (σ (map_key h v key)), σ)
      unfolding get_storage_map storage_map_key
      get_storage_map-serves e v a b key σ =
          rw (a, b) (get_storage_by_key_hash-serves (map_key h v key) σ)

      -- Let the node answer `state_getStorage` from its storage, let hashes have fixed lengths, and
      -- let the metadata describe a map whose hasher keeps its key. Then, after a value was put
      -- under the storage key of one map key, reading that map key decodes the value, reading
      -- any other map key returns what it returned before, and reading changes nothing.
      pub get_storage_map-put :
          HasFixedLength h
          → (e : StorageEntry) (v : StorageMap) → storage_entry h m pallet entry ≡ ok e
          → get_map h e pallet ≡ ok v
          → IsTransparent v.hasher
          → (j k value : Bytes) → j ≢ k
          → (σ : Storage)
          → (get_storage_map client f h m pallet entry decode k at_block
                (put (map_key h v k) value σ)
              ≡ (and_then (decoded decode value) (λ a. ok (some a)), put (map_key h v k) value σ))
            × ((get_storage_map client f h m pallet entry decode j at_block
                  (put (map_key h v k) value σ)).0
                ≡ (get_storage_map client f h m pallet entry decode j at_block σ).0)
      unfolding put decode_optional
      get_storage_map-put fixed e v a b t j k value n σ =
          let at_k = get_storage_map-serves e v a b k (put (map_key h v k) value σ) in
          let at_j = get_storage_map-serves e v a b j (put (map_key h v k) value σ) in
          let before = get_storage_map-serves e v a b j σ in
          let same = same_bytes_refl (map_key h v k) in
          let differs =
            same_bytes-ne (map_key h v j) (map_key h v k)
              (λ q. n (map_key-inj h fixed v t j k q)) in
          (rw (at_k, same) refl, rw (at_j, before, differs) refl)

-- ===== src/Node/Storage/Double.antt =====
-- node-api/src/storage.rs: the keys of double maps.
use Prim.Native.String.{String}
use substrate_api_client.Prelude.{
  ◌≡◌, ◌↔◌, [], ◌∷◌, sym, ◌∙◌, ap, inl, inr, List, ◌++◌, Bytes, ok, >>=-eq-ok, ◌>>=◌, ok-inj,
}
use substrate_api_client.Decoder.Registry.{TypeId}
use substrate_api_client.Node.Runtime.{StorageEntry, StorageHasher, map}
use substrate_api_client.Node.Metadata.Types.{Metadata}
use substrate_api_client.Node.Storage.Keys.{
  Hashes, StorageDoubleMap, key_hash, map_key, double_map_key, get_map, get_double_map,
  storage_entry, storage_map_key, storage_double_map_key,
}
use substrate_api_client.Node.Storage.Laws.{StorageEntryType-cases}

module _ (h : Hashes) where
  module _ (e : StorageEntry) (pallet : String) where
    two_hashers :
        (hs : List StorageHasher) (kt vt : TypeId) (v : StorageDoubleMap)
        → e.ty ≡ map hs kt vt
        → get_double_map h e pallet ≡ ok v
        → (rest : List StorageHasher) × (e.ty ≡ map (v.hasher ∷ v.key2_hasher ∷ rest) kt vt)
    unfolding get_double_map
    two_hashers [] kt vt v q b = let x = rw (q, get_double_map) at b in cc
    two_hashers (s₁ ∷ []) kt vt v q b = let x = rw (q, get_double_map) at b in cc
    two_hashers (s₁ ∷ s₂ ∷ hs) kt vt v q b =
        let x = ok-inj (rw (q, get_double_map) at b) in
        let e₁ : s₁ ≡ v.hasher = ap (λ w. w.hasher) x in
        let e₂ : s₂ ≡ v.key2_hasher = ap (λ w. w.key2_hasher) x in (hs, rw (← e₁, ← e₂) q)

    get_double_map-is_map :
        (v : StorageDoubleMap)
        → get_double_map h e pallet ≡ ok v
        → (rest : List StorageHasher) × (kt : TypeId) × (vt : TypeId) × (e.ty
            ≡ map (v.hasher ∷ v.key2_hasher ∷ rest) kt vt)
    unfolding get_double_map
    get_double_map-is_map v b = elim (StorageEntryType-cases e.ty) [
      | inl (t, q) ↦ let x = rw (q, get_double_map) at b in cc
      | inr (hs, kt, vt, q) ↦ let (rest, r) = two_hashers hs kt vt v q b in (rest, kt, vt, r)
    ]

    -- The keys of a map with two hashers.
    double_map_key-given :
        (s₁ s₂ : StorageHasher) (hs : List StorageHasher) (kt vt : TypeId) (first second : Bytes)
        → e.ty ≡ map (s₁ ∷ s₂ ∷ hs) kt vt
        → (p : Bytes) × ((get_map h e pallet >>= λ v. ok (map_key h v first)) ≡ ok p)
          × ((get_double_map h e pallet >>= λ v. ok (double_map_key h v first second))
              ≡ ok (p ++ key_hash h second s₂))
    unfolding get_map get_double_map map_key double_map_key
    double_map_key-given s₁ s₂ hs kt vt first second q = (
      (h.twox_128 (h.as_bytes pallet) ++ h.twox_128 (h.as_bytes e.name)) ++ key_hash h first s₁,
      rw (q, get_map),
      rw (q, get_double_map),
    )

  module _ (m : Metadata) (pallet entry : String) where
    -- The entry is a map with two hashers or more, the first key alone has a key as a map's key, and
    -- behind that the hash of the second key by the second hasher.
    abbrev pub IsDoubleKey : Bytes → Bytes → Bytes → Type 0
    IsDoubleKey first second k =
        (e : StorageEntry) × (s₁ : StorageHasher) × (s₂ : StorageHasher) × (hs : List StorageHasher)
        × (kt : TypeId) × (vt : TypeId) × (j : Bytes) × (storage_entry h m pallet entry ≡ ok e)
        × (e.ty ≡ map (s₁ ∷ s₂ ∷ hs) kt vt)
        × (storage_map_key h m pallet entry first ≡ ok j)
        × (k ≡ j ++ key_hash h second s₂)

    -- The key of a double map's entry is given, as the bytes `k`, exactly where the entry is a map
    -- with two hashers or more, and `k` is the key that the first key alone has with the hash of the
    -- second key behind it, by the second of the entry's hashers.
    pub storage_double_map_key-prefix :
        (first second k : Bytes)
        → (storage_double_map_key h m pallet entry first second ≡ ok k) ↔ IsDoubleKey first second k
    unfolding storage_double_map_key storage_map_key
    storage_double_map_key-prefix first second k = (
      λ q.
          let (e, a, f) = >>=-eq-ok (storage_entry h m pallet entry) _ q in
          let (v, b, g) = >>=-eq-ok (get_double_map h e pallet) _ f in
          let (hs, kt, vt, t) = get_double_map-is_map e pallet v b in
          let (p, x, y) =
            double_map_key-given e pallet v.hasher v.key2_hasher hs kt vt first second t in
          (e, v.hasher, v.key2_hasher, hs, kt, vt, p, a, t, rw a x, ok-inj (sym f ∙ y)),
      λ (e, s₁, s₂, hs, kt, vt, j, a, t, b, c).
          let (p, x, y) = double_map_key-given e pallet s₁ s₂ hs kt vt first second t in
          let same : p ≡ j = ok-inj (sym x ∙ (rw a at b)) in rw a (rw (c, ← same) y),
    )

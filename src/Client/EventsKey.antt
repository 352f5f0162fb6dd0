-- ===== src/Client/EventsKey.antt =====
-- src/src/utils.rs against node-api/src/metadata.rs: the key made of two names alone is the key that
-- the metadata gives for them.
use substrate_api_client.Prelude.{
  ◌≡◌, refl, sym, ◌∙◌, ap, ◌⊎◌, inl, inr, String, Bytes, ok, >>=-open, ok-inj, ok_or-eq-ok,
}
use substrate_api_client.Node.Runtime.{StorageEntry, RuntimeMetadataV14, v14, meta_reserved}
use substrate_api_client.Node.Metadata.Types.{
  Metadata, find_pallet, find_storage, pallet_not_found, storage_not_found,
}
use substrate_api_client.Node.Metadata.Collect.{try_from}
use substrate_api_client.Node.Metadata.Names.{try_from-IsNamed}
use substrate_api_client.Node.Storage.Keys.{
  Hashes, StorageValue, storage_entry, get_value, get_map_prefix, value_key, storage_value_key,
  storage_map_key_prefix,
}
use substrate_api_client.Node.Storage.Laws.{StorageEntryType-cases}
use substrate_api_client.Client.System.{storage_key}

module _ (h : Hashes) (e : StorageEntry) (pallet : String) where
  get_value-key :
      (v : StorageValue) → get_value h e pallet ≡ ok v → storage_key h pallet e.name ≡ value_key h v
  unfolding get_value value_key storage_key
  get_value-key v b = elim (StorageEntryType-cases e.ty) [
    | inl (t, q) ↦ rw (← ok-inj (rw (q, get_value) at b)) refl
    | inr (hs, k, t, q) ↦ let x = rw (q, get_value) at b in cc
  ]

  get_map_prefix-key :
      (k : Bytes) → get_map_prefix h e pallet ≡ ok k → storage_key h pallet e.name ≡ k
  unfolding get_map_prefix storage_key
  get_map_prefix-key k b = elim (StorageEntryType-cases e.ty) [
    | inl (t, q) ↦ let x = rw (q, get_map_prefix) at b in cc
    | inr (hs, l, t, q) ↦ ok-inj (rw (q, get_map_prefix) at b)
  ]

module _ (h : Hashes) (r : RuntimeMetadataV14) (m : Metadata)
    (collected : try_from (meta_reserved, v14 r) ≡ ok m) (pallet entry : String) where
  entry_name : (e : StorageEntry) → storage_entry h m pallet entry ≡ ok e → e.name ≡ entry
  unfolding storage_entry find_pallet find_storage
  entry_name e q = >>=-open (find_pallet m pallet) _ q (λ p a b.
      (try_from-IsNamed r m collected pallet p (ok_or-eq-ok (pallet_not_found pallet) _ a)).1 entry
        e (ok_or-eq-ok (storage_not_found entry) _ b))

  -- When the metadata of a node was accepted by `try_from`, then wherever an entry has a key as a
  -- value, or a prefix as a map, it is the key that `utils::storage_key` makes of the pallet's
  -- and the entry's names.
  pub storage_key-try_from :
      (k : Bytes)
      → (storage_value_key h m pallet entry ≡ ok k)
        ⊎ (storage_map_key_prefix h m pallet entry ≡ ok k)
      → storage_key h pallet entry ≡ k
  unfolding storage_value_key storage_map_key_prefix storage_key value_key
  storage_key-try_from k (inl q) = >>=-open (storage_entry h m pallet entry) _ q (λ e a b.
      >>=-open (get_value h e pallet) _ b (λ v c d.
        ap (λ n. storage_key h pallet n) (sym (entry_name e a))
        ∙ get_value-key h e pallet v c
        ∙ ok-inj d))
  storage_key-try_from k (inr q) = >>=-open (storage_entry h m pallet entry) _ q (λ e a b.
      ap (λ n. storage_key h pallet n) (sym (entry_name e a)) ∙ get_map_prefix-key h e pallet k b)

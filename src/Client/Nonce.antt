-- ===== src/Client/Nonce.antt =====
-- src/src/api/api_client.rs: the nonce of the signer is what the node stores for its account.
use substrate_api_client.Prelude.{◌≡◌, refl, ℕ, none, some, Bytes, ok}
use substrate_api_client.Codec.{Decoder}
use substrate_api_client.Node.Storage.Keys.{Hashes, storage_map_key}
use substrate_api_client.Primitives.Params.{Api}
use substrate_api_client.Rpc.Action.{Request}
use substrate_api_client.Client.State.{StorageFormats, decode_optional}
use substrate_api_client.Client.Reads.{
  Storage, ServesStorage, put, same_bytes_refl, get_storage_by_key_hash-serves,
}
use substrate_api_client.Client.System.{AccountInfo, get_account_info}
use substrate_api_client.Client.Runtime.{signer_account, get_nonce}

module _ {Json Signer Tip Hash Proof AccountId AccountData : Type 0} (client : Request Json Storage)
    (f : StorageFormats Json Hash Proof) (h : Hashes) (account : Signer → AccountId)
    (encode_account : AccountId → Bytes) (decode_info : Decoder (AccountInfo ℕ AccountData)) where
  -- Let the node answer `state_getStorage` from its storage, and let the metadata give the account
  -- of the `Api`'s signer a storage key. Where nothing is stored under it, the nonce is 0; after
  -- account information was put there, it is the nonce of that information. Asking changes nothing.
  pub get_nonce-put :
      ServesStorage client f none
      → (api : Api Signer Tip Hash) (pair : Signer) → api.signer ≡ some pair
      → (key : Bytes)
      → storage_map_key h api.metadata "System" "Account" (encode_account (account pair)) ≡ ok key
      → (b rest : Bytes) (info : AccountInfo ℕ AccountData) → decode_info b ≡ ok (info, rest)
      → (σ : Storage) → σ key ≡ none
      → (get_nonce client f h account encode_account decode_info api σ ≡ (ok 0, σ))
        × (get_nonce client f h account encode_account decode_info api (put key b σ)
            ≡ (ok info.nonce, put key b σ))
  unfolding get_nonce signer_account get_account_info decode_optional put
  get_nonce-put serves api pair a key k b rest info d σ n =
      let empty = get_storage_by_key_hash-serves client f none serves decode_info key σ in
      let full =
        get_storage_by_key_hash-serves client f none serves decode_info key (put key b σ) in
      let same = same_bytes_refl key in (rw (a, k, empty, n) refl, rw (a, k, full, same, d) refl)

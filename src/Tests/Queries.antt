-- ===== src/Tests/Queries.antt =====
-- Queries to a node that is its storage, its metadata and its chain.
use substrate_api_client.Prelude.{
  ℕ, zero, suc, ◌≡◌, ◌≢◌, inl, refl, ap, String, Option, none, some, List, [], ◌∷◌, Bytes, Result,
  ok, err, map_err, ◌>>=◌ as and_then,
}
use substrate_api_client.Codec.{Decoder}
use substrate_api_client.Node.Maps.{text}
use substrate_api_client.Node.Runtime.{twox64_concat}
use substrate_api_client.Node.Metadata.Types.{PalletMetadata}
use substrate_api_client.Node.Storage.Keys.{
  StorageMap, storage_entry, get_map, storage_map_key, map_key,
}
use substrate_api_client.Primitives.Params.{Api}
use substrate_api_client.Rpc.Error.{RpcClientError}
use substrate_api_client.Rpc.Action.{Request, over}
use substrate_api_client.Client.State.{StorageFormats, get_storage_map, decoded}
use substrate_api_client.Client.Reads.{Storage, ServesStorage, put, get_storage_map-put}
use substrate_api_client.Client.System.{AccountInfo, storage_key}
use substrate_api_client.Client.Runtime.{get_nonce}
use substrate_api_client.Client.Nonce.{get_nonce-put}
use substrate_api_client.Client.EventsKey.{storage_key-try_from}
use substrate_api_client.Tests.Sample.{runtime, metadata, collected, balance_storage}
use substrate_api_client.Tests.Metadata.{
  hashes, hashes-HasFixedLength, account_prefix, issuance_key,
}

-- Answers: a answer_to value behind a 1, or a 0.
abbrev as_json : Option Bytes → Bytes
as_json none = 0 ∷ []
as_json (some b) = 1 ∷ b

abbrev of_json : Bytes → Result String (Option Bytes)
of_json (zero ∷ []) = ok none
of_json (suc n ∷ b) = ok (some b)
of_json _ = err "no answer"

of_json-as_json : (o : Option Bytes) → of_json (as_json o) ≡ ok o
of_json-as_json none = refl
of_json-as_json (some b) = refl

abbrev answer_to : List Bytes → Storage → Bytes
answer_to [] σ = []
answer_to (key ∷ rest) σ = as_json (σ key)

abbrev storage_node : Request Bytes Storage
storage_node = over (λ method params σ. (ok (answer_to params σ), σ))

abbrev formats : StorageFormats Bytes ℕ Bytes
formats = record {
  storage_key = λ k. k;
  storage_keys = λ ks. [];
  block = λ b. [];
  to_storage_data = of_json;
  to_read_proof = of_json;
  to_strings = λ j. ok none;
}

serves : (at : Option ℕ) → ServesStorage storage_node formats at
serves at σ key = ap (λ r. (map_err RpcClientError.serde r, σ)) (of_json-as_json (σ key))

-- A number in one byte.
abbrev byte : Decoder ℕ
byte [] = err "Not enough data to fill buffer"
byte (b ∷ rest) = ok (b, rest)

abbrev accounts : StorageMap
accounts = record { module_prefix = 65 ∷ []; storage_prefix = 65 ∷ []; hasher = twox64_concat }

abbrev nothing : Storage
nothing k = none

eight_differs : ◌≢◌ {A = Bytes} (8 ∷ []) (7 ∷ [])
eight_differs e = cc

account_entry : storage_entry hashes metadata "Balances" "Account" ≡ ok balance_storage
unfolding storage_entry text
account_entry = refl

account_map_found : get_map hashes balance_storage "Balances" ≡ ok accounts
unfolding get_map
account_map_found = refl

get_storage_map-put_example :
    (get_storage_map storage_node formats hashes metadata "Balances" "Account" byte
        (7 ∷ [])
        none
        (put (map_key hashes accounts (7 ∷ [])) (5 ∷ []) nothing)
      ≡ (
        and_then (decoded byte (5 ∷ [])) (λ a. ok (some a)),
        put (map_key hashes accounts (7 ∷ [])) (5 ∷ []) nothing,
      ))
    × ((get_storage_map storage_node formats hashes metadata "Balances" "Account" byte
          (8 ∷ [])
          none
          (put (map_key hashes accounts (7 ∷ [])) (5 ∷ []) nothing)).0
        ≡ (get_storage_map storage_node formats hashes metadata "Balances" "Account" byte
            (8 ∷ [])
            none
            nothing).0)
get_storage_map-put_example =
    get_storage_map-put storage_node formats none (serves none) byte hashes metadata "Balances"
      "Account" hashes-HasFixedLength balance_storage accounts account_entry account_map_found tt
      (8 ∷ []) (7 ∷ []) (5 ∷ []) eight_differs nothing

storage_key-try_from_example : storage_key hashes "Balances" "TotalIssuance" ≡ 1 ∷ 2 ∷ 1 ∷ 2 ∷ []
storage_key-try_from_example =
    storage_key-try_from hashes runtime metadata collected "Balances" "TotalIssuance"
      (1 ∷ 2 ∷ 1 ∷ 2 ∷ []) (inl issuance_key)

-- A node with the pallet System alone.
abbrev system : PalletMetadata
system = record {
  index = 0;
  name = "System";
  call_indexes = [];
  call_ty_id = none;
  storage = ("Account", balance_storage) ∷ [];
  constants = [];
}

abbrev api : Api ℕ ℕ ℕ
api = record {
  signer = some 7;
  genesis_hash = 11;
  metadata = record metadata { pallets = ("System", system) ∷ [] };
  spec_version = 1;
  transaction_version = 2;
  extrinsic_params_builder = none;
}

nonce_key : storage_map_key hashes api.metadata "System" "Account" (7 ∷ []) ≡ ok account_prefix
unfolding storage_map_key text
nonce_key = refl

abbrev info : Decoder (AccountInfo ℕ ℕ)
info [] = err "Not enough data to fill buffer"
info (n ∷ rest) = ok (record { nonce = n; «data» = 0 }, rest)

abbrev one_byte : ℕ → Bytes
one_byte a = a ∷ []

get_nonce-put_example :
    (get_nonce storage_node formats hashes (λ a. a) one_byte info api nothing ≡ (ok 0, nothing))
    × (get_nonce storage_node formats hashes
          (λ a. a)
          one_byte
          info
          api
          (put account_prefix (6 ∷ []) nothing)
        ≡ (ok 6, put account_prefix (6 ∷ []) nothing))
get_nonce-put_example =
    get_nonce-put storage_node formats hashes (λ a. a) one_byte info (serves none) api 7 refl
      account_prefix nonce_key (6 ∷ []) [] (record { nonce = 6; «data» = 0 }) refl nothing refl

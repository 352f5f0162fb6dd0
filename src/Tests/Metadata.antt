-- ===== src/Tests/Metadata.antt =====
-- Lookups, storage keys and dispatch errors with the sample metadata.
use mathlib.Core.List.Memᴰ
use substrate_api_client.Prelude.{
  ℕ, ◌≡◌, ◌↔◌, refl, sym, ◌∙◌, ap, ◌↔◌, Option, some, [], ◌∷◌, ◌++◌, Bytes, ok, err, ok-inj,
}
use substrate_api_client.Decoder.Registry.{TypeId, VariantType}
use substrate_api_client.Node.Runtime.{Pallet, StorageHasher, twox64_concat}
use substrate_api_client.Node.Metadata.Types.{find_event, find_error, storage_type_error}
use substrate_api_client.Node.Metadata.Collect.{event_entry, error_entry, get_type_def_variant}
use substrate_api_client.Node.Metadata.Lookup.{Declares}
use substrate_api_client.Node.Metadata.Found.{
  Unique, IsEntry, find_event-try_from, find_error-try_from,
}
use substrate_api_client.Node.Maps.{text}
use substrate_api_client.Node.Storage.Keys.{
  Hashes, StorageMap, key_hash, storage_value_key, storage_map_key, storage_map_key_prefix,
  storage_double_map_key,
}
use substrate_api_client.Node.Storage.Laws.{
  HasFixedLength, map_key-inj, storage_map_key-prefix, storage_value_key-excludes,
}
use substrate_api_client.Node.Storage.Double.{IsDoubleKey, storage_double_map_key-prefix}
use substrate_api_client.Node.Dispatch.{
  DispatchError, ModuleError, decode_from-total, module_error, module_variant_idx, decode_from,
  decode_from-current, decode_from-legacy,
}
use substrate_api_client.Node.Dispatch.Sound.{IsKnownBehind, decode_from_iff}
use substrate_api_client.Tests.Sample.{
  registry, balances, runtime, metadata, collected, found_event, found_error, transfer_event,
  balance_error,
}

-- The one pallet has one variant.
only_one :
    {V : Type 0} (ty : Pallet → Option TypeId) (entry : Pallet → VariantType → V) (id : TypeId)
    (w : VariantType)
    → ty balances ≡ some id
    → get_type_def_variant registry id ≡ ok (w ∷ [])
    → (p : Pallet) (v : VariantType) → Declares registry ty (balances ∷ []) p v
    → entry p v ≡ entry balances w
only_one ty entry id w n r p v d =
    let a : p ≡ balances = Memᴰ.eq_of_singleton d.pallet_listed in
    let b : some d.id ≡ some id = sym d.named ∙ ap ty a ∙ n in
    let e : d.variants ≡ w ∷ [] =
      ok-inj (sym d.resolved ∙ ap (get_type_def_variant registry) (some-inj b) ∙ r) in
    let f : v ≡ w = Memᴰ.eq_of_singleton (rw (← e) d.variant_listed) in rw (a, f)
  where
    some-inj : {a b : ℕ} → some a ≡ some b → a ≡ b
    some-inj h = cc

events_differ : Unique registry (λ p. p.event) event_entry (balances ∷ [])
unfolding get_type_def_variant
events_differ p q v w d e i =
    only_one (λ p. p.event) event_entry 4 transfer_event refl refl p v d
    ∙ sym (only_one (λ p. p.event) event_entry 4 transfer_event refl refl q w e)

errors_differ : Unique registry (λ p. p.error) error_entry (balances ∷ [])
unfolding get_type_def_variant
errors_differ p q v w d e i =
    only_one (λ p. p.error) error_entry 5 balance_error refl refl p v d
    ∙ sym (only_one (λ p. p.error) error_entry 5 balance_error refl refl q w e)

find_event-try_from_example :
    (find_event metadata 5 1 ≡ ok found_event)
    ↔ IsEntry registry (λ p. p.event) event_entry (balances ∷ []) (5, 1) found_event
find_event-try_from_example =
    find_event-try_from runtime metadata collected events_differ 5 1 found_event

find_error-try_from_example :
    (find_error metadata 5 2 ≡ ok found_error)
    ↔ IsEntry registry (λ p. p.error) error_entry (balances ∷ []) (5, 2) found_error
find_error-try_from_example =
    find_error-try_from runtime metadata collected errors_differ 5 2 found_error

-- Hashes of the right lengths.
abbrev pub hashes : Hashes
hashes = record {
  twox_64 = λ k. 8 ∷ 7 ∷ 6 ∷ 5 ∷ 4 ∷ 3 ∷ 2 ∷ 1 ∷ [];
  twox_128 = λ k. 1 ∷ 2 ∷ [];
  twox_256 = λ k. [];
  blake2_128 = λ k. 1 ∷ 2 ∷ 3 ∷ 4 ∷ 5 ∷ 6 ∷ 7 ∷ 8 ∷ 9 ∷ 10 ∷ 11 ∷ 12 ∷ 13 ∷ 14 ∷ 15 ∷ 16 ∷ [];
  blake2_256 = λ k. [];
  as_bytes = λ s. 65 ∷ [];
}

pub hashes-HasFixedLength : HasFixedLength hashes
hashes-HasFixedLength = record { blake2_128_length = λ k. refl; twox_64_length = λ k. refl }

abbrev account_map : StorageMap
account_map = record { module_prefix = 65 ∷ []; storage_prefix = 66 ∷ []; hasher = twox64_concat }

map_key-inj_example : ◌≡◌ {A = Bytes} (7 ∷ []) (7 ∷ [])
map_key-inj_example = map_key-inj hashes hashes-HasFixedLength account_map tt (7 ∷ []) (7 ∷ []) refl

abbrev pub account_prefix : Bytes
account_prefix = 1 ∷ 2 ∷ 1 ∷ 2 ∷ 8 ∷ 7 ∷ 6 ∷ 5 ∷ 4 ∷ 3 ∷ 2 ∷ 1 ∷ 7 ∷ []

pub account_key : storage_map_key hashes metadata "Balances" "Account" (7 ∷ []) ≡ ok account_prefix
unfolding storage_map_key text
account_key = refl

map_key_has_prefix :
    (p : Bytes) × (s : StorageHasher) × (storage_map_key_prefix hashes metadata "Balances" "Account"
      ≡ ok p)
    × (account_prefix ≡ p ++ key_hash hashes (7 ∷ []) s)
map_key_has_prefix =
    storage_map_key-prefix hashes metadata "Balances" "Account" (7 ∷ []) account_prefix account_key

double_key :
    storage_double_map_key hashes metadata "Balances" "Account" (7 ∷ []) (9 ∷ [])
    ≡ ok (account_prefix ++ (9 ∷ []))
unfolding storage_double_map_key text
double_key = refl

storage_double_map_key-prefix_example :
    (storage_double_map_key hashes metadata "Balances" "Account" (7 ∷ []) (9 ∷ [])
      ≡ ok (account_prefix ++ (9 ∷ [])))
    ↔ IsDoubleKey hashes metadata "Balances" "Account"
        (7 ∷ [])
        (9 ∷ [])
        (account_prefix ++ (9 ∷ []))
storage_double_map_key-prefix_example =
    storage_double_map_key-prefix hashes metadata "Balances" "Account" (7 ∷ []) (9 ∷ [])
      (account_prefix ++ (9 ∷ []))

pub issuance_key :
    storage_value_key hashes metadata "Balances" "TotalIssuance" ≡ ok (1 ∷ 2 ∷ 1 ∷ 2 ∷ [])
unfolding storage_value_key text
issuance_key = refl

storage_value_key-excludes_example :
    (storage_map_key hashes metadata "Balances" "TotalIssuance" (7 ∷ []) ≡ err storage_type_error)
    × (storage_map_key_prefix hashes metadata "Balances" "TotalIssuance" ≡ err storage_type_error)
    × (storage_double_map_key hashes metadata "Balances" "TotalIssuance" (7 ∷ []) (9 ∷ [])
        ≡ err storage_type_error)
storage_value_key-excludes_example =
    storage_value_key-excludes hashes metadata "Balances" "TotalIssuance" (7 ∷ []) (9 ∷ [])
      (1 ∷ 2 ∷ 1 ∷ 2 ∷ []) issuance_key

module_is_third : module_variant_idx metadata ≡ some 3
unfolding module_variant_idx
module_is_third = refl

error_is_found : find_error metadata 5 2 ≡ ok found_error
unfolding find_error
error_is_found = refl

too_low_decodes :
    decode_from metadata (3 ∷ 5 ∷ 2 ∷ 0 ∷ 1 ∷ 0 ∷ 77 ∷ [])
    ≡ ok (
        module_error (record {
          pallet = "Balances";
          error = "InsufficientBalance";
          description = "too low" ∷ [];
          error_data = record { pallet_index = 5; error = 2 ∷ 0 ∷ 1 ∷ 0 ∷ [] };
        }))
too_low_decodes =
    decode_from-current metadata 3 5 2 0 1 0 (77 ∷ []) found_error module_is_third error_is_found

too_low_decodes_legacy :
    decode_from metadata (3 ∷ 5 ∷ 2 ∷ [])
    ≡ ok (
        module_error (record {
          pallet = "Balances";
          error = "InsufficientBalance";
          description = "too low" ∷ [];
          error_data = record { pallet_index = 5; error = 2 ∷ 0 ∷ 0 ∷ 0 ∷ [] };
        }))
too_low_decodes_legacy =
    decode_from-legacy metadata 3 5 2 found_error module_is_third error_is_found

decode_from-total_example : (e : DispatchError) × (decode_from metadata (3 ∷ 9 ∷ []) ≡ ok e)
decode_from-total_example = decode_from-total metadata 3 (9 ∷ [])

abbrev too_low : ModuleError
too_low = record {
  pallet = "Balances";
  error = "InsufficientBalance";
  description = "too low" ∷ [];
  error_data = record { pallet_index = 5; error = 2 ∷ 0 ∷ 1 ∷ 0 ∷ [] };
}

decode_from_iff_example :
    (decode_from metadata (3 ∷ 5 ∷ 2 ∷ 0 ∷ 1 ∷ 0 ∷ 77 ∷ []) ≡ ok (module_error too_low))
    ↔ IsKnownBehind metadata (3 ∷ 5 ∷ 2 ∷ 0 ∷ 1 ∷ 0 ∷ 77 ∷ []) too_low
decode_from_iff_example = decode_from_iff metadata (3 ∷ 5 ∷ 2 ∷ 0 ∷ 1 ∷ 0 ∷ 77 ∷ []) too_low

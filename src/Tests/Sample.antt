-- ===== src/Tests/Sample.antt =====
-- The metadata of a node with one pallet.
use substrate_api_client.Prelude.{
  ℕ, zero, suc, ◌≡◌, refl, ap, inl, ◌≢◌, true, false, str_eq, String, Option, none, some, List, [],
  ◌∷◌, ok, get_elem?, All, arith,
}
use substrate_api_client.Decoder.Registry.{
  TypeDef, TypeDefPrimitive, Field, VariantType, ScaleType, PortableRegistry, composite, variant,
  primitive, compact,
}
use substrate_api_client.Decoder.RoundTrip.Fields.{AllNamed}
use substrate_api_client.Decoder.RoundTrip.Composites.{RegularFields, RegularVariants}
use mathlib.Core.Option.{get_or}
use substrate_api_client.Decoder.RoundTrip.Values.{RegularDef, IsRegular}
use substrate_api_client.Node.Runtime.{
  RuntimeMetadataV14, Pallet, StorageEntry, plain, map, twox64_concat, identity, v14, meta_reserved,
}
use substrate_api_client.Node.Metadata.Types.{
  Metadata, PalletMetadata, EventMetadata, ErrorMetadata, EventFieldMetadata,
}
use substrate_api_client.Node.Metadata.Collect.{try_from}
use substrate_api_client.Node.Maps.{text}

abbrev pub plain_type : TypeDef → ScaleType
plain_type d = record { segments = []; ident = none; type_def = d }

abbrev pub amount_field : Field
amount_field = record { name = some "amount"; type_name = none; ty = 2 }

abbrev pub to_field : Field
to_field = record { name = some "to"; type_name = none; ty = 0 }

abbrev pub transfer_event : VariantType
transfer_event = record {
  name = "Transfer";
  fields = amount_field ∷ to_field ∷ [];
  index = 1;
  docs = [];
}

abbrev pub balance_error : VariantType
balance_error = record {
  name = "InsufficientBalance";
  fields = [];
  index = 2;
  docs = "too low" ∷ [];
}

abbrev transfer_call : VariantType
transfer_call = record {
  name = "transfer";
  fields = amount_field ∷ to_field ∷ [];
  index = 7;
  docs = [];
}

abbrev module_variant : VariantType
module_variant = record { name = "Module"; fields = []; index = 3; docs = [] }

abbrev dispatch_error_type : ScaleType
dispatch_error_type = record {
  segments = "sp_runtime" ∷ "DispatchError" ∷ [];
  ident = some "DispatchError";
  type_def = variant (module_variant ∷ []);
}

abbrev type_list : List ScaleType
type_list =
    plain_type (primitive TypeDefPrimitive.u8)
    ∷ plain_type (composite (amount_field ∷ to_field ∷ []))
    ∷ plain_type (compact 3)
    ∷ plain_type (primitive TypeDefPrimitive.u32)
    ∷ plain_type (variant (transfer_event ∷ []))
    ∷ plain_type (variant (balance_error ∷ []))
    ∷ plain_type (variant (transfer_call ∷ []))
    ∷ dispatch_error_type
    ∷ []

abbrev pub registry : PortableRegistry
registry = record {
  resolve = get_elem? type_list;
  types = (7, dispatch_error_type) ∷ [];
  debug = λ d. "type";
}

all-get :
    {A : Type 0} (P : A → Type 0) (xs : List A) (i : ℕ) {x : A}
    → All P xs
    → get_elem? xs i ≡ some x
    → P x
all-get P [] i {x} a e = cc
all-get P (y ∷ xs) zero {x} (p, a) e = let q : y ≡ x = ground (arith, e) in rw (← q) p
all-get P (y ∷ xs) (suc i) {x} (p, a) e = all-get P xs i a e

differ : ◌≢◌ {A = Option String} (some "to") (some "amount")
differ h = let b : false ≡ true = ap (λ o. str_eq (get_or o "") "amount") h in cc

pub both_named : AllNamed (amount_field ∷ to_field ∷ [])
both_named = (("amount", refl, (differ, tt)), (("to", refl, tt), tt))

pub registry-IsRegular : IsRegular registry
registry-IsRegular = record {
  regular = λ id ty e.
      all-get (λ t. RegularDef t.type_def) type_list id
        (
          tt,
          (
            both,
            (tt, (tt, (transfer_regular, (error_regular, (call_regular, (module_regular, tt)))))),
          ),
        )
        e;
}
  where
    both : RegularFields (amount_field ∷ to_field ∷ [])
    both = inl both_named

    transfer_regular : RegularVariants (transfer_event ∷ [])
    transfer_regular = ((tt, tt), ((omega arith, both), tt))

    call_regular : RegularVariants (transfer_call ∷ [])
    call_regular = ((tt, tt), ((omega arith, both), tt))

    error_regular : RegularVariants (balance_error ∷ [])
    error_regular = ((tt, tt), ((omega arith, inl tt), tt))

    module_regular : RegularVariants (module_variant ∷ [])
    module_regular = ((tt, tt), ((omega arith, inl tt), tt))

abbrev pub balance_storage : StorageEntry
balance_storage = record {
  name = "Account";
  ty = map (twox64_concat ∷ identity ∷ []) 3 3;
  default = [];
  docs = [];
}

abbrev pub issuance_storage : StorageEntry
issuance_storage = record { name = "TotalIssuance"; ty = plain 3; default = []; docs = [] }

abbrev pub balances : Pallet
balances = record {
  name = "Balances";
  storage = some (balance_storage ∷ issuance_storage ∷ []);
  calls = some 6;
  event = some 4;
  constants = [];
  error = some 5;
  index = 5;
}

abbrev pub runtime : RuntimeMetadataV14
runtime = record { types = registry; pallets = balances ∷ [] }

abbrev event_fields : List EventFieldMetadata
event_fields =
    record { name = some "amount"; type_name = none; type_id = 2 }
    ∷ record { name = some "to"; type_name = none; type_id = 0 }
    ∷ []

abbrev pub found_event : EventMetadata
found_event = record { pallet = "Balances"; event = "Transfer"; fields = event_fields; docs = [] }

abbrev pub found_error : ErrorMetadata
found_error = record { pallet = "Balances"; error = "InsufficientBalance"; docs = "too low" ∷ [] }

abbrev pub found_pallet : PalletMetadata
found_pallet = record {
  index = 5;
  name = "Balances";
  call_indexes = ("transfer", 7) ∷ [];
  call_ty_id = some 6;
  storage = ("Account", balance_storage) ∷ ("TotalIssuance", issuance_storage) ∷ [];
  constants = [];
}

abbrev pub metadata : Metadata
metadata = record {
  metadata = runtime;
  pallets = ("Balances", found_pallet) ∷ [];
  events = ((5, 1), found_event) ∷ [];
  errors = ((5, 2), found_error) ∷ [];
  dispatch_error_ty = some 7;
}

pub collected : try_from (meta_reserved, v14 runtime) ≡ ok metadata
unfolding try_from text
collected = refl

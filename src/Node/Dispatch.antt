-- ===== src/Node/Dispatch.antt =====
-- node-api/src/error.rs: `DispatchError::decode_from`.
pub mod Steps
pub mod Sound
use substrate_api_client.Prelude.{
  refl, inl, inr, Bool-cases, Option-cases, Result-cases, ℕ, ◌≡◌, String, Option, none, some, List,
  [], ◌∷◌, Bytes, find, str_eq, ◌==◌, ==_refl, not, if◌then◌else◌,
}
use substrate_api_client.Prelude.{Result, ok, panic}
use substrate_api_client.Decoder.Registry.{TypeDef, variant}
use substrate_api_client.Node.Metadata.Types.{Metadata, ErrorMetadata, find_error, resolve_type}
use substrate_api_client.Node.Error.{Error}

pub record ModuleErrorData : Type 0 where
  pub pallet_index : ℕ
  -- four bytes
  pub error : Bytes

-- Without a first byte there is no error index.
unfoldable pub error_index : ModuleErrorData → Result Error ℕ
error_index d = elim d.error [ [] ↦ panic | e ∷ es ↦ ok e ]

pub record ModuleError : Type 0 where
  pub pallet : String
  pub error : String
  pub description : List String
  pub error_data : ModuleErrorData

pub data DispatchError : Type 0 where
  module_error : ModuleError → DispatchError
  other : Bytes → DispatchError

-- The index of the variant "Module" of an enum type.
unfoldable pub module_variant : TypeDef → Option ℕ
module_variant (variant vs) = elim (find (λ v. str_eq v.name "Module") vs) [
  | none ↦ none
  | some v ↦ some v.index
]
module_variant _ = none

-- The index of the variant "Module", where the metadata has a `DispatchError` that is an enum with one.
unfoldable pub module_variant_idx : Metadata → Option ℕ
unfolding module_variant resolve_type
module_variant_idx m = elim m.dispatch_error_ty [
  | none ↦ none
  | some id ↦ elim (resolve_type m id) [ none ↦ none | some ty ↦ module_variant ty.type_def ]
]

-- `CurrentModuleError::decode`, or else `LegacyModuleError::decode`; bytes behind are left alone.
unfoldable pub decode_module_error : Bytes → Option ModuleErrorData
decode_module_error (i ∷ a ∷ b ∷ c ∷ d ∷ rest) =
    some (record { pallet_index = i; error = a ∷ b ∷ c ∷ d ∷ [] })
decode_module_error (i ∷ a ∷ b ∷ c ∷ []) =
    some (record { pallet_index = i; error = a ∷ 0 ∷ 0 ∷ 0 ∷ [] })
decode_module_error (i ∷ a ∷ b ∷ []) =
    some (record { pallet_index = i; error = a ∷ 0 ∷ 0 ∷ 0 ∷ [] })
decode_module_error (i ∷ a ∷ []) = some (record { pallet_index = i; error = a ∷ 0 ∷ 0 ∷ 0 ∷ [] })
decode_module_error (i ∷ []) = none
decode_module_error [] = none

module _ (m : Metadata) where
  -- The details of a decoded module error; `bytes` are those after the first.
  unfoldable pub with_details : Bytes → Option ModuleErrorData → Result Error DispatchError
  unfolding error_index
  with_details bytes none = ok (other bytes)
  with_details bytes (some e) = elim (error_index e) [
    | ok first ↦ elim (find_error m e.pallet_index first) [
      | ok details ↦ ok (
          module_error (record {
            pallet = details.pallet;
            error = details.error;
            description = details.docs;
            error_data = e;
          }))
      | _ ↦ ok (other bytes)
    ]
    | _ ↦ panic
  ]

  -- The bytes against the index of the variant; without a first byte, `bytes[0]` panics.
  unfoldable pub decode_indexed : ℕ → Bytes → Result Error DispatchError
  unfolding with_details decode_module_error
  decode_indexed idx [] = panic
  decode_indexed idx (b ∷ bytes) =
      if not (b == idx)
      then ok (other (b ∷ bytes))
      else with_details bytes (decode_module_error bytes)

  unfoldable pub decode_from : Bytes → Result Error DispatchError
  unfolding module_variant_idx decode_indexed
  decode_from bytes = elim (module_variant_idx m) [
    | none ↦ ok (other bytes)
    | some idx ↦ decode_indexed idx bytes
  ]

  -- An error in the current shape, whose pallet and first error byte name an error of the metadata,
  -- is decoded to that error; the four error bytes are kept, and bytes behind are left alone.
  pub decode_from-current :
      (idx p a b c d : ℕ) (rest : Bytes) (e : ErrorMetadata)
      → module_variant_idx m ≡ some idx
      → find_error m p a ≡ ok e
      → decode_from (idx ∷ p ∷ a ∷ b ∷ c ∷ d ∷ rest)
        ≡ ok (
            module_error (record {
              pallet = e.pallet;
              error = e.error;
              description = e.docs;
              error_data = record { pallet_index = p; error = a ∷ b ∷ c ∷ d ∷ [] };
            }))
  unfolding decode_from decode_indexed with_details decode_module_error error_index
  decode_from-current idx p a b c d rest e i f =
      rw (i, decode_from) (rw (==_refl idx) (rw (f, with_details)))

  -- An error in the oldest shape, a pallet index and an error index that name an error of the
  -- metadata, is decoded to that error, with three zero bytes behind the error index.
  pub decode_from-legacy :
      (idx p a : ℕ) (e : ErrorMetadata)
      → module_variant_idx m ≡ some idx
      → find_error m p a ≡ ok e
      → decode_from (idx ∷ p ∷ a ∷ [])
        ≡ ok (
            module_error (record {
              pallet = e.pallet;
              error = e.error;
              description = e.docs;
              error_data = record { pallet_index = p; error = a ∷ 0 ∷ 0 ∷ 0 ∷ [] };
            }))
  unfolding decode_from decode_indexed with_details decode_module_error error_index
  decode_from-legacy idx p a e i f = rw (i, decode_from) (rw (==_refl idx) (rw (f, with_details)))

  with_details-total :
      (bytes : Bytes) (p a : ℕ) (es : Bytes)
      → (e : DispatchError) × (with_details bytes
            (some (record { pallet_index = p; error = a ∷ es }))
          ≡ ok e)
  unfolding with_details error_index
  with_details-total bytes p a es = elim (Result-cases (find_error m p a)) [
    | inl (d, f) ↦ (
      module_error (record {
        pallet = d.pallet;
        error = d.error;
        description = d.docs;
        error_data = record { pallet_index = p; error = a ∷ es };
      }),
      rw (f, with_details),
    )
    | inr (inl (x, f)) ↦ (other bytes, rw (f, with_details))
    | inr (inr (inl f)) ↦ (other bytes, rw (f, with_details))
    | inr (inr (inr f)) ↦ (other bytes, rw (f, with_details))
  ]

  module_error-total :
      (bytes : Bytes)
      → (e : DispatchError) × (with_details bytes (decode_module_error bytes) ≡ ok e)
  unfolding with_details decode_module_error
  module_error-total [] = (_, refl)
  module_error-total (i ∷ []) = (_, refl)
  module_error-total (i ∷ a ∷ []) = with_details-total (i ∷ a ∷ []) i a (0 ∷ 0 ∷ 0 ∷ [])
  module_error-total (i ∷ a ∷ b ∷ []) = with_details-total (i ∷ a ∷ b ∷ []) i a (0 ∷ 0 ∷ 0 ∷ [])
  module_error-total (i ∷ a ∷ b ∷ c ∷ []) =
      with_details-total (i ∷ a ∷ b ∷ c ∷ []) i a (0 ∷ 0 ∷ 0 ∷ [])
  module_error-total (i ∷ a ∷ b ∷ c ∷ d ∷ rest) =
      with_details-total (i ∷ a ∷ b ∷ c ∷ d ∷ rest) i a (b ∷ c ∷ d ∷ [])

  -- Decoding a dispatch error from at least one byte always returns one, whatever the metadata is.
  pub decode_from-total :
      (b : ℕ) (bytes : Bytes) → (e : DispatchError) × (decode_from (b ∷ bytes) ≡ ok e)
  unfolding decode_from decode_indexed
  decode_from-total b bytes = elim (Option-cases (module_variant_idx m)) [
    | inl n ↦ (other (b ∷ bytes), rw (n, decode_from))
    | inr (idx, s) ↦ elim (Bool-cases (b == idx)) [
      | inr f ↦ (other (b ∷ bytes), rw (s, decode_from) (rw f))
      | inl t ↦ let (e, h) = module_error-total bytes in (e, rw (s, decode_from) (rw t h))
    ]
  ]

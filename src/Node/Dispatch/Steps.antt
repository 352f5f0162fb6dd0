-- ===== src/Node/Dispatch/Steps.antt =====
-- node-api/src/error.rs: the steps of `DispatchError::decode_from` where it returns a module error.
use substrate_api_client.Prelude.{
  inl, inr, Bool-cases, Option-cases, Result-cases, ℕ, ◌≡◌, refl, Option, none, some, [], ◌∷◌,
  Bytes, ◌==◌, ==_iff, ==_refl, ap, arith, ◌∙◌,
}
use substrate_api_client.Prelude.{Result, ok}
use mathlib.Core.Path.{subst}
use substrate_api_client.Node.Metadata.Types.{Metadata, ErrorMetadata, find_error}
use substrate_api_client.Node.Error.{Error}
use substrate_api_client.Node.Dispatch.{
  DispatchError, ModuleError, ModuleErrorData, module_error, other, error_index, with_details,
  module_variant_idx, decode_module_error, decode_indexed, decode_from,
}

module _ (m : Metadata) where
  -- The metadata has the error, at the pallet index and the first error byte of the data in `rest`.
  abbrev IsKnown : Bytes → ModuleError → Type 0
  IsKnown rest e =
      (d : ErrorMetadata) × (first : ℕ) × (decode_module_error rest ≡ some e.error_data)
      × (error_index e.error_data ≡ ok first)
      × (find_error m e.error_data.pallet_index first ≡ ok d)
      × (e.pallet ≡ d.pallet)
      × (e.error ≡ d.error)
      × (e.description ≡ d.docs)

  abbrev Sound : (ModuleError → Type 0) → Result Error DispatchError → Type 0
  Sound P (ok (module_error e)) = P e
  Sound P _ = Unit

  Sound-holds :
      (P : ModuleError → Type 0) (r : Result Error DispatchError) (e : ModuleError)
      → Sound P r
      → r ≡ ok (module_error e)
      → P e
  Sound-holds P r e s h = subst (Sound P) h s

  with_error-Sound :
      (rest : Bytes) (p a : ℕ) (es : Bytes)
      → decode_module_error rest ≡ some (record { pallet_index = p; error = a ∷ es })
      → Sound
          (IsKnown rest)
          (with_details m rest (some (record { pallet_index = p; error = a ∷ es })))
  unfolding with_details error_index
  with_error-Sound rest p a es h = elim (Result-cases (find_error m p a)) [
    | inl (d, g) ↦ rw (g, with_details) (d, a, h, refl, g, refl, refl, refl)
    | inr (inl (x, g)) ↦ rw (g, with_details) tt
    | inr (inr (inl g)) ↦ rw (g, with_details) tt
    | inr (inr (inr g)) ↦ rw (g, with_details) tt
  ]

  with_details-Sound :
      (rest : Bytes) (o : Option ModuleErrorData)
      → decode_module_error rest ≡ o
      → Sound (IsKnown rest) (with_details m rest o)
  unfolding with_details error_index
  with_details-Sound rest none h = tt
  with_details-Sound rest (some i) h = by_error i.error h
    where
      by_error :
          (es : Bytes)
          → decode_module_error rest ≡ some (record { pallet_index = i.pallet_index; error = es })
          → Sound
              (IsKnown rest)
              (with_details m rest (some (record { pallet_index = i.pallet_index; error = es })))
      by_error [] h = tt
      by_error (a ∷ es) h = with_error-Sound rest i.pallet_index a es h

  -- Of bytes that start with the index of the variant "Module".
  abbrev pub IsExplained : Bytes → ModuleError → Type 0
  IsExplained bytes e =
      (idx : ℕ) × (rest : Bytes) × (bytes ≡ idx ∷ rest)
      × (module_variant_idx m ≡ some idx)
      × IsKnown rest e

  pub decode_from-IsExplained :
      (bytes : Bytes) (e : ModuleError)
      → decode_from m bytes ≡ ok (module_error e)
      → IsExplained bytes e
  unfolding decode_from decode_indexed
  decode_from-IsExplained bytes e h =
      Sound-holds (IsExplained bytes) (decode_from m bytes) e (all bytes) h
    where
      behind :
          (idx b : ℕ) (rest : Bytes)
          → b ≡ idx
          → module_variant_idx m ≡ some idx
          → (r : Result Error DispatchError) → Sound (IsKnown rest) r
          → Sound (IsExplained (b ∷ rest)) r
      behind idx b rest p s (ok (module_error x)) k = (idx, rest, rw p refl, s, k)
      behind idx b rest p s (ok (other y)) k = tt
      behind idx b rest p s _ k = tt

      indexed :
          (idx : ℕ)
          → module_variant_idx m ≡ some idx
          → (bs : Bytes) → Sound (IsExplained bs) (decode_indexed m idx bs)
      indexed idx s [] = tt
      indexed idx s (b ∷ rest) = elim (Bool-cases (b == idx)) [
        | inr f ↦ rw f tt
        | inl t ↦ rw t (
            behind idx b rest ((==_iff b idx).0 t) s _
              (with_details-Sound rest (decode_module_error rest) refl))
      ]

      all : (bs : Bytes) → Sound (IsExplained bs) (decode_from m bs)
      all bs = elim (Option-cases (module_variant_idx m)) [
        | inl n ↦ rw (n, decode_from) tt
        | inr (idx, s) ↦ rw (s, decode_from) (indexed idx s bs)
      ]

  with_details-known :
      (rest : Bytes) (i : ModuleErrorData) (first : ℕ) (d : ErrorMetadata)
      → error_index i ≡ ok first
      → find_error m i.pallet_index first ≡ ok d
      → with_details m rest (some i)
        ≡ ok (
            module_error
              (record { pallet = d.pallet; error = d.error; description = d.docs; error_data = i }))
  unfolding with_details error_index
  with_details-known rest i first d f g = by_error i.error f
    where
      by_error :
          (es : Bytes)
          → error_index (record { pallet_index = i.pallet_index; error = es }) ≡ ok first
          → with_details m rest (some (record { pallet_index = i.pallet_index; error = es }))
            ≡ ok (
                module_error (record {
                  pallet = d.pallet;
                  error = d.error;
                  description = d.docs;
                  error_data = record { pallet_index = i.pallet_index; error = es };
                }))
      by_error [] h = cc
      by_error (a ∷ es) h =
          let e : a ≡ first = cc in
          let found : find_error m i.pallet_index a ≡ ok d = rw e g in rw (found, with_details)

  decode_from-Module :
      (idx : ℕ) (rest : Bytes) (i : ModuleErrorData)
      → module_variant_idx m ≡ some idx
      → decode_module_error rest ≡ some i
      → decode_from m (idx ∷ rest) ≡ with_details m rest (some i)
  unfolding decode_from decode_indexed
  decode_from-Module idx rest i s dec =
      rw (s, decode_from) (rw (==_refl idx) (ap (with_details m rest) dec))

  pub IsExplained-decode_from :
      (bytes : Bytes) (e : ModuleError)
      → IsExplained bytes e
      → decode_from m bytes ≡ ok (module_error e)
  IsExplained-decode_from bytes e (idx, rest, b, s, (d, first, dec, f, g, p, er, ds)) = rw b (
      decode_from-Module idx rest e.error_data s dec
      ∙ with_details-known rest e.error_data first d f g
      ∙ ground (arith, p, er, ds))

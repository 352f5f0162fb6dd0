-- ===== src/Node/Dispatch/Sound.antt =====
-- node-api/src/error.rs: the bytes from which `DispatchError::decode_from` returns a module error.
use substrate_api_client.Prelude.{
  ℕ, ◌≤◌, ◌≡◌, ◌↔◌, ◌⊎◌, refl, ap, inl, inr, Option-cases, some, List, [], ◌∷◌, Bytes, length, find,
  str_eq, ok, ok-inj, arith,
}
use mathlib.Core.Path.{subst}
use mathlib.Core.Option.{get_or}
use substrate_api_client.Decoder.Registry.{TypeId, TypeDef, ScaleType, VariantType, variant}
use substrate_api_client.Node.Metadata.Types.{Metadata, ErrorMetadata, find_error, resolve_type}
use substrate_api_client.Node.Dispatch.{
  ModuleError, ModuleErrorData, module_error, error_index, module_variant, module_variant_idx,
  decode_module_error, decode_from,
}
use substrate_api_client.Node.Dispatch.Steps.{decode_from-IsExplained, IsExplained-decode_from}

-- A module error in bytes: the index of the pallet, and four bytes of error, whatever follows them;
-- or, of old, one byte of error and at most two bytes behind it, which stands for the byte and three
-- zero bytes.
abbrev pub HoldsError : Bytes → ℕ → ℕ → ModuleErrorData → Type 0
HoldsError bytes p a held =
    ((b : ℕ) × (c : ℕ) × (d : ℕ) × (rest : Bytes) × (bytes ≡ p ∷ a ∷ b ∷ c ∷ d ∷ rest)
      × (held ≡ record { pallet_index = p; error = a ∷ b ∷ c ∷ d ∷ [] }))
    ⊎ ((rest : Bytes) × (bytes ≡ p ∷ a ∷ rest)
        × (length rest ≤ 2)
        × (held ≡ record { pallet_index = p; error = a ∷ 0 ∷ 0 ∷ 0 ∷ [] }))

HoldsError-decode :
    (bytes : Bytes) (p a : ℕ) (held : ModuleErrorData)
    → HoldsError bytes p a held
    → (decode_module_error bytes ≡ some held) × (held.pallet_index ≡ p) × (error_index held ≡ ok a)
unfolding decode_module_error error_index
HoldsError-decode bytes p a held (inl (b, c, d, rest, e, q)) = rw (e, q) (refl, refl, refl)
HoldsError-decode bytes p a held (inr ([], e, l, q)) = rw (e, q) (refl, refl, refl)
HoldsError-decode bytes p a held (inr (x ∷ [], e, l, q)) = rw (e, q) (refl, refl, refl)
HoldsError-decode bytes p a held (inr (x ∷ y ∷ [], e, l, q)) = rw (e, q) (refl, refl, refl)
HoldsError-decode bytes p a held (inr (x ∷ y ∷ z ∷ rest, e, l, q)) = absurd (omega (arith, l))

some-inj : {A : Type 0} {a b : A} → some a ≡ some b → a ≡ b
some-inj {a = a} h = ap (λ o. get_or o a) h

current-HoldsError :
    (i x y z w a : ℕ) (rest : Bytes) (held : ModuleErrorData)
    → record { pallet_index = i; error = x ∷ y ∷ z ∷ w ∷ [] } ≡ held
    → error_index held ≡ ok a
    → HoldsError (i ∷ x ∷ y ∷ z ∷ w ∷ rest) held.pallet_index a held
unfolding error_index
current-HoldsError i x y z w a rest held same k =
    subst (λ g. error_index g ≡ ok a → HoldsError (i ∷ x ∷ y ∷ z ∷ w ∷ rest) g.pallet_index a g)
      same (λ e. let q : x ≡ a = ok-inj e in rw (← q) (inl (y, z, w, rest, refl, refl))) k

legacy-HoldsError :
    (i x a : ℕ) (rest : Bytes) (held : ModuleErrorData)
    → length rest ≤ 2
    → record { pallet_index = i; error = x ∷ 0 ∷ 0 ∷ 0 ∷ [] } ≡ held
    → error_index held ≡ ok a
    → HoldsError (i ∷ x ∷ rest) held.pallet_index a held
unfolding error_index
legacy-HoldsError i x a rest held l same k =
    subst (λ g. error_index g ≡ ok a → HoldsError (i ∷ x ∷ rest) g.pallet_index a g) same
      (λ e. let q : x ≡ a = ok-inj e in rw (← q) (inr (rest, refl, l, refl))) k

decode-HoldsError :
    (bytes : Bytes) (a : ℕ) (held : ModuleErrorData)
    → decode_module_error bytes ≡ some held
    → error_index held ≡ ok a
    → HoldsError bytes held.pallet_index a held
unfolding decode_module_error
decode-HoldsError [] a held h k = cc
decode-HoldsError (i ∷ []) a held h k = cc
decode-HoldsError (i ∷ x ∷ []) a held h k =
    legacy-HoldsError i x a [] held (omega arith) (some-inj h) k
decode-HoldsError (i ∷ x ∷ y ∷ []) a held h k =
    legacy-HoldsError i x a (y ∷ []) held (omega arith) (some-inj h) k
decode-HoldsError (i ∷ x ∷ y ∷ z ∷ []) a held h k =
    legacy-HoldsError i x a (y ∷ z ∷ []) held (omega arith) (some-inj h) k
decode-HoldsError (i ∷ x ∷ y ∷ z ∷ w ∷ rest) a held h k =
    current-HoldsError i x y z w a rest held (some-inj h) k

module _ (m : Metadata) where
  -- The dispatch error of the metadata is an enum, in which the variant of that name has the index.
  abbrev pub IsModuleIndex : ℕ → Type 0
  IsModuleIndex idx =
      (id : TypeId) × (ty : ScaleType) × (vs : List VariantType) × (v : VariantType)
      × (m.dispatch_error_ty ≡ some id)
      × (m.metadata.types.resolve id ≡ some ty)
      × (ty.type_def ≡ variant vs)
      × (find (λ x. str_eq x.name "Module") vs ≡ some v)
      × (v.index ≡ idx)

  IsModuleIndex-found : (idx : ℕ) → IsModuleIndex idx → module_variant_idx m ≡ some idx
  unfolding module_variant_idx module_variant resolve_type
  IsModuleIndex-found idx (id, ty, vs, v, e, f, g, h, i) =
      rw (e, module_variant_idx) (rw f (rw g (rw (h, module_variant) (rw i))))

  found-IsModuleIndex : (idx : ℕ) → module_variant_idx m ≡ some idx → IsModuleIndex idx
  unfolding module_variant_idx module_variant resolve_type
  found-IsModuleIndex idx h = elim (Option-cases m.dispatch_error_ty) [
    | inl n ↦ let x = rw (n, module_variant_idx) at h in cc
    | inr (id, e) ↦ elim (Option-cases (m.metadata.types.resolve id)) [
      | inl n ↦ let x = rw (e, n, module_variant_idx) at h in cc
      | inr (ty, f) ↦ by_type id ty ty.type_def e f refl (rw (e, f, module_variant_idx) at h)
    ]
  ]
    where
      by_type :
          (id : TypeId) (ty : ScaleType) (d : TypeDef)
          → m.dispatch_error_ty ≡ some id
          → m.metadata.types.resolve id ≡ some ty
          → ty.type_def ≡ d
          → module_variant d ≡ some idx
          → IsModuleIndex idx
      by_type id ty (variant vs) e f g h =
          elim (Option-cases (find (λ x. str_eq x.name "Module") vs)) [
            | inl n ↦ let x = rw (n, module_variant) at h in cc
            | inr (v, k) ↦
                let i : v.index ≡ idx = ground (arith, rw (k, module_variant) at h) in
                (id, ty, vs, v, e, f, g, k, i)
          ]
      by_type id ty _ e f g h = cc

  -- Bytes that start with the index of the variant "Module", and behind it have a module error
  -- that the metadata has, at the pallet's index and the first byte of error.
  abbrev pub IsKnownBehind : Bytes → ModuleError → Type 0
  IsKnownBehind bytes e =
      (idx : ℕ) × (rest : Bytes) × (p : ℕ) × (a : ℕ) × (d : ErrorMetadata) × (bytes ≡ idx ∷ rest)
      × IsModuleIndex idx
      × HoldsError rest p a e.error_data
      × (find_error m p a ≡ ok d)
      × (e.pallet ≡ d.pallet)
      × (e.error ≡ d.error)
      × (e.description ≡ d.docs)

  -- A module error is decoded exactly from bytes that start with the index that the variant
  -- "Module" has in the metadata's dispatch error, and behind it have a module error: the index of
  -- a pallet and four bytes of error, or one and at most two bytes behind it. The metadata has an
  -- error at the pallet's index and the first byte of error; the decoded error has its pallet,
  -- name and docs.
  pub decode_from_iff :
      (bytes : Bytes) (e : ModuleError)
      → (decode_from m bytes ≡ ok (module_error e)) ↔ IsKnownBehind bytes e
  decode_from_iff bytes e = (
    λ h.
        let (idx, rest, b, s, (d, first, dec, f, g, p, er, ds)) =
          decode_from-IsExplained m bytes e h in
        (
          idx,
          rest,
          e.error_data.pallet_index,
          first,
          d,
          b,
          found-IsModuleIndex idx s,
          decode-HoldsError rest first e.error_data dec f,
          g,
          p,
          er,
          ds,
        ),
    λ (idx, rest, p, a, d, b, s, holds, g, pallet, error, docs).
        let (dec, same, f) = HoldsError-decode rest p a e.error_data holds in
        IsExplained-decode_from m bytes e
          (idx, rest, b, IsModuleIndex-found idx s, (d, a, dec, f, rw same g, pallet, error, docs)),
  )

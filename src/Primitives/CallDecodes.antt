-- ===== src/Primitives/CallDecodes.antt =====
-- compose-macros/src/lib.rs against node-api/src/decoder/decode.rs: a call composed by its name is
-- decoded, by the call type of its pallet, as the variant of that name.
use mathlib.Core.List.{Memᴰ}
use mathlib.Core.List.Memᴰ.{head, tail}
use substrate_api_client.Prelude.{
  ℕ, ◌≡◌, refl, sym, ap, Bool-cases, inl, inr, String, List, [], ◌∷◌, some, Bytes, ok, ◌>>=◌,
  ok-inj, ok_or-eq-ok, find, ◌==◌, ==_iff, ==_refl, Result-cases,
}
use substrate_api_client.Decoder.Registry.{TypeId, VariantType}
use substrate_api_client.Decoder.Value.{Value}
use substrate_api_client.Decoder.Decode.{Parser, decode_fields, decode_variant_value}
use substrate_api_client.Node.Runtime.{RuntimeMetadataV14, v14, meta_reserved}
use substrate_api_client.Node.Metadata.Types.{
  Metadata, PalletMetadata, find_pallet, call_index, pallet_not_found, call_not_found,
}
use substrate_api_client.Node.Metadata.Collect.{try_from, get_type_def_variant}
use substrate_api_client.Node.Metadata.CallTypes.{try_from-ListsCalls}
use substrate_api_client.Primitives.Params.{compose_call}

-- Variants of an enum type with the same index are the same.
abbrev pub Indexed : List VariantType → Type 0
Indexed vs = (v w : VariantType) → Memᴰ v vs → Memᴰ w vs → v.index ≡ w.index → v ≡ w

-- The variant with an index, where there is one.
find-indexed :
    (vs : List VariantType)
    → Indexed vs
    → (v : VariantType) → Memᴰ v vs
    → find (λ w. w.index == v.index) vs ≡ some v
find-indexed [] u v m = elim m [ ]
find-indexed (w ∷ vs) u v (head q) = rw (q, ==_refl w.index) refl
find-indexed (w ∷ vs) u v (tail t) = elim (Bool-cases (w.index == v.index)) [
  | inl e ↦ rw e (ap some (u w v (head refl) (tail t) ((==_iff w.index v.index).0 e)))
  | inr e ↦ rw e (find-indexed vs (λ a b s r. u a b (tail s) (tail r)) v t)
]

module _ (r : RuntimeMetadataV14) (m : Metadata) (h : try_from (meta_reserved, v14 r) ≡ ok m) where
  composed_parts :
      {E : Type 0} (pallet call : String) (args bytes : Bytes)
      → compose_call {E = E} m pallet call args ≡ ok bytes
      → (p : PalletMetadata) × (i : ℕ) × (find_pallet m pallet ≡ ok p)
        × (call_index p call ≡ ok i)
        × (bytes ≡ p.index ∷ i ∷ args)
  unfolding compose_call
  composed_parts pallet call args bytes e = elim (Result-cases (find_pallet m pallet)) [
    | inl (p, f) ↦ elim (Result-cases (call_index p call)) [
      | inl (i, g) ↦ (p, i, f, g, sym (ok-inj (rw (f, g, compose_call) at e)))
      | inr (inl (x, g)) ↦ let y = rw (f, g, compose_call) at e in cc
      | inr (inr (inl g)) ↦ let y = rw (f, g, compose_call) at e in cc
      | inr (inr (inr g)) ↦ let y = rw (f, g, compose_call) at e in cc
    ]
    | inr (inl (x, f)) ↦ let y = rw (f, compose_call) at e in cc
    | inr (inr (inl f)) ↦ let y = rw (f, compose_call) at e in cc
    | inr (inr (inr f)) ↦ let y = rw (f, compose_call) at e in cc
  ]

  -- Let the metadata of a node be accepted by `try_from`, and the variants of its enum types have
  -- indices of their own. A call that is composed by name from encoded arguments is the pallet's
  -- index and then what decodes, by the variants of the pallet's call type, as the variant of the
  -- call's name, with the arguments decoded as its fields.
  pub compose_call-decodes :
      ((ty : TypeId) (vs : List VariantType) → get_type_def_variant r.types ty ≡ ok vs → Indexed vs)
      → {E : Type 0} (pallet call : String) (args bytes : Bytes)
      → compose_call {E = E} m pallet call args ≡ ok bytes
      → (rec : TypeId → Parser (Value TypeId))
      → (p : PalletMetadata) × (ty : TypeId) × (vs : List VariantType) × (v : VariantType)
        × (body : Bytes) × (find_pallet m pallet ≡ ok p)
        × (p.call_ty_id ≡ some ty)
        × (get_type_def_variant r.types ty ≡ ok vs)
        × (v.name ≡ call)
        × (bytes ≡ p.index ∷ body)
        × (decode_variant_value rec vs body
            ≡ (decode_fields rec v.fields args >>= λ x. ok ((call, x.0), x.1)))
  unfolding find_pallet call_index decode_variant_value
  compose_call-decodes u pallet call args bytes e rec =
      let (p, i, f, g, b) = composed_parts pallet call args bytes e in
      let (ty, vs, v, n, t, k, a, j) =
        try_from-ListsCalls r m h pallet p (ok_or-eq-ok (pallet_not_found pallet) _ f) call i
          (ok_or-eq-ok (call_not_found call) _ g) in
      (
        p,
        ty,
        vs,
        v,
        i ∷ args,
        f,
        n,
        t,
        a,
        b,
        rw (← j) (rw (find-indexed vs (u ty vs t) v k, a) refl),
      )

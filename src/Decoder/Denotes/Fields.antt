-- ===== src/Decoder/Denotes/Fields.antt =====
-- node-api/src/decoder/encode.rs: vectors of values, and the fields of composites and variants, are
-- written as what they denote.
use substrate_api_client.Prelude.{
  suc, ◌≡◌, refl, ap, ◌∙◌, ◌≢◌, String, some, List, [], ◌∷◌, map, arith, ok, length, All,
}
use substrate_api_client.Decoder.Registry.{TypeId, Field}
use substrate_api_client.Decoder.Value
use substrate_api_client.Decoder.Value.{
  Value, Composite, Values, NamedValues, named, unnamed, from_list, from_pairs, to_list, to_pairs,
  len, is_empty, into_values,
}
use substrate_api_client.Decoder.Decode.{
  Parser, decode_each, decode_count, decode_types, decode_fields,
}
use substrate_api_client.Decoder.Encode.{
  Encoder, encode_types, encode_values, encode_unnamed, encode_named, encode_composite_fields,
}
use substrate_api_client.Decoder.RoundTrip.Pieces.{Reencodes, Reencodes-paired, Reencodes-mapped}
use substrate_api_client.Decoder.RoundTrip.Lookup.{find_named, NodupNames, take_named_lem}
use substrate_api_client.Decoder.RoundTrip.Fields.{AllNamed, AllUnnamed}
use substrate_api_client.Decoder.RoundTrip.Composites.{
  gathered, gathered_named, gathered_unnamed, encode-named_cons, encode-unnamed_cons,
}
use substrate_api_client.Decoder.Denotes.{
  EachAs, AllAs, UnnamedAs, NamedAs, FieldsAs, no_fields, by_name, in_order,
}
use mathlib.Core.Path.{subst}

module _ {T : Type 0} (R : TypeId → Value T → Value TypeId → Type 0) where
  pub length-EachAs :
      (tys : List TypeId) (vs : List (Value T)) (vs' : List (Value TypeId))
      → EachAs R tys vs vs'
      → length vs ≡ length tys
  length-EachAs [] [] [] h = refl
  length-EachAs (ty ∷ tys) (v ∷ vs) (v' ∷ vs') (_, h) = ap suc (length-EachAs tys vs vs' h)
  length-EachAs [] [] (v' ∷ vs') h = absurd h
  length-EachAs [] (v ∷ vs) vs' h = absurd h
  length-EachAs (ty ∷ tys) [] vs' h = absurd h
  length-EachAs (ty ∷ tys) (v ∷ vs) [] h = absurd h

  pub length-AllAs :
      (ty : TypeId) (vs : List (Value T)) (vs' : List (Value TypeId))
      → AllAs R ty vs vs'
      → length vs ≡ length vs'
  length-AllAs ty [] [] h = refl
  length-AllAs ty (v ∷ vs) (v' ∷ vs') (_, h) = ap suc (length-AllAs ty vs vs' h)
  length-AllAs ty [] (v' ∷ vs') h = absurd h
  length-AllAs ty (v ∷ vs) [] h = absurd h

  length-UnnamedAs :
      (fs : List Field) (vs : List (Value T)) (vs' : List (Value TypeId))
      → UnnamedAs R fs vs vs'
      → length vs ≡ length fs
  length-UnnamedAs [] [] [] h = refl
  length-UnnamedAs (f ∷ fs) (v ∷ vs) (v' ∷ vs') (_, _, h) = ap suc (length-UnnamedAs fs vs vs' h)
  length-UnnamedAs [] [] (v' ∷ vs') h = absurd h
  length-UnnamedAs [] (v ∷ vs) vs' h = absurd h
  length-UnnamedAs (f ∷ fs) [] vs' h = absurd h
  length-UnnamedAs (f ∷ fs) (v ∷ vs) [] h = absurd h

  -- Fields of other names than the one that was taken are still found.
  NamedAs-keep :
      (n : String) (fs : List Field) (vals vals₁ : List (String × Value T))
      (vs' : List (String × Value TypeId))
      → ((k : String) → k ≢ n → find_named k vals₁ ≡ find_named k vals)
      → All (λ g. g.name ≢ some n) fs
      → NamedAs R fs vals vs'
      → NamedAs R fs vals₁ vs'
  NamedAs-keep n [] vals vals₁ [] keep ne h = tt
  NamedAs-keep n (f ∷ fs) vals vals₁ ((k, v') ∷ vs') keep (ne, nes) ((is_k, v, found, r), h) = (
    (is_k, v, keep k (λ e. ne (is_k ∙ ap some e)) ∙ found, r),
    NamedAs-keep n fs vals vals₁ vs' keep nes h,
  )
  NamedAs-keep n [] vals vals₁ (v' ∷ vs') keep ne h = absurd h
  NamedAs-keep n (f ∷ fs) vals vals₁ [] keep ne h = absurd h

  module _ (rec_d : TypeId → Parser (Value TypeId)) (rec_e : Encoder T)
      (writes : (id : TypeId) (v : Value T) (v' : Value TypeId)
        → R id v v'
        → Reencodes (rec_d id) v' (rec_e id v)) where
    pub EachAs-Reencodes :
        (tys : List TypeId) (vs : List (Value T)) (vs' : List (Value TypeId))
        → EachAs R tys vs vs'
        → Reencodes (decode_types rec_d tys) vs' (encode_types rec_e tys vs)
    unfolding decode_types encode_types
    EachAs-Reencodes [] [] [] h = ([], refl, λ more. refl)
    EachAs-Reencodes (ty ∷ tys) (v ∷ vs) (v' ∷ vs') (r, h) =
        Reencodes-paired (rec_d ty) (decode_types rec_d tys) (λ v vs. v ∷ vs) (writes ty v v' r)
          (EachAs-Reencodes tys vs vs' h)
    EachAs-Reencodes [] [] (v' ∷ vs') h = absurd h
    EachAs-Reencodes [] (v ∷ vs) vs' h = absurd h
    EachAs-Reencodes (ty ∷ tys) [] vs' h = absurd h
    EachAs-Reencodes (ty ∷ tys) (v ∷ vs) [] h = absurd h

    pub AllAs-Reencodes :
        (ty : TypeId) (vs : List (Value T)) (vs' : List (Value TypeId))
        → AllAs R ty vs vs'
        → Reencodes (decode_count rec_d (length vs') ty) vs' (encode_values rec_e ty vs)
    unfolding decode_count encode_values
    AllAs-Reencodes ty [] [] h = ([], refl, λ more. refl)
    AllAs-Reencodes ty (v ∷ vs) (v' ∷ vs') (r, h) =
        Reencodes-paired (rec_d ty) (decode_count rec_d (length vs') ty) (λ v vs. v ∷ vs)
          (writes ty v v' r) (AllAs-Reencodes ty vs vs' h)
    AllAs-Reencodes ty [] (v' ∷ vs') h = absurd h
    AllAs-Reencodes ty (v ∷ vs) [] h = absurd h

    -- The labels that the decoder gives to fields without names.
    abbrev unlabelled : List (Value TypeId) → List (String × Value TypeId)
    unlabelled [] = []
    unlabelled (v ∷ vs) = ("", v) ∷ unlabelled vs

    UnnamedAs-Reencodes :
        (fs : List Field) (vs : List (Value T)) (vs' : List (Value TypeId))
        → UnnamedAs R fs vs vs'
        → Reencodes (decode_each rec_d fs) (unlabelled vs') (encode_unnamed rec_e fs vs)
    unfolding decode_each encode_unnamed
    UnnamedAs-Reencodes [] [] [] h = ([], refl, λ more. refl)
    UnnamedAs-Reencodes (f ∷ fs) (v ∷ vs) (v' ∷ vs') (e, r, h) = rw e (
        Reencodes-paired (rec_d f.ty) (decode_each rec_d fs) (λ v vs. ("", v) ∷ vs)
          (writes f.ty v v' r) (UnnamedAs-Reencodes fs vs vs' h))
    UnnamedAs-Reencodes [] [] (v' ∷ vs') h = absurd h
    UnnamedAs-Reencodes [] (v ∷ vs) vs' h = absurd h
    UnnamedAs-Reencodes (f ∷ fs) [] vs' h = absurd h
    UnnamedAs-Reencodes (f ∷ fs) (v ∷ vs) [] h = absurd h

    NamedAs-Reencodes :
        (id : TypeId) (fs : List Field) (vals : List (String × Value T))
        (vs' : List (String × Value TypeId))
        → AllNamed fs
        → NodupNames vals
        → NamedAs R fs vals vs'
        → Reencodes (decode_each rec_d fs) vs' (encode_named rec_e id fs vals)
    unfolding decode_each encode_named
    NamedAs-Reencodes id [] vals [] u d h = ([], refl, λ more. refl)
    NamedAs-Reencodes id (f ∷ fs) vals ((n, v') ∷ vs') ((m, is_m, others), u) d
          ((is_n, v, found, r), h) =
        let same : ◌≡◌ {A = String} m n = cc in
        let (vals₁, taken, d₁, keep) = take_named_lem n v vals d found in
        rw (is_n, taken)
          (Reencodes-paired (rec_d f.ty) (decode_each rec_d fs) (λ v vs. (n, v) ∷ vs)
            (writes f.ty v v' r)
            (NamedAs-Reencodes id fs vals₁ vs' u d₁ (
              NamedAs-keep n fs vals vals₁ vs' keep
                (subst (λ k. All (λ g. g.name ≢ some k) fs) same others) h)))
    NamedAs-Reencodes id [] vals (v' ∷ vs') u d h = absurd h
    NamedAs-Reencodes id (f ∷ fs) vals [] u d h = absurd h

    map-unlabelled : (vs : List (Value TypeId)) → map (λ p. p.1) (unlabelled vs) ≡ vs
    map-unlabelled [] = refl
    map-unlabelled (v ∷ vs) = ap (λ l. v ∷ l) (map-unlabelled vs)

    UnnamedAs-AllUnnamed :
        (fs : List Field) (vs : List (Value T)) (vs' : List (Value TypeId))
        → UnnamedAs R fs vs vs'
        → AllUnnamed fs
    UnnamedAs-AllUnnamed [] [] [] h = tt
    UnnamedAs-AllUnnamed (f ∷ fs) (v ∷ vs) (v' ∷ vs') (e, r, h) =
        (e, UnnamedAs-AllUnnamed fs vs vs' h)
    UnnamedAs-AllUnnamed [] [] (v' ∷ vs') h = absurd h
    UnnamedAs-AllUnnamed [] (v ∷ vs) vs' h = absurd h
    UnnamedAs-AllUnnamed (f ∷ fs) [] vs' h = absurd h
    UnnamedAs-AllUnnamed (f ∷ fs) (v ∷ vs) [] h = absurd h

    encode-empty :
        (id : TypeId) (c : Composite T)
        → into_values c ≡ []
        → encode_composite_fields rec_e c [] id ≡ ([], ok tt)
    unfolding encode_composite_fields into_values len is_empty
    encode-empty id (named Value.end) h = refl
    encode-empty id (named (Value.field n v vs)) h = cc
    encode-empty id (unnamed Value.nil) h = refl
    encode-empty id (unnamed (Value.cons v vs)) h = cc

    by_name-Reencodes :
        (id : TypeId) (f : Field) (fs : List Field) (vals : List (String × Value T))
        (vs' : List (String × Value TypeId))
        → length vals ≡ length (f ∷ fs)
        → AllNamed (f ∷ fs)
        → NodupNames vals
        → NamedAs R (f ∷ fs) vals vs'
        → Reencodes
            (decode_fields rec_d (f ∷ fs))
            (named (from_pairs vs'))
            (encode_composite_fields rec_e (named (from_pairs vals)) (f ∷ fs) id)
    unfolding decode_fields
    by_name-Reencodes id f fs [] vs' l u d h = absurd (omega (arith, l))
    by_name-Reencodes id f fs (p ∷ vals) [] l u d h = absurd h
    by_name-Reencodes id f fs (p ∷ vals) (v' ∷ vs') l u d h =
        let is_n : f.name ≡ some u.0.0 = u.0.1 in
        rw (encode-named_cons rec_e id f fs u.0.0 p vals is_n l, ← gathered_named f fs v' vs' is_n)
          (Reencodes-mapped (decode_each rec_d (f ∷ fs)) (gathered (f ∷ fs))
            (NamedAs-Reencodes id (f ∷ fs) (p ∷ vals) (v' ∷ vs') u d h))

    in_order-Reencodes :
        (id : TypeId) (f : Field) (fs : List Field) (vs : List (Value T))
        (vs' : List (Value TypeId))
        → UnnamedAs R (f ∷ fs) vs vs'
        → Reencodes
            (decode_fields rec_d (f ∷ fs))
            (unnamed (from_list vs'))
            (encode_composite_fields rec_e (unnamed (from_list vs)) (f ∷ fs) id)
    unfolding decode_fields
    in_order-Reencodes id f fs [] vs' h = absurd h
    in_order-Reencodes id f fs (v ∷ vs) vs' h =
        let u = UnnamedAs-AllUnnamed (f ∷ fs) (v ∷ vs) vs' h in
        let l = length-UnnamedAs (f ∷ fs) (v ∷ vs) vs' h in
        let e : gathered (f ∷ fs) (unlabelled vs') ≡ unnamed (from_list vs') =
          gathered_unnamed (f ∷ fs) (unlabelled vs') u
          ∙ ap (λ l. unnamed (from_list l)) (map-unlabelled vs') in
        rw (encode-unnamed_cons rec_e id f fs v vs u.0 l, ← e)
          (Reencodes-mapped (decode_each rec_d (f ∷ fs)) (gathered (f ∷ fs))
            (UnnamedAs-Reencodes (f ∷ fs) (v ∷ vs) vs' h))

    pub FieldsAs-Reencodes :
        (id : TypeId) {fs : List Field} {c : Composite T} {c' : Composite TypeId}
        → FieldsAs R fs c c'
        → Reencodes (decode_fields rec_d fs) c' (encode_composite_fields rec_e c fs id)
    FieldsAs-Reencodes id (no_fields {c = c} h) =
        ([], encode-empty id c h, unfold decode_fields in λ more. refl)
    FieldsAs-Reencodes id (by_name {f = f} {fs = fs} vals vs' e e' l u d h) =
        rw (e, e') (by_name-Reencodes id f fs vals vs' l u d h)
    FieldsAs-Reencodes id (in_order {f = f} {fs = fs} vs vs' e e' h) =
        rw (e, e') (in_order-Reencodes id f fs vs vs' h)

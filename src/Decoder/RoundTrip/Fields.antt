-- ===== src/Decoder/RoundTrip/Fields.antt =====
-- The round trip through vectors of values and through the fields of composites and variants.
use substrate_api_client.Prelude.{ℕ, zero, suc, ◌≡◌, refl, ap, ◌∙◌, ◌≢◌, String, none, some}
use substrate_api_client.Prelude.{List, [], ◌∷◌, map, arith, Bytes, ok, length, All}
use substrate_api_client.Decoder.Registry.{TypeId, Field}
use substrate_api_client.Decoder.Value.{Value}
use substrate_api_client.Decoder.Decode.{Parser, decode_each, decode_count, decode_types}
use substrate_api_client.Decoder.Encode.{
  Encoder, encode_types, encode_values, encode_unnamed, encode_named,
}
use substrate_api_client.Decoder.RoundTrip.Pieces.{
  Faithful, Reencodes, Reencodes-paired, paired-eq-ok,
}
use substrate_api_client.Decoder.RoundTrip.Lookup.{
  IsFresh, NodupNames, Covers, take_named_lem, Covers-keep,
}
use mathlib.Core.Option.{get_or}
use mathlib.Core.Path.{subst}

-- All fields have names, and no two the same.
abbrev pub AllNamed : List Field → Type 0
AllNamed [] = Unit
AllNamed (f ∷ fs) = ((n : String) × (f.name ≡ some n) × All (λ g. g.name ≢ some n) fs) × AllNamed fs

abbrev pub AllUnnamed : List Field → Type 0
AllUnnamed = All (λ f. f.name ≡ none)

module _ (rec_d : TypeId → Parser (Value TypeId)) where
  abbrev pub label : Field → Value TypeId → String × Value TypeId
  label f v = (get_or f.name "", v)

  -- Names that the fields lack are not among the labels that are read.
  pub each-IsFresh :
      (n : String) (fs : List Field) (bytes : Bytes) (vs : List (String × Value TypeId))
      (rest : Bytes)
      → AllNamed fs
      → All (λ g. g.name ≢ some n) fs
      → decode_each rec_d fs bytes ≡ ok (vs, rest)
      → IsFresh n vs
  unfolding decode_each
  each-IsFresh n [] bytes vs rest _ _ h = let e : vs ≡ [] = ground (arith, h) in rw e tt
  each-IsFresh n (f ∷ fs) bytes vs rest ((m, is_m, _), u) (ne, nes) h =
      let (v, vs', mid, p, q, e) =
        paired-eq-ok (rec_d f.ty) (decode_each rec_d fs) (λ v vs. label f v ∷ vs) bytes h in
      rw e ((λ same. ne (is_m ∙ ap some (fix is_m ∙ same))), each-IsFresh n fs mid vs' rest u nes q)
    where
      fix : f.name ≡ some m → m ≡ get_or f.name ""
      fix r = rw r

  pub each-NodupNames :
      (fs : List Field) (bytes : Bytes) (vs : List (String × Value TypeId)) (rest : Bytes)
      → AllNamed fs
      → decode_each rec_d fs bytes ≡ ok (vs, rest)
      → NodupNames vs
  unfolding decode_each
  each-NodupNames [] bytes vs rest _ h = let e : vs ≡ [] = ground (arith, h) in rw e tt
  each-NodupNames (f ∷ fs) bytes vs rest ((m, is_m, others), u) h =
      let (v, vs', mid, p, q, e) =
        paired-eq-ok (rec_d f.ty) (decode_each rec_d fs) (λ v vs. label f v ∷ vs) bytes h in
      rw (e, is_m) (each-IsFresh m fs mid vs' rest u others q, each-NodupNames fs mid vs' rest u q)

  pub length-each :
      (fs : List Field) (bytes : Bytes) (vs : List (String × Value TypeId)) (rest : Bytes)
      → decode_each rec_d fs bytes ≡ ok (vs, rest)
      → length vs ≡ length fs
  unfolding decode_each
  length-each [] bytes vs rest h = let e : vs ≡ [] = ground (arith, h) in rw e
  length-each (f ∷ fs) bytes vs rest h =
      let (v, vs', mid, p, q, e) =
        paired-eq-ok (rec_d f.ty) (decode_each rec_d fs) (λ v vs. label f v ∷ vs) bytes h in
      rw (e, length-each fs mid vs' rest q)

module _ (rec_d : TypeId → Parser (Value TypeId)) (rec_e : Encoder TypeId)
    (faithful : (id : TypeId) → Faithful (rec_d id) (rec_e id)) where
  pub Faithful-types :
      (tys : List TypeId) → Faithful (decode_types rec_d tys) (encode_types rec_e tys)
  unfolding decode_types encode_types
  Faithful-types [] bytes vs rest h = ([], refl, λ more. cc)
  Faithful-types (ty ∷ tys) bytes vs rest h =
      let (v, vs', mid, p, q, e) =
        paired-eq-ok (rec_d ty) (decode_types rec_d tys) (λ v vs. v ∷ vs) bytes h in
      rw e (
        Reencodes-paired (rec_d ty) (decode_types rec_d tys) (λ v vs. v ∷ vs)
          (faithful ty bytes v mid p) (Faithful-types tys mid vs' rest q))

  pub Faithful-count :
      (n : ℕ) (ty : TypeId) → Faithful (decode_count rec_d n ty) (encode_values rec_e ty)
  unfolding decode_count encode_values
  Faithful-count zero ty bytes vs rest h =
      let e : vs ≡ [] = ground (arith, h) in rw e ([], refl, λ more. refl)
  Faithful-count (suc n) ty bytes vs rest h =
      let (v, vs', mid, p, q, e) =
        paired-eq-ok (rec_d ty) (decode_count rec_d n ty) (λ v vs. v ∷ vs) bytes h in
      rw e (
        Reencodes-paired (rec_d ty) (decode_count rec_d n ty) (λ v vs. v ∷ vs)
          (faithful ty bytes v mid p) (Faithful-count n ty mid vs' rest q))

  pub Reencodes-unnamed :
      (fs : List Field) (bytes : Bytes) (vs : List (String × Value TypeId)) (rest : Bytes)
      → decode_each rec_d fs bytes ≡ ok (vs, rest)
      → Reencodes (decode_each rec_d fs) vs (encode_unnamed rec_e fs (map (λ p. p.1) vs))
  unfolding decode_each encode_unnamed
  Reencodes-unnamed [] bytes vs rest h = ([], refl, λ more. cc)
  Reencodes-unnamed (f ∷ fs) bytes vs rest h =
      let (v, vs', mid, p, q, e) =
        paired-eq-ok (rec_d f.ty) (decode_each rec_d fs) (λ v vs. label rec_d f v ∷ vs) bytes h in
      rw e (
        Reencodes-paired (rec_d f.ty) (decode_each rec_d fs) (λ v vs. label rec_d f v ∷ vs)
          (faithful f.ty bytes v mid p) (Reencodes-unnamed fs mid vs' rest q))

  -- Values that are found by their names in `vals` are written in the order of the fields.
  pub Reencodes-named :
      (id : TypeId) (fs : List Field) (bytes : Bytes) (vs : List (String × Value TypeId))
      (rest : Bytes) (vals : List (String × Value TypeId))
      → AllNamed fs
      → NodupNames vals
      → Covers vals vs
      → decode_each rec_d fs bytes ≡ ok (vs, rest)
      → Reencodes (decode_each rec_d fs) vs (encode_named rec_e id fs vals)
  unfolding decode_each encode_named
  Reencodes-named id [] bytes vs rest vals _ _ _ h = ([], refl, λ more. cc)
  Reencodes-named id (f ∷ fs) bytes vs rest vals ((m, is_m, others), u) d cov h =
      let (v, vs', mid, p, q, e) =
        paired-eq-ok (rec_d f.ty) (decode_each rec_d fs) (λ v vs. label rec_d f v ∷ vs) bytes h in
      let labelled : get_or f.name "" ≡ m = rw is_m in
      let (found, cov') = subst (Covers vals) e cov in
      let (vals', taken, d', keep) = take_named_lem m v vals d (rw labelled at found) in
      let fresh = each-IsFresh rec_d m fs mid vs' rest u others q in
      rw (e, is_m, taken)
        (Reencodes-paired (rec_d f.ty) (decode_each rec_d fs) (λ v vs. (m, v) ∷ vs)
          (faithful f.ty bytes v mid p)
          (Reencodes-named id fs mid vs' rest vals' u d'
            (Covers-keep m vals vals' vs' keep fresh cov') q))

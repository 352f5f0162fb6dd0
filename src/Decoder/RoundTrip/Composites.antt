-- ===== src/Decoder/RoundTrip/Composites.antt =====
-- The round trip through the fields of a composite or a variant, and through its variants.
use substrate_api_client.Prelude.{
  ℕ, suc, ◌≡◌, refl, ap, ◌∙◌, ◌≢◌, ◌⊎◌, inl, inr, String, Bool, true, false, none, some,
}
use substrate_api_client.Prelude.{
  List, [], ◌∷◌, ◌++◌, map, arith, Bytes, ok, ok_or, length, All, eq_iff, any, find, str_eq, ◌==◌,
  if◌then◌else◌, Bool-cases,
}
use substrate_api_client.Prelude.{>>=-eq-ok, ok_or-eq-ok, ==_refl, ==_iff}
use text.Mathlib.TextPositions.{eq_refl}
use substrate_api_client.Codec.{Codec, IsLawful, w8, IsUint}
use substrate_api_client.Decoder.Registry.{TypeId, Field, VariantType}
use substrate_api_client.Decoder.Value
use substrate_api_client.Decoder.Value.{
  Value, Composite, named, unnamed, value, from_list, from_pairs, to_list, to_pairs,
  to_list-from_list, to_pairs-from_pairs, len, is_empty,
}
use substrate_api_client.Decoder.Decode.{
  Parser, decode_each, decode_fields, decode_variant_value, is_some,
}
use substrate_api_client.Decoder.Encode.{
  Encoder, written, followed, encode_composite_fields, encode_matched, encode_named, encode_unnamed,
  encode_variant_value,
}
use substrate_api_client.Decoder.RoundTrip.Pieces.{
  Faithful, Reencodes, mapped-eq-ok, Reencodes-mapped,
}
use substrate_api_client.Decoder.RoundTrip.Lookup.{Covers-self}
use substrate_api_client.Decoder.RoundTrip.Fields.{
  AllNamed, AllUnnamed, Reencodes-named, Reencodes-unnamed, each-NodupNames, length-each,
}

abbrev pub RegularFields : List Field → Type 0
RegularFields fs = AllNamed fs ⊎ AllUnnamed fs

any_unnamed : (fs : List Field) → AllUnnamed fs → any (λ f. is_some f.name) fs ≡ false
any_unnamed [] u = refl
any_unnamed (f ∷ fs) (h, u) = rw h (any_unnamed fs u)

-- The vector that the decoder makes of its labelled values.
abbrev pub gathered : List Field → List (String × Value TypeId) → Composite TypeId
gathered fs vs =
    if any (λ f. is_some f.name) fs
    then named (from_pairs vs)
    else unnamed (from_list (map (λ p. p.1) vs))

pub gathered_named :
    (f : Field) (fs : List Field) (v : String × Value TypeId) (vs : List (String × Value TypeId))
    {n : String}
    → f.name ≡ some n
    → gathered (f ∷ fs) (v ∷ vs) ≡ named (from_pairs (v ∷ vs))
gathered_named f fs v vs h = rw h

pub gathered_unnamed :
    (fs : List Field) (vs : List (String × Value TypeId))
    → AllUnnamed fs
    → gathered fs vs ≡ unnamed (from_list (map (λ p. p.1) vs))
gathered_unnamed fs vs u = rw (any_unnamed fs u)

length-values : (vs : List (String × Value TypeId)) → length (map (λ p. p.1) vs) ≡ length vs
length-values [] = refl
length-values (v ∷ vs) = ap suc (length-values vs)

module _ {T : Type 0} (rec_e : Encoder T) (id : TypeId) where
  encode_checked :
      (f : Field) (fs : List Field) (c : Composite T)
      → len c ≡ length (f ∷ fs)
      → is_empty c ≡ false
      → encode_composite_fields rec_e c (f ∷ fs) id
        ≡ encode_matched rec_e id (f ∷ fs) c (is_some f.name)
  unfolding encode_composite_fields
  encode_checked f fs c l e = rw (l, ==_refl (suc (length fs)), e)

  pub encode-named_cons :
      (f : Field) (fs : List Field) (n : String) (p : String × Value T)
      (vs : List (String × Value T))
      → f.name ≡ some n
      → length (p ∷ vs) ≡ length (f ∷ fs)
      → encode_composite_fields rec_e (named (from_pairs (p ∷ vs))) (f ∷ fs) id
        ≡ encode_named rec_e id (f ∷ fs) (p ∷ vs)
  unfolding encode_matched len is_empty
  encode-named_cons f fs n p vs h l =
      encode_checked f fs (named (from_pairs (p ∷ vs))) (rw (to_pairs-from_pairs vs) l) refl
      ∙ ap (encode_matched rec_e id (f ∷ fs) (named (from_pairs (p ∷ vs)))) (ap is_some h)
      ∙ ap (encode_named rec_e id (f ∷ fs)) (to_pairs-from_pairs (p ∷ vs))

  pub encode-unnamed_cons :
      (f : Field) (fs : List Field) (v : Value T) (vs : List (Value T))
      → f.name ≡ none
      → length (v ∷ vs) ≡ length (f ∷ fs)
      → encode_composite_fields rec_e (unnamed (from_list (v ∷ vs))) (f ∷ fs) id
        ≡ encode_unnamed rec_e (f ∷ fs) (v ∷ vs)
  unfolding encode_matched len is_empty
  encode-unnamed_cons f fs v vs h l =
      encode_checked f fs (unnamed (from_list (v ∷ vs))) (rw (to_list-from_list vs) l) refl
      ∙ ap (encode_matched rec_e id (f ∷ fs) (unnamed (from_list (v ∷ vs)))) (ap is_some h)
      ∙ ap (encode_unnamed rec_e (f ∷ fs)) (to_list-from_list (v ∷ vs))

module _ (rec_d : TypeId → Parser (Value TypeId)) (rec_e : Encoder TypeId)
    (faithful : (id : TypeId) → Faithful (rec_d id) (rec_e id)) where
  gathered-Reencodes :
      (fs : List Field) (id : TypeId) (bytes : Bytes) (vs : List (String × Value TypeId))
      (rest : Bytes)
      → RegularFields fs
      → decode_each rec_d fs bytes ≡ ok (vs, rest)
      → Reencodes (decode_each rec_d fs) vs (encode_composite_fields rec_e (gathered fs vs) fs id)
  gathered-Reencodes [] id bytes [] rest r h =
      ([], unfold encode_composite_fields in refl, λ more. unfold decode_each in refl)
  gathered-Reencodes [] id bytes (v ∷ vs) rest r h =
      absurd (omega (arith, length-each rec_d [] bytes (v ∷ vs) rest h))
  gathered-Reencodes (f ∷ fs) id bytes [] rest r h =
      absurd (omega (arith, length-each rec_d (f ∷ fs) bytes [] rest h))
  gathered-Reencodes (f ∷ fs) id bytes (v ∷ vs) rest (inl u) h =
      let l = length-each rec_d (f ∷ fs) bytes (v ∷ vs) rest h in
      let d = each-NodupNames rec_d (f ∷ fs) bytes (v ∷ vs) rest u h in
      let is_n : f.name ≡ some u.0.0 = u.0.1 in
      let e : gathered (f ∷ fs) (v ∷ vs) ≡ named (from_pairs (v ∷ vs)) =
        gathered_named f fs v vs is_n in
      rw (e, encode-named_cons rec_e id f fs u.0.0 v vs is_n l)
        (Reencodes-named rec_d rec_e faithful id (f ∷ fs) bytes (v ∷ vs) rest (v ∷ vs) u d
          (Covers-self (v ∷ vs) d) h)
  gathered-Reencodes (f ∷ fs) id bytes (v ∷ vs) rest (inr u) h =
      let l = length-each rec_d (f ∷ fs) bytes (v ∷ vs) rest h in
      let l' : length (map (λ p. p.1) (v ∷ vs)) ≡ length (f ∷ fs) = length-values (v ∷ vs) ∙ l in
      let e : gathered (f ∷ fs) (v ∷ vs) ≡ unnamed (from_list (map (λ p. p.1) (v ∷ vs))) =
        gathered_unnamed (f ∷ fs) (v ∷ vs) u in
      rw (e, encode-unnamed_cons rec_e id f fs v.1 (map (λ p. p.1) vs) u.0 l')
        (Reencodes-unnamed rec_d rec_e faithful (f ∷ fs) bytes (v ∷ vs) rest h)

  pub Faithful-fields :
      (fs : List Field) (id : TypeId)
      → RegularFields fs
      → Faithful (decode_fields rec_d fs) (λ v. encode_composite_fields rec_e v fs id)
  unfolding decode_fields
  Faithful-fields fs id r bytes v rest h =
      let (vs, p, e) = mapped-eq-ok (decode_each rec_d fs) (gathered fs) bytes h in
      rw e (
        Reencodes-mapped (decode_each rec_d fs) (gathered fs)
          (gathered-Reencodes fs id bytes vs rest r p))

-- No two variants have one name.
abbrev pub DistinctVariants : List VariantType → Type 0
DistinctVariants [] = Unit
DistinctVariants (v ∷ vs) = All (λ u. v.name ≢ u.name) vs × DistinctVariants vs

abbrev pub RegularVariants : List VariantType → Type 0
RegularVariants vs = DistinctVariants vs × All (λ v. IsUint w8 v.index × RegularFields v.fields) vs

pub find_sound :
    {A : Type 0} (p : A → Bool) (P : A → Type 0) (l : List A) (a : A)
    → find p l ≡ some a
    → All P l
    → P a × (p a ≡ true)
find_sound p P [] a h al = cc
find_sound p P (x ∷ l) a h (px, al) = elim (Bool-cases (p x)) [
  | inl yes_p ↦ let e : x ≡ a = ground (arith, h, yes_p) in rw (← e) (px, yes_p)
  | inr no_p ↦ find_sound p P l a (ground (arith, h, no_p)) al
]

-- A variant that is the first with its index is the first with its name.
pub find_by_name :
    (i : ℕ) (vs : List VariantType) (v : VariantType)
    → find (λ x. x.index == i) vs ≡ some v
    → DistinctVariants vs
    → find (λ x. str_eq x.name v.name) vs ≡ some v
find_by_name i [] v h d = cc
find_by_name i (x ∷ vs) v h (f, d) = elim (Bool-cases (x.index == i)) [
  | inl same ↦ let e : x ≡ v = ground (arith, h, same) in rw (← e) (rw (eq_refl x.name))
  | inr differ ↦
      let rest : find (λ x. x.index == i) vs ≡ some v = ground (arith, h, differ) in
      let ne : x.name ≢ v.name = (find_sound _ (λ u. x.name ≢ u.name) vs v rest f).0 in
      ground (arith, eq_iff x.name v.name, ne, find_by_name i vs v rest d)
]

module _ (rec_d : TypeId → Parser (Value TypeId)) where
  pub decode_variant_inv :
      (vs : List VariantType) (i : ℕ) (bytes : Bytes) (name : String) (values : Composite TypeId)
      (rest : Bytes)
      → decode_variant_value rec_d vs (i ∷ bytes) ≡ ok ((name, values), rest)
      → (v : VariantType) × (find (λ x. x.index == i) vs ≡ some v)
        × (decode_fields rec_d v.fields bytes ≡ ok (values, rest))
        × (name ≡ v.name)
  unfolding decode_variant_value
  decode_variant_inv vs i bytes name values rest h =
      let (v, p, q) = >>=-eq-ok (ok_or _ (find (λ x. x.index == i) vs)) _ h in
      let (fields, r, e) =
        mapped-eq-ok (decode_fields rec_d v.fields) (λ fs. (v.name, fs)) bytes q in
      (v, ok_or-eq-ok _ (find (λ x. x.index == i) vs) p, ground (arith, r, e), ground (arith, e))

module _ (c : Codec) (lawful : IsLawful c) (rec_d : TypeId → Parser (Value TypeId))
    (rec_e : Encoder TypeId) (rec₀ : Encoder (Unit {0}))
    (faithful : (id : TypeId) → Faithful (rec_d id) (rec_e id)) where
  encode_variant_found :
      (vs : List VariantType) (id t : TypeId) (v : VariantType) (values : Composite TypeId)
      → find (λ x. str_eq x.name v.name) vs ≡ some v
      → encode_variant_value c rec_e rec₀ (value (Value.variant v.name values) t) id vs
        ≡ followed
            (written (c.encode_uint w8 v.index))
            (encode_composite_fields rec_e values v.fields id)
  unfolding encode_variant_value
  encode_variant_found vs id t v values h = rw (h, encode_variant_value)

  decode_variant_found :
      (vs : List VariantType) (i : ℕ) (v : VariantType) (values : Composite TypeId) (w more : Bytes)
      → find (λ x. x.index == i) vs ≡ some v
      → decode_fields rec_d v.fields (w ++ more) ≡ ok (values, more)
      → decode_variant_value rec_d vs (i ∷ (w ++ more)) ≡ ok ((v.name, values), more)
  unfolding decode_variant_value
  decode_variant_found vs i v values w more h q = rw (h, q)

  pub Reencodes-variant :
      (vs : List VariantType) (id t : TypeId) (bytes : Bytes) (name : String)
      (values : Composite TypeId) (rest : Bytes)
      → RegularVariants vs
      → decode_variant_value rec_d vs bytes ≡ ok ((name, values), rest)
      → Reencodes
          (decode_variant_value rec_d vs)
          (name, values)
          (encode_variant_value c rec_e rec₀ (value (Value.variant name values) t) id vs)
  Reencodes-variant vs id t [] name values rest r h = unfold decode_variant_value in cc
  Reencodes-variant vs id t (i ∷ bytes) name values rest (d, r) h =
      let (v, found, body, named_v) = decode_variant_inv rec_d vs i bytes name values rest h in
      let ((small, regular), index_v) = find_sound (λ x. x.index == i) _ vs v found r in
      let (w, p, q) =
        Faithful-fields rec_d rec_e faithful v.fields id regular bytes values rest body in
      let is_i : v.index ≡ i = (==_iff v.index i).0 index_v in
      rw named_v (
        i ∷ w,
        encode_variant_found vs id t v values (find_by_name i vs v found d)
            ∙ rw (p, lawful.u8 v.index small, is_i),
        λ more. decode_variant_found vs i v values w more found (q more),
      )

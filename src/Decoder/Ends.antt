-- ===== src/Decoder/Ends.antt =====
-- node-api/src/decoder/decode.rs: decoding ends, where the types of the registry are not cyclic.
use substrate_api_client.Prelude.{
  ℕ, zero, suc, ◌<◌, ◌≡◌, refl, Bool, Bool-cases, inl, inr, Option, none, some, List, [], ◌∷◌, All,
  find,
}
use substrate_api_client.Prelude.{
  Bytes, Result, ok, err, panic, out_of_fuel, ◌>>=◌, map_err, ok_or, ◌==◌,
}
use substrate_api_client.Codec.{Codec, Width}
use substrate_api_client.Decoder.BitSequence.{
  BitStoreTy, BitOrderTy, get_bitsequence_details, bit_order_out, bit_store_out,
}
use substrate_api_client.Decoder.Registry.{
  TypeId, TypeDef, Field, VariantType, ScaleType, PortableRegistry, composite, variant, sequence,
  array, tuple, primitive, compact, bit_sequence,
}
use substrate_api_client.Decoder.Value.{Value}
use substrate_api_client.Decoder.Decode.{
  DecodeError, Parser, mapped, decode_each, decode_fields, decode_variant_value, decode_count,
  decode_types,
}

-- A value or an error of the program.
unfoldable pub Returns : {E A : Type 0} → Result E A → Type 0
Returns (ok a) = Unit
Returns (err e) = Unit
Returns panic = ⊥
Returns out_of_fuel = ⊥

pub returned : (E A : Type 0) (a : A) → Returns {E = E} (ok a)
unfolding Returns
returned E A a = tt

pub failed : (E A : Type 0) (e : E) → Returns {A = A} (err e)
unfolding Returns
failed E A e = tt

module _ {E A : Type 0} where
  pub >>=-Returns :
      {B : Type 0} (m : Result E A) (f : A → Result E B)
      → Returns m
      → ((a : A) → Returns (f a))
      → Returns (m >>= f)
  unfolding Returns
  >>=-Returns (ok a) f r k = k a
  >>=-Returns (err e) f r k = tt
  >>=-Returns panic f r k = r
  >>=-Returns out_of_fuel f r k = r

  pub map_err-Returns :
      {F : Type 0} (g : E → F) (m : Result E A) → Returns m → Returns (map_err g m)
  unfolding Returns
  map_err-Returns g (ok a) r = tt
  map_err-Returns g (err e) r = tt
  map_err-Returns g panic r = r
  map_err-Returns g out_of_fuel r = r

  pub ok_or-Returns : (e : E) (o : Option A) → Returns (ok_or e o)
  unfolding Returns
  ok_or-Returns e none = tt
  ok_or-Returns e (some a) = tt

  -- A lookup, and what is done with what it finds.
  pub found-Returns :
      {B : Type 0} (e : E) (o : Option A) (f : A → Result E B)
      → ((a : A) → o ≡ some a → Returns (f a))
      → Returns (ok_or e o >>= f)
  unfolding Returns
  found-Returns e none f k = tt
  found-Returns e (some a) f k = k a refl

pub mapped-Returns :
    {A B : Type 0} (f : A → B) (m : Result DecodeError (A × Bytes))
    → Returns m
    → Returns (mapped f m)
mapped-Returns f m r = >>=-Returns m _ r (λ p. returned _ _ _)

pub find-All :
    {A : Type 0} (P : A → Type 0) (p : A → Bool) (xs : List A) {x : A}
    → All P xs
    → find p xs ≡ some x
    → P x
find-All P p [] a h = cc
find-All P p (y ∷ xs) {x} (q, a) h = elim (Bool-cases (p y)) [
  | inl e ↦ let f : some y ≡ some x = rw (e, find) at h in let g : y ≡ x = cc in rw (← g) q
  | inr e ↦ find-All P p xs a (rw (e, find) at h)
]

pub get_bitsequence_details-Returns :
    (types : PortableRegistry) (s o : TypeId) → Returns (get_bitsequence_details s o types)
unfolding get_bitsequence_details
get_bitsequence_details-Returns types s o = found-Returns _ (types.resolve s) _ (λ a d.
    found-Returns _ (types.resolve o) _ (λ b e. found-Returns _ b.ident _ (λ i f.
      found-Returns _ (bit_order_out a.type_def) _
        (λ x g. found-Returns _ (bit_store_out i) _ (λ y h. returned _ _ _)))))

-- The codec's decoders return a value or an error.
pub record IsReturning (c : Codec) : Type 0 where
  pub uint : (w : Width) (b : Bytes) → Returns (c.decode_uint w b)
  pub int : (w : Width) (b : Bytes) → Returns (c.decode_int w b)
  pub compact : (w : Width) (b : Bytes) → Returns (c.decode_compact w b)
  pub bool : (b : Bytes) → Returns (c.decode_bool b)
  pub str : (b : Bytes) → Returns (c.decode_str b)
  pub array32 : (b : Bytes) → Returns (c.decode_array32 b)
  pub bit_vec : (o : BitOrderTy) (s : BitStoreTy) (b : Bytes) → Returns (c.decode_bits o s b)

module _ (rank : TypeId → ℕ) where
  -- The types that a definition refers to have ranks below `n`.
  abbrev pub RefersBelow : ℕ → TypeDef → Type 0
  RefersBelow n (composite fields) = All (λ f. rank f.ty < n) fields
  RefersBelow n (variant vs) = All (λ v. All (λ f. rank f.ty < n) v.fields) vs
  RefersBelow n (sequence t) = rank t < n
  RefersBelow n (array len t) = rank t < n
  RefersBelow n (tuple ts) = All (λ t. rank t < n) ts
  RefersBelow n (primitive p) = Unit
  RefersBelow n (compact t) = rank t < n
  RefersBelow n (bit_sequence store order) = Unit

  -- Every type refers to types of lower rank only.
  pub record IsRanked (types : PortableRegistry) : Type 0 where
    pub refers_below :
        (id : TypeId) (ty : ScaleType)
        → types.resolve id ≡ some ty
        → RefersBelow (rank id) ty.type_def

  module _ (rec : TypeId → Parser (Value TypeId)) (n : ℕ)
      (k : (id : TypeId) → rank id < n → (b : Bytes) → Returns (rec id b)) where
    decode_each-Returns :
        (fs : List Field)
        → All (λ f. rank f.ty < n) fs
        → (b : Bytes) → Returns (decode_each rec fs b)
    unfolding decode_each
    decode_each-Returns [] a b = returned _ _ _
    decode_each-Returns (f ∷ fs) (l, a) b =
        >>=-Returns _ _ (k f.ty l b)
          (λ p. >>=-Returns _ _ (decode_each-Returns fs a p.1) (λ q. returned _ _ _))

    pub decode_fields-Returns :
        (fs : List Field)
        → All (λ f. rank f.ty < n) fs
        → (b : Bytes) → Returns (decode_fields rec fs b)
    unfolding decode_fields
    decode_fields-Returns fs a b =
        >>=-Returns _ _ (decode_each-Returns fs a b) (λ p. returned _ _ _)

    pub decode_variant_value-Returns :
        (vs : List VariantType)
        → All (λ v. All (λ f. rank f.ty < n) v.fields) vs
        → (b : Bytes) → Returns (decode_variant_value rec vs b)
    unfolding decode_variant_value
    decode_variant_value-Returns vs a [] = failed _ _ _
    decode_variant_value-Returns vs a (i ∷ b) =
        found-Returns _ (find (λ (v : VariantType). v.index == i) vs) _ (λ v e.
          >>=-Returns _ _
            (decode_fields-Returns v.fields
              (find-All (λ (v : VariantType). All (λ f. rank f.ty < n) v.fields) _ vs a e) b)
            (λ p. returned _ _ _))

    pub decode_count-Returns :
        (len : ℕ) (t : TypeId) → rank t < n → (b : Bytes) → Returns (decode_count rec len t b)
    unfolding decode_count
    decode_count-Returns zero t l b = returned _ _ _
    decode_count-Returns (suc len) t l b =
        >>=-Returns _ _ (k t l b)
          (λ p. >>=-Returns _ _ (decode_count-Returns len t l p.1) (λ q. returned _ _ _))

    pub decode_types-Returns :
        (ts : List TypeId)
        → All (λ t. rank t < n) ts
        → (b : Bytes) → Returns (decode_types rec ts b)
    unfolding decode_types
    decode_types-Returns [] a b = returned _ _ _
    decode_types-Returns (t ∷ ts) (l, a) b =
        >>=-Returns _ _ (k t l b)
          (λ p. >>=-Returns _ _ (decode_types-Returns ts a p.1) (λ q. returned _ _ _))

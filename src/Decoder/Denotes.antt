-- ===== src/Decoder/Denotes.antt =====
-- What a value given to node-api/src/decoder/encode.rs stands for: the value that node-api's decoder
-- has for it, by the type that it is written as. The encoder takes more than the decoder returns:
-- any contexts, named fields in any order, numbers of any kind that fit, and a value in place of a
-- composite around it.
pub mod Primitives
pub mod Scalars
pub mod Fields
pub mod Shapes
pub mod Main
pub mod Decoded
pub mod Itself
use substrate_api_client.Prelude.{
  ℕ, zero, suc, ◌+◌, ◌^◌, ◌<◌, ◌≡◌, ◌≢◌, ◌⊎◌, String, Bool, Option, none, some, List, [], ◌∷◌,
  Bytes, ok, length, find, str_eq, ◌==◌, All,
}
use substrate_api_client.Prelude.Int.{ℤ, pos}
use substrate_api_client.Codec.{Width, w8, w16, w32, w64, w128, IsUint, IsInt}
use substrate_api_client.Decoder.BitSequence.{BitOrderTy, BitStoreTy, get_bitsequence_details}
use substrate_api_client.Decoder.Registry.{
  TypeId, TypeDef, TypeDefPrimitive, Field, VariantType, ScaleType, PortableRegistry, composite,
  variant, sequence, array, tuple, primitive, compact, bit_sequence,
}
use substrate_api_client.Decoder.Value
use substrate_api_client.Decoder.Value.{
  Primitive, Value, ValueDef, Composite, value, named, unnamed, from_list, from_pairs, into_values,
  to_list, def_of, context_of,
}
use substrate_api_client.Decoder.Decode.{compact_width, wrap_field, char_from_u32}
use substrate_api_client.Decoder.RoundTrip.Lookup.{find_named, NodupNames}
use substrate_api_client.Decoder.RoundTrip.Fields.{AllNamed}

-- The number that a primitive value is.
abbrev pub number_of : Primitive → Option ℤ
number_of (Primitive.u128 n) = some (pos n)
number_of (Primitive.i128 z) = some z
number_of (Primitive.char n) = some (pos n)
number_of _ = none

abbrev pub UintAs : Width → Primitive → Primitive → Type 0
UintAs w p p' = (n : ℕ) × (number_of p ≡ some (pos n)) × IsUint w n × (p' ≡ Primitive.u128 n)

abbrev pub IntAs : Width → Primitive → Primitive → Type 0
IntAs w p p' = (z : ℤ) × (number_of p ≡ some z) × IsInt w z × (p' ≡ Primitive.i128 z)

-- A number that fits stands for itself as a number of the type; anything else for itself.
abbrev pub PrimitiveAs : TypeDefPrimitive → Primitive → Primitive → Type 0
PrimitiveAs TypeDefPrimitive.bool p p' = (b : Bool) × (p ≡ Primitive.bool b) × (p' ≡ p)
PrimitiveAs TypeDefPrimitive.char p p' =
    (n : ℕ) × (p ≡ Primitive.char n) × (char_from_u32 n ≡ some n) × (p' ≡ p)
PrimitiveAs TypeDefPrimitive.str p p' = (s : String) × (p ≡ Primitive.string s) × (p' ≡ p)
PrimitiveAs TypeDefPrimitive.u256 p p' =
    (a : Bytes) × (p ≡ Primitive.u256 a) × (length a ≡ 32) × (p' ≡ p)
PrimitiveAs TypeDefPrimitive.i256 p p' =
    (a : Bytes) × (p ≡ Primitive.i256 a) × (length a ≡ 32) × (p' ≡ p)
PrimitiveAs TypeDefPrimitive.u8 p p' = UintAs w8 p p'
PrimitiveAs TypeDefPrimitive.u16 p p' = UintAs w16 p p'
PrimitiveAs TypeDefPrimitive.u32 p p' = UintAs w32 p p'
PrimitiveAs TypeDefPrimitive.u64 p p' = UintAs w64 p p'
PrimitiveAs TypeDefPrimitive.u128 p p' = UintAs w128 p p'
PrimitiveAs TypeDefPrimitive.i8 p p' = IntAs w8 p p'
PrimitiveAs TypeDefPrimitive.i16 p p' = IntAs w16 p p'
PrimitiveAs TypeDefPrimitive.i32 p p' = IntAs w32 p p'
PrimitiveAs TypeDefPrimitive.i64 p p' = IntAs w64 p p'
PrimitiveAs TypeDefPrimitive.i128 p p' = IntAs w128 p p'

abbrev pub IsComposite : {T : Type 0} → ValueDef T → Type 0
IsComposite (Value.composite c) = Unit
IsComposite _ = ⊥

-- A primitive value under composites of one value.
pub data Holds {T : Type 0} (p : Primitive) : Value T → Type 0 where
  bare : {t : T} → Holds p (value (Value.primitive p) t)
  under :
      {v : Value T} {t : T}
      → Holds p v
      → Holds p (value (Value.composite (unnamed (Value.cons v Value.nil))) t)
  under_named :
      {n : String} {v : Value T} {t : T}
      → Holds p v
      → Holds p (value (Value.composite (named (Value.field n v Value.end))) t)

module _ (types : PortableRegistry) where
  -- A number of the width that a compact type has, and what the decoder makes of it: a composite
  -- for every struct of one field around the number's type.
  pub data CompactAs (w : Width) (n : ℕ) : ℕ → TypeId → ValueDef TypeId → Type 0 where
    number :
        {fuel id : ℕ} {ty : ScaleType} {p : TypeDefPrimitive}
        → types.resolve id ≡ some ty
        → ty.type_def ≡ primitive p
        → compact_width p ≡ some w
        → CompactAs w n (suc fuel) id (Value.primitive (Primitive.u128 n))
    struct :
        {fuel id : ℕ} {ty : ScaleType} {f : Field} {d r : ValueDef TypeId}
        → types.resolve id ≡ some ty
        → ty.type_def ≡ composite (f ∷ [])
        → CompactAs w n fuel f.ty d
        → r ≡ Value.composite (wrap_field f.name (value d f.ty))
        → CompactAs w n (suc fuel) id r

module _ {T : Type 0} (R : TypeId → Value T → Value TypeId → Type 0) where
  -- Values of the types, one each.
  abbrev pub EachAs : List TypeId → List (Value T) → List (Value TypeId) → Type 0
  EachAs [] [] [] = Unit
  EachAs (ty ∷ tys) (v ∷ vs) (v' ∷ vs') = R ty v v' × EachAs tys vs vs'
  EachAs _ _ _ = ⊥

  abbrev pub AllAs : TypeId → List (Value T) → List (Value TypeId) → Type 0
  AllAs ty [] [] = Unit
  AllAs ty (v ∷ vs) (v' ∷ vs') = R ty v v' × AllAs ty vs vs'
  AllAs ty _ _ = ⊥

  -- Values of fields without names, in the order of the fields.
  abbrev pub UnnamedAs : List Field → List (Value T) → List (Value TypeId) → Type 0
  UnnamedAs [] [] [] = Unit
  UnnamedAs (f ∷ fs) (v ∷ vs) (v' ∷ vs') = (f.name ≡ none) × R f.ty v v' × UnnamedAs fs vs vs'
  UnnamedAs _ _ _ = ⊥

  -- Values of named fields, each found among `vals` by its name.
  abbrev pub NamedAs : List Field → List (String × Value T) → List (String × Value TypeId) → Type 0
  NamedAs [] vals [] = Unit
  NamedAs (f ∷ fs) vals ((n, v') ∷ vs') =
      ((f.name ≡ some n) × (v : Value T) × (find_named n vals ≡ some v) × R f.ty v v')
      × NamedAs fs vals vs'
  NamedAs _ _ _ = ⊥

  -- The vector of values of a composite or a variant.
  pub data FieldsAs : List Field → Composite T → Composite TypeId → Type 0 where
    no_fields : {c : Composite T} → into_values c ≡ [] → FieldsAs [] c (unnamed Value.nil)
    by_name :
        {f : Field} {fs : List Field} {c : Composite T} {c' : Composite TypeId}
        → (vals : List (String × Value T)) (vs' : List (String × Value TypeId))
        → c ≡ named (from_pairs vals)
        → c' ≡ named (from_pairs vs')
        → length vals ≡ length (f ∷ fs)
        → AllNamed (f ∷ fs)
        → NodupNames vals
        → NamedAs (f ∷ fs) vals vs'
        → FieldsAs (f ∷ fs) c c'
    in_order :
        {f : Field} {fs : List Field} {c : Composite T} {c' : Composite TypeId}
        → (vs : List (Value T)) (vs' : List (Value TypeId)) → c ≡ unnamed (from_list vs)
        → c' ≡ unnamed (from_list vs')
        → UnnamedAs (f ∷ fs) vs vs'
        → FieldsAs (f ∷ fs) c c'

  -- The gathered values of a composite.
  abbrev pub ListAs : List (Value TypeId) → ValueDef TypeId → Type 0
  ListAs vs' d' = d' ≡ Value.composite (unnamed (from_list vs'))

  abbrev pub CompositeAs : List Field → ValueDef T → T → ValueDef TypeId → Type 0
  CompositeAs fs (Value.composite c) t d' =
      (c' : Composite TypeId) × FieldsAs fs c c' × (d' ≡ Value.composite c')
  CompositeAs (f ∷ []) d t d' =
      (v' : Value TypeId) × R f.ty (value d t) v' × (d' ≡ Value.composite (wrap_field f.name v'))
  CompositeAs _ d t d' = ⊥

  abbrev pub TupleAs : List TypeId → ValueDef T → T → ValueDef TypeId → Type 0
  TupleAs tys (Value.composite c) t d' =
      (vs' : List (Value TypeId)) × EachAs tys (into_values c) vs' × ListAs vs' d'
  TupleAs (ty ∷ []) d t d' = (v' : Value TypeId) × R ty (value d t) v' × ListAs (v' ∷ []) d'
  TupleAs _ d t d' = ⊥

  abbrev pub VariantAs : List VariantType → ValueDef T → ValueDef TypeId → Type 0
  VariantAs vs (Value.variant name c) d' =
      (v : VariantType) × (c' : Composite TypeId) × (find (λ x. str_eq x.name name) vs ≡ some v)
      × (find (λ x. x.index == v.index) vs ≡ some v)
      × IsUint w8 v.index
      × FieldsAs v.fields c c'
      × (d' ≡ Value.variant v.name c')
  VariantAs vs d d' = ⊥

-- Boolean values, one for each bit.
abbrev pub BoolsAs : {T : Type 0} → List (Value T) → List Bool → Type 0
BoolsAs [] [] = Unit
BoolsAs (value d t ∷ vs) (b ∷ bs) = (d ≡ Value.primitive (Primitive.bool b)) × BoolsAs vs bs
BoolsAs _ _ = ⊥

abbrev pub BitsAs : {T : Type 0} → ValueDef T → List Bool → Type 0
BitsAs (Value.bit_sequence bs) bs' = bs' ≡ bs
BitsAs (Value.composite (unnamed vs)) bs' = BoolsAs (to_list vs) bs'
BitsAs _ bs' = ⊥

module _ (types : PortableRegistry) {T : Type 0} where
  -- `R` is the relation of the types that the definition refers to.
  abbrev pub DefAs :
      (TypeId → Value T → Value TypeId → Type 0)
      → ℕ
      → TypeDef
      → ValueDef T
      → T
      → ValueDef TypeId
      → Type 0
  DefAs R fuel (composite fs) d t d' = CompositeAs R fs d t d'
  DefAs R fuel (sequence ty) d t d' =
      (c : Composite T) × (vs' : List (Value TypeId)) × (d ≡ Value.composite c)
      × AllAs R ty (into_values c) vs'
      × IsUint w64 (length vs')
      × ListAs R vs' d'
  DefAs R fuel (array size ty) d t d' =
      (c : Composite T) × (vs' : List (Value TypeId)) × (d ≡ Value.composite c)
      × AllAs R ty (into_values c) vs'
      × (length vs' ≡ size)
      × ListAs R vs' d'
  DefAs R fuel (tuple tys) d t d' = TupleAs R tys d t d'
  DefAs R fuel (variant vs) d t d' = VariantAs R vs d d'
  DefAs R fuel (primitive ty) d t d' =
      (p : Primitive) × (p' : Primitive) × (d ≡ Value.primitive p)
      × PrimitiveAs ty p p'
      × (d' ≡ Value.primitive p')
  DefAs R fuel (compact ty) d t d' =
      (p : Primitive) × (w : Width) × (n : ℕ) × Holds p (value d t)
      × (number_of p ≡ some (pos n))
      × IsUint w n
      × CompactAs types w n fuel ty d'
  DefAs R fuel (bit_sequence store order) d t d' =
      (bs : List Bool) × (details : BitOrderTy × BitStoreTy) × (get_bitsequence_details store order
          types
        ≡ ok details)
      × BitsAs d bs
      × (d' ≡ Value.bit_sequence bs)

  -- The value that a value stands for as a type, where types nest no deeper than the number.
  abbrev pub Denotes : ℕ → TypeId → Value T → Value TypeId → Type 0
  Denotes zero id v v' = ⊥
  Denotes (suc n) id v v' =
      (ty : ScaleType) × (d' : ValueDef TypeId) × (types.resolve id ≡ some ty)
      × (v' ≡ value d' id)
      × DefAs (Denotes n) n ty.type_def (def_of v) (context_of v) d'

-- ===== src/Decoder/Front.antt =====
-- node-api/src/decoder/decode.rs: decoding takes bytes off the front of its input.
use substrate_api_client.Prelude.{
  ℕ, zero, suc, ◌≡◌, refl, sym, ◌∙◌, ap, List, [], ◌∷◌, ◌++◌, append_assoc,
}
use substrate_api_client.Prelude.{
  Bytes, Result, ok, ◌>>=◌, >>=-eq-ok, map_err, map_err-eq-ok, ok_or, find, ◌==◌, arith,
}
use substrate_api_client.Codec.{Codec, Width, w8, w16, w32, w64, w128}
use substrate_api_client.Decoder.BitSequence.{BitStoreTy, BitOrderTy}
use substrate_api_client.Decoder.Registry.{TypeId, TypeDef, TypeDefPrimitive, Field, VariantType}
use substrate_api_client.Decoder.Registry.{
  ScaleType, PortableRegistry, composite, variant, sequence,
}
use substrate_api_client.Decoder.Registry.{array, tuple, primitive, compact, bit_sequence}
use substrate_api_client.Decoder.Value.{Value, value}
use substrate_api_client.Decoder.Decode.{
  DecodeError, variant_not_found, type_id_not_found, Parser, mapped, decode_each, decode_fields,
  decode_variant_value, decode_count, decode_array_value, decode_types, decode_tuple_value,
  decode_sequence_value, decode_primitive_value, compact_step, decode_compact, decode_compact_value,
  decode_bit_sequence_value, decode_def, decode_value_as_type,
}

-- `rest` is what some bytes are followed by in `b`.
abbrev pub Front : Bytes → Bytes → Type 0
Front b rest = (w : Bytes) × (b ≡ w ++ rest)

pub Front-trans : {a b c : Bytes} → Front a b → Front b c → Front a c
Front-trans {a} {b} {c} (v, e) (w, f) = (v ++ w, e ∙ ap (λ l. v ++ l) f ∙ sym (append_assoc v w c))

abbrev pub Leaves : {E A : Type 0} → Result E (A × Bytes) → Bytes → Type 0
Leaves {E} {A} m b = (a : A) (rest : Bytes) → m ≡ ok (a, rest) → Front b rest

abbrev pub Consumes : {E A : Type 0} → (Bytes → Result E (A × Bytes)) → Type 0
Consumes d = (b : Bytes) → Leaves (d b) b

module _ {E A : Type 0} where
  pub done : (a : A) (b : Bytes) → Leaves {E = E} (ok (a, b)) b
  done a b a₂ rest h = let e : b ≡ rest = ground (arith, h) in ([], e)

module _ {E A B : Type 0} where
  pub bind :
      (m : Result E (A × Bytes)) (f : A × Bytes → Result E (B × Bytes)) (b : Bytes)
      → Leaves m b
      → ((a : A) (rest : Bytes) → Leaves (f (a, rest)) rest)
      → Leaves (m >>= f) b
  bind m f b c k a rest h =
      let (p, q, r) = >>=-eq-ok m f h in Front-trans (c p.0 p.1 q) (k p.0 p.1 a rest r)

  pub guarded :
      (m : Result E A) (f : A → Result E (B × Bytes)) (b : Bytes)
      → ((a : A) → Leaves (f a) b)
      → Leaves (m >>= f) b
  guarded m f b k a rest h = let (p, q, r) = >>=-eq-ok m f h in k p a rest r

  pub relabelled :
      (g : E → B) (m : Result E (A × Bytes)) (b : Bytes) → Leaves m b → Leaves (map_err g m) b
  relabelled g m b c a rest h = c a rest (map_err-eq-ok g m h)

pub mapped-Leaves :
    {A B : Type 0} (f : A → B) (m : Result DecodeError (A × Bytes)) (b : Bytes)
    → Leaves m b
    → Leaves (mapped f m) b
mapped-Leaves f m b c = bind m _ b c (λ a r. done (f a) r)

-- The codec's decoders take bytes off the front.
pub record IsConsuming (c : Codec) : Type 0 where
  pub uint : (w : Width) → Consumes (c.decode_uint w)
  pub int : (w : Width) → Consumes (c.decode_int w)
  pub compact : (w : Width) → Consumes (c.decode_compact w)
  pub bool : Consumes c.decode_bool
  pub str : Consumes c.decode_str
  pub array32 : Consumes c.decode_array32
  pub bit_vec : (o : BitOrderTy) (s : BitStoreTy) → Consumes (c.decode_bits o s)
  -- A `u8` is one byte.
  pub one_byte :
      (b : Bytes) (n : ℕ) (rest : Bytes) → c.decode_uint w8 b ≡ ok (n, rest) → b ≡ n ∷ rest

module _ (rec : TypeId → Parser (Value TypeId)) (k : (id : TypeId) → Consumes (rec id)) where
  decode_each-Consumes : (fs : List Field) → Consumes (decode_each rec fs)
  unfolding decode_each
  decode_each-Consumes [] b = done _ b
  decode_each-Consumes (f ∷ fs) b =
      bind _ _ b (k f.ty b) (λ v r. bind _ _ r (decode_each-Consumes fs r) (λ vs s. done _ s))

  decode_fields-Consumes : (fs : List Field) → Consumes (decode_fields rec fs)
  unfolding decode_fields
  decode_fields-Consumes fs b = bind _ _ b (decode_each-Consumes fs b) (λ vs r. done _ r)

  decode_variant_value-Consumes : (vs : List VariantType) → Consumes (decode_variant_value rec vs)
  unfolding decode_variant_value
  decode_variant_value-Consumes vs [] = λ a rest h. cc
  decode_variant_value-Consumes vs (i ∷ b) =
      guarded (ok_or (variant_not_found i vs) (find (λ (v : VariantType). v.index == i) vs)) _
        (i ∷ b)
        (λ v.
          bind _ (λ x. ok ((v.name, x.0), x.1)) (i ∷ b)
            (λ a rest h. Front-trans (i ∷ [], refl) (decode_fields-Consumes v.fields b a rest h))
            (λ fs s. done (v.name, fs) s))

  decode_count-Consumes : (n : ℕ) (ty : TypeId) → Consumes (decode_count rec n ty)
  unfolding decode_count
  decode_count-Consumes zero ty b = done _ b
  decode_count-Consumes (suc n) ty b =
      bind _ _ b (k ty b) (λ v r. bind _ _ r (decode_count-Consumes n ty r) (λ vs s. done _ s))

  decode_types-Consumes : (tys : List TypeId) → Consumes (decode_types rec tys)
  unfolding decode_types
  decode_types-Consumes [] b = done _ b
  decode_types-Consumes (ty ∷ tys) b =
      bind _ _ b (k ty b) (λ v r. bind _ _ r (decode_types-Consumes tys r) (λ vs s. done _ s))

module _ (c : Codec) (l : IsConsuming c) where
  decode_primitive_value-Consumes : (p : TypeDefPrimitive) → Consumes (decode_primitive_value c p)
  unfolding decode_primitive_value
  decode_primitive_value-Consumes TypeDefPrimitive.bool b =
      mapped-Leaves _ _ b (relabelled _ _ b (l.bool b))
  decode_primitive_value-Consumes TypeDefPrimitive.char b =
      bind _ _ b (relabelled _ _ b (l.uint w32 b)) (λ n r. guarded _ _ r (λ ch. done _ r))
  decode_primitive_value-Consumes TypeDefPrimitive.str b =
      mapped-Leaves _ _ b (relabelled _ _ b (l.str b))
  decode_primitive_value-Consumes TypeDefPrimitive.u8 b =
      mapped-Leaves _ _ b (relabelled _ _ b (l.uint w8 b))
  decode_primitive_value-Consumes TypeDefPrimitive.u16 b =
      mapped-Leaves _ _ b (relabelled _ _ b (l.uint w16 b))
  decode_primitive_value-Consumes TypeDefPrimitive.u32 b =
      mapped-Leaves _ _ b (relabelled _ _ b (l.uint w32 b))
  decode_primitive_value-Consumes TypeDefPrimitive.u64 b =
      mapped-Leaves _ _ b (relabelled _ _ b (l.uint w64 b))
  decode_primitive_value-Consumes TypeDefPrimitive.u128 b =
      mapped-Leaves _ _ b (relabelled _ _ b (l.uint w128 b))
  decode_primitive_value-Consumes TypeDefPrimitive.u256 b =
      mapped-Leaves _ _ b (relabelled _ _ b (l.array32 b))
  decode_primitive_value-Consumes TypeDefPrimitive.i8 b =
      mapped-Leaves _ _ b (relabelled _ _ b (l.int w8 b))
  decode_primitive_value-Consumes TypeDefPrimitive.i16 b =
      mapped-Leaves _ _ b (relabelled _ _ b (l.int w16 b))
  decode_primitive_value-Consumes TypeDefPrimitive.i32 b =
      mapped-Leaves _ _ b (relabelled _ _ b (l.int w32 b))
  decode_primitive_value-Consumes TypeDefPrimitive.i64 b =
      mapped-Leaves _ _ b (relabelled _ _ b (l.int w64 b))
  decode_primitive_value-Consumes TypeDefPrimitive.i128 b =
      mapped-Leaves _ _ b (relabelled _ _ b (l.int w128 b))
  decode_primitive_value-Consumes TypeDefPrimitive.i256 b =
      mapped-Leaves _ _ b (relabelled _ _ b (l.array32 b))

  decode_sequence_value-Consumes :
      (rec : TypeId → Parser (Value TypeId))
      → ((id : TypeId) → Consumes (rec id))
      → (ty : TypeId) → Consumes (decode_sequence_value c rec ty)
  unfolding decode_sequence_value
  decode_sequence_value-Consumes rec k ty b =
      bind _ _ b (relabelled _ _ b (l.compact w64 b))
        (λ n r. mapped-Leaves _ _ r (decode_count-Consumes rec k n ty r))

  module _ (types : PortableRegistry) where
    compact_step-Consumes :
        (rec : ScaleType → Parser _)
        → ((t : ScaleType) → Consumes (rec t))
        → (inner : ScaleType) (d : TypeDef) → Consumes (compact_step c types rec inner d)
    unfolding compact_step
    compact_step-Consumes rec k inner (primitive p) b =
        guarded _ _ b (λ w. bind _ _ b (relabelled _ _ b (l.compact w b)) (λ n r. done _ r))
    compact_step-Consumes rec k inner (composite (f ∷ [])) b =
        guarded _ _ b (λ t. bind _ _ b (k t b) (λ d r. done _ r))
    compact_step-Consumes rec k inner (composite []) b = λ a rest h. cc
    compact_step-Consumes rec k inner (composite (f ∷ g ∷ fs)) b = λ a rest h. cc
    compact_step-Consumes rec k inner (variant vs) b = λ a rest h. cc
    compact_step-Consumes rec k inner (sequence t) b = λ a rest h. cc
    compact_step-Consumes rec k inner (array n t) b = λ a rest h. cc
    compact_step-Consumes rec k inner (tuple ts) b = λ a rest h. cc
    compact_step-Consumes rec k inner (compact t) b = λ a rest h. cc
    compact_step-Consumes rec k inner (bit_sequence s o) b = λ a rest h. cc

    decode_compact-Consumes :
        (fuel : ℕ) (inner : ScaleType) → Consumes (decode_compact c types fuel inner)
    unfolding decode_compact
    decode_compact-Consumes zero inner b = λ a rest h. cc
    decode_compact-Consumes (suc fuel) inner b =
        compact_step-Consumes (decode_compact c types fuel) (decode_compact-Consumes fuel) inner
          inner.type_def b

    decode_def-Consumes :
        (rec : TypeId → Parser (Value TypeId))
        → ((id : TypeId) → Consumes (rec id))
        → (fuel : ℕ) (d : TypeDef) → Consumes (decode_def c types rec fuel d)
    unfolding decode_def decode_array_value decode_tuple_value decode_compact_value
        decode_bit_sequence_value
    decode_def-Consumes rec k fuel (composite fs) b =
        mapped-Leaves _ _ b (decode_fields-Consumes rec k fs b)
    decode_def-Consumes rec k fuel (sequence t) b =
        mapped-Leaves _ _ b (decode_sequence_value-Consumes rec k t b)
    decode_def-Consumes rec k fuel (array n t) b =
        mapped-Leaves _ _ b (mapped-Leaves _ _ b (decode_count-Consumes rec k n t b))
    decode_def-Consumes rec k fuel (tuple ts) b =
        mapped-Leaves _ _ b (mapped-Leaves _ _ b (decode_types-Consumes rec k ts b))
    decode_def-Consumes rec k fuel (variant vs) b =
        mapped-Leaves _ _ b (decode_variant_value-Consumes rec k vs b)
    decode_def-Consumes rec k fuel (primitive p) b =
        mapped-Leaves _ _ b (decode_primitive_value-Consumes p b)
    decode_def-Consumes rec k fuel (compact t) b =
        guarded _ _ b (λ inner. decode_compact-Consumes fuel inner b)
    decode_def-Consumes rec k fuel (bit_sequence s o) b =
        mapped-Leaves _ _ b (guarded _ _ b (λ d. relabelled _ _ b (l.bit_vec d.0 d.1 b)))

    -- When the codec's decoders take bytes off the front of their input, so does the decoder of
    -- values: what is left after a successful decoding is the end of the input.
    pub decode_value_as_type-Consumes :
        (fuel : ℕ) (id : TypeId) → Consumes (decode_value_as_type c types fuel id)
    unfolding decode_value_as_type
    decode_value_as_type-Consumes zero id b = λ a rest h. cc
    decode_value_as_type-Consumes (suc fuel) id b =
        guarded (ok_or (type_id_not_found id) (types.resolve id)) _ b (λ (ty : ScaleType).
          bind _ (λ x. ok (value x.0 id, x.1)) b
            (decode_def-Consumes (decode_value_as_type c types fuel)
              (decode_value_as_type-Consumes fuel) fuel ty.type_def b)
            (λ d r. done (value d id) r))

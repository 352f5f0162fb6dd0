-- ===== src/Decoder/Construct.antt =====
-- node-api/src/decoder/value.rs: making values, and `From` for values, their shapes and composites.
-- `into` is the conversion of an element, and `S: Into<String>` a text.
use substrate_api_client.Prelude.{ℕ, String, Bool, List, map}
use substrate_api_client.Prelude.Int.{ℤ}
use substrate_api_client.Decoder.Value.{
  Primitive, Value, ValueDef, Composite, value, composite, named, unnamed, from_list, from_pairs,
}

unfoldable pub without_context : ValueDef Unit → Value Unit
without_context v = value v tt

unfoldable pub with_context : {T : Type 0} → ValueDef T → T → Value T
with_context v context = value v context

-- `Variant::named_fields` and `Variant::unnamed_fields`, as shapes of values.
unfoldable pub named_fields : {T : Type 0} → String → List (String × Value T) → ValueDef T
named_fields name fields = ValueDef.variant name (named (from_pairs fields))

unfoldable pub unnamed_fields : {T : Type 0} → String → List (Value T) → ValueDef T
unnamed_fields name fields = ValueDef.variant name (unnamed (from_list fields))

-- `Primitive::uint` and `Primitive::int`
unfoldable pub primitive_uint : ℕ → Primitive
primitive_uint val = Primitive.u128 val

unfoldable pub primitive_int : ℤ → Primitive
primitive_int val = Primitive.i128 val

unfoldable pub named_composite : List (String × Value Unit) → Value Unit
named_composite values = value (composite (named (from_pairs values))) tt

unfoldable pub unnamed_composite : List (Value Unit) → Value Unit
unnamed_composite values = value (composite (unnamed (from_list values))) tt

unfoldable pub variant : String → Composite Unit → Value Unit
variant name values = value (ValueDef.variant name values) tt

unfoldable pub named_variant : String → List (String × Value Unit) → Value Unit
unfolding named_fields
named_variant name fields = value (named_fields name fields) tt

unfoldable pub unnamed_variant : String → List (Value Unit) → Value Unit
unfolding unnamed_fields
unnamed_variant name fields = value (unnamed_fields name fields) tt

unfoldable pub bit_sequence : List Bool → Value Unit
bit_sequence bits = value (ValueDef.bit_sequence bits) tt

unfoldable pub primitive : Primitive → Value Unit
primitive p = value (ValueDef.primitive p) tt

unfoldable pub string : String → Value Unit
string val = value (ValueDef.primitive (Primitive.string val)) tt

unfoldable pub bool : Bool → Value Unit
bool val = value (ValueDef.primitive (Primitive.bool val)) tt

unfoldable pub char : ℕ → Value Unit
char val = value (ValueDef.primitive (Primitive.char val)) tt

unfoldable pub uint : ℕ → Value Unit
unfolding primitive_uint
uint val = value (ValueDef.primitive (primitive_uint val)) tt

unfoldable pub int : ℤ → Value Unit
unfolding primitive_int
int val = value (ValueDef.primitive (primitive_int val)) tt

module _ {V : Type 0} (into : V → Value Unit) where
  -- From `Vec<V>`
  unfoldable pub composite_from_vec : List V → Composite Unit
  composite_from_vec vals = unnamed (from_list (map into vals))

  unfoldable pub def_from_vec : List V → ValueDef Unit
  unfolding composite_from_vec
  def_from_vec vals = composite (composite_from_vec vals)

  unfoldable pub value_from_vec : List V → Value Unit
  unfolding without_context def_from_vec
  value_from_vec vals = without_context (def_from_vec vals)

  -- From `Vec<(K, V)>`
  unfoldable pub composite_from_pairs : List (String × V) → Composite Unit
  composite_from_pairs vals = named (from_pairs (map (λ p. (p.0, into p.1)) vals))

  unfoldable pub def_from_pairs : List (String × V) → ValueDef Unit
  unfolding composite_from_pairs
  def_from_pairs vals = composite (composite_from_pairs vals)

  unfoldable pub value_from_pairs : List (String × V) → Value Unit
  unfolding without_context def_from_pairs
  value_from_pairs vals = without_context (def_from_pairs vals)

-- `From<BitSequence>`, `From<Composite<T>>` and `From<Primitive>`
unfoldable pub def_from_bits : {T : Type 0} → List Bool → ValueDef T
def_from_bits val = ValueDef.bit_sequence val

unfoldable pub value_from_bits : List Bool → Value Unit
unfolding without_context def_from_bits
value_from_bits val = without_context (def_from_bits val)

unfoldable pub def_from_composite : {T : Type 0} → Composite T → ValueDef T
def_from_composite val = composite val

unfoldable pub def_from_primitive : {T : Type 0} → Primitive → ValueDef T
def_from_primitive val = ValueDef.primitive val

-- `impl_primitive_type!`: a Boolean, a character, a text or a number of 128 bits becomes a value by
-- the primitive that `as_primitive` makes of it.
module _ {A : Type 0} (as_primitive : A → Primitive) where
  unfoldable pub def_from_native : {T : Type 0} → A → ValueDef T
  def_from_native val = ValueDef.primitive (as_primitive val)

  unfoldable pub value_from_native : A → Value Unit
  unfolding without_context def_from_native
  value_from_native val = without_context (def_from_native val)

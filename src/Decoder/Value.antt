-- ===== src/Decoder/Value.antt =====
-- node-api/src/decoder/value.rs: values of any SCALE type, with a context at every node.
use substrate_api_client.Prelude.{ℕ, ◌≡◌, refl, ap, String, Bool, true, false, List, [], ◌∷◌, map}
use substrate_api_client.Prelude.{Bytes, length}
use substrate_api_client.Prelude.Int.{ℤ}

-- `U256` and `I256` hold 32 bytes. A char is its code point.
pub data Primitive : Type 0 where
  bool : Bool → Primitive
  char : ℕ → Primitive
  string : String → Primitive
  u128 : ℕ → Primitive
  i128 : ℤ → Primitive
  u256 : Bytes → Primitive
  i256 : Bytes → Primitive

-- `Values` and `NamedValues` are the two vectors inside a composite.
mutual
  pub data Value (T : Type 0) : Type 0 where
    value : ValueDef T → T → Value T

  pub data ValueDef (T : Type 0) : Type 0 where
    composite : Composite T → ValueDef T
    variant : String → Composite T → ValueDef T
    bit_sequence : List Bool → ValueDef T
    primitive : Primitive → ValueDef T

  pub data Composite (T : Type 0) : Type 0 where
    named : NamedValues T → Composite T
    unnamed : Values T → Composite T

  pub data Values (T : Type 0) : Type 0 where
    nil : Values T
    cons : Value T → Values T → Values T

  pub data NamedValues (T : Type 0) : Type 0 where
    end : NamedValues T
    field : String → Value T → NamedValues T → NamedValues T

abbrev pub def_of : {T : Type 0} → Value T → ValueDef T
def_of (value d t) = d

abbrev pub context_of : {T : Type 0} → Value T → T
context_of (value d t) = t

-- The vectors as lists, and back.
abbrev pub to_list : {T : Type 0} → Values T → List (Value T)
to_list nil = []
to_list (cons v vs) = v ∷ to_list vs

abbrev pub from_list : {T : Type 0} → List (Value T) → Values T
from_list [] = nil
from_list (v ∷ vs) = cons v (from_list vs)

abbrev pub to_pairs : {T : Type 0} → NamedValues T → List (String × Value T)
to_pairs end = []
to_pairs (field n v vs) = (n, v) ∷ to_pairs vs

abbrev pub from_pairs : {T : Type 0} → List (String × Value T) → NamedValues T
from_pairs [] = end
from_pairs ((n, v) ∷ vs) = field n v (from_pairs vs)

pub to_list-from_list : {T : Type 0} (vs : List (Value T)) → to_list (from_list vs) ≡ vs
to_list-from_list [] = refl
to_list-from_list (v ∷ vs) = ap (λ l. v ∷ l) (to_list-from_list vs)

pub to_pairs-from_pairs :
    {T : Type 0} (vs : List (String × Value T)) → to_pairs (from_pairs vs) ≡ vs
to_pairs-from_pairs [] = refl
to_pairs-from_pairs ((n, v) ∷ vs) = ap (λ l. (n, v) ∷ l) (to_pairs-from_pairs vs)

-- `Composite::into_values`
unfoldable pub into_values : {T : Type 0} → Composite T → List (Value T)
into_values (named vs) = map (λ p. p.1) (to_pairs vs)
into_values (unnamed vs) = to_list vs

-- `Composite::len`
unfoldable pub len : {T : Type 0} → Composite T → ℕ
len (named vs) = length (to_pairs vs)
len (unnamed vs) = length (to_list vs)

-- `Composite::is_empty`
unfoldable pub is_empty : {T : Type 0} → Composite T → Bool
is_empty (named end) = true
is_empty (named (field n v vs)) = false
is_empty (unnamed nil) = true
is_empty (unnamed (cons v vs)) = false

-- The `map_context` methods of `Value`, `ValueDef`, `Composite` and `Variant`.
unfoldable mutual
  pub map_context : {T U : Type 0} → (T → U) → Value T → Value U
  map_context f (value d t) = value (map_def f d) (f t)

  pub map_def : {T U : Type 0} → (T → U) → ValueDef T → ValueDef U
  map_def f (composite c) = composite (map_composite f c)
  map_def f (variant n c) = variant n (map_composite f c)
  map_def f (bit_sequence b) = bit_sequence b
  map_def f (primitive p) = primitive p

  pub map_composite : {T U : Type 0} → (T → U) → Composite T → Composite U
  map_composite f (named vs) = named (map_named f vs)
  map_composite f (unnamed vs) = unnamed (map_values f vs)

  pub map_values : {T U : Type 0} → (T → U) → Values T → Values U
  map_values f nil = nil
  map_values f (cons v vs) = cons (map_context f v) (map_values f vs)

  pub map_named : {T U : Type 0} → (T → U) → NamedValues T → NamedValues U
  map_named f end = end
  map_named f (field n v vs) = field n (map_context f v) (map_named f vs)

-- `Value::remove_context`
unfoldable pub remove_context : {T : Type 0} → Value T → Value (Unit {0})
unfolding map_context
remove_context v = map_context (λ _. tt) v

-- ===== src/Decoder/BitSequence.antt =====
-- node-api/src/decoder/bit_sequence.rs: which bit vector a bit sequence type stands for.
use substrate_api_client.Prelude.{String, Option, none, some, Result, ◌>>=◌, ok, ok_or, str_eq}
use substrate_api_client.Prelude.{if◌then◌else◌}
use substrate_api_client.Decoder.Registry.{
  TypeId, TypeDef, TypeDefPrimitive, PortableRegistry, primitive,
}

pub data BitStoreTy : Type 0 where
  lsb0 msb0 : BitStoreTy

pub data BitOrderTy : Type 0 where
  u8 u16 u32 u64 : BitOrderTy

pub data BitSequenceError : Type 0 where
  bit_order_type_not_found : TypeId → BitSequenceError
  bit_store_type_not_found : TypeId → BitSequenceError
  no_bit_order_ident : BitSequenceError
  store_type_not_supported : String → BitSequenceError
  order_type_not_supported : String → BitSequenceError

-- The match on the definition of the store type.
unfoldable pub bit_order_out : TypeDef → Option BitOrderTy
bit_order_out (primitive TypeDefPrimitive.u8) = some u8
bit_order_out (primitive TypeDefPrimitive.u16) = some u16
bit_order_out (primitive TypeDefPrimitive.u32) = some u32
bit_order_out (primitive TypeDefPrimitive.u64) = some u64
bit_order_out _ = none

-- The match on the name of the order type.
unfoldable pub bit_store_out : String → Option BitStoreTy
bit_store_out name =
    if str_eq name "Lsb0" then some lsb0 else if str_eq name "Msb0" then some msb0 else none

-- The arguments are the IDs of the store type and of the order type.
unfoldable pub get_bitsequence_details :
    TypeId → TypeId → PortableRegistry → Result BitSequenceError (BitOrderTy × BitStoreTy)
unfolding bit_order_out bit_store_out
get_bitsequence_details store_id order_id types = do
  store ← ok_or (bit_store_type_not_found store_id) (types.resolve store_id)
  order ← ok_or (bit_order_type_not_found order_id) (types.resolve order_id)
  ident ← ok_or no_bit_order_ident order.ident
  o ← ok_or (order_type_not_supported (types.debug store.type_def)) (bit_order_out store.type_def)
  s ← ok_or (store_type_not_supported ident) (bit_store_out ident)
  ok (o, s)

-- ===== src/Decoder/Registry.antt =====
-- The portable type registry of the crate scale-info, as far as the decoder reads it: the shapes of
-- types are data that comes with the metadata, and looking a type up is an operation of the crate.
use substrate_api_client.Prelude.{ℕ, String, List, Option}

-- `TypeId`, a `u32`.
abbrev pub TypeId : Type 0
TypeId = ℕ

pub data TypeDefPrimitive : Type 0 where
  bool char str u8 u16 u32 u64 u128 u256 i8 i16 i32 i64 i128 i256 : TypeDefPrimitive

pub record Field : Type 0 where
  pub name : Option String
  pub type_name : Option String
  pub ty : TypeId

-- `scale_info::Variant`: one variant of an enum type.
pub record VariantType : Type 0 where
  pub name : String
  pub fields : List Field
  pub index : ℕ
  pub docs : List String

pub data TypeDef : Type 0 where
  composite : List Field → TypeDef
  variant : List VariantType → TypeDef
  sequence : TypeId → TypeDef
  array : ℕ → TypeId → TypeDef
  tuple : List TypeId → TypeDef
  primitive : TypeDefPrimitive → TypeDef
  compact : TypeId → TypeDef
  bit_sequence : TypeId → TypeId → TypeDef

-- A type with its path; `ident` is the path's last segment, if there is one.
pub record ScaleType : Type 0 where
  pub segments : List String
  pub ident : Option String
  pub type_def : TypeDef

-- `resolve` looks an ID up; `types` lists all types with their IDs; `debug` is the `{:?}` format
-- of a type definition.
pub record PortableRegistry : Type 0 where
  pub resolve : TypeId → Option ScaleType
  pub types : List (TypeId × ScaleType)
  pub debug : TypeDef → String

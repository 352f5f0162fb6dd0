-- ===== src/Codec.antt =====
-- The SCALE codec (the crate parity-scale-codec) and the `Encode`/`Decode` impls of bitvec, which
-- the program calls and does not implement: an interface of operations, and the laws relied on.

pub mod Sample
use substrate_api_client.Prelude.{ℕ, ◌+◌, ◌*◌, ◌^◌, ◌<◌, ◌≡◌, String, Bool, true, List, [], ◌∷◌}
use substrate_api_client.Prelude.{◌++◌, Bytes, Result, ok, length}
use substrate_api_client.Decoder.BitSequence.{BitStoreTy, BitOrderTy}
use substrate_api_client.Prelude.Int.{ℤ, pos, negsuc}

-- The widths of the integer types u8 .. u128 and i8 .. i128.
pub data Width : Type 0 where
  w8 w16 w32 w64 w128 : Width

abbrev pub bits : Width → ℕ
bits w8 = 8
bits w16 = 16
bits w32 = 32
bits w64 = 64
bits w128 = 128

abbrev pub IsUint : Width → ℕ → Type 0
IsUint w n = n < 2 ^ bits w

abbrev pub half_range : Width → ℕ
half_range w8 = 2 ^ 7
half_range w16 = 2 ^ 15
half_range w32 = 2 ^ 31
half_range w64 = 2 ^ 63
half_range w128 = 2 ^ 127

-- A two's complement integer of the width.
abbrev pub IsInt : Width → ℤ → Type 0
IsInt w (pos n) = n < half_range w
IsInt w (negsuc n) = n < half_range w

-- `codec::Error`, by its message.
abbrev pub CodecError : Type 0
CodecError = String

-- A decoder takes a value off the front of its input and leaves the rest.
abbrev pub Decoder {ℓ} : Type ℓ → Type ℓ
Decoder A = Bytes → Result CodecError (A × Bytes)

pub record Codec : Type 0 where
  pub encode_uint : Width → ℕ → Bytes
  pub decode_uint : Width → Decoder ℕ
  pub encode_int : Width → ℤ → Bytes
  pub decode_int : Width → Decoder ℤ
  -- `Compact<u8>` .. `Compact<u128>`
  pub encode_compact : Width → ℕ → Bytes
  pub decode_compact : Width → Decoder ℕ
  pub encode_bool : Bool → Bytes
  pub decode_bool : Decoder Bool
  pub encode_str : String → Bytes
  pub decode_str : Decoder String
  -- `[u8; 32]`
  pub encode_array32 : Bytes → Bytes
  pub decode_array32 : Decoder Bytes
  pub encode_bits : BitOrderTy → BitStoreTy → List Bool → Bytes
  pub decode_bits : BitOrderTy → BitStoreTy → Decoder (List Bool)

-- What was encoded decodes back, and leaves the bytes behind it.
abbrev pub Inverts {ℓ} : {A : Type ℓ} → Decoder A → A → Bytes → Type ℓ
Inverts d a w = (rest : Bytes) → d (w ++ rest) ≡ ok (a, rest)

pub record IsLawful (c : Codec) : Type 0 where
  pub uint : (w : Width) (n : ℕ) → IsUint w n → Inverts (c.decode_uint w) n (c.encode_uint w n)
  pub uint_range :
      (w : Width) (b : Bytes) (n : ℕ) (rest : Bytes) → c.decode_uint w b ≡ ok (n, rest) → IsUint w n
  pub int : (w : Width) (n : ℤ) → IsInt w n → Inverts (c.decode_int w) n (c.encode_int w n)
  pub int_range :
      (w : Width) (b : Bytes) (n : ℤ) (rest : Bytes) → c.decode_int w b ≡ ok (n, rest) → IsInt w n
  pub compact :
      (w : Width) (n : ℕ) → IsUint w n → Inverts (c.decode_compact w) n (c.encode_compact w n)
  pub compact_range :
      (w : Width) (b : Bytes) (n : ℕ) (rest : Bytes)
      → c.decode_compact w b ≡ ok (n, rest)
      → IsUint w n
  pub bool : (b : Bool) → Inverts c.decode_bool b (c.encode_bool b)
  -- A `String` in memory decodes from its own encoding.
  pub str : (s : String) → Inverts c.decode_str s (c.encode_str s)
  pub array32 : (a : Bytes) → length a ≡ 32 → Inverts c.decode_array32 a (c.encode_array32 a)
  pub array32_length : (b a rest : Bytes) → c.decode_array32 b ≡ ok (a, rest) → length a ≡ 32
  pub bit_vec :
      (o : BitOrderTy) (s : BitStoreTy) (v : List Bool)
      → Inverts (c.decode_bits o s) v (c.encode_bits o s v)
  -- A `u8` is its own encoding.
  pub u8 : (n : ℕ) → IsUint w8 n → c.encode_uint w8 n ≡ n ∷ []

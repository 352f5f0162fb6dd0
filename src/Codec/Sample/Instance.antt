-- ===== src/Codec/Sample/Instance.antt =====
-- The codec and its laws.
use mathlib.Core.Path.{subst}
use substrate_api_client.Prelude.{
  ◌≡◌, refl, ap, Bool, true, false, [], ◌∷◌, ◌++◌, Bytes, ok, err, arith, if◌then◌else◌, ◌==◌,
}
use substrate_api_client.Codec.{Codec, IsLawful, Decoder, Inverts}
use substrate_api_client.Codec.Sample.Integers.{
  encode_uint, decode_uint, encode_int, decode_int, decode_uint-encode_uint, decode_uint-range,
  decode_int-encode_int, decode_int-range,
}
use substrate_api_client.Codec.Sample.Compacts.{
  encode_compact, decode_compact, decode_compact-encode_compact, decode_compact-range,
}
use substrate_api_client.Codec.Sample.Texts.{
  encode_text, decode_text, decode_text-encode_text, encode_bit_list, decode_bit_list,
  decode_bit_list-encode, read_array, read_array-append, length-read_array,
}

encode_bool : Bool → Bytes
encode_bool true = 1 ∷ []
encode_bool false = 0 ∷ []

unfoldable pub decode_bool : Decoder Bool
decode_bool [] = err "Not enough data to fill buffer"
decode_bool (b ∷ rest) =
    if b == 0
    then ok (false, rest)
    else if b == 1
    then ok (true, rest)
    else err "Invalid boolean representation"

decode_bool-encode_bool : (b : Bool) → Inverts decode_bool b (encode_bool b)
unfolding decode_bool encode_bool
decode_bool-encode_bool true rest = refl
decode_bool-encode_bool false rest = refl

unfoldable pub sample_codec : Codec
unfolding encode_bool decode_bool encode_uint decode_uint encode_int decode_int encode_compact
    decode_compact encode_text decode_text encode_bit_list decode_bit_list read_array
sample_codec = record {
  encode_uint = encode_uint;
  decode_uint = decode_uint;
  encode_int = encode_int;
  decode_int = decode_int;
  encode_compact = encode_compact;
  decode_compact = decode_compact;
  encode_bool = encode_bool;
  decode_bool = decode_bool;
  encode_str = encode_text;
  decode_str = decode_text;
  encode_array32 = λ a. a;
  decode_array32 = read_array 32;
  encode_bits = λ o s v. encode_bit_list v;
  decode_bits = λ o s bytes. decode_bit_list bytes;
}

pub sample_codec-IsLawful : IsLawful sample_codec
unfolding sample_codec
sample_codec-IsLawful = record {
  uint = decode_uint-encode_uint;
  uint_range = decode_uint-range;
  int = decode_int-encode_int;
  int_range = decode_int-range;
  compact = decode_compact-encode_compact;
  compact_range = decode_compact-range;
  bool = decode_bool-encode_bool;
  str = decode_text-encode_text;
  array32 =
      λ a l rest. subst (λ n. read_array n (a ++ rest) ≡ ok (a, rest)) l (read_array-append a rest);
  array32_length = length-read_array 32;
  bit_vec = λ o s v rest. decode_bit_list-encode v rest;
  u8 = λ n h. ap (λ m. m ∷ []) (omega arith);
}

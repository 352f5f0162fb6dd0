-- ===== src/Codec/Sample/Returning.antt =====
-- The codec's decoders return a value or an error.
use substrate_api_client.Prelude.{
  ℕ, zero, suc, ◌%◌, ◌^◌, inl, inr, Bool, true, false, Bool-cases, Option-cases, [], ◌∷◌, Bytes,
  ltb, ◌==◌,
}
use substrate_api_client.Codec.{Width, bits}
use substrate_api_client.Decoder.Ends.{Returns, returned, failed, >>=-Returns, IsReturning}
use substrate_api_client.Codec.Sample.Integers.{read_le, decode_uint, decode_int, checked, bytes_of}
use substrate_api_client.Codec.Sample.Compacts.{compact_mode, decode_compact}
use substrate_api_client.Codec.Sample.Texts.{
  char_of, decode_chars, decode_text, read_bits, decode_bit_list, read_array,
}
use substrate_api_client.Codec.Sample.Instance.{sample_codec, decode_bool}

checked-Returns : {A : Type 0} (t : Bool) (p : A × Bytes) → Returns (checked t p)
checked-Returns true p = returned _ _ _
checked-Returns false p = failed _ _ _

read_le-Returns : (k : ℕ) (b : Bytes) → Returns (read_le k b)
unfolding read_le
read_le-Returns zero b = returned _ _ _
read_le-Returns (suc k) [] = failed _ _ _
read_le-Returns (suc k) (x ∷ b) = >>=-Returns _ _ (read_le-Returns k b) (λ p. returned _ _ _)

decode_uint-Returns : (w : Width) (b : Bytes) → Returns (decode_uint w b)
unfolding decode_uint
decode_uint-Returns w b =
    >>=-Returns _ _ (read_le-Returns (bytes_of w) b) (λ p. checked-Returns (ltb p.0 (2 ^ bits w)) p)

decode_int-Returns : (w : Width) (b : Bytes) → Returns (decode_int w b)
unfolding decode_int
decode_int-Returns w b = >>=-Returns _ _ (decode_uint-Returns w b) (λ p. returned _ _ _)

compact_mode-Returns : (m x : ℕ) (b : Bytes) → Returns (compact_mode m x b)
unfolding compact_mode
compact_mode-Returns zero x b = returned _ _ _
compact_mode-Returns (suc zero) x b =
    >>=-Returns _ _ (read_le-Returns 2 (x ∷ b)) (λ p. returned _ _ _)
compact_mode-Returns (suc (suc zero)) x b =
    >>=-Returns _ _ (read_le-Returns 4 (x ∷ b)) (λ p. returned _ _ _)
compact_mode-Returns (suc (suc (suc m))) x b = read_le-Returns _ b

decode_compact-Returns : (w : Width) (b : Bytes) → Returns (decode_compact w b)
unfolding decode_compact
decode_compact-Returns w [] = failed _ _ _
decode_compact-Returns w (x ∷ b) =
    >>=-Returns _ _ (compact_mode-Returns (x % 4) x b)
      (λ p. checked-Returns (ltb p.0 (2 ^ bits w)) p)

decode_bool-Returns : (b : Bytes) → Returns (decode_bool b)
unfolding decode_bool
decode_bool-Returns [] = failed _ _ _
decode_bool-Returns (x ∷ b) = elim (Bool-cases (x == 0)) [
  | inl y ↦ rw y (returned _ _ _)
  | inr n ↦ elim (Bool-cases (x == 1)) [
    | inl y ↦ rw (n, y) (returned _ _ _)
    | inr m ↦ rw (n, m) (failed _ _ _)
  ]
]

decode_chars-Returns : (n : ℕ) (b : Bytes) → Returns (decode_chars n b)
unfolding decode_chars
decode_chars-Returns zero b = returned _ _ _
decode_chars-Returns (suc n) [] = failed _ _ _
decode_chars-Returns (suc n) (x ∷ b) = elim (Option-cases (char_of x)) [
  | inl e ↦ rw (e, decode_chars) (failed _ _ _)
  | inr (ch, e) ↦
      rw (e, decode_chars) (>>=-Returns _ _ (decode_chars-Returns n b) (λ p. returned _ _ _))
]

decode_text-Returns : (b : Bytes) → Returns (decode_text b)
unfolding decode_text
decode_text-Returns [] = failed _ _ _
decode_text-Returns (n ∷ b) = decode_chars-Returns n b

read_bits-Returns : (n : ℕ) (b : Bytes) → Returns (read_bits n b)
unfolding read_bits
read_bits-Returns zero b = returned _ _ _
read_bits-Returns (suc n) [] = failed _ _ _
read_bits-Returns (suc n) (x ∷ b) = >>=-Returns _ _ (read_bits-Returns n b) (λ p. returned _ _ _)

decode_bit_list-Returns : (b : Bytes) → Returns (decode_bit_list b)
unfolding decode_bit_list
decode_bit_list-Returns [] = failed _ _ _
decode_bit_list-Returns (n ∷ b) = read_bits-Returns n b

read_array-Returns : (n : ℕ) (b : Bytes) → Returns (read_array n b)
unfolding read_array
read_array-Returns zero b = returned _ _ _
read_array-Returns (suc n) [] = failed _ _ _
read_array-Returns (suc n) (x ∷ b) = >>=-Returns _ _ (read_array-Returns n b) (λ p. returned _ _ _)

pub sample_codec-IsReturning : IsReturning sample_codec
unfolding sample_codec
sample_codec-IsReturning = record {
  uint = decode_uint-Returns;
  int = decode_int-Returns;
  compact = decode_compact-Returns;
  bool = decode_bool-Returns;
  str = decode_text-Returns;
  array32 = read_array-Returns 32;
  bit_vec = λ o s. decode_bit_list-Returns;
}

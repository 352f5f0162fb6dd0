-- ===== src/Codec/Sample/Consuming.antt =====
-- The codec's decoders take bytes off the front of their input.
use Prim.Native.String.{String}
use substrate_api_client.Prelude.{
  ℕ, zero, suc, ◌+◌, ◌*◌, ◌%◌, ◌^◌, ◌≡◌, refl, ap, inl, inr, Bool, Bool-cases, Option-cases, [],
  ◌∷◌, Bytes, Result, ok, ltb, ◌==◌, ok-inj, arith,
}
use substrate_api_client.Codec.{Width, w8, bits}
use substrate_api_client.Decoder.Front.{Front-trans, Leaves, Consumes, IsConsuming, bind, done}
use substrate_api_client.Codec.Sample.Integers.{read_le, decode_uint, decode_int, checked, bytes_of}
use substrate_api_client.Codec.Sample.Compacts.{compact_mode, decode_compact}
use substrate_api_client.Codec.Sample.Texts.{
  char_of, decode_chars, decode_text, read_bits, decode_bit_list, read_array,
}
use substrate_api_client.Codec.Sample.Instance.{sample_codec, decode_bool}

-- One byte more in front.
further :
    {E A : Type 0} (m : Result E (A × Bytes)) (x : ℕ) (b : Bytes) → Leaves m b → Leaves m (x ∷ b)
further m x b k a rest h = Front-trans (x ∷ [], refl) (k a rest h)

checked-Leaves : {A : Type 0} (t : Bool) (a : A) (b : Bytes) → Leaves (checked t (a, b)) b
checked-Leaves t a b a₂ rest h = elim (Bool-cases t) [
  | inl y ↦ done a b a₂ rest (rw y at h)
  | inr n ↦ let x = rw n at h in cc
]

pub read_le-Consumes : (k : ℕ) → Consumes (read_le k)
unfolding read_le
read_le-Consumes zero b = done _ b
read_le-Consumes (suc k) [] = λ a rest h. cc
read_le-Consumes (suc k) (x ∷ b) =
    further _ x b
      (bind (read_le k b) (λ p. ok (x + 256 * p.0, p.1)) b (read_le-Consumes k b) (λ n r. done _ r))

decode_uint-Consumes : (w : Width) → Consumes (decode_uint w)
unfolding decode_uint
decode_uint-Consumes w b =
    bind (read_le (bytes_of w) b) (λ p. checked (ltb p.0 (2 ^ bits w)) p) b
      (read_le-Consumes (bytes_of w) b) (λ n r. checked-Leaves (ltb n (2 ^ bits w)) n r)

decode_int-Consumes : (w : Width) → Consumes (decode_int w)
unfolding decode_int
decode_int-Consumes w b = bind _ _ b (decode_uint-Consumes w b) (λ n r. done _ r)

compact_mode-Consumes : (m x : ℕ) (b : Bytes) → Leaves (compact_mode m x b) (x ∷ b)
unfolding compact_mode
compact_mode-Consumes zero x b = further _ x b (done _ b)
compact_mode-Consumes (suc zero) x b =
    bind _ _ (x ∷ b) (read_le-Consumes 2 (x ∷ b)) (λ n r. done _ r)
compact_mode-Consumes (suc (suc zero)) x b =
    bind _ _ (x ∷ b) (read_le-Consumes 4 (x ∷ b)) (λ n r. done _ r)
compact_mode-Consumes (suc (suc (suc m))) x b = further _ x b (read_le-Consumes _ b)

decode_compact-Consumes : (w : Width) → Consumes (decode_compact w)
unfolding decode_compact
decode_compact-Consumes w [] = λ a rest h. cc
decode_compact-Consumes w (x ∷ b) =
    bind (compact_mode (x % 4) x b) (λ p. checked (ltb p.0 (2 ^ bits w)) p) (x ∷ b)
      (compact_mode-Consumes (x % 4) x b) (λ n r. checked-Leaves (ltb n (2 ^ bits w)) n r)

decode_bool-Consumes : Consumes decode_bool
unfolding decode_bool
decode_bool-Consumes [] a rest h = cc
decode_bool-Consumes (x ∷ b) a rest h = elim (Bool-cases (x == 0)) [
  | inl y ↦ further _ x b (done _ b) a rest (rw y at h)
  | inr n ↦ elim (Bool-cases (x == 1)) [
    | inl y ↦ further _ x b (done _ b) a rest (rw (n, y) at h)
    | inr m ↦ let z = rw (n, m) at h in cc
  ]
]

decode_chars-Consumes : (n : ℕ) → Consumes (decode_chars n)
unfolding decode_chars
decode_chars-Consumes zero b a rest h = done _ b a rest h
decode_chars-Consumes (suc n) [] a rest h = cc
decode_chars-Consumes (suc n) (x ∷ b) a rest h = elim (Option-cases (char_of x)) [
  | inl e ↦ let z = rw (e, decode_chars) at h in cc
  | inr (ch, e) ↦
      further _ x b
        (bind (decode_chars n b) (λ p. ok (String.◌∷◌ ch p.0, p.1)) b (decode_chars-Consumes n b)
          (λ s r. done _ r))
        a rest (rw (e, decode_chars) at h)
]

decode_text-Consumes : Consumes decode_text
unfolding decode_text
decode_text-Consumes [] = λ a rest h. cc
decode_text-Consumes (n ∷ b) = further _ n b (decode_chars-Consumes n b)

read_bits-Consumes : (n : ℕ) → Consumes (read_bits n)
unfolding read_bits
read_bits-Consumes zero b = done _ b
read_bits-Consumes (suc n) [] = λ a rest h. cc
read_bits-Consumes (suc n) (x ∷ b) = further _ x b (
    bind (read_bits n b) (λ p. ok ((x == 1) ∷ p.0, p.1)) b (read_bits-Consumes n b)
      (λ s r. done _ r))

decode_bit_list-Consumes : Consumes decode_bit_list
unfolding decode_bit_list
decode_bit_list-Consumes [] = λ a rest h. cc
decode_bit_list-Consumes (n ∷ b) = further _ n b (read_bits-Consumes n b)

pub read_array-Consumes : (n : ℕ) → Consumes (read_array n)
unfolding read_array
read_array-Consumes zero b = done _ b
read_array-Consumes (suc n) [] = λ a rest h. cc
read_array-Consumes (suc n) (x ∷ b) =
    further _ x b
      (bind (read_array n b) (λ p. ok (x ∷ p.0, p.1)) b (read_array-Consumes n b) (λ s r. done _ r))

one_byte : (b : Bytes) (n : ℕ) (rest : Bytes) → decode_uint w8 b ≡ ok (n, rest) → b ≡ n ∷ rest
unfolding decode_uint read_le
one_byte [] n rest h = cc
one_byte (x ∷ b) n rest h = elim (Bool-cases (ltb (x + 256 * 0) (2 ^ 8))) [
  | inl y ↦
      let e = ok-inj (rw (y, decode_uint) at h) in
      let f : x + 256 * 0 ≡ n = ap (λ p. p.0) e in
      let g : x ≡ n = omega arith in let r : b ≡ rest = ap (λ p. p.1) e in rw (g, r)
  | inr m ↦ let z = rw (m, decode_uint) at h in cc
]

pub sample_codec-IsConsuming : IsConsuming sample_codec
unfolding sample_codec
sample_codec-IsConsuming = record {
  uint = decode_uint-Consumes;
  int = decode_int-Consumes;
  compact = decode_compact-Consumes;
  bool = decode_bool-Consumes;
  str = decode_text-Consumes;
  array32 = read_array-Consumes 32;
  bit_vec = λ o s. decode_bit_list-Consumes;
  one_byte = one_byte;
}

-- ===== src/Codec/Sample/Texts.antt =====
-- Texts as their length and code points, and bit vectors as their length and bits.
use Prim.Native.Nat.{compare, Ordering}
use Prim.Native.Char.{Char, char, code, IsScalar, IsLt}
use Prim.Native.String.{String}
use substrate_api_client.Prelude.{
  ℕ, zero, suc, ◌≡◌, refl, ap, ◌⊎◌, ◌≢◌, inl, inr, Bool, true, false, Option, none, some, List, [],
  ◌∷◌, ◌++◌, Bytes, ok, err, length, ◌>>=◌, >>=-eq-ok, ◌==◌, arith,
}
use substrate_api_client.Codec.{Decoder}

Ordering-cases : (o : Ordering) → (o ≡ Ordering.lt) ⊎ (o ≡ Ordering.eq) ⊎ (o ≡ Ordering.gt)
Ordering-cases Ordering.lt = inl refl
Ordering-cases Ordering.eq = inr (inl refl)
Ordering-cases Ordering.gt = inr (inr refl)

dec_lt_order : (o : Ordering) → Dec (IsLt o)
dec_lt_order Ordering.lt = yes tt
dec_lt_order Ordering.eq = no (λ h. h)
dec_lt_order Ordering.gt = no (λ h. h)

-- Above the surrogates and not above the last code point.
upper_scalar : (n : ℕ) (o : Ordering) → o ≢ Ordering.lt → compare n 55296 ≡ o → Dec (IsScalar n)
unfolding dec_lt_order Ordering-cases
upper_scalar n Ordering.lt ne e = absurd (ne refl)
upper_scalar n Ordering.eq ne e = elim (Ordering-cases (compare 57343 n)) [
  | inl f ↦ rw (e, f) (dec_lt_order (compare n 1114112))
  | inr (inl f) ↦ rw (e, f) (no (λ h. h))
  | inr (inr f) ↦ rw (e, f) (no (λ h. h))
]
upper_scalar n Ordering.gt ne e = elim (Ordering-cases (compare 57343 n)) [
  | inl f ↦ rw (e, f) (dec_lt_order (compare n 1114112))
  | inr (inl f) ↦ rw (e, f) (no (λ h. h))
  | inr (inr f) ↦ rw (e, f) (no (λ h. h))
]

dec_scalar : (n : ℕ) → Dec (IsScalar n)
unfolding upper_scalar Ordering-cases
dec_scalar n = elim (Ordering-cases (compare n 55296)) [
  | inl e ↦ rw e (yes tt)
  | inr (inl e) ↦ upper_scalar n Ordering.eq (cc) e
  | inr (inr e) ↦ upper_scalar n Ordering.gt (cc) e
]

IsLt-prop : (o : Ordering) → IsProp (IsLt o)
IsLt-prop Ordering.lt = λ x y. refl
IsLt-prop Ordering.eq = λ x y. elim x [ ]
IsLt-prop Ordering.gt = λ x y. elim x [ ]

upper_scalar-prop :
    (n : ℕ) (o : Ordering) → o ≢ Ordering.lt → compare n 55296 ≡ o → IsProp (IsScalar n)
upper_scalar-prop n Ordering.lt ne e = absurd (ne refl)
upper_scalar-prop n Ordering.eq ne e = elim (Ordering-cases (compare 57343 n)) [
  | inl f ↦ rw (e, f) (IsLt-prop (compare n 1114112))
  | inr (inl f) ↦ rw (e, f) (λ x y. elim x [ ])
  | inr (inr f) ↦ rw (e, f) (λ x y. elim x [ ])
]
upper_scalar-prop n Ordering.gt ne e = elim (Ordering-cases (compare 57343 n)) [
  | inl f ↦ rw (e, f) (IsLt-prop (compare n 1114112))
  | inr (inl f) ↦ rw (e, f) (λ x y. elim x [ ])
  | inr (inr f) ↦ rw (e, f) (λ x y. elim x [ ])
]

IsScalar-prop : (n : ℕ) → IsProp (IsScalar n)
IsScalar-prop n = elim (Ordering-cases (compare n 55296)) [
  | inl e ↦ rw e (λ x y. refl)
  | inr (inl e) ↦ upper_scalar-prop n Ordering.eq (cc) e
  | inr (inr e) ↦ upper_scalar-prop n Ordering.gt (cc) e
]

char_dec : (n : ℕ) → Dec (IsScalar n) → Option Char
char_dec n (yes p) = some (char n p)
char_dec n (no p) = none

pub char_of : ℕ → Option Char
unfolding char_dec dec_scalar
char_of n = char_dec n (dec_scalar n)

char_of-code : (ch : Char) → char_of (code ch) ≡ some ch
unfolding char_of
char_of-code (char n p) = go (dec_scalar n)
  where
    go : (d : Dec (IsScalar n)) → char_dec n d ≡ some (char n p)
    go (yes q) = ap (λ r. some (char n r)) (IsScalar-prop n q p)
    go (no q) = absurd (q p)

abbrev codes : String → List ℕ
codes String.[] = []
codes (String.◌∷◌ ch s) = code ch ∷ codes s

abbrev count : String → ℕ
count String.[] = 0
count (String.◌∷◌ ch s) = suc (count s)

-- The characters of `n` code points.
unfoldable pub decode_chars : ℕ → Decoder String
decode_chars zero bytes = ok (String.[], bytes)
decode_chars (suc n) [] = err "Not enough data to fill buffer"
decode_chars (suc n) (b ∷ bytes) =
    let rest = decode_chars n bytes in
    elim (char_of b) [
      | none ↦ err "Invalid utf8 sequence"
      | some ch ↦ rest >>= λ p. ok (String.◌∷◌ ch p.0, p.1)
    ]

unfoldable pub encode_text : String → Bytes
encode_text s = count s ∷ codes s

unfoldable pub decode_text : Decoder String
unfolding decode_chars char_of
decode_text [] = err "Not enough data to fill buffer"
decode_text (n ∷ bytes) = decode_chars n bytes

decode_chars-codes :
    (s : String) (rest : Bytes) → decode_chars (count s) (codes s ++ rest) ≡ ok (s, rest)
unfolding decode_chars
decode_chars-codes String.[] rest = refl
decode_chars-codes (String.◌∷◌ ch s) rest =
    rw (char_of-code ch, decode_chars) (rw (decode_chars-codes s rest))

pub decode_text-encode_text :
    (s : String) (rest : Bytes) → decode_text (encode_text s ++ rest) ≡ ok (s, rest)
unfolding decode_text encode_text
decode_text-encode_text s rest = decode_chars-codes s rest

-- Bits as numbers.
abbrev bit : Bool → ℕ
bit true = 1
bit false = 0

abbrev bit_cells : List Bool → Bytes
bit_cells [] = []
bit_cells (b ∷ bs) = bit b ∷ bit_cells bs

unfoldable pub read_bits : ℕ → Decoder (List Bool)
read_bits zero bytes = ok ([], bytes)
read_bits (suc n) [] = err "Not enough data to fill buffer"
read_bits (suc n) (b ∷ bytes) = read_bits n bytes >>= λ p. ok ((b == 1) ∷ p.0, p.1)

unfoldable pub encode_bit_list : List Bool → Bytes
encode_bit_list bs = length bs ∷ bit_cells bs

unfoldable pub decode_bit_list : Decoder (List Bool)
unfolding read_bits
decode_bit_list [] = err "Not enough data to fill buffer"
decode_bit_list (n ∷ bytes) = read_bits n bytes

read_bits-cells :
    (bs : List Bool) (rest : Bytes) → read_bits (length bs) (bit_cells bs ++ rest) ≡ ok (bs, rest)
unfolding read_bits
read_bits-cells [] rest = refl
read_bits-cells (true ∷ bs) rest = rw (read_bits-cells bs rest)
read_bits-cells (false ∷ bs) rest = rw (read_bits-cells bs rest)

pub decode_bit_list-encode :
    (bs : List Bool) (rest : Bytes) → decode_bit_list (encode_bit_list bs ++ rest) ≡ ok (bs, rest)
unfolding decode_bit_list encode_bit_list
decode_bit_list-encode bs rest = read_bits-cells bs rest

-- `n` bytes as they are.
unfoldable pub read_array : ℕ → Decoder Bytes
read_array zero bytes = ok ([], bytes)
read_array (suc n) [] = err "Not enough data to fill buffer"
read_array (suc n) (b ∷ bytes) = read_array n bytes >>= λ p. ok (b ∷ p.0, p.1)

pub read_array-append : (a rest : Bytes) → read_array (length a) (a ++ rest) ≡ ok (a, rest)
unfolding read_array
read_array-append [] rest = refl
read_array-append (b ∷ a) rest = rw (read_array-append a rest)

pub length-read_array :
    (n : ℕ) (bytes a rest : Bytes) → read_array n bytes ≡ ok (a, rest) → length a ≡ n
unfolding read_array
length-read_array zero bytes a rest h = let e : a ≡ [] = ground (arith, h) in rw e
length-read_array (suc n) [] a rest h = cc
length-read_array (suc n) (b ∷ bytes) a rest h =
    let (p, q, r) = >>=-eq-ok (read_array n bytes) _ h in
    let e : a ≡ b ∷ p.0 = ground (arith, r) in rw (e, length-read_array n bytes p.0 p.1 q)

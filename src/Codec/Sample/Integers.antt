-- ===== src/Codec/Sample/Integers.antt =====
-- Fixed-width integers, least byte first, and the four modes of compact integers.
use Prim.Native.Nat.{ℕ}
use native.Mathlib.Nat.{pow-suc}
use substrate_api_client.Prelude.{
  zero, suc, ◌+◌, ◌-◌, ◌*◌, ◌/◌, ◌%◌, ◌^◌, ◌<◌, ◌≡◌, refl, ap, [], ◌∷◌, ◌++◌, Bytes, Result, ok,
  err, ◌>>=◌, arith, ltb, if◌then◌else◌, lt→ltb, Bool-cases, inl, inr,
}
use substrate_api_client.Prelude.Int.{ℤ, pos, negsuc}
use substrate_api_client.Prelude.{Bool, >>=-eq-ok, ltb→lt}
use substrate_api_client.Codec.{
  Decoder, CodecError, Width, w8, w16, w32, w64, w128, bits, half_range, IsUint, IsInt, Inverts,
}

-- The lowest `k` bytes of a number.
unfoldable pub le_bytes : ℕ → ℕ → Bytes
le_bytes zero n = []
le_bytes (suc k) n = (n % 256) ∷ le_bytes k (n / 256)

unfoldable pub read_le : ℕ → Decoder ℕ
read_le zero bytes = ok (0, bytes)
read_le (suc k) [] = err "Not enough data to fill buffer"
read_le (suc k) (b ∷ bytes) = read_le k bytes >>= λ p. ok (b + 256 * p.0, p.1)

pub read_le-le_bytes :
    (k n : ℕ) (rest : Bytes) → n < 256 ^ k → read_le k (le_bytes k n ++ rest) ≡ ok (n, rest)
unfolding read_le le_bytes
read_le-le_bytes zero n rest h = ground arith
read_le-le_bytes (suc k) n rest h =
    rw (read_le-le_bytes k (n / 256) rest (shrink k n h)) (ap (λ m. ok (m, rest)) (omega arith))
  where
    shrink : (k n : ℕ) → n < 256 ^ suc k → n / 256 < 256 ^ k
    shrink k n h = omega (arith, pow-suc 256 k)

abbrev pub bytes_of : Width → ℕ
bytes_of w8 = 1
bytes_of w16 = 2
bytes_of w32 = 4
bytes_of w64 = 8
bytes_of w128 = 16

pub fits_bytes : (w : Width) (n : ℕ) → IsUint w n → n < 256 ^ bytes_of w
fits_bytes w8 n h = omega arith
fits_bytes w16 n h = omega arith
fits_bytes w32 n h = omega arith
fits_bytes w64 n h = omega arith
fits_bytes w128 n h = omega arith

-- A number that was read must be in the range of its width.
abbrev pub checked : {A : Type 0} → Bool → A × Bytes → Result CodecError (A × Bytes)
checked b p = if b then ok p else err "out of range"

unfoldable pub encode_uint : Width → ℕ → Bytes
unfolding le_bytes
encode_uint w n = le_bytes (bytes_of w) n

unfoldable pub decode_uint : Width → Decoder ℕ
unfolding read_le
decode_uint w bytes = read_le (bytes_of w) bytes >>= λ p. checked (ltb p.0 (2 ^ bits w)) p

pub decode_uint-encode_uint :
    (w : Width) (n : ℕ) → IsUint w n → Inverts (decode_uint w) n (encode_uint w n)
unfolding decode_uint encode_uint
decode_uint-encode_uint w n h rest =
    rw (read_le-le_bytes (bytes_of w) n rest (fits_bytes w n h), lt→ltb _ _ h)

pub decode_uint-range :
    (w : Width) (b : Bytes) (n : ℕ) (rest : Bytes) → decode_uint w b ≡ ok (n, rest) → IsUint w n
unfolding decode_uint
decode_uint-range w b n rest h =
    let (p, q, r) = >>=-eq-ok (read_le (bytes_of w) b) _ h in
    let e : p.0 ≡ n = ground (arith, r) in rw (← e) (ltb→lt _ _ (ground (arith, r)))

-- Two's complement: `negsuc n` is the bit pattern 2 ^ w - 1 - n.
abbrev pattern_of : Width → ℤ → ℕ
pattern_of w (pos n) = n
pattern_of w (negsuc n) = 2 * half_range w - 1 - n

abbrev of_pattern : Width → ℕ → ℤ
of_pattern w u = if ltb u (half_range w) then pos u else negsuc (2 * half_range w - 1 - u)

unfoldable pub encode_int : Width → ℤ → Bytes
unfolding encode_uint
encode_int w z = encode_uint w (pattern_of w z)

unfoldable pub decode_int : Width → Decoder ℤ
unfolding decode_uint
decode_int w bytes = decode_uint w bytes >>= λ p. ok (of_pattern w p.0, p.1)

twice_half : (w : Width) → 2 ^ bits w ≡ 2 * half_range w
twice_half w8 = refl
twice_half w16 = refl
twice_half w32 = refl
twice_half w64 = refl
twice_half w128 = refl

pattern_fits : (w : Width) (z : ℤ) → IsInt w z → IsUint w (pattern_of w z)
pattern_fits w (pos n) h = omega (arith, twice_half w)
pattern_fits w (negsuc n) h = omega (arith, twice_half w)

of_pattern-pattern_of : (w : Width) (z : ℤ) → IsInt w z → of_pattern w (pattern_of w z) ≡ z
of_pattern-pattern_of w (pos n) h = ground arith
of_pattern-pattern_of w (negsuc n) h = ground arith

of_pattern-range : (w : Width) (u : ℕ) → IsUint w u → IsInt w (of_pattern w u)
of_pattern-range w u h = elim (Bool-cases (ltb u (half_range w))) [
  | inl small ↦ rw small (ltb→lt _ _ small)
  | inr big ↦ rw big (ground (arith, twice_half w))
]

pub decode_int-encode_int :
    (w : Width) (z : ℤ) → IsInt w z → Inverts (decode_int w) z (encode_int w z)
unfolding decode_int encode_int
decode_int-encode_int w z h rest = rw (
  decode_uint-encode_uint w (pattern_of w z) (pattern_fits w z h) rest,
  of_pattern-pattern_of w z h,
)

pub decode_int-range :
    (w : Width) (b : Bytes) (z : ℤ) (rest : Bytes) → decode_int w b ≡ ok (z, rest) → IsInt w z
unfolding decode_int
decode_int-range w b z rest h =
    let (p, q, r) = >>=-eq-ok (decode_uint w b) _ h in
    let e : of_pattern w p.0 ≡ z = ground (arith, r) in
    rw (← e) (of_pattern-range w p.0 (decode_uint-range w b p.0 p.1 q))

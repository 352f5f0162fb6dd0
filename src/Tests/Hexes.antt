-- ===== src/Tests/Hexes.antt =====
-- Hex digits, and a hash read from a text in quotes.
use substrate_api_client.Prelude.{
  ℕ, ◌+◌, ◌-◌, ◌*◌, ◌/◌, ◌%◌, ◌<◌, ◌≡◌, refl, String, Option, none, some, [], ◌∷◌, Bytes, All,
  Result, ok, err, ltb, leb, ◌&&◌, if◌then◌else◌, arith,
}
use substrate_api_client.Client.Hex.{Text, IsHexDigit, hash_from_hex, hash_from_hex-encode}

abbrev digit : ℕ → ℕ
digit d = if ltb d 10 then d + 48 else d + 87

abbrev digit_value : ℕ → Option ℕ
digit_value c =
    if leb 48 c && leb c 57
    then some (c - 48)
    else if leb 97 c && leb c 102
    then some (c - 87)
    else none

abbrev encode_hex : Bytes → Text
encode_hex [] = []
encode_hex (x ∷ b) = digit (x / 16) ∷ digit (x % 16) ∷ encode_hex b

abbrev joined : Option ℕ → Option ℕ → Result String Bytes → Result String Bytes
joined (some h) (some l) (ok b) = ok ((h * 16 + l) ∷ b)
joined _ _ _ = err "InvalidHexCharacter"

abbrev decode_hex : Text → Result String Bytes
decode_hex [] = ok []
decode_hex (c ∷ []) = err "OddLength"
decode_hex (c ∷ d ∷ s) = joined (digit_value c) (digit_value d) (decode_hex s)

digit-IsHexDigit : (d : ℕ) → d < 16 → IsHexDigit (digit d)
digit-IsHexDigit d l = ground arith

digit_value-digit : (d : ℕ) → d < 16 → digit_value (digit d) ≡ some d
digit_value-digit d l = ground arith

high : (x : ℕ) → x < 256 → x / 16 < 16
high x l = omega (arith, l)

low : (x : ℕ) → x % 16 < 16
low x = omega arith

encode_hex-IsHexDigit : (b : Bytes) → All (λ x. x < 256) b → All IsHexDigit (encode_hex b)
encode_hex-IsHexDigit [] a = tt
encode_hex-IsHexDigit (x ∷ b) (l, a) = (
  digit-IsHexDigit (x / 16) (high x l),
  (digit-IsHexDigit (x % 16) (low x), encode_hex-IsHexDigit b a),
)

decode_hex-encode_hex : (b : Bytes) → All (λ x. x < 256) b → decode_hex (encode_hex b) ≡ ok b
decode_hex-encode_hex [] a = refl
decode_hex-encode_hex (x ∷ b) (l, a) =
    rw
      (
        digit_value-digit (x / 16) (high x l),
        digit_value-digit (x % 16) (low x),
        decode_hex-encode_hex b a,
      )
      (put (x / 16 * 16 + x % 16) (omega arith))
  where
    put : (y : ℕ) → y ≡ x → ◌≡◌ {A = Result String Bytes} (ok (y ∷ b)) (ok (x ∷ b))
    put y e = rw e refl

abbrev two_bytes : Bytes
two_bytes = 1 ∷ 171 ∷ []

hash_from_hex-encode_example :
    hash_from_hex decode_hex "InvalidStringLength" (34 ∷ 48 ∷ 120 ∷ 48 ∷ 49 ∷ 97 ∷ 98 ∷ 34 ∷ [])
    ≡ err "InvalidStringLength"
hash_from_hex-encode_example =
    hash_from_hex-encode decode_hex "InvalidStringLength" encode_hex decode_hex-encode_hex
      encode_hex-IsHexDigit two_bytes (omega arith, (omega arith, tt))

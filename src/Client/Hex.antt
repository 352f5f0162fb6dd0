-- ===== src/Client/Hex.antt =====
-- src/src/utils.rs, `FromHexString`. A text is the list of its characters, by number; the errors and
-- `decode` are those of the library hex.
use substrate_api_client.Prelude.{
  ℕ, ◌≤◌, ◌<◌, ◌≡◌, refl, ◌⊎◌, inl, inr, List, [], ◌∷◌, ◌++◌, Bytes, All, length, Bool, true, false,
  ◌==◌, ◌&&◌, if◌then◌else◌, arith,
}
use substrate_api_client.Prelude.{Result, ok, err, panic, out_of_fuel}

abbrev pub Text : Type 0
Text = List ℕ

-- `trim_matches` of a character, at both ends.
unfoldable pub trim_start_char : ℕ → Text → Text
trim_start_char q [] = []
trim_start_char q (c ∷ s) = let rest = trim_start_char q s in if c == q then rest else c ∷ s

-- A character before what is left of the text behind it.
unfoldable pub keep : ℕ → ℕ → Text → Text
keep q c [] = if c == q then [] else c ∷ []
keep q c (d ∷ s) = c ∷ d ∷ s

unfoldable pub trim_end_char : ℕ → Text → Text
unfolding keep
trim_end_char q [] = []
trim_end_char q (c ∷ s) = keep q c (trim_end_char q s)

-- `trim_start_matches("0x")`, which takes it off again and again.
unfoldable pub trim_start_0x : Text → Text
trim_start_0x [] = []
trim_start_0x (c ∷ []) = c ∷ []
trim_start_0x (c ∷ d ∷ s) =
    let rest = trim_start_0x s in if (c == 48) && (d == 120) then rest else c ∷ d ∷ s

module _ {E : Type 0} (decode : Text → Result E Bytes) (invalid_string_length : E) where
  -- `Vec::from_hex`
  unfoldable pub vec_from_hex : Text → Result E Bytes
  unfolding trim_start_char trim_end_char trim_start_0x
  vec_from_hex hex = decode (trim_start_0x (trim_end_char 34 (trim_start_char 34 hex)))

  unfoldable pub hash_of_vec : Result E Bytes → Result E Bytes
  hash_of_vec (ok vec) = if length vec == 32 then ok vec else err invalid_string_length
  hash_of_vec (err e) = err e
  hash_of_vec panic = panic
  hash_of_vec out_of_fuel = out_of_fuel

  -- `H256::from_hex`; a hash is its 32 bytes.
  unfoldable pub hash_from_hex : Text → Result E Bytes
  unfolding vec_from_hex hash_of_vec
  hash_from_hex hex = hash_of_vec (vec_from_hex hex)

-- The digits that `hex::encode` writes.
abbrev pub IsHexDigit : ℕ → Type 0
IsHexDigit c = ((48 ≤ c) × (c ≤ 57)) ⊎ ((97 ≤ c) × (c ≤ 102))

digit-== : (q c : ℕ) → (q ≡ 34) ⊎ (q ≡ 120) → IsHexDigit c → (c == q) ≡ false
digit-== q c p d = ground arith

-- A character other than `q`, before what is left of a text, stays.
keep-other : (q c : ℕ) (s : Text) → (c == q) ≡ false → keep q c s ≡ c ∷ s
unfolding keep
keep-other q c [] d = rw d refl
keep-other q c (x ∷ s) d = refl

trim_end_char-quoted : (s : Text) → All IsHexDigit s → trim_end_char 34 (s ++ 34 ∷ []) ≡ s
unfolding trim_end_char keep
trim_end_char-quoted [] a = refl
trim_end_char-quoted (c ∷ s) (d, a) =
    rw (trim_end_char-quoted s a) (keep-other 34 c s (digit-== 34 c (inl refl) d))

trim_start_0x-digits : (s : Text) → All IsHexDigit s → trim_start_0x s ≡ s
unfolding trim_start_0x
trim_start_0x-digits [] a = refl
trim_start_0x-digits (c ∷ []) a = refl
trim_start_0x-digits (c ∷ d ∷ s) (x, a) = rw (digit-== 120 d (inr refl) a.0) (off (c == 48))
  where
    off : (b : Bool) → (if b && false then trim_start_0x s else c ∷ d ∷ s) ≡ c ∷ d ∷ s
    off true = refl
    off false = refl

-- With a decoder that reads back what an encoder of lower case digits writes for bytes, what it
-- wrote, with `0x` in front and in quotes, reads as the hash of these bytes where there are 32, and
-- as an error of the length otherwise.
pub hash_from_hex-encode :
    {E : Type 0} (decode : Text → Result E Bytes) (invalid_string_length : E)
    (encode : Bytes → Text)
    → ((b : Bytes) → All (λ x. x < 256) b → decode (encode b) ≡ ok b)
    → ((b : Bytes) → All (λ x. x < 256) b → All IsHexDigit (encode b))
    → (b : Bytes) → All (λ x. x < 256) b
    → hash_from_hex decode invalid_string_length (34 ∷ 48 ∷ 120 ∷ (encode b ++ 34 ∷ []))
      ≡ (if length b == 32 then ok b else err invalid_string_length)
unfolding hash_from_hex vec_from_hex hash_of_vec trim_start_char trim_end_char trim_start_0x keep
hash_from_hex-encode decode invalid_string_length encode back digits b bytes =
    rw
      (
        trim_end_char-quoted (encode b) (digits b bytes),
        keep-other 34 120 (encode b) refl,
        trim_start_0x-digits (encode b) (digits b bytes),
        back b bytes,
      )
      refl

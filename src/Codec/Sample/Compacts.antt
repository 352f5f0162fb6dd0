-- ===== src/Codec/Sample/Compacts.antt =====
-- The four modes of compact integers. (The crate's decoder also refuses encodings that are longer
-- than needed.)
use native.Mathlib.Nat.{zero-add}
use substrate_api_client.Prelude.{
  ℕ, zero, suc, ◌+◌, ◌-◌, ◌*◌, ◌/◌, ◌%◌, ◌^◌, ◌≤◌, ◌<◌, ◌≡◌, [], ◌∷◌, ◌++◌, Bytes, ok, err, ◌>>=◌,
  >>=-eq-ok, arith, ltb, ltb→lt, lt→ltb, if◌then◌else◌, Bool-cases, inl, inr,
}
use substrate_api_client.Codec.{Decoder, Width, w8, w16, w32, w64, w128, bits, IsUint, Inverts}
use substrate_api_client.Codec.Sample.Integers.{le_bytes, read_le, read_le-le_bytes, checked}

-- The least number of bytes, from `k` on, that holds `n`; after `fuel` more it is not looked further.
needed : ℕ → ℕ → ℕ → ℕ
needed zero k n = k
needed (suc fuel) k n = let more = needed fuel (suc k) n in if ltb n (256 ^ k) then k else more

needed_from : (fuel k n : ℕ) → k ≤ needed fuel k n
unfolding needed
needed_from zero k n = omega arith
needed_from (suc fuel) k n = ground (arith, needed_from fuel (suc k) n)

needed_fits : (fuel k n : ℕ) → n < 256 ^ (fuel + k) → n < 256 ^ needed fuel k n
unfolding needed
needed_fits zero k n h = rw zero-add at h
needed_fits (suc fuel) k n h = elim (Bool-cases (ltb n (256 ^ k))) [
  | inl small ↦ rw small (ltb→lt _ _ small)
  | inr big ↦
      let e : suc fuel + k ≡ fuel + suc k = omega arith in
      rw big (needed_fits fuel (suc k) n (rw e at h))
]

-- The mode of numbers of 2 ^ 30 and more.
big_bytes : ℕ → Bytes
unfolding needed le_bytes
big_bytes n = let k = needed 12 4 n in (4 * (k - 4) + 3) ∷ le_bytes k n

unfoldable pub encode_compact : Width → ℕ → Bytes
unfolding big_bytes
encode_compact w n =
    if ltb n 64
    then (4 * n) ∷ []
    else if ltb n (2 ^ 14)
    then le_bytes 2 (4 * n + 1)
    else if ltb n (2 ^ 30)
    then le_bytes 4 (4 * n + 2)
    else big_bytes n

-- The number that follows a first byte `b`, by its lowest two bits.
unfoldable pub compact_mode : ℕ → ℕ → Decoder ℕ
compact_mode zero b bytes = ok (b / 4, bytes)
compact_mode (suc zero) b bytes = read_le 2 (b ∷ bytes) >>= λ p. ok (p.0 / 4, p.1)
compact_mode (suc (suc zero)) b bytes = read_le 4 (b ∷ bytes) >>= λ p. ok (p.0 / 4, p.1)
compact_mode (suc (suc (suc m))) b bytes = read_le (b / 4 + 4) bytes

unfoldable pub decode_compact : Width → Decoder ℕ
unfolding compact_mode
decode_compact w [] = err "Not enough data to fill buffer"
decode_compact w (b ∷ bytes) =
    compact_mode (b % 4) b bytes >>= λ p. checked (ltb p.0 (2 ^ bits w)) p

at_most_sixteen : (w : Width) (n : ℕ) → IsUint w n → n < 256 ^ 16
at_most_sixteen w8 n h = omega arith
at_most_sixteen w16 n h = omega arith
at_most_sixteen w32 n h = omega arith
at_most_sixteen w64 n h = omega arith
at_most_sixteen w128 n h = omega arith

module _ (n : ℕ) (rest : Bytes) where
  read_two : n < 256 ^ 2 → read_le 2 ((n % 256) ∷ (n / 256 % 256) ∷ rest) ≡ ok (n, rest)
  unfolding le_bytes
  read_two small = read_le-le_bytes 2 n rest small

  read_four :
      n < 256 ^ 4
      → read_le 4
          ((n % 256) ∷ (n / 256 % 256) ∷ (n / 256 / 256 % 256) ∷ (n / 256 / 256 / 256 % 256) ∷ rest)
        ≡ ok (n, rest)
  unfolding le_bytes
  read_four small = read_le-le_bytes 4 n rest small

module _ (w : Width) (n : ℕ) (h : IsUint w n) (rest : Bytes) where
  compact_small : n < 64 → decode_compact w (((4 * n) ∷ []) ++ rest) ≡ ok (n, rest)
  unfolding decode_compact
  compact_small small =
      let e : 4 * n % 4 ≡ 0 = omega arith in
      let d : 4 * n / 4 ≡ n = omega arith in rw (e, d, lt→ltb _ _ h)

  -- The first byte holds the mode and the other digits are read as one number with it.
  compact_two : n < 2 ^ 14 → decode_compact w (le_bytes 2 (4 * n + 1) ++ rest) ≡ ok (n, rest)
  unfolding decode_compact le_bytes
  compact_two small =
      let e : (4 * n + 1) % 256 % 4 ≡ 1 = omega arith in
      let d : (4 * n + 1) / 4 ≡ n = omega arith in
      let r = read_two (4 * n + 1) rest (omega arith) in rw (e, r, d, lt→ltb _ _ h)

  compact_four : n < 2 ^ 30 → decode_compact w (le_bytes 4 (4 * n + 2) ++ rest) ≡ ok (n, rest)
  unfolding decode_compact le_bytes
  compact_four small =
      let e : (4 * n + 2) % 256 % 4 ≡ 2 = omega arith in
      let d : (4 * n + 2) / 4 ≡ n = omega arith in
      let r = read_four (4 * n + 2) rest (omega arith) in rw (e, r, d, lt→ltb _ _ h)

  compact_big : decode_compact w (big_bytes n ++ rest) ≡ ok (n, rest)
  unfolding decode_compact big_bytes
  compact_big =
      let k = needed 12 4 n in
      let l : 4 ≤ k = needed_from 12 4 n in
      let e : (4 * (k - 4) + 3) % 4 ≡ 3 = omega arith in
      let d : (4 * (k - 4) + 3) / 4 + 4 ≡ k = omega arith in
      let f : n < 256 ^ k = needed_fits 12 4 n (at_most_sixteen w n h) in
      rw (e, d) (rw (read_le-le_bytes k n rest f) (rw (lt→ltb _ _ h)))

pub decode_compact-encode_compact :
    (w : Width) (n : ℕ) → IsUint w n → Inverts (decode_compact w) n (encode_compact w n)
unfolding encode_compact
decode_compact-encode_compact w n h rest = elim (Bool-cases (ltb n 64)) [
  | inl a ↦ rw a (compact_small w n h rest (ltb→lt _ _ a))
  | inr a ↦ rw a (elim (Bool-cases (ltb n (2 ^ 14))) [
    | inl b ↦ rw b (compact_two w n h rest (ltb→lt _ _ b))
    | inr b ↦ rw b (elim (Bool-cases (ltb n (2 ^ 30))) [
      | inl d ↦ rw d (compact_four w n h rest (ltb→lt _ _ d))
      | inr d ↦ rw d (compact_big w n h rest)
    ])
  ])
]

pub decode_compact-range :
    (w : Width) (b : Bytes) (n : ℕ) (rest : Bytes) → decode_compact w b ≡ ok (n, rest) → IsUint w n
unfolding decode_compact
decode_compact-range w [] n rest h = cc
decode_compact-range w (b ∷ bytes) n rest h =
    let (p, q, r) = >>=-eq-ok (compact_mode (b % 4) b bytes) _ h in
    let e : p.0 ≡ n = ground (arith, r) in rw (← e) (ltb→lt _ _ (ground (arith, r)))

-- ===== src/Primitives/Extrinsic.antt =====
-- primitives/src/extrinsics.rs: the encoding of `UncheckedExtrinsicV4`. Addresses, signatures,
-- extras and calls have their own codecs, which are parameters.
use substrate_api_client.Prelude.{
  ℕ, zero, suc, ◌+◌, ◌-◌, ◌%◌, ◌≡◌, ◌≢◌, refl, Bool, true, false, not, Option, none, some, List, [],
  ◌∷◌, ◌++◌, append_assoc,
}
use substrate_api_client.Prelude.{
  Bytes, length, drop, ok, err, ◌>>=◌, if◌then◌else◌, leb, ◌==◌, arith,
}
use substrate_api_client.Codec.{Codec, Decoder, Inverts, IsLawful, IsUint, w32}

-- A type with its `Encode` and `Decode`.
pub record Coded (A : Type 0) : Type 0 where
  pub encode : A → Bytes
  pub decode : Decoder A

-- What the value's encoding decodes to is the value.
abbrev pub InvertsAt : {A : Type 0} → Coded A → A → Type 0
InvertsAt k a = Inverts k.decode a (k.encode a)

-- The signature is an address, a signature and the signed extra.
pub record UncheckedExtrinsicV4 (Address Signature Extra Call : Type 0) : Type 0 where
  pub signature : Option (Address × Signature × Extra)
  pub function : Call

abbrev pub zeros : ℕ → Bytes
zeros zero = []
zeros (suc n) = 0 ∷ zeros n

-- The bytes reserved for the length, by the size of the type in memory.
unfoldable pub reserved : ℕ → ℕ
reserved size = if leb size 63 then 1 else if leb size 16383 then 2 else 4

module _ {Address Signature Extra Call : Type 0} where
  unfoldable pub new_signed :
      Call → Address → Signature → Extra → UncheckedExtrinsicV4 Address Signature Extra Call
  new_signed function signed signature extra = record {
    signature = some (signed, signature, extra);
    function = function;
  }

module _ (c : Codec) where
  -- The encoder's bytes behind the reserved ones, which the encoded length of `Vec<()>` replaces.
  unfoldable pub encode_with_vec_prefix : ℕ → Bytes → Bytes
  unfolding reserved
  encode_with_vec_prefix size encoded =
      let reserve = reserved size in
      let v = zeros reserve ++ encoded in
      c.encode_compact w32 (length v - reserve) ++ drop reserve v

  -- Reserving makes no difference to the result.
  encode_with_vec_prefix_lem :
      (size : ℕ) (encoded : Bytes)
      → encode_with_vec_prefix size encoded ≡ c.encode_compact w32 (length encoded) ++ encoded
  unfolding encode_with_vec_prefix
  encode_with_vec_prefix_lem size encoded = go (reserved size)
    where
      length_zeros : (n : ℕ) → length (zeros n ++ encoded) ≡ n + length encoded
      length_zeros zero = omega arith
      length_zeros (suc n) = omega (arith, length_zeros n)

      drop_zeros : (n : ℕ) → drop n (zeros n ++ encoded) ≡ encoded
      drop_zeros zero = refl
      drop_zeros (suc n) = drop_zeros n

      go :
          (n : ℕ)
          → c.encode_compact w32 (length (zeros n ++ encoded) - n) ++ drop n (zeros n ++ encoded)
            ≡ c.encode_compact w32 (length encoded) ++ encoded
      go n =
          let e : length (zeros n ++ encoded) - n ≡ length encoded =
            omega (arith, length_zeros n) in
          rw (e, drop_zeros n)

module _ (c : Codec) {Address Signature Extra Call : Type 0} (address : Coded Address)
    (sig : Coded Signature) (extra : Coded Extra) (call : Coded Call) (size : ℕ) where
  abbrev pub Extrinsic : Type 0
  Extrinsic = UncheckedExtrinsicV4 Address Signature Extra Call

  unfoldable pub body : Extrinsic → Bytes
  body x = elim x.signature [
    | some s ↦
        (132 ∷ (address.encode s.0 ++ (sig.encode s.1 ++ extra.encode s.2)))
        ++ call.encode x.function
    | none ↦ 4 ∷ call.encode x.function
  ]

  unfoldable pub encode : Extrinsic → Bytes
  unfolding encode_with_vec_prefix body
  encode x = encode_with_vec_prefix c size (body x)

  -- As text, by character; `encode_hex` is `hex::encode`.
  unfoldable pub hex_encode : (Bytes → List ℕ) → Extrinsic → List ℕ
  unfolding encode
  hex_encode encode_hex x = 48 ∷ 120 ∷ encode_hex (encode x)

  unfoldable pub decode_signature : Decoder (Address × Signature × Extra)
  decode_signature input = do
    (a, input₁) ← address.decode input
    (s, input₂) ← sig.decode input₁
    (e, input₃) ← extra.decode input₂
    ok ((a, s, e), input₃)

  unfoldable pub decode_rest : Bool → Decoder Extrinsic
  unfolding decode_signature
  decode_rest true input = do
    (s, input₁) ← decode_signature input
    (f, input₂) ← call.decode input₁
    ok (record { signature = some s; function = f }, input₂)
  decode_rest false input = do
    (f, input₁) ← call.decode input
    ok (record { signature = none; function = f }, input₁)

  -- The length in front is read and not used; `version & 0x80` and `version & 0x7f` of a byte.
  unfoldable pub read_version : Decoder Extrinsic
  unfolding decode_rest
  read_version [] = err "Not enough data to fill buffer"
  read_version (version ∷ input) =
      if not (version % 128 == 4)
      then err "Invalid transaction version"
      else decode_rest (leb 128 version) input

  unfoldable pub decode : Decoder Extrinsic
  unfolding read_version
  decode input = c.decode_compact w32 input >>= λ p. read_version p.1

  abbrev pub InvertsSignature : Option (Address × Signature × Extra) → Type 0
  InvertsSignature none = Unit
  InvertsSignature (some (a, s, e)) = InvertsAt address a × InvertsAt sig s × InvertsAt extra e

  -- The parts' encodings decode to the parts.
  abbrev pub InvertsParts : Extrinsic → Type 0
  InvertsParts x = InvertsSignature x.signature × InvertsAt call x.function

  module _ (l : IsLawful c) where
    read_version-body : (x : Extrinsic) → InvertsParts x → Inverts read_version x (body x)
    unfolding read_version body decode_rest decode_signature
    read_version-body x (i, ic) rest = go x.signature i
      where
        go :
            (s : Option (Address × Signature × Extra))
            → InvertsSignature s
            → read_version (body (record { signature = s; function = x.function }) ++ rest)
              ≡ ok (record { signature = s; function = x.function }, rest)
        go none i = rw (ic rest)
        go (some (a, s, e)) (ia, is, ie) =
            let flat =
              append_assoc (address.encode a ++ (sig.encode s ++ extra.encode e))
                (call.encode x.function) rest in
            let flat₂ =
              append_assoc (address.encode a) (sig.encode s ++ extra.encode e)
                (call.encode x.function ++ rest) in
            let flat₃ =
              append_assoc (sig.encode s) (extra.encode e) (call.encode x.function ++ rest) in
            rw (flat, flat₂, flat₃)
              (rw (ia (sig.encode s ++ (extra.encode e ++ (call.encode x.function ++ rest)))) (
                rw (is (extra.encode e ++ (call.encode x.function ++ rest)))
                  (rw (ie (call.encode x.function ++ rest)) (rw (ic rest)))))

    -- When the encodings of an extrinsic's parts decode to the parts and the encoded extrinsic is
    -- shorter than 2 ^ 32 bytes, decoding it with any bytes behind it returns the extrinsic and
    -- those bytes.
    pub decode-encode :
        (x : Extrinsic)
        → InvertsParts x
        → IsUint w32 (length (body x))
        → Inverts decode x (encode x)
    unfolding decode encode
    decode-encode x i h rest =
        rw
          (
            encode_with_vec_prefix_lem c size (body x),
            append_assoc (c.encode_compact w32 (length (body x))) (body x) rest,
          )
          (rw (l.compact w32 (length (body x)) h (body x ++ rest)) (read_version-body x i rest))

  -- An extrinsic of another version is refused, whatever follows the version byte.
  pub decode-other_version :
      IsLawful c
      → (n version : ℕ) (input : Bytes) → IsUint w32 n
      → version % 128 ≢ 4
      → decode (c.encode_compact w32 n ++ (version ∷ input)) ≡ err "Invalid transaction version"
  unfolding decode read_version
  decode-other_version l n version input h ne =
      let f : (version % 128 == 4) ≡ false = ground arith in
      rw (l.compact w32 n h (version ∷ input)) (rw f)

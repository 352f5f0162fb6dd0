-- ===== src/Tests/Calls.antt =====
-- Composing, encoding and watching extrinsics, and fees.
use substrate_api_client.Prelude.{
  ℕ, ◌<◌, ◌^◌, length, ◌≡◌, ◌↔◌, refl, String, Bool, true, false, ◌==◌, ◌&&◌, ==_refl, none, some,
  List, [], ◌∷◌, ◌++◌, Bytes, Result, ok, err, leb, if◌then◌else◌, arith,
}
use substrate_api_client.Codec.{Inverts, w32}
use substrate_api_client.Codec.Sample.Instance.{sample_codec, sample_codec-IsLawful}
use substrate_api_client.Primitives.Extrinsic.{
  UncheckedExtrinsicV4, Coded, body, encode, decode, decode-encode, decode-other_version,
}
use substrate_api_client.Primitives.Params.{
  Api, Signing, Composed, SubstrateDefaultSignedExtra, compose_call, compose_extrinsic,
  default_builder, immortal,
}
use substrate_api_client.Primitives.Verifies.{StandsFor, node_message, compose_extrinsic-verifies}
use substrate_api_client.Primitives.Fees.{FeeDetails, final_fee, total, final_fee-total}
use substrate_api_client.Client.Status.{XtStatus, TransactionStatus}
use substrate_api_client.Client.Error.{ApiError}
use substrate_api_client.Client.Watch.{watch, Watched, watch_iff}
use substrate_api_client.Node.Maps.{text}
use substrate_api_client.Tests.Sample.{metadata}

abbrev flag : Coded Bool
flag = record { encode = sample_codec.encode_bool; decode = sample_codec.decode_bool }

abbrev extrinsic : UncheckedExtrinsicV4 Bool Bool Bool Bool
extrinsic = record { signature = some (true, false, true); function = false }

extrinsic_is_short : length (body sample_codec flag flag flag flag 100 extrinsic) < 2 ^ 32
unfolding body sample_codec
extrinsic_is_short = omega arith

decode-encode_example :
    Inverts
      (decode sample_codec flag flag flag flag 100)
      extrinsic
      (encode sample_codec flag flag flag flag 100 extrinsic)
decode-encode_example =
    decode-encode sample_codec flag flag flag flag 100 sample_codec-IsLawful extrinsic
      (
        (
          sample_codec-IsLawful.bool true,
          sample_codec-IsLawful.bool false,
          sample_codec-IsLawful.bool true,
        ),
        sample_codec-IsLawful.bool false,
      )
      extrinsic_is_short

version_3_refused :
    decode sample_codec flag flag flag flag 100
      (sample_codec.encode_compact w32 2 ++ (131 ∷ 1 ∷ []))
    ≡ err "Invalid transaction version"
version_3_refused =
    decode-other_version sample_codec flag flag flag flag 100 sample_codec-IsLawful 2 131 (1 ∷ [])
      (omega arith) (omega arith)

abbrev fees : FeeDetails ℕ
fees = record {
  inclusion_fee = some (record { base_fee = 10; len_fee = 20; adjusted_weight_fee = 30 });
  tip = 5;
}

fee_is_capped : final_fee 1000 fees ≡ (if leb (total 1000 fees) 1000 then total 1000 fees else 1000)
fee_is_capped = final_fee-total 1000 fees

abbrev api : Api ℕ ℕ ℕ
api = record {
  signer = some 4;
  genesis_hash = 11;
  metadata = metadata;
  spec_version = 1;
  transaction_version = 2;
  extrinsic_params_builder = none;
}

-- Signing keeps the signer and what is signed.
abbrev signing : Signing ℕ ℕ (ℕ × Bytes) ℕ ℕ ℕ
signing = record {
  sign = λ s b. (s, b);
  account = λ s. s;
  encode_extra = λ e. e.nonce ∷ e.tip ∷ [];
  encode_additional =
      λ a. a.spec_version ∷ a.transaction_version ∷ a.genesis_hash ∷ a.mortality_checkpoint ∷ [];
  blake2_256 = λ b. [];
}

abbrev bytes_eq : Bytes → Bytes → Bool
bytes_eq [] [] = true
bytes_eq (x ∷ a) (y ∷ b) = x == y && bytes_eq a b
bytes_eq _ _ = false

abbrev signed_by : ℕ → Bytes → ℕ × Bytes → Bool
signed_by a b s = a == s.0 && bytes_eq b s.1

bytes_eq_refl : (b : Bytes) → bytes_eq b b ≡ true
bytes_eq_refl [] = refl
bytes_eq_refl (x ∷ b) = rw (==_refl x, bytes_eq_refl b)

signs : (s : ℕ) (b : Bytes) → signed_by s b (s, b) ≡ true
signs s b = rw (==_refl s, bytes_eq_refl b)

call_composed :
    compose_call {E = String} metadata "Balances" "transfer" (9 ∷ []) ≡ ok (5 ∷ 7 ∷ 9 ∷ [])
unfolding compose_call text
call_composed = refl

compose_extrinsic-verifies_example :
    (x : Composed signing) × (σ : ℕ × Bytes) × (extra : SubstrateDefaultSignedExtra ℕ ℕ)
    × (signed : Bytes) × (compose_extrinsic signing {E = String} 0 api
          (ok 6)
          "Balances"
          "transfer"
          (9 ∷ [])
        ≡ ok x)
    × (x.signature ≡ some (4, σ, extra))
    × (x.function ≡ 5 ∷ 7 ∷ 9 ∷ [])
    × (extra.nonce ≡ 6)
    × (extra.era ≡ immortal)
    × (extra.tip ≡ 0)
    × StandsFor signing signed (node_message signing (5 ∷ 7 ∷ 9 ∷ []) extra 1 2 11)
    × (signed_by 4 signed σ ≡ true)
unfolding default_builder
compose_extrinsic-verifies_example =
    compose_extrinsic-verifies signing {E = String} signed_by (λ s b. signs s b) 0 api 4 6
      "Balances" "transfer" (9 ∷ []) (5 ∷ 7 ∷ 9 ∷ []) refl call_composed refl

abbrev updates : List (Result ApiError (TransactionStatus ℕ ℕ))
updates =
    ok TransactionStatus.ready
    ∷ ok (TransactionStatus.in_block 8)
    ∷ ok (TransactionStatus.finalized 8)
    ∷ []

watch_iff_example :
    (watch (λ s. "status") (ok tt) XtStatus.finalized updates ≡ ok (some 8))
    ↔ Watched (λ s. "status") (ok tt) XtStatus.finalized updates (some 8)
watch_iff_example = watch_iff (λ s. "status") (ok tt) XtStatus.finalized refl updates (some 8)

-- Watching until a block has the transaction goes on behind the block.
watch_in_block :
    watch {Hash = ℕ} {BlockHash = ℕ}
      (λ s. "status")
      (ok tt)
      XtStatus.in_block
      (ok (TransactionStatus.in_block 8) ∷ [])
    ≡ err ApiError.no_stream
unfolding watch
watch_in_block = refl

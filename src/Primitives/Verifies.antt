-- ===== src/Primitives/Verifies.antt =====
-- primitives/src/extrinsic_params.rs and compose-macros/src/lib.rs: the signature of a composed
-- extrinsic, against what a node checks it with.
use substrate_api_client.Prelude.{
  ℕ, ◌≡◌, ◌≤◌, ◌<◌, ◌⊎◌, inl, inr, refl, String, Bool, true, false, Bool-cases, none, some, ◌++◌,
  Bytes, length, ok, ltb, arith,
}
use substrate_api_client.Primitives.Extrinsic.{new_signed}
use substrate_api_client.Primitives.Params.{
  Api, Signing, Composed, SubstrateDefaultSignedExtra, default_builder, new_params, signed_extra,
  additional_signed, extrinsic_params, compose_call, using_encoded, payload,
  compose_extrinsic_offline, compose_extrinsic,
}
use mathlib.Core.Option.{get_or}

module _ {Signer Account Signature Tip Index Hash : Type 0}
    (k : Signing Signer Account Signature Tip Index Hash) where
  -- What is signed for a message: the message, or its hash where it has more than 256 bytes.
  abbrev pub StandsFor : Bytes → Bytes → Type 0
  StandsFor b message =
      ((length message ≤ 256) × (b ≡ message))
      ⊎ ((256 < length message) × (b ≡ k.blake2_256 message))

  -- The message that a node makes for an extrinsic from the call, the extra that comes with it, its
  -- own versions and its genesis hash, twice where that is the checkpoint.
  abbrev pub node_message : Bytes → SubstrateDefaultSignedExtra Tip Index → ℕ → ℕ → Hash → Bytes
  node_message call extra spec_version transaction_version genesis_hash =
      call
      ++ (k.encode_extra extra
          ++ k.encode_additional (record {
            spec_version = spec_version;
            transaction_version = transaction_version;
            genesis_hash = genesis_hash;
            mortality_checkpoint = genesis_hash;
          }))

  using_encoded-StandsFor : (message : Bytes) → StandsFor (using_encoded k message) message
  unfolding using_encoded
  using_encoded-StandsFor message = elim (Bool-cases (ltb 256 (length message))) [
    | inl t ↦ rw t (inr (over (length message) t, refl))
    | inr f ↦ rw f (inl (within (length message) f, refl))
  ]
    where
      over : (n : ℕ) → ltb 256 n ≡ true → 256 < n
      over n h = ground arith

      within : (n : ℕ) → ltb 256 n ≡ false → n ≤ 256
      within n h = ground arith

  -- When signatures verify for the account that signed, on what it signed, the extrinsic
  -- composed by an `Api` with a signer carries the call, the nonce of the node, the era and the tip
  -- of the params builder, and a signature that verifies against what a node with the same versions
  -- and genesis hash takes it to be on: the call, this extra, the versions and the genesis hash, or
  -- the hash of these where they have more than 256 bytes. The `Api` has no params builder or one
  -- without a checkpoint: then the genesis hash is the checkpoint.
  pub compose_extrinsic-verifies :
      {E : Type 0} (verify : Account → Bytes → Signature → Bool)
      → ((s : Signer) (b : Bytes) → verify (k.account s) b (k.sign s b) ≡ true)
      → (default_tip : Tip) (api : Api Signer Tip Hash) (s : Signer) (n : Index)
        (pallet call_name : String) (args call : Bytes)
      → api.signer ≡ some s
      → compose_call {E = E} api.metadata pallet call_name args ≡ ok call
      → (get_or api.extrinsic_params_builder
          (default_builder Hash default_tip)).mortality_checkpoint
        ≡ none
      → (x : Composed k) × (σ : Signature) × (extra : SubstrateDefaultSignedExtra Tip Index)
        × (signed : Bytes) × (compose_extrinsic k {E = E} default_tip api
              (ok n)
              pallet
              call_name
              args
            ≡ ok x)
        × (x.signature ≡ some (k.account s, σ, extra))
        × (x.function ≡ call)
        × (extra.nonce ≡ n)
        × (extra.era ≡ (get_or api.extrinsic_params_builder (default_builder Hash default_tip)).era)
        × (extra.tip ≡ (get_or api.extrinsic_params_builder (default_builder Hash default_tip)).tip)
        × StandsFor signed
            (node_message call extra api.spec_version api.transaction_version api.genesis_hash)
        × (verify (k.account s) signed σ ≡ true)
  unfolding compose_extrinsic compose_extrinsic_offline extrinsic_params new_params default_builder
      signed_extra additional_signed new_signed payload
  compose_extrinsic-verifies verify law default_tip api s n pallet call_name args call hs hc hb =
      let b = get_or api.extrinsic_params_builder (default_builder Hash default_tip) in
      let extra : SubstrateDefaultSignedExtra Tip Index = record {
        era = b.era;
        nonce = n;
        tip = b.tip;
      } in
      let message =
        node_message call extra api.spec_version api.transaction_version api.genesis_hash in
      let σ = k.sign s (using_encoded k message) in
      let x : Composed k = record { signature = some (k.account s, σ, extra); function = call } in
      (
        x,
        σ,
        extra,
        using_encoded k message,
        rw (hc, compose_extrinsic) (rw (hs, hb)),
        refl,
        refl,
        refl,
        refl,
        refl,
        using_encoded-StandsFor message,
        law s _,
      )

-- ===== src/Client/Extrinsics/Utility.antt =====
-- src/src/extrinsic/utility.rs: calls of pallet-utility. A vector of calls is encoded by a parameter.
use substrate_api_client.Prelude.{List, Bytes, Result}
use substrate_api_client.Primitives.Params.{Composed}
use substrate_api_client.Client.Extrinsics.Common.{Encodings, Composer, composed, encode_batch}

module _
    {Signer Account Signature Tip Index H E Address Balance AccountId Hash Destination : Type 0}
    (self : Composer Signer Account Signature Tip Index H E)
    (enc : Encodings Address Balance AccountId Hash Destination) where
  unfoldable pub batch :
      {Call : Type 0} → (List Call → Bytes) → List Call → Result E (Composed self.signing)
  unfolding composed encode_batch
  batch calls_of calls =
      composed self "Utility" "batch" (encode_batch calls_of (record { calls = calls }))

  unfoldable pub force_batch :
      {Call : Type 0} → (List Call → Bytes) → List Call → Result E (Composed self.signing)
  unfolding composed encode_batch
  force_batch calls_of calls =
      composed self "Utility" "force_batch" (encode_batch calls_of (record { calls = calls }))

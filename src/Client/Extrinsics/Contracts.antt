-- ===== src/Client/Extrinsics/Contracts.antt =====
-- src/src/extrinsic/contracts.rs: calls of pallet-contracts.
use substrate_api_client.Prelude.{ℕ, Bytes, Result, ◌++◌}
use substrate_api_client.Primitives.Params.{Composed}
use substrate_api_client.Client.Extrinsics.Common.{Encodings, Composer, composed}

module _
    {Signer Account Signature Tip Index H E Address Balance AccountId Hash Destination : Type 0}
    (self : Composer Signer Account Signature Tip Index H E)
    (enc : Encodings Address Balance AccountId Hash Destination) where
  unfoldable pub contract_put_code : ℕ → Bytes → Result E (Composed self.signing)
  unfolding composed
  contract_put_code gas_limit code =
      composed self "Contracts" "put_code" (enc.compact_gas gas_limit ++ enc.vec_u8 code)

  unfoldable pub contract_instantiate :
      Balance → ℕ → Hash → Bytes → Result E (Composed self.signing)
  unfolding composed
  contract_instantiate endowment gas_limit code_hash input =
      composed self "Contracts" "instantiate" (
        enc.compact_balance endowment
        ++ (enc.compact_gas gas_limit ++ (enc.hash code_hash ++ enc.vec_u8 input)))

  unfoldable pub contract_instantiate_with_code :
      Balance → ℕ → Bytes → Bytes → Bytes → Result E (Composed self.signing)
  unfolding composed
  contract_instantiate_with_code endowment gas_limit code input salt =
      composed self "Contracts" "instantiate_with_code" (
        enc.compact_balance endowment
        ++ (enc.compact_gas gas_limit
            ++ (enc.vec_u8 code ++ (enc.vec_u8 input ++ enc.vec_u8 salt))))

  unfoldable pub contract_call : Address → Balance → ℕ → Bytes → Result E (Composed self.signing)
  unfolding composed
  contract_call dest value gas_limit input = composed self "Contracts" "call" (
      enc.address dest
      ++ (enc.compact_balance value ++ (enc.compact_gas gas_limit ++ enc.vec_u8 input)))

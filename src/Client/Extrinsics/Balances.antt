-- ===== src/Client/Extrinsics/Balances.antt =====
-- src/src/extrinsic/balances.rs: calls of pallet-balances.
use substrate_api_client.Prelude.{Result, ◌++◌}
use substrate_api_client.Primitives.Params.{Composed}
use substrate_api_client.Client.Extrinsics.Common.{Encodings, Composer, composed}

module _
    {Signer Account Signature Tip Index H E Address Balance AccountId Hash Destination : Type 0}
    (self : Composer Signer Account Signature Tip Index H E)
    (enc : Encodings Address Balance AccountId Hash Destination) where
  unfoldable pub balance_transfer : Address → Balance → Result E (Composed self.signing)
  unfolding composed
  balance_transfer to amount =
      composed self "Balances" "transfer" (enc.address to ++ enc.compact_balance amount)

  unfoldable pub balance_set_balance :
      Address → Balance → Balance → Result E (Composed self.signing)
  unfolding composed
  balance_set_balance who free_balance reserved_balance = composed self "Balances" "set_balance" (
      enc.address who ++ (enc.compact_balance free_balance ++ enc.compact_balance reserved_balance))

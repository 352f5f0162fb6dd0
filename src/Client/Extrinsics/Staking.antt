-- ===== src/Client/Extrinsics/Staking.antt =====
-- src/src/extrinsic/staking.rs: calls of pallet-staking.
use substrate_api_client.Prelude.{ℕ, List, [], Result, ◌++◌}
use substrate_api_client.Primitives.Params.{Composed}
use substrate_api_client.Client.Extrinsics.Common.{
  Encodings, Composer, composed, encode_payout_stakers, encode_force_era,
}

module _
    {Signer Account Signature Tip Index H E Address Balance AccountId Hash Destination : Type 0}
    (self : Composer Signer Account Signature Tip Index H E)
    (enc : Encodings Address Balance AccountId Hash Destination) where
  unfoldable pub staking_bond : Address → Balance → Destination → Result E (Composed self.signing)
  unfolding composed
  staking_bond controller value payee =
      composed self "Staking" "bond"
        (enc.address controller ++ (enc.compact_balance value ++ enc.reward_destination payee))

  unfoldable pub staking_bond_extra : Balance → Result E (Composed self.signing)
  unfolding composed
  staking_bond_extra value = composed self "Staking" "bond_extra" (enc.compact_balance value)

  unfoldable pub staking_unbond : Balance → Result E (Composed self.signing)
  unfolding composed
  staking_unbond value = composed self "Staking" "unbond" (enc.compact_balance value)

  unfoldable pub staking_rebond : Balance → Result E (Composed self.signing)
  unfolding composed
  staking_rebond value = composed self "Staking" "rebond" (enc.compact_balance value)

  unfoldable pub staking_withdraw_unbonded : ℕ → Result E (Composed self.signing)
  unfolding composed
  staking_withdraw_unbonded num_slashing_spans =
      composed self "Staking" "withdraw_unbonded" (enc.u32 num_slashing_spans)

  unfoldable pub staking_nominate : List Address → Result E (Composed self.signing)
  unfolding composed
  staking_nominate targets = composed self "Staking" "nominate" (enc.addresses targets)

  unfoldable pub staking_chill : Result E (Composed self.signing)
  unfolding composed
  staking_chill = composed self "Staking" "chill" ([])

  unfoldable pub staking_set_controller : Address → Result E (Composed self.signing)
  unfolding composed
  staking_set_controller controller =
      composed self "Staking" "set_controller" (enc.address controller)

  unfoldable pub payout_stakers : ℕ → AccountId → Result E (Composed self.signing)
  unfolding composed encode_payout_stakers
  payout_stakers era account =
      composed self "Staking" "payout_stakers"
        (encode_payout_stakers enc (record { validator_stash = account; era = era }))

  unfoldable pub force_new_era : Result E (Composed self.signing)
  unfolding composed encode_force_era
  force_new_era = composed self "Staking" "force_new_era" (encode_force_era (record {}))

  unfoldable pub force_new_era_always : Result E (Composed self.signing)
  unfolding composed encode_force_era
  force_new_era_always =
      composed self "Staking" "force_new_era_always" (encode_force_era (record {}))

  unfoldable pub force_no_era : Result E (Composed self.signing)
  unfolding composed encode_force_era
  force_no_era = composed self "Staking" "force_no_era" (encode_force_era (record {}))

  unfoldable pub set_payee : Address → Result E (Composed self.signing)
  unfolding composed
  set_payee payee = composed self "Staking" "set_payee" (enc.address payee)

  unfoldable pub set_validator_count : ℕ → Result E (Composed self.signing)
  unfolding composed
  set_validator_count count = composed self "Staking" "set_validator_count" (enc.u32 count)

-- ===== src/Client/Extrinsics/Common.antt =====
-- src/src/extrinsic/common.rs, and what all builders of extrinsics share. A derived `Encode` writes
-- the fields one after the other, and a tuple its parts.
use substrate_api_client.Prelude.{ℕ, String, List, [], ◌++◌, Bytes, Result}
use substrate_api_client.Primitives.Params.{Api, Signing, Composed, compose_extrinsic}

-- The encodings of parity-scale-codec, sp_runtime and sp_core for the types of arguments.
pub record Encodings (Address Balance AccountId Hash Destination : Type 0) : Type 0 where
  pub address : Address → Bytes
  pub addresses : List Address → Bytes
  pub compact_balance : Balance → Bytes
  pub compact_gas : ℕ → Bytes
  pub u32 : ℕ → Bytes
  pub account_id : AccountId → Bytes
  pub hash : Hash → Bytes
  pub reward_destination : Destination → Bytes
  pub vec_u8 : Bytes → Bytes

pub record PayoutStakers (AccountId : Type 0) : Type 0 where
  pub validator_stash : AccountId
  pub era : ℕ

pub record ForceEra : Type 0 where

pub record Batch (Call : Type 0) : Type 0 where
  pub calls : List Call

module _ {Address Balance AccountId Hash Destination : Type 0}
    (e : Encodings Address Balance AccountId Hash Destination) where
  unfoldable pub encode_payout_stakers : PayoutStakers AccountId → Bytes
  encode_payout_stakers p = e.account_id p.validator_stash ++ e.u32 p.era

unfoldable pub encode_force_era : ForceEra → Bytes
encode_force_era f = []

-- `calls_of` is the encoding of a vector of calls.
unfoldable pub encode_batch : {Call : Type 0} → (List Call → Bytes) → Batch Call → Bytes
encode_batch calls_of b = calls_of b.calls

-- What a builder composes its extrinsic with: the signing, the `Api` and the nonce of the node.
pub record Composer (Signer Account Signature Tip Index Hash E : Type 0) : Type 0 where
  pub signing : Signing Signer Account Signature Tip Index Hash
  pub default_tip : Tip
  pub api : Api Signer Tip Hash
  pub nonce : Result E Index

-- `compose_extrinsic!(self, pallet, call, args…)`
unfoldable pub composed :
    {Signer Account Signature Tip Index Hash E : Type 0}
    (c : Composer Signer Account Signature Tip Index Hash E)
    → String
    → String
    → Bytes
    → Result E (Composed c.signing)
unfolding compose_extrinsic
composed c pallet call args =
    compose_extrinsic c.signing c.default_tip c.api c.nonce pallet call args

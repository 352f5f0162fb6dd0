-- ===== src/Tests/Runtime.antt =====
-- A node asked for its runtime, its blocks and its fees.
use substrate_api_client.Prelude.{
  ℕ, zero, suc, ◌+◌, ◌≡◌, ◌↔◌, ◌⊎◌, refl, String, Option, none, some, List, [], ◌∷◌, Result, ok,
  err, if◌then◌else◌, ltb,
}
use substrate_api_client.Node.Maps.{text}
use substrate_api_client.Node.Runtime.{v14, meta_reserved}
use substrate_api_client.Node.Metadata.Collect.{try_from}
use substrate_api_client.Primitives.Params.{Api}
use substrate_api_client.Primitives.Fees.{FeeDetails}
use substrate_api_client.Rpc.Action.{Request, over}
use substrate_api_client.Client.Runtime.{
  RuntimeFormats, get_genesis_hash, new, new_offline, update_runtime,
}
use substrate_api_client.Client.Updates.{
  IsUpdated, update_runtime-all_or_nothing, update_runtime-new,
}
use substrate_api_client.Client.Payment.{
  convert_fee_details, ConvertsInclusion, convert_fee_details_iff,
}
use substrate_api_client.Client.Chain.{SignedBlock, ChainFormats, ChainState}
use substrate_api_client.Tests.Sample.{runtime, metadata}

-- Every answer is the number of requests so far.
abbrev counting : Request ℕ ℕ
counting = over (λ method params n. (ok n, n + 1))

abbrev formats : RuntimeFormats ℕ ℕ
formats = record {
  number = λ n. 0;
  to_hash = λ j. ok (some j);
  to_version = λ j. ok (record { spec_version = j; transaction_version = 3 });
  to_bytes = λ j. ok [];
  decode_metadata = λ b. ok ((meta_reserved, v14 runtime), b);
}

abbrev api : Api ℕ ℕ ℕ
api = record {
  signer = some 7;
  genesis_hash = 11;
  metadata = metadata;
  spec_version = 1;
  transaction_version = 2;
  extrinsic_params_builder = none;
}

abbrev renewed : Api ℕ ℕ ℕ
renewed = record api { metadata = metadata; spec_version = 5; transaction_version = 3 }

update_runtime-all_or_nothing_example :
    ((update_runtime counting formats api 4 ≡ (ok tt, (renewed, 6)))
      ↔ IsUpdated counting formats api 4 renewed 6)
    × (((update_runtime counting formats api 4).0 ≡ ok tt)
        ⊎ ((update_runtime counting formats api 4).1.0 ≡ api))
update_runtime-all_or_nothing_example =
    update_runtime-all_or_nothing counting formats api 4 renewed 6

renewed_api : update_runtime counting formats api 4 ≡ (ok tt, (renewed, 6))
unfolding update_runtime text try_from
renewed_api = refl

abbrev fresh : Api ℕ ℕ ℕ
fresh = record {
  signer = none;
  genesis_hash = 4;
  metadata = metadata;
  spec_version = 6;
  transaction_version = 3;
  extrinsic_params_builder = none;
}

made : new counting formats 4 ≡ (ok fresh, 7)
unfolding new text try_from
made = refl

update_runtime-new_example :
    (g : ℕ) × (t : ℕ) × (get_genesis_hash counting formats 4 ≡ (ok g, t))
    × (update_runtime counting formats api t ≡ (
      ok tt,
      (record api { metadata = metadata; spec_version = 6; transaction_version = 3 }, 7),
    ))
    × (fresh ≡ new_offline g metadata (record { spec_version = 6; transaction_version = 3 }))
update_runtime-new_example = update_runtime-new counting formats api 4 fresh 7 made

abbrev up_to_100 : ℕ → Option ℕ
up_to_100 n = if ltb n 100 then some n else none

abbrev details : FeeDetails ℕ
details = record {
  inclusion_fee = some (record { base_fee = 1; len_fee = 2; adjusted_weight_fee = 3 });
  tip = 4;
}

convert_fee_details_iff_example : (convert_fee_details up_to_100 details ≡ ok details) ↔ (
    ConvertsInclusion up_to_100 details.inclusion_fee details.inclusion_fee
    × (up_to_100 4 ≡ some 4))
convert_fee_details_iff_example = convert_fee_details_iff up_to_100 details details

-- Answers of a node with blocks: the position of the question in the parameters.
data Answer : Type 0 where
  number : Option ℕ → Answer
  hash : Option ℕ → Answer
  block : Option (SignedBlock ℕ Unit) → Answer
  nothing : Answer

abbrev answered : ChainState ℕ ℕ ℕ Unit → List Answer → Answer
answered s (number n ∷ ps) = hash (s.hash_of n)
answered s (hash h ∷ ps) = block (s.block_of h)
answered s _ = nothing

abbrev chain_node : Request Answer (ChainState ℕ ℕ ℕ Unit)
chain_node = over (λ method params s. (ok (answered s params), s))

abbrev as_hash : Answer → Result String (Option ℕ)
as_hash (hash h) = ok h
as_hash _ = err "no hash"

abbrev as_block : Answer → Result String (Option (SignedBlock ℕ Unit))
as_block (block b) = ok b
as_block _ = err "no block"

abbrev as_header : Answer → Result String (Option ℕ)
as_header _ = err "no header"

abbrev chain_formats : ChainFormats Answer ℕ ℕ ℕ ℕ Unit
chain_formats = record {
  number = number;
  hash = hash;
  to_hash = as_hash;
  to_header = as_header;
  to_block = as_block;
}

abbrev hash_of : Option ℕ → Option ℕ
hash_of none = some 9
hash_of (some zero) = some 8
hash_of (some (suc n)) = none

abbrev block_of : Option ℕ → Option (SignedBlock ℕ Unit)
block_of none = some (record { block = 90; justifications = none })
block_of (some h) = some (record { block = 10 + h; justifications = none })

abbrev chain : ChainState ℕ ℕ ℕ Unit
chain = record { hash_of = hash_of; block_of = block_of }

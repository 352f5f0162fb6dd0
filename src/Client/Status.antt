-- ===== src/Client/Status.antt =====
-- src/src/api/mod.rs: the status of a transaction, and until which one to watch it.
use substrate_api_client.Prelude.{ℕ, String, List, Bool, true, false, Option, none, some}

pub data XtStatus : Type 0 where
  ready broadcast in_block finalized : XtStatus

-- `watch_until as u8`
unfoldable pub status_number : XtStatus → ℕ
status_number ready = 1
status_number broadcast = 2
status_number in_block = 4
status_number finalized = 6

pub data TransactionStatus (Hash BlockHash : Type 0) : Type 0 where
  future : TransactionStatus Hash BlockHash
  ready : TransactionStatus Hash BlockHash
  broadcast : List String → TransactionStatus Hash BlockHash
  in_block : BlockHash → TransactionStatus Hash BlockHash
  retracted : BlockHash → TransactionStatus Hash BlockHash
  finality_timeout : BlockHash → TransactionStatus Hash BlockHash
  finalized : BlockHash → TransactionStatus Hash BlockHash
  usurped : Hash → TransactionStatus Hash BlockHash
  dropped : TransactionStatus Hash BlockHash
  invalid : TransactionStatus Hash BlockHash

module _ {Hash BlockHash : Type 0} where
  unfoldable pub as_u8 : TransactionStatus Hash BlockHash → ℕ
  as_u8 TransactionStatus.future = 0
  as_u8 TransactionStatus.ready = 1
  as_u8 (TransactionStatus.broadcast ps) = 2
  as_u8 (TransactionStatus.in_block b) = 3
  as_u8 (TransactionStatus.retracted b) = 4
  as_u8 (TransactionStatus.finality_timeout b) = 5
  as_u8 (TransactionStatus.finalized b) = 6
  as_u8 (TransactionStatus.usurped h) = 7
  as_u8 TransactionStatus.dropped = 8
  as_u8 TransactionStatus.invalid = 9

  unfoldable pub is_supported : TransactionStatus Hash BlockHash → Bool
  is_supported TransactionStatus.ready = true
  is_supported (TransactionStatus.broadcast ps) = true
  is_supported (TransactionStatus.in_block b) = true
  is_supported (TransactionStatus.finality_timeout b) = true
  is_supported (TransactionStatus.finalized b) = true
  is_supported _ = false

  -- src/src/api/rpc_api/author.rs
  unfoldable pub return_block_hash_if_available :
      TransactionStatus Hash BlockHash → Option BlockHash
  return_block_hash_if_available (TransactionStatus.in_block b) = some b
  return_block_hash_if_available (TransactionStatus.retracted b) = some b
  return_block_hash_if_available (TransactionStatus.finality_timeout b) = some b
  return_block_hash_if_available (TransactionStatus.finalized b) = some b
  return_block_hash_if_available _ = none

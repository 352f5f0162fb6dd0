-- ===== src/Rpc/Error.antt =====
-- src/src/rpc/error.rs. Errors of serde, url, mpsc, io and the socket libraries are their texts.
use substrate_api_client.Prelude.{String}

-- `Error`
pub data RpcClientError : Type 0 where
  serde : String → RpcClientError
  send : String → RpcClientError
  url : String → RpcClientError
  channel_disconnected : RpcClientError
  io : String → RpcClientError
  connection_attempts_exceeded : RpcClientError
  connection_closed : RpcClientError
  client : String → RpcClientError

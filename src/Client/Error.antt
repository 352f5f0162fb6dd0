-- ===== src/Client/Error.antt =====
-- src/src/api/error.rs: the errors of the client. Errors of serde, hex and mpsc are their texts.
use substrate_api_client.Prelude.{String}
use substrate_api_client.Codec.{CodecError}
use substrate_api_client.Node.Metadata.Types.{MetadataError, InvalidMetadataError}
use substrate_api_client.Node.Error
use substrate_api_client.Node.Dispatch.{DispatchError}
use substrate_api_client.Rpc.Error.{RpcClientError}
use substrate_api_client.Client.Status.{XtStatus}

-- `Error`
pub data ApiError : Type 0 where
  genesis : ApiError
  runtime_version : ApiError
  metadata_fetch : ApiError
  no_signer : ApiError
  rpc_client : RpcClientError → ApiError
  disconnected : String → ApiError
  metadata : MetadataError → ApiError
  invalid_metadata : InvalidMetadataError → ApiError
  node_api : Error.Error → ApiError
  storage_value_decode : CodecError → ApiError
  invalid_hex_string : String → ApiError
  deserializing : String → ApiError
  unsupported_xt_status : XtStatus → ApiError
  try_from_int_error : ApiError
  dispatch : DispatchError → ApiError
  extrinsic : String → ApiError
  no_stream : ApiError
  other : String → ApiError

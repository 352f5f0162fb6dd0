-- ===== src/Node/Error.antt =====
-- node-api/src/error.rs: the errors that decoding events returns. (The other variants of `Error`
-- wrap errors of code that is not modelled.)
use substrate_api_client.Prelude.{String}
use substrate_api_client.Codec.{CodecError}
use substrate_api_client.Decoder.Decode.{DecodeError}
use substrate_api_client.Node.Metadata.Types.{MetadataError}

pub data Error : Type 0 where
  codec : CodecError → Error
  metadata : MetadataError → Error
  decode_value : DecodeError → Error
  other : String → Error

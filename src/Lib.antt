-- ===== src/Lib.antt =====
-- A model of the library substrate-api-client, a Rust client for the RPC interface of Substrate
-- nodes, and proofs of what its core promises.
--
-- The program's parts. The crate node-api decodes what a node sends: its metadata describes all
-- types (decoder/), the client's lookup tables are collected from it (metadata.rs), and with them
-- storage keys are made (storage.rs), the events of a block are decoded one by one (events.rs) and
-- dispatch errors are explained (error.rs). The crate primitives holds extrinsics, what is signed
-- with them, and fees; compose-macros puts calls and extrinsics together from an `Api`; src/ is the
-- client itself: it keeps an `Api`, asks a node for its runtime, storage, blocks and fees, submits
-- extrinsics and watches them, and waits for events. All of that goes through the trait `Request`,
-- which src/rpc implements over sockets.
--
-- Prelude: names passed on, tests on numbers, lists, and `Result` with the outcomes `panic` and
--   `out_of_fuel` besides Rust's two.
-- Codec: the SCALE codec (parity-scale-codec, bitvec), which the program calls: an interface and
--   its laws. Codec/Sample fills it with executable functions, for concrete runs.
-- Decoder: node-api/src/decoder/. Registry is the data of scale-info; BitSequence is
--   bit_sequence.rs, Value is value.rs, Decode is decode.rs and Encode is encode.rs, function by
--   function under their names. `&mut &[u8]` is an input that is returned with what was read taken
--   off, `&mut Vec<u8>` a result of bytes written. Construct is the constructors and conversions of
--   value.rs. Denotes is a relation that says which decoded value a value given to the encoder
--   stands for; its children set both the encoder and the decoder against it. Front, Ends,
--   Terminates, EncodeEnds and RoundTrip are proofs.
-- Node: Maps is `BTreeMap`, Runtime the data of frame-metadata; Metadata/Types and
--   Metadata/Collect are node-api/src/metadata.rs, Storage/Keys is storage.rs, Error and Dispatch
--   are error.rs, Events/Details and Events/Iterate are events.rs. The iterator's captured variables
--   are a `Position`, a call of it is `next`, and `Steps` is the relation of calls that return events.
--   Metadata/Lookup, Found, Names and CallTypes, Storage/Laws and Double, Events/Parts, Layout,
--   Cover and Calls, and Dispatch/Steps and Sound are proofs.
-- Primitives: Extrinsic is primitives/src/extrinsics.rs; Params is extrinsic_params.rs,
--   compose-macros/src/lib.rs and the state of src/api/api_client.rs, and Tips the tips of
--   extrinsic_params.rs; Fees and DispatchInfo are types.rs; CallDecodes sets composed calls against
--   the decoder, and Verifies composed extrinsics against what a node checks.
-- Rpc: Action is what a client does with a node, on a state for everything outside of it, and the
--   trait `Request`; Error is src/rpc/error.rs. Tungstenite is
--   src/rpc/tungstenite_client/client.rs and src/rpc/mod.rs, with the calls of the libraries in
--   the record `Network`, and Subscription the subscription.rs beside it with the making of
--   clients and subscriptions. Ws is what the handlers of src/rpc/ws_client/mod.rs do with
--   messages, and WsClient the client.rs and subscription.rs beside it. Jsonrpsee is
--   src/rpc/jsonrpsee_client. Attempts, Reading, Subscribing and Delivery are proofs: in Delivery
--   the thread that reads and the reader of the channel take their steps in any order.
-- Client: Error, Status and Watch are src/api/error.rs, src/api/mod.rs and
--   src/api/rpc_api/author.rs, with the items that a subscription delivers as a list; Runtime is
--   src/api/api_client.rs, whose methods on `&mut self` return the changed `Api`; State, System,
--   Chain, Payment, Submit and WaitForEvent are the files of src/api/rpc_api (System and Hex
--   also src/utils.rs), and Extrinsics is src/extrinsic. Serialized parameters and answers are a type
--   `Json`, with serde's functions for the types in records such as `StorageFormats`. Reads,
--   Updates, Nonce, EventsKey and FoundEvent are proofs, against nodes that answer from a state.
-- Tests: a node with one pallet, and the theorems applied to it.
--
-- Bounds and fuel. Numbers are natural numbers; a byte or an integer of w bits is below 2 ^ w where
-- a law or a theorem says so, and the codec's laws bound what is decoded. Decoding and encoding
-- values recurse along the types of a registry, which the metadata may make cyclic: the fuel of
-- `decode_value_as_type` bounds how deep types nest. The theorems on successful decoding hold for
-- every fuel; the round trip shows that the encoder needs no more fuel than the decoder had, and
-- where types refer to types of lower rank only, fuel above the rank is enough. The loops over
-- events take a bound on the calls of the iterator, for which one more than the number of events is
-- enough. `attempts` has 257 rounds, since its counter is a `u8`. Reading messages and forwarding
-- them end with the connection only: their bounds say how many messages are looked at.
--
-- Not modelled: the libraries below the records `Network`, `Threads`, `WsConnections` and
-- `Jsonrpsee`, and serde; client-keystore and primitives/src/rpc_params.rs, which are copies of
-- Substrate's and jsonrpsee's code, as their headers say; the printing of metadata; and traits
-- without code of their own. Logging has no effect on results and is left out.

pub mod Prelude
pub mod Codec
pub mod Decoder
pub mod Node
pub mod Primitives
pub mod Rpc
pub mod Client
pub mod Tests

-- ===== src/Transport.antt =====
-- crates/transport-adapter/src/lib.rs: the frame codec's state, the dispatched frames and the
-- adapter's errors. The children are the delimiter, the transports and the stream reader.
pub mod Codec
pub mod Streams
pub mod Reader
pub mod Returns
pub mod Delimited
pub mod Delivers
pub mod Resync
pub mod Partial
pub mod Chunks
pub mod Stream
pub mod Each
pub mod Fifo
mod Examples
use dryer.Base.{ℕ, List}
use dryer.Protocol.{
  CommandFrame, QueueStatusFrame, ClockRequestFrame, ClockResponseFrame, DecodeError,
}

pub data FrameCodecError : Type 0 where
  buffer_overflow : (capacity : ℕ) → FrameCodecError

abbrev pub default_codec_capacity : ℕ
default_codec_capacity = 4_096

pub record FrameCodec : Type 0 where
  pub buffer : List ℕ
  pub max_capacity : ℕ

pub data DispatchedFrame : Type 0 where
  queue_status : QueueStatusFrame → DispatchedFrame
  clock_request : ClockRequestFrame → DispatchedFrame
  clock_response : ClockResponseFrame → DispatchedFrame
  command : CommandFrame → DispatchedFrame
  raw : (message_type : ℕ) (bytes : List ℕ) → DispatchedFrame

pub data TransportAdapterError (E : Type 0) : Type 0 where
  transport : E → TransportAdapterError E
  codec : FrameCodecError → TransportAdapterError E
  decode : DecodeError → TransportAdapterError E
  daemon_update : DecodeError → TransportAdapterError E

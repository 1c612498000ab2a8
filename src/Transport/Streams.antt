-- ===== src/Transport/Streams.antt =====
-- crates/transport-adapter/src/lib.rs: the byte-stream transports. The two ends of a pair share
-- its queues, so the state is that of the pair and an operation names its end. The lock of a queue
-- is held for the whole of each operation, so the operations follow one another.
use dryer.Base.{
  ℕ, Bool, true, List, [], ◌∷◌, ◌++◌, Result, ok, err, min, length, take, drop, if◌then◌else◌,
}

-- `trait StreamTransport`: a transport in state T. A read answers with the bytes that it put into the
-- front of a buffer of the given size.
pub record StreamTransport (T E : Type 0) : Type 0 where
  pub write_bytes : T → List ℕ → Result E (Unit {0}) × T
  pub read_bytes : T → ℕ → Result E (List ℕ) × T
  pub flush : T → Result E (Unit {0}) × T

-- `TransportSink`: a frame is written, and flushed if that went well.
unfoldable pub send_frame :
    {T E : Type 0} → StreamTransport T E → T → List ℕ → Result E (Unit {0}) × T
send_frame stream transport frame =
    let (answer, transport') = stream.write_bytes transport frame in
    elim answer [ err e ↦ (err e, transport') | ok _ ↦ stream.flush transport' ]

pub data End : Type 0 where
  host controller : End

abbrev pub other : End → End
other host = controller
other controller = host

pub data MemoryTransportError : Type 0 where
  closed : MemoryTransportError

pub record MemoryPair : Type 0 where
  pub to_host : List ℕ
  pub to_controller : List ℕ

abbrev pub pair : MemoryPair
pair = record { to_host = []; to_controller = [] }

abbrev pub incoming : End → MemoryPair → List ℕ
incoming host wires = wires.to_host
incoming controller wires = wires.to_controller

abbrev set_incoming : End → List ℕ → MemoryPair → MemoryPair
set_incoming host bytes wires = record wires { to_host = bytes }
set_incoming controller bytes wires = record wires { to_controller = bytes }

abbrev pub inject_incoming : End → MemoryPair → List ℕ → MemoryPair
inject_incoming end wires bytes = set_incoming end (incoming end wires ++ bytes) wires

abbrev pub take_outgoing : End → MemoryPair → List ℕ × MemoryPair
take_outgoing end wires = (incoming (other end) wires, set_incoming (other end) [] wires)

abbrev pub write_memory :
    End → MemoryPair → List ℕ → Result MemoryTransportError (Unit {0}) × MemoryPair
write_memory end wires bytes = (ok tt, inject_incoming (other end) wires bytes)

abbrev pub read_memory : End → MemoryPair → ℕ → Result MemoryTransportError (List ℕ) × MemoryPair
read_memory end wires size =
    let waiting = incoming end wires in
    let count = min size (length waiting) in
    (ok (take count waiting), set_incoming end (drop count waiting) wires)

abbrev pub memory : End → StreamTransport MemoryPair MemoryTransportError
memory end = record {
  write_bytes = write_memory end;
  read_bytes = read_memory end;
  flush = λ wires. (ok tt, wires);
}

pub data ChannelTransportError : Type 0 where
  send_failed disconnected : ChannelTransportError

-- One direction of a channel pair: the chunks in the channel, the bytes of the chunk that its reader
-- has begun, and which of its two ends still exist.
pub record Channel : Type 0 where
  pub chunks : List (List ℕ)
  pub read_buf : List ℕ
  pub sender_alive : Bool
  pub receiver_alive : Bool

abbrev pub write_channel : Channel → List ℕ → Result ChannelTransportError (Unit {0}) × Channel
write_channel channel bytes =
    if channel.receiver_alive
    then (ok tt, record channel { chunks = channel.chunks ++ (bytes ∷ []) })
    else (err send_failed, channel)

-- The read from `read_buf`, once it is filled.
abbrev pub read_begun : Channel → ℕ → Result ChannelTransportError (List ℕ) × Channel
read_begun channel size =
    let count = min size (length channel.read_buf) in
    (ok (take count channel.read_buf), record channel { read_buf = drop count channel.read_buf })

-- Where `read_buf` is empty: the next chunk is received, if there is one.
abbrev pub read_next : Channel → List (List ℕ) → ℕ → Result ChannelTransportError (List ℕ) × Channel
read_next channel [] size =
    if channel.sender_alive then (ok [], channel) else (err disconnected, channel)
read_next channel (chunk ∷ rest) size =
    read_begun (record channel { chunks = rest; read_buf = chunk }) size

abbrev read_from : Channel → List ℕ → ℕ → Result ChannelTransportError (List ℕ) × Channel
read_from channel [] size = read_next channel channel.chunks size
read_from channel (b ∷ bytes) size = read_begun channel size

unfoldable pub read_channel : Channel → ℕ → Result ChannelTransportError (List ℕ) × Channel
read_channel channel size = read_from channel channel.read_buf size

pub record ChannelPair : Type 0 where
  pub towards_host : Channel
  pub towards_controller : Channel

abbrev pub incoming_channel : End → ChannelPair → Channel
incoming_channel host channels = channels.towards_host
incoming_channel controller channels = channels.towards_controller

abbrev set_channel : End → Channel → ChannelPair → ChannelPair
set_channel host channel channels = record channels { towards_host = channel }
set_channel controller channel channels = record channels { towards_controller = channel }

abbrev pub new_channel : Channel
new_channel = record { chunks = []; read_buf = []; sender_alive = true; receiver_alive = true }

abbrev pub channel_pair : ChannelPair
channel_pair = record { towards_host = new_channel; towards_controller = new_channel }

abbrev pub write_end :
    End → ChannelPair → List ℕ → Result ChannelTransportError (Unit {0}) × ChannelPair
write_end end channels bytes =
    let (answer, channel) = write_channel (incoming_channel (other end) channels) bytes in
    (answer, set_channel (other end) channel channels)

abbrev pub read_end : End → ChannelPair → ℕ → Result ChannelTransportError (List ℕ) × ChannelPair
read_end end channels size =
    let (answer, channel) = read_channel (incoming_channel end channels) size in
    (answer, set_channel end channel channels)

abbrev pub channel : End → StreamTransport ChannelPair ChannelTransportError
channel end = record {
  write_bytes = write_end end;
  read_bytes = read_end end;
  flush = λ channels. (ok tt, channels);
}

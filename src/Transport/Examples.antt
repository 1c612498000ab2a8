-- ===== src/Transport/Examples.antt =====
-- crates/transport-adapter/src/lib.rs: the frame reader and the transports at concrete bytes.
use dryer.Base.{
  ℕ, ◌≡◌, refl, Bool, true, Option, none, some, List, [], ◌∷◌, ◌++◌, ok, take, drop, arith,
}
use dryer.Daemon.{ControllerDaemon, new_daemon, register_controller}
use dryer.Protocol.Layout.{frame_bytes}
use dryer.Transport.{FrameCodec}
use dryer.Transport.Codec.{next_frame, feed, magic_position, with_capacity}
use dryer.Transport.Delimited.{IsFrame}
use dryer.Transport.Delivers.{Delivered, next_frame-Delivered}
use dryer.Transport.Each.{stream, answered, dispatch_each, dispatch_all-dispatch_each}
use dryer.Transport.Fifo.{Operation, write, read, run, run_in_order, waiting_for}
use dryer.Transport.Chunks.{holding, next_frame-feed}
use dryer.Transport.Partial.{prefix-Waits}
use dryer.Transport.Reader.{dispatch_all}
use dryer.Transport.Resync.{next_frame-noise}
use dryer.Transport.Streams.{
  host, pair, channel_pair, incoming, memory, channel, controller, MemoryTransportError,
}

-- A clock request numbered 7.
abbrev request : List ℕ
request = frame_bytes 3 7 (0 ∷ [])

abbrev request_frame : IsFrame request
request_frame = record {
  message_type = 3;
  sequence = 7;
  payload = 0 ∷ [];
  known = (omega arith, omega arith);
  numbered = omega arith;
  small = omega arith;
  laid_out = refl;
}

-- Noise with a lone `D` at its end, as in the source's test.
abbrev noise : List ℕ
noise = 255 ∷ 170 ∷ b'D' ∷ []

noise_has_none : magic_position (noise ++ (b'D' ∷ [])) ≡ none
unfolding magic_position
noise_has_none = refl

abbrev noisy : FrameCodec
noisy = record { buffer = noise ++ (request ++ (17 ∷ [])); max_capacity = 4_096 }

next_frame-noise_example :
    next_frame noisy ≡ some (some request, record { buffer = 17 ∷ []; max_capacity = 4_096 })
next_frame-noise_example =
    next_frame-noise 3 7 (0 ∷ []) (17 ∷ []) (omega arith) (omega arith) (omega arith) noise 4_096
      noise_has_none

next_frame-Delivered_example :
    (frame : Option (List ℕ)) × (codec' : FrameCodec) × (next_frame
        (record { buffer = b'D' ∷ b'R' ∷ 9 ∷ []; max_capacity = 64 })
      ≡ some (frame, codec'))
    × Delivered (b'D' ∷ b'R' ∷ 9 ∷ []) frame codec'.buffer
next_frame-Delivered_example =
    next_frame-Delivered (record { buffer = b'D' ∷ b'R' ∷ 9 ∷ []; max_capacity = 64 })
      (omega arith, (omega arith, (omega arith, tt)))

next_frame-feed_example :
    (feed (with_capacity 64) (take 12 request) ≡ (ok tt, holding 64 (take 12 request)))
    × (next_frame (holding 64 (take 12 request)) ≡ some (none, holding 64 (take 12 request)))
    × (feed (holding 64 (take 12 request)) (drop 12 request) ≡ (ok tt, holding 64 request))
    × (next_frame (holding 64 request) ≡ some (some request, with_capacity 64))
next_frame-feed_example =
    next_frame-feed 3 7 (0 ∷ []) 12 64 (omega arith) (omega arith) (omega arith) (omega arith)
      (omega arith)

abbrev all_utf8 : List ℕ → Bool
all_utf8 bytes = true

abbrev one_controller : ControllerDaemon
one_controller = register_controller new_daemon (109 ∷ 49 ∷ []) 50_000

dispatch_all-dispatch_each_example :
    dispatch_all {E = MemoryTransportError} all_utf8 3
      (stream (request ∷ request ∷ []) (take 5 request) 4_096)
      []
      one_controller
      (109 ∷ 49 ∷ [])
      10
    ≡ answered
        (dispatch_each {E = MemoryTransportError} all_utf8
          (request ∷ request ∷ [])
          []
          one_controller
          (109 ∷ 49 ∷ [])
          10)
        (take 5 request)
        4_096
dispatch_all-dispatch_each_example =
    dispatch_all-dispatch_each all_utf8 (request ∷ request ∷ []) (take 5 request) 4_096 3 []
      one_controller (109 ∷ 49 ∷ []) 10 (request_frame, (request_frame, tt))
      (prefix-Waits 3 7 (0 ∷ []) (omega arith) (omega arith) (omega arith) 5 (omega arith))
      (omega arith)

abbrev turns : List Operation
turns = write (1 ∷ 2 ∷ []) ∷ read 1 ∷ write (3 ∷ []) ∷ read 5 ∷ []

run_in_order_example :
    (let (written, taken, last) = run (memory controller) (memory host) turns pair in
      incoming host pair ++ written ≡ taken ++ incoming host last)
    × (let (written, taken, last) = run (channel controller) (channel host) turns channel_pair in
        waiting_for host channel_pair ++ written ≡ taken ++ waiting_for host last)
run_in_order_example = run_in_order host turns pair channel_pair

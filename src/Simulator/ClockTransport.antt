-- ===== src/Simulator/ClockTransport.antt =====
-- crates/simulator/src/clock_transport.rs: the methods of `SimClockTransport`.
use dryer.Base.{
  ℕ, zero, suc, ◌+◌, ◌*◌, ◌/◌, ◌%◌, ◌^◌, ◌==◌, Bool, true, false, not, ◌&&◌, ◌||◌, Option, none,
  some, List, [], ◌∷◌, ◌++◌, Result, ok, err, ok_or, map_err, length, replicate, ltb, leb,
  if◌then◌else◌,
}
use dryer.Base.Words.{saturating_add, checked_add_u64}
use dryer.Protocol.{Tick, ClockRequestFrame, ClockResponseFrame, clock_response_frame_len}
use dryer.Protocol.Decode.{decode_clock_request}
use dryer.Protocol.Encode.{encode_clock_response}
use dryer.Simulator.{
  ClockLinkConfig, ControllerClock, SimClockTransportError, time_overflow, queue_full, decode,
  encode, clock, SimClockFrame, ScheduledResponse, SimClockTransport,
}
use dryer.Simulator.Clocks.{at}
use dryer.Simulator.Stateful.{Stateful, pure, ◌>>=◌}

-- What the methods with `&mut self` do.
abbrev pub Method : Type 0 → Type 0
Method A = Stateful SimClockTransport SimClockTransportError A

abbrev pub stepped : ℕ → ℕ
stepped rng = (rng * 6_364_136_223_846_793_005 + 1_442_695_040_888_963_407) % 2 ^ 64

-- The top 31 bits of the generator's next state.
unfoldable pub next_rand : Method ℕ
next_rand transport =
    let rng = stepped transport.rng in (ok (rng / 2 ^ 33), record transport { rng = rng })

-- `per_mille > 0 && self.next_rand() % 1000 < per_mille`
unfoldable pub roll : ℕ → Method Bool
roll per_mille =
    if ltb 0 per_mille
    then (next_rand >>= λ r. pure (ok (ltb (r % 1_000) per_mille)))
    else pure (ok false)

unfoldable pub jitter_of : ClockLinkConfig → Method ℕ
jitter_of link = if link.jitter_ticks == 0 then pure (ok 0) else (do
  choices ← pure (ok_or (checked_add_u64 link.jitter_ticks 1) time_overflow)
  r ← next_rand
  pure (ok (r % choices)))

unfoldable pub delivery_time : Tick → ClockLinkConfig → ℕ → Result SimClockTransportError Tick
delivery_time sent_at link jitter = elim (checked_add_u64 sent_at link.latency_ticks) [
  | none ↦ err time_overflow
  | some tick ↦ ok_or (checked_add_u64 tick jitter) time_overflow
]

unfoldable pub arrivals : Tick → Bool → Result SimClockTransportError (List Tick)
arrivals delivered_at false = ok (delivered_at ∷ [])
arrivals delivered_at true = elim (checked_add_u64 delivered_at 1) [
  | none ↦ err time_overflow
  | some later ↦ ok (delivered_at ∷ later ∷ [])
]

unfoldable pub delivered : Tick → ClockLinkConfig → Method (List Tick)
delivered sent_at link = do
  jitter ← jitter_of link
  delivered_at ← pure (delivery_time sent_at link jitter)
  duplicate ← roll link.dup_per_mille
  pure (arrivals delivered_at duplicate)

-- When what is sent at this time arrives: not at all, once or twice.
unfoldable pub deliveries : Tick → ClockLinkConfig → Method (List Tick)
deliveries sent_at link = do
  lost ← roll link.loss_per_mille
  if lost then pure (ok []) else delivered sent_at link

-- The frame that answers a request that arrived and left at these host times.
unfoldable pub answer_at :
    ControllerClock → ℕ → Tick → Tick → Result SimClockTransportError ClockResponseFrame
answer_at controller sequence arrival departure = elim (map_err clock (at controller arrival)) [
  | err e ↦ err e
  | ok controller_receive ↦ elim (map_err clock (at controller departure)) [
    | err e ↦ err e
    | ok controller_send ↦ ok (record {
      sequence = sequence;
      response = record {
        controller_receive = controller_receive;
        controller_send = controller_send;
      };
    })
  ]
]

-- The frame in an array of its exact length.
unfoldable pub encoded : ClockResponseFrame → Result SimClockTransportError (List ℕ)
encoded frame =
    let (answer, bytes) = encode_clock_response frame (replicate clock_response_frame_len 0) in
    elim answer [ err e ↦ err (encode e) | ok n ↦ ok bytes ]

-- One response for each of its arrivals, numbered_responses in order.
unfoldable pub numbered_responses : List Tick → List ℕ → ℕ → List ScheduledResponse
numbered_responses [] bytes order = []
numbered_responses (delivered_at ∷ rest) bytes order =
    record { delivered_at = delivered_at; insertion_order = order; bytes = bytes }
    ∷ numbered_responses rest bytes ((order + 1) % 2 ^ 64)

abbrev pub advanced : ℕ → ℕ → ℕ
advanced order zero = order
advanced order (suc n) = advanced ((order + 1) % 2 ^ 64) n

unfoldable pub number : List Tick → List ℕ → Method (List ScheduledResponse)
number delivered_at bytes transport = (
  ok (numbered_responses delivered_at bytes transport.next_insertion_order),
  record transport {
    next_insertion_order = advanced transport.next_insertion_order (length delivered_at);
  },
)

-- The body of the loop over the request's arrivals.
unfoldable pub respond : ℕ → Tick → Method (List ScheduledResponse)
respond sequence arrival transport =
    (do
      departure ←
          pure (ok_or (checked_add_u64 arrival transport.cfg.processing_ticks) time_overflow)
      response ← pure (answer_at transport.cfg.controller_clock sequence arrival departure)
      bytes ← pure (encoded response)
      delivered_at ← deliveries departure transport.cfg.response
      number delivered_at bytes)
      transport

unfoldable pub respond_all : ℕ → List Tick → Method (List ScheduledResponse)
respond_all sequence [] = pure (ok [])
respond_all sequence (arrival ∷ rest) = do
  first ← respond sequence arrival
  later ← respond_all sequence rest
  pure (ok (first ++ later))

unfoldable pub enqueue_responses : List ScheduledResponse → Method (Unit {0})
enqueue_responses scheduled transport =
    if ltb transport.cfg.max_pending (saturating_add (length transport.pending) (length scheduled))
    then (err (queue_full transport.cfg.max_pending), transport)
    else (ok tt, record transport { pending = transport.pending ++ scheduled })

unfoldable pub exchange : Tick → ClockRequestFrame → Method (Unit {0})
exchange host_send request transport =
    (do
      request_arrivals ← deliveries host_send transport.cfg.request
      scheduled ← respond_all request.sequence request_arrivals
      enqueue_responses scheduled)
      transport

unfoldable pub send_request_mut : Tick → List ℕ → Method (Unit {0})
send_request_mut host_send frame = do
  request ← pure (map_err decode (decode_clock_request frame))
  (λ transport.
      if not transport.link_up then (ok tt, transport) else exchange host_send request transport)

-- The work is done on a copy, which takes the transport's place only when it succeeds.
unfoldable pub send_request : Tick → List ℕ → Method (Unit {0})
send_request host_send frame transport =
    let (answer, candidate) = send_request_mut host_send frame transport in
    elim answer [ err e ↦ (err e, transport) | ok _ ↦ (ok tt, candidate) ]

-- `(delivered_at, insertion_order)`, in the order of pairs.
abbrev pub not_later : ScheduledResponse → ScheduledResponse → Bool
not_later a b =
    ltb a.delivered_at b.delivered_at
    || ((a.delivered_at == b.delivered_at) && leb a.insertion_order b.insertion_order)

abbrev pub shifted : Option (ℕ × ScheduledResponse) → Option (ℕ × ScheduledResponse)
shifted none = none
shifted (some (index, response)) = some (suc index, response)

-- `VecDeque::remove`, which leaves the rest in order.
abbrev pub removed : ℕ → List ScheduledResponse → List ScheduledResponse
removed index [] = []
removed zero (response ∷ rest) = rest
removed (suc index) (response ∷ rest) = response ∷ removed index rest

-- The first of the least among those that are due, with its place.
unfoldable pub earliest : ℕ → List ScheduledResponse → Option (ℕ × ScheduledResponse)
earliest host_now [] = none
earliest host_now (response ∷ rest) =
    let later = earliest host_now rest in
    if not (leb response.delivered_at host_now) then shifted later else elim later [
      | none ↦ some (0, response)
      | some (index, other) ↦
          if not_later response other then some (0, response) else some (suc index, other)
    ]

unfoldable pub receive_due : Tick → SimClockTransport → Option SimClockFrame × SimClockTransport
receive_due host_now transport = elim (earliest host_now transport.pending) [
  | none ↦ (none, transport)
  | some (index, response) ↦ (
    some (record { delivered_at = response.delivered_at; bytes = response.bytes }),
    record transport { pending = removed index transport.pending },
  )
]

abbrev pub drop_link : SimClockTransport → SimClockTransport
drop_link transport = record transport { link_up = false; pending = [] }

abbrev pub restore_link : SimClockTransport → SimClockTransport
restore_link transport = record transport { link_up = true }

-- ===== src/Simulator/CommandLink.antt =====
-- crates/simulator/src/lib.rs, `SimTransport`: latency, jitter, loss and duplication of commands.
use dryer.Base.{
  ℕ, ◌+◌, ◌*◌, ◌/◌, ◌%◌, ◌^◌, Bool, true, false, not, Option, none, some, List, [], ◌∷◌, ◌++◌, map,
  ltb, leb, if◌then◌else◌,
}
use dryer.Base.Words.{saturating_add}
use dryer.Protocol.{Tick, Command, CommandEnvelope}
use dryer.Simulator.ClockTransport.{stepped}

pub record TransportConfig : Type 0 where
  pub latency_ticks : Tick
  pub jitter_ticks : Tick
  pub loss_per_mille : ℕ
  pub dup_per_mille : ℕ
  pub seed : ℕ

abbrev pub default_transport_config : TransportConfig
default_transport_config = record {
  latency_ticks = 200;
  jitter_ticks = 0;
  loss_per_mille = 0;
  dup_per_mille = 0;
  seed = 0;
}

pub record SimTransport : Type 0 where
  pub cfg : TransportConfig
  pub rng : ℕ
  pub in_flight : List (Tick × CommandEnvelope)
  pub link_up : Bool

abbrev pub new_command_link : TransportConfig → SimTransport
new_command_link cfg = record {
  cfg = cfg;
  rng = (cfg.seed * 2 + 1) % 2 ^ 64;
  in_flight = [];
  link_up = true;
}

abbrev pub command_rand : SimTransport → ℕ × SimTransport
command_rand transport =
    let rng = stepped transport.rng in (rng / 2 ^ 33, record transport { rng = rng })

-- `per_mille > 0 && self.next_rand() % 1000 < per_mille`
unfoldable pub command_roll : ℕ → SimTransport → Bool × SimTransport
command_roll per_mille transport =
    let (r, transport') = command_rand transport in
    if ltb 0 per_mille then (ltb (r % 1_000) per_mille, transport') else (false, transport)

-- The source's `jitter_ticks + 1` overflows for the greatest `Tick`; here it does not.
unfoldable pub command_jitter : SimTransport → ℕ × SimTransport
command_jitter transport =
    let (r, transport') = command_rand transport in
    if ltb 0 transport.cfg.jitter_ticks
    then (r % (transport.cfg.jitter_ticks + 1), transport')
    else (0, transport)

abbrev pub put_in_flight : Tick → CommandEnvelope → SimTransport → SimTransport
put_in_flight at message transport = record transport {
  in_flight = transport.in_flight ++ ((at, message) ∷ []);
}

unfoldable pub send_kept : Tick → CommandEnvelope → SimTransport → SimTransport
send_kept now message transport =
    let (jitter, jittered) = command_jitter transport in
    let at = saturating_add (saturating_add now transport.cfg.latency_ticks) jitter in
    let (duplicated, rolled) =
      command_roll transport.cfg.dup_per_mille (put_in_flight at message jittered) in
    if duplicated then put_in_flight (saturating_add at 1) message rolled else rolled

unfoldable pub send_command : SimTransport → Tick → Option Tick → Command → SimTransport
send_command transport now execute_at command =
    let message : CommandEnvelope = record { execute_at = execute_at; command = command } in
    let (lost, rolled) = command_roll transport.cfg.loss_per_mille transport in
    if not transport.link_up
    then transport
    else if lost
    then rolled
    else send_kept now message rolled

abbrev pub send_now : SimTransport → Tick → Command → SimTransport
send_now transport now command = send_command transport now none command

abbrev pub send_for : SimTransport → Tick → Tick → Command → SimTransport
send_for transport now execute_at command = send_command transport now (some execute_at) command

abbrev pub sever_link : SimTransport → SimTransport
sever_link transport = record transport { link_up = false; in_flight = [] }

abbrev pub mend_link : SimTransport → SimTransport
mend_link transport = record transport { link_up = true }

unfoldable pub due_of : Tick → List (Tick × CommandEnvelope) → List (Tick × CommandEnvelope)
due_of now [] = []
due_of now ((at, command) ∷ rest) =
    let later = due_of now rest in if leb at now then (at, command) ∷ later else later

unfoldable pub not_due_of : Tick → List (Tick × CommandEnvelope) → List (Tick × CommandEnvelope)
not_due_of now [] = []
not_due_of now ((at, command) ∷ rest) =
    let later = not_due_of now rest in if leb at now then later else (at, command) ∷ later

-- `sort_by_key`, a stable sort: an entry goes in front of those that are no earlier.
unfoldable pub put_by_time :
    Tick × CommandEnvelope → List (Tick × CommandEnvelope) → List (Tick × CommandEnvelope)
put_by_time entry [] = entry ∷ []
put_by_time (at, command) ((first, command') ∷ rest) =
    let later = put_by_time (at, command) rest in
    if leb at first then (at, command) ∷ (first, command') ∷ rest else (first, command') ∷ later

unfoldable pub sort_by_time : List (Tick × CommandEnvelope) → List (Tick × CommandEnvelope)
sort_by_time [] = []
sort_by_time (entry ∷ rest) = put_by_time entry (sort_by_time rest)

unfoldable pub deliver_due : SimTransport → Tick → List CommandEnvelope × SimTransport
deliver_due transport now = (
  map (λ entry. entry.1) (sort_by_time (due_of now transport.in_flight)),
  record transport { in_flight = not_due_of now transport.in_flight },
)

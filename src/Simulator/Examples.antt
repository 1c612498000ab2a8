-- ===== src/Simulator/Examples.antt =====
-- crates/simulator/src: the simulated links at concrete configurations.
use dryer.Base.{ℕ, ◌≡◌, true, List, [], ◌∷◌}
use dryer.Base.Int.{pos}
use dryer.Protocol.{ClockRequestFrame}
use dryer.Protocol.Layout.{frame_bytes}
use dryer.Simulator.{ClockLinkConfig, ClockTransportConfig, ScheduledResponse, SimClockTransport}
use dryer.Simulator.ClockTransport.{receive_due}
use dryer.Simulator.ClockCluster.{SimClockCluster, find}
use dryer.Simulator.Isolated.{
  send, receive, drop, restore, Operation, run_cluster, run_alone, mapped, find-run_cluster,
}
use dryer.Simulator.Receive.{Received, receive_due-Received}

abbrev link : ClockLinkConfig
link = record { latency_ticks = 200; jitter_ticks = 10; loss_per_mille = 0; dup_per_mille = 500 }

abbrev cfg : ClockTransportConfig
cfg = record {
  request = link;
  response = link;
  processing_ticks = 5;
  max_pending = 8;
  seed = 42;
  controller_clock = record { host_epoch = 0; controller_epoch = 1_000; rate_ppb = pos 1_000 };
}

abbrev up : SimClockTransport
up = record { cfg = cfg; rng = 85; next_insertion_order = 0; pending = []; link_up = true }

abbrev request : ClockRequestFrame
request = record { sequence = 7 }

abbrev response_at : ℕ → ℕ → ScheduledResponse
response_at delivered_at order = record {
  delivered_at = delivered_at;
  insertion_order = order;
  bytes = order ∷ [];
}

abbrev waiting : SimClockTransport
waiting = record up { pending = response_at 300 0 ∷ response_at 200 1 ∷ response_at 200 2 ∷ [] }

receive_due-Received_example : Received 250 waiting (receive_due 250 waiting)
receive_due-Received_example = receive_due-Received 250 waiting

abbrev cluster : SimClockCluster
cluster = (1, up) ∷ (2, waiting) ∷ []

abbrev operations : List (ℕ × Operation)
operations =
    (1, drop) ∷ (2, receive 250) ∷ (1, restore) ∷ (2, send 50 (frame_bytes 3 7 (0 ∷ []))) ∷ []

find-run_cluster_example :
    find (run_cluster operations cluster) 2 ≡ mapped (run_alone 2 operations) (find cluster 2)
find-run_cluster_example = find-run_cluster 2 operations cluster

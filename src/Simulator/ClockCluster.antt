-- ===== src/Simulator/ClockCluster.antt =====
-- crates/simulator/src/clock_cluster.rs: a transport for each controller. The map is the list of its
-- entries in key order.
use dryer.Base.{
  ℕ, ◌==◌, Option, none, some, List, [], ◌∷◌, Result, ok, err, map, map_err, length, ltb,
  if◌then◌else◌,
}
use dryer.Protocol.{Tick}
use dryer.Simulator.{
  ClockTransportConfig, ClockTransportConfigError, SimClockFrame, SimClockTransport,
  SimClockTransportError,
}
use dryer.Simulator.Clocks.{new_transport}
use dryer.Simulator.ClockTransport.{send_request, receive_due, drop_link, restore_link}

abbrev pub ControllerId : Type 0
ControllerId = ℕ

pub data SimClockClusterError : Type 0 where
  duplicate_controller : (controller : ControllerId) → SimClockClusterError
  unknown_controller : (controller : ControllerId) → SimClockClusterError
  configuration : ClockTransportConfigError → SimClockClusterError
  transport : (controller : ControllerId) (source : SimClockTransportError) → SimClockClusterError

abbrev pub SimClockCluster : Type 0
SimClockCluster = List (ControllerId × SimClockTransport)

unfoldable pub find : SimClockCluster → ControllerId → Option SimClockTransport
find [] controller = none
find ((id, link) ∷ rest) controller =
    let later = find rest controller in if id == controller then some link else later

unfoldable pub insert : ControllerId → SimClockTransport → SimClockCluster → SimClockCluster
insert controller link [] = (controller, link) ∷ []
insert controller link ((id, first) ∷ rest) =
    let later = insert controller link rest in
    if id == controller
    then (controller, link) ∷ rest
    else if ltb controller id
    then (controller, link) ∷ (id, first) ∷ rest
    else (id, first) ∷ later

-- The write through `get_mut`: the entry takes its new value in place.
unfoldable pub replace : ControllerId → SimClockTransport → SimClockCluster → SimClockCluster
replace controller link [] = []
replace controller link ((id, first) ∷ rest) =
    let later = replace controller link rest in
    if id == controller then (id, link) ∷ rest else (id, first) ∷ later

unfoldable pub new_from :
    List (ControllerId × ClockTransportConfig)
    → SimClockCluster
    → Result SimClockClusterError SimClockCluster
new_from [] controllers = ok controllers
new_from ((controller, cfg) ∷ rest) controllers = elim (find controllers controller) [
  | some _ ↦ err (duplicate_controller controller)
  | none ↦ elim (new_transport cfg) [
    | err e ↦ err (configuration e)
    | ok link ↦ new_from rest (insert controller link controllers)
  ]
]

abbrev pub new_sim_cluster :
    List (ControllerId × ClockTransportConfig) → Result SimClockClusterError SimClockCluster
new_sim_cluster configurations = new_from configurations []

abbrev pub controller_ids : SimClockCluster → List ControllerId
controller_ids cluster = map (λ entry. entry.0) cluster

-- `get_mut(&controller).ok_or(..)?`, and what is done with the transport.
unfoldable pub with_controller :
    {A : Type 0}
    → ControllerId
    → (SimClockTransport → Result SimClockClusterError A × SimClockTransport)
    → SimClockCluster
    → Result SimClockClusterError A × SimClockCluster
with_controller controller method cluster = elim (find cluster controller) [
  | none ↦ (err (unknown_controller controller), cluster)
  | some link ↦ let (answer, link') = method link in (answer, replace controller link' cluster)
]

abbrev pub send_by :
    ControllerId
    → Tick
    → List ℕ
    → SimClockTransport
    → Result SimClockClusterError (Unit {0}) × SimClockTransport
send_by controller host_send frame link =
    let (answer, link') = send_request host_send frame link in
    (map_err (transport controller) answer, link')

abbrev pub receive_by :
    Tick
    → SimClockTransport
    → Result SimClockClusterError (Option SimClockFrame) × SimClockTransport
receive_by host_now link = let (frame, link') = receive_due host_now link in (ok frame, link')

unfoldable pub cluster_send_request :
    SimClockCluster
    → ControllerId
    → Tick
    → List ℕ
    → Result SimClockClusterError (Unit {0}) × SimClockCluster
cluster_send_request cluster controller host_send frame =
    with_controller controller (send_by controller host_send frame) cluster

unfoldable pub cluster_receive_due :
    SimClockCluster
    → ControllerId
    → Tick
    → Result SimClockClusterError (Option SimClockFrame) × SimClockCluster
cluster_receive_due cluster controller host_now =
    with_controller controller (receive_by host_now) cluster

unfoldable pub cluster_drop_link :
    SimClockCluster → ControllerId → Result SimClockClusterError (Unit {0}) × SimClockCluster
cluster_drop_link cluster controller =
    with_controller controller (λ link. (ok tt, drop_link link)) cluster

unfoldable pub cluster_restore_link :
    SimClockCluster → ControllerId → Result SimClockClusterError (Unit {0}) × SimClockCluster
cluster_restore_link cluster controller =
    with_controller controller (λ link. (ok tt, restore_link link)) cluster

unfoldable pub cluster_pending_len : SimClockCluster → ControllerId → Result SimClockClusterError ℕ
cluster_pending_len cluster controller = elim (find cluster controller) [
  | none ↦ err (unknown_controller controller)
  | some link ↦ ok (length link.pending)
]

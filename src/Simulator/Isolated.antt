-- ===== src/Simulator/Isolated.antt =====
-- crates/simulator/src/clock_cluster.rs: the controllers of a cluster do not touch one another.
use dryer.Base.{
  ℕ, ◌==◌, ◌≡◌, refl, sym, ap, ◌∙◌, Bool, true, false, inl, inr, Option, none, some, List, [], ◌∷◌,
  Result, ok, Bool-cases, Option-cases, ==_iff, if◌then◌else◌, arith,
}
use dryer.Protocol.{Tick}
use dryer.Simulator.{SimClockTransport}
use dryer.Simulator.ClockCluster.{
  ControllerId, SimClockCluster, SimClockClusterError, find, replace, with_controller, send_by,
  receive_by, cluster_send_request, cluster_receive_due, cluster_drop_link, cluster_restore_link,
}
use dryer.Simulator.ClockTransport.{send_request, receive_due, drop_link, restore_link}

pub data Operation : Type 0 where
  send : (host_send : Tick) (frame : List ℕ) → Operation
  receive : (host_now : Tick) → Operation
  drop restore : Operation

-- What an operation does to one transport by itself, and to the cluster that has it.
abbrev pub alone : Operation → SimClockTransport → SimClockTransport
alone (send host_send frame) link = (send_request host_send frame link).1
alone (receive host_now) link = (receive_due host_now link).1
alone drop link = drop_link link
alone restore link = restore_link link

abbrev pub applied : ControllerId → Operation → SimClockCluster → SimClockCluster
applied controller (send host_send frame) cluster =
    (cluster_send_request cluster controller host_send frame).1
applied controller (receive host_now) cluster = (cluster_receive_due cluster controller host_now).1
applied controller drop cluster = (cluster_drop_link cluster controller).1
applied controller restore cluster = (cluster_restore_link cluster controller).1

abbrev pub run_cluster : List (ControllerId × Operation) → SimClockCluster → SimClockCluster
run_cluster [] cluster = cluster
run_cluster ((controller, operation) ∷ rest) cluster =
    run_cluster rest (applied controller operation cluster)

-- Only the operations on the one controller.
unfoldable pub run_alone :
    ControllerId → List (ControllerId × Operation) → SimClockTransport → SimClockTransport
run_alone controller [] link = link
run_alone controller ((id, operation) ∷ rest) link =
    run_alone controller rest (if id == controller then alone operation link else link)

abbrev pub mapped :
    (SimClockTransport → SimClockTransport) → Option SimClockTransport → Option SimClockTransport
mapped f none = none
mapped f (some link) = some (f link)

find-replace :
    (controller other : ControllerId) (link : SimClockTransport) (cluster : SimClockCluster)
    {old : SimClockTransport}
    → find cluster controller ≡ some old
    → find (replace controller link cluster) other
      ≡ (if controller == other then some link else find cluster other)
unfolding find replace
find-replace controller other link [] h = cc
find-replace controller other link ((id, first) ∷ rest) h = elim (Bool-cases (id == controller)) [
  | inl same ↦ ground (arith, same)
  | inr apart ↦
      ground (arith, apart, find-replace controller other link rest (rw (find, apart) at h))
]

module _ {A : Type 0} (controller other : ControllerId)
    (method : SimClockTransport → Result SimClockClusterError A × SimClockTransport)
    (cluster : SimClockCluster) where
  missing_lem :
      find cluster controller ≡ none → (with_controller controller method cluster).1 ≡ cluster
  unfolding with_controller
  missing_lem missing = rw (with_controller, missing) refl

  found_lem :
      (link : SimClockTransport)
      → find cluster controller ≡ some link
      → (with_controller controller method cluster).1 ≡ replace controller ((method link).1) cluster
  unfolding with_controller
  found_lem link found = rw (with_controller, found) refl

  abbrev one : Bool → SimClockTransport → SimClockTransport
  one mine link = if mine then (method link).1 else link

  not_here :
      (mine : Bool)
      → controller == other ≡ mine
      → find cluster controller ≡ none
      → find cluster other ≡ mapped (one mine) (find cluster other)
  not_here false apart missing = unchanged (find cluster other)
    where
      unchanged : (o : Option SimClockTransport) → o ≡ mapped (one false) o
      unchanged none = refl
      unchanged (some link) = refl
  not_here true same missing =
      let nothing = sym (ap (find cluster) ((==_iff controller other).0 same)) ∙ missing in
      rw nothing refl

  here :
      (mine : Bool) (link : SimClockTransport)
      → controller == other ≡ mine
      → find cluster controller ≡ some link
      → (if mine then some ((method link).1) else find cluster other)
        ≡ mapped (one mine) (find cluster other)
  here false link apart found = unchanged (find cluster other)
    where
      unchanged : (o : Option SimClockTransport) → o ≡ mapped (one false) o
      unchanged none = refl
      unchanged (some link') = refl
  here true link same found =
      let it = sym (ap (find cluster) ((==_iff controller other).0 same)) ∙ found in rw it refl

  find-with_controller :
      find ((with_controller controller method cluster).1) other
      ≡ mapped (one (controller == other)) (find cluster other)
  find-with_controller = elim (Option-cases (find cluster controller)) [
    | inl missing ↦
        ap (λ c. find c other) (missing_lem missing) ∙ not_here (controller == other) refl missing
    | inr (link, found) ↦
        ap (λ c. find c other) (found_lem link found)
        ∙ find-replace controller other ((method link).1) cluster found
        ∙ here (controller == other) link refl found
  ]

find-applied :
    (controller other : ControllerId) (operation : Operation) (cluster : SimClockCluster)
    → find (applied controller operation cluster) other
      ≡ mapped
          (λ link. if controller == other then alone operation link else link)
          (find cluster other)
unfolding cluster_send_request cluster_receive_due cluster_drop_link cluster_restore_link
find-applied controller other (send host_send frame) cluster =
    find-with_controller controller other (send_by controller host_send frame) cluster
find-applied controller other (receive host_now) cluster =
    find-with_controller controller other (receive_by host_now) cluster
find-applied controller other drop cluster =
    find-with_controller {A = Unit {0}} controller other (λ link. (ok tt, drop_link link)) cluster
find-applied controller other restore cluster =
    find-with_controller {A = Unit {0}} controller other (λ link. (ok tt, restore_link link))
      cluster

-- The transport of a controller after any operations on any controllers of the cluster is what its own
-- operations, in their order, make of its transport by themselves; a controller that the cluster does
-- not have, it never has.
pub find-run_cluster :
    (controller : ControllerId) (operations : List (ControllerId × Operation))
    (cluster : SimClockCluster)
    → find (run_cluster operations cluster) controller
      ≡ mapped (run_alone controller operations) (find cluster controller)
unfolding run_alone
find-run_cluster controller [] cluster = itself (find cluster controller)
  where
    itself : (o : Option SimClockTransport) → o ≡ mapped (run_alone controller []) o
    itself none = refl
    itself (some link) = refl
find-run_cluster controller ((id, operation) ∷ rest) cluster =
    find-run_cluster controller rest (applied id operation cluster)
    ∙ ap (mapped (run_alone controller rest)) (find-applied id controller operation cluster)
    ∙ twice (find cluster controller)
  where
    twice :
        (o : Option SimClockTransport)
        → mapped
            (run_alone controller rest)
            (mapped (λ link. if id == controller then alone operation link else link) o)
          ≡ mapped (run_alone controller ((id, operation) ∷ rest)) o
    twice none = refl
    twice (some link) = refl

-- ===== src/Transport/Fifo.antt =====
-- crates/transport-adapter/src/lib.rs: the transports are queues of bytes, first in first out.
use dryer.Base.{
  ℕ, ◌≤◌, ◌≡◌, refl, sym, ap, ◌∙◌, Bool, true, false, inl, inr, List, [], ◌∷◌, ◌++◌, Result, ok,
  err, length, take, drop, min, length-take, take-append-drop, append_assoc, append-nil, Bool-cases,
  arith,
}
use dryer.Transport.Each.{concat}
use dryer.Transport.Streams.{
  StreamTransport, End, host, controller, other, MemoryPair, incoming, memory, Channel, ChannelPair,
  incoming_channel, channel, read_begun, read_channel, write_channel,
}

-- What one operation does to a queue: the bytes written and not yet read, before and after. A write
-- that succeeds puts its bytes at the back; a read takes at most `size` bytes from the front; one that
-- fails changes nothing.
abbrev pub Written : {E : Type 0} → List ℕ → List ℕ → Result E (Unit {0}) → List ℕ → Type 0
Written before bytes (ok _) after = after ≡ before ++ bytes
Written before bytes (err e) after = after ≡ before

abbrev pub Read : {E : Type 0} → List ℕ → ℕ → Result E (List ℕ) → List ℕ → Type 0
Read before size (ok bytes) after = (before ≡ bytes ++ after) × (length bytes ≤ size)
Read before size (err e) after = after ≡ before

-- The contract of a pair of ends: one writes, the other reads what waits for it.
pub record Fifo {T E : Type 0} (writer reader : StreamTransport T E) (waiting : T → List ℕ)
    : Type 0 where
  pub writes :
      (link : T) (bytes : List ℕ)
      → let (answer, link') = writer.write_bytes link bytes in
        Written (waiting link) bytes answer (waiting link')
  pub reads :
      (link : T) (size : ℕ)
      → let (answer, link') = reader.read_bytes link size in
        Read (waiting link) size answer (waiting link')

pub data Operation : Type 0 where
  write : (bytes : List ℕ) → Operation
  read : (size : ℕ) → Operation

abbrev pub accepted : {E : Type 0} → List ℕ → Result E (Unit {0}) → List ℕ
accepted bytes (ok _) = bytes
accepted bytes (err e) = []

abbrev pub received : {E : Type 0} → Result E (List ℕ) → List ℕ
received (ok bytes) = bytes
received (err e) = []

module _ {T E : Type 0} (writer reader : StreamTransport T E) where
  -- Any interleaving of the two ends' operations: the bytes written and those read, in order.
  unfoldable pub run : List Operation → T → List ℕ × List ℕ × T
  run [] link = ([], [], link)
  run (write bytes ∷ operations) link =
      let (answer, link') = writer.write_bytes link bytes in
      let (written, taken, last) = run operations link' in
      (accepted bytes answer ++ written, taken, last)
  run (read size ∷ operations) link =
      let (answer, link') = reader.read_bytes link size in
      let (written, taken, last) = run operations link' in (written, received answer ++ taken, last)

  module _ (waiting : T → List ℕ) (fifo : Fifo writer reader waiting) where
    accepted_lem :
        (before bytes : List ℕ) (answer : Result E (Unit {0})) (after : List ℕ)
        → Written before bytes answer after
        → before ++ accepted bytes answer ≡ after
    accepted_lem before bytes (ok _) after h = sym h
    accepted_lem before bytes (err e) after h = append-nil before ∙ sym h

    received_lem :
        (before : List ℕ) (size : ℕ) (answer : Result E (List ℕ)) (after : List ℕ)
        → Read before size answer after
        → before ≡ received answer ++ after
    received_lem before size (ok bytes) after (e, _) = e
    received_lem before size (err e) after h = sym h

    -- The contract, along any interleaving.
    pub run-Fifo :
        (operations : List Operation) (link : T)
        → let (written, taken, last) = run operations link in
          waiting link ++ written ≡ taken ++ waiting last
    unfolding run
    run-Fifo [] link = append-nil (waiting link)
    run-Fifo (write bytes ∷ operations) link =
        let (answer, link') = writer.write_bytes link bytes in
        let (written, taken, last) = run operations link' in
        sym (append_assoc (waiting link) (accepted bytes answer) written)
        ∙ ap (λ xs. xs ++ written)
            (accepted_lem (waiting link) bytes answer (waiting link') (fifo.writes link bytes))
        ∙ run-Fifo operations link'
    run-Fifo (read size ∷ operations) link =
        let (answer, link') = reader.read_bytes link size in
        let (written, taken, last) = run operations link' in
        ap (λ xs. xs ++ written)
          (received_lem (waiting link) size answer (waiting link') (fifo.reads link size))
        ∙ append_assoc (received answer) (waiting link') written
        ∙ ap (λ xs. received answer ++ xs) (run-Fifo operations link')
        ∙ sym (append_assoc (received answer) taken (waiting last))

taken_from :
    (size : ℕ) (xs : List ℕ)
    → (xs ≡ take (min size (length xs)) xs ++ drop (min size (length xs)) xs)
      × (length (take (min size (length xs)) xs) ≤ size)
taken_from size xs = (
  sym (take-append-drop (min size (length xs)) xs),
  omega (arith, length-take (min size (length xs)) xs),
)

-- Either end of a memory transport may write: the other end reads a queue.
pub memory-Fifo : (end : End) → Fifo (memory (other end)) (memory end) (incoming end)
memory-Fifo host = record {
  writes = λ link bytes. refl;
  reads = λ link size. taken_from size link.to_host;
}
memory-Fifo controller = record {
  writes = λ link bytes. refl;
  reads = λ link size. taken_from size link.to_controller;
}

-- The bytes that wait in one direction of a channel: the rest of the chunk begun, then the chunks.
abbrev pub waiting_in : Channel → List ℕ
waiting_in one = one.read_buf ++ concat one.chunks

concat_snoc :
    (chunks : List (List ℕ)) (bytes : List ℕ)
    → concat (chunks ++ (bytes ∷ [])) ≡ concat chunks ++ bytes
concat_snoc [] bytes = append-nil bytes
concat_snoc (chunk ∷ chunks) bytes =
    ap (λ xs. chunk ++ xs) (concat_snoc chunks bytes)
    ∙ sym (append_assoc chunk (concat chunks) bytes)

write_channel-Written :
    (one : Channel) (bytes : List ℕ)
    → let (answer, one') = write_channel one bytes in
      Written (waiting_in one) bytes answer (waiting_in one')
write_channel-Written one bytes = elim (Bool-cases one.receiver_alive) [
  | inl alive ↦ rw alive (
      ap (λ xs. one.read_buf ++ xs) (concat_snoc one.chunks bytes)
      ∙ sym (append_assoc one.read_buf (concat one.chunks) bytes))
  | inr gone ↦ rw gone refl
]

read_begun-Read :
    (chunks : List (List ℕ)) (read_buf : List ℕ) (sending receiving : Bool) (size : ℕ)
    → let one : Channel = record {
      chunks = chunks;
      read_buf = read_buf;
      sender_alive = sending;
      receiver_alive = receiving;
    } in
      let (answer, one') = read_begun one size in
      Read (waiting_in one) size answer (waiting_in one')
read_begun-Read chunks read_buf sending receiving size =
    let (split, few) = taken_from size read_buf in
    (ap (λ xs. xs ++ concat chunks) split ∙ append_assoc _ _ (concat chunks), few)

read_channel-Read :
    (chunks : List (List ℕ)) (read_buf : List ℕ) (sending receiving : Bool) (size : ℕ)
    → let one : Channel = record {
      chunks = chunks;
      read_buf = read_buf;
      sender_alive = sending;
      receiver_alive = receiving;
    } in
      let (answer, one') = read_channel one size in
      Read (waiting_in one) size answer (waiting_in one')
unfolding read_channel
read_channel-Read [] [] true receiving size = (refl, omega arith)
read_channel-Read [] [] false receiving size = refl
read_channel-Read (chunk ∷ chunks) [] sending receiving size =
    read_begun-Read chunks chunk sending receiving size
read_channel-Read chunks (b ∷ bytes) sending receiving size =
    read_begun-Read chunks (b ∷ bytes) sending receiving size

read_one :
    (one : Channel) (size : ℕ)
    → let (answer, one') = read_channel one size in
      Read (waiting_in one) size answer (waiting_in one')
read_one one size =
    read_channel-Read one.chunks one.read_buf one.sender_alive one.receiver_alive size

abbrev pub waiting_for : End → ChannelPair → List ℕ
waiting_for end channels = waiting_in (incoming_channel end channels)

-- The same of a channel transport, which keeps its bytes in chunks.
pub channel-Fifo : (end : End) → Fifo (channel (other end)) (channel end) (waiting_for end)
channel-Fifo host = record {
  writes = λ link bytes. write_channel-Written link.towards_host bytes;
  reads = λ link size. read_one link.towards_host size;
}
channel-Fifo controller = record {
  writes = λ link bytes. write_channel-Written link.towards_controller bytes;
  reads = λ link size. read_one link.towards_controller size;
}

-- Bytes that one end of a memory pair or of a channel pair has written, in any interleaving with the
-- other end's reads of any sizes, are received in the order written: what was received and what still
-- waits are together what waited at first and then every write that succeeded, with nothing lost,
-- repeated or reordered.
pub run_in_order :
    (end : End) (operations : List Operation) (wires : MemoryPair) (channels : ChannelPair)
    → (let (written, taken, last) = run (memory (other end)) (memory end) operations wires in
        incoming end wires ++ written ≡ taken ++ incoming end last)
      × (let (written, taken, last) = run (channel (other end)) (channel end) operations channels in
          waiting_for end channels ++ written ≡ taken ++ waiting_for end last)
run_in_order end operations wires channels = (
  run-Fifo (memory (other end)) (memory end) (incoming end) (memory-Fifo end) operations wires,
  run-Fifo (channel (other end)) (channel end) (waiting_for end) (channel-Fifo end) operations
      channels,
)

-- ===== src/Runner/Delivery.antt =====
-- crates/workflow-runner/src/lib.rs: the delivery of a batch through a command client.
use dryer.Base.{
  ℕ, suc, ◌≡◌, refl, ap, Option, none, some, List, [], ◌∷◌, length, Result, ok, Result-cases,
  Option-cases, inl, inr, take,
}
use dryer.Base.Outcome.{ok-injective}
use dryer.Client.{SendFrame, SendReceipt, SendError, CommandClient}
use dryer.Client.Commands.{following, frame_of, deliver, send_inner}
use dryer.Protocol.{Command, CommandEnvelope, Tick}
use dryer.Protocol.Encode.{encode_command}
use dryer.Runner.{WorkflowRunner}
use dryer.Runner.Dispatch.{send_envelope, send_all, dispatch_to_client, next_dispatch_batch}

-- Receipts with successive sequence numbers of a u32, from a first one on.
abbrev pub Numbered : ℕ → List SendReceipt → Type 0
Numbered sequence [] = Unit {0}
Numbered sequence (r ∷ rs) = (r.sequence ≡ sequence) × Numbered (following sequence) rs

module _ {S E : Type 0} (send_frame : SendFrame S E) where
  -- A receipt, and the client behind it.
  abbrev Receipted : CommandClient S → Result (SendError E) SendReceipt × CommandClient S → Type 0
  Receipted client p =
      (receipt : SendReceipt)
      → p.0 ≡ ok receipt
      → (receipt.sequence ≡ client.next_sequence)
        × ((p.1).next_sequence ≡ following client.next_sequence)

  send_inner-Receipted :
      (client : CommandClient S) (at : Option Tick) (command : Command)
      → Receipted client (send_inner send_frame client at command)
  unfolding send_inner
  send_inner-Receipted client at command = elim (Result-cases (encoding.0)) [
    | inr (e, refused) ↦ rw (send_inner, refused) (λ receipt h. cc)
    | inl (n, encoded) ↦ rw (send_inner, encoded) (delivered n (encoding.1))
  ]
    where
      encoding : Result dryer.Protocol.EncodeError ℕ × List ℕ
      encoding = encode_command (frame_of client.next_sequence at command) client.frame

      delivered : (n : ℕ) (frame : List ℕ) → Receipted client (deliver send_frame client n frame)
      delivered n frame = elim (Result-cases ((send_frame client.sink (take n frame)).0)) [
        | inl (_, sent) ↦ rw (deliver, sent) (λ receipt h. (rw (← ok-injective h) refl, refl))
        | inr (_, failed) ↦ rw (deliver, failed) (λ receipt h. cc)
      ]

  send_envelope-Receipted :
      (client : CommandClient S) (e : CommandEnvelope)
      → Receipted client (send_envelope send_frame client e)
  send_envelope-Receipted client e = elim (Option-cases e.execute_at) [
    | inl now ↦ rw (send_envelope, now) (send_inner-Receipted client none e.command)
    | inr (tick, later) ↦
        rw (send_envelope, later) (send_inner-Receipted client (some tick) e.command)
  ]

  send_all-Numbered :
      (client : CommandClient S) (es : List CommandEnvelope) (receipts : List SendReceipt)
      → (send_all send_frame client es).0 ≡ ok receipts
      → Numbered client.next_sequence receipts × (length receipts ≡ length es)
  unfolding send_all
  send_all-Numbered client [] receipts h = rw (← ok-injective h) (tt, refl)
  send_all-Numbered client (e ∷ es) receipts h =
      let p = send_envelope send_frame client e in
      elim (Result-cases (p.0)) [
        | inr (problem, failed) ↦ absurd (cc (rw (send_all, failed) at h))
        | inl (receipt, sent) ↦ elim (Result-cases ((send_all send_frame (p.1) es).0)) [
          | inr (problem, failed) ↦ absurd (cc (rw (send_all, sent, failed) at h))
          | inl (rest, done) ↦
              let (first, next) = send_envelope-Receipted client e receipt sent in
              let (numbered, counted) = send_all-Numbered (p.1) es rest done in
              let built = ok-injective (rw (send_all, sent, done) at h) in
              rw (← built) ((first, rw next at numbered), ap suc counted)
        ]
      ]

  -- A delivery that succeeds has a receipt for every command of the batch, and the receipts carry
  -- the client's successive sequence numbers from its next one on.
  pub dispatch_to_client-Numbered :
      (runner : WorkflowRunner) (client : CommandClient S) (receipts : List SendReceipt)
      → (dispatch_to_client send_frame runner client).0 ≡ ok receipts
      → Numbered client.next_sequence receipts
        × (length receipts ≡ length ((next_dispatch_batch runner).0))
  unfolding dispatch_to_client
  dispatch_to_client-Numbered runner client receipts h =
      send_all-Numbered client ((next_dispatch_batch runner).0) receipts h

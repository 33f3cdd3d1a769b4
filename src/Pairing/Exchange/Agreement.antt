-- ===== src/Pairing/Exchange/Agreement.antt =====
-- The outcomes of the two machines of pairing.rs over a network that does not forge.
use mathlib.Core.List.{Memᴰ}
use local_transfer.Prelude.{All, All-mem, ℕ, ◌≡◌, ◌≢◌, [], ◌∷◌, arith}
use local_transfer.Pairing.Message.{
  UuidBytes, PairingRejectionReason, request_accepted, request_rejected, encode,
}
use local_transfer.Pairing.Request.{ready_for_next_pairing_stage, rejected}
use local_transfer.Pairing.Response.{
  PairingResponse, PairingResponseState, from_request, accept, reject, mark_reply_sent,
}
use local_transfer.Pairing.Response
use local_transfer.Pairing.Response.Steps.{Decided}
use local_transfer.Pairing.Exchange.{Party, Exchange, Reach, start}
use local_transfer.Pairing.Exchange.Agreed.{
  Answered, Sent, Reach-Agreed, start-Agreed, encode_injective,
}

module _ {Token : Type 0} ⦃u : UuidBytes Token⦄ where
  -- A responder of the attempt decided for acceptance, and sent that and nothing else.
  abbrev pub HasAccepted : Exchange Token → Type 0
  HasAccepted x =
      (p : Party Token) × Memᴰ p x.parties
      × (p.machine.attempt_id ≡ x.initiator.attempt_id)
      × (p.replies ≡ encode (request_accepted x.initiator.attempt_id) ∷ [])
      × (p.machine.state ≢ Response.awaiting_decision)
      × ((reason : PairingRejectionReason) → p.machine.state ≢ Response.rejected reason)

  -- A responder of the attempt decided for rejection with this reason, and sent that and nothing
  -- else.
  abbrev pub HasRejected : PairingRejectionReason → Exchange Token → Type 0
  HasRejected reason x =
      (p : Party Token) × Memᴰ p x.parties
      × (p.machine.attempt_id ≡ x.initiator.attempt_id)
      × (p.replies ≡ encode (request_rejected x.initiator.attempt_id reason) ∷ [])
      × (p.machine.state ≡ Response.rejected reason)

  Decided-accepted :
      (state : PairingResponseState) (id : Token)
      → Decided state (encode (request_accepted id) ∷ []) id
      → (state ≢ Response.awaiting_decision)
        × ((reason : PairingRejectionReason) → state ≢ Response.rejected reason)
  Decided-accepted Response.awaiting_decision id d = cc
  Decided-accepted (Response.rejected why) id d =
      absurd (ground (arith, encode_injective (request_accepted id) (request_rejected id why)))
  Decided-accepted _ id d = (λ e. cc, λ reason e. cc)

  Decided-rejected :
      (state : PairingResponseState) (reason : PairingRejectionReason) (id : Token)
      → Decided state (encode (request_rejected id reason) ∷ []) id
      → state ≡ Response.rejected reason
  Decided-rejected Response.awaiting_decision reason id d = cc
  Decided-rejected (Response.rejected why) reason id d =
      ground (arith, encode_injective (request_rejected id reason) (request_rejected id why))
  Decided-rejected _ reason id d =
      ground (arith, encode_injective (request_rejected id reason) (request_accepted id))

  accepted_responder :
      (x : Exchange Token)
      → All (Answered x.initiator.attempt_id) x.parties
      → Sent (encode (request_accepted x.initiator.attempt_id)) x.parties
      → HasAccepted x
  accepted_responder x a (p, m, e) =
      let (same, d) = All-mem (Answered x.initiator.attempt_id) x.parties m a in
      let (decided, kept) = Decided-accepted p.machine.state x.initiator.attempt_id (rw e at d) in
      (p, m, same, e, decided, kept)

  rejected_responder :
      (reason : PairingRejectionReason) (x : Exchange Token)
      → All (Answered x.initiator.attempt_id) x.parties
      → Sent (encode (request_rejected x.initiator.attempt_id reason)) x.parties
      → HasRejected reason x
  rejected_responder reason x a (p, m, e) =
      let (same, d) = All-mem (Answered x.initiator.attempt_id) x.parties m a in
      (p, m, same, e, Decided-rejected p.machine.state reason x.initiator.attempt_id (rw e at d))

  -- In every exchange that is reachable from the start of one attempt over a network that loses,
  -- repeats, delays and reorders messages but makes none up, where every arrival of a request may
  -- make another responder: if the initiator is ready, some responder decided to accept the same
  -- attempt and handed exactly the one acceptance of it to the transport; if the initiator is
  -- rejected with a reason, some responder rejected the same attempt with that reason and handed
  -- exactly that rejection to the transport.
  pub outcomes_agree :
      (id : Token) (deadline : ℕ) (x : Exchange Token)
      → Reach (start id deadline) x
      → (x.initiator.state ≡ ready_for_next_pairing_stage → HasAccepted x)
        × ((reason : PairingRejectionReason)
            → x.initiator.state ≡ rejected reason
            → HasRejected reason x)
  outcomes_agree id deadline x r =
      let a = Reach-Agreed r (start-Agreed id deadline) in
      (
        λ e. accepted_responder x a.answered (rw e at a.believed),
        λ reason e. rejected_responder reason x a.answered (rw e at a.believed),
      )

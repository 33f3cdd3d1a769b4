-- ===== src/Examples/Pairing.antt =====
-- One attempt of pairing.rs from its request to its acceptance, and others that end otherwise.
use mathlib.Core.List.{Memᴰ}
use local_transfer.Prelude.{modify, ◌≡◌, refl, Bytes, ok, arith, [], ◌∷◌}
use local_transfer.Pairing.Message.{
  request, request_accepted, request_rejected, declined, encode, decode, PairingRejectionReason,
}
use local_transfer.Pairing.Message.Codec.{decode-encode, encode-decode}
use local_transfer.Pairing.Request.{
  PairingRequest, with_attempt_id, request_message, ready_for_next_pairing_stage, rejected,
  timed_out, cancelled,
}
use local_transfer.Pairing.Request.Steps.{step, run, mark_sent_at, remote_message_at, step_late}
use local_transfer.Pairing.Request.Traces.{
  ready_needs_acceptance, SentThenAccepted, sent_accepted_ready, run_terminal,
}
use local_transfer.Pairing.Response
use local_transfer.Pairing.Response.{PairingResponse, from_request}
use local_transfer.Pairing.Response.Steps as Responder
use local_transfer.Pairing.Response.Steps.{
  Decided, response_ignored_unchanged, response_step_late, step_ready,
}
use local_transfer.Pairing.Response.Traces.{replies, replies-Decided, accepted_sent_ready}
use local_transfer.Pairing.Exchange.{
  Party, respond, Exchange, Reach, here, next, hands_over, initiator_input, request_arrives,
  responder_input, reply_arrives, start,
}
use local_transfer.Pairing.Exchange.Agreement.{outcomes_agree, HasAccepted, HasRejected}
use local_transfer.Examples.Uuid.{Sixteen, attempt, sixteen_bytes}

abbrev answer : Bytes
answer = encode (request_accepted attempt)

decode-encode_example :
    decode (encode (request_rejected attempt declined)) ≡ ok (request_rejected attempt declined)
decode-encode_example = decode-encode (request_rejected attempt declined)

encode-decode_example : encode (request_accepted attempt) ≡ answer
encode-decode_example =
    encode-decode answer (request_accepted attempt) (decode-encode (request_accepted attempt))

abbrev asked : PairingRequest Sixteen
asked = with_attempt_id attempt 10

abbrev called_off : PairingRequest Sixteen
called_off = record asked { state = cancelled }

ready_needs_acceptance_example :
    SentThenAccepted attempt 10 (mark_sent_at 1 ∷ remote_message_at answer 2 ∷ [])
unfolding with_attempt_id
ready_needs_acceptance_example =
    ready_needs_acceptance asked (mark_sent_at 1 ∷ remote_message_at answer 2 ∷ []) refl
      (sent_accepted_ready attempt 10 1 2 (omega arith) (omega arith))

sent_accepted_ready_example :
    (run asked (mark_sent_at 1 ∷ remote_message_at answer 2 ∷ [])).state
    ≡ ready_for_next_pairing_stage
sent_accepted_ready_example = sent_accepted_ready attempt 10 1 2 (omega arith) (omega arith)

run_terminal_example :
    run called_off (mark_sent_at 1 ∷ remote_message_at answer 2 ∷ []) ≡ called_off
run_terminal_example =
    run_terminal called_off (mark_sent_at 1 ∷ remote_message_at answer 2 ∷ []) refl

step_late_example :
    (step asked (remote_message_at answer 10)).0 ≡ record asked { state = timed_out }
unfolding with_attempt_id
step_late_example = step_late asked (remote_message_at answer 10) 10 refl refl (omega arith)

abbrev presented : PairingResponse Sixteen
presented = record { attempt_id = attempt; deadline = 10; state = Response.awaiting_decision }

attempt-presented : from_request (encode (request attempt)) 10 ≡ ok presented
unfolding from_request
attempt-presented = rw (decode-encode (request attempt)) refl

replies-Decided_example :
    Decided
      (Responder.run presented (Responder.reject_at declined 3 ∷ [])).state
      (replies presented (Responder.reject_at declined 3 ∷ []))
      attempt
replies-Decided_example =
    replies-Decided (encode (request attempt)) 10 presented (Responder.reject_at declined 3 ∷ [])
      attempt-presented

accepted_sent_ready_example :
    (r : PairingResponse Sixteen) × (from_request (encode (request attempt)) 10 ≡ ok r)
    × ((Responder.run r (Responder.accept_at 3 ∷ Responder.mark_sent_at 4 ∷ [])).state
        ≡ Response.ready_for_next_pairing_stage)
    × (replies r (Responder.accept_at 3 ∷ Responder.mark_sent_at 4 ∷ []) ≡ answer ∷ [])
accepted_sent_ready_example = accepted_sent_ready attempt 10 3 4 (omega arith) (omega arith)

abbrev dropped : PairingResponse Sixteen
dropped = record presented { state = Response.cancelled }

response_step_late_example :
    (Responder.step presented (Responder.accept_at 10)).0
    ≡ record presented { state = Response.timed_out }
response_step_late_example =
    response_step_late presented (Responder.accept_at 10) 10 refl refl (omega arith)

-- The whole exchange: handed over, sent, arrived, accepted, answered.
abbrev created : Exchange Sixteen
created = start attempt 10

abbrev handed : Exchange Sixteen
handed = record created {
  initiator = (request_message created.initiator 1).0;
  requests = encode (request attempt) ∷ created.requests;
}

abbrev waiting : Exchange Sixteen
waiting = record handed { initiator = (step handed.initiator (mark_sent_at 2)).0 }

abbrev arrived : Exchange Sixteen
arrived = record waiting {
  parties = record { machine = presented; replies = [] } ∷ waiting.parties;
}

-- The request arrives again and makes a second responder.
abbrev arrived_again : Exchange Sixteen
arrived_again = record arrived {
  parties = record { machine = presented; replies = [] } ∷ arrived.parties;
}

abbrev accepted : Exchange Sixteen
accepted = record arrived_again {
  parties = modify 1 (respond (Responder.accept_at 3)) arrived_again.parties;
}

abbrev replier : Party Sixteen
replier = respond (Responder.accept_at 3) (record { machine = presented; replies = [] })

abbrev answered : Exchange Sixteen
answered = record accepted { initiator = (step accepted.initiator (remote_message_at answer 4)).0 }

answered_reached : Reach created answered
unfolding start with_attempt_id request_message Responder.step Response.accept
answered_reached =
    next
      (next
        (next
          (next
            (next (next here (hands_over 1 (encode (request attempt)) refl refl))
              (initiator_input (mark_sent_at 2) tt refl))
            (request_arrives (encode (request attempt)) 10 presented (Memᴰ.head refl)
              attempt-presented refl))
          (request_arrives (encode (request attempt)) 10 presented (Memᴰ.head refl)
            attempt-presented refl))
        (responder_input 1 (Responder.accept_at 3) refl))
      (reply_arrives answer 4 replier (Memᴰ.tail (Memᴰ.head refl)) (Memᴰ.head refl) refl)

outcomes_agree_example :
    (answered.initiator.state ≡ ready_for_next_pairing_stage → HasAccepted answered)
    × ((reason : PairingRejectionReason)
        → answered.initiator.state ≡ rejected reason
        → HasRejected reason answered)
outcomes_agree_example = outcomes_agree attempt 10 answered answered_reached

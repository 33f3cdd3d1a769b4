-- ===== src/Pairing/Request/Steps.antt =====
-- One input to the initiator of pairing.rs: the calls a caller can make, and what each can change.
use local_transfer.Prelude.{
  ℕ, ◌≤◌, ◌<◌, ◌≡◌, ◌≢◌, ◌⊎◌, true, false, Option, none, some, Bytes, ok, arith, List, [], ◌∷◌,
}
use local_transfer.Pairing.Message.{UuidBytes, request_accepted, decode}
use local_transfer.Pairing.Request.{
  PairingRequest, PairingRequestEvent, PairingRequestIgnored, request_created,
  awaiting_remote_response, ready_for_next_pairing_stage, timed_out, ignored, is_terminal,
  mark_request_sent, check_deadline, cancel, note_transport_failure, request_message,
  handle_remote_message,
}

pub data Input : Type 0 where
  request_message_at : ℕ → Input
  mark_sent_at : ℕ → Input
  remote_message_at : Bytes → ℕ → Input
  deadline_check_at : ℕ → Input
  local_cancel transport_failed : Input

-- The time at which an input reads the deadline, if it does.
abbrev pub input_time : Input → Option ℕ
input_time (request_message_at now) = some now
input_time (mark_sent_at now) = some now
input_time (remote_message_at raw now) = some now
input_time (deadline_check_at now) = some now
input_time local_cancel = none
input_time transport_failed = none

-- The report that the request was handed to the transport, in time.
abbrev pub Sends : ℕ → Input → Type 0
Sends deadline (mark_sent_at now) = now < deadline
Sends deadline _ = ⊥

module _ {Token : Type 0} ⦃u : UuidBytes Token⦄ where
  -- `request_message` reports bytes, not an event.
  unfoldable pub step :
      PairingRequest Token → Input → PairingRequest Token × Option PairingRequestEvent
  step r (request_message_at now) = ((request_message r now).0, none)
  step r (mark_sent_at now) = let (s, e) = mark_request_sent r now in (s, some e)
  step r (remote_message_at raw now) = let (s, e) = handle_remote_message r raw now in (s, some e)
  step r (deadline_check_at now) = let (s, e) = check_deadline r now in (s, some e)
  step r local_cancel = let (s, e) = cancel r in (s, some e)
  step r transport_failed = let (s, e) = note_transport_failure r in (s, some e)

  unfoldable pub run : PairingRequest Token → List Input → PairingRequest Token
  run r [] = r
  run r (i ∷ inputs) = run (step r i).0 inputs

  -- No input changes the correlation identifier or the deadline.
  pub step_fixed :
      (r : PairingRequest Token) (i : Input)
      → ((step r i).0.attempt_id ≡ r.attempt_id) × ((step r i).0.deadline ≡ r.deadline)
  unfolding step request_message mark_request_sent handle_remote_message check_deadline cancel
      note_transport_failure
  step_fixed r (request_message_at now) = ground arith
  step_fixed r (mark_sent_at now) = ground arith
  step_fixed r (remote_message_at raw now) = ground arith
  step_fixed r (deadline_check_at now) = ground arith
  step_fixed r local_cancel = ground arith
  step_fixed r transport_failed = ground arith

  -- An input that the initiator reports as ignored leaves the whole attempt as it was.
  pub ignored_unchanged :
      (r : PairingRequest Token) (i : Input) (why : PairingRequestIgnored)
      → (step r i).1 ≡ some (ignored why)
      → (step r i).0 ≡ r
  unfolding step mark_request_sent handle_remote_message check_deadline cancel
      note_transport_failure
  ignored_unchanged r (request_message_at now) why h = cc
  ignored_unchanged r (mark_sent_at now) why h = ground arith
  ignored_unchanged r (remote_message_at raw now) why h = ground arith
  ignored_unchanged r (deadline_check_at now) why h = ground arith
  ignored_unchanged r local_cancel why h = ground arith
  ignored_unchanged r transport_failed why h = ground arith

  -- A terminal attempt is left as it was by every input.
  pub step_terminal :
      (r : PairingRequest Token) (i : Input) → is_terminal r ≡ true → (step r i).0 ≡ r
  unfolding step request_message mark_request_sent handle_remote_message check_deadline cancel
      note_transport_failure
  step_terminal r (request_message_at now) h = ground arith
  step_terminal r (mark_sent_at now) h = ground arith
  step_terminal r (remote_message_at raw now) h = ground arith
  step_terminal r (deadline_check_at now) h = ground arith
  step_terminal r local_cancel h = ground arith
  step_terminal r transport_failed h = ground arith

  -- An acceptance of this attempt, received in time.
  abbrev pub Accepts : Token → ℕ → Input → Type 0
  Accepts id deadline (remote_message_at raw now) =
      (now < deadline) × (decode raw ≡ ok (request_accepted id))
  Accepts id deadline _ = ⊥

  -- From `request_created` an input sends the request, ends the attempt, or changes nothing.
  pub step_created :
      (r : PairingRequest Token) (i : Input)
      → r.state ≡ request_created
      → (Sends r.deadline i × ((step r i).0.state ≡ awaiting_remote_response))
        ⊎ ((step r i).0 ≡ r)
        ⊎ ((is_terminal (step r i).0 ≡ true) × ((step r i).0.state ≢ ready_for_next_pairing_stage))
  unfolding step request_message mark_request_sent handle_remote_message check_deadline cancel
      note_transport_failure
  step_created r (request_message_at now) h = ground arith
  step_created r (mark_sent_at now) h = ground arith
  step_created r (remote_message_at raw now) h = ground arith
  step_created r (deadline_check_at now) h = ground arith
  step_created r local_cancel h = ground arith
  step_created r transport_failed h = ground arith

  -- From `awaiting_remote_response` an input is the acceptance, changes nothing, or ends the
  -- attempt otherwise.
  pub step_awaiting :
      (r : PairingRequest Token) (i : Input)
      → r.state ≡ awaiting_remote_response
      → Accepts r.attempt_id r.deadline i
        ⊎ ((step r i).0 ≡ r)
        ⊎ ((is_terminal (step r i).0 ≡ true) × ((step r i).0.state ≢ ready_for_next_pairing_stage))
  unfolding step request_message mark_request_sent handle_remote_message check_deadline cancel
      note_transport_failure
  step_awaiting r (request_message_at now) h = ground arith
  step_awaiting r (mark_sent_at now) h = ground arith
  step_awaiting r (remote_message_at raw now) h = ground arith
  step_awaiting r (deadline_check_at now) h = ground arith
  step_awaiting r local_cancel h = ground arith
  step_awaiting r transport_failed h = ground arith

  -- At or after its deadline every input that carries a time ends an initiator that is not
  -- terminal as timed out, with the identifier and the deadline unchanged.
  pub step_late :
      (r : PairingRequest Token) (i : Input) (now : ℕ)
      → is_terminal r ≡ false
      → input_time i ≡ some now
      → r.deadline ≤ now
      → (step r i).0 ≡ record r { state = timed_out }
  unfolding step request_message mark_request_sent handle_remote_message check_deadline
  step_late r (request_message_at t) now live at late = ground arith
  step_late r _ now live at late = ground arith

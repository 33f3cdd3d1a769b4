-- ===== src/Pairing/Response/Steps.antt =====
-- One input to the responder of pairing.rs: the calls a caller can make, and what each can change.
use local_transfer.Prelude.{
  ℕ, ◌≤◌, ◌<◌, ◌≡◌, ◌≢◌, refl, ◌⊎◌, true, false, Option, none, some, arith, List, [], ◌∷◌, ◌++◌,
  Bytes, append-nil,
}
use local_transfer.Pairing.Message.{
  UuidBytes, PairingRejectionReason, request_accepted, request_rejected, encode,
}
use local_transfer.Pairing.Response.{
  PairingResponse, PairingResponseEvent, PairingResponseIgnored, PairingResponseState,
  awaiting_decision, accepted_awaiting_send, ready_for_next_pairing_stage, rejected, timed_out,
  accepted, was_rejected, ignored, is_terminal, accept, reject, mark_reply_sent, cancel,
  note_transport_failure, check_deadline,
}

pub data Input : Type 0 where
  accept_at : ℕ → Input
  reject_at : PairingRejectionReason → ℕ → Input
  mark_sent_at : ℕ → Input
  deadline_check_at : ℕ → Input
  local_cancel transport_failed : Input

abbrev pub input_time : Input → Option ℕ
input_time (accept_at now) = some now
input_time (reject_at reason now) = some now
input_time (mark_sent_at now) = some now
input_time (deadline_check_at now) = some now
input_time local_cancel = none
input_time transport_failed = none

-- The replies that an event hands to the transport.
abbrev pub emitted : PairingResponseEvent → List Bytes
emitted (accepted bytes) = bytes ∷ []
emitted (was_rejected bytes) = bytes ∷ []
emitted _ = []

module _ {Token : Type 0} ⦃u : UuidBytes Token⦄ where
  unfoldable pub step : PairingResponse Token → Input → PairingResponse Token × PairingResponseEvent
  step r (accept_at now) = accept r now
  step r (reject_at reason now) = reject r reason now
  step r (mark_sent_at now) = mark_reply_sent r now
  step r (deadline_check_at now) = check_deadline r now
  step r local_cancel = cancel r
  step r transport_failed = note_transport_failure r

  unfoldable pub run : PairingResponse Token → List Input → PairingResponse Token
  run r [] = r
  run r (i ∷ inputs) = run (step r i).0 inputs

  -- No input changes the correlation identifier or the deadline.
  pub step_fixed :
      (r : PairingResponse Token) (i : Input)
      → ((step r i).0.attempt_id ≡ r.attempt_id) × ((step r i).0.deadline ≡ r.deadline)
  unfolding step accept reject mark_reply_sent check_deadline cancel note_transport_failure
  step_fixed r (accept_at now) = ground arith
  step_fixed r _ = ground arith

  -- An input that the responder reports as ignored leaves the whole attempt as it was.
  pub response_ignored_unchanged :
      (r : PairingResponse Token) (i : Input) (why : PairingResponseIgnored)
      → (step r i).1 ≡ ignored why
      → (step r i).0 ≡ r
  unfolding step accept reject mark_reply_sent check_deadline cancel note_transport_failure
  response_ignored_unchanged r (accept_at now) why h = ground arith
  response_ignored_unchanged r _ why h = ground arith

  -- A terminal attempt is left as it was by every input.
  pub step_terminal :
      (r : PairingResponse Token) (i : Input) → is_terminal r ≡ true → (step r i).0 ≡ r
  unfolding step accept reject mark_reply_sent check_deadline cancel note_transport_failure
  step_terminal r (accept_at now) h = ground arith
  step_terminal r _ h = ground arith

  -- At or after its deadline every input that carries a time ends a responder that is not terminal
  -- as timed out, with the identifier and the deadline unchanged.
  pub response_step_late :
      (r : PairingResponse Token) (i : Input) (now : ℕ)
      → is_terminal r ≡ false
      → input_time i ≡ some now
      → r.deadline ≤ now
      → (step r i).0 ≡ record r { state = timed_out }
  unfolding step accept reject mark_reply_sent check_deadline
  response_step_late r (accept_at t) now live at late = ground arith
  response_step_late r _ now live at late = ground arith

  -- The replies sent so far are those that the state stands for: none before a decision, the one
  -- acceptance or the one rejection after it.
  abbrev pub Decided : PairingResponseState → List Bytes → Token → Type 0
  Decided awaiting_decision sent id = sent ≡ []
  Decided accepted_awaiting_send sent id = sent ≡ encode (request_accepted id) ∷ []
  Decided ready_for_next_pairing_stage sent id = sent ≡ encode (request_accepted id) ∷ []
  Decided (rejected reason) sent id = sent ≡ encode (request_rejected id reason) ∷ []
  Decided _ sent id = (sent ≡ []) ⊎ (sent ≡ encode (request_accepted id) ∷ [])

  pub step-Decided :
      (r : PairingResponse Token) (i : Input) (sent : List Bytes)
      → Decided r.state sent r.attempt_id
      → Decided (step r i).0.state (sent ++ emitted (step r i).1) r.attempt_id
  unfolding step accept reject mark_reply_sent check_deadline cancel note_transport_failure
  step-Decided r (accept_at now) sent h = ground (arith, append-nil sent)
  step-Decided r _ sent h = ground (arith, append-nil sent)

  -- Becoming ready takes the timely report that an acceptance was sent; accepting takes a timely
  -- decision.
  pub step_ready :
      (r : PairingResponse Token) (i : Input)
      → r.state ≢ ready_for_next_pairing_stage
      → (step r i).0.state ≡ ready_for_next_pairing_stage
      → (r.state ≡ accepted_awaiting_send) × (now : ℕ) × (i ≡ mark_sent_at now) × (now < r.deadline)
  unfolding step accept reject mark_reply_sent check_deadline cancel note_transport_failure
  step_ready r (mark_sent_at now) n h = (ground arith, now, refl, ground arith)
  step_ready r (accept_at now) n h = absurd (ground arith)
  step_ready r (reject_at reason now) n h = absurd (ground arith)
  step_ready r (deadline_check_at now) n h = absurd (ground arith)
  step_ready r local_cancel n h = absurd (ground arith)
  step_ready r transport_failed n h = absurd (ground arith)

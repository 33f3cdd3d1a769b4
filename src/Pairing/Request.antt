-- ===== src/Pairing/Request.antt =====
-- The initiator `PairingRequest` of pairing.rs. A method returns the new record and its event;
-- a `Duration` is a number of nanoseconds on the caller's timeline.
pub mod Steps
pub mod Traces
use local_transfer.Prelude.{
  ℕ, ◌≤◌, ◌≡◌, Bool, true, false, not, Option, none, some, List, [], ◌∷◌, leb, if◌then◌else◌, Bytes,
  Result, ok, err, ite,
}
use local_transfer.Pairing.Message.{
  UuidBytes, PairingRejectionReason, PairingMessage, request, request_accepted, request_rejected,
  PairingMessageError, encode, decode, message_attempt_id,
}

pub data PairingRequestFailure : Type 0 where
  protocol : PairingMessageError → PairingRequestFailure
  unexpected_message transport_failure : PairingRequestFailure

pub data PairingRequestIgnored : Type 0 where
  already_resolved already_sent not_awaiting_response attempt_id_mismatch : PairingRequestIgnored

pub data PairingRequestState : Type 0 where
  request_created awaiting_remote_response ready_for_next_pairing_stage : PairingRequestState
  rejected : PairingRejectionReason → PairingRequestState
  cancelled timed_out : PairingRequestState
  failed : PairingRequestFailure → PairingRequestState

-- The source calls the events as the states; `ready`, `was_rejected`, `was_cancelled`, `has_timed_out`
-- and `has_failed` are its `ReadyForNextPairingStage`, `Rejected`, `Cancelled`, `TimedOut`, `Failed`.
pub data PairingRequestEvent : Type 0 where
  pending awaiting_response ready : PairingRequestEvent
  was_rejected : PairingRejectionReason → PairingRequestEvent
  was_cancelled has_timed_out : PairingRequestEvent
  has_failed : PairingRequestFailure → PairingRequestEvent
  ignored : PairingRequestIgnored → PairingRequestEvent

pub record PairingRequest (Token : Type 0) : Type 0 where
  pub attempt_id : Token
  pub deadline : ℕ
  pub state : PairingRequestState

abbrev pub is_terminal_state : PairingRequestState → Bool
is_terminal_state request_created = false
is_terminal_state awaiting_remote_response = false
is_terminal_state _ = true

-- `if let Some(event) = self.short_circuit(now) { return event; }` before the rest of a method.
abbrev pub or_return : {S E : Type 0} → S × Option E → (S → S × E) → S × E
or_return (s, some event) rest = (s, event)
or_return (s, none) rest = rest s

module _ {Token : Type 0} where
  -- `with_attempt_id`; `initiate` passes it the identifier that `Uuid::new_v4` returned.
  unfoldable pub with_attempt_id : Token → ℕ → PairingRequest Token
  with_attempt_id attempt_id deadline = record {
    attempt_id = attempt_id;
    deadline = deadline;
    state = request_created;
  }

  unfoldable pub initiate : (Unit {0} → Token) → ℕ → PairingRequest Token
  unfolding with_attempt_id
  initiate generate deadline = with_attempt_id (generate tt) deadline

  abbrev pub is_terminal : PairingRequest Token → Bool
  is_terminal r = is_terminal_state r.state

  unfoldable pub short_circuit :
      PairingRequest Token → ℕ → PairingRequest Token × Option PairingRequestEvent
  short_circuit r now =
      if is_terminal r
      then (r, some (ignored already_resolved))
      else if leb r.deadline now
      then (record r { state = timed_out }, some has_timed_out)
      else (r, none)

  unfoldable pub fail :
      PairingRequest Token → PairingRequestFailure → PairingRequest Token × PairingRequestEvent
  fail r failure = (record r { state = failed failure }, has_failed failure)

  -- The `match self.state` of `mark_request_sent`.
  unfoldable pub mark_sent_in :
      PairingRequestState → PairingRequest Token → PairingRequest Token × PairingRequestEvent
  mark_sent_in request_created r =
      (record r { state = awaiting_remote_response }, awaiting_response)
  mark_sent_in _ r = (r, ignored already_sent)

  unfoldable pub mark_request_sent :
      PairingRequest Token → ℕ → PairingRequest Token × PairingRequestEvent
  unfolding short_circuit mark_sent_in
  mark_request_sent r now = or_return (short_circuit r now) λ s. mark_sent_in s.state s

  unfoldable pub check_deadline :
      PairingRequest Token → ℕ → PairingRequest Token × PairingRequestEvent
  unfolding short_circuit
  check_deadline r now = or_return (short_circuit r now) λ s. (s, pending)

  unfoldable pub cancel : PairingRequest Token → PairingRequest Token × PairingRequestEvent
  cancel r =
      if is_terminal r
      then (r, ignored already_resolved)
      else (record r { state = cancelled }, was_cancelled)

  unfoldable pub note_transport_failure :
      PairingRequest Token → PairingRequest Token × PairingRequestEvent
  unfolding fail
  note_transport_failure r =
      if is_terminal r then (r, ignored already_resolved) else fail r transport_failure

module _ {Token : Type 0} ⦃u : UuidBytes Token⦄ where
  -- The `match self.state` of `request_message`.
  unfoldable pub message_in : PairingRequestState → PairingRequest Token → Option Bytes
  message_in request_created r = some (encode (request r.attempt_id))
  message_in _ r = none

  unfoldable pub request_message : PairingRequest Token → ℕ → PairingRequest Token × Option Bytes
  unfolding short_circuit message_in
  request_message r now =
      let (s, event) = short_circuit r now in
      elim event [ some e ↦ (s, none) | none ↦ (s, message_in s.state s) ]

  -- The `match message` of `handle_remote_message`, the state being the one that its guard reads.
  unfoldable pub accept_message :
      PairingMessage Token
      → PairingRequestState
      → PairingRequest Token
      → PairingRequest Token × PairingRequestEvent
  unfolding fail
  accept_message (request id) state r = fail r unexpected_message
  accept_message (request_accepted id) request_created r = (r, ignored not_awaiting_response)
  accept_message (request_rejected id reason) request_created r = (r, ignored not_awaiting_response)
  accept_message (request_accepted id) state r =
      (record r { state = ready_for_next_pairing_stage }, ready)
  accept_message (request_rejected id reason) state r =
      (record r { state = rejected reason }, was_rejected reason)

  unfoldable pub receive :
      Result PairingMessageError (PairingMessage Token)
      → PairingRequest Token
      → PairingRequest Token × PairingRequestEvent
  unfolding fail accept_message
  receive (err error) r = fail r (protocol error)
  receive (ok message) r =
      ite (u.eq_id (message_attempt_id message) r.attempt_id) (accept_message message r.state r)
        (r, ignored attempt_id_mismatch)

  unfoldable pub handle_remote_message :
      PairingRequest Token → Bytes → ℕ → PairingRequest Token × PairingRequestEvent
  unfolding short_circuit receive
  handle_remote_message r raw now = or_return (short_circuit r now) λ s. receive (decode raw) s

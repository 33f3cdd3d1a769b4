-- ===== src/Pairing/Response.antt =====
-- The responder `PairingResponse` of pairing.rs.
pub mod Steps
pub mod Traces
use local_transfer.Prelude.{
  ℕ, ◌≡◌, Bool, true, false, Option, none, some, leb, if◌then◌else◌, Bytes, Result, ok, err,
  map_err, ◌>>=◌,
}
use local_transfer.Pairing.Message.{
  UuidBytes, PairingRejectionReason, PairingMessage, request, request_accepted, request_rejected,
  PairingMessageError, encode, decode,
}
use local_transfer.Pairing.Request.{or_return}

pub data PairingResponseError : Type 0 where
  protocol : PairingMessageError → PairingResponseError
  not_a_request : PairingResponseError

pub data PairingResponseIgnored : Type 0 where
  already_resolved decision_already_made no_accepted_reply : PairingResponseIgnored

pub data PairingResponseState : Type 0 where
  awaiting_decision accepted_awaiting_send ready_for_next_pairing_stage : PairingResponseState
  rejected : PairingRejectionReason → PairingResponseState
  cancelled timed_out failed : PairingResponseState

-- `ready`, `was_rejected`, `was_cancelled`, `has_timed_out` and `has_failed` are
-- `ReadyForNextPairingStage`, `Rejected`, `Cancelled`, `TimedOut` and `Failed` of the source.
pub data PairingResponseEvent : Type 0 where
  pending : PairingResponseEvent
  accepted : Bytes → PairingResponseEvent
  was_rejected : Bytes → PairingResponseEvent
  ready was_cancelled has_timed_out has_failed : PairingResponseEvent
  ignored : PairingResponseIgnored → PairingResponseEvent

pub record PairingResponse (Token : Type 0) : Type 0 where
  pub attempt_id : Token
  pub deadline : ℕ
  pub state : PairingResponseState

abbrev pub is_terminal_state : PairingResponseState → Bool
is_terminal_state awaiting_decision = false
is_terminal_state accepted_awaiting_send = false
is_terminal_state _ = true

module _ {Token : Type 0} where
  abbrev pub is_terminal : PairingResponse Token → Bool
  is_terminal r = is_terminal_state r.state

  unfoldable pub short_circuit :
      PairingResponse Token → ℕ → PairingResponse Token × Option PairingResponseEvent
  short_circuit r now =
      if is_terminal r
      then (r, some (ignored already_resolved))
      else if leb r.deadline now
      then (record r { state = timed_out }, some has_timed_out)
      else (r, none)

  -- The `match self.state` of `mark_reply_sent`.
  unfoldable pub mark_sent_in :
      PairingResponseState → PairingResponse Token → PairingResponse Token × PairingResponseEvent
  mark_sent_in accepted_awaiting_send r = (record r { state = ready_for_next_pairing_stage }, ready)
  mark_sent_in _ r = (r, ignored no_accepted_reply)

  unfoldable pub mark_reply_sent :
      PairingResponse Token → ℕ → PairingResponse Token × PairingResponseEvent
  unfolding short_circuit mark_sent_in
  mark_reply_sent r now = or_return (short_circuit r now) λ s. mark_sent_in s.state s

  unfoldable pub cancel : PairingResponse Token → PairingResponse Token × PairingResponseEvent
  cancel r =
      if is_terminal r
      then (r, ignored already_resolved)
      else (record r { state = cancelled }, was_cancelled)

  unfoldable pub note_transport_failure :
      PairingResponse Token → PairingResponse Token × PairingResponseEvent
  note_transport_failure r =
      if is_terminal r
      then (r, ignored already_resolved)
      else (record r { state = failed }, has_failed)

  unfoldable pub check_deadline :
      PairingResponse Token → ℕ → PairingResponse Token × PairingResponseEvent
  unfolding short_circuit
  check_deadline r now = or_return (short_circuit r now) λ s. (s, pending)

module _ {Token : Type 0} ⦃u : UuidBytes Token⦄ where
  -- The `match` of `from_request` on a decoded message.
  unfoldable pub present :
      ℕ → PairingMessage Token → Result PairingResponseError (PairingResponse Token)
  present deadline (request id) =
      ok (record { attempt_id = id; deadline = deadline; state = awaiting_decision })
  present deadline (request_accepted id) = err not_a_request
  present deadline (request_rejected id reason) = err not_a_request

  unfoldable pub from_request : Bytes → ℕ → Result PairingResponseError (PairingResponse Token)
  unfolding present
  from_request bytes deadline = do
    message ← map_err protocol (decode bytes)
    present deadline message

  -- The `match self.state` of `accept` and of `reject`.
  unfoldable pub accept_in :
      PairingResponseState → PairingResponse Token → PairingResponse Token × PairingResponseEvent
  accept_in awaiting_decision r = (
    record r { state = accepted_awaiting_send },
    accepted (encode (request_accepted r.attempt_id)),
  )
  accept_in _ r = (r, ignored decision_already_made)

  unfoldable pub accept : PairingResponse Token → ℕ → PairingResponse Token × PairingResponseEvent
  unfolding short_circuit accept_in
  accept r now = or_return (short_circuit r now) λ s. accept_in s.state s

  unfoldable pub reject_in :
      PairingRejectionReason
      → PairingResponseState
      → PairingResponse Token
      → PairingResponse Token × PairingResponseEvent
  reject_in reason awaiting_decision r = (
    record r { state = rejected reason },
    was_rejected (encode (request_rejected r.attempt_id reason)),
  )
  reject_in reason _ r = (r, ignored decision_already_made)

  unfoldable pub reject :
      PairingResponse Token
      → PairingRejectionReason
      → ℕ
      → PairingResponse Token × PairingResponseEvent
  unfolding short_circuit reject_in
  reject r reason now = or_return (short_circuit r now) λ s. reject_in reason s.state s

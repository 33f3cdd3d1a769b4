-- ===== src/Pairing/Request/Traces.antt =====
-- What holds of the initiator of pairing.rs over every sequence of inputs.
use mathlib.Core.List.{Memᴰ}
use local_transfer.Prelude.{ℕ, ◌<◌, ◌≡◌, ◌≢◌, refl, ap, inl, inr, true, List, [], ◌∷◌, ◌++◌, arith}
use local_transfer.Pairing.Message.{UuidBytes, request_accepted, encode}
use local_transfer.Pairing.Message.Codec.{decode-encode}
use local_transfer.Pairing.Request.{
  PairingRequest, awaiting_remote_response, ready_for_next_pairing_stage, request_created,
  is_terminal, with_attempt_id, mark_request_sent, handle_remote_message,
}
use local_transfer.Pairing.Request.Steps.{
  Input, mark_sent_at, remote_message_at, step, run, step_terminal, step_created, step_awaiting,
  step_fixed, Accepts, Sends,
}

module _ {Token : Type 0} ⦃u : UuidBytes Token⦄ where
  -- An initiator in a terminal state stays exactly as it is under every sequence of inputs.
  pub run_terminal :
      (r : PairingRequest Token) (inputs : List Input) → is_terminal r ≡ true → run r inputs ≡ r
  unfolding run
  run_terminal r [] h = refl
  run_terminal r (i ∷ inputs) h =
      let same = step_terminal r i h in rw same (run_terminal r inputs h)

  run_ended :
      (r s : PairingRequest Token) (inputs : List Input)
      → (is_terminal s ≡ true) × (s.state ≢ ready_for_next_pairing_stage)
      → (run s inputs).state ≢ ready_for_next_pairing_stage
  run_ended r s inputs (t, n) e = n (rw (run_terminal s inputs t) at e)

  accepted_later :
      (r : PairingRequest Token) (inputs : List Input)
      → r.state ≡ awaiting_remote_response
      → (run r inputs).state ≡ ready_for_next_pairing_stage
      → (i : Input) × Memᴰ i inputs × Accepts r.attempt_id r.deadline i
  unfolding run
  accepted_later r [] a h = cc
  accepted_later r (i ∷ inputs) a h = elim (step_awaiting r i a) [
    | inl acc ↦ (i, Memᴰ.head refl, acc)
    | inr (inl same) ↦
        let (j, m, acc) = accepted_later r inputs a (rw (same, run) at h) in (j, Memᴰ.tail m, acc)
    | inr (inr ended) ↦ absurd (run_ended r _ inputs ended h)
  ]

  -- The trace holds a timely report of sending and, after it, a timely acceptance of this attempt.
  abbrev pub SentThenAccepted : Token → ℕ → List Input → Type 0
  SentThenAccepted id deadline inputs =
      (before after : List Input) × (sent accepted : Input) × (inputs ≡ before ++ sent ∷ after)
      × Sends deadline sent
      × Memᴰ accepted after
      × Accepts id deadline accepted

  -- An initiator that starts in request_created and is ready after a list of inputs was given, in
  -- that list, a report of sending before its deadline and later an acceptance that decodes to its
  -- own attempt identifier, before its deadline.
  pub ready_needs_acceptance :
      (r : PairingRequest Token) (inputs : List Input)
      → r.state ≡ request_created
      → (run r inputs).state ≡ ready_for_next_pairing_stage
      → SentThenAccepted r.attempt_id r.deadline inputs
  unfolding run
  ready_needs_acceptance r [] c h = cc
  ready_needs_acceptance r (i ∷ inputs) c h = elim (step_created r i c) [
    | inl (sends, waits) ↦
        let (j, m, acc) = accepted_later (step r i).0 inputs waits h in
        let (same_id, same_deadline) = step_fixed r i in
        ([], inputs, i, j, refl, sends, m, rw (same_id, same_deadline) at acc)
    | inr (inl same) ↦
        let (before, after, sent, accepted, split, sends, later, accepts) =
          ready_needs_acceptance r inputs c (rw (same, run) at h) in
        (i ∷ before, after, sent, accepted, ap (◌∷◌ i) split, sends, later, accepts)
    | inr (inr ended) ↦ absurd (run_ended r _ inputs ended h)
  ]

  -- A request that is reported as sent and whose acceptance arrives, both before the deadline,
  -- reaches the next stage.
  pub sent_accepted_ready :
      (id : Token) (deadline sent_at received_at : ℕ)
      → sent_at < deadline
      → received_at < deadline
      → let answer = encode (request_accepted id) in
        (run
          (with_attempt_id id deadline)
          (mark_sent_at sent_at ∷ remote_message_at answer received_at ∷ [])).state
        ≡ ready_for_next_pairing_stage
  unfolding run step with_attempt_id mark_request_sent handle_remote_message
  sent_accepted_ready id deadline sent_at received_at p q =
      ground (arith, decode-encode (request_accepted id))

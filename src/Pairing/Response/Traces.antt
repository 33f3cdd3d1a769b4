-- ===== src/Pairing/Response/Traces.antt =====
-- What holds of the responder of pairing.rs over every sequence of inputs.
use local_transfer.Prelude.{
  ℕ, ◌<◌, ◌≡◌, refl, sym, subst, true, List, [], ◌∷◌, ◌++◌, Bytes, ok, arith, append_assoc,
  append-nil,
}
use local_transfer.Pairing.Message.{UuidBytes, request, request_accepted, encode}
use local_transfer.Pairing.Message.Codec.{encode-decode, decode-encode}
use local_transfer.Pairing.Response.{
  PairingResponse, awaiting_decision, ready_for_next_pairing_stage, is_terminal, from_request,
  accept, mark_reply_sent, present,
}
use local_transfer.Pairing.Response.Steps.{
  Input, accept_at, mark_sent_at, step, run, emitted, step_terminal, step-Decided, step_fixed,
  Decided,
}

module _ {Token : Type 0} ⦃u : UuidBytes Token⦄ where
  -- All replies that a run hands to the transport, in order.
  unfoldable pub replies : PairingResponse Token → List Input → List Bytes
  replies r [] = []
  replies r (i ∷ inputs) = emitted (step r i).1 ++ replies (step r i).0 inputs

  -- A responder in a terminal state stays exactly as it is under every sequence of inputs.
  pub response_run_terminal :
      (r : PairingResponse Token) (inputs : List Input) → is_terminal r ≡ true → run r inputs ≡ r
  unfolding run
  response_run_terminal r [] h = refl
  response_run_terminal r (i ∷ inputs) h =
      let same = step_terminal r i h in rw same (response_run_terminal r inputs h)

  run-Decided :
      (r : PairingResponse Token) (inputs : List Input) (sent : List Bytes)
      → Decided r.state sent r.attempt_id
      → Decided (run r inputs).state (sent ++ replies r inputs) r.attempt_id
  unfolding run replies
  run-Decided r [] sent h = rw (append-nil sent) h
  run-Decided r (i ∷ inputs) sent h =
      let r' = (step r i).0 in
      let e = emitted (step r i).1 in
      rw (← append_assoc sent e (replies r' inputs)) (
        subst (λ id. Decided (run r' inputs).state ((sent ++ e) ++ replies r' inputs) id)
          (step_fixed r i).0
          (run-Decided r' inputs (sent ++ e) (
            subst (λ id. Decided r'.state (sent ++ e) id) (sym (step_fixed r i).0)
              (step-Decided r i sent h))))

  -- Bytes that start a responder are the encoding of a request for its attempt identifier, and it
  -- has the deadline that was given and awaits the decision.
  pub from_request-ok :
      (bytes : Bytes) (deadline : ℕ) (r : PairingResponse Token)
      → from_request bytes deadline ≡ ok r
      → (bytes ≡ encode (request r.attempt_id))
        × (r.deadline ≡ deadline)
        × (r.state ≡ awaiting_decision)
  unfolding from_request present
  from_request-ok bytes deadline r h = ground (arith, encode-decode bytes (request r.attempt_id))

  -- Whatever inputs a responder is given that was made from the bytes of a request, the replies
  -- that it hands out over its life are those that its state stands for: none before a decision,
  -- the one acceptance of its attempt once accepted or ready, the one rejection once rejected, and
  -- otherwise none or the one acceptance.
  pub replies-Decided :
      (bytes : Bytes) (deadline : ℕ) (r : PairingResponse Token) (inputs : List Input)
      → from_request bytes deadline ≡ ok r
      → Decided (run r inputs).state (replies r inputs) r.attempt_id
  replies-Decided bytes deadline r inputs h =
      run-Decided r inputs [] (rw ((from_request-ok bytes deadline r h).2) refl)

  -- The encoding of a request starts a responder, and an acceptance of it that is made and
  -- reported as sent, both before the deadline, reaches the next stage with that one reply.
  pub accepted_sent_ready :
      (id : Token) (deadline accepted sent : ℕ)
      → accepted < deadline
      → sent < deadline
      → let inputs = accept_at accepted ∷ mark_sent_at sent ∷ [] in
        (r : PairingResponse Token) × (from_request (encode (request id)) deadline ≡ ok r)
        × ((run r inputs).state ≡ ready_for_next_pairing_stage)
        × (replies r inputs ≡ encode (request_accepted id) ∷ [])
  unfolding run replies step accept mark_reply_sent from_request
  accepted_sent_ready id deadline accepted sent p q = (
    record { attempt_id = id; deadline = deadline; state = awaiting_decision },
    rw (decode-encode (request id)),
    ground arith,
    ground arith,
  )

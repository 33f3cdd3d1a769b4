-- ===== src/Pairing/Exchange/Agreed.antt =====
-- An invariant of the exchanges of Pairing/Exchange: what was asked, answered and concluded.
use mathlib.Core.List.{Memᴰ}
use local_transfer.Prelude.{
  ℕ, ◌≡◌, refl, sym, subst, ◌∙◌, ◌⊎◌, inl, inr, some, List, [], ◌∷◌, Bytes, arith, All, All-mem,
  All-modify, mem-modify, modify, ap,
}
use local_transfer.Pairing.Message.{
  UuidBytes, PairingRejectionReason, PairingMessage, request, request_accepted, request_rejected,
  encode,
}
use local_transfer.Pairing.Message.Codec.{decode-encode}
use local_transfer.Pairing.Request.{
  PairingRequest, PairingRequestState, with_attempt_id, request_message,
  ready_for_next_pairing_stage, rejected, handle_remote_message, mark_request_sent, check_deadline,
  cancel, note_transport_failure,
}
use local_transfer.Pairing.Request.Steps as Initiator
use local_transfer.Pairing.Response.{
  PairingResponse, PairingResponseState, from_request, accept, reject, mark_reply_sent,
}
use local_transfer.Pairing.Response
use local_transfer.Pairing.Response.Traces.{from_request-ok}
use local_transfer.Pairing.Response.Steps as Responder
use local_transfer.Pairing.Response.Steps.{Decided, emitted, step-Decided}
use local_transfer.Pairing.Exchange.{
  Party, respond, Exchange, IsLocal, Step, hands_over, initiator_input, request_arrives,
  responder_input, reply_arrives, Reach, here, next, start,
}

mem_single {ℓ} : {A : Type ℓ} {a b : A} → Memᴰ a (b ∷ []) → a ≡ b
mem_single (Memᴰ.head e) = e
mem_single (Memᴰ.tail m) = elim m [ ]

not-memᴰ-nil {ℓ} : {A : Type ℓ} {a : A} → Memᴰ a [] → ⊥
not-memᴰ-nil m = elim m [ ]

module _ {Token : Type 0} ⦃u : UuidBytes Token⦄ where
  -- Some responder handed over this reply and nothing else.
  abbrev pub Sent : Bytes → List (Party Token) → Type 0
  Sent reply parties = (p : Party Token) × Memᴰ p parties × (p.replies ≡ reply ∷ [])

  -- What the initiator has concluded is what some responder answered.
  abbrev pub Believed : PairingRequestState → List (Party Token) → Token → Type 0
  Believed ready_for_next_pairing_stage parties id = Sent (encode (request_accepted id)) parties
  Believed (rejected reason) parties id = Sent (encode (request_rejected id reason)) parties
  Believed _ parties id = Unit

  -- A responder of the attempt, whose replies are those that its state stands for.
  abbrev pub Answered : Token → Party Token → Type 0
  Answered id p = (p.machine.attempt_id ≡ id) × Decided p.machine.state p.replies id

  pub record Agreed (x : Exchange Token) : Type 0 where
    pub asked : All (λ b. b ≡ encode (request x.initiator.attempt_id)) x.requests
    pub answered : All (Answered x.initiator.attempt_id) x.parties
    pub believed : Believed x.initiator.state x.parties x.initiator.attempt_id

  local-Believed :
      (r : PairingRequest Token) (i : Initiator.Input) (sent : List (Party Token)) (id : Token)
      → IsLocal i
      → Believed r.state sent id
      → Believed (Initiator.step r i).0.state sent id
  unfolding Initiator.step request_message mark_request_sent check_deadline cancel
      note_transport_failure
  local-Believed r (Initiator.remote_message_at raw now) sent id l b = absurd l
  local-Believed r (Initiator.request_message_at now) sent id l b = ground arith
  local-Believed r (Initiator.mark_sent_at now) sent id l b = ground arith
  local-Believed r (Initiator.deadline_check_at now) sent id l b = ground arith
  local-Believed r Initiator.local_cancel sent id l b = ground arith
  local-Believed r Initiator.transport_failed sent id l b = ground arith

  handed_request :
      (r : PairingRequest Token) (now : ℕ) (bytes : Bytes)
      → (request_message r now).1 ≡ some bytes
      → bytes ≡ encode (request r.attempt_id)
  unfolding request_message
  handed_request r now bytes h = ground arith

  -- Once it has answered, the responder sends nothing more.
  answers_once :
      (r : PairingResponse Token) (i : Responder.Input) (a : Bytes) (sent : List Bytes)
      → Decided r.state (a ∷ sent) r.attempt_id
      → emitted (Responder.step r i).1 ≡ []
  unfolding Responder.step accept reject mark_reply_sent Response.check_deadline Response.cancel
      Response.note_transport_failure
  answers_once r (Responder.accept_at now) a sent h = ground arith
  answers_once r _ a sent h = ground arith

  -- A message from the network changes what the initiator concludes only by its content.
  received_accept :
      (r : PairingRequest Token) (now : ℕ) (sent : List (Party Token))
      → Sent (encode (request_accepted r.attempt_id)) sent
      → Believed r.state sent r.attempt_id
      → Believed
          (handle_remote_message r (encode (request_accepted r.attempt_id)) now).0.state
          sent
          r.attempt_id
  unfolding handle_remote_message
  received_accept r now sent e b = ground (arith, decode-encode (request_accepted r.attempt_id))

  received_reject :
      (r : PairingRequest Token) (reason : PairingRejectionReason) (now : ℕ)
      (sent : List (Party Token))
      → Sent (encode (request_rejected r.attempt_id reason)) sent
      → Believed r.state sent r.attempt_id
      → Believed
          (handle_remote_message r (encode (request_rejected r.attempt_id reason)) now).0.state
          sent
          r.attempt_id
  unfolding handle_remote_message
  received_reject r reason now sent e b =
      ground (arith, decode-encode (request_rejected r.attempt_id reason))

  -- A responder that has replied hands over nothing more.
  kept_replies :
      (i : Responder.Input) (id : Token) (p : Party Token) (reply : Bytes)
      → Answered id p
      → p.replies ≡ reply ∷ []
      → (respond i p).replies ≡ reply ∷ []
  kept_replies i id p reply (same, d) e =
      let d' = rw (← same, e) at d in rw (e, answers_once p.machine i reply [] d') refl

  Sent-modify :
      (n : ℕ) (i : Responder.Input) (id : Token) (parties : List (Party Token)) (reply : Bytes)
      → All (Answered id) parties
      → Sent reply parties
      → Sent reply (modify n (respond i) parties)
  Sent-modify n i id parties reply a (p, m, e) =
      let (q, k, moved) = mem-modify n (respond i) parties m in
      elim moved [
        | inl same ↦ (q, k, ap (λ q. q.replies) same ∙ e)
        | inr image ↦ (
          q,
          k,
          ap (λ q. q.replies) image
              ∙ kept_replies i id p reply (All-mem (Answered id) parties m a) e,
        )
      ]

  -- More responders, each as it was or with one more input.
  Believed-more :
      (state : PairingRequestState) (sent more : List (Party Token)) (id : Token)
      → ((reply : Bytes) → Sent reply sent → Sent reply more)
      → Believed state sent id
      → Believed state more id
  Believed-more ready_for_next_pairing_stage sent more id h b = h _ b
  Believed-more (rejected reason) sent more id h b = h _ b
  Believed-more _ sent more id h b = tt

  respond-Answered :
      (i : Responder.Input) (id : Token) (p : Party Token)
      → Answered id p
      → Answered id (respond i p)
  respond-Answered i id p (same, d) = (
    (Responder.step_fixed p.machine i).0 ∙ same,
    subst (Decided (respond i p).machine.state (respond i p).replies) same
        (step-Decided p.machine i p.replies (rw (← same) at d)),
  )

  -- Only the initiator moves, and keeps its identifier.
  initiator_moves :
      {x : Exchange Token} (r : PairingRequest Token) (requests : List Bytes)
      → Agreed x
      → r.attempt_id ≡ x.initiator.attempt_id
      → All (λ b. b ≡ encode (request x.initiator.attempt_id)) requests
      → Believed r.state x.parties x.initiator.attempt_id
      → Agreed (record x { initiator = r; requests = requests })
  initiator_moves {x} r requests a same asked believed = record {
    asked = rw same asked;
    answered = rw same a.answered;
    believed = rw same believed;
  }

  pub encode_injective : (m n : PairingMessage Token) → encode m ≡ encode n → m ≡ n
  encode_injective m n e = cc (decode-encode m, decode-encode n)

  request_id : (i j : Token) → encode (request i) ≡ encode (request j) → i ≡ j
  request_id i j e = cc (encode_injective (request i) (request j) e)

  Decided-cases :
      (state : PairingResponseState) (sent : List Bytes) (id : Token)
      → Decided state sent id
      → (sent ≡ [])
        ⊎ (sent ≡ encode (request_accepted id) ∷ [])
        ⊎ ((reason : PairingRejectionReason) × (sent ≡ encode (request_rejected id reason) ∷ []))
  Decided-cases Response.awaiting_decision sent id d = inl d
  Decided-cases Response.accepted_awaiting_send sent id d = inr (inl d)
  Decided-cases Response.ready_for_next_pairing_stage sent id d = inr (inl d)
  Decided-cases (Response.rejected reason) sent id d = inr (inr (reason, d))
  Decided-cases Response.cancelled sent id (inl d) = inl d
  Decided-cases Response.cancelled sent id (inr d) = inr (inl d)
  Decided-cases Response.timed_out sent id (inl d) = inl d
  Decided-cases Response.timed_out sent id (inr d) = inr (inl d)
  Decided-cases Response.failed sent id (inl d) = inl d
  Decided-cases Response.failed sent id (inr d) = inr (inl d)

  received-Believed :
      (x : Exchange Token) (raw : Bytes) (now : ℕ) (p : Party Token)
      → Agreed x
      → Memᴰ p x.parties
      → Memᴰ raw p.replies
      → Believed
          (handle_remote_message x.initiator raw now).0.state
          x.parties
          x.initiator.attempt_id
  received-Believed x raw now p a there m =
      let (_, d) = All-mem (Answered x.initiator.attempt_id) x.parties there a.answered in
      elim (Decided-cases p.machine.state p.replies x.initiator.attempt_id d) [
        | inl empty ↦ absurd (not-memᴰ-nil (subst (Memᴰ raw) empty m))
        | inr (inl one) ↦
            let e = mem_single (subst (Memᴰ raw) one m) in
            rw e (received_accept x.initiator now x.parties (p, there, one) a.believed)
        | inr (inr (reason, one)) ↦
            let e = mem_single (subst (Memᴰ raw) one m) in
            rw e (received_reject x.initiator reason now x.parties (p, there, one) a.believed)
      ]

  Step-Agreed : {x y : Exchange Token} → Step x y → Agreed x → Agreed y
  unfolding Initiator.step
  Step-Agreed {x} (hands_over now bytes given e) a = rw e (
      initiator_moves (request_message x.initiator now).0 (bytes ∷ x.requests) a
        (Initiator.step_fixed x.initiator (Initiator.request_message_at now)).0
        (handed_request x.initiator now bytes given, a.asked)
        (local-Believed x.initiator (Initiator.request_message_at now) x.parties _ tt a.believed))
  Step-Agreed {x} (initiator_input i l e) a = rw e (
      initiator_moves (Initiator.step x.initiator i).0 x.requests a
        (Initiator.step_fixed x.initiator i).0 a.asked
        (local-Believed x.initiator i x.parties _ l a.believed))
  Step-Agreed {x} (request_arrives raw deadline r m parsed e) a =
      let (bytes, _, waiting) = from_request-ok raw deadline r parsed in
      let same =
        request_id r.attempt_id x.initiator.attempt_id
          (sym bytes ∙ All-mem (λ b. b ≡ _) x.requests m a.asked) in
      rw e (record {
        asked = a.asked;
        answered = ((same, rw waiting refl), a.answered);
        believed =
            Believed-more x.initiator.state x.parties _ x.initiator.attempt_id
              (λ reply (p, k, h). (p, Memᴰ.tail k, h)) a.believed;
      })
  Step-Agreed {x} (responder_input n i e) a =
      let id = x.initiator.attempt_id in
      rw e (record {
        asked = a.asked;
        answered =
            All-modify (Answered id) n (respond i) x.parties (respond-Answered i id) a.answered;
        believed =
            Believed-more x.initiator.state x.parties _ id
              (λ reply. Sent-modify n i id x.parties reply a.answered) a.believed;
      })
  Step-Agreed {x} (reply_arrives raw now p there m e) a = rw e (
      initiator_moves (handle_remote_message x.initiator raw now).0 x.requests a
        (Initiator.step_fixed x.initiator (Initiator.remote_message_at raw now)).0 a.asked
        (received-Believed x raw now p a there m))

  pub Reach-Agreed : {x y : Exchange Token} → Reach x y → Agreed x → Agreed y
  Reach-Agreed here a = a
  Reach-Agreed (next r s) a = Step-Agreed s (Reach-Agreed r a)

  pub start-Agreed : (id : Token) (deadline : ℕ) → Agreed (start id deadline)
  unfolding start with_attempt_id
  start-Agreed id deadline = record { asked = tt; answered = tt; believed = tt }

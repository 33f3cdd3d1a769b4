-- ===== src/Pairing/Exchange.antt =====
-- Both machines of pairing.rs over a network that may lose, repeat, delay and reorder messages but
-- makes none up: every arrival of a request that the initiator handed over may make another
-- responder, and the replies of all of them come back. (The phase does not authenticate, so nothing
-- here holds over a network that forges.)
pub mod Agreed
pub mod Agreement
use mathlib.Core.List.{Memᴰ}
use local_transfer.Prelude.{
  ℕ, ◌≡◌, ◌≢◌, refl, sym, subst, ap, ◌∙◌, ◌⊎◌, inl, inr, Bool, true, false, Option, none, some,
  List, [], ◌∷◌, ◌++◌, Bytes, Result, ok, err, arith, modify,
}
use local_transfer.Pairing.Message.{
  UuidBytes, PairingRejectionReason, PairingMessage, request, request_accepted, request_rejected,
  encode, decode,
}
use local_transfer.Pairing.Message.Codec.{decode-encode}
use local_transfer.Pairing.Request.{PairingRequest, with_attempt_id, request_message}
use local_transfer.Pairing.Request.Steps as Initiator
use local_transfer.Pairing.Response.{PairingResponse, from_request}
use local_transfer.Pairing.Response.Steps as Responder
use local_transfer.Pairing.Response.Steps.{Decided, emitted}

-- A responder with the replies that it handed to the transport, in order.
pub record Party (Token : Type 0) : Type 0 where
  pub machine : PairingResponse Token
  pub replies : List Bytes

pub record Exchange (Token : Type 0) : Type 0 where
  pub initiator : PairingRequest Token
  pub parties : List (Party Token)
  pub requests : List Bytes  -- handed to the transport by the initiator

-- An input that is not a message from the network.
abbrev pub IsLocal : Initiator.Input → Type 0
IsLocal (Initiator.remote_message_at raw now) = ⊥
IsLocal _ = Unit

module _ {Token : Type 0} ⦃u : UuidBytes Token⦄ where
  -- One input of a responder.
  abbrev pub respond : Responder.Input → Party Token → Party Token
  respond i p = record {
    machine = (Responder.step p.machine i).0;
    replies = p.replies ++ emitted (Responder.step p.machine i).1;
  }

  pub data Step (x : Exchange Token) (y : Exchange Token) : Type 0 where
    hands_over :
        (now : ℕ) (bytes : Bytes)
        → (request_message x.initiator now).1 ≡ some bytes
        → y ≡ record x {
          initiator = (request_message x.initiator now).0;
          requests = bytes ∷ x.requests;
        }
        → Step x y
    initiator_input :
        (i : Initiator.Input)
        → IsLocal i
        → y ≡ record x { initiator = (Initiator.step x.initiator i).0 }
        → Step x y
    request_arrives :
        (raw : Bytes) (deadline : ℕ) (r : PairingResponse Token)
        → Memᴰ raw x.requests
        → from_request raw deadline ≡ ok r
        → y ≡ record x { parties = record { machine = r; replies = [] } ∷ x.parties }
        → Step x y
    responder_input :
        (n : ℕ) (i : Responder.Input)
        → y ≡ record x { parties = modify n (respond i) x.parties }
        → Step x y
    reply_arrives :
        (raw : Bytes) (now : ℕ) (p : Party Token)
        → Memᴰ p x.parties
        → Memᴰ raw p.replies
        → y ≡ record x {
          initiator = (Initiator.step x.initiator (Initiator.remote_message_at raw now)).0;
        }
        → Step x y

  pub data Reach (x : Exchange Token) : Exchange Token → Type 0 where
    here : Reach x x
    next : {y z : Exchange Token} → Reach x y → Step y z → Reach x z

  -- One attempt, before anything was sent.
  unfoldable pub start : Token → ℕ → Exchange Token
  start id deadline = record {
    initiator = with_attempt_id id deadline;
    parties = [];
    requests = [];
  }

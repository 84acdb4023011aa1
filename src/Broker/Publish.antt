-- ===== src/Broker/Publish.antt =====
-- Messages towards the battery: what `publish_message` counts, and what it hands to the client.
use marsrelay.Common.{
  ◌≡◌, refl, Bool, true, false, if◌then◌else◌, List, [], ◌∷◌, add32, arith, inl, inr, Bool-cases,
}
use marsrelay.Broker.Topics.{translate_external_to_device}
use marsrelay.Broker.{
  Broker, Message, ClientLibrary, publish_message, ensure_publish_client,
  is_publish_client_connected, ClientState, disconnected, connecting, connected, is_connected,
}

-- The broker was started, and its publish client is there and connected.
pub record IsReady (b : Broker) : Type 0 where
  pub started : b.broker_started ≡ true
  pub client : b.has_client ≡ true
  pub state : b.publish_state ≡ connected

-- The outcome of a publish: refused with one more error; or one message with the battery's topic
-- handed to the client, and one more error or relayed message as the client answers.
pub data Outcome (b : Broker) (message : Message) (accepted : Bool) (after : Broker × List Message)
    : Type 0 where
  refused :
      ¬ IsReady b
      → after.1 ≡ []
      → after.0.publish_errors ≡ add32 b.publish_errors 1
      → after.0.app_messages ≡ b.app_messages
      → Outcome b message accepted after
  handed :
      IsReady b
      → after.1
        ≡ record {
          topic = translate_external_to_device b.id_mappings message.topic;
          payload = message.payload;
        }
          ∷ []
      → after.0.app_messages ≡ (if accepted then add32 b.app_messages 1 else b.app_messages)
      → after.0.publish_errors ≡ (if accepted then b.publish_errors else add32 b.publish_errors 1)
      → Outcome b message accepted after

is_connected-connected : (s : ClientState) → is_connected s ≡ true → s ≡ connected
is_connected-connected connected h = refl
is_connected-connected connecting h = absurd cc
is_connected-connected disconnected h = absurd cc

connected-IsReady :
    (b : Broker) → b.broker_started ≡ true → is_publish_client_connected b ≡ true → IsReady b
unfolding is_publish_client_connected
connected-IsReady b up h = record {
  started = up;
  client = ground arith;
  state = is_connected-connected b.publish_state (ground arith);
}

IsReady-connected : (b : Broker) → IsReady b → is_publish_client_connected b ≡ true
unfolding is_publish_client_connected
IsReady-connected b r = rw (r.client, r.state) refl

-- A client that is made anew is not connected yet, so it takes no message in the same call.
ensure-not_connected :
    (b : Broker) (lib : ClientLibrary)
    → is_publish_client_connected b ≡ false
    → is_publish_client_connected (ensure_publish_client b lib) ≡ false
unfolding ensure_publish_client is_publish_client_connected
ensure-not_connected b lib h = ground arith

ensure-counters :
    (b : Broker) (lib : ClientLibrary)
    → (((ensure_publish_client b lib).app_messages ≡ b.app_messages)
        × ((ensure_publish_client b lib).publish_errors ≡ b.publish_errors))
unfolding ensure_publish_client
ensure-counters b lib = ground arith

-- Every command to publish is either counted as an error and dropped, or handed to the client once
-- under the battery's topic and counted as the client answers: handed over exactly if, when the call
-- came, the broker was started and there was a publish client in the connected state.
pub publish_message-Outcome :
    (b : Broker) (message : Message) (lib : ClientLibrary) (accepted : Bool)
    → Outcome b message accepted (publish_message b message lib accepted)
unfolding publish_message
publish_message-Outcome b message lib accepted = elim (Bool-cases b.broker_started) [
  | inr down ↦ rw (down, publish_message) (refused (λ r. absurd (cc r.started)) refl refl refl)
  | inl up ↦ elim (Bool-cases (is_publish_client_connected b)) [
    | inl ready ↦ handed (connected-IsReady b up ready) (ground arith) (ground arith) (ground arith)
    | inr away ↦
        let n = ensure-not_connected b lib away in
        let k = ensure-counters b lib in
        refused (λ r. absurd (cc (away, IsReady-connected b r))) (ground (arith, n, k))
          (ground (arith, n, k)) (ground (arith, n, k))
  ]
]

-- ===== src/Broker/Relay.antt =====
-- A message of a battery that comes back to it: as a command of the home automation.
use marsrelay.Common.{ℕ, ◌≡◌, ◌∙◌, ap, Bool, true, zero, suc, List, [], ◌∷◌, All, split, arith}
use marsrelay.Broker.Topics.{slash, translate_external_to_device, translate_device_to_external}
use marsrelay.Broker.Topics.RoundTrip.{IsUnambiguous, IsDeviceSide, translate_round_trip}
use marsrelay.Broker.{
  Broker, Message, ClientLibrary, handle_message, publish_message, is_publish_client_connected,
  repeat,
}

All-repeat : (P : Message → Type 0) (n : ℕ) (m : Message) → P m → All P (repeat n m)
All-repeat P zero m h = tt
All-repeat P (suc n) m h = (h, All-repeat P n m h)

publish_message-connected :
    (b : Broker) (message : Message) (lib : ClientLibrary) (accepted : Bool)
    → b.broker_started ≡ true
    → is_publish_client_connected b ≡ true
    → (publish_message b message lib accepted).1
      ≡ record {
        topic = translate_external_to_device b.id_mappings message.topic;
        payload = message.payload;
      }
        ∷ []
unfolding publish_message
publish_message-connected b message lib accepted up ready = ground arith

handle_message-keeps :
    (b : Broker) (client : List ℕ) (message : Message) (now later : ℕ)
    → let c = (handle_message b client message now later).0 in
      (c.broker_started ≡ b.broker_started)
      × (is_publish_client_connected c ≡ is_publish_client_connected b)
      × (c.id_mappings ≡ b.id_mappings)
      × (c.message_triggers ≡ b.message_triggers)
unfolding handle_message is_publish_client_connected
handle_message-keeps b client message now later = ground arith

-- A message of a battery goes round: when the publish client of a started broker is connected, and
-- the ids are unambiguous as in a translation there and back, then what each message trigger is told
-- of the message, published again as a command, is handed to the client as the very message that the
-- battery sent, with its topic and its payload.
pub relayed_back :
    (b : Broker) (client : List ℕ) (message : Message) (now later : ℕ) (lib : ClientLibrary)
    (accepted : Bool)
    → b.broker_started ≡ true
    → is_publish_client_connected b ≡ true
    → IsUnambiguous b.id_mappings
    → All (IsDeviceSide b.id_mappings) (split slash message.topic)
    → let x = handle_message b client message now later in
      All (λ told. (publish_message x.0 told lib accepted).1 ≡ message ∷ []) x.1
unfolding handle_message
relayed_back b client message now later lib accepted up ready u a =
    let c = (handle_message b client message now later).0 in
    let (s, r, i, t) = handle_message-keeps b client message now later in
    let topic = translate_device_to_external c.id_mappings message.topic in
    let told : Message = record { topic = topic; payload = message.payload } in
    let back =
      ap (λ m. translate_external_to_device m (translate_device_to_external m message.topic)) i
      ∙ translate_round_trip b.id_mappings message.topic u a in
    All-repeat (λ x. (publish_message c x lib accepted).1 ≡ message ∷ []) c.message_triggers told
      (publish_message-connected c told lib accepted (s ∙ up) (r ∙ ready)
        ∙ ap (λ x. (record { topic = x; payload = message.payload }) ∷ []) back)

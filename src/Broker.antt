-- ===== src/Broker.antt =====
-- `MosquittoBroker` of components/mosquitto_broker/mosquitto_broker.h and mosquitto_broker.cpp: the
-- local MQTT broker's task, the client that publishes into it, and the messages in between.
-- The broker itself and the MQTT client are libraries; what they answer is an argument.
pub mod Topics
pub mod Publish
pub mod Polling
pub mod Loop
pub mod Lifecycle
pub mod Restarting
pub mod Restart
pub mod Relay
pub mod SelfPolls
pub mod Tests
use marsrelay.Common.{
  ℕ, zero, suc, Bool, true, false, not, ◌&&◌, ◌||◌, if◌then◌else◌, bytes_eq, contains, codes, add32,
  before32, List, [], ◌∷◌, Option, none, some,
}
use Topics.{IdMapping, translate_external_to_device, translate_device_to_external}

-- PUBLISH_CLIENT_ID.
abbrev pub publish_client_id : List ℕ
publish_client_id = codes "marsrelay-publish"

-- SELF_POLL_RESEND_DELAY_MS.
abbrev pub self_poll_resend_delay_ms : ℕ
self_poll_resend_delay_ms = 1000

-- The states of the MQTT library's client that the code names.
pub data ClientState : Type 0 where
  disconnected connecting connected : ClientState

abbrev pub is_connected : ClientState → Bool
is_connected disconnected = false
is_connected connecting = false
is_connected connected = true

abbrev pub is_connecting : ClientState → Bool
is_connecting disconnected = false
is_connecting connecting = true
is_connecting connected = false

pub record Message : Type 0 where
  pub topic : List ℕ
  pub payload : List ℕ

pub record SelfPoll : Type 0 where
  pub message : Message
  pub at : ℕ
  pub pending : Bool

pub record Broker : Type 0 where
  pub id_mappings : List IdMapping
  pub message_triggers : ℕ
  -- the task and its restarts
  pub has_task : Bool
  pub broker_started : Bool
  pub broker_exited : Bool
  pub broker_start_at : ℕ
  pub broker_start_delay : ℕ
  pub broker_restarts : ℕ
  -- the publish client
  pub publish_state : ClientState
  pub connect_begin : ℕ
  pub has_client : Bool
  -- counters and the battery's last message
  pub device_messages : ℕ
  pub app_messages : ℕ
  pub publish_errors : ℕ
  pub last_device_message : ℕ
  pub has_device_message : Bool
  pub self_poll : SelfPoll

abbrev pub increment : ℕ → ℕ
increment n = add32 n 1

unfoldable pub is_broker_running : Broker → Bool
is_broker_running b = b.broker_started && not b.broker_exited

unfoldable pub is_publish_client_connected : Broker → Bool
is_publish_client_connected b = b.has_client && is_connected b.publish_state

abbrev pub count_error : Broker → Broker
count_error b = record b { publish_errors = increment b.publish_errors }

unfoldable pub teardown_publish_client : Broker → Broker
teardown_publish_client b = record b { has_client = false; publish_state = disconnected }

-- What the MQTT client library answers to init and start, with the reading of `millis()` behind.
pub record ClientLibrary : Type 0 where
  pub made : Bool
  pub started : Bool
  pub now : ℕ

unfoldable pub ensure_publish_client : Broker → ClientLibrary → Broker
unfolding teardown_publish_client
ensure_publish_client b lib =
    if not b.broker_started
    then b
    else if is_connecting b.publish_state
    then b
    else let c = teardown_publish_client b in
      if not lib.made
      then c
      else if not lib.started
      then record c { has_client = false }
      else record c { has_client = true; publish_state = connecting; connect_begin = lib.now }

-- `publish_local_`: the message goes to the client, `accepted` says that its id is not negative.
unfoldable pub publish_local : Broker → Message → Bool → Broker × List Message
publish_local b message accepted =
    if accepted
    then (record b { app_messages = increment b.app_messages }, message ∷ [])
    else (count_error b, message ∷ [])

unfoldable pub publish_message : Broker → Message → ClientLibrary → Bool → Broker × List Message
unfolding publish_local
publish_message b message lib accepted =
    if not b.broker_started
    then (count_error b, [])
    else let c = if not (is_publish_client_connected b) then ensure_publish_client b lib else b in
      if not (is_publish_client_connected c)
      then (count_error c, [])
      else let translated = translate_external_to_device c.id_mappings message.topic in
        publish_local c (record { topic = translated; payload = message.payload }) accepted

unfoldable pub resend_self_poll : Broker → ℕ → Bool → Broker × List Message
unfolding publish_local
resend_self_poll b now accepted =
    if not b.self_poll.pending || before32 now b.self_poll.at
    then (b, [])
    else let message = b.self_poll.message in
      let c = record b {
        self_poll = record {
          message = record { topic = []; payload = [] };
          at = b.self_poll.at;
          pending = false;
        };
      } in
      if not (is_publish_client_connected c)
      then (count_error c, [])
      else publish_local c message accepted

unfoldable pub is_self_poll : List ℕ → Message → Bool
is_self_poll client message =
    not (bytes_eq client publish_client_id)
    && contains (codes "/App/") message.topic
    && (bytes_eq message.payload (codes "cd=01") || bytes_eq message.payload (codes "cd=1"))

unfoldable pub count_device_message : Broker → Message → ℕ → Broker
count_device_message b message now =
    if contains (codes "/device/") message.topic
    then record b {
      device_messages = increment b.device_messages;
      last_device_message = now;
      has_device_message = true;
    }
    else b

unfoldable pub queue_self_poll : Broker → List ℕ → Message → ℕ → Broker
unfolding is_self_poll
queue_self_poll b client message now =
    if is_self_poll client message
    then record b {
      self_poll = record {
        message = message;
        at = add32 now self_poll_resend_delay_ms;
        pending = true;
      };
    }
    else b

abbrev pub repeat {ℓ} : {A : Type ℓ} → ℕ → A → List A
repeat zero a = []
repeat (suc n) a = a ∷ repeat n a

-- `handle_message_`, called by `on_broker_message_callback`: the new state and what each message
-- trigger is handed.
unfoldable pub handle_message : Broker → List ℕ → Message → ℕ → ℕ → Broker × List Message
unfolding count_device_message queue_self_poll
handle_message b client message now later =
    let c = queue_self_poll (count_device_message b message now) client message later in
    let translated = translate_device_to_external c.id_mappings message.topic in
    (c, repeat c.message_triggers (record { topic = translated; payload = message.payload }))

-- A null client name is taken for an empty one, and a null topic or payload ends the call.
unfoldable pub on_broker_message :
    Broker → Option (List ℕ) → Option (List ℕ) → Option (List ℕ) → ℕ → ℕ → Broker × List Message
on_broker_message b client none data_bytes now later = (b, [])
on_broker_message b client (some topic) none now later = (b, [])
on_broker_message b none (some topic) (some payload) now later =
    handle_message b [] (record { topic = topic; payload = payload }) now later
on_broker_message b (some client) (some topic) (some payload) now later =
    handle_message b client (record { topic = topic; payload = payload }) now later

pub data ClientEvent : Type 0 where
  event_connected event_disconnected event_error event_other : ClientEvent

unfoldable pub mqtt_event_handler : Broker → ClientEvent → Broker
mqtt_event_handler b event_connected = record b { publish_state = connected }
mqtt_event_handler b event_disconnected = record b { publish_state = disconnected }
mqtt_event_handler b event_error = record b { publish_state = disconnected }
mqtt_event_handler b event_other = b

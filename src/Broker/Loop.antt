-- ===== src/Broker/Loop.antt =====
-- `MosquittoBroker::setup`, `loop`, `broker_task_` and `publish_diagnostics_`.
use marsrelay.Common.{
  ℕ, ◌*◌, Bool, true, false, not, ◌&&◌, ltb, leb, if◌then◌else◌, List, [], Option, none, some,
  add32, sub32, min,
}
use marsrelay.Liveness.{Trigger, update_all, is_active}
use marsrelay.Diagnostics.{Ticker, tick, age}
use marsrelay.Broker.Topics.{IdMapping}
use marsrelay.Broker.{
  Broker, disconnected, Message, ClientLibrary, increment, is_connected, is_broker_running,
  is_publish_client_connected, teardown_publish_client, ensure_publish_client, resend_self_poll,
}

-- What `publish_diagnostics_` hands to the entities; the age in milliseconds.
pub record Report : Type 0 where
  pub running : Bool
  pub publish_client_connected : Bool
  pub device_active : Bool
  pub device_messages : ℕ
  pub app_messages : ℕ
  pub publish_errors : ℕ
  pub broker_restarts : ℕ
  pub device_message_age : Option ℕ

unfoldable pub publish_diagnostics : Broker → ℕ → ℕ → Report
publish_diagnostics b timeout_ms now = record {
  running = is_broker_running b;
  publish_client_connected = is_publish_client_connected b;
  device_active = is_active timeout_ms b.has_device_message b.last_device_message now;
  device_messages = b.device_messages;
  app_messages = b.app_messages;
  publish_errors = b.publish_errors;
  broker_restarts = b.broker_restarts;
  device_message_age = age b.has_device_message b.last_device_message now;
}

-- The members as they are initialised, for a configuration.
unfoldable pub init : List IdMapping → ℕ → Broker
init mappings triggers = record {
  id_mappings = mappings;
  message_triggers = triggers;
  has_task = false;
  broker_started = false;
  broker_exited = false;
  broker_start_at = 0;
  broker_start_delay = 1000;
  broker_restarts = 0;
  publish_state = disconnected;
  connect_begin = 0;
  has_client = false;
  device_messages = 0;
  app_messages = 0;
  publish_errors = 0;
  last_device_message = 0;
  has_device_message = false;
  self_poll = record { message = record { topic = []; payload = [] }; at = 0; pending = false };
}

unfoldable pub setup : Broker → ℕ → Broker
setup b now = record b { broker_start_at = now }

-- The end of `broker_task_`: `mosq_broker_run` has returned. Its two stores are one step here.
unfoldable pub task_exits : Broker → Broker
task_exits b = record b { has_task = false; broker_exited = true }

-- The readings of `millis()` in one `loop`, in the order of the code, and what the libraries answer.
pub record Surroundings : Type 0 where
  pub now : ℕ
  pub trigger_now : ℕ
  pub report_now : ℕ
  pub resend_now : ℕ
  pub resend_accepted : Bool
  pub restart_now : ℕ
  pub start_now : ℕ
  pub task_created : Bool
  pub start_failed_now : ℕ
  pub begin_now : ℕ
  pub connect_now : ℕ
  pub client_library : ClientLibrary
  pub retry_now : ℕ
  pub reset_now : ℕ

-- The branch for a broker that has exited on its own.
unfoldable pub restart_broker : Broker → ℕ → Broker
restart_broker b now =
    let c = teardown_publish_client (record b {
      broker_exited = false;
      broker_started = false;
      broker_restarts = increment b.broker_restarts;
    }) in
    record c { broker_start_delay = min (c.broker_start_delay * 2) 60000; broker_start_at = now }

-- The start of the task; the Boolean says that `loop` goes on behind it.
unfoldable pub start_broker : Broker → Surroundings → Broker × Bool
start_broker b e =
    if not b.broker_started && ltb b.broker_start_delay (sub32 e.start_now b.broker_start_at)
    then if not b.has_task && not e.task_created
      then (record b { has_task = false; broker_start_at = e.start_failed_now }, false)
      else (
        record b { has_task = true; broker_started = true; connect_begin = add32 e.begin_now 2000 },
        true,
      )
    else (b, true)

-- The care for the publish client at the end.
unfoldable pub tend_client : Broker → Surroundings → Broker
tend_client b e =
    if not b.broker_started
    then b
    else let c =
        if is_connected b.publish_state then record b { broker_start_delay = 1000 } else b in
      if not c.has_client && leb c.connect_begin e.connect_now
      then ensure_publish_client c e.client_library
      else if c.has_client && not (is_connected c.publish_state)
      then if ltb 30000 (sub32 e.retry_now c.connect_begin)
        then record (teardown_publish_client c) { connect_begin = e.reset_now }
        else c
      else c

-- `loop` from the resending of the poll on.
unfoldable pub run_broker : Broker → Surroundings → Broker × List Message
run_broker b e =
    let (c, sent) = resend_self_poll b e.resend_now e.resend_accepted in
    if c.broker_exited
    then (restart_broker c e.restart_now, sent)
    else let (d, goes_on) = start_broker c e in
      if goes_on then (tend_client d e, sent) else (d, sent)

pub record Component : Type 0 where
  pub broker : Broker
  pub liveness_triggers : List Trigger
  pub ticker : Ticker
  pub device_active_timeout_ms : ℕ

pub record Effects : Type 0 where
  pub fires : List Bool
  pub report : Option Report
  pub sent : List Message

unfoldable pub loop : Component → Surroundings → Component × Effects
loop c e =
    let b = c.broker in
    let (triggers, fires) =
      update_all c.liveness_triggers b.has_device_message b.last_device_message e.trigger_now in
    let (ticker, publishes) = tick c.ticker e.now in
    let report =
      if publishes
      then some (publish_diagnostics b c.device_active_timeout_ms e.report_now)
      else none in
    let (b', sent) = run_broker b e in
    (
      record c { broker = b'; liveness_triggers = triggers; ticker = ticker },
      record { fires = fires; report = report; sent = sent },
    )

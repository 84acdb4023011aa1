-- ===== src/Lib.antt =====
-- Marsrelay: an ESP32 relay that stands in for the cloud of a home battery, modelled from the C++ of
-- its components.
--
-- The program's parts. Each component is an ESPHome component with a `setup` and a `loop`:
--   capture_dns (components/capture_dns) answers every A query on the access point with the relay's
--   own address, so that the battery comes to marstack and mosquitto_broker;
--   udp_proxy (components/udp_proxy) carries the batteries' meter requests to the meter's network
--   and the meter's answers back to every battery that asked;
--   mosquitto_broker (components/mosquitto_broker) runs the MQTT broker that the battery connects
--   to, hands its messages to the home automation under the home's topics, and its commands back;
--   marstack (components/marstack) answers the battery's HTTP requests as the cloud's hosts would,
--   and hands its telemetry to the automations;
--   marstack_https, in the same directory, is the TLS listener in front of marstack's `dispatch`: a
--   task reads the requests and writes the responses, and the main loop dispatches them in between;
--   shelly_emulator (components/shelly_emulator) answers the battery's UDP queries as an energy
--   meter.
-- Apart from that the components share no state. udp_proxy, mosquitto_broker and marstack each have
-- liveness triggers and a diagnostics tick of the same text.
--
-- The files:
--   Common, Common/Tests, Common/Lists, Common/Words, Common/Text, Common/Numerals: Boolean tests,
--   lists over the native numbers, 32-bit words, byte strings and what the sources use of
--   std::string, and printed numbers.
--   Liveness (`step`, `update`, `update_all`) models the class MeterLivenessTrigger of
--   components/udp_proxy/udp_proxy.h, whose text the two DeviceLivenessTrigger classes repeat;
--   Liveness/Trace proves what it does over a sequence of rounds.
--   Diagnostics (`tick`) models the condition that guards publish_diagnostics in every `loop`.
--   Dns models components/capture_dns/dns_server_esp32_idf.cpp: `skip_labels` and `name_end` the
--   walk over the queried name, `handle_packet` and `process_next_request` the rest of that
--   function, `build_answer` the part that writes the answer. Dns/Name, Building and Answer hold the
--   proofs, with Dns/Resolver, which reads the answer as a resolver does, and Dns/Component models
--   CaptiveDns of components/capture_dns/capture_dns.cpp.
--   Udp models components/udp_proxy/udp_proxy.cpp: `UdpProxy` is the class, `process_requests`,
--   `process_responses` and `cleanup_expired_sessions` its methods; Udp/Lifecycle has `start`,
--   `stop`, `setup`, `retry_start`, and Udp/Loop `loop` and `publish_diagnostics`. Udp/Sessions and
--   Expiry prove the laws of the session map, Udp/Addresses those of addresses, Udp/Forward what the
--   two handlers do; Udp/Freshness and Rounds carry one client's session through rounds of `loop`,
--   and Udp/Exchange follows a request to its answers.
--   Broker models components/mosquitto_broker/mosquitto_broker.cpp: `Broker` is the class
--   MosquittoBroker, `publish_message`, `resend_self_poll`, `handle_message`, `mqtt_event_handler`
--   and `ensure_publish_client` its methods; Broker/Loop has `setup`, `loop` (in the parts
--   `restart_broker`, `start_broker`, `tend_client`) and `publish_diagnostics`, and Broker/Topics
--   the translation of topics. Broker/Topics/Segments and RoundTrip prove the laws of the
--   translations, Broker/Publish and Broker/Polling what happens to messages, Broker/Relay and
--   Broker/SelfPolls which of them come back to the batteries, Broker/Lifecycle, Restarting and
--   Restart those of the task.
--   Marstack models components/marstack/marstack.cpp: `dispatch` is the method of that name,
--   `respond` its `if`s behind the triggers. Marstack/Url has `url_decode` and `query_param`,
--   Marstack/Paths the tests of paths and `canHandle`, Marstack/Telemetry `decode_venus_telemetry`,
--   Marstack/Framing `build_raw_response`, and Marstack/Web `handleBody`, `handleRequest` and
--   `loop`. Proofs: Marstack/Dispatch, Marstack/Uploads, Marstack/Paths/Upload, Marstack/Url/Decode,
--   Query and Form, Marstack/Telemetry/Pieces, Marstack/Web/Bodies, Replies and Uploads, and, with
--   an HTTP client to read the response, Marstack/Framing/Reader, Dates, Lines and Framed.
--   Https models components/marstack/marstack_https.cpp: `accept_connection`, `serve_connection`,
--   `write_all`, `hold_or_close` and `reap_held` are the methods, and Https/Requests has
--   `read_request` in the parts `read_headers`, `request_line` and `read_rest`. Its loops take the
--   results of the reads and writes as a list; where the list ends they wait on. Proofs:
--   Https/Connections, Holding and HeldOpen of the held connections, Https/Writing of `write_all`;
--   Https/Ends and Head of the loop over the headers, Fields and Lookup of `header_value`, Bodies of
--   `read_rest`, Printing and Whole of a whole request as a client prints it, and Uploads of an
--   upload from its request to its response.
--   Https/Handoff models the TLS task and the main loop of that file side by side: `setup`,
--   `enter_loop`, `poll` and `dispatch_handoff` are the parts of `setup` and `loop`; `try_listener`,
--   `accept`, `post` and `take_response` those of `task_loop_` and of the queues in
--   `serve_connection_`;
--   `Step` lets them, and requests of the web server, follow each other in any order. A pointer to a
--   `Handoff` is a number, and what is behind it is looked up in the task that has it on its stack.
--   Handoff/Phases, Invariant, MainSteps, TaskSteps, Safety and Progress hold the proofs. There
--   `accept` takes the request as it was read; what `serve_connection` models between two dispatches
--   touches nothing that is shared.
--   Shelly models components/shelly_emulator/shelly_emulator.cpp: `start`, `loop`, `process_socket`
--   with `answer_query` and `serialized`, `fill_powers` and `calculate_derived_value`. Shelly/Powers
--   and Shelly/Queries hold the proofs. Float arithmetic and JSON are arguments, with the documented
--   behaviour that the theorems need as hypotheses.
--   The modules named Tests hold runs of the code and each theorem at a concrete input.
--
-- How it is modelled. A method takes the object and returns the new one beside what it sends. Every
-- reading of `millis()`, every answer of the socket layer and every received packet is an argument,
-- so a theorem holds for any clock and any network. Bytes are numbers, packets and texts lists of
-- bytes; a uint32_t wraps as written. Text written only for the log is left out.
--
-- Fuel: `skip_labels` has one unit more than the packet has bytes, and every round moves on by at
-- least one byte; `answered_iff` shows that this is enough. `translate_segments` has one unit more
-- than the topic has bytes, and every round takes a byte or ends. `query_param`
-- (`query_param-first_value`) and `decode_pieces` (`decode_blob-put_all`) likewise. `list_items` has
-- as many units as the list has bytes, and `print_digits` one more than the number.
--
-- Not modelled: the wifi component, which is a copy of ESPHome's; logging and dump_config;
-- marstack's `setup`, which registers the handlers, and `__wrap_httpd_start`, which sets the stack
-- size of the web server's task; the conversion of diagnostic values to float; a dispatch of the web
-- server in the middle of one of the main loop.
pub mod Common
pub mod Liveness
pub mod Dns
pub mod Diagnostics
pub mod Udp
pub mod Broker
pub mod Marstack
pub mod Https
pub mod Shelly

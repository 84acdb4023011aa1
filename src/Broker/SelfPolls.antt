-- ===== src/Broker/SelfPolls.antt =====
-- What the relay hands back to the batteries, over any sequence of events.
use marsrelay.Common.{
  ◌&&◌, bytes_eq, contains, codes, ℕ, ◌≡◌, ◌⊎◌, ◌∙◌, ap, sym, subst, refl, Bool, true, false, ◌||◌,
  if◌then◌else◌, List, [], ◌∷◌, ◌++◌, arith, inl, inr, Bool-cases,
}
use mathlib.Core.List.{Sublist, Sublistᴰ}
use mathlib.Core.List.Sublistᴰ.{slnil, cons, cons-cons}
use marsrelay.Broker.{
  publish_client_id, Broker, Message, ClientLibrary, SelfPoll, handle_message, is_self_poll,
  resend_self_poll, publish_message, ensure_publish_client, mqtt_event_handler, event_connected,
  ClientEvent, teardown_publish_client,
}
use marsrelay.Broker.Topics.{IdMapping}
use marsrelay.Broker.Loop.{
  init, setup, Surroundings, run_broker, restart_broker, start_broker, tend_client, task_exits,
}
use marsrelay.Broker.Lifecycle.{Event, looped, task_exited, published, received, client_event, step}

-- The poll that waits to be handed back.
abbrev pub queue : SelfPoll → List Message
queue p = if p.pending then p.message ∷ [] else []

-- A message of another client than the relay's own that asks a battery for its state.
abbrev pub asks : List ℕ → Message → Bool
asks client message =
    if bytes_eq client publish_client_id
    then false
    else contains (codes "/App/") message.topic
      && (bytes_eq message.payload (codes "cd=01") || bytes_eq message.payload (codes "cd=1"))

is_self_poll-asks :
    (client : List ℕ) (message : Message) → is_self_poll client message ≡ asks client message
unfolding is_self_poll
is_self_poll-asks client message = elim (Bool-cases (bytes_eq client publish_client_id)) [
  | inl e ↦ rw (is_self_poll, e) refl
  | inr e ↦ rw (is_self_poll, e) refl
]

-- Those that are sent, in their order.
abbrev pub polls : List Event → List Message
polls [] = []
polls (received client message now later ∷ es) =
    (if asks client message then message ∷ [] else []) ++ polls es
polls (e ∷ es) = polls es

-- What the loops hand to the publish client.
abbrev sent_by : Broker → Event → List Message
sent_by b (looped e) = (run_broker b e).1
sent_by b _ = []

abbrev pub resent : Broker → List Event → List Message
resent b [] = []
resent b (e ∷ es) = sent_by b e ++ resent (step b e) es

Sublist-front : (l r p : List Message) → Sublistᴰ r p → Sublistᴰ r (l ++ p)
Sublist-front [] r p h = h
Sublist-front (x ∷ l) r p h = cons (Sublist-front l r p h)

Sublist-both : (l r p : List Message) → Sublistᴰ r p → Sublistᴰ (l ++ r) (l ++ p)
Sublist-both [] r p h = h
Sublist-both (x ∷ l) r p h = cons-cons refl (Sublist-both l r p h)

module _ (b : Broker) where
  -- A loop hands over what is queued and empties the queue, or leaves it.
  resend-queue :
      (now : ℕ) (accepted : Bool)
      → let x = resend_self_poll b now accepted in
        ((x.1 ≡ []) × (x.0.self_poll ≡ b.self_poll))
        ⊎ (((x.1 ≡ []) ⊎ (x.1 ≡ queue b.self_poll)) × (queue x.0.self_poll ≡ []))
  unfolding resend_self_poll
  resend-queue now accepted = ground arith

  run_broker-sent :
      (e : Surroundings)
      → (run_broker b e).1 ≡ (resend_self_poll b e.resend_now e.resend_accepted).1
  unfolding run_broker
  run_broker-sent e = ground arith

  publish_message-self_poll :
      (m : Message) (lib : ClientLibrary) (accepted : Bool)
      → (publish_message b m lib accepted).0.self_poll ≡ b.self_poll
  unfolding publish_message ensure_publish_client
  publish_message-self_poll m lib accepted = ground arith

  event-self_poll : (e : ClientEvent) → (mqtt_event_handler b e).self_poll ≡ b.self_poll
  unfolding mqtt_event_handler
  event-self_poll event_connected = refl
  event-self_poll _ = refl

  handle_message-queue :
      (client : List ℕ) (m : Message) (now later : ℕ)
      → queue (handle_message b client m now later).0.self_poll
        ≡ (if is_self_poll client m then m ∷ [] else queue b.self_poll)
  unfolding handle_message
  handle_message-queue client m now later = ground arith

tend_client-self_poll : (b : Broker) (e : Surroundings) → (tend_client b e).self_poll ≡ b.self_poll
unfolding tend_client teardown_publish_client ensure_publish_client
tend_client-self_poll b e = ground arith

start_broker-self_poll :
    (b : Broker) (e : Surroundings) → (start_broker b e).0.self_poll ≡ b.self_poll
unfolding start_broker
start_broker-self_poll b e = ground arith

restart_broker-self_poll : (b : Broker) (now : ℕ) → (restart_broker b now).self_poll ≡ b.self_poll
unfolding restart_broker teardown_publish_client
restart_broker-self_poll b now = ground arith

run_broker-self_poll :
    (b : Broker) (e : Surroundings)
    → (run_broker b e).0.self_poll ≡ (resend_self_poll b e.resend_now e.resend_accepted).0.self_poll
unfolding run_broker
run_broker-self_poll b e =
    let c = (resend_self_poll b e.resend_now e.resend_accepted).0 in
    ground (
      arith,
      restart_broker-self_poll c e.restart_now,
      start_broker-self_poll c e,
      tend_client-self_poll (start_broker c e).0 e,
    )

one_loop :
    (sent r q q' p : List Message)
    → ((sent ≡ []) × (q' ≡ q)) ⊎ (((sent ≡ []) ⊎ (sent ≡ q)) × (q' ≡ []))
    → Sublistᴰ r (q' ++ p)
    → Sublistᴰ (sent ++ r) (q ++ p)
one_loop sent r q q' p (inl (s, k)) h =
    subst (λ x. Sublistᴰ (x ++ r) (q ++ p)) (sym s) (subst (λ x. Sublistᴰ r (x ++ p)) k h)
one_loop sent r q q' p (inr (inl s, k)) h =
    subst (λ x. Sublistᴰ (x ++ r) (q ++ p)) (sym s)
      (Sublist-front q r p (subst (λ x. Sublistᴰ r (x ++ p)) k h))
one_loop sent r q q' p (inr (inr s, k)) h =
    subst (λ x. Sublistᴰ (x ++ r) (q ++ p)) (sym s)
      (Sublist-both q r p (subst (λ x. Sublistᴰ r (x ++ p)) k h))

one_poll :
    (poll : Bool) (m : Message) (r q p : List Message)
    → Sublistᴰ r ((if poll then m ∷ [] else q) ++ p)
    → Sublistᴰ r (q ++ ((if poll then m ∷ [] else []) ++ p))
one_poll true m r q p h = Sublist-front q r (m ∷ p) h
one_poll false m r q p h = h

-- What a loop makes of the queue.
run_broker-queue :
    (b : Broker) (e : Surroundings)
    → let x = run_broker b e in
      ((x.1 ≡ []) × (queue x.0.self_poll ≡ queue b.self_poll))
      ⊎ (((x.1 ≡ []) ⊎ (x.1 ≡ queue b.self_poll)) × (queue x.0.self_poll ≡ []))
run_broker-queue b e =
    let s = run_broker-sent b e in
    let k = ap queue (run_broker-self_poll b e) in
    elim (resend-queue b e.resend_now e.resend_accepted) [
      | inl (a, q) ↦ inl (s ∙ a, k ∙ ap queue q)
      | inr (inl a, q) ↦ inr (inl (s ∙ a), k ∙ q)
      | inr (inr a, q) ↦ inr (inr (s ∙ a), k ∙ q)
    ]

exits-self_poll : (b : Broker) → (step b task_exited).self_poll ≡ b.self_poll
unfolding step task_exits
exits-self_poll b = ground arith

resent-Sublist :
    (b : Broker) (es : List Event) → Sublistᴰ (resent b es) (queue b.self_poll ++ polls es)
unfolding step
resent-Sublist b [] = Sublist-front (queue b.self_poll) [] [] slnil
resent-Sublist b (looped e ∷ es) =
    let c = (run_broker b e).0 in
    one_loop (run_broker b e).1 (resent c es) (queue b.self_poll) (queue c.self_poll) (polls es)
      (run_broker-queue b e) (resent-Sublist c es)
resent-Sublist b (task_exited ∷ es) =
    let c = step b task_exited in
    subst (λ x. Sublistᴰ (resent c es) (queue x ++ polls es)) (exits-self_poll b)
      (resent-Sublist c es)
resent-Sublist b (published m lib accepted ∷ es) =
    let c = (publish_message b m lib accepted).0 in
    subst (λ x. Sublistᴰ (resent c es) (queue x ++ polls es))
      (publish_message-self_poll b m lib accepted) (resent-Sublist c es)
resent-Sublist b (client_event e ∷ es) =
    let c = mqtt_event_handler b e in
    subst (λ x. Sublistᴰ (resent c es) (queue x ++ polls es)) (event-self_poll b e)
      (resent-Sublist c es)
resent-Sublist b (received client m now later ∷ es) =
    let c = (handle_message b client m now later).0 in
    let k =
      handle_message-queue b client m now later
      ∙ ap (λ x. if x then m ∷ [] else queue b.self_poll) (is_self_poll-asks client m) in
    one_poll (asks client m) m (resent c es) (queue b.self_poll) (polls es)
      (subst (λ x. Sublistᴰ (resent c es) (x ++ polls es)) k (resent-Sublist c es))

-- From `setup` on, whatever happens and in whatever order, what the relay hands back are polls that
-- clients other than its own have sent under the topics of the app, as they came and in their order,
-- each at most once; so the relay never answers itself, and a poll is never handed back twice.
pub resent-Sublist_polls :
    (mappings : List IdMapping) (triggers now : ℕ) (es : List Event)
    → Sublist (resent (setup (init mappings triggers) now) es) (polls es)
unfolding setup init
resent-Sublist_polls mappings triggers now es =
    ∣ resent-Sublist (setup (init mappings triggers) now) es ∣₁

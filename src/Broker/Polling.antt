-- ===== src/Broker/Polling.antt =====
-- The battery's own poll: queued when it arrives, handed back once a second later.
use marsrelay.Common.{
  ℕ, ◌+◌, ◌≤◌, ◌<◌, ◌≡◌, ◌∙◌, ap, Bool, true, false, if◌then◌else◌, List, [], ◌∷◌, add32, before32,
  before32_ahead, before32_due, bytes_eq_refl, arith,
}
use marsrelay.Broker.{
  Broker, Message, SelfPoll, handle_message, is_self_poll, resend_self_poll,
  is_publish_client_connected, publish_client_id,
}

module _ (c : Broker) (now : ℕ) (accepted : Bool) where
  resend-early : before32 now c.self_poll.at ≡ true → resend_self_poll c now accepted ≡ (c, [])
  unfolding resend_self_poll
  resend-early h = ground arith

  resend-idle : c.self_poll.pending ≡ false → resend_self_poll c now accepted ≡ (c, [])
  unfolding resend_self_poll
  resend-idle h = ground arith

  resend-due :
      c.self_poll.pending ≡ true
      → before32 now c.self_poll.at ≡ false
      → ((resend_self_poll c now accepted).1
          ≡ (if is_publish_client_connected c then c.self_poll.message ∷ [] else []))
        × ((resend_self_poll c now accepted).0.self_poll.pending ≡ false)
  unfolding resend_self_poll is_publish_client_connected
  resend-due h k = ground arith

module _ (b : Broker) (client : List ℕ) (message : Message) (now t : ℕ)
    (poll : is_self_poll client message ≡ true) where
  abbrev queued : Broker
  queued = (handle_message b client message now t).0

  queued-self_poll :
      queued.self_poll ≡ record { message = message; at = add32 t 1000; pending = true }
  unfolding handle_message
  queued-self_poll = ground arith

  -- A poll of the battery that is handled at `t` stays queued untouched for a second, whatever the
  -- clock's wrap; from then on, for 2^31 ms, the next `loop` takes it out of the queue, and hands it
  -- to the client as it came if that is connected; the loop after that hands over nothing.
  pub poll_resent_once :
      (d d' : ℕ) (accepted again : Bool)
      → ((d < 1000 → resend_self_poll queued (add32 t d) accepted ≡ (queued, []))
          × (1000 ≤ d
              → d < 1000 + 2147483648
              → let r = resend_self_poll queued (add32 t d) accepted in
                (r.1 ≡ (if is_publish_client_connected queued then message ∷ [] else []))
                × (resend_self_poll r.0 (add32 t d') again ≡ (r.0, []))))
  poll_resent_once d d' accepted again = (
    (λ early. resend-early queued (add32 t d) accepted (
        ap (λ (p : SelfPoll). before32 (add32 t d) p.at) queued-self_poll
        ∙ before32_ahead t d 1000 early (omega arith))),
    (λ late soon.
        let due =
          resend-due queued (add32 t d) accepted (ap (λ (p : SelfPoll). p.pending) queued-self_poll)
            (ap (λ (p : SelfPoll). before32 (add32 t d) p.at) queued-self_poll
              ∙ before32_due t d 1000 late soon) in
        (
          due.0
              ∙ ap
                  (λ (p : SelfPoll).
                    if is_publish_client_connected queued then p.message ∷ [] else [])
                  queued-self_poll,
          resend-idle (resend_self_poll queued (add32 t d) accepted).0 (add32 t d') again due.1,
        )),
  )

-- What the relay's own client publishes, the poll handed back included, is never queued as a poll:
-- the relay does not answer itself.
pub own_messages_not_queued :
    (b : Broker) (message : Message) (now later : ℕ)
    → (handle_message b publish_client_id message now later).0.self_poll ≡ b.self_poll
unfolding handle_message
own_messages_not_queued b message now later = ground (arith, bytes_eq_refl publish_client_id)

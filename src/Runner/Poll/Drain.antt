-- ===== src/Runner/Poll/Drain.antt =====
-- src/runner.rs: the task of a subscription at a broker that has events.
use greentic_events.Base.{
  ◌≡◌, refl, ap, sym, ◌∙◌, Bool, true, some, List, [], ◌∷◌, ◌++◌, push, ok, length, if◌then◌else◌,
  then_ok-parts, ok_eq,
}
use mathlib.Core.Path.{subst}
use mathlib.Core.List.{append-nil, append_assoc}
use greentic_events.Base.Str.{Str}
use greentic_events.Event.{EventEnvelope}
use greentic_events.Subscription.{AckMode, auto, manual}
use greentic_events.Runner.{Codec, WitEventEnvelope, from_wit_event}
use greentic_events.Runner.Broker.{
  Executor, Poller, poll_once, after_next, after_decode, after_send, acknowledge,
}
use greentic_events.Runner.Adapters.{decode_all}
use greentic_events.Runner.Poll.{
  Journal, IsKept, acks, acks-nil, acks-append, go_on, poll_rounds, acknowledge-acked,
}

-- A broker that hands out its queue in order, and a channel whose receiver is there.
pub record IsFifo {W : Type 0} (p : Poller W) (queue : W → List WitEventEnvelope) : Type 0 where
  pub next_ready :
      (wit : WitEventEnvelope) (rest : List WitEventEnvelope) (w : W)
      → queue w ≡ wit ∷ rest
      → ((p.client.next_event p.subscription_id p.timeout w).0 ≡ ok (some wit))
        × (queue (p.client.next_event p.subscription_id p.timeout w).1 ≡ rest)
  pub send_open : (ev : EventEnvelope) (w : W) → (p.tx.send ev w).0 ≡ true
  pub send_queue : (ev : EventEnvelope) (w : W) → queue (p.tx.send ev w).1 ≡ queue w
  pub ack_queue : (id : Str) (w : W) → queue (p.client.ack_event p.subscription_id id w).1 ≡ queue w

module _ {W : Type 0} (codec : Codec) (executor : Executor W) (p : Poller W) (j : Journal W)
    (queue : W → List WitEventEnvelope) (kept : IsKept executor p j) (fifo : IsFifo p queue) where
  acknowledge-queue :
      (id : Str) (w : W) (mode : AckMode) → queue (acknowledge p id w mode) ≡ queue w
  acknowledge-queue id w auto = fifo.ack_queue id w
  acknowledge-queue id w manual = refl

  -- The world after an event was taken.
  abbrev sent : EventEnvelope → W → W
  sent ev w = (p.tx.send ev (p.client.next_event p.subscription_id p.timeout w).1).1

  abbrev after : EventEnvelope → W → W
  after ev w = acknowledge p ev.id (sent ev w) p.ack_mode

  poll_once_ready :
      (wit : WitEventEnvelope) (rest : List WitEventEnvelope) (ev : EventEnvelope) (w : W)
      → queue w ≡ wit ∷ rest
      → from_wit_event codec wit ≡ ok ev
      → poll_once codec executor p w ≡ (true, after ev w)
  unfolding poll_once
  poll_once_ready wit rest ev w q d =
      let w1 = (p.client.next_event p.subscription_id p.timeout w).1 in
      ap (λ r. after_next codec executor p (r, w1)) (fifo.next_ready wit rest w q).0
      ∙ ap (λ r. after_decode p r w1) d
      ∙ ap (λ b. after_send p ev.id (b, (p.tx.send ev w1).1)) (fifo.send_open ev w1)

  after-queue :
      (wit : WitEventEnvelope) (rest : List WitEventEnvelope) (ev : EventEnvelope) (w : W)
      → queue w ≡ wit ∷ rest
      → queue (after ev w) ≡ rest
  after-queue wit rest ev w q =
      acknowledge-queue ev.id (sent ev w) p.ack_mode
      ∙ fifo.send_queue ev _
      ∙ (fifo.next_ready wit rest w q).1

  after-taken : (ev : EventEnvelope) (w : W) → j.taken (after ev w) ≡ push (j.taken w) ev
  after-taken ev w =
      let w1 = (p.client.next_event p.subscription_id p.timeout w).1 in
      (acknowledge-acked codec executor p j kept ev (sent ev w) p.ack_mode).0
      ∙ kept.send_taken ev w1
      ∙ ap (λ b. if b then push (j.taken w1) ev else j.taken w1) (fifo.send_open ev w1)
      ∙ ap (λ l. push l ev) (kept.next_taken w)

  after-acked :
      (ev : EventEnvelope) (w : W) → j.acked (after ev w) ≡ j.acked w ++ acks p.ack_mode (ev ∷ [])
  after-acked ev w =
      (acknowledge-acked codec executor p j kept ev (sent ev w) p.ack_mode).1
      ∙ ap (λ l. l ++ acks p.ack_mode (ev ∷ [])) (kept.send_acked ev _ ∙ kept.next_acked w)

  -- What polling as many rounds as there are events leaves.
  abbrev pub Drained : W → List EventEnvelope → Bool × W → Type 0
  Drained w events polled =
      (polled.0 ≡ true)
      × (queue polled.1 ≡ [])
      × (j.taken polled.1 ≡ j.taken w ++ events)
      × (j.acked polled.1 ≡ j.acked w ++ acks p.ack_mode events)

  -- If each call writes to the journal what it is meant to write, the broker hands out its queue
  -- in order, the receiver is there, and every event of the queue can be decoded, then in as
  -- many rounds as there are events the task has delivered all of them in order, acknowledged
  -- them in the automatic mode, emptied the queue, and goes on.
  pub poll_rounds-Drained :
      (wits : List WitEventEnvelope) (events : List EventEnvelope) (w : W)
      → queue w ≡ wits
      → decode_all codec wits ≡ ok events
      → Drained w events (poll_rounds codec executor p (length wits) w)
  unfolding poll_rounds decode_all
  poll_rounds-Drained [] events w q d =
      subst (λ es. Drained w es (true, w)) (ok_eq d)
        (
          refl,
          q,
          sym (append-nil _),
          sym (ap (λ ids. j.acked w ++ ids) (acks-nil p.ack_mode) ∙ append-nil _),
        )
  poll_rounds-Drained (wit ∷ wits) events w q d =
      let (ev, dw, d1) = then_ok-parts (from_wit_event codec wit) _ events d in
      let (es, dws, d2) = then_ok-parts (decode_all codec wits) _ events d1 in
      let (on, empty, t, a) =
        poll_rounds-Drained wits es (after ev w) (after-queue wit wits ev w q) dws in
      subst (λ r. Drained w events (go_on (λ w1. poll_rounds codec executor p (length wits) w1) r))
        (sym (poll_once_ready wit wits ev w q dw))
        (subst (λ l. Drained w l (poll_rounds codec executor p (length wits) (after ev w)))
          (ok_eq d2)
          (
            on,
            empty,
            t ∙ ap (λ l. l ++ es) (after-taken ev w) ∙ append_assoc (j.taken w) (ev ∷ []) es,
            a
                ∙ ap (λ l. l ++ acks p.ack_mode es) (after-acked ev w)
                ∙ append_assoc (j.acked w) (acks p.ack_mode (ev ∷ [])) (acks p.ack_mode es)
                ∙ ap (λ l. j.acked w ++ l) (sym (acks-append p.ack_mode (ev ∷ []) es)),
          ))

-- ===== src/Runner/Poll.antt =====
-- src/runner.rs: what the task of a subscription delivers and acknowledges.
pub mod Drain
use greentic_events.Base.{
  ℕ, zero, suc, ◌≡◌, refl, ap, sym, ◌∙◌, Bool, true, false, Option, none, some, List, [], ◌∷◌, ◌++◌,
  map, push, Result, ok, err, then_ok, length, inl, inr, if◌then◌else◌,
}
use mathlib.Core.List.{append-nil, append_assoc, map-append}
use greentic_events.Base.Str.{Str}
use greentic_events.Event.{EventEnvelope}
use greentic_events.Subscription.{AckMode, auto, manual}
use greentic_events.Runner.{Codec, WitEventEnvelope, from_wit_event}
use greentic_events.Runner.Broker.{
  Executor, Poller, poll_once, after_next, after_decode, after_send, acknowledge,
}
use greentic_events.Runner.Adapters.{decode_all}

-- The rounds after a round that went on.
abbrev pub go_on : {W : Type 0} → (W → Bool × W) → Bool × W → Bool × W
go_on rest (true, w) = rest w
go_on rest (false, w) = (false, w)

-- The first `n` rounds of the task's loop, which has no end of its own.
unfoldable pub poll_rounds : {W : Type 0} → Codec → Executor W → Poller W → ℕ → W → Bool × W
unfolding poll_once
poll_rounds codec executor p zero w = (true, w)
poll_rounds codec executor p (suc n) w =
    go_on (λ w1. poll_rounds codec executor p n w1) (poll_once codec executor p w)

-- What a world keeps of a subscription: the events that its channel took, and the identifiers that
-- were acknowledged.
pub record Journal (W : Type 0) : Type 0 where
  pub taken : W → List EventEnvelope
  pub acked : W → List Str

-- Each call of the task writes to the journal what it is meant to write, and nothing else.
pub record IsKept {W : Type 0} (executor : Executor W) (p : Poller W) (j : Journal W) : Type 0 where
  pub next_taken :
      (w : W) → j.taken (p.client.next_event p.subscription_id p.timeout w).1 ≡ j.taken w
  pub next_acked :
      (w : W) → j.acked (p.client.next_event p.subscription_id p.timeout w).1 ≡ j.acked w
  pub send_taken :
      (ev : EventEnvelope) (w : W)
      → j.taken (p.tx.send ev w).1 ≡ (if (p.tx.send ev w).0 then push (j.taken w) ev else j.taken w)
  pub send_acked : (ev : EventEnvelope) (w : W) → j.acked (p.tx.send ev w).1 ≡ j.acked w
  pub ack_taken :
      (id : Str) (w : W) → j.taken (p.client.ack_event p.subscription_id id w).1 ≡ j.taken w
  pub ack_acked :
      (id : Str) (w : W)
      → j.acked (p.client.ack_event p.subscription_id id w).1 ≡ push (j.acked w) id
  pub sleep_taken : (d : ℕ) (w : W) → j.taken (executor.sleep d w) ≡ j.taken w
  pub sleep_acked : (d : ℕ) (w : W) → j.acked (executor.sleep d w) ≡ j.acked w

-- The acknowledgements that belong to events.
abbrev pub acks : AckMode → List EventEnvelope → List Str
acks auto events = map (λ (ev : EventEnvelope). ev.id) events
acks manual events = []

acks-nil : (mode : AckMode) → acks mode [] ≡ []
acks-nil auto = refl
acks-nil manual = refl

acks-append :
    (mode : AckMode) (es fs : List EventEnvelope)
    → acks mode (es ++ fs) ≡ acks mode es ++ acks mode fs
acks-append manual es fs = refl
acks-append auto es fs = map-append _ es fs

module _ {W : Type 0} (codec : Codec) (executor : Executor W) (p : Poller W) (j : Journal W)
    (kept : IsKept executor p j) where
  -- Between two worlds some events were taken, and just these were acknowledged.
  abbrev pub Follows : W → W → Type 0
  Follows w w1 =
      (events : List EventEnvelope) × (j.taken w1 ≡ j.taken w ++ events)
      × (j.acked w1 ≡ j.acked w ++ acks p.ack_mode events)

  still-Follows : (w w1 : W) → j.taken w1 ≡ j.taken w → j.acked w1 ≡ j.acked w → Follows w w1
  still-Follows w w1 t a = (
    [],
    t ∙ sym (append-nil _),
    a ∙ sym (ap (λ ids. j.acked w ++ ids) (acks-nil p.ack_mode) ∙ append-nil _),
  )

  acknowledge-acked :
      (ev : EventEnvelope) (w : W) (mode : AckMode)
      → (j.taken (acknowledge p ev.id w mode) ≡ j.taken w)
        × (j.acked (acknowledge p ev.id w mode) ≡ j.acked w ++ acks mode (ev ∷ []))
  acknowledge-acked ev w auto = (kept.ack_taken ev.id w, kept.ack_acked ev.id w)
  acknowledge-acked ev w manual = (refl, sym (append-nil _))

  after_send-Follows :
      (ev : EventEnvelope) (w : W) (sent : Bool × W)
      → j.taken sent.1 ≡ (if sent.0 then push (j.taken w) ev else j.taken w)
      → j.acked sent.1 ≡ j.acked w
      → Follows w (after_send p ev.id sent).1
  after_send-Follows ev w (false, w1) t a = still-Follows w w1 t a
  after_send-Follows ev w (true, w1) t a =
      let (at, aa) = acknowledge-acked ev w1 p.ack_mode in
      (ev ∷ [], at ∙ t, aa ∙ ap (λ ids. ids ++ acks p.ack_mode (ev ∷ [])) a)

  moved :
      (w w1 w2 : W) → j.taken w1 ≡ j.taken w → j.acked w1 ≡ j.acked w → Follows w1 w2 → Follows w w2
  moved w w1 w2 t a (events, t2, a2) =
      (events, t2 ∙ ap (λ l. l ++ events) t, a2 ∙ ap (λ l. l ++ acks p.ack_mode events) a)

  after_decode-Follows :
      (decoded : Result Str EventEnvelope) (w : W) → Follows w (after_decode p decoded w).1
  after_decode-Follows (ok ev) w =
      after_send-Follows ev w (p.tx.send ev w) (kept.send_taken ev w) (kept.send_acked ev w)
  after_decode-Follows (err e) w = still-Follows w w refl refl

  after_next-Follows :
      (w : W) (next : Result Str (Option WitEventEnvelope) × W)
      → j.taken next.1 ≡ j.taken w
      → j.acked next.1 ≡ j.acked w
      → Follows w (after_next codec executor p next).1
  after_next-Follows w (ok (some wit), w1) t a =
      moved w w1 _ t a (after_decode-Follows (from_wit_event codec wit) w1)
  after_next-Follows w (ok none, w1) t a =
      still-Follows w _ (kept.sleep_taken _ w1 ∙ t) (kept.sleep_acked _ w1 ∙ a)
  after_next-Follows w (err e, w1) t a = still-Follows w w1 t a

  poll_once-Follows : (w : W) → Follows w (poll_once codec executor p w).1
  unfolding poll_once
  poll_once-Follows w =
      after_next-Follows w (p.client.next_event p.subscription_id p.timeout w) (kept.next_taken w)
        (kept.next_acked w)

  Follows-trans : (w w1 w2 : W) → Follows w w1 → Follows w1 w2 → Follows w w2
  Follows-trans w w1 w2 (es, t, a) (fs, t2, a2) = (
    es ++ fs,
    t2 ∙ ap (λ l. l ++ fs) t ∙ append_assoc (j.taken w) es fs,
    a2
        ∙ ap (λ l. l ++ acks p.ack_mode fs) a
        ∙ append_assoc (j.acked w) (acks p.ack_mode es) (acks p.ack_mode fs)
        ∙ ap (λ l. j.acked w ++ l) (sym (acks-append p.ack_mode es fs)),
  )

  go_on-Follows :
      (w : W) (rest : W → Bool × W) (round : Bool × W)
      → Follows w round.1
      → ((w1 : W) → Follows w1 (rest w1).1)
      → Follows w (go_on rest round).1
  go_on-Follows w rest (true, w1) f h = Follows-trans w w1 _ f (h w1)
  go_on-Follows w rest (false, w1) f h = f

  -- If each call writes to the journal what it is meant to write: however long the task of a
  -- subscription has run, what it acknowledged are, in the automatic mode, just the events that
  -- the channel took, in order and once each, and in the manual mode nothing.
  pub poll_rounds-Follows : (n : ℕ) (w : W) → Follows w (poll_rounds codec executor p n w).1
  unfolding poll_rounds
  poll_rounds-Follows zero w = still-Follows w w refl refl
  poll_rounds-Follows (suc n) w =
      go_on-Follows w _ (poll_once codec executor p w) (poll_once-Follows w)
        (λ w1. poll_rounds-Follows n w1)

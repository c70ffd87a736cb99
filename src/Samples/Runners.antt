-- ===== src/Samples/Runners.antt =====
-- A runner-hosted broker whose world is a queue and what became of it, and the theorems at it.
use greentic_events.Base.{
  ℕ, ◌≡◌, refl, true, Option, none, some, List, [], ◌∷◌, push, Result, ok, err, then_ok, ap, arith,
}
use greentic_events.Base.Str.{Str, codes}
use greentic_events.Event.{
  Json, null, bool, number, other_number, string, array, object, EventEnvelope,
}
use greentic_events.Message.{ChannelMessageEnvelope}
use greentic_events.Subscription.{auto}
use greentic_events.Runner.{Codec, WitEventEnvelope, to_wit_event, from_wit_event}
use greentic_events.Runner.Broker.{RunnerBrokerClient, Executor, Poller}
use greentic_events.Runner.Adapters.{
  to_wit_message, from_wit_message, decode_all, from_wit_message-to_wit_message,
}
use greentic_events.Runner.RoundTrip.{IsFaithful, from_wit_event-to_wit_event}
use greentic_events.Runner.Poll.{Journal, IsKept, Follows, poll_rounds, poll_rounds-Follows}
use greentic_events.Runner.Poll.Drain.{IsFifo, Drained, poll_rounds-Drained}

abbrev parse_time : Str → Result Str ℕ
parse_time (t ∷ []) = ok t
parse_time _ = err (codes "time")

-- Texts are printed as they stand, and no other JSON is.
abbrev print_text : Json → Result Str Str
print_text (string s) = ok s
print_text _ = err (codes "json")

abbrev codec : Codec
codec = record {
  to_rfc3339 = λ t. t ∷ [];
  parse_rfc3339 = parse_time;
  new_id = λ s. ok s;
  json_to_string = print_text;
  json_from_str = λ s. ok (string s);
}

read_text :
    (j : Json) (s : Str) → print_text j ≡ ok s → ◌≡◌ {A = Result Str Json} (ok (string s)) (ok j)
read_text (string t) s h = cc h
read_text null s h = cc h
read_text (bool b) s h = cc h
read_text (number n) s h = cc h
read_text (other_number n) s h = cc h
read_text (array xs) s h = cc h
read_text (object m) s h = cc h

codec-IsFaithful : IsFaithful codec
codec-IsFaithful = record { parse-print = λ t h. refl; read-print = λ j s plain. read_text j s }

abbrev event : EventEnvelope
event = record {
  id = codes "evt-1";
  topic = codes "greentic.events.a";
  event_type = codes "a";
  source = codes "s";
  tenant = record { env = codes "dev"; tenant = codes "t" };
  subject = none;
  time = 7;
  correlation_id = none;
  payload = string (codes "hello");
  metadata = [];
}

from_wit_event-to_wit_event_example :
    then_ok (to_wit_event codec event) (from_wit_event codec) ≡ ok event
from_wit_event-to_wit_event_example =
    from_wit_event-to_wit_event codec event (codes "hello") codec-IsFaithful refl (omega arith) refl
      refl

abbrev message : ChannelMessageEnvelope ℕ
message = record {
  id = codes "m-1";
  tenant = record { env = codes "dev"; tenant = codes "t" };
  channel = codes "c";
  session_id = codes "s";
  reply_scope = some 5;
  user_id = none;
  correlation_id = some (codes "k");
  text = some (codes "hi");
  attachments =
      record { mime_type = codes "a"; url = codes "u"; name = none; size_bytes = some 3 } ∷ [];
  metadata = [];
}

from_wit_message-to_wit_message_example :
    from_wit_message (to_wit_message message)
    ≡ record message { reply_scope = none; correlation_id = none }
from_wit_message-to_wit_message_example = from_wit_message-to_wit_message message

record Box : Type 0 where
  queue : List WitEventEnvelope
  taken : List EventEnvelope
  acked : List Str

abbrev pop : List WitEventEnvelope → Box → Result Str (Option WitEventEnvelope) × Box
pop [] w = (ok none, w)
pop (wit ∷ rest) w = (ok (some wit), record w { queue = rest })

abbrev client : RunnerBrokerClient Box
client = record {
  publish = λ wit w. (ok tt, record w { queue = push w.queue wit });
  subscribe = λ topic options w. (ok (codes "sub-1"), w);
  next_event = λ id timeout w. pop w.queue w;
  ack_event = λ sub id w. (ok tt, record w { acked = push w.acked id });
}

abbrev executor : Executor Box
executor = record {
  subscription_channel = λ w. (
    (
      record { send = λ ev v. (true, record v { taken = push v.taken ev }) },
      record { receiver = 0 },
    ),
    w,
  );
  spawn = λ body w. (body w).1;
  sleep = λ d w. w;
}

abbrev poller : Poller Box
poller = record {
  client = client;
  subscription_id = codes "sub-1";
  timeout = 1_000_000_000;
  ack_mode = auto;
  tx = record { send = λ ev w. (true, record w { taken = push w.taken ev }) };
}

abbrev journal : Journal Box
journal = record { taken = λ w. w.taken; acked = λ w. w.acked }

pop_taken : (q : List WitEventEnvelope) (w : Box) → (pop q w).1.taken ≡ w.taken
pop_taken [] w = refl
pop_taken (wit ∷ rest) w = refl

pop_acked : (q : List WitEventEnvelope) (w : Box) → (pop q w).1.acked ≡ w.acked
pop_acked [] w = refl
pop_acked (wit ∷ rest) w = refl

poller-IsKept : IsKept executor poller journal
poller-IsKept = record {
  next_taken = λ w. pop_taken w.queue w;
  next_acked = λ w. pop_acked w.queue w;
  send_taken = λ ev w. refl;
  send_acked = λ ev w. refl;
  ack_taken = λ id w. refl;
  ack_acked = λ id w. refl;
  sleep_taken = λ d w. refl;
  sleep_acked = λ d w. refl;
}

poller-IsFifo : IsFifo poller (λ w. w.queue)
poller-IsFifo = record {
  next_ready = λ wit rest w h. (ap (λ q. (pop q w).0) h, ap (λ q. (pop q w).1.queue) h);
  send_open = λ ev w. refl;
  send_queue = λ ev w. refl;
  ack_queue = λ id w. refl;
}

abbrev wit_event : WitEventEnvelope
wit_event = record {
  id = codes "evt-1";
  topic = codes "greentic.events.a";
  event_type = codes "a";
  source = codes "s";
  tenant = record { env = codes "dev"; tenant = codes "t" };
  subject = none;
  time = 7 ∷ [];
  correlation_id = none;
  payload_json = codes "hello";
  metadata = [];
}

abbrev start : Box
start = record { queue = wit_event ∷ []; taken = []; acked = [] }

poll_rounds-Follows_example :
    Follows codec executor poller journal poller-IsKept start
      (poll_rounds codec executor poller 3 start).1
poll_rounds-Follows_example =
    poll_rounds-Follows codec executor poller journal poller-IsKept 3 start

decoded : decode_all codec (wit_event ∷ []) ≡ ok (event ∷ [])
unfolding decode_all from_wit_event
decoded = refl

poll_rounds-Drained_example :
    Drained codec executor poller journal
      (λ w. w.queue)
      poller-IsKept
      poller-IsFifo
      start
      (event ∷ [])
      (poll_rounds codec executor poller 1 start)
poll_rounds-Drained_example =
    poll_rounds-Drained codec executor poller journal (λ w. w.queue) poller-IsKept poller-IsFifo
      (wit_event ∷ []) (event ∷ []) start refl decoded

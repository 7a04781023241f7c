-- ===== src/Smtp/TopicTests.antt =====
-- Delivery events through a topic, at concrete inputs: email/smtpemail.
use blocky_cloud.Prelude.{ℕ, List, [], ◌∷◌, ◌++◌, some, map, ◌≡◌, refl, sym, arith}
use blocky_cloud.Text.{codes}
use blocky_cloud.Subscription.Event.{DriverEvent, no_bounce}
use blocky_cloud.Smtp.Topic.{
  PbEvent, Wire, context_done, receive_fails, batch, receive_error, pb_event, send_to_topic,
  receive_batch, IsWire,
}
use blocky_cloud.Smtp.Published.{arrived, messages, receive_batch-Sends}

-- Bodies are the events themselves.
abbrev plain : Wire ℕ (PbEvent ℕ)
plain = record {
  delivered = 1;
  bounced = 2;
  delayed = 3;
  sent = 4;
  from_failure = 5;
  rendering_failure = 6;
  transient = 1;
  permanent = 2;
  stamp = λ t. t;
  as_time = λ s. s;
  marshal = λ p. some p;
  unmarshal = λ b. some b;
}

plain-IsWire : IsWire plain
plain-IsWire = record {
  times = λ t. refl;
  encodes = λ p body h. sym h;
  types = ground arith;
  bounces = ground arith;
}

abbrev refusal : DriverEvent
refusal = record {
  event_type = 1;
  bounce = record {
    recipients = record { email = codes "b@x"; status = codes "5.1.1"; diagnostic_code = [] } ∷ [];
    bounce_type = 2;
    timestamp = 8;
  };
  timestamp = 9;
  message_id = codes "m";
}

abbrev from_failure_event : DriverEvent
from_failure_event = record {
  event_type = 5;
  bounce = no_bounce;
  timestamp = 10;
  message_id = codes "n";
}

abbrev sent_event : DriverEvent
sent_event = record { event_type = 4; bounce = no_bounce; timestamp = 11; message_id = codes "o" }

abbrev events : List DriverEvent
events = refusal ∷ sent_event ∷ from_failure_event ∷ []

receive_batch-Sends_example :
    (receive_batch plain (messages {E = ℕ} (map (pb_event plain) events) ++ context_done ∷ [])
      ≡ (batch (map arrived events), 3))
    × (receive_batch plain (messages {E = ℕ} (map (pb_event plain) events) ++ receive_fails 7 ∷ [])
        ≡ (receive_error 7, 3))
unfolding send_to_topic
receive_batch-Sends_example =
    receive_batch-Sends plain plain-IsWire events (map (pb_event plain) events) 7
      (refl, (refl, (refl, tt)))

-- ===== src/Smtp/Topic.antt =====
-- Delivery events on their way through a topic: `sendToTopic` of email/smtpemail/message_sender.go and
-- `ReceiveBatch` of email/smtpemail/delivery_subscription.go. What the code uses of the generated
-- protocol and of the pubsub library is the record `Wire`.
use blocky_cloud.Prelude.{
  ℕ, ◌+◌, false, List, [], ◌∷◌, ◌++◌, Option, none, some, All, ◌==◌, if◌then◌else◌, ◌≡◌,
}
use blocky_cloud.Address.Utf8.{Bytes}
use blocky_cloud.Subscription.Event.{
  Recipient, BounceRecord, DriverEvent, no_bounce, event_type_delivered, event_type_bounce,
  event_type_delayed, event_type_rendering_failure, event_type_send,
  event_type_from_address_failure,
}
use blocky_cloud.Smtp.Sender.{bounce_type_transient, bounce_type_permanent}

-- The message `mailingv1alpha.DeliveryEvent`; a pointer that may be nil is an `Option`.
pub record PbBounce (S : Type 0) : Type 0 where
  pub recipients : List Recipient
  pub bounce_type : ℕ
  pub timestamp : Option S

pub record PbEvent (S : Type 0) : Type 0 where
  pub event_type : ℕ
  pub message_id : Bytes
  pub timestamp : Option S
  pub bounce : Option (PbBounce S)

-- The numbers of the generated enumerations, `timestamppb.New` and `AsTime`, and `proto.Marshal`, `none`
-- where it fails, and `proto.Unmarshal`; `B` stands for the bytes that they exchange.
pub record Wire (S B : Type 0) : Type 0 where
  pub delivered : ℕ
  pub bounced : ℕ
  pub delayed : ℕ
  pub sent : ℕ
  pub from_failure : ℕ
  pub rendering_failure : ℕ
  pub transient : ℕ
  pub permanent : ℕ
  pub stamp : ℕ → S
  pub as_time : S → ℕ
  pub marshal : PbEvent S → Option B
  pub unmarshal : B → Option (PbEvent S)

-- What a round of `ReceiveBatch` finds: the context done, a message, or an error of `Receive`.
pub data Round (B E : Type 0) : Type 0 where
  context_done : Round B E
  message : B → Round B E
  receive_fails : E → Round B E

-- What `ReceiveBatch` returns; without a last round it waits in `Receive`.
pub data EventBatch (E : Type 0) : Type 0 where
  batch : List DriverEvent → EventBatch E
  receive_error : E → EventBatch E
  decode_error : EventBatch E
  waits : EventBatch E

-- `switch` on numbers: the value of the first case that fits.
abbrev pub switch : ℕ → List (ℕ × ℕ) → ℕ
switch n [] = 0
switch n ((k, v) ∷ cases) = let rest = switch n cases in if n == k then v else rest

module _ {S B : Type 0} (w : Wire S B) where
  -- `driverEventTypeToPbEventType`, and `driverBounceTypeToPbBounceType`.
  unfoldable pub pb_event_type : ℕ → ℕ
  pb_event_type tp = switch tp (
      (event_type_delivered, w.delivered)
      ∷ (event_type_bounce, w.bounced)
      ∷ (event_type_delayed, w.delayed)
      ∷ (event_type_send, w.sent)
      ∷ (event_type_from_address_failure, w.from_failure)
      ∷ (event_type_rendering_failure, w.rendering_failure)
      ∷ [])

  unfoldable pub pb_bounce_type : ℕ → ℕ
  pb_bounce_type tp =
      switch tp ((bounce_type_permanent, w.permanent) ∷ (bounce_type_transient, w.transient) ∷ [])

  -- `protoDeliveryEventTypeToDriverType`, and `protoBounceTypeToDriverType`.
  unfoldable pub driver_event_type : ℕ → ℕ
  driver_event_type dt = switch dt (
      (w.delivered, event_type_delivered)
      ∷ (w.bounced, event_type_bounce)
      ∷ (w.rendering_failure, event_type_rendering_failure)
      ∷ (w.sent, event_type_send)
      ∷ (w.delayed, event_type_delayed)
      ∷ [])

  unfoldable pub driver_bounce_type : ℕ → ℕ
  driver_bounce_type bt =
      switch bt ((w.permanent, bounce_type_permanent) ∷ (w.transient, bounce_type_transient) ∷ [])

  unfoldable pub pb_bounce : BounceRecord → PbBounce S
  pb_bounce b = record {
    recipients = b.recipients;
    bounce_type = pb_bounce_type b.bounce_type;
    timestamp = some (w.stamp b.timestamp);
  }

  -- The event that `sendToTopic` marshals.
  unfoldable pub pb_event : DriverEvent → PbEvent S
  pb_event e = record {
    event_type = pb_event_type e.event_type;
    message_id = e.message_id;
    timestamp = some (w.stamp e.timestamp);
    bounce = if e.event_type == event_type_bounce then some (pb_bounce e.bounce) else none;
  }

  -- The zero time, where there is no timestamp.
  abbrev pub time_of : Option S → ℕ
  time_of none = 0
  time_of (some s) = w.as_time s

  abbrev pub bounce_of : Option (PbBounce S) → BounceRecord
  bounce_of none = no_bounce
  bounce_of (some b) = record {
    recipients = b.recipients;
    bounce_type = driver_bounce_type b.bounce_type;
    timestamp = time_of b.timestamp;
  }

  -- The event that `ReceiveBatch` makes of a message.
  unfoldable pub driver_event : PbEvent S → DriverEvent
  driver_event p = record {
    event_type = driver_event_type p.event_type;
    bounce = bounce_of p.bounce;
    timestamp = time_of p.timestamp;
    message_id = p.message_id;
  }

  -- `sendToTopic` with a topic that takes the message: what is sent, or `none` for the error.
  unfoldable pub send_to_topic : DriverEvent → Option B
  send_to_topic e = w.marshal (pb_event e)

  module _ {E : Type 0} where
    abbrev pub decoded :
        Option (PbEvent S) → ℕ → (DriverEvent → EventBatch E × ℕ) → EventBatch E × ℕ
    decoded none acked next = (decode_error, acked)
    decoded (some p) acked next = next (driver_event p)

    -- The loop of `ReceiveBatch`, with `out` and the number of messages that were acknowledged.
    unfoldable pub receive_loop : List (Round B E) → List DriverEvent → ℕ → EventBatch E × ℕ
    receive_loop [] out acked = (waits, acked)
    receive_loop (context_done ∷ rounds) out acked = (batch out, acked)
    receive_loop (receive_fails e ∷ rounds) out acked = (receive_error e, acked)
    receive_loop (message body ∷ rounds) out acked =
        decoded (w.unmarshal body) (acked + 1)
          (λ de. receive_loop rounds (out ++ de ∷ []) (acked + 1))

    unfoldable pub receive_batch : List (Round B E) → EventBatch E × ℕ
    receive_batch rounds = receive_loop rounds [] 0

-- Numbers that the cases of a `switch` tell apart.
abbrev pub Apart : List ℕ → Type 0
Apart [] = Unit
Apart (n ∷ ns) = All (λ m. (m == n) ≡ false) ns × Apart ns

-- What the generated code and the libraries promise: the enumerations have different numbers, none
-- of them the 0 of the unspecified ones, and the conversions come back.
pub record IsWire {S B : Type 0} (w : Wire S B) : Type 0 where
  pub times : (t : ℕ) → w.as_time (w.stamp t) ≡ t
  pub encodes : (p : PbEvent S) (body : B) → w.marshal p ≡ some body → w.unmarshal body ≡ some p
  pub types :
      Apart (
        0 ∷ w.delivered ∷ w.bounced ∷ w.rendering_failure ∷ w.sent ∷ w.delayed ∷ w.from_failure
        ∷ [])
  pub bounces : Apart (0 ∷ w.transient ∷ w.permanent ∷ [])

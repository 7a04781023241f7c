-- ===== src/Subscription/Event.antt =====
-- Delivery events: `driver.DeliveryEvent` of email/driver/delivery_subscription.go, and how `Receive` of
-- email/delivery_subscription.go turns it into a `DeliveryEvent`.
use blocky_cloud.Prelude.{ℕ, List, [], map, ◌==◌, if◌then◌else◌}
use blocky_cloud.Address.Utf8.{Bytes}

pub record Recipient : Type 0 where
  pub email : Bytes
  pub status : Bytes
  pub diagnostic_code : Bytes

pub record BounceRecord : Type 0 where
  pub recipients : List Recipient
  pub bounce_type : ℕ
  pub timestamp : ℕ

-- The two packages declare the same fields; a time is a number, 0 for the zero time.
pub record DriverEvent : Type 0 where
  pub event_type : ℕ
  pub bounce : BounceRecord
  pub timestamp : ℕ
  pub message_id : Bytes

pub record DeliveryEvent : Type 0 where
  pub event_type : ℕ
  pub bounce : BounceRecord
  pub timestamp : ℕ
  pub message_id : Bytes

abbrev pub event_type_delivered : ℕ
event_type_delivered = 0

abbrev pub event_type_bounce : ℕ
event_type_bounce = 1

abbrev pub event_type_delayed : ℕ
event_type_delayed = 2

abbrev pub event_type_rendering_failure : ℕ
event_type_rendering_failure = 3

abbrev pub event_type_send : ℕ
event_type_send = 4

abbrev pub event_type_from_address_failure : ℕ
event_type_from_address_failure = 5

abbrev pub no_bounce : BounceRecord
no_bounce = record { recipients = []; bounce_type = 0; timestamp = 0 }

-- The copy of a bounced recipient, field by field.
abbrev copy_recipient : Recipient → Recipient
copy_recipient r = record {
  email = r.email;
  status = r.status;
  diagnostic_code = r.diagnostic_code;
}

-- The conversion in `Receive`: the record of a bounce is copied for a bounce only.
unfoldable pub convert : DriverEvent → DeliveryEvent
convert m =
    let b : BounceRecord = record {
      recipients = map copy_recipient m.bounce.recipients;
      bounce_type = m.bounce.bounce_type;
      timestamp = m.bounce.timestamp;
    } in
    record {
      event_type = m.event_type;
      bounce = if m.event_type == event_type_bounce then b else no_bounce;
      timestamp = m.timestamp;
      message_id = m.message_id;
    }

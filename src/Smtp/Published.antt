-- ===== src/Smtp/Published.antt =====
-- What becomes of a delivery event that is sent to a topic and received from it:
-- message_sender.go and delivery_subscription.go of email/smtpemail.
use native.Mathlib.Nat.{zero-add, add-zero}
use blocky_cloud.Prelude.{
  Bool-cases, inl, inr, ℕ, zero, suc, ◌+◌, List, [], ◌∷◌, ◌++◌, none, some, map, ◌==◌, leb,
  if◌then◌else◌, ◌≡◌, refl, sym, ap, ◌∙◌, arith, length, append_assoc, append-nil,
}
use blocky_cloud.Subscription.Event.{
  BounceRecord, DriverEvent, no_bounce, event_type_bounce, event_type_delivered, event_type_send,
}
use blocky_cloud.Smtp.Sender.{bounce_type_permanent}
use blocky_cloud.Smtp.Topic.{
  Wire, Round, context_done, message, receive_fails, batch, receive_error, pb_event_type,
  pb_bounce_type, driver_event_type, driver_bounce_type, pb_bounce, pb_event, bounce_of,
  driver_event, send_to_topic, decoded, receive_loop, receive_batch, IsWire,
}

-- The types of an event and of a bounce as they arrive: a failure of the From address arrives as a delivery,
-- as a type does that no constant names, and such a type of a bounce as 0.
abbrev pub arrived_type : ℕ → ℕ
arrived_type n = if leb n event_type_send then n else event_type_delivered

abbrev pub arrived_bounce_type : ℕ → ℕ
arrived_bounce_type n = if leb n bounce_type_permanent then n else 0

-- The event as it arrives: only a bounce has the record of one.
abbrev pub arrived : DriverEvent → DriverEvent
arrived e = record e {
  event_type = arrived_type e.event_type;
  bounce =
      if e.event_type == event_type_bounce
      then record (e.bounce) { bounce_type = arrived_bounce_type e.bounce.bounce_type }
      else no_bounce;
}

abbrev pub messages : {B E : Type 0} → List B → List (Round B E)
messages = map message

module _ {S B : Type 0} (w : Wire S B) (wire : IsWire w) where
  event_type_back : (n : ℕ) → driver_event_type w (pb_event_type w n) ≡ arrived_type n
  unfolding driver_event_type pb_event_type
  event_type_back zero = ground (arith, wire.types)
  event_type_back (suc zero) = ground (arith, wire.types)
  event_type_back (suc (suc zero)) = ground (arith, wire.types)
  event_type_back (suc (suc (suc zero))) = ground (arith, wire.types)
  event_type_back (suc (suc (suc (suc zero)))) = ground (arith, wire.types)
  event_type_back (suc (suc (suc (suc (suc zero))))) = ground (arith, wire.types)
  event_type_back (suc (suc (suc (suc (suc (suc n)))))) = ground (arith, wire.types)

  bounce_type_back : (n : ℕ) → driver_bounce_type w (pb_bounce_type w n) ≡ arrived_bounce_type n
  unfolding driver_bounce_type pb_bounce_type
  bounce_type_back n = ground (arith, wire.bounces)

  bounce_back :
      (b : BounceRecord)
      → bounce_of w (some (pb_bounce w b))
        ≡ record b { bounce_type = arrived_bounce_type b.bounce_type }
  unfolding pb_bounce
  bounce_back b = λ i. record {
    recipients = b.recipients;
    bounce_type = bounce_type_back b.bounce_type i;
    timestamp = wire.times b.timestamp i;
  }

  bounce_arrives :
      (e : DriverEvent)
      → bounce_of w
          (if e.event_type == event_type_bounce then some (pb_bounce w e.bounce) else none)
        ≡ (arrived e).bounce
  bounce_arrives e = elim (Bool-cases (e.event_type == event_type_bounce)) [
    | inl q ↦ rw q (bounce_back e.bounce)
    | inr q ↦ rw q refl
  ]

  event_back : (e : DriverEvent) → driver_event w (pb_event w e) ≡ arrived e
  unfolding driver_event pb_event
  event_back e = λ i. record {
    event_type = event_type_back e.event_type i;
    bounce = bounce_arrives e i;
    timestamp = wire.times e.timestamp i;
    message_id = e.message_id;
  }

  -- The bodies that are sent to the topic for these events, if none fails.
  abbrev pub Sends : List DriverEvent → List B → Type 0
  Sends [] [] = Unit
  Sends (e ∷ es) (body ∷ bodies) = (send_to_topic w e ≡ some body) × Sends es bodies
  Sends _ _ = ⊥

  module _ {E : Type 0} where
    loop_published :
        (es : List DriverEvent) (bodies : List B) (rest : List (Round B E)) (out : List DriverEvent)
        (acked : ℕ)
        → Sends es bodies
        → receive_loop w (messages bodies ++ rest) out acked
          ≡ receive_loop w rest (out ++ map arrived es) (acked + length es)
    unfolding receive_loop send_to_topic
    loop_published [] [] rest out acked s =
        ap (λ l. receive_loop w rest l acked) (sym (append-nil out))
        ∙ ap (receive_loop w rest (out ++ [])) (sym (add-zero acked))
    loop_published [] (b ∷ bs) rest out acked s = absurd s
    loop_published (e ∷ es) [] rest out acked s = absurd s
    loop_published (e ∷ es) (b ∷ bs) rest out acked (s, ss) =
        ap
          (λ o.
            decoded w o (acked + 1)
              (λ de. receive_loop w (messages bs ++ rest) (out ++ de ∷ []) (acked + 1)))
          (wire.encodes (pb_event w e) b s)
        ∙ ap (λ de. receive_loop w (messages bs ++ rest) (out ++ de ∷ []) (acked + 1))
            (event_back e)
        ∙ loop_published es bs rest (out ++ arrived e ∷ []) (acked + 1) ss
        ∙ ap (λ l. receive_loop w rest l (acked + 1 + length es))
            (append_assoc out (arrived e ∷ []) (map arrived es))
        ∙ ap (receive_loop w rest (out ++ map arrived (e ∷ es))) (omega arith)

    -- Events of any types that are sent to the topic and received in one batch arrive in their order, with
    -- their times and ids, a bounce with its record and no other event with one; but a failure of the From
    -- address arrives as a delivery. All are acknowledged. Where Receive fails behind them, all are
    -- acknowledged too, and ReceiveBatch returns the error and none of them.
    pub receive_batch-Sends :
        (es : List DriverEvent) (bodies : List B) (e : E)
        → Sends es bodies
        → (receive_batch w (messages {E = E} bodies ++ context_done ∷ [])
            ≡ (batch (map arrived es), length es))
          × (receive_batch w (messages bodies ++ receive_fails e ∷ [])
              ≡ (receive_error e, length es))
    unfolding receive_batch receive_loop
    receive_batch-Sends es bodies e s = (
      loop_published es bodies (context_done ∷ []) [] 0 s
          ∙ ap (λ n. (batch (map arrived es), n)) (zero-add (length es)),
      loop_published es bodies (receive_fails e ∷ []) [] 0 s
          ∙ ap (λ n. (receive_error e, n)) (zero-add (length es)),
    )

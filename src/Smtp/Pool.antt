-- ===== src/Smtp/Pool.antt =====
-- `senderPool` of email/smtpemail/smtp_sender.go, and `SendBatch`, `prepareAndSend`, `send` and the part
-- of `Close` before the topic, of email/smtpemail/message_sender.go. An `smtpSender` of the pool is whether its
-- client is not nil, and the pool's channel is the list of its senders, the next one first.
use blocky_cloud.Prelude.{
  ℕ, zero, suc, Bool, true, false, ◌&&◌, List, [], ◌∷◌, ◌++◌, Option, none, some, if◌then◌else◌,
}
use blocky_cloud.Address.Utf8.{Bytes}
use blocky_cloud.Address.Lexer.{Error}
use blocky_cloud.Address.Phrase.{Decoding}
use blocky_cloud.Address.Entry.{Result, done, fail}
use blocky_cloud.Smtp.Session.{Command, close, mail, SmtpError, eof, Dialer, Dialed, dial}
use blocky_cloud.Smtp.Message.{Mail, DriverMessage, prepare}
use blocky_cloud.Smtp.Sender.{
  DeliveryEvent, Sent, event, failed, no_connection, panics, Message, send_message,
}

-- `ctx` is none where it is nil, and else whether it is done; `cancel` is whether it is not nil.
pub record SenderPool : Type 0 where
  pub clients : List Bool
  pub ctx : Option Bool
  pub cancel : Bool
  pub is_closed : Bool

-- `newSenderPool` makes this one; the result of `context.WithCancel` is dropped.
unfoldable pub unfilled : SenderPool
unfilled = record { clients = []; ctx = none; cancel = false; is_closed = false }

unfoldable pub put : SenderPool → Bool → SenderPool
put p c = record p { clients = p.clients ++ c ∷ [] }

-- What `get` comes to: a call of a nil context's method, nothing, a sender, or a wait.
pub data Got : Type 0 where
  nil_context : Got
  nothing : Got
  taken : Bool → SenderPool → Got
  waits : Got

-- A channel that is ready is taken; where both are, `ctx_first` says which.
abbrev pub get_ready : SenderPool → Bool → Bool → List Bool → Got
get_ready p ctx_first true [] = nothing
get_ready p ctx_first false [] = waits
get_ready p ctx_first is_done (c ∷ cs) =
    if is_done && ctx_first then nothing else taken c (record p { clients = cs })

abbrev pub get_with : SenderPool → Bool → Option Bool → Got
get_with p ctx_first none = nil_context
get_with p ctx_first (some is_done) = get_ready p ctx_first is_done p.clients

unfoldable pub get : SenderPool → Bool → Got
get p ctx_first = get_with p ctx_first p.ctx

pub data Pooled : Type 0 where
  filled : SenderPool → List Command → Pooled
  fill_failed : SmtpError → List Command → Pooled

-- The pool, and the calls of all conversations so far.
pub record World : Type 0 where
  pub pool : SenderPool
  pub history : List Command

pub data SendOutcome (E : Type 0) : Type 0 where
  returned : SendOutcome E
  unprepared : Error → SendOutcome E
  no_senders : SendOutcome E
  unsent : SmtpError → SendOutcome E
  disconnected : SendOutcome E
  unpublished : E → SendOutcome E
  panicked : SendOutcome E
  blocked : SendOutcome E

pub data Closed : Type 0 where
  closed : Closed
  already_closed : Closed
  close_failed : SmtpError → Closed
  close_panicked : Closed

-- The result of the loop of `close`, and the senders that are still in the channel.
pub record Drained : Type 0 where
  pub result : Closed
  pub clients : List Bool
  pub history : List Command

-- A message given to `SendBatch`, with the one that `getMessage` gives it.
pub record Incoming : Type 0 where
  pub fresh : Mail
  pub message : DriverMessage
  pub ctx_first : Bool

module _ (reply : List Command → Option SmtpError)
    (extension : List Command → Bytes → Option Bytes) where
  abbrev pub fill_round :
      (SenderPool → List Command → Pooled) → SenderPool → Dialed → Option SmtpError → Pooled
  fill_round again p r none = again (put p r.client) r.history
  fill_round again p r (some e) = fill_failed e r.history

  -- `fill`, with the rounds that are left.
  unfoldable pub fill_pool : ℕ → Dialer → SenderPool → List Command → Pooled
  fill_pool zero d p h = filled p h
  fill_pool (suc n) d p h =
      let r = dial reply extension d h in fill_round (fill_pool n d) p r r.error

  unfoldable pub new_sender_pool : ℕ → Dialer → List Command → Pooled
  new_sender_pool n d h = fill_pool n d unfilled h

  abbrev left_redialed : (Bool → List Command → Bool) → Dialed → Option SmtpError → Bool
  left_redialed again r none = again r.client r.history
  left_redialed again r (some e) = true

  -- The client that a sender is left with by `sendMessage`: `redial` replaces it.
  abbrev left_round : (Bool → List Command → Bool) → Dialer → List Command → Option SmtpError → Bool
  left_round again d h none = true
  left_round again d h (some eof) =
      let r = dial reply extension d h in left_redialed again r r.error
  left_round again d h (some e) = true

  unfoldable pub client_left : ℕ → Dialer → Message → Bool → List Command → Bool
  client_left zero d m client h = client
  client_left (suc retries) d m false h = false
  client_left (suc retries) d m true h =
      let h' = mail m.from ∷ h in left_round (client_left retries d m) d h' (reply h')

  abbrev close_round :
      (List Command → Drained) → List Bool → List Command → Option SmtpError → Drained
  close_round again cs h none = again h
  close_round again cs h (some e) = record { result = close_failed e; clients = cs; history = h }

  -- The loop of `close`, with the rounds that are left before its context is done. It waits for that when
  -- the channel is empty.
  unfoldable pub close_clients : ℕ → List Bool → List Command → Drained
  close_clients zero cs h = record { result = closed; clients = cs; history = h }
  close_clients (suc n) [] h = record { result = closed; clients = []; history = h }
  close_clients (suc n) (false ∷ cs) h = record {
    result = close_panicked;
    clients = cs;
    history = h;
  }
  close_clients (suc n) (true ∷ cs) h =
      close_round (close_clients n cs) cs (close ∷ h) (reply (close ∷ h))

  abbrev closes : ℕ → World → Bool → Closed × World
  closes n w false = (close_panicked, w)
  closes n w true =
      let r = close_clients n w.pool.clients w.history in
      (r.result, record { pool = record w.pool { clients = r.clients }; history = r.history })

  unfoldable pub close_pool : ℕ → World → Closed × World
  close_pool n w =
      if w.pool.is_closed
      then (already_closed, w)
      else closes n (record w { pool = record w.pool { is_closed = true } }) w.pool.cancel

  module _ (is_digit : ℕ → Bool) (decode : Bytes → Decoding)
      (q_encode b_encode : Bytes → Bytes → Bytes) {E : Type 0}
      (publish : DeliveryEvent → Option E) where
    abbrev published : Option E → SendOutcome E
    published none = returned
    published (some e) = unpublished e

    -- `send` behind `sendMessage`.
    abbrev sent_outcome : Sent → SendOutcome E
    sent_outcome (event e) = published (publish e)
    sent_outcome (failed e) = unsent e
    sent_outcome no_connection = disconnected
    sent_outcome panics = panicked

    abbrev send_by : Dialer → Message → List Command → Got → World → SendOutcome E × World
    send_by d m h nil_context w = (panicked, w)
    send_by d m h nothing w = (no_senders, w)
    send_by d m h waits w = (blocked, w)
    send_by d m h (taken c p) w =
        let r = send_message is_digit reply extension d m c h in
        (sent_outcome r.0, record { pool = put p (client_left 3 d m c h); history = r.1 })

    unfoldable pub send : Dialer → Message → Bool → World → SendOutcome E × World
    send d m ctx_first w = send_by d m w.history (get w.pool ctx_first) w

    abbrev pub send_prepared : Dialer → Bool → World → Result Mail → SendOutcome E × World
    send_prepared d ctx_first w (done m) =
        send d (record { id = m.id; from = m.from; to = m.to }) ctx_first w
    send_prepared d ctx_first w (fail e) = (unprepared e, w)

    unfoldable pub prepare_and_send : Dialer → Incoming → World → SendOutcome E × World
    prepare_and_send d i w =
        send_prepared d i.ctx_first w (prepare decode q_encode b_encode i.fresh i.message)

    abbrev pub and_next :
        (World → SendOutcome E × World) → SendOutcome E × World → SendOutcome E × World
    and_next next (returned, w) = next w
    and_next next (o, w) = (o, w)

    unfoldable pub send_batch : Dialer → List Incoming → World → SendOutcome E × World
    send_batch d [] w = (returned, w)
    send_batch d (i ∷ msgs) w = and_next (send_batch d msgs) (prepare_and_send d i w)

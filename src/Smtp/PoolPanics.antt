-- ===== src/Smtp/PoolPanics.antt =====
-- What becomes of a pool of senders: email/smtpemail/smtp_sender.go, email/smtpemail/message_sender.go.
use mathlib.Core.Path.{subst}
use blocky_cloud.Prelude.{
  ℕ, zero, suc, ◌+◌, Bool, false, List, [], ◌∷◌, ◌++◌, Option, none, some, ◌≡◌, refl, ap, ◌∙◌,
  arith,
}
use blocky_cloud.Address.Utf8.{Bytes}
use blocky_cloud.Address.Phrase.{Decoding}
use blocky_cloud.Address.Entry.{Result, done, fail}
use blocky_cloud.Smtp.Session.{Command, SmtpError, Dialer, dial}
use blocky_cloud.Smtp.Message.{Mail, prepare}
use blocky_cloud.Smtp.Sender.{DeliveryEvent, Message}
use blocky_cloud.Smtp.Transaction.{dial_client}
use blocky_cloud.Smtp.Pool.{
  SenderPool, unfilled, put, get, send_prepared, and_next, World, Pooled, filled, fill_failed,
  fill_round, fill_pool, new_sender_pool, Incoming, SendOutcome, panicked, unprepared,
  close_panicked, already_closed, close_pool, send, prepare_and_send, send_batch,
}

abbrev pub nils : ℕ → List Bool
nils zero = []
nils (suc n) = false ∷ nils n

nils_snoc : (n : ℕ) → nils n ++ false ∷ [] ≡ nils (suc n)
nils_snoc zero = refl
nils_snoc (suc n) = ap (λ l. false ∷ l) (nils_snoc n)

-- A pool whose context and `cancel` are nil, with so many clients, which are nil too.
record IsUnset (n : ℕ) (p : SenderPool) : Type 0 where
  clients : p.clients ≡ nils n
  ctx : p.ctx ≡ none
  cancel : p.cancel ≡ false
  is_closed : p.is_closed ≡ false

abbrev Unset : ℕ → Pooled → Type 0
Unset n (filled p h) = IsUnset n p
Unset n (fill_failed e h) = Unit

abbrev pub world : SenderPool → List Command → World
world p h = record { pool = p; history = h }

-- What `SendBatch` comes to at a first message that is prepared with this result.
abbrev pub first_outcome : {E : Type 0} → Result Mail → SendOutcome E
first_outcome (done m) = panicked
first_outcome (fail e) = unprepared e

module _ (reply : List Command → Option SmtpError)
    (extension : List Command → Bytes → Option Bytes) where
  fill_pool-IsUnset :
      (n k : ℕ) (d : Dialer) (p : SenderPool) (h : List Command)
      → IsUnset k p
      → Unset (n + k) (fill_pool reply extension n d p h)
  unfolding fill_pool put
  fill_pool-IsUnset zero k d p h u = let e : k ≡ 0 + k = omega arith in subst (λ m. IsUnset m p) e u
  fill_pool-IsUnset (suc n) k d p h u =
      let r = dial reply extension d h in
      let p' = put p r.client in
      let e : n + suc k ≡ suc n + k = omega arith in
      filled_round r.error (
        subst (λ m. Unset m (fill_pool reply extension n d p' r.history)) e
          (fill_pool-IsUnset n (suc k) d p' r.history (record {
            clients =
                ap (λ c. p.clients ++ c ∷ []) (dial_client reply extension d h)
                ∙ ap (λ l. l ++ false ∷ []) u.clients
                ∙ nils_snoc k;
            ctx = u.ctx;
            cancel = u.cancel;
            is_closed = u.is_closed;
          })))
    where
      filled_round :
          (o : Option SmtpError)
          → Unset (suc n + k) (
              fill_pool reply extension n d
                (put p (dial reply extension d h).client)
                (dial reply extension d h).history)
          → Unset (suc n + k) (
              fill_round reply extension
                (fill_pool reply extension n d)
                p
                (dial reply extension d h)
                o)
      filled_round none v = v
      filled_round (some e) v = tt

  pool-IsUnset :
      (n : ℕ) (d : Dialer) (h h' : List Command) (p : SenderPool)
      → new_sender_pool reply extension n d h ≡ filled p h'
      → IsUnset n p
  unfolding new_sender_pool unfilled
  pool-IsUnset n d h h' p e =
      let all =
        fill_pool-IsUnset n 0 d unfilled h
          (record { clients = refl; ctx = refl; cancel = refl; is_closed = refl }) in
      let m : n + 0 ≡ n = omega arith in subst (λ k. IsUnset k p) m (subst (Unset (n + 0)) e all)

  module _ (is_digit : ℕ → Bool) (decode : Bytes → Decoding)
      (q_encode b_encode : Bytes → Bytes → Bytes) {E : Type 0}
      (publish : DeliveryEvent → Option E) where
    send_panics :
        (d : Dialer) (m : Message) (ctx_first : Bool) (w : World)
        → w.pool.ctx ≡ none
        → send reply extension is_digit decode q_encode b_encode publish d m ctx_first w
          ≡ (panicked, w)
    unfolding send get
    send_panics d m ctx_first w u = rw u refl

    send_prepared_panics :
        (d : Dialer) (ctx_first : Bool) (w : World) (r : Result Mail)
        → w.pool.ctx ≡ none
        → send_prepared reply extension is_digit decode q_encode b_encode publish d ctx_first w r
          ≡ (first_outcome r, w)
    send_prepared_panics d ctx_first w (done m) u =
        send_panics d (record { id = m.id; from = m.from; to = m.to }) ctx_first w u
    send_prepared_panics d ctx_first w (fail e) u = refl

    stops :
        (next : World → SendOutcome E × World) (r : Result Mail) (w : World)
        → and_next reply extension is_digit decode q_encode b_encode publish next
            (first_outcome r, w)
          ≡ (first_outcome r, w)
    stops next (done m) w = refl
    stops next (fail e) w = refl

    send_batch_panics :
        (d : Dialer) (i : Incoming) (msgs : List Incoming) (w : World)
        → w.pool.ctx ≡ none
        → send_batch reply extension is_digit decode q_encode b_encode publish d (i ∷ msgs) w
          ≡ (first_outcome (prepare decode q_encode b_encode i.fresh i.message), w)
    unfolding send_batch prepare_and_send
    send_batch_panics d i msgs w u =
        let r = prepare decode q_encode b_encode i.fresh i.message in
        ap
          (and_next reply extension is_digit decode q_encode b_encode publish
            (send_batch reply extension is_digit decode q_encode b_encode publish d msgs))
          (send_prepared_panics d i.ctx_first w r u)
        ∙ stops _ r w

    -- A pool that newSenderPool returns holds as many nil clients as it was asked for. SendBatch of
    -- messages panics at the first one, or returns the error with which it cannot be prepared;
    -- nothing is called and the pool is left as it was. The first Close of the pool panics, and each later
    -- one says that it is closed.
    pub pool_panics :
        (n : ℕ) (d : Dialer) (h h' : List Command) (p : SenderPool) (i : Incoming)
        (msgs : List Incoming) (rounds again : ℕ)
        → new_sender_pool reply extension n d h ≡ filled p h'
        → (p.clients ≡ nils n)
          × (send_batch reply extension is_digit decode q_encode b_encode publish d
                (i ∷ msgs)
                (world p h')
              ≡ (first_outcome (prepare decode q_encode b_encode i.fresh i.message), world p h'))
          × ((close_pool reply extension rounds (world p h')).0 ≡ close_panicked)
          × ((close_pool reply extension again (close_pool reply extension rounds (world p h')).1).0
              ≡ already_closed)
    unfolding close_pool
    pool_panics n d h h' p i msgs rounds again e =
        let u = pool-IsUnset n d h h' p e in
        (
          u.clients,
          send_batch_panics d i msgs (world p h') u.ctx,
          rw (u.is_closed, u.cancel) refl,
          rw (u.is_closed, u.cancel) refl,
        )

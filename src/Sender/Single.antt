-- ===== src/Sender/Single.antt =====
-- While the context of no call of `Send` ends, a portable sender has one item in its batcher at most:
-- `Send` of email/message_sender.go holds the mutex while it waits for the answer.
use blocky_cloud.Prelude.{
  ℕ, Bool-cases, ==_iff, List, [], ◌∷◌, Option, none, some, get_elem?, if_cases, ◌≡◌, ◌≢◌, inl, inr,
  refl, sym, ap, ◌∙◌, arith, ◌==◌, All,
}
use mathlib.Core.Path.{subst}
use blocky_cloud.Batcher.Options.{Options}
use blocky_cloud.Batcher.State.{
  Waiter, Thread, handling, reported, leaving, handled, shut_down, message_too_large, start, queue,
  answer, next_batch, add_no_wait_cases, enqueue, add_no_wait, report, take_next, continue_with,
  leave, Batcher, Reply, add, returns, locks, exits, shuts_down,
}
use blocky_cloud.Batcher.State as Batcher_State
use blocky_cloud.Batcher.Delivery.{IsPlaced, run-new-IsPlaced}
use blocky_cloud.Sender.State.{
  Call, send_waits, adding, shutdown_waits, flushing, returned, Lock, free, sending, kept, Sender,
  Event, send, shutdown, acquires, receives, gives_up, finishes, works, call_send, lock_shutdown,
  take_answer, deliver_answer, finish_shutdown, work, lock_send, lock_call, acquire, step, run,
  answer_of,
}
use blocky_cloud.Sender.Simulation.{IsReached, step-Follows}
use blocky_cloud.Sender.Channels.{
  IsSettled, Grows, opened, answers-answer_of, Grows-IsSettled, work-Grows, add_no_wait-Grows,
}

-- The channel that the call with the mutex waits for, if any, and else the next to be made.
abbrev pub current_of : Lock → ℕ → ℕ
current_of (sending i t) next = t
current_of free next = next
current_of kept next = next

module _ {A E : Type 0} where
  -- All channels but the current one are settled.
  abbrev pub IsAlone : Lock → Batcher A E → Type 0
  IsAlone l b = (t : ℕ) → t ≢ current_of l b.next_errc → IsSettled b t

  abbrev pub Placed : Batcher A E → Type 0
  Placed b = (t : ℕ) → IsPlaced t b

  current_of-Grows :
      (l : Lock) (b c : Batcher A E)
      → Grows b c
      → current_of l c.next_errc ≡ current_of l b.next_errc
  current_of-Grows l b c g = ap (current_of l) g.0

  grown-IsAlone : (l : Lock) (b c : Batcher A E) → Placed c → Grows b c → IsAlone l b → IsAlone l c
  grown-IsAlone l b c p g h t n =
      Grows-IsSettled b c t (p t) g (h t (λ q. n (q ∙ sym (current_of-Grows l b c g))))

  -- The answer settles the channel of the call that waited for it.
  received-IsAlone :
      (i t : ℕ) (b : Batcher A E) (r : Reply E)
      → Placed b
      → answer_of t b.replies ≡ some r
      → IsAlone (sending i t) b
      → IsAlone free b
  received-IsAlone i t b r p e h u n = elim (Bool-cases (u == t)) [
    | inl q ↦
        let same : u ≡ t = (==_iff u t).0 q in
        rw same (let one = answers-answer_of t b.replies r e in ground (arith, p t))
    | inr q ↦ h u (λ same. ground arith)
  ]

  opened-IsAlone :
      (i : ℕ) (b c : Batcher A E)
      → Placed c
      → Grows (opened b) c
      → IsAlone free b
      → IsAlone (sending i b.next_errc) c
  opened-IsAlone i b c p g h t n = ground (arith, h t n, p t, g.1 t, g.0)

pub reached-Placed :
    {A E : Type 0} (opts : Option Options) (size : Option (A → ℕ)) (b : Batcher A E)
    → IsReached opts size b
    → Placed b
reached-Placed opts size b (es, p) t = rw p (run-new-IsPlaced opts size es t)

module _ {M A E : Type 0} where
  lock_shutdown-IsAlone :
      (s : Sender M A E) (i : ℕ)
      → s.mu ≡ free
      → IsAlone s.mu s.batcher
      → IsAlone (lock_shutdown s i).mu (lock_shutdown s i).batcher
  unfolding lock_shutdown
  lock_shutdown-IsAlone s i e h =
      if_cases (λ (c : Sender M A E). IsAlone c.mu c.batcher) s.closed _ _ (λ _. rw e at h) (λ _. h)

  take_answer-IsAlone :
      (s : Sender M A E) (i t : ℕ) (o : Option (Reply E))
      → s.mu ≡ sending i t
      → answer_of t s.batcher.replies ≡ o
      → Placed s.batcher
      → IsAlone s.mu s.batcher
      → IsAlone (take_answer s i o).mu (take_answer s i o).batcher
  unfolding take_answer
  take_answer-IsAlone s i t none e a p h = h
  take_answer-IsAlone s i t (some r) e a p h =
      received-IsAlone i t s.batcher r p a (subst (λ l. IsAlone l s.batcher) e h)

  deliver_answer-IsAlone :
      (s : Sender M A E) (l : Lock)
      → s.mu ≡ l
      → Placed s.batcher
      → IsAlone s.mu s.batcher
      → IsAlone (deliver_answer s l).mu (deliver_answer s l).batcher
  unfolding deliver_answer
  deliver_answer-IsAlone s free e p h = h
  deliver_answer-IsAlone s kept e p h = h
  deliver_answer-IsAlone s (sending i t) e p h = take_answer-IsAlone s i t _ e refl p h

  work_mu : (s : Sender M A E) (e : Batcher_State.Event A E) → (work s e).mu ≡ s.mu
  unfolding work
  work_mu s (add item) = refl
  work_mu s shuts_down = ground arith
  work_mu s (returns i err) = refl
  work_mu s (locks i) = refl
  work_mu s (exits i) = refl

  work-IsAlone :
      (s : Sender M A E) (e : Batcher_State.Event A E)
      → Placed (work s e).batcher
      → IsAlone s.mu s.batcher
      → IsAlone (work s e).mu (work s e).batcher
  work-IsAlone s e p h =
      rw (work_mu s e) (grown-IsAlone s.mu s.batcher (work s e).batcher p (work-Grows s e) h)

  -- The context of no call of `Send` ends while it waits.
  abbrev pub IsPatient : Event M A E → Type 0
  IsPatient (gives_up e) = ⊥
  IsPatient _ = Unit

  module _ (convert : M → A) where
    lock_send-IsAlone :
        (s : Sender M A E) (i : ℕ) (m : M) (err : Option E)
        → s.mu ≡ free
        → Placed (lock_send convert s i m err).batcher
        → IsAlone s.mu s.batcher
        → IsAlone (lock_send convert s i m err).mu (lock_send convert s i m err).batcher
    unfolding lock_send
    lock_send-IsAlone s i m (some x) e p h = h
    lock_send-IsAlone s i m none e p h =
        opened-IsAlone i s.batcher (lock_send convert s i m none).batcher p
          (add_no_wait-Grows s.batcher (convert m)) (subst (λ l. IsAlone l s.batcher) e h)

    lock_call-IsAlone :
        (s : Sender M A E) (i : ℕ) (c : Option (Call M E))
        → s.mu ≡ free
        → Placed (lock_call convert s i c).batcher
        → IsAlone s.mu s.batcher
        → IsAlone (lock_call convert s i c).mu (lock_call convert s i c).batcher
    unfolding lock_call
    lock_call-IsAlone s i none e p h = h
    lock_call-IsAlone s i (some (send_waits m)) e p h = lock_send-IsAlone s i m s.err e p h
    lock_call-IsAlone s i (some shutdown_waits) e p h = lock_shutdown-IsAlone s i e h
    lock_call-IsAlone s i (some adding) e p h = h
    lock_call-IsAlone s i (some flushing) e p h = h
    lock_call-IsAlone s i (some (returned x)) e p h = h

    acquire-IsAlone :
        (s : Sender M A E) (i : ℕ) (l : Lock)
        → s.mu ≡ l
        → Placed (acquire convert s i l).batcher
        → IsAlone s.mu s.batcher
        → IsAlone (acquire convert s i l).mu (acquire convert s i l).batcher
    unfolding acquire
    acquire-IsAlone s i free e p h = lock_call-IsAlone s i (get_elem? s.calls i) e p h
    acquire-IsAlone s i (sending j t) e p h = h
    acquire-IsAlone s i kept e p h = h

    call_send-IsAlone :
        (s : Sender M A E) (m : M) (ended : Option E)
        → IsAlone s.mu s.batcher
        → IsAlone (call_send s m ended).mu (call_send s m ended).batcher
    unfolding call_send
    call_send-IsAlone s m none h = h
    call_send-IsAlone s m (some e) h = h

    finish-IsAlone :
        (s : Sender M A E) (i : ℕ) (context close_err : Option E) (c : Option (Call M E))
        → IsAlone s.mu s.batcher
        → IsAlone
            (finish_shutdown s i context close_err c).mu
            (finish_shutdown s i context close_err c).batcher
    unfolding finish_shutdown
    finish-IsAlone s i context close_err (some flushing) h =
        if_cases (λ (c : Sender M A E). IsAlone c.mu c.batcher) _ _ _ (λ _. h) (λ _. h)
    finish-IsAlone s i context close_err none h = h
    finish-IsAlone s i context close_err (some (send_waits m)) h = h
    finish-IsAlone s i context close_err (some shutdown_waits) h = h
    finish-IsAlone s i context close_err (some adding) h = h
    finish-IsAlone s i context close_err (some (returned x)) h = h

    pub step-IsAlone :
        (s : Sender M A E) (e : Event M A E)
        → IsPatient e
        → Placed s.batcher
        → Placed (step convert s e).batcher
        → IsAlone s.mu s.batcher
        → IsAlone (step convert s e).mu (step convert s e).batcher
    unfolding step
    step-IsAlone s (send m ended) w p q h = call_send-IsAlone s m ended h
    step-IsAlone s shutdown w p q h = h
    step-IsAlone s (acquires i) w p q h = acquire-IsAlone s i s.mu refl q h
    step-IsAlone s receives w p q h = deliver_answer-IsAlone s s.mu refl p h
    step-IsAlone s (gives_up e) w p q h = absurd w
    step-IsAlone s (finishes i context close_err) w p q h =
        finish-IsAlone s i context close_err (get_elem? s.calls i) h
    step-IsAlone s (works e) w p q h = work-IsAlone s e q h

    module _ (opts : Option Options) (size : Option (A → ℕ)) where
      pub run-IsAlone :
          (s : Sender M A E) (es : List (Event M A E))
          → All IsPatient es
          → IsReached opts size s.batcher
          → IsAlone s.mu s.batcher
          → IsAlone (run convert s es).mu (run convert s es).batcher
      unfolding run
      run-IsAlone s [] w r h = h
      run-IsAlone s (e ∷ es) (w, ws) r h =
          let r' = step-Follows opts size convert s e r in
          run-IsAlone (step convert s e) es ws r' (
            step-IsAlone s e w (reached-Placed opts size s.batcher r)
              (reached-Placed opts size (step convert s e).batcher r') h)

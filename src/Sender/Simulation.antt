-- ===== src/Sender/Simulation.antt =====
-- A run of a portable sender drives its batcher through a run of its own, so what holds of every run of
-- the batcher holds of the sender's: email/message_sender.go over email/batcher/batcher.go.
use blocky_cloud.Prelude.{
  ℕ, List, [], ◌∷◌, ◌++◌, Option, none, some, get_elem?, if_cases, ◌≡◌, refl, sym, ap, ◌∙◌, arith,
}
use blocky_cloud.Batcher.Options.{Options}
use blocky_cloud.Batcher.State.{Batcher, Reply, add, returns, locks, exits, shuts_down}
use blocky_cloud.Batcher.State as Batcher_State
use blocky_cloud.Sender.State.{
  Call, send_waits, adding, shutdown_waits, flushing, returned, Lock, free, sending, kept, Sender,
  Event, send, shutdown, acquires, receives, gives_up, finishes, works, call_send, lock_shutdown,
  take_answer, deliver_answer, give_up, finish_shutdown, work, lock_send, lock_call, acquire, step,
  run, new_state,
}

module _ {A E : Type 0} where
  run_snoc :
      (b : Batcher A E) (es : List (Batcher_State.Event A E)) (e : Batcher_State.Event A E)
      → Batcher_State.run b (es ++ e ∷ []) ≡ Batcher_State.step (Batcher_State.run b es) e
  unfolding Batcher_State.run
  run_snoc b [] e = refl
  run_snoc b (x ∷ es) e = run_snoc (Batcher_State.step b x) es e

  -- A batcher that `New` made, after some run.
  abbrev pub IsReached : Option Options → Option (A → ℕ) → Batcher A E → Type 0
  IsReached opts size b =
      (es : List (Batcher_State.Event A E)) × (b
        ≡ Batcher_State.run (Batcher_State.new opts size) es)

module _ {M A E : Type 0} where
  -- Most steps leave the batcher alone.
  pub call_send_batcher :
      (s : Sender M A E) (m : M) (ended : Option E) → (call_send s m ended).batcher ≡ s.batcher
  unfolding call_send
  call_send_batcher s m ended = ground arith

  pub deliver_answer_batcher :
      (s : Sender M A E) (l : Lock) → (deliver_answer s l).batcher ≡ s.batcher
  unfolding deliver_answer take_answer
  deliver_answer_batcher s l = ground arith

  pub give_up_batcher : (s : Sender M A E) (e : E) (l : Lock) → (give_up s e l).batcher ≡ s.batcher
  unfolding give_up
  give_up_batcher s e l = ground arith

  pub finish_batcher :
      (s : Sender M A E) (i : ℕ) (context close_err : Option E) (c : Option (Call M E))
      → (finish_shutdown s i context close_err c).batcher ≡ s.batcher
  unfolding finish_shutdown
  finish_batcher s i context close_err c = ground arith

  pub lock_shutdown_batcher : (s : Sender M A E) (i : ℕ) → (lock_shutdown s i).batcher ≡ s.batcher
  unfolding lock_shutdown
  lock_shutdown_batcher s i = ground arith

module _ {A E : Type 0} (opts : Option Options) (size : Option (A → ℕ)) where
  stepped :
      (b : Batcher A E) (e : Batcher_State.Event A E)
      → IsReached opts size b
      → IsReached opts size (Batcher_State.step b e)
  stepped b e (es, p) = (es ++ e ∷ [], ap (λ c. Batcher_State.step c e) p ∙ sym (run_snoc _ es e))

  added :
      (b : Batcher A E) (item : A)
      → IsReached opts size b
      → IsReached opts size (Batcher_State.add_no_wait b item)
  unfolding Batcher_State.step
  added b item r = stepped b (add item) r

  module _ {M : Type 0} (convert : M → A) where
    abbrev pub Follows : Sender M A E → Type 0
    Follows s = IsReached opts size s.batcher

    work-Follows : (s : Sender M A E) (e : Batcher_State.Event A E) → Follows s → Follows (work s e)
    unfolding work
    work-Follows s (add item) r = r
    work-Follows s shuts_down r =
        if_cases Follows s.closed _ _ (λ _. stepped s.batcher shuts_down r) (λ _. r)
    work-Follows s (returns i err) r = stepped s.batcher (returns i err) r
    work-Follows s (locks i) r = stepped s.batcher (locks i) r
    work-Follows s (exits i) r = stepped s.batcher (exits i) r

    unmoved : {b c : Batcher A E} → c ≡ b → IsReached opts size b → IsReached opts size c
    unmoved e (es, p) = (es, e ∙ p)

    lock_send-Follows :
        (s : Sender M A E) (i : ℕ) (m : M) (err : Option E)
        → Follows s
        → Follows (lock_send convert s i m err)
    unfolding lock_send
    lock_send-Follows s i m (some e) r = r
    lock_send-Follows s i m none r = added s.batcher (convert m) r

    lock_call-Follows :
        (s : Sender M A E) (i : ℕ) (c : Option (Call M E))
        → Follows s
        → Follows (lock_call convert s i c)
    unfolding lock_call
    lock_call-Follows s i none r = r
    lock_call-Follows s i (some (send_waits m)) r = lock_send-Follows s i m s.err r
    lock_call-Follows s i (some shutdown_waits) r = unmoved (lock_shutdown_batcher s i) r
    lock_call-Follows s i (some adding) r = r
    lock_call-Follows s i (some flushing) r = r
    lock_call-Follows s i (some (returned x)) r = r

    acquire-Follows :
        (s : Sender M A E) (i : ℕ) (l : Lock) → Follows s → Follows (acquire convert s i l)
    unfolding acquire
    acquire-Follows s i free r = lock_call-Follows s i (get_elem? s.calls i) r
    acquire-Follows s i (sending j t) r = r
    acquire-Follows s i kept r = r

    pub step-Follows : (s : Sender M A E) (e : Event M A E) → Follows s → Follows (step convert s e)
    unfolding step
    step-Follows s (send m ended) r = unmoved (call_send_batcher s m ended) r
    step-Follows s shutdown r = r
    step-Follows s (acquires i) r = acquire-Follows s i s.mu r
    step-Follows s receives r = unmoved (deliver_answer_batcher s s.mu) r
    step-Follows s (gives_up e) r = unmoved (give_up_batcher s e s.mu) r
    step-Follows s (finishes i context close_err) r =
        unmoved (finish_batcher s i context close_err (get_elem? s.calls i)) r
    step-Follows s (works e) r = work-Follows s e r

    pub run-Follows :
        (s : Sender M A E) (es : List (Event M A E)) → Follows s → Follows (run convert s es)
    unfolding run
    run-Follows s [] r = r
    run-Follows s (e ∷ es) r = run-Follows (step convert s e) es (step-Follows s e r)

    pub new_state-Follows : Follows (new_state opts size)
    unfolding Batcher_State.run
    new_state-Follows = ([], refl)

-- ===== src/Sender/Starved.antt =====
-- With a minimal batch size above one, the driver of a portable sender is never called:
-- email/message_sender.go over email/batcher/batcher.go.
use mathlib.Core.Path.{subst}
use blocky_cloud.Prelude.{
  ℕ, ◌≤◌, List, [], ◌∷◌, Option, none, some, get_elem?, ◌≡◌, refl, ap, ◌∙◌, arith, length, All,
}
use blocky_cloud.Batcher.Options.{Options, new_options_with_defaults}
use blocky_cloud.Batcher.State.{
  Waiter, Thread, handling, reported, leaving, start, queue, next_batch, add_no_wait_cases, enqueue,
  add_no_wait, report, take_next, leave, Batcher, add, returns, locks, exits, shuts_down,
}
use blocky_cloud.Batcher.State as Batcher_State
use blocky_cloud.Batcher.Shutdown.{run_opts, new_opts}
use blocky_cloud.Sender.State.{
  Call, send_waits, shutdown_waits, Lock, free, sending, kept, Sender, Event, send, shutdown,
  acquires, receives, gives_up, finishes, works, work, lock_send, lock_call, acquire, step, run,
  new_state,
}
use blocky_cloud.Sender.Simulation.{IsReached, step-Follows, new_state-Follows}
use blocky_cloud.Sender.Single.{IsAlone, Placed, IsPatient, reached-Placed, step-IsAlone}
use blocky_cloud.Sender.Simulation.{
  call_send_batcher, deliver_answer_batcher, give_up_batcher, finish_batcher, lock_shutdown_batcher,
}
use blocky_cloud.Sender.Batches.{sent, new-IsAlone, none_pending}

module _ {A E : Type 0} where
  -- A single item is no batch.
  enqueue_threads :
      (b : Batcher A E) (item : A)
      → b.pending ≡ []
      → 2 ≤ b.opts.min_batch_size
      → b.threads ≡ []
      → (enqueue b item).threads ≡ []
  unfolding enqueue next_batch start
  enqueue_threads b item p o h = ground arith

  add_no_wait_threads :
      (b : Batcher A E) (item : A)
      → b.pending ≡ []
      → 2 ≤ b.opts.min_batch_size
      → b.threads ≡ []
      → (add_no_wait b item).threads ≡ []
  add_no_wait_threads b item p o h =
      add_no_wait_cases (λ c. c.threads ≡ []) b item (λ _. h) (λ _. h)
        (λ _ _. enqueue_threads b item p o h)

module _ {M A E : Type 0} (convert : M → A) where
  work_threads :
      (s : Sender M A E) (e : Batcher_State.Event A E)
      → s.batcher.threads ≡ []
      → (work s e).batcher.threads ≡ []
  unfolding work Batcher_State.step report take_next leave
  work_threads s (add item) h = h
  work_threads s shuts_down h = ground arith
  work_threads s (returns i err) h = ground arith
  work_threads s (locks i) h = ground arith
  work_threads s (exits i) h = ground arith

  lock_send_threads :
      (s : Sender M A E) (i : ℕ) (m : M) (err : Option E)
      → s.batcher.pending ≡ []
      → 2 ≤ s.batcher.opts.min_batch_size
      → s.batcher.threads ≡ []
      → (lock_send convert s i m err).batcher.threads ≡ []
  unfolding lock_send
  lock_send_threads s i m (some e) p o h = h
  lock_send_threads s i m none p o h = add_no_wait_threads s.batcher (convert m) p o h

  lock_call_threads :
      (s : Sender M A E) (i : ℕ) (c : Option (Call M E))
      → s.batcher.pending ≡ []
      → 2 ≤ s.batcher.opts.min_batch_size
      → s.batcher.threads ≡ []
      → (lock_call convert s i c).batcher.threads ≡ []
  unfolding lock_call
  lock_call_threads s i (some (send_waits m)) p o h = lock_send_threads s i m s.err p o h
  lock_call_threads s i (some shutdown_waits) p o h = ground (arith, lock_shutdown_batcher s i)
  lock_call_threads s i _ p o h = h

  acquire_threads :
      (s : Sender M A E) (i : ℕ) (l : Lock)
      → (l ≡ free → s.batcher.pending ≡ [])
      → 2 ≤ s.batcher.opts.min_batch_size
      → s.batcher.threads ≡ []
      → (acquire convert s i l).batcher.threads ≡ []
  unfolding acquire
  acquire_threads s i free p o h = lock_call_threads s i _ (p refl) o h
  acquire_threads s i (sending j t) p o h = h
  acquire_threads s i kept p o h = h

  step_threads :
      (s : Sender M A E) (e : Event M A E)
      → (s.mu ≡ free → s.batcher.pending ≡ [])
      → 2 ≤ s.batcher.opts.min_batch_size
      → s.batcher.threads ≡ []
      → (step convert s e).batcher.threads ≡ []
  unfolding step
  step_threads s (send m ended) p o h = ground (arith, call_send_batcher s m ended)
  step_threads s shutdown p o h = h
  step_threads s (acquires i) p o h = acquire_threads s i s.mu p o h
  step_threads s receives p o h = ground (arith, deliver_answer_batcher s s.mu)
  step_threads s (gives_up e) p o h = ground (arith, give_up_batcher s e s.mu)
  step_threads s (finishes i context close_err) p o h =
      ground (arith, finish_batcher s i context close_err (get_elem? s.calls i))
  step_threads s (works e) p o h = work_threads s e h

no_items {ℓ} : {A : Type ℓ} (xs : List A) → length xs ≡ 0 → xs ≡ []
no_items [] h = refl
no_items (x ∷ xs) h = absurd (omega arith)

module _ {M A E : Type 0} (convert : M → A) (opts : Option Options) (size : Option (A → ℕ)) where
  free_pending :
      (s : Sender M A E)
      → Placed s.batcher
      → IsAlone s.mu s.batcher
      → s.mu ≡ free
      → s.batcher.pending ≡ []
  free_pending s p h e =
      no_items s.batcher.pending (none_pending s.batcher p (subst (λ l. IsAlone l s.batcher) e h))

  reached_opts : (b : Batcher A E) → IsReached opts size b → b.opts ≡ new_options_with_defaults opts
  reached_opts b (es, p) =
      ap (λ (c : Batcher A E). c.opts) p
      ∙ run_opts (Batcher_State.new opts size) es
      ∙ new_opts E opts size

  run_threads :
      (s : Sender M A E) (es : List (Event M A E))
      → All IsPatient es
      → 2 ≤ (new_options_with_defaults opts).min_batch_size
      → IsReached opts size s.batcher
      → IsAlone s.mu s.batcher
      → s.batcher.threads ≡ []
      → (run convert s es).batcher.threads ≡ []
  unfolding run
  run_threads s [] w o r h t = t
  run_threads s (e ∷ es) (w, ws) o r h t =
      let p = reached-Placed opts size s.batcher r in
      let r' = step-Follows opts size convert s e r in
      let enough : 2 ≤ s.batcher.opts.min_batch_size = rw (reached_opts s.batcher r) o in
      run_threads (step convert s e) es ws o r'
        (step-IsAlone convert s e w p (reached-Placed opts size (step convert s e).batcher r') h)
        (step_threads convert s e (free_pending s p h) enough t)

  -- With a minimal batch size above one no goroutine of the batcher ever starts, so the driver is never
  -- given a message, as long as the context of no waiting call of Send ends.
  pub run_starved :
      (es : List (Event M A E))
      → All IsPatient es
      → 2 ≤ (new_options_with_defaults opts).min_batch_size
      → (sent convert opts size es).batcher.threads ≡ []
  unfolding Batcher_State.new
  run_starved es w o =
      run_threads (new_state opts size) es w o (new_state-Follows opts size convert)
        (new-IsAlone E opts size) refl

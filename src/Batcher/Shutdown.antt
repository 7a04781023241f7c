-- ===== src/Batcher/Shutdown.antt =====
-- `Shutdown` of email/batcher/batcher.go, and what it waits for.
use blocky_cloud.Prelude.{
  ℕ, ◌≤◌, ◌<◌, ◌≡◌, refl, ap, ◌∙◌, true, List, [], ◌∷◌, ◌++◌, Option, none, arith, length, sum_by,
}
use blocky_cloud.Batcher.Options.{Options, new_options_with_defaults}
use blocky_cloud.Batcher.State.{
  shut_down, Batcher, Event, add, returns, locks, exits, shuts_down, new, start, enqueue,
  add_no_wait, answer, report, continue_with, take_next, leave, step, run, begin_shutdown,
}
use blocky_cloud.Batcher.Limits.{IsValid, works, run-new-IsValid}
use blocky_cloud.Batcher.Delivery.{answers, IsPlaced, waits, run-new-IsPlaced}

-- The second half of `Shutdown` returns: no goroutine is left in `wg`.
abbrev pub IsQuiet : {A E : Type 0} → Batcher A E → Type 0
IsQuiet b = b.threads ≡ []

module _ {A E : Type 0} where
  quiet_few : (b : Batcher A E) → IsValid b → IsQuiet b → length b.pending < b.opts.min_batch_size
  quiet_few b v q = ground (arith, v.counted, ap (sum_by works) q)

  step_opts : (b : Batcher A E) (e : Event A E) → (step b e).opts ≡ b.opts
  unfolding step add_no_wait enqueue start report take_next continue_with leave
  step_opts b (add item) = ground arith
  step_opts b (returns i err) = ground arith
  step_opts b (locks i) = ground arith
  step_opts b (exits i) = ground arith
  step_opts b shuts_down = refl

  pub run_opts : (b : Batcher A E) (es : List (Event A E)) → (run b es).opts ≡ b.opts
  unfolding run
  run_opts b [] = refl
  run_opts b (e ∷ es) = run_opts (step b e) es ∙ step_opts b e

  -- Once `Shutdown` has begun and no goroutine is left, no event changes the queue or brings a
  -- goroutine back.
  step_stranded :
      (b : Batcher A E) (e : Event A E)
      → b.shutdown ≡ true
      → IsQuiet b
      → ((step b e).shutdown ≡ true) × IsQuiet (step b e) × ((step b e).pending ≡ b.pending)
  unfolding step add_no_wait report take_next leave
  step_stranded b (add item) s q = ground arith
  step_stranded b (returns i err) s q = ground arith
  step_stranded b (locks i) s q = ground arith
  step_stranded b (exits i) s q = ground arith
  step_stranded b shuts_down s q = ground arith

  run_stranded :
      (b : Batcher A E) (es : List (Event A E))
      → b.shutdown ≡ true
      → IsQuiet b
      → (run b es).pending ≡ b.pending
  unfolding run
  run_stranded b [] s q = refl
  run_stranded b (e ∷ es) s q =
      let next = step_stranded b e s q in run_stranded (step b e) es next.0 next.1 ∙ next.2

  step_shutdown : (b : Batcher A E) (e : Event A E) → b.shutdown ≡ true → (step b e).shutdown ≡ true
  unfolding step add_no_wait report take_next continue_with leave
  step_shutdown b (add item) s = ground arith
  step_shutdown b (returns i err) s = ground arith
  step_shutdown b (locks i) s = ground arith
  step_shutdown b (exits i) s = ground arith
  step_shutdown b shuts_down s = refl

  run_shutdown :
      (b : Batcher A E) (es : List (Event A E)) → b.shutdown ≡ true → (run b es).shutdown ≡ true
  unfolding run
  run_shutdown b [] s = s
  run_shutdown b (e ∷ es) s = run_shutdown (step b e) es (step_shutdown b e s)

  -- After `Shutdown` has begun, and whatever runs since, `AddNoWait` answers its channel with the
  -- shut-down error at once, and queues and starts nothing.
  pub add_no_wait-run_shutdown :
      (b : Batcher A E) (es : List (Event A E)) (item : A)
      → let down = run (step b shuts_down) es in add_no_wait down item ≡ answer down shut_down
  unfolding add_no_wait step
  add_no_wait-run_shutdown b es item = ground (arith, run_shutdown (begin_shutdown b) es refl)

pub new_opts :
    {A : Type 0} (E : Type 0) (opts : Option Options) (size : Option (A → ℕ))
    → (new {E = E} opts size).opts ≡ new_options_with_defaults opts
unfolding new
new_opts E opts size = refl

pub new-IsValid :
    {A E : Type 0} (opts : Option Options) (size : Option (A → ℕ)) (es : List (Event A E))
    → IsValid (run (new opts size) es)
unfolding new
new-IsValid opts size es = run-new-IsValid opts size none es

no_waiters {ℓ} : {A : Type ℓ} (xs : List A) → length xs < 1 → xs ≡ []
no_waiters [] h = refl
no_waiters (x ∷ xs) h = absurd (omega arith)

module _ {A E : Type 0} where
  run-append :
      (b : Batcher A E) (es later : List (Event A E)) → run (run b es) later ≡ run b (es ++ later)
  unfolding run
  run-append b [] later = refl
  run-append b (e ∷ es) later = run-append (step b e) es later

  answered :
      (t : ℕ) (b : Batcher A E)
      → IsPlaced t b
      → t < b.next_errc
      → b.pending ≡ []
      → IsQuiet b
      → answers t b.replies ≡ 1
  answered t b placed lt empty q = ground arith

module _ {A E : Type 0} (opts : Option Options) (size : Option (A → ℕ))
    (es : List (Event A E)) where
  abbrev reached : Batcher A E
  reached = run (new opts size) es

  -- Where no minimum above one is set, whenever no goroutine is left (which is what `Shutdown` waits
  -- for) the queue is empty and each channel that `AddNoWait` made has been answered exactly once.
  pub quiet_answered :
      (new_options_with_defaults opts).min_batch_size ≡ 1
      → IsQuiet reached
      → (reached.pending ≡ []) × ((t : ℕ) → t < reached.next_errc → answers t reached.replies ≡ 1)
  quiet_answered h q =
      let kept =
        ap (λ (o : Options). o.min_batch_size)
          (run_opts (new opts size) es ∙ new_opts E opts size) in
      let few = quiet_few reached (new-IsValid opts size es) q in
      let empty = no_waiters reached.pending (omega arith) in
      (empty, λ t lt. answered t reached (run-new-IsPlaced opts size es t) lt empty q)

  -- A batcher with a higher minimum may stop with items waiting. Once `Shutdown` has begun and no
  -- goroutine is left, an item that waits is never answered, whatever happens next.
  pub shutdown_strands :
      (later : List (Event A E)) (t : ℕ)
      → reached.shutdown ≡ true
      → IsQuiet reached
      → 1 ≤ waits t reached.pending
      → answers t (run reached later).replies ≡ 0
  shutdown_strands later t s q w =
      let placed =
        rw (← run-append (new opts size) es later) at
          (run-new-IsPlaced opts size (es ++ later) t) in
      ground (arith, placed, ap (waits t) (run_stranded reached later s q))

-- ===== src/Batcher/Limits.antt =====
-- The limits that a batcher keeps: email/batcher/batcher.go, over all interleavings.
use blocky_cloud.Prelude.{
  ℕ, ◌+◌, ◌≤◌, ◌<◌, ◌≡◌, refl, ◌⊎◌, inl, inr, false, List, [], ◌∷◌, Option, none, some, arith, ltb,
  length, length-append, get_elem?, All, All-append, All-set, All-erase_idx, sum_by, sum_by-append,
  sum_by-set, sum_by-erase_idx, Bool-cases, ltb→lt, sym, ap, ◌∙◌,
}
use blocky_cloud.Batcher.Options.{Options, Within, defaults_positive}
use blocky_cloud.Batcher.State.{
  Waiter, Thread, handling, reported, leaving, Batcher, Event, add, returns, locks, exits,
  shuts_down, next_batch, new, queue, too_large, start, enqueue, add_no_wait, add_no_wait_cases,
  report, continue_with, take_next, leave, step, run,
}
use blocky_cloud.Batcher.NextBatch.{
  bytes_of, Fits, next_batch-IsNext, next_batch_nonempty, next_batch_rest,
}

module _ {A : Type 0} where
  -- A goroutine counts as a handler until it leaves.
  abbrev pub works : Thread A → ℕ
  works (handling batch) = 1
  works reported = 1
  works leaving = 0

  -- A batch is not empty, and within both limits.
  abbrev pub IsSized : Options → Option (A → ℕ) → Thread A → Type 0
  IsSized o size (handling batch) =
      (1 ≤ length batch)
      × Within (length batch) o.max_batch_size
      × Within (bytes_of size batch) o.max_batch_byte_size
  IsSized o size _ = Unit

  -- A batch from a valid queue, and what is left of the queue.
  pub record Batch (o : Options) (size : Option (A → ℕ)) (pending batch rest : List (Waiter A))
      : Type 0 where
    pub sized : IsSized o size (handling batch)
    pub fit : All (Fits o size) rest
    pub lengths : length batch + length rest ≡ length pending

  pub next_batch-Batch :
      (o : Options) (size : Option (A → ℕ)) (pending batch rest : List (Waiter A))
      → 1 ≤ o.min_batch_size
      → All (Fits o size) pending
      → next_batch o size pending ≡ (some batch, rest)
      → Batch o size pending batch rest
  next_batch-Batch o size pending batch rest h f e =
      let next = rw e at (next_batch-IsNext o size pending) in
      let left = rw e at (next_batch_rest o size pending f) in
      record {
        sized = (next_batch_nonempty o size pending h f e, next.2, next.3);
        fit = left;
        lengths = sym (length-append batch rest) ∙ ap length next.0;
      }

module _ {A E : Type 0} where
  pub record IsValid (b : Batcher A E) : Type 0 where
    pub some_handler : 1 ≤ b.opts.max_handlers
    pub some_item : 1 ≤ b.opts.min_batch_size
    pub counted : b.n_handlers ≡ sum_by works b.threads
    pub few : b.n_handlers ≤ b.opts.max_handlers
    pub sized : All (IsSized b.opts b.byte_size_fn) b.threads
    pub fit : All (Fits b.opts b.byte_size_fn) b.pending
    -- Where enough items wait for a batch, all handlers are busy.
    pub busy : (length b.pending < b.opts.min_batch_size) ⊎ (b.n_handlers ≡ b.opts.max_handlers)

  new-IsValid :
      (opts : Option Options) (size stored : Option (A → ℕ))
      → IsValid (record (new {E = E} opts size) { byte_size_fn = stored })
  unfolding new
  new-IsValid opts size stored = ground (arith, defaults_positive opts)

  start-IsValid :
      (b : Batcher A E) (r : Option (List (Waiter A)) × List (Waiter A))
      → IsValid (record b { pending = [] })
      → All (Fits b.opts b.byte_size_fn) b.pending
      → length b.pending ≤ b.opts.min_batch_size
      → b.n_handlers < b.opts.max_handlers
      → next_batch b.opts b.byte_size_fn b.pending ≡ r
      → IsValid (start b r)
  unfolding start
  start-IsValid b (none, rest) v f l n e =
      let next = rw e at (next_batch-IsNext b.opts b.byte_size_fn b.pending) in ground (arith, next)
  start-IsValid b (some batch, rest) v f l n e =
      let next = next_batch-Batch b.opts b.byte_size_fn b.pending batch rest v.some_item f e in
      record {
        some_handler = v.some_handler;
        some_item = v.some_item;
        counted = omega (arith, v.counted, sum_by-append works b.threads (handling batch ∷ []));
        few = omega arith;
        sized = All-append (IsSized b.opts b.byte_size_fn) b.threads _ v.sized (next.sized, tt);
        fit = next.fit;
        busy = inl (omega (arith, next.lengths, next.sized.0));
      }

  unqueued :
      (b : Batcher A E) (item : A) → IsValid b → IsValid (record (queue b item) { pending = [] })
  unqueued b item v = ground arith

  fits :
      (b : Batcher A E) (item : A)
      → too_large b.opts b.byte_size_fn item ≡ false
      → IsValid b
      → All (Fits b.opts b.byte_size_fn) (queue b item).pending
  unfolding too_large
  fits b item h v = All-append (Fits b.opts b.byte_size_fn) b.pending _ v.fit (ground arith, tt)

  enqueue-IsValid :
      (b : Batcher A E) (item : A)
      → too_large b.opts b.byte_size_fn item ≡ false
      → IsValid b
      → IsValid (enqueue b item)
  unfolding enqueue too_large
  enqueue-IsValid b item h v =
      let queued = fits b item h v in
      let longer = length-append b.pending (record { item = item; errc = b.next_errc } ∷ []) in
      elim (Bool-cases (ltb b.n_handlers b.opts.max_handlers)) [
        | inl room ↦ rw room (
            start-IsValid _ _ (unqueued b item v) queued (ground (arith, longer, room))
              (ltb→lt _ _ room) refl)
        | inr full ↦ rw full (ground (arith, queued))
      ]

  add_no_wait-IsValid : (b : Batcher A E) (item : A) → IsValid b → IsValid (add_no_wait b item)
  add_no_wait-IsValid b item v =
      add_no_wait_cases IsValid b item (λ _. ground arith) (λ _. ground arith)
        (λ _ small. enqueue-IsValid b item small v)

  report-IsValid :
      (b : Batcher A E) (i : ℕ) (err : Option E) (t : Option (Thread A))
      → get_elem? b.threads i ≡ t
      → IsValid b
      → IsValid (report b i err t)
  unfolding report
  report-IsValid b i err (some (handling batch)) e v = ground (
    arith,
    sum_by-set works b.threads i reported e,
    All-set (IsSized b.opts b.byte_size_fn) b.threads i reported v.sized tt,
  )
  report-IsValid b i err _ e v = v

  continue_with-IsValid :
      (b : Batcher A E) (i : ℕ) (r : Option (List (Waiter A)) × List (Waiter A))
      → get_elem? b.threads i ≡ some reported
      → next_batch b.opts b.byte_size_fn b.pending ≡ r
      → IsValid b
      → IsValid (continue_with b i r)
  unfolding continue_with
  continue_with-IsValid b i (none, rest) e n v = ground (
    arith,
    (rw n at (next_batch-IsNext b.opts b.byte_size_fn b.pending)),
    sum_by-set works b.threads i leaving e,
    All-set (IsSized b.opts b.byte_size_fn) b.threads i leaving v.sized tt,
  )
  continue_with-IsValid b i (some batch, rest) e n v =
      let next = next_batch-Batch b.opts b.byte_size_fn b.pending batch rest v.some_item v.fit n in
      ground (
        arith,
        next,
        sum_by-set works b.threads i (handling batch) e,
        All-set (IsSized b.opts b.byte_size_fn) b.threads i (handling batch) v.sized next.sized,
        (rw n at (next_batch-IsNext b.opts b.byte_size_fn b.pending)),
      )

  take_next-IsValid :
      (b : Batcher A E) (i : ℕ) (t : Option (Thread A))
      → get_elem? b.threads i ≡ t
      → IsValid b
      → IsValid (take_next b i t)
  unfolding take_next
  take_next-IsValid b i (some reported) e v = continue_with-IsValid b i _ e refl v
  take_next-IsValid b i _ e v = v

  leave-IsValid :
      (b : Batcher A E) (i : ℕ) (t : Option (Thread A))
      → get_elem? b.threads i ≡ t
      → IsValid b
      → IsValid (leave b i t)
  unfolding leave
  leave-IsValid b i (some leaving) e v = ground (
    arith,
    sum_by-erase_idx works b.threads i e,
    All-erase_idx (IsSized b.opts b.byte_size_fn) b.threads i v.sized,
  )
  leave-IsValid b i _ e v = v

  pub step-IsValid : (b : Batcher A E) (e : Event A E) → IsValid b → IsValid (step b e)
  unfolding step
  step-IsValid b (add item) v = add_no_wait-IsValid b item v
  step-IsValid b (returns i err) v = report-IsValid b i err _ refl v
  step-IsValid b (locks i) v = take_next-IsValid b i _ refl v
  step-IsValid b (exits i) v = leave-IsValid b i _ refl v
  step-IsValid b shuts_down v = ground arith

  pub run-IsValid : (b : Batcher A E) (es : List (Event A E)) → IsValid b → IsValid (run b es)
  unfolding run
  run-IsValid b [] v = v
  run-IsValid b (e ∷ es) v = run-IsValid (step b e) es (step-IsValid b e v)

  -- After any interleaving of adds, handlers and shutdowns on a new batcher, with whatever byte size
  -- function it carries: `nHandlers` counts the running handlers and never exceeds `MaxHandlers`;
  -- every batch that a handler holds is not empty and within `MaxBatchSize` and `MaxBatchByteSize`;
  -- no waiting item is above the byte limit by itself; and where at least `MinBatchSize` items wait,
  -- all handlers are busy.
  pub run-new-IsValid :
      (opts : Option Options) (size stored : Option (A → ℕ)) (es : List (Event A E))
      → IsValid (run (record (new opts size) { byte_size_fn = stored }) es)
  run-new-IsValid opts size stored es = run-IsValid _ es (new-IsValid opts size stored)

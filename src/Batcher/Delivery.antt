-- ===== src/Batcher/Delivery.antt =====
-- Every channel that `AddNoWait` of email/batcher/batcher.go returns is in one place at a time: with
-- a waiting item, with an item in a handler's batch, or answered.
use blocky_cloud.Prelude.{
  ℕ, ◌+◌, ◌≡◌, refl, sym, ap, ◌∙◌, List, [], ◌∷◌, Option, none, some, map, arith, ltb, ◌==◌,
  if◌then◌else◌, get_elem?, sum_by, sum_by-append, sum_by-set, sum_by-erase_idx, if_cases,
}
use blocky_cloud.Batcher.Options.{Options}
use blocky_cloud.Batcher.State.{
  Waiter, Thread, handling, reported, leaving, Reply, handled, shut_down, message_too_large,
  Batcher, Event, add, returns, locks, exits, shuts_down, next_batch, new, queue, start, enqueue,
  add_no_wait_cases, answer, report, continue_with, take_next, leave, step, run,
}
use blocky_cloud.Batcher.NextBatch.{next_batch-IsNext}

abbrev pub is : ℕ → ℕ → ℕ
is t n = if n == t then 1 else 0

module _ {A : Type 0} (t : ℕ) where
  -- How often channel `t` occurs.
  abbrev pub waits : List (Waiter A) → ℕ
  waits = sum_by (λ m. is t m.errc)

  abbrev pub held : Thread A → ℕ
  held (handling batch) = waits batch
  held reported = 0
  held leaving = 0

  next_batch-waits :
      (o : Options) (size : Option (A → ℕ)) (pending batch rest : List (Waiter A))
      → next_batch o size pending ≡ (some batch, rest)
      → waits batch + waits rest ≡ waits pending
  next_batch-waits o size pending batch rest e =
      sym (sum_by-append (λ (m : Waiter A). is t m.errc) batch rest)
      ∙ ap waits (rw e at (next_batch-IsNext o size pending)).0

abbrev pub answers : {E : Type 0} → ℕ → List (ℕ × Reply E) → ℕ
answers t = sum_by (λ r. is t r.0)

module _ {A E : Type 0} (t : ℕ) where
  -- In how many places channel `t` is.
  abbrev pub places : Batcher A E → ℕ
  places b = waits t b.pending + sum_by (held t) b.threads + answers t b.replies

  -- One place for each channel that was made, none for the others.
  abbrev pub IsPlaced : Batcher A E → Type 0
  IsPlaced b = places b ≡ (if ltb t b.next_errc then 1 else 0)

  answers-map :
      (err : Option E) (batch : List (Waiter A))
      → answers t (map (λ m. (m.errc, handled err)) batch) ≡ waits t batch
  answers-map err [] = refl
  answers-map err (m ∷ batch) = omega (arith, answers-map err batch)

  answer-IsPlaced : (b : Batcher A E) (r : Reply E) → IsPlaced b → IsPlaced (answer b r)
  answer-IsPlaced b r h =
      ground
        (arith, sum_by-append (λ (x : ℕ × Reply E). is t x.0) b.replies ((b.next_errc, r) ∷ []))

  queue-IsPlaced : (b : Batcher A E) (item : A) → IsPlaced b → IsPlaced (queue b item)
  queue-IsPlaced b item h = ground (
    arith,
    sum_by-append (λ (m : Waiter A). is t m.errc) b.pending
        (record { item = item; errc = b.next_errc } ∷ []),
  )

  start-IsPlaced :
      (b : Batcher A E) (r : Option (List (Waiter A)) × List (Waiter A))
      → next_batch b.opts b.byte_size_fn b.pending ≡ r
      → IsPlaced b
      → IsPlaced (start b r)
  unfolding start
  start-IsPlaced b (none, rest) e h =
      ground (arith, (rw e at (next_batch-IsNext b.opts b.byte_size_fn b.pending)))
  start-IsPlaced b (some batch, rest) e h = ground (
    arith,
    next_batch-waits t b.opts b.byte_size_fn b.pending batch rest e,
    sum_by-append (held t) b.threads (handling batch ∷ []),
  )

  enqueue-IsPlaced : (b : Batcher A E) (item : A) → IsPlaced b → IsPlaced (enqueue b item)
  unfolding enqueue
  enqueue-IsPlaced b item h =
      let queued = queue-IsPlaced b item h in
      if_cases IsPlaced _ _ _ (λ _. start-IsPlaced (queue b item) _ refl queued) (λ _. queued)

  report-IsPlaced :
      (b : Batcher A E) (i : ℕ) (err : Option E) (th : Option (Thread A))
      → get_elem? b.threads i ≡ th
      → IsPlaced b
      → IsPlaced (report b i err th)
  unfolding report
  report-IsPlaced b i err (some (handling batch)) e h = ground (
    arith,
    sum_by-set (held t) b.threads i reported e,
    answers-map err batch,
    sum_by-append (λ (x : ℕ × Reply E). is t x.0) b.replies
        (map (λ (m : Waiter A). (m.errc, handled err)) batch),
  )
  report-IsPlaced b i err _ e h = h

  continue_with-IsPlaced :
      (b : Batcher A E) (i : ℕ) (r : Option (List (Waiter A)) × List (Waiter A))
      → get_elem? b.threads i ≡ some reported
      → next_batch b.opts b.byte_size_fn b.pending ≡ r
      → IsPlaced b
      → IsPlaced (continue_with b i r)
  unfolding continue_with
  continue_with-IsPlaced b i (none, rest) e n h = ground (
    arith,
    (rw n at (next_batch-IsNext b.opts b.byte_size_fn b.pending)),
    sum_by-set (held t) b.threads i leaving e,
  )
  continue_with-IsPlaced b i (some batch, rest) e n h = ground (
    arith,
    next_batch-waits t b.opts b.byte_size_fn b.pending batch rest n,
    sum_by-set (held t) b.threads i (handling batch) e,
  )

  take_next-IsPlaced :
      (b : Batcher A E) (i : ℕ) (th : Option (Thread A))
      → get_elem? b.threads i ≡ th
      → IsPlaced b
      → IsPlaced (take_next b i th)
  unfolding take_next
  take_next-IsPlaced b i (some reported) e h = continue_with-IsPlaced b i _ e refl h
  take_next-IsPlaced b i _ e h = h

  leave-IsPlaced :
      (b : Batcher A E) (i : ℕ) (th : Option (Thread A))
      → get_elem? b.threads i ≡ th
      → IsPlaced b
      → IsPlaced (leave b i th)
  unfolding leave
  leave-IsPlaced b i (some leaving) e h = omega (arith, sum_by-erase_idx (held t) b.threads i e)
  leave-IsPlaced b i _ e h = h

  step-IsPlaced : (b : Batcher A E) (e : Event A E) → IsPlaced b → IsPlaced (step b e)
  unfolding step
  step-IsPlaced b (add item) h =
      add_no_wait_cases IsPlaced b item (λ _. answer-IsPlaced b shut_down h)
        (λ _. answer-IsPlaced b message_too_large h) (λ _ _. enqueue-IsPlaced b item h)
  step-IsPlaced b (returns i err) h = report-IsPlaced b i err _ refl h
  step-IsPlaced b (locks i) h = take_next-IsPlaced b i _ refl h
  step-IsPlaced b (exits i) h = leave-IsPlaced b i _ refl h
  step-IsPlaced b shuts_down h = h

  run-IsPlaced : (b : Batcher A E) (es : List (Event A E)) → IsPlaced b → IsPlaced (run b es)
  unfolding run
  run-IsPlaced b [] h = h
  run-IsPlaced b (e ∷ es) h = run-IsPlaced (step b e) es (step-IsPlaced b e h)

-- After any interleaving on a new batcher, each channel that `AddNoWait` has made is in exactly one
-- place (its item waits, its item is in one handler's batch, or it has its one answer), and no other
-- channel is anywhere: no item is lost, handled twice or answered twice.
pub run-new-IsPlaced :
    {A E : Type 0} (opts : Option Options) (size : Option (A → ℕ)) (es : List (Event A E)) (t : ℕ)
    → IsPlaced t (run (new opts size) es)
unfolding new
run-new-IsPlaced opts size es t = run-IsPlaced t _ es (ground arith)

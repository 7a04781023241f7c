-- ===== src/Sender/Batches.antt =====
-- What the driver is given by a portable sender: email/message_sender.go over email/batcher/batcher.go.
use mathlib.Core.Path.{subst}
use blocky_cloud.Prelude.{
  ℕ, ◌+◌, ◌≤◌, Bool-cases, List, [], ◌∷◌, Option, ◌≡◌, ◌≢◌, inl, inr, refl, sym, arith, ◌==◌,
  sum_by, length, All,
}
use blocky_cloud.Batcher.Options.{Options}
use blocky_cloud.Batcher.State.{
  Waiter, Thread, handling, reported, leaving, start, queue, next_batch, enqueue, add_no_wait,
  report, take_next, leave, Batcher, add, returns, locks, exits, shuts_down,
}
use blocky_cloud.Batcher.State as Batcher_State
use blocky_cloud.Batcher.Limits.{IsValid, IsSized}
use blocky_cloud.Batcher.Delivery.{waits, held, IsPlaced}
use blocky_cloud.Batcher.Shutdown.{new-IsValid}
use blocky_cloud.Sender.State.{Lock, free, Sender, Event, run, new_state}
use blocky_cloud.Sender.Simulation.{IsReached, run-Follows, new_state-Follows}
use blocky_cloud.Sender.Single.{current_of, IsAlone, Placed, IsPatient, reached-Placed, run-IsAlone}

module _ {A : Type 0} where
  -- Where only channel `c` occurs, each item has it.
  length-waits :
      (c : ℕ) (ws : List (Waiter A)) → ((t : ℕ) → t ≢ c → waits t ws ≡ 0) → length ws ≡ waits c ws
  length-waits c [] h = refl
  length-waits c (w ∷ ws) h = elim (Bool-cases (w.errc == c)) [
    | inl q ↦ ground (arith, length-waits c ws (λ t n. omega (arith, h t n)))
    | inr q ↦ absurd (ground (arith, h w.errc (λ e. ground arith)))
  ]

  -- A goroutine in the handler's call has one item.
  abbrev pub HasOne : Thread A → Type 0
  HasOne (handling batch) = length batch ≡ 1
  HasOne reported = Unit
  HasOne leaving = Unit

  batch-HasOne :
      (o : Options) (size : Option (A → ℕ)) (c : ℕ) (th : Thread A)
      → IsSized o size th
      → ((t : ℕ) → t ≢ c → held t th ≡ 0)
      → held c th ≤ 1
      → HasOne th
  batch-HasOne o size c (handling batch) v h p = omega (arith, v.0, length-waits c batch h)
  batch-HasOne o size c reported v h p = tt
  batch-HasOne o size c leaving v h p = tt

  All-HasOne :
      (o : Options) (size : Option (A → ℕ)) (c : ℕ) (ths : List (Thread A))
      → All (IsSized o size) ths
      → ((t : ℕ) → t ≢ c → sum_by (held t) ths ≡ 0)
      → sum_by (held c) ths ≤ 1
      → All HasOne ths
  All-HasOne o size c [] v h p = tt
  All-HasOne o size c (th ∷ ths) (v, vs) h p = (
    batch-HasOne o size c th v (λ t n. omega (arith, h t n)) (omega arith),
    All-HasOne o size c ths vs (λ t n. omega (arith, h t n)) (omega arith),
  )

module _ {A E : Type 0} where
  -- What is with a waiting item or a handler, in all.
  abbrev inside : ℕ → Batcher A E → ℕ
  inside t b = waits t b.pending + sum_by (held t) b.threads

  -- Only the current channel has an item that waits or is with a handler, and one at most.
  inside_zero :
      (l : Lock) (b : Batcher A E)
      → Placed b
      → IsAlone l b
      → (t : ℕ) → t ≢ current_of l b.next_errc
      → inside t b ≡ 0
  inside_zero l b p h t n = omega (arith, p t, h t n)

  inside-le : (b : Batcher A E) (t : ℕ) → IsPlaced t b → inside t b ≤ 1
  inside-le b t p = ground arith

  one_pending : (l : Lock) (b : Batcher A E) → Placed b → IsAlone l b → length b.pending ≤ 1
  one_pending l b p h =
      let c = current_of l b.next_errc in
      omega (
        arith,
        length-waits c b.pending (λ t n. omega (arith, inside_zero l b p h t n)),
        inside-le b c (p c),
      )

  -- With the mutex free, no item waits.
  pub none_pending : (b : Batcher A E) → Placed b → IsAlone free b → length b.pending ≡ 0
  none_pending b p h =
      let c = b.next_errc in
      ground
        (arith, length-waits c b.pending (λ t n. omega (arith, inside_zero free b p h t n)), p c)

pub new-IsAlone :
    {A : Type 0} (E : Type 0) (opts : Option Options) (size : Option (A → ℕ))
    → IsAlone {E = E} free (Batcher_State.new opts size)
unfolding Batcher_State.new Batcher_State.run
new-IsAlone E opts size t n =
    ground (arith, reached-Placed opts size (Batcher_State.new {E = E} opts size) ([], refl) t)

module _ {M A E : Type 0} (convert : M → A) (opts : Option Options) (size : Option (A → ℕ)) where
  abbrev pub sent : List (Event M A E) → Sender M A E
  sent es = run convert (new_state opts size) es

  pub reached-IsValid : (b : Batcher A E) → IsReached opts size b → IsValid b
  reached-IsValid b (es, p) = subst IsValid (sym p) (new-IsValid opts size es)

  -- While no context of a call of Send ends, at most one item waits in the batcher, and each call of the
  -- driver is given exactly one message, whatever the batch sizes of the options are.
  pub run-HasOne :
      (es : List (Event M A E))
      → All IsPatient es
      → (length (sent es).batcher.pending ≤ 1) × All HasOne (sent es).batcher.threads
  run-HasOne es w =
      let s = sent es in
      let r =
        run-Follows opts size convert (new_state opts size) es
          (new_state-Follows opts size convert) in
      let p = reached-Placed opts size s.batcher r in
      let h =
        run-IsAlone convert opts size (new_state opts size) es w
          (new_state-Follows opts size convert) (new-IsAlone E opts size) in
      let c = current_of s.mu s.batcher.next_errc in
      (
        one_pending s.mu s.batcher p h,
        All-HasOne s.batcher.opts s.batcher.byte_size_fn c s.batcher.threads
            (reached-IsValid s.batcher r).sized
            (λ t n. omega (arith, inside_zero s.mu s.batcher p h t n))
            (omega (arith, inside-le s.batcher c (p c))),
      )

-- ===== src/Batcher/Progress.antt =====
-- The goroutines of email/batcher/batcher.go come to an end: once no item is added, every schedule of
-- their steps is finite, and only a batcher with no goroutine is stuck.
use blocky_cloud.Prelude.{
  ℕ, ◌+◌, ◌*◌, ◌≤◌, ◌<◌, ◌≡◌, refl, ◌⊎◌, inl, inr, List, [], ◌∷◌, Option, none, some, arith, length,
  get_elem?, sum_by, sum_by-set, sum_by-erase_idx,
}
use blocky_cloud.Batcher.State.{
  Waiter, Thread, handling, reported, leaving, Batcher, Event, returns, locks, exits, next_batch,
  report, continue_with, take_next, leave, step, run,
}
use blocky_cloud.Batcher.NextBatch.{next_batch-IsNext}
use blocky_cloud.Batcher.Limits.{IsValid, next_batch-Batch, step-IsValid}

module _ {A : Type 0} where
  abbrev pub weight : Thread A → ℕ
  weight (handling batch) = 3
  weight reported = 2
  weight leaving = 1

module _ {A E : Type 0} where
  -- A bound on the steps that are left to the goroutines.
  abbrev pub measure : Batcher A E → ℕ
  measure b = 2 * length b.pending + sum_by weight b.threads

  -- A step that a goroutine can make.
  pub data IsEnabled (b : Batcher A E) : Event A E → Type 0 where
    can_return :
        (i : ℕ) (err : Option E) (batch : List (Waiter A))
        → get_elem? b.threads i ≡ some (handling batch)
        → IsEnabled b (returns i err)
    can_lock : (i : ℕ) → get_elem? b.threads i ≡ some reported → IsEnabled b (locks i)
    can_exit : (i : ℕ) → get_elem? b.threads i ≡ some leaving → IsEnabled b (exits i)

  measure-continue_with :
      (b : Batcher A E) (i : ℕ) (r : Option (List (Waiter A)) × List (Waiter A))
      → get_elem? b.threads i ≡ some reported
      → next_batch b.opts b.byte_size_fn b.pending ≡ r
      → IsValid b
      → measure (continue_with b i r) < measure b
  unfolding continue_with
  measure-continue_with b i (none, rest) e n v = ground (
    arith,
    (rw n at (next_batch-IsNext b.opts b.byte_size_fn b.pending)),
    sum_by-set weight b.threads i leaving e,
  )
  measure-continue_with b i (some batch, rest) e n v =
      let next = next_batch-Batch b.opts b.byte_size_fn b.pending batch rest v.some_item v.fit n in
      omega (arith, next.lengths, next.sized.0, sum_by-set weight b.threads i (handling batch) e)

  measure-step :
      (b : Batcher A E) {e : Event A E} → IsEnabled b e → IsValid b → measure (step b e) < measure b
  unfolding step report take_next leave
  measure-step b (can_return i err batch e) v =
      rw (e, report) (omega (arith, sum_by-set weight b.threads i reported e))
  measure-step b (can_lock i e) v = rw (e, take_next) (measure-continue_with b i _ e refl v)
  measure-step b (can_exit i e) v =
      rw (e, leave) (omega (arith, sum_by-erase_idx weight b.threads i e))

  -- Each event can be made where it comes in the run.
  abbrev pub AllEnabled : Batcher A E → List (Event A E) → Type 0
  AllEnabled b [] = Unit
  AllEnabled b (e ∷ es) = IsEnabled b e × AllEnabled (step b e) es

  measure-run :
      (b : Batcher A E) (es : List (Event A E))
      → AllEnabled b es
      → IsValid b
      → length es + measure (run b es) ≤ measure b
  unfolding run
  measure-run b [] h v = omega arith
  measure-run b (e ∷ es) h v =
      omega (arith, measure-step b h.0 v, measure-run (step b e) es h.1 (step-IsValid b e v))

  first-IsEnabled :
      (b : Batcher A E) (ts : List (Thread A))
      → b.threads ≡ ts
      → (b.threads ≡ []) ⊎ ((e : Event A E) × IsEnabled b e)
  first-IsEnabled b [] e = inl e
  first-IsEnabled b (handling batch ∷ ts) e = inr (returns 0 none, can_return 0 none batch (rw e))
  first-IsEnabled b (reported ∷ ts) e = inr (locks 0, can_lock 0 (rw e))
  first-IsEnabled b (leaving ∷ ts) e = inr (exits 0, can_exit 0 (rw e))

  -- From a valid batcher, any schedule of the goroutines' own steps is at most as long as `measure`,
  -- and where it ends either no goroutine is left or one can make a step: so a maximal schedule is
  -- finite and ends with no goroutine.
  pub goroutines_finish :
      (b : Batcher A E) (es : List (Event A E))
      → AllEnabled b es
      → IsValid b
      → (length es ≤ measure b)
        × (((run b es).threads ≡ []) ⊎ ((e : Event A E) × IsEnabled (run b es) e))
  goroutines_finish b es h v =
      (omega (arith, measure-run b es h v), first-IsEnabled (run b es) (run b es).threads refl)

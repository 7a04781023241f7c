-- ===== src/Batcher/Tests.antt =====
-- Runs of the batcher, and the theorems at concrete inputs.
use blocky_cloud.Prelude.{
  ℕ, ◌≤◌, ◌≡◌, refl, List, [], ◌∷◌, Option, none, some, arith, ◌↔◌, All, ◌≢◌,
}
use blocky_cloud.Batcher.Options.{
  Options, new_options_with_defaults, new_merged_options, Allows, Agrees, new_merged_options_meet,
}
use blocky_cloud.Batcher.Split.{split, IsSplit, split-IsSplit}
use blocky_cloud.Batcher.State.{
  Waiter, Reply, shut_down, message_too_large, Batcher, Event, add, returns, locks, exits,
  shuts_down, fill, next_batch, new, start, enqueue, add_no_wait, report, continue_with, take_next,
  leave, too_large, step, run, answer,
}
use blocky_cloud.Batcher.NextBatch.{IsNext, next_batch-IsNext}
use blocky_cloud.Batcher.Limits.{IsValid, run-new-IsValid}
use blocky_cloud.Batcher.Delivery.{IsPlaced, run-new-IsPlaced, answers}
use blocky_cloud.Batcher.Shutdown.{quiet_answered, shutdown_strands, add_no_wait-run_shutdown}
use blocky_cloud.Batcher.Progress.{can_return, goroutines_finish, measure}
use blocky_cloud.Batcher.Sizes.{run-new_unmeasured}

abbrev options : Options
options = record {
  max_handlers = 2;
  min_batch_size = 2;
  max_batch_size = 3;
  max_batch_byte_size = 10;
}

-- Errors are numbers here, and an item is its own size.
abbrev Events : Type 0
Events = List (Event ℕ ℕ)

abbrev own_size : Option (ℕ → ℕ)
own_size = some (λ n. n)

split_8 : split 8 (some options) ≡ 3 ∷ 3 ∷ []
unfolding split new_options_with_defaults
split_8 = refl

split-IsSplit_example :
    let o = new_options_with_defaults (some options) in
    IsSplit o o.max_handlers 8 (split 8 (some options))
split-IsSplit_example = split-IsSplit 8 (some options)

new_merged_options_meet_example :
    Allows (new_merged_options (record options { max_handlers = 0 }) options) 2 2 3 ↔ (
      Agrees (record options { max_handlers = 0 }) options 2 2 3
      × Agrees options (record options { max_handlers = 0 }) 2 2 3)
new_merged_options_meet_example =
    new_merged_options_meet (record options { max_handlers = 0 }) options 2 2 3

abbrev queue_of_three : List (Waiter ℕ)
queue_of_three =
    record { item = 4; errc = 0 }
    ∷ record { item = 5; errc = 1 }
    ∷ record { item = 6; errc = 2 }
    ∷ []

next_batch-IsNext_example :
    IsNext options own_size queue_of_three (next_batch options own_size queue_of_three)
next_batch-IsNext_example = next_batch-IsNext options own_size queue_of_three

-- Three items, a handler for the first two, its answer, and its next look at the queue.
abbrev history : Events
history = add 1 ∷ add 2 ∷ add 3 ∷ returns 0 none ∷ locks 0 ∷ exits 0 ∷ shuts_down ∷ []

run-new-IsValid_example :
    IsValid (run (record (new (some options) none) { byte_size_fn = own_size }) history)
run-new-IsValid_example = run-new-IsValid (some options) none own_size history

run-new-IsPlaced_example : IsPlaced 2 (run (new (some options) own_size) history)
run-new-IsPlaced_example = run-new-IsPlaced (some options) own_size history 2

run-new_unmeasured_example :
    All
      (λ (r : ℕ × Reply ℕ). r.1 ≢ message_too_large)
      (run (new (some options) own_size) history).replies
run-new_unmeasured_example = (run-new_unmeasured (some options) own_size history).1

-- One goroutine serves items one by one.
abbrev served : Events
served = add 1 ∷ returns 0 (some 7) ∷ locks 0 ∷ exits 0 ∷ []

quiet_answered_example : answers 0 (run (new none none) served).replies ≡ 1
unfolding new new_options_with_defaults run step add_no_wait enqueue start next_batch fill report
    take_next continue_with leave too_large
quiet_answered_example = (quiet_answered none none served refl refl).1 0 (omega arith)

shutdown_strands_example :
    answers 2 (run (run (new (some options) none) history) (add 5 ∷ add 6 ∷ [])).replies ≡ 0
unfolding new new_options_with_defaults run step add_no_wait enqueue start next_batch fill report
    take_next continue_with leave too_large
shutdown_strands_example =
    shutdown_strands (some options) none history (add 5 ∷ add 6 ∷ []) 2 refl refl (omega arith)

add_no_wait-run_shutdown_example :
    let down = run (step (run (new (some options) none) history) shuts_down) (add 4 ∷ []) in
    add_no_wait down 9 ≡ answer down shut_down
add_no_wait-run_shutdown_example =
    add_no_wait-run_shutdown (run (new (some options) none) history) (add 4 ∷ []) 9

abbrev busy : Batcher ℕ ℕ
busy = run (record (new (some options) none) { byte_size_fn = own_size }) (add 1 ∷ add 2 ∷ [])

goroutines_finish_example : 1 ≤ measure busy
unfolding new new_options_with_defaults run step add_no_wait enqueue start next_batch fill too_large
goroutines_finish_example =
    (goroutines_finish busy (returns 0 none ∷ []) (can_return 0 none _ refl, tt)
      (run-new-IsValid (some options) none own_size (add 1 ∷ add 2 ∷ []))).0

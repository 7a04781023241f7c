-- ===== src/Subscription/Tests.antt =====
-- Runs of a subscription over whole numbers for floats.
use blocky_cloud.Prelude.{ℕ, ◌+◌, List, [], ◌∷◌, ◌++◌, none, some, map, length, ◌≡◌, refl}
use blocky_cloud.Batcher.Options.{new_options_with_defaults}
use blocky_cloud.Batcher.Split.{split}
use blocky_cloud.Errors.Chain.{sentinel, eof, is, as_retry}
use blocky_cloud.Errors.Code.{do_not_wrap, wrap}
use blocky_cloud.Subscription.Float.{whole, whole-IsIeee}
use blocky_cloud.Subscription.Event.{DriverEvent, DeliveryEvent, no_bounce, convert}
use blocky_cloud.Subscription.BatchSize.{
  update_batch_size, one_at_a_time, elapsed, blend, cap_growth, new_running,
}
use blocky_cloud.Subscription.State.{
  Subscription, got, fails, collect, failed, new_subscription, needs_fetch, start_fetch, take_head,
  receive, outcome, finish_fetch, shutdown, fetch_failed, Event, receives, fetches, shuts_down,
  step, run, arrivals, refuses, waits, Failure,
}
use blocky_cloud.Subscription.Queue.{run-arrivals}
use blocky_cloud.Subscription.Progress.{IsFetching, receive-IsFetching}
use blocky_cloud.Subscription.Sticky.{called, run-failed, shutdown_again}

abbrev message : ℕ → DriverEvent
message n = record { event_type = 4; bounce = no_bounce; timestamp = n; message_id = n ∷ [] }

abbrev start_state : Subscription ℕ
start_state = record {
  recv_batch_opts = none;
  queue = [];
  failure = none;
  waitc = none;
  throughput = record { running_batch_size = 1; throughput_start = none; throughput_count = 0 };
  closes = 0;
}

-- A fetch brings two messages, and one of them is handed out before the subscription is shut down.
abbrev day : List Event
day =
    receives none 5
    ∷ fetches (got (message 1 ∷ message 2 ∷ []) ∷ [])
    ∷ receives none 7
    ∷ shuts_down
    ∷ receives none 8
    ∷ []

runs : Subscription ℕ → List Event → List DeliveryEvent × Subscription ℕ
unfolding new_subscription needs_fetch start_fetch take_head receive outcome finish_fetch shutdown
    step run arrivals collect update_batch_size one_at_a_time elapsed blend cap_growth new_running
    split new_options_with_defaults convert do_not_wrap wrap is as_retry
runs s es = run whole (λ e. 2) s es

started : new_subscription whole none ≡ start_state
unfolding new_subscription
started = refl

day_given : (runs start_state day).0 ≡ convert (message 1) ∷ []
unfolding runs
day_given = refl

day_left : (runs start_state day).1.queue ≡ message 2 ∷ []
unfolding runs
day_left = refl

run-arrivals_example :
    let r = run whole (λ e. 2) start_state day in
    r.0 ++ map convert r.1.queue ≡ map convert ([] ++ arrivals whole (λ e. 2) start_state day)
run-arrivals_example = run-arrivals whole (λ e. 2) start_state day

-- The first round of `Receive` finds nothing, starts a fetch and waits for it.
first_waits :
    (receive whole none 5 (run whole (λ e. 2) (new_subscription whole none) []).1).0 ≡ waits
first_waits = unfold runs in refl

receive-IsFetching_example :
    IsFetching
      (receive whole none 5 (run whole (λ e. 2) (new_subscription whole none) []).1).1.waitc
receive-IsFetching_example =
    receive-IsFetching whole whole-IsIeee (λ e. 2) none [] none 5 first_waits

abbrev broken : Subscription ℕ
broken = record start_state { queue = message 3 ∷ [] }

run-failed_example :
    let r = run whole (λ e. 2) broken (shuts_down ∷ day) in
    (r.0 ≡ [])
    × ((f : Failure) × (r.1.failure ≡ some f) × (receive whole none 9 r.1 ≡ (refuses f, r.1)))
run-failed_example = run-failed whole (λ e. 2) broken shuts_down day none 9 called

abbrev in_flight : Subscription ℕ
in_flight = record start_state { waitc = some 1 }

one_batch : length {A = ℕ} (1 ∷ []) ≡ length (split 1 none)
unfolding split new_options_with_defaults
one_batch = refl

fails_with_eof : collect (λ e. 2) (fails (sentinel eof) ∷ []) ≡ failed (sentinel eof)
unfolding collect do_not_wrap wrap is as_retry
fails_with_eof = refl

shutdown_again_example :
    let t =
      (run whole (λ e. 2) in_flight (shuts_down ∷ fetches (fails (sentinel eof) ∷ []) ∷ [])).1 in
    (t.failure ≡ some (fetch_failed (sentinel eof))) × ((shutdown whole t).closes ≡ 0 + 2)
shutdown_again_example =
    shutdown_again whole (λ e. 2) in_flight 1 (fails (sentinel eof) ∷ []) (sentinel eof) refl refl
      one_batch fails_with_eof

-- ===== src/Subscription/State.antt =====
-- `DeliverySubscription` of email/delivery_subscription.go: its state, and its methods as steps.
-- The mutex makes a round of `Receive`'s loop, the end of the goroutine that fetches, and the two
-- halves of `Shutdown` atomic; between these steps goroutines interleave as they like.
use blocky_cloud.Prelude.{
  ℕ, ◌+◌, Bool, true, false, ◌&&◌, List, [], ◌∷◌, ◌++◌, Option, none, some, ◌==◌, if◌then◌else◌,
  length,
}
use blocky_cloud.Batcher.Options.{Options}
use blocky_cloud.Batcher.Split.{split}
use blocky_cloud.Errors.Chain.{Error}
use blocky_cloud.Errors.Code.{wrap}
use blocky_cloud.Subscription.Float.{Float}
use blocky_cloud.Subscription.Event.{DriverEvent, DeliveryEvent, convert}
use blocky_cloud.Subscription.BatchSize.{Throughput, update_batch_size}

-- The field `err`: `errSubscriptionShutdown`, or the error of a fetch.
pub data Failure : Type 0 where
  shut_down : Failure
  fetch_failed : Error → Failure

-- `waitc` is the size of the fetch that is in flight, `none` for a nil channel. `closes` counts the
-- calls of the driver's `Close`.
pub record Subscription (F : Type 0) : Type 0 where
  pub recv_batch_opts : Option Options
  pub queue : List DriverEvent
  pub failure : Option Failure
  pub waitc : Option ℕ
  pub throughput : Throughput F
  pub closes : ℕ

-- What a call of the driver's `ReceiveBatch` ends in behind `retry.Call`.
pub data Answer : Type 0 where
  got : List DriverEvent → Answer
  fails : Error → Answer

-- What `getNextBatch` returns.
pub data Fetched : Type 0 where
  messages : List DriverEvent → Fetched
  failed : Error → Fetched

-- `g.Wait()` over the answers in the order of their arrival: the first error wins, else the messages
-- are joined.
abbrev prepend : List DriverEvent → Fetched → Fetched
prepend ms (messages rest) = messages (ms ++ rest)
prepend ms (failed e) = failed e

unfoldable pub collect : (Error → ℕ) → List Answer → Fetched
collect error_code [] = messages []
collect error_code (got ms ∷ rest) = prepend ms (collect error_code rest)
collect error_code (fails e ∷ rest) = failed (wrap error_code e)

-- What a round of `Receive` comes to: an event, the permanent error, the error of the context, or
-- that it waits for `waitc`.
pub data Received : Type 0 where
  gives : DeliveryEvent → Received
  refuses : Failure → Received
  done : Error → Received
  waits : Received

module _ {F : Type 0} (fl : Float F) where
  -- `newDeliverySubscription`.
  unfoldable pub new_subscription : Option Options → Subscription F
  new_subscription opts = record {
    recv_batch_opts = opts;
    queue = [];
    failure = none;
    waitc = none;
    throughput = record {
      running_batch_size = fl.of_nat 1;
      throughput_start = none;
      throughput_count = 0;
    };
    closes = 0;
  }

  abbrev pub is_idle : Option ℕ → Bool
  is_idle none = true
  is_idle (some n) = false

  -- No fetch is in flight, and no more than half of the running size is left in the queue.
  unfoldable pub needs_fetch : Subscription F → Bool
  needs_fetch s =
      is_idle s.waitc
      && fl.le (fl.of_nat (length s.queue)) (fl.scale 1 2 s.throughput.running_batch_size)

  abbrev pub launch : Subscription F → ℕ × Throughput F → Subscription F
  launch s (n, t) = record s { waitc = some n; throughput = t }

  unfoldable pub start_fetch : ℕ → Subscription F → Subscription F
  start_fetch now s =
      if needs_fetch s
      then launch s (update_batch_size fl s.recv_batch_opts now s.throughput)
      else s

  -- The head of the queue, if there is one.
  unfoldable pub take_head : Subscription F → List DriverEvent → Received × Subscription F
  take_head s [] = (waits, s)
  take_head s (m ∷ q) = (
    gives (convert m),
    record s {
      queue = q;
      throughput = record (s.throughput) { throughput_count = s.throughput.throughput_count + 1 };
    },
  )

  abbrev pub unless_done : Option Error → ℕ → Subscription F → Received × Subscription F
  unless_done (some e) now s = (done e, s)
  unless_done none now s = let s' = start_fetch now s in take_head s' s'.queue

  abbrev pub unless_failed :
      Option Failure → Option Error → ℕ → Subscription F → Received × Subscription F
  unless_failed (some f) ctx now s = (refuses f, s)
  unless_failed none ctx now s = unless_done ctx now s

  -- A round of `Receive`'s loop at the time `now`; `ctx` is `ctx.Err()`.
  unfoldable pub receive : Option Error → ℕ → Subscription F → Received × Subscription F
  receive ctx now s = unless_failed s.failure ctx now s

  -- The result of `getNextBatch` where a fetch is in flight and the answers are as many as the batches
  -- of `Split`; other answers there cannot be.
  abbrev pub outcome_of : (Error → ℕ) → Option Options → Option ℕ → List Answer → Option Fetched
  outcome_of error_code opts none answers = none
  outcome_of error_code opts (some n) answers =
      if length answers == length (split n opts) then some (collect error_code answers) else none

  unfoldable pub outcome : (Error → ℕ) → Subscription F → List Answer → Option Fetched
  outcome error_code s answers = outcome_of error_code s.recv_batch_opts s.waitc answers

  -- The end of the goroutine: the result is stored, and `waitc` is closed and set to nil.
  unfoldable pub finish_fetch : Subscription F → Option Fetched → Subscription F
  finish_fetch s none = s
  finish_fetch s (some (messages ms)) = record s { queue = s.queue ++ ms; waitc = none }
  finish_fetch s (some (failed e)) = record s { failure = some (fetch_failed e); waitc = none }

  abbrev pub close_unless : Option Failure → Subscription F → Subscription F
  close_unless (some shut_down) s = s
  close_unless _ s = record s { failure = some shut_down; closes = s.closes + 1 }

  -- `Shutdown`, as far as it changes the state; its result is that of the driver's `Close` or of the
  -- context.
  unfoldable pub shutdown : Subscription F → Subscription F
  shutdown s = close_unless s.failure s

pub data Event : Type 0 where
  receives : Option Error → ℕ → Event
  fetches : List Answer → Event
  shuts_down : Event

module _ {F : Type 0} (fl : Float F) (error_code : Error → ℕ) where
  -- A step, with what a round of `Receive` came to.
  unfoldable pub step : Subscription F → Event → Option Received × Subscription F
  step s (receives ctx now) = let (r, s') = receive fl ctx now s in (some r, s')
  step s (fetches answers) = (none, finish_fetch fl s (outcome fl error_code s answers))
  step s shuts_down = (none, shutdown fl s)

  -- The events that a step hands out.
  abbrev pub given : Option Received → List DeliveryEvent
  given (some (gives m)) = m ∷ []
  given _ = []

  -- A run, with the events that it hands out in their order.
  unfoldable pub run : Subscription F → List Event → List DeliveryEvent × Subscription F
  run s [] = ([], s)
  run s (e ∷ es) = let (r, s') = step s e in let (ms, s'') = run s' es in (given r ++ ms, s'')

  -- The messages that the fetches of a run bring.
  abbrev pub brought : Option Fetched → List DriverEvent
  brought (some (messages ms)) = ms
  brought _ = []

  unfoldable pub arrivals : Subscription F → List Event → List DriverEvent
  arrivals s [] = []
  arrivals s (fetches answers ∷ es) =
      brought (outcome fl error_code s answers) ++ arrivals (step s (fetches answers)).1 es
  arrivals s (e ∷ es) = arrivals (step s e).1 es

-- ===== src/Subscription/Progress.antt =====
-- `Receive` waits for a fetch that is in flight: email/delivery_subscription.go.
use blocky_cloud.Prelude.{
  ℕ, ◌≤◌, ◌<◌, Bool, true, false, ◌&&◌, List, [], ◌∷◌, Option, none, some, ◌≡◌, refl, sym, ap, ◌∙◌,
  length, if_cases,
}
use mathlib.Core.Path.{subst}
use blocky_cloud.Batcher.Options.{Options}
use blocky_cloud.Errors.Chain.{Error}
use blocky_cloud.Subscription.Float.{Float, IsPositive, IsIeee}
use blocky_cloud.Subscription.Event.{DriverEvent}
use blocky_cloud.Subscription.BatchSize.{
  max_batch_size, update_batch_size, update_batch_size_bounds,
}
use blocky_cloud.Subscription.Queue.{start_fetch-queue}
use blocky_cloud.Subscription.State.{
  Subscription, Failure, Fetched, messages, failed, waits, new_subscription, needs_fetch, is_idle,
  start_fetch, take_head, unless_failed, close_unless, receive, finish_fetch, shutdown, shut_down,
  fetch_failed, Event, receives, fetches, shuts_down, step, run,
}

-- A fetch that is in flight asks for 1 to 3000 messages.
abbrev pub InBounds : Option ℕ → Type 0
InBounds none = Unit {0}
InBounds (some n) = (0 < n) × (n ≤ max_batch_size)

-- A fetch is in flight, within its bounds.
pub data IsFetching : Option ℕ → Type 0 where
  in_flight : (n : ℕ) → 0 < n → n ≤ max_batch_size → IsFetching (some n)

and_true : (b : Bool) → (b && true) ≡ b
and_true true = refl
and_true false = refl

module _ {F : Type 0} (fl : Float F) (laws : IsIeee fl) (error_code : Error → ℕ) where
  pub record IsValid (s : Subscription F) : Type 0 where
    pub positive : IsPositive fl s.throughput.running_batch_size
    pub in_bounds : InBounds s.waitc

  new_subscription-IsValid : (opts : Option Options) → IsValid (new_subscription fl opts)
  unfolding new_subscription
  new_subscription-IsValid opts = record { positive = laws.one_positive; in_bounds = tt }

  start_fetch-IsValid : (now : ℕ) (s : Subscription F) → IsValid s → IsValid (start_fetch fl now s)
  unfolding start_fetch
  start_fetch-IsValid now s v =
      let b = update_batch_size_bounds fl laws s.recv_batch_opts now s.throughput v.positive in
      if_cases IsValid (needs_fetch fl s) _ _
        (λ q. record { positive = b.2; in_bounds = (b.0, b.1) }) (λ q. v)

  take_head-IsValid :
      (s : Subscription F) (q : List DriverEvent) → IsValid s → IsValid (take_head fl s q).1
  unfolding take_head
  take_head-IsValid s [] v = v
  take_head-IsValid s (m ∷ q) v = record { positive = v.positive; in_bounds = v.in_bounds }

  unless_failed-IsValid :
      (f : Option Failure) (ctx : Option Error) (now : ℕ) (s : Subscription F)
      → IsValid s
      → IsValid (unless_failed fl f ctx now s).1
  unless_failed-IsValid (some f) ctx now s v = v
  unless_failed-IsValid none (some e) now s v = v
  unless_failed-IsValid none none now s v =
      let s' = start_fetch fl now s in take_head-IsValid s' s'.queue (start_fetch-IsValid now s v)

  finish_fetch-IsValid :
      (s : Subscription F) (o : Option Fetched) → IsValid s → IsValid (finish_fetch fl s o)
  unfolding finish_fetch
  finish_fetch-IsValid s none v = v
  finish_fetch-IsValid s (some (messages ms)) v = record { positive = v.positive; in_bounds = tt }
  finish_fetch-IsValid s (some (failed e)) v = record { positive = v.positive; in_bounds = tt }

  close_unless-IsValid :
      (f : Option Failure) (s : Subscription F) → IsValid s → IsValid (close_unless fl f s)
  close_unless-IsValid none s v = record { positive = v.positive; in_bounds = v.in_bounds }
  close_unless-IsValid (some shut_down) s v = v
  close_unless-IsValid (some (fetch_failed e)) s v = record {
    positive = v.positive;
    in_bounds = v.in_bounds;
  }

  step-IsValid : (s : Subscription F) (e : Event) → IsValid s → IsValid (step fl error_code s e).1
  unfolding step receive shutdown
  step-IsValid s (receives ctx now) v = unless_failed-IsValid s.failure ctx now s v
  step-IsValid s (fetches answers) v = finish_fetch-IsValid s _ v
  step-IsValid s shuts_down v = close_unless-IsValid s.failure s v

  run-IsValid :
      (s : Subscription F) (es : List Event) → IsValid s → IsValid (run fl error_code s es).1
  unfolding run
  run-IsValid s [] v = v
  run-IsValid s (e ∷ es) v = run-IsValid (step fl error_code s e).1 es (step-IsValid s e v)

  launched :
      (now : ℕ) (s : Subscription F)
      → needs_fetch fl s ≡ true
      → (start_fetch fl now s).waitc
        ≡ some (update_batch_size fl s.recv_batch_opts now s.throughput).0
  unfolding start_fetch
  launched now s q = rw q refl

  kept : (now : ℕ) (s : Subscription F) → needs_fetch fl s ≡ false → start_fetch fl now s ≡ s
  unfolding start_fetch
  kept now s q = rw q refl

  needs_fetch-idle :
      (s : Subscription F)
      → IsPositive fl s.throughput.running_batch_size
      → s.queue ≡ []
      → needs_fetch fl s ≡ is_idle fl s.waitc
  unfolding needs_fetch
  needs_fetch-idle s p q =
      let nonneg = laws.scale-nonnegative 1 2 _ (laws.positive-nonnegative _ p) in
      let running = s.throughput.running_batch_size in
      let le : fl.le (fl.of_nat (length s.queue)) (fl.scale 1 2 running) ≡ true =
        ap (λ l. fl.le (fl.of_nat (length l)) (fl.scale 1 2 running)) q ∙ nonneg in
      ap (λ b. is_idle fl s.waitc && b) le ∙ and_true (is_idle fl s.waitc)

  start_fetch-IsFetching :
      (now : ℕ) (s : Subscription F) (w : Option ℕ)
      → IsValid s
      → s.queue ≡ []
      → s.waitc ≡ w
      → IsFetching (start_fetch fl now s).waitc
  start_fetch-IsFetching now s none v q e =
      let b = update_batch_size_bounds fl laws s.recv_batch_opts now s.throughput v.positive in
      let idle = needs_fetch-idle s v.positive q ∙ ap (is_idle fl) e in
      subst IsFetching (sym (launched now s idle)) (in_flight _ b.0 b.1)
  start_fetch-IsFetching now s (some n) v q e =
      let busy = needs_fetch-idle s v.positive q ∙ ap (is_idle fl) e in
      let b : InBounds (some n) = subst InBounds e v.in_bounds in
      subst IsFetching (sym (ap (λ t. t.waitc) (kept now s busy) ∙ e)) (in_flight n b.0 b.1)

  take_head-waits :
      (s : Subscription F) (q : List DriverEvent)
      → (take_head fl s q).0 ≡ waits
      → (q ≡ []) × ((take_head fl s q).1 ≡ s)
  unfolding take_head
  take_head-waits s [] w = (refl, refl)
  take_head-waits s (m ∷ q) w = cc

  unless_failed-IsFetching :
      (f : Option Failure) (ctx : Option Error) (now : ℕ) (s : Subscription F)
      → IsValid s
      → (unless_failed fl f ctx now s).0 ≡ waits
      → IsFetching (unless_failed fl f ctx now s).1.waitc
  unless_failed-IsFetching (some f) ctx now s v w = cc
  unless_failed-IsFetching none (some e) now s v w = cc
  unless_failed-IsFetching none none now s v w =
      let s' = start_fetch fl now s in
      let h = take_head-waits s' s'.queue w in
      subst IsFetching (sym (ap (λ t. t.waitc) h.1)) (
        start_fetch-IsFetching now s s.waitc v (sym (start_fetch-queue fl error_code now s) ∙ h.0)
          refl)

  -- In every run of a new subscription, where a round of `Receive` is to wait, a fetch of 1 to 3000
  -- messages is in flight.
  pub receive-IsFetching :
      (opts : Option Options) (es : List Event) (ctx : Option Error) (now : ℕ)
      → let s = (run fl error_code (new_subscription fl opts) es).1 in
        (receive fl ctx now s).0 ≡ waits → IsFetching (receive fl ctx now s).1.waitc
  unfolding receive
  receive-IsFetching opts es ctx now =
      let s = (run fl error_code (new_subscription fl opts) es).1 in
      unless_failed-IsFetching s.failure ctx now s
        (run-IsValid _ es (new_subscription-IsValid opts))

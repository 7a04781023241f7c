-- ===== src/Subscription/Sticky.antt =====
-- The permanent error of a subscription, and `Shutdown`: email/delivery_subscription.go.
use blocky_cloud.Prelude.{
  ℕ, ◌+◌, List, [], ◌∷◌, ◌++◌, Option, none, some, length, ==_iff, ◌≡◌, refl, ap, ◌∙◌, arith,
}
use blocky_cloud.Batcher.Options.{Options}
use blocky_cloud.Batcher.Split.{split}
use blocky_cloud.Errors.Chain.{Error}
use blocky_cloud.Subscription.Float.{Float}
use blocky_cloud.Subscription.State.{
  Subscription, Failure, Answer, Fetched, messages, failed, refuses, unless_failed, close_unless,
  receive, outcome, outcome_of, collect, finish_fetch, shutdown, shut_down, fetch_failed, Event,
  receives, fetches, shuts_down, step, given, run,
}

module _ {F : Type 0} (fl : Float F) (error_code : Error → ℕ) where
  -- The subscription has a permanent error.
  pub data HasFailed (s : Subscription F) : Type 0 where
    has_failed : (f : Failure) → s.failure ≡ some f → HasFailed s

  receive-failed :
      (ctx : Option Error) (now : ℕ) (s : Subscription F) (f : Failure)
      → s.failure ≡ some f
      → receive fl ctx now s ≡ (refuses f, s)
  unfolding receive
  receive-failed ctx now s f e = ap (λ g. unless_failed fl g ctx now s) e

  finish_fetch-HasFailed :
      (s : Subscription F) (o : Option Fetched) → HasFailed s → HasFailed (finish_fetch fl s o)
  unfolding finish_fetch
  finish_fetch-HasFailed s none h = h
  finish_fetch-HasFailed s (some (messages ms)) (has_failed f e) = has_failed f e
  finish_fetch-HasFailed s (some (failed e')) h = has_failed (fetch_failed e') refl

  close_unless-HasFailed :
      (f : Option Failure) (s : Subscription F) → HasFailed s → HasFailed (close_unless fl f s)
  close_unless-HasFailed none s h = has_failed shut_down refl
  close_unless-HasFailed (some shut_down) s h = h
  close_unless-HasFailed (some (fetch_failed e)) s h = has_failed shut_down refl

  step-HasFailed :
      (s : Subscription F) (e : Event)
      → HasFailed s
      → (given fl error_code (step fl error_code s e).0 ≡ []) × HasFailed (step fl error_code s e).1
  unfolding step shutdown
  step-HasFailed s (receives ctx now) (has_failed f e) =
      rw (receive-failed ctx now s f e) (refl, has_failed f e)
  step-HasFailed s (fetches answers) h = (refl, finish_fetch-HasFailed s _ h)
  step-HasFailed s shuts_down h = (refl, close_unless-HasFailed s.failure s h)

  run-HasFailed :
      (s : Subscription F) (es : List Event)
      → HasFailed s
      → ((run fl error_code s es).0 ≡ []) × HasFailed (run fl error_code s es).1
  unfolding run
  run-HasFailed s [] h = (refl, h)
  run-HasFailed s (e ∷ es) h =
      let k = step-HasFailed s e h in
      let r = run-HasFailed (step fl error_code s e).1 es k.1 in
      (ap (λ l. l ++ (run fl error_code (step fl error_code s e).1 es).0) k.0 ∙ r.0, r.1)

  failed_receive :
      (s : Subscription F) (ctx : Option Error) (now : ℕ)
      → HasFailed s
      → (f : Failure) × (s.failure ≡ some f) × (receive fl ctx now s ≡ (refuses f, s))
  failed_receive s ctx now (has_failed f e) = (f, e, receive-failed ctx now s f e)

  -- A call of `Shutdown`, or the end of a fetch that was in flight and has failed.
  pub data Breaks (s : Subscription F) : Event → Type 0 where
    called : Breaks s shuts_down
    fetch_broke :
        (answers : List Answer) (e : Error)
        → outcome fl error_code s answers ≡ some (failed e)
        → Breaks s (fetches answers)

  close_unless_fails :
      (f : Option Failure) (s : Subscription F) → s.failure ≡ f → HasFailed (close_unless fl f s)
  close_unless_fails none s e = has_failed shut_down refl
  close_unless_fails (some shut_down) s e = has_failed shut_down e
  close_unless_fails (some (fetch_failed e')) s e = has_failed shut_down refl

  step-Breaks :
      (s : Subscription F) (e : Event)
      → Breaks s e
      → (given fl error_code (step fl error_code s e).0 ≡ []) × HasFailed (step fl error_code s e).1
  unfolding step shutdown finish_fetch
  step-Breaks s (receives _ _) b = elim b [ ]
  step-Breaks s shuts_down called = (refl, close_unless_fails s.failure s refl)
  step-Breaks s (fetches answers) (fetch_broke _ e o) =
      (refl, rw o (has_failed (fetch_failed e) refl))

  -- Once `Shutdown` was called or a fetch has failed, in whatever state, no event is handed out any more,
  -- and every round of `Receive` returns the error that the subscription has then.
  pub run-failed :
      (s : Subscription F) (e : Event) (es : List Event) (ctx : Option Error) (now : ℕ)
      → Breaks s e
      → let r = run fl error_code s (e ∷ es) in
        (r.0 ≡ [])
        × ((f : Failure) × (r.1.failure ≡ some f) × (receive fl ctx now r.1 ≡ (refuses f, r.1)))
  unfolding run
  run-failed s e es ctx now b =
      let first = step-Breaks s e b in
      let k = run-HasFailed (step fl error_code s e).1 es first.1 in
      (
        ap (λ l. l ++ (run fl error_code (step fl error_code s e).1 es).0) first.0 ∙ k.0,
        failed_receive _ ctx now k.1,
      )

  outcome_failed :
      (opts : Option Options) (w : Option ℕ) (n : ℕ) (answers : List Answer) (e : Error)
      → w ≡ some n
      → length answers ≡ length (split n opts)
      → collect error_code answers ≡ failed e
      → outcome_of fl error_code opts w answers ≡ some (failed e)
  outcome_failed opts w n answers e q l c =
      rw (q, (==_iff (length answers) (length (split n opts))).1 l, c) refl

  -- If a fetch that was in flight at a first `Shutdown` fails before the second, its error replaces
  -- that of the shutdown, and the second closes the driver again.
  pub shutdown_again :
      (s : Subscription F) (n : ℕ) (answers : List Answer) (e : Error)
      → s.failure ≡ none
      → s.waitc ≡ some n
      → length answers ≡ length (split n s.recv_batch_opts)
      → collect error_code answers ≡ failed e
      → let t = (run fl error_code s (shuts_down ∷ fetches answers ∷ [])).1 in
        (t.failure ≡ some (fetch_failed e)) × ((shutdown fl t).closes ≡ s.closes + 2)
  unfolding run step shutdown finish_fetch outcome
  shutdown_again s n answers e f w l c =
      let s' : Subscription F = record s { failure = some shut_down; closes = s.closes + 1 } in
      let first : shutdown fl s ≡ s' = ap (λ g. close_unless fl g s) f in
      rw (first, outcome_failed s.recv_batch_opts s.waitc n answers e w l c) (refl, omega arith)

-- ===== src/Batcher/Sizes.antt =====
-- `New` of email/batcher/batcher.go and the byte sizes.
use blocky_cloud.Prelude.{
  ℕ, ◌≡◌, ◌≢◌, refl, true, List, [], ◌∷◌, Option, none, some, map, arith, All, All-append,
}
use blocky_cloud.Batcher.Options.{Options}
use blocky_cloud.Batcher.State.{
  Waiter, Thread, handling, Reply, handled, message_too_large, Batcher, Event, add, returns, locks,
  exits, shuts_down, new, start, enqueue, add_no_wait_cases, report, continue_with, take_next,
  leave, step, run, too_large,
}

abbrev IsAccepted : {E : Type 0} → ℕ × Reply E → Type 0
IsAccepted r = r.1 ≢ message_too_large

map-IsAccepted :
    {A E : Type 0} (err : Option E) (batch : List (Waiter A))
    → All IsAccepted (map (λ m. (m.errc, handled err)) batch)
map-IsAccepted err [] = tt
map-IsAccepted err (m ∷ batch) = ((λ h. cc), map-IsAccepted err batch)

module _ {A E : Type 0} where
  -- A batcher that measures nothing, and has refused nothing for its size.
  record IsUnmeasured (b : Batcher A E) : Type 0 where
    unmeasured : b.byte_size_fn ≡ none
    accepted : All IsAccepted b.replies

  never_too_large :
      {P : Type 0} (b : Batcher A E) (item : A)
      → b.byte_size_fn ≡ none
      → too_large b.opts b.byte_size_fn item ≡ true
      → P
  unfolding too_large
  never_too_large b item u h = absurd (ground arith)

  report-IsUnmeasured :
      (b : Batcher A E) (i : ℕ) (err : Option E) (t : Option (Thread A))
      → IsUnmeasured b
      → IsUnmeasured (report b i err t)
  unfolding report
  report-IsUnmeasured b i err (some (handling batch)) u = record {
    unmeasured = u.unmeasured;
    accepted = All-append IsAccepted b.replies _ u.accepted (map-IsAccepted err batch);
  }
  report-IsUnmeasured b i err _ u = u

  step-IsUnmeasured : (b : Batcher A E) (e : Event A E) → IsUnmeasured b → IsUnmeasured (step b e)
  unfolding step enqueue start take_next continue_with leave
  step-IsUnmeasured b (add item) u =
      add_no_wait_cases IsUnmeasured b item
        (λ _. record {
          unmeasured = u.unmeasured;
          accepted = All-append IsAccepted b.replies _ u.accepted ((λ h. cc), tt);
        })
        (λ large. never_too_large b item u.unmeasured large) (λ _ _. ground arith)
  step-IsUnmeasured b (returns i err) u = report-IsUnmeasured b i err _ u
  step-IsUnmeasured b (locks i) u = ground arith
  step-IsUnmeasured b (exits i) u = ground arith
  step-IsUnmeasured b shuts_down u = ground arith

  run-IsUnmeasured :
      (b : Batcher A E) (es : List (Event A E)) → IsUnmeasured b → IsUnmeasured (run b es)
  unfolding run
  run-IsUnmeasured b [] u = u
  run-IsUnmeasured b (e ∷ es) u = run-IsUnmeasured (step b e) es (step-IsUnmeasured b e u)

  -- Whatever size function and `MaxBatchByteSize` a new batcher is given, it has no size function
  -- after any run, and no item has been refused as too large.
  pub run-new_unmeasured :
      (opts : Option Options) (size : Option (A → ℕ)) (es : List (Event A E))
      → ((run (new opts size) es).byte_size_fn ≡ none)
        × All IsAccepted (run (new opts size) es).replies
  unfolding new
  run-new_unmeasured opts size es =
      let u = run-IsUnmeasured _ es (record { unmeasured = refl; accepted = tt }) in
      (u.unmeasured, u.accepted)

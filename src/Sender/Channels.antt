-- ===== src/Sender/Channels.antt =====
-- What the steps of a batcher do to its channels: email/batcher/batcher.go.
use blocky_cloud.Prelude.{
  ℕ, ◌+◌, ◌≤◌, List, [], ◌∷◌, Option, none, some, if_cases, ◌≡◌, refl, arith, ltb, if◌then◌else◌,
  sum_by-append, map,
}
use blocky_cloud.Batcher.State.{
  Waiter, Thread, handling, reported, leaving, handled, shut_down, message_too_large, start, queue,
  answer, next_batch, add_no_wait_cases, enqueue, add_no_wait, report, take_next, continue_with,
  leave, Batcher, Reply, add, returns, locks, exits, shuts_down,
}
use blocky_cloud.Batcher.State as Batcher_State
use blocky_cloud.Batcher.Delivery.{is, answers, IsPlaced}
use blocky_cloud.Sender.State.{Sender, work, answer_of}

-- An answer that is there counts.
pub answers-answer_of :
    {E : Type 0} (t : ℕ) (l : List (ℕ × Reply E)) (r : Reply E)
    → answer_of t l ≡ some r
    → 1 ≤ answers t l
unfolding answer_of
answers-answer_of t [] r h = cc
answers-answer_of t ((n, x) ∷ l) r h = ground (arith, answers-answer_of t l r)

module _ {A E : Type 0} where
  -- A channel is answered or not made.
  abbrev pub IsSettled : Batcher A E → ℕ → Type 0
  IsSettled b t = answers t b.replies ≡ (if ltb t b.next_errc then 1 else 0)

  -- A step of the batcher but `AddNoWait` makes no channel and takes no answer back.
  abbrev pub Grows : Batcher A E → Batcher A E → Type 0
  Grows b c = (c.next_errc ≡ b.next_errc) × ((t : ℕ) → answers t b.replies ≤ answers t c.replies)

  report-Grows :
      (b : Batcher A E) (i : ℕ) (err : Option E) (th : Option (Thread A))
      → Grows b (report b i err th)
  unfolding report
  report-Grows b i err (some (handling batch)) = (
    refl,
    λ t. omega (
      arith,
      sum_by-append (λ (x : ℕ × Reply E). is t x.0) b.replies
          (map (λ (m : Waiter A). (m.errc, handled err)) batch),
    ),
  )
  report-Grows b i err (some reported) = (refl, λ t. omega arith)
  report-Grows b i err (some leaving) = (refl, λ t. omega arith)
  report-Grows b i err none = (refl, λ t. omega arith)

  continue-Grows :
      (b : Batcher A E) (i : ℕ) (r : Option (List (Waiter A)) × List (Waiter A))
      → Grows b (continue_with b i r)
  unfolding continue_with
  continue-Grows b i (none, rest) = (refl, λ t. omega arith)
  continue-Grows b i (some batch, rest) = (refl, λ t. omega arith)

  take_next-Grows : (b : Batcher A E) (i : ℕ) (th : Option (Thread A)) → Grows b (take_next b i th)
  unfolding take_next
  take_next-Grows b i (some (handling batch)) = (refl, λ t. omega arith)
  take_next-Grows b i (some reported) = continue-Grows b i _
  take_next-Grows b i (some leaving) = (refl, λ t. omega arith)
  take_next-Grows b i none = (refl, λ t. omega arith)

  leave-Grows : (b : Batcher A E) (i : ℕ) (th : Option (Thread A)) → Grows b (leave b i th)
  unfolding leave
  leave-Grows b i (some (handling batch)) = (refl, λ t. omega arith)
  leave-Grows b i (some reported) = (refl, λ t. omega arith)
  leave-Grows b i (some leaving) = (refl, λ t. omega arith)
  leave-Grows b i none = (refl, λ t. omega arith)

  start-Grows :
      (b : Batcher A E) (r : Option (List (Waiter A)) × List (Waiter A)) → Grows b (start b r)
  unfolding start
  start-Grows b (none, rest) = (refl, λ t. omega arith)
  start-Grows b (some batch, rest) = (refl, λ t. omega arith)

  -- The batcher with one more channel.
  abbrev pub opened : Batcher A E → Batcher A E
  opened b = record b { next_errc = b.next_errc + 1 }

  answer-Grows : (b : Batcher A E) (r : Reply E) → Grows (opened b) (answer b r)
  answer-Grows b r = (
    refl,
    λ t.
        omega
          (arith, sum_by-append (λ (x : ℕ × Reply E). is t x.0) b.replies ((b.next_errc, r) ∷ [])),
  )

  enqueue-Grows : (b : Batcher A E) (item : A) → Grows (opened b) (enqueue b item)
  unfolding enqueue
  enqueue-Grows b item =
      if_cases (Grows (opened b)) _ _ _
        (λ _. start-Grows (queue b item) (next_batch b.opts b.byte_size_fn (queue b item).pending))
        (λ _. (refl, λ t. omega arith))

  pub add_no_wait-Grows : (b : Batcher A E) (item : A) → Grows (opened b) (add_no_wait b item)
  add_no_wait-Grows b item =
      add_no_wait_cases (Grows (opened b)) b item (λ _. answer-Grows b shut_down)
        (λ _. answer-Grows b message_too_large) (λ _ _. enqueue-Grows b item)

  -- A channel that is settled stays so.
  pub Grows-IsSettled :
      (b c : Batcher A E) (t : ℕ) → IsPlaced t c → Grows b c → IsSettled b t → IsSettled c t
  Grows-IsSettled b c t placed (made, more) h = ground (arith, more t)

  pub work-Grows :
      {M : Type 0} (s : Sender M A E) (e : Batcher_State.Event A E)
      → Grows s.batcher (work s e).batcher
  unfolding work Batcher_State.step
  work-Grows {M} s (add item) = (refl, λ t. omega arith)
  work-Grows {M} s shuts_down =
      if_cases (λ (c : Sender M A E). Grows s.batcher c.batcher) s.closed _ _
        (λ _. (refl, λ t. omega arith)) (λ _. (refl, λ t. omega arith))
  work-Grows {M} s (returns i err) = report-Grows s.batcher i err _
  work-Grows {M} s (locks i) = take_next-Grows s.batcher i _
  work-Grows {M} s (exits i) = leave-Grows s.batcher i _

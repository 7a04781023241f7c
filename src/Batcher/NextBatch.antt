-- ===== src/Batcher/NextBatch.antt =====
-- What `nextBatch` of email/batcher/batcher.go takes from the queue.
use blocky_cloud.Prelude.{
  ℕ, ◌+◌, ◌≤◌, ◌<◌, ◌≡◌, refl, ◌⊎◌, List, [], ◌∷◌, ◌++◌, Option, none, some, arith, length, drop,
  All, All-drop, sum_by, append-nil,
}
use blocky_cloud.Batcher.Options.{Options, Within}
use blocky_cloud.Batcher.State.{Waiter, size_of, fill, next_batch}

-- One waiter more, or these bytes, would break a limit.
abbrev pub IsFull : Options → ℕ → ℕ → Type 0
IsFull o n bytes =
    ((1 ≤ o.max_batch_size) × (o.max_batch_size < n + 1))
    ⊎ ((1 ≤ o.max_batch_byte_size) × (o.max_batch_byte_size < bytes))

module _ {A : Type 0} where
  abbrev pub bytes_of : Option (A → ℕ) → List (Waiter A) → ℕ
  bytes_of size = sum_by (λ m. size_of size m.item)

  -- Behind a batch of `n` waiters and `bytes` bytes the queue is empty or its head does not fit.
  abbrev pub Stops : Options → Option (A → ℕ) → ℕ → ℕ → List (Waiter A) → Type 0
  Stops o size n bytes [] = Unit
  Stops o size n bytes (m ∷ rest) = IsFull o n (bytes + size_of size m.item)

  pub record IsFill (o : Options) (size : Option (A → ℕ)) (n bytes : ℕ)
      (pending batch : List (Waiter A)) : Type 0 where
    pub size_within : Within (n + length batch) o.max_batch_size
    pub bytes_within : Within (bytes + bytes_of size batch) o.max_batch_byte_size
    pub stops :
        Stops o size (n + length batch) (bytes + bytes_of size batch) (drop (length batch) pending)

  fill-prefix :
      (o : Options) (size : Option (A → ℕ)) (n bytes : ℕ) (pending : List (Waiter A))
      → fill o size n bytes pending ++ drop (length (fill o size n bytes pending)) pending ≡ pending
  unfolding fill
  fill-prefix o size n bytes [] = refl
  fill-prefix o size n bytes (m ∷ rest) =
      ground (arith, fill-prefix o size (n + 1) (bytes + size_of size m.item) rest)

  fill-IsFill :
      (o : Options) (size : Option (A → ℕ)) (n bytes : ℕ) (pending : List (Waiter A))
      → Within n o.max_batch_size
      → Within bytes o.max_batch_byte_size
      → IsFill o size n bytes pending (fill o size n bytes pending)
  unfolding fill
  fill-IsFill o size n bytes [] h k = ground arith
  fill-IsFill o size n bytes (m ∷ rest) h k = ground (
    arith,
    λ (a : Within (n + 1) o.max_batch_size)
          (b : Within (bytes + size_of size m.item) o.max_batch_byte_size).
        fill-IsFill o size (n + 1) (bytes + size_of size m.item) rest a b,
  )

  -- No item of the queue is above the byte limit by itself.
  abbrev pub Fits : Options → Option (A → ℕ) → Waiter A → Type 0
  Fits o size m = Within (size_of size m.item) o.max_batch_byte_size

  fill_nonempty :
      (o : Options) (size : Option (A → ℕ)) (pending : List (Waiter A))
      → All (Fits o size) pending
      → 1 ≤ length pending
      → 1 ≤ length (fill o size 0 0 pending)
  unfolding fill
  fill_nonempty o size [] f h = elim h [ ]
  fill_nonempty o size (m ∷ rest) f h = ground arith

  -- What `nextBatch` may answer to a queue, with the queue that it leaves.
  abbrev pub IsNext :
      Options
      → Option (A → ℕ)
      → List (Waiter A)
      → Option (List (Waiter A)) × List (Waiter A)
      → Type 0
  IsNext o size pending (none, rest) = (rest ≡ pending) × (length pending < o.min_batch_size)
  IsNext o size pending (some batch, rest) =
      (batch ++ rest ≡ pending)
      × (o.min_batch_size ≤ length pending)
      × Within (length batch) o.max_batch_size
      × Within (bytes_of size batch) o.max_batch_byte_size
      × Stops o size (length batch) (bytes_of size batch) rest

  -- `nextBatch` answers nil exactly when fewer than `MinBatchSize` items wait, and then keeps the
  -- queue. Otherwise its batch is the longest front part of the queue within both limits: in order,
  -- within `MaxBatchSize` items and `MaxBatchByteSize` bytes, and either the queue is used up or the
  -- next item would break a limit.
  pub next_batch-IsNext :
      (o : Options) (size : Option (A → ℕ)) (pending : List (Waiter A))
      → IsNext o size pending (next_batch o size pending)
  unfolding next_batch
  next_batch-IsNext o size pending = ground (
    arith,
    append-nil pending,
    fill-prefix o size 0 0 pending,
    fill-IsFill o size 0 0 pending (omega arith) (omega arith),
  )

  -- Where every waiting item fits by itself, a batch holds at least one.
  pub next_batch_nonempty :
      (o : Options) (size : Option (A → ℕ)) (pending : List (Waiter A))
      {batch rest : List (Waiter A)}
      → 1 ≤ o.min_batch_size
      → All (Fits o size) pending
      → next_batch o size pending ≡ (some batch, rest)
      → 1 ≤ length batch
  unfolding next_batch
  next_batch_nonempty o size pending h f e = ground (arith, fill_nonempty o size pending f)

  -- The queue that is left is an end of the old one.
  pub next_batch_rest :
      (o : Options) (size : Option (A → ℕ)) (pending : List (Waiter A))
      → All (Fits o size) pending
      → All (Fits o size) (next_batch o size pending).1
  unfolding next_batch
  next_batch_rest o size pending f =
      ground (arith, All-drop (Fits o size) (length (fill o size 0 0 pending)) pending f)

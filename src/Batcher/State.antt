-- ===== src/Batcher/State.antt =====
-- `BatcherG` of email/batcher/batcher.go: its state, and its methods as steps.
-- The mutex makes `AddNoWait`, the tail of `callHandler`'s loop and `Shutdown`'s first half atomic;
-- between these steps goroutines interleave as they like, so a run is any list of events.
use blocky_cloud.Prelude.{
  ℕ, ◌+◌, ◌-◌, Bool, true, false, ◌&&◌, ◌||◌, List, [], ◌∷◌, ◌++◌, Option, none, some, map, ltb,
  leb, ◌==◌, if◌then◌else◌, length, get_elem?, set, erase_idx, drop, if_cases, ◌≡◌,
}
use blocky_cloud.Batcher.Options.{Options, new_options_with_defaults}

-- An item, and the channel for its answer: channels are numbered in the order of their creation.
pub record Waiter (A : Type 0) : Type 0 where
  pub item : A
  pub errc : ℕ

-- What is sent to a channel: the handler's error (`none` is nil), or a refusal by `AddNoWait`.
pub data Reply (E : Type 0) : Type 0 where
  handled : Option E → Reply E
  shut_down : Reply E
  message_too_large : Reply E

-- A goroutine of `callHandler`: in the handler's call on a batch; between its answers to the batch
-- and the lock; behind the loop, before `wg.Done`.
pub data Thread (A : Type 0) : Type 0 where
  handling : List (Waiter A) → Thread A
  reported : Thread A
  leaving : Thread A

-- `threads` are the goroutines that `wg` counts; `replies` is what the channels hold.
pub record Batcher (A E : Type 0) : Type 0 where
  pub opts : Options
  pub byte_size_fn : Option (A → ℕ)
  pub pending : List (Waiter A)
  pub n_handlers : ℕ
  pub shutdown : Bool
  pub threads : List (Thread A)
  pub replies : List (ℕ × Reply E)
  pub next_errc : ℕ

unfoldable pub reached_max_size : Options → ℕ → Bool
reached_max_size o n = ltb 0 o.max_batch_size && ltb o.max_batch_size (n + 1)

unfoldable pub reached_max_byte_size : Options → ℕ → ℕ → Bool
reached_max_byte_size o batch_bytes item_bytes =
    ltb 0 o.max_batch_byte_size && ltb o.max_batch_byte_size (batch_bytes + item_bytes)

module _ {A : Type 0} where
  -- `b.byteSizeFn(item)` where the function is set, and 0 where it is nil.
  abbrev pub size_of : Option (A → ℕ) → A → ℕ
  size_of none a = 0
  size_of (some f) a = f a

  -- The loop of `nextBatch`, with `len(batch)` and `batchByteSize`; the result is what it appends.
  unfoldable pub fill : Options → Option (A → ℕ) → ℕ → ℕ → List (Waiter A) → List (Waiter A)
  unfolding reached_max_size reached_max_byte_size
  fill o size n bytes [] = []
  fill o size n bytes (msg ∷ rest) =
      let item_bytes = size_of size msg.item in
      let more = msg ∷ fill o size (n + 1) (bytes + item_bytes) rest in
      if reached_max_size o n || reached_max_byte_size o bytes item_bytes then [] else more

  -- `nextBatch`: the batch, `none` for nil, and the new `b.pending`.
  unfoldable pub next_batch :
      Options → Option (A → ℕ) → List (Waiter A) → Option (List (Waiter A)) × List (Waiter A)
  next_batch o size pending =
      let batch = fill o size 0 0 pending in
      if ltb (length pending) o.min_batch_size
      then (none, pending)
      else if o.max_batch_byte_size == 0
          && (o.max_batch_size == 0 || leb (length pending) o.max_batch_size)
      then (some pending, [])
      else (some batch, drop (length batch) pending)

  -- `b.opts.MaxBatchByteSize > 0`, `b.byteSizeFn != nil` and the size above the limit.
  unfoldable pub too_large : Options → Option (A → ℕ) → A → Bool
  too_large o none item = false
  too_large o (some f) item = ltb 0 o.max_batch_byte_size && ltb o.max_batch_byte_size (f item)

module _ {A E : Type 0} where
  -- `New`. It takes `byteSizeFn` and does not store it.
  unfoldable pub new : Option Options → Option (A → ℕ) → Batcher A E
  new opts byte_size_fn = record {
    opts = new_options_with_defaults opts;
    byte_size_fn = none;
    pending = [];
    n_handlers = 0;
    shutdown = false;
    threads = [];
    replies = [];
    next_errc = 0;
  }

  -- The answer to the channel that is created last.
  abbrev pub answer : Batcher A E → Reply E → Batcher A E
  answer b r = record b {
    replies = b.replies ++ (b.next_errc, r) ∷ [];
    next_errc = b.next_errc + 1;
  }

  -- The batch that is ready, if any, goes to a new goroutine.
  unfoldable pub start : Batcher A E → Option (List (Waiter A)) × List (Waiter A) → Batcher A E
  start b (none, pending) = record b { pending = pending }
  start b (some batch, pending) = record b {
    pending = pending;
    threads = b.threads ++ handling batch ∷ [];
    n_handlers = b.n_handlers + 1;
  }

  abbrev pub queue : Batcher A E → A → Batcher A E
  queue b item = record b {
    pending = b.pending ++ record { item = item; errc = b.next_errc } ∷ [];
    next_errc = b.next_errc + 1;
  }

  -- The item's waiter is queued, and a handler starts if there is room for one and a batch.
  unfoldable pub enqueue : Batcher A E → A → Batcher A E
  enqueue b item =
      let q = queue b item in
      if ltb b.n_handlers b.opts.max_handlers
      then start q (next_batch q.opts q.byte_size_fn q.pending)
      else q

  unfoldable pub add_no_wait : Batcher A E → A → Batcher A E
  add_no_wait b item =
      if b.shutdown
      then answer b shut_down
      else if too_large b.opts b.byte_size_fn item
      then answer b message_too_large
      else enqueue b item

  -- The handler of goroutine `i` returns `err`: every waiter of the batch is sent it.
  unfoldable pub report : Batcher A E → ℕ → Option E → Option (Thread A) → Batcher A E
  report b i err (some (handling batch)) = record b {
    replies = b.replies ++ map (λ m. (m.errc, handled err)) batch;
    threads = set b.threads i reported;
  }
  report b i err _ = b

  -- The rest of the loop's round, under the lock: the next batch, or one handler fewer.
  unfoldable pub continue_with :
      Batcher A E → ℕ → Option (List (Waiter A)) × List (Waiter A) → Batcher A E
  continue_with b i (none, pending) = record b {
    pending = pending;
    n_handlers = b.n_handlers - 1;
    threads = set b.threads i leaving;
  }
  continue_with b i (some batch, pending) = record b {
    pending = pending;
    threads = set b.threads i (handling batch);
  }

  unfoldable pub take_next : Batcher A E → ℕ → Option (Thread A) → Batcher A E
  take_next b i (some reported) = continue_with b i (next_batch b.opts b.byte_size_fn b.pending)
  take_next b i _ = b

  -- `b.wg.Done()`.
  unfoldable pub leave : Batcher A E → ℕ → Option (Thread A) → Batcher A E
  leave b i (some leaving) = record b { threads = erase_idx b.threads i }
  leave b i _ = b

  -- The first half of `Shutdown`; the second waits for `wg`, that is until `threads` is empty.
  abbrev pub begin_shutdown : Batcher A E → Batcher A E
  begin_shutdown b = record b { shutdown = true }

pub data Event (A E : Type 0) : Type 0 where
  add : A → Event A E
  returns : ℕ → Option E → Event A E
  locks : ℕ → Event A E
  exits : ℕ → Event A E
  shuts_down : Event A E

module _ {A E : Type 0} where
  -- An event of a goroutine that is not there, or not at that point, changes nothing.
  unfoldable pub step : Batcher A E → Event A E → Batcher A E
  step b (add item) = add_no_wait b item
  step b (returns i err) = report b i err (get_elem? b.threads i)
  step b (locks i) = take_next b i (get_elem? b.threads i)
  step b (exits i) = leave b i (get_elem? b.threads i)
  step b shuts_down = begin_shutdown b

  unfoldable pub run : Batcher A E → List (Event A E) → Batcher A E
  run b [] = b
  run b (e ∷ es) = run (step b e) es

  -- The three answers of `AddNoWait`.
  pub add_no_wait_cases {ℓ} :
      (P : Batcher A E → Type ℓ) (b : Batcher A E) (item : A)
      → (b.shutdown ≡ true → P (answer b shut_down))
      → (too_large b.opts b.byte_size_fn item ≡ true → P (answer b message_too_large))
      → (b.shutdown ≡ false → too_large b.opts b.byte_size_fn item ≡ false → P (enqueue b item))
      → P (add_no_wait b item)
  unfolding add_no_wait
  add_no_wait_cases P b item down large small =
      if_cases P b.shutdown _ _ down (λ up. if_cases P _ _ _ large (small up))

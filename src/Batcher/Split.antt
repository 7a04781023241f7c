-- ===== src/Batcher/Split.antt =====
-- `Split` of email/batcher/batcher.go.
use blocky_cloud.Prelude.{
  ℕ, zero, suc, ◌+◌, ◌-◌, ◌≤◌, ◌<◌, ◌≡◌, ◌⊎◌, List, [], ◌∷◌, Option, arith, ltb, leb, ◌==◌,
  if◌then◌else◌, length, All, sum_by,
}
use blocky_cloud.Batcher.Options.{Options, new_options_with_defaults, defaults_positive, Within}

-- The loop; the first number is `o.MaxHandlers - len(batches)`, the rounds that its test allows.
unfoldable pub split_loop : Options → ℕ → ℕ → List ℕ
split_loop o zero n = []
split_loop o (suc left) n =
    let b = if ltb n o.max_batch_size then n else o.max_batch_size in
    let rest = b ∷ split_loop o left (n - b) in if leb o.min_batch_size n then rest else []

-- A nil slice and an empty one are both `[]`.
unfoldable pub split : ℕ → Option Options → List ℕ
unfolding split_loop
split n opts =
    let o = new_options_with_defaults opts in
    if ltb n o.min_batch_size
    then []
    else if o.max_batch_size == 0
    then n ∷ []
    else split_loop o o.max_handlers n

abbrev pub total : List ℕ → ℕ
total = sum_by (λ b. b)

-- Each batch is cut from at least `MinBatchSize` items, and it is full or takes all that are left.
abbrev pub IsTaken : Options → ℕ → List ℕ → Type 0
IsTaken o n [] = Unit
IsTaken o n (b ∷ batches) =
    (o.min_batch_size ≤ n) × ((b ≡ o.max_batch_size) ⊎ (b ≡ n)) × IsTaken o (n - b) batches

pub record IsSplit (o : Options) (left n : ℕ) (batches : List ℕ) : Type 0 where
  pub sizes : All (λ b. (1 ≤ b) × Within b o.max_batch_size) batches
  pub taken : IsTaken o n batches
  pub few : length batches ≤ left
  pub covered : total batches ≤ n
  pub maximal : (n < total batches + o.min_batch_size) ⊎ (length batches ≡ left)

split_loop-IsSplit :
    (o : Options) (left n : ℕ)
    → 1 ≤ o.min_batch_size
    → 1 ≤ o.max_batch_size
    → IsSplit o left n (split_loop o left n)
unfolding split_loop
split_loop-IsSplit o zero n h k = ground arith
split_loop-IsSplit o (suc left) n h k = ground (
  arith,
  split_loop-IsSplit o left (n - (if ltb n o.max_batch_size then n else o.max_batch_size)) h k,
)

-- `Split` of n under any options, with their defaults, gives batches of at least one and at most
-- `MaxBatchSize` items, at most `MaxHandlers` of them and of at most n items together. Each is full or takes
-- all that are left, and is cut only where at least `MinBatchSize` items are left; and it stops only where
-- fewer are left, or where every handler has a batch.
pub split-IsSplit :
    (n : ℕ) (opts : Option Options)
    → let o = new_options_with_defaults opts in IsSplit o o.max_handlers n (split n opts)
unfolding split
split-IsSplit n opts = ground (
  arith,
  defaults_positive opts,
  split_loop-IsSplit (new_options_with_defaults opts) (new_options_with_defaults opts).max_handlers
      n (defaults_positive opts).1,
)

-- ===== src/Subscription/BatchSize.antt =====
-- `updateBatchSize` of email/delivery_subscription.go.
use blocky_cloud.Prelude.{
  ℕ, ◌≤◌, ◌<◌, ◌-◌, Bool, false, ◌&&◌, Option, none, some, ltb, ◌==◌, if◌then◌else◌, if_cases,
  arith, Bool-cases, inl, inr,
}
use blocky_cloud.Batcher.Options.{Options}
use blocky_cloud.Subscription.Float.{Float, IsPositive, IsNonnegative, IsIeee}

abbrev pub max_batch_size : ℕ
max_batch_size = 3000

-- 100 milliseconds.
abbrev pub least_elapsed : ℕ
least_elapsed = 100000000

-- `runningBatchSize`, `throughputStart` (none for the zero time) and `throughputCount`.
pub record Throughput (F : Type 0) : Type 0 where
  pub running_batch_size : F
  pub throughput_start : Option ℕ
  pub throughput_count : ℕ

-- One at a time is all that the options allow.
unfoldable pub one_at_a_time : Option Options → Bool
one_at_a_time none = false
one_at_a_time (some o) = o.max_batch_size == 1 && o.max_handlers == 1

module _ {F : Type 0} (fl : Float F) where
  -- `now.Sub(s.throughputStart)`, but at least 100 milliseconds.
  unfoldable pub elapsed : ℕ → ℕ → ℕ
  elapsed now start = let e = now - start in if ltb e least_elapsed then least_elapsed else e

  -- `s.runningBatchSize*(1-decay) + idealBatchSize*decay`.
  unfoldable pub blend : F → ℕ → ℕ → F
  blend running count time =
      fl.plus (fl.scale 1 2 running) (fl.scale 1 2 (fl.scale 2 1 (fl.per_second count time)))

  unfoldable pub cap_growth : F → F → F
  cap_growth running new =
      let max = fl.scale 2 1 running in
      let min = fl.scale 3 4 running in
      if fl.lt max new then max else if fl.lt new min then min else new

  -- The new running size; it stays as it is with no measurement.
  unfoldable pub new_running : Throughput F → ℕ → Option ℕ → F
  new_running t now none = t.running_batch_size
  new_running t now (some start) =
      cap_growth t.running_batch_size
        (blend t.running_batch_size t.throughput_count (elapsed now start))

  unfoldable pub update_batch_size : Option Options → ℕ → Throughput F → ℕ × Throughput F
  update_batch_size opts now t =
      let running = new_running t now t.throughput_start in
      if one_at_a_time opts then (1, t) else (
        fl.ceil_min running max_batch_size,
        record { running_batch_size = running; throughput_start = some now; throughput_count = 0 },
      )

  module _ (laws : IsIeee fl) where
    cap_growth-IsPositive :
        (running new : F)
        → IsPositive fl running
        → IsNonnegative fl new
        → IsPositive fl (cap_growth running new)
    unfolding cap_growth
    cap_growth-IsPositive running new p q =
        let grown = laws.scale-positive 2 1 running (omega arith) p in
        let shrunk = laws.scale-positive 3 4 running (omega arith) p in
        elim (Bool-cases (fl.lt (fl.scale 2 1 running) new)) [
          | inl a ↦ rw a grown
          | inr a ↦ elim (Bool-cases (fl.lt new (fl.scale 3 4 running))) [
            | inl b ↦ rw (a, b) shrunk
            | inr b ↦ rw (a, b) (laws.not_below_positive _ new q shrunk b)
          ]
        ]

    blend-IsNonnegative :
        (running : F) (count time : ℕ)
        → 0 < time
        → IsPositive fl running
        → IsNonnegative fl (blend running count time)
    unfolding blend
    blend-IsNonnegative running count time t p =
        laws.plus-nonnegative _ _
          (laws.scale-nonnegative 1 2 running (laws.positive-nonnegative running p))
          (laws.scale-nonnegative 1 2 _
            (laws.scale-nonnegative 2 1 _ (laws.per_second-nonnegative count time t)))

    elapsed_pos : (now start : ℕ) → 0 < elapsed now start
    unfolding elapsed
    elapsed_pos now start = ground arith

    new_running-IsPositive :
        (t : Throughput F) (now : ℕ) (start : Option ℕ)
        → IsPositive fl t.running_batch_size
        → IsPositive fl (new_running t now start)
    unfolding new_running
    new_running-IsPositive t now none p = p
    new_running-IsPositive t now (some start) p =
        cap_growth-IsPositive t.running_batch_size _ p
          (blend-IsNonnegative t.running_batch_size t.throughput_count _ (elapsed_pos now start) p)

    -- From a positive running size, `updateBatchSize` asks for 1 to 3000 messages, and leaves a
    -- positive running size.
    pub update_batch_size_bounds :
        (opts : Option Options) (now : ℕ) (t : Throughput F)
        → IsPositive fl t.running_batch_size
        → let r = update_batch_size opts now t in
          (0 < r.0) × (r.0 ≤ max_batch_size) × IsPositive fl r.1.running_batch_size
    unfolding update_batch_size
    update_batch_size_bounds opts now t p =
        let p' = new_running-IsPositive t now t.throughput_start p in
        let b = laws.ceil_min-bounds _ max_batch_size (omega arith) p' in
        if_cases
          (λ (r : ℕ × Throughput F).
            (0 < r.0) × (r.0 ≤ max_batch_size) × IsPositive fl r.1.running_batch_size)
          (one_at_a_time opts) _ _ (λ q. (omega arith, omega arith, p)) (λ q. (b.0, b.1, p'))

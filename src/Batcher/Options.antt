-- ===== src/Batcher/Options.antt =====
-- Options of email/batcher/batcher.go: the defaults, and the merge of two sets of options.
use blocky_cloud.Prelude.{
  ℕ, ◌≤◌, ◌≡◌, ◌↔◌, ◌⊎◌, not, ◌&&◌, ◌||◌, Option, none, some, arith, ltb, ◌==◌, if◌then◌else◌,
}

-- Go's ints, here never negative.
pub record Options : Type 0 where
  pub max_handlers : ℕ
  pub min_batch_size : ℕ
  pub max_batch_size : ℕ
  pub max_batch_byte_size : ℕ

-- The zero value of the struct.
abbrev zero_options : Options
zero_options = record {
  max_handlers = 0;
  min_batch_size = 0;
  max_batch_size = 0;
  max_batch_byte_size = 0;
}

-- `none` is a nil pointer.
abbrev options_or_zero : Option Options → Options
options_or_zero none = zero_options
options_or_zero (some o) = o

unfoldable pub new_options_with_defaults : Option Options → Options
new_options_with_defaults opts =
    let o = options_or_zero opts in
    record o {
      max_handlers = if o.max_handlers == 0 then 1 else o.max_handlers;
      min_batch_size = if o.min_batch_size == 0 then 1 else o.min_batch_size;
    }

unfoldable pub new_merged_options : Options → Options → Options
new_merged_options o opts = record {
  max_handlers =
      if not (opts.max_handlers == 0)
        && (o.max_handlers == 0 || ltb opts.max_handlers o.max_handlers)
      then opts.max_handlers
      else o.max_handlers;
  min_batch_size =
      if not (opts.min_batch_size == 0)
        && (o.min_batch_size == 0 || ltb o.min_batch_size opts.min_batch_size)
      then opts.min_batch_size
      else o.min_batch_size;
  max_batch_size =
      if not (opts.max_batch_size == 0)
        && (o.max_batch_size == 0 || ltb opts.max_batch_size o.max_batch_size)
      then opts.max_batch_size
      else o.max_batch_size;
  max_batch_byte_size =
      if not (opts.max_batch_byte_size == 0)
        && (o.max_batch_byte_size == 0 || ltb opts.max_batch_byte_size o.max_batch_byte_size)
      then opts.max_batch_byte_size
      else o.max_batch_byte_size;
}

pub defaults_positive :
    (opts : Option Options)
    → (1 ≤ (new_options_with_defaults opts).max_handlers)
      × (1 ≤ (new_options_with_defaults opts).min_batch_size)
unfolding new_options_with_defaults
defaults_positive none = ground arith
defaults_positive (some o) = ground arith

-- A limit of 0 means that there is none.
abbrev pub Within : ℕ → ℕ → Type 0
Within n limit = (limit ≡ 0) ⊎ (n ≤ limit)

-- What a batcher with these options does: so many handlers at once, on batches of such a size. A number
-- of handlers or a least size of 0 stands for its default.
pub record Allows (o : Options) (handlers size bytes : ℕ) : Type 0 where
  pub handlers_within : handlers ≤ (new_options_with_defaults (some o)).max_handlers
  pub enough : (new_options_with_defaults (some o)).min_batch_size ≤ size
  pub size_within : Within size o.max_batch_size
  pub bytes_within : Within bytes o.max_batch_byte_size

-- The same within a merge with `other`, which decides alone on the handlers where only it sets them.
pub record Agrees (o other : Options) (handlers size bytes : ℕ) : Type 0 where
  pub handlers_within :
      (handlers ≤ (new_options_with_defaults (some o)).max_handlers)
      ⊎ ((o.max_handlers ≡ 0) × (1 ≤ other.max_handlers))
  pub enough : (new_options_with_defaults (some o)).min_batch_size ≤ size
  pub size_within : Within size o.max_batch_size
  pub bytes_within : Within bytes o.max_batch_byte_size

-- With its defaults, a batcher of merged options allows a number of handlers and a batch's size and bytes
-- exactly when both of the options that were merged do; but options without `MaxHandlers`, whose
-- default is one, do not hold the handlers down where the other options set it.
pub new_merged_options_meet :
    (o opts : Options) (handlers size bytes : ℕ)
    → Allows (new_merged_options o opts) handlers size bytes
      ↔ (Agrees o opts handlers size bytes × Agrees opts o handlers size bytes)
unfolding new_merged_options new_options_with_defaults
new_merged_options_meet o opts handlers size bytes = (λ h. ground arith, λ h. ground arith)

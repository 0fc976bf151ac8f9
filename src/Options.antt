-- ===== src/Options.antt =====
-- The options of a pool, src/options.rs. A panic handler and a logger are values of the types `H`
-- and `L`, which the code only stores and passes on.
use ants.Base.{◌≡◌, refl, Bool, false, Option, none, some, List, [], ◌∷◌, ◌++◌}
use ants.Base.Int.{ℤ, pos}
use ants.Duration.{Duration, zero_duration}

-- `struct Options`.
pub record Options (H L : Type 0) : Type 0 where
  pub expiry_duration : Duration
  pub pre_alloc : Bool
  pub max_blocking_tasks : ℤ
  pub nonblocking : Bool
  pub panic_handler : Option H
  pub logger : Option L
  pub disable_purge : Bool

-- `struct Opt`: a single change.
abbrev pub Opt : Type 0 → Type 0 → Type 0
Opt H L = Options H L → Options H L

module _ {H L : Type 0} where
  -- `Options::default()`.
  abbrev pub default_options : Options H L
  default_options = record {
    expiry_duration = zero_duration;
    pre_alloc = false;
    max_blocking_tasks = pos 0;
    nonblocking = false;
    panic_handler = none;
    logger = none;
    disable_purge = false;
  }

  apply_all : Options H L → List (Opt H L) → Options H L
  apply_all opts [] = opts
  apply_all opts (o ∷ os) = apply_all (o opts) os

  unfoldable pub load_options : List (Opt H L) → Options H L
  unfolding apply_all
  load_options os = apply_all default_options os

  -- `Options::logger`, with the package's default.
  unfoldable pub logger_or : L → Options H L → L
  logger_or default o = elim o.logger [ none ↦ default | some l ↦ l ]

  abbrev pub with_options : Options H L → Opt H L
  with_options options = λ opts. options

  abbrev pub with_expiry_duration : Duration → Opt H L
  with_expiry_duration d = λ opts. record opts { expiry_duration = d }

  abbrev pub with_pre_alloc : Bool → Opt H L
  with_pre_alloc b = λ opts. record opts { pre_alloc = b }

  abbrev pub with_max_blocking_tasks : ℤ → Opt H L
  with_max_blocking_tasks n = λ opts. record opts { max_blocking_tasks = n }

  abbrev pub with_nonblocking : Bool → Opt H L
  with_nonblocking b = λ opts. record opts { nonblocking = b }

  abbrev pub with_panic_handler : H → Opt H L
  with_panic_handler h = λ opts. record opts { panic_handler = some h }

  abbrev pub with_logger : L → Opt H L
  with_logger l = λ opts. record opts { logger = some l }

  abbrev pub with_disable_purge : Bool → Opt H L
  with_disable_purge b = λ opts. record opts { disable_purge = b }

  apply_all-append :
      (opts : Options H L) (xs ys : List (Opt H L))
      → apply_all opts (xs ++ ys) ≡ apply_all (apply_all opts xs) ys
  unfolding apply_all
  apply_all-append opts [] ys = refl
  apply_all-append opts (x ∷ xs) ys = apply_all-append (x opts) xs ys

  -- The options are applied from left to right: the last has the last word, and one that sets the
  -- whole configuration discards all before it.
  pub load_options-append :
      (before after : List (Opt H L)) (o : Opt H L) (whole : Options H L)
      → (load_options (before ++ (o ∷ [])) ≡ o (load_options before))
        × (load_options (before ++ (with_options whole ∷ after))
            ≡ load_options (with_options whole ∷ after))
  unfolding load_options apply_all
  load_options-append before after o whole = (
    apply_all-append default_options before (o ∷ []),
    apply_all-append default_options before (with_options whole ∷ after),
  )

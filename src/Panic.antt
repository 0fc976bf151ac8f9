-- ===== src/Panic.antt =====
-- What becomes of a panic of a task: `call`, the epilogue's report, `install_panic_hook` and
-- `describe` of src/worker.rs. Whether a hook prints is a test of whether the thread is in a task;
-- the text of a backtrace is an argument.
use ants.Base.{◌≡◌, refl, Bool, true, false, Option, none, some, ◌++◌, if◌then◌else◌}
use ants.Error.{Text, codes}
use ants.PoolCore.Workers.{Outcome, stopped, ran, panicked}

-- The payload of a panic, by what it can be taken for.
pub data PanicPayload : Type 0 where
  static_str : Text → PanicPayload
  string : Text → PanicPayload
  other_payload : PanicPayload

pub describe : PanicPayload → Text
describe (static_str message) = message
describe (string message) = message
describe other_payload = codes "unknown panic payload"

-- A panic goes to the handler, or a line to the logger.
pub data Report (H : Type 0) : Type 0 where
  handled : H → PanicPayload → Report H
  printed : Text → Report H

unfoldable pub report : {H : Type 0} → Option H → Text → PanicPayload → Report H
unfolding describe
report handler backtrace payload = elim handler [
  | some h ↦ handled h payload
  | none ↦ printed (
      codes "worker exits from panic: "
      ++ (describe payload ++ (codes "\n" ++ (backtrace ++ codes "\n"))))
]

-- The process: whether `PANIC_HOOK` has been called, and the hook.
pub record Process : Type 0 where
  pub installed : Bool
  pub prints : Bool → Bool

unfoldable pub install_panic_hook : Process → Process
install_panic_hook p = if p.installed then p else record {
  installed = true;
  prints = λ in_task. if in_task then false else p.prints in_task;
}

-- A worker's thread after a call: what the payload came to, whether the hook has printed, and
-- `IN_TASK`.
pub record Called : Type 0 where
  pub outcome : Outcome
  pub noise : Bool
  pub in_task : Bool

-- `outcome` is what the payload comes to; the hook runs while `IN_TASK` is set.
pub call : Process → Outcome → Called
call p panicked = record { outcome = panicked; noise = p.prints true; in_task = false }
call p ran = record { outcome = ran; noise = false; in_task = false }
call p stopped = record { outcome = stopped; noise = false; in_task = false }

-- Once the hook is installed for the first time: a payload never makes the process print, whatever
-- it comes to; a panic outside the tasks prints as it did before; and to install the hook again
-- changes nothing.
pub install_panic_hook-quiet :
    (p : Process) (outcome : Outcome)
    → p.installed ≡ false
    → ((call (install_panic_hook p) outcome).noise ≡ false)
      × ((install_panic_hook p).prints false ≡ p.prints false)
      × (install_panic_hook (install_panic_hook p) ≡ install_panic_hook p)
unfolding call install_panic_hook
install_panic_hook-quiet p panicked fresh = rw fresh (refl, refl, refl)
install_panic_hook-quiet p ran fresh = rw fresh (refl, refl, refl)
install_panic_hook-quiet p stopped fresh = rw fresh (refl, refl, refl)

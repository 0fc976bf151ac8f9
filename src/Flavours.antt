-- ===== src/Flavours.antt =====
-- What the three flavours of a pool have to do with each other: src/pool.rs, src/pool_func.rs and
-- src/pool_func_generic.rs differ in their payloads, and in what a worker makes of a payload.
pub mod Relabel
pub mod Threads
pub mod Calls
use mathlib.Core.Option
use ants.Base.{
  sym, inl, inr, Bool-cases, Option-cases, ℕ, ◌≡◌, refl, ap, ◌∙◌, Bool, Option, none, some, List,
  [], ◌∷◌, map,
}
use ants.WorkerQueue.{BoxedQueue}
use ants.WorkerQueue.Laws.{boxed_queue}
use ants.PoolCore.{PoolCore}
use ants.PoolCore.Workers.{Outcome, try_submit}
use ants.PoolCore.Lifecycle.{tune, release, reboot}
use ants.PoolCore.{is_closed}
use ants.PoolCore.Workers as Workers
use ants.Pool as Pool
use ants.PoolFunc as PoolFunc
use ants.PoolFuncGeneric as PoolFuncGeneric
use ants.Pool.{Pool, run_task, Task}
use ants.PoolFunc.{PoolWithFunc, run_arg, AnyArg, arg}
use ants.PoolFuncGeneric.{PoolWithFuncGeneric, run_generic}
use ants.Flavours.Relabel.{relabel}
use ants.Flavours.Calls.{
  Call, Reply, submits, resumes, works, tunes, releases, reboots, ticks, purges, submitted, done,
  stuck, relabel_call, relabel_reply, perform, perform_all, perform_all-relabel,
}

-- Calls in order, on a pool as its users see it.
unfoldable pub calls_all :
    {T P : Type 0} → (Call T → P → Reply T × P) → List (Call T) → P → List (Reply T) × P
calls_all call [] p = ([], p)
calls_all call (c ∷ cs) p =
    let (r, p') = call c p in let (rs, end) = calls_all call cs p' in (r ∷ rs, end)

-- A reboot ends, or waits.
abbrev pub tried : {T P : Type 0} → P → Option P → Reply T × P
tried p none = (stuck, p)
tried p (some p') = (done, p')

module _ {H L : Type 0} where
  -- What each flavour makes of a call. Its users submit, tune, release and reboot; the rest is done
  -- by the threads of its core.
  pub call_task :
      {B : Type 0} → (B → Bool) → Call (Task B) → Pool H L B → Reply (Task B) × Pool H L B
  call_task completes (submits t) p = let (s, p') = Pool.try_submit t p in (submitted s, p')
  call_task completes (tunes size) p = (done, Pool.tune size p)
  call_task completes releases p = (done, Pool.release p)
  call_task completes (reboots now) p = tried p (Pool.reboot now p)
  call_task completes (resumes t) p =
      let (r, core) = perform boxed_queue (run_task completes) (resumes t) p.core in
      (r, record { core = core })
  call_task completes (works w m) p =
      let (r, core) = perform boxed_queue (run_task completes) (works w m) p.core in
      (r, record { core = core })
  call_task completes (ticks fired clock) p =
      let (r, core) = perform boxed_queue (run_task completes) (ticks fired clock) p.core in
      (r, record { core = core })
  call_task completes (purges fired clock) p =
      let (r, core) = perform boxed_queue (run_task completes) (purges fired clock) p.core in
      (r, record { core = core })

  pub call_func :
      {F A : Type 0}
      → (F → A → Bool)
      → Call (AnyArg A)
      → PoolWithFunc H L F A
      → Reply (AnyArg A) × PoolWithFunc H L F A
  call_func completes (submits t) p = let (s, p') = PoolFunc.try_invoke t p in (submitted s, p')
  call_func completes (tunes size) p = (done, PoolFunc.tune size p)
  call_func completes releases p = (done, PoolFunc.release p)
  call_func completes (reboots now) p = tried p (PoolFunc.reboot now p)
  call_func completes (resumes t) p =
      let (r, core) = perform boxed_queue (run_arg completes p.pf) (resumes t) p.core in
      (r, record p { core = core })
  call_func completes (works w m) p =
      let (r, core) = perform boxed_queue (run_arg completes p.pf) (works w m) p.core in
      (r, record p { core = core })
  call_func completes (ticks fired clock) p =
      let (r, core) = perform boxed_queue (run_arg completes p.pf) (ticks fired clock) p.core in
      (r, record p { core = core })
  call_func completes (purges fired clock) p =
      let (r, core) = perform boxed_queue (run_arg completes p.pf) (purges fired clock) p.core in
      (r, record p { core = core })

  pub call_generic :
      {F A : Type 0}
      → (F → A → Bool)
      → Call A
      → PoolWithFuncGeneric H L F A
      → Reply A × PoolWithFuncGeneric H L F A
  call_generic completes (submits t) p =
      let (s, p') = PoolFuncGeneric.try_invoke t p in (submitted s, p')
  call_generic completes (tunes size) p = (done, PoolFuncGeneric.tune size p)
  call_generic completes releases p = (done, PoolFuncGeneric.release p)
  call_generic completes (reboots now) p = tried p (PoolFuncGeneric.reboot now p)
  call_generic completes (resumes t) p =
      let (r, core) = perform boxed_queue (run_generic completes p.pf) (resumes t) p.core in
      (r, record p { core = core })
  call_generic completes (works w m) p =
      let (r, core) = perform boxed_queue (run_generic completes p.pf) (works w m) p.core in
      (r, record p { core = core })
  call_generic completes (ticks fired clock) p =
      let (r, core) = perform boxed_queue (run_generic completes p.pf) (ticks fired clock) p.core in
      (r, record p { core = core })
  call_generic completes (purges fired clock) p =
      let (r, core) =
        perform boxed_queue (run_generic completes p.pf) (purges fired clock) p.core in
      (r, record p { core = core })

  call_task-core :
      {B : Type 0} (completes : B → Bool) (c : Call (Task B))
      (core : PoolCore (BoxedQueue ℕ) H L (Task B))
      → let (r, core') = perform boxed_queue (run_task completes) c core in
        call_task completes c (record { core = core }) ≡ (r, record { core = core' })
  unfolding call_task perform Pool.try_submit Workers.try_submit
  call_task-core completes (submits t) core = elim (Bool-cases (is_closed core)) [
    | inl shut ↦ rw shut refl
    | inr live ↦ rw live refl
  ]
  call_task-core completes (tunes size) core = refl
  call_task-core completes releases core = refl
  call_task-core completes (reboots now) core = elim (Option-cases (reboot now core)) [
    | inl waits ↦ rw (waits, call_task, Pool.reboot) refl
    | inr (core', ends) ↦ rw (ends, call_task, Pool.reboot) refl
  ]
  call_task-core completes (resumes t) core = refl
  call_task-core completes (works w m) core = refl
  call_task-core completes (ticks fired clock) core = refl
  call_task-core completes (purges fired clock) core = refl

  call_func-core :
      {F A : Type 0} (completes : F → A → Bool) (pf : F) (c : Call (AnyArg A))
      (core : PoolCore (BoxedQueue ℕ) H L (AnyArg A))
      → let (r, core') = perform boxed_queue (run_arg completes pf) c core in
        call_func completes c (record { core = core; pf = pf })
        ≡ (r, record { core = core'; pf = pf })
  unfolding call_func perform PoolFunc.try_invoke Workers.try_submit
  call_func-core completes pf (submits t) core = elim (Bool-cases (is_closed core)) [
    | inl shut ↦ rw shut refl
    | inr live ↦ rw live refl
  ]
  call_func-core completes pf (tunes size) core = refl
  call_func-core completes pf releases core = refl
  call_func-core completes pf (reboots now) core = elim (Option-cases (reboot now core)) [
    | inl waits ↦ rw (waits, call_func, PoolFunc.reboot) refl
    | inr (core', ends) ↦ rw (ends, call_func, PoolFunc.reboot) refl
  ]
  call_func-core completes pf (resumes t) core = refl
  call_func-core completes pf (works w m) core = refl
  call_func-core completes pf (ticks fired clock) core = refl
  call_func-core completes pf (purges fired clock) core = refl

  call_generic-core :
      {F A : Type 0} (completes : F → A → Bool) (pf : F) (c : Call A)
      (core : PoolCore (BoxedQueue ℕ) H L A)
      → let (r, core') = perform boxed_queue (run_generic completes pf) c core in
        call_generic completes c (record { core = core; pf = pf })
        ≡ (r, record { core = core'; pf = pf })
  unfolding call_generic perform PoolFuncGeneric.try_invoke Workers.try_submit
  call_generic-core completes pf (submits t) core = elim (Bool-cases (is_closed core)) [
    | inl shut ↦ rw shut refl
    | inr live ↦ rw live refl
  ]
  call_generic-core completes pf (tunes size) core = refl
  call_generic-core completes pf releases core = refl
  call_generic-core completes pf (reboots now) core = elim (Option-cases (reboot now core)) [
    | inl waits ↦ rw (waits, call_generic, PoolFuncGeneric.reboot) refl
    | inr (core', ends) ↦ rw (ends, call_generic, PoolFuncGeneric.reboot) refl
  ]
  call_generic-core completes pf (resumes t) core = refl
  call_generic-core completes pf (works w m) core = refl
  call_generic-core completes pf (ticks fired clock) core = refl
  call_generic-core completes pf (purges fired clock) core = refl

module _ {H L T P : Type 0} (call : Call T → P → Reply T × P) (runs : T → Outcome)
    (put : PoolCore (BoxedQueue ℕ) H L T → P)
    (one : (c : Call T) (core : PoolCore (BoxedQueue ℕ) H L T)
      → call c (put core)
        ≡ ((perform boxed_queue runs c core).0, put (perform boxed_queue runs c core).1)) where
  calls_all-core :
      (cs : List (Call T)) (core : PoolCore (BoxedQueue ℕ) H L T)
      → calls_all call cs (put core)
        ≡ ((perform_all boxed_queue runs cs core).0, put (perform_all boxed_queue runs cs core).1)
  unfolding calls_all perform_all
  calls_all-core [] core = refl
  calls_all-core (c ∷ cs) core =
      let (r, core') = perform boxed_queue runs c core in
      ap (λ x. let e = calls_all call cs x.1 in (x.0 ∷ e.0, e.1)) (one c core)
      ∙ ap (λ e. (r ∷ e.0, e.1)) (calls_all-core cs core')

-- An argument of the function `pf`, as a task that calls it.
abbrev pub as_task : {F A : Type 0} → F → AnyArg A → Task (F × A)
as_task pf none = none
as_task pf (some value) = some (pf, value)

-- Whether that task returns.
abbrev pub calls_function : {F A : Type 0} → (F → A → Bool) → F × A → Bool
calls_function completes body = completes body.0 body.1

-- The pool of tasks for a pool of a function.
abbrev pub as_pool : {H L F A : Type 0} → F → PoolWithFunc H L F A → Pool H L (F × A)
as_pool pf p = record { core = relabel (as_task pf) p.core }

-- A `PoolWithFunc` is a `Pool` of the tasks that call its function: whatever calls are made, in
-- whatever order, a `Pool` that gets such a task for each argument gives the same answers and ends
-- in the same state, with those tasks for the arguments.
pub func_is_pool :
    {H L F A : Type 0} (completes : F → A → Bool) (p : PoolWithFunc H L F A)
    (calls : List (Call (AnyArg A)))
    → let g = as_task p.pf in
      let (replies, end) = calls_all (call_func completes) calls p in
      calls_all (call_task (calls_function completes)) (map (relabel_call g) calls) (as_pool p.pf p)
      ≡ (map (relabel_reply g) replies, as_pool p.pf end)
unfolding run_task run_arg
func_is_pool {H} {L} {F} {A} completes p calls =
    let g = as_task p.pf in
    calls_all-core (call_task (calls_function completes)) (run_task (calls_function completes))
      (λ core. record { core = core }) (call_task-core (calls_function completes))
      (map (relabel_call g) calls) (relabel g p.core)
    ∙ ap (λ e. (e.0, record { core = e.1 }))
        (perform_all-relabel boxed_queue g (run_arg completes p.pf)
          (run_task (calls_function completes)) same calls p.core)
    ∙ sym (
        ap (λ e. (map (relabel_reply g) e.0, as_pool p.pf e.1))
          (calls_all-core (call_func completes) (run_arg completes p.pf)
            (λ core. record { core = core; pf = p.pf }) (call_func-core completes p.pf) calls
            p.core))
  where
    same :
        (t : AnyArg A)
        → run_task (calls_function completes) (as_task p.pf t) ≡ run_arg completes p.pf t
    same none = refl
    same (some value) = refl

-- The pool that takes any argument for one that takes arguments of its type.
abbrev pub as_func : {H L F A : Type 0} → PoolWithFuncGeneric H L F A → PoolWithFunc H L F A
as_func p = record { core = relabel arg p.core; pf = p.pf }

-- A `PoolWithFuncGeneric` is a `PoolWithFunc` that never gets nil: whatever calls are made, in
-- whatever order, a `PoolWithFunc` of the same function gives the same answers and ends in the
-- same state, with each argument wrapped by `arg`.
pub generic_is_func :
    {H L F A : Type 0} (completes : F → A → Bool) (p : PoolWithFuncGeneric H L F A)
    (calls : List (Call A))
    → let (replies, end) = calls_all (call_generic completes) calls p in
      calls_all (call_func completes) (map (relabel_call arg) calls) (as_func p)
      ≡ (map (relabel_reply arg) replies, as_func end)
unfolding run_generic run_arg
generic_is_func {H} {L} {F} {A} completes p calls =
    calls_all-core (call_func completes) (run_arg completes p.pf)
      (λ core. record { core = core; pf = p.pf }) (call_func-core completes p.pf)
      (map (relabel_call arg) calls) (relabel arg p.core)
    ∙ ap (λ e. (e.0, record { core = e.1; pf = p.pf }))
        (perform_all-relabel boxed_queue arg (run_generic completes p.pf) (run_arg completes p.pf)
          same calls p.core)
    ∙ sym (
        ap (λ e. (map (relabel_reply arg) e.0, as_func e.1))
          (calls_all-core (call_generic completes) (run_generic completes p.pf)
            (λ core. record { core = core; pf = p.pf }) (call_generic-core completes p.pf) calls
            p.core))
  where
    same : (t : A) → run_arg completes p.pf (arg t) ≡ run_generic completes p.pf t
    same t = refl

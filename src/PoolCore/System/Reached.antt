-- ===== src/PoolCore/System/Reached.antt =====
-- What can be relied on in a pool, whatever the threads around it have done before.
use ants.Base.{
  Bool, some, ◌<◌, ℕ, ◌+◌, ◌≤◌, ◌≡◌, refl, ap, ◌∙◌, subst, true, List, [], ◌∷◌, ◌++◌, arith, length,
  length-map,
}
use ants.Base.Count.{times, times-append, total}
use ants.Base.Int.{ℤ, pos}
use ants.WorkerQueue.{WorkerQueue}
use ants.PoolCore.{PoolCore, opened, closed}
use ants.PoolCore.Counted.{Counted}
use ants.PoolCore.Places.{Placed}
use ants.PoolCore.Blocked.{Blocked}
use ants.PoolCore.System.{
  System, Stage, granted, told, stale, working, reverting, reinserting, leaving, alone, mail, Reach,
}
use ants.PoolCore.Background.{purge_scan, is_dormant}
use ants.PoolCore.Effects.Lifecycle.{purge_scan-total}
use mathlib.Core.List.{Perm}
use ants.Base.Word.{i32_half}
use ants.PoolCore.System.Workers.{workers_of}
use ants.PoolCore.System.Invariant.{Valid, threads_of, last_weight}
use ants.PoolCore.System.Valid.{Reach-Valid}
use ants.PoolCore.System.Emptied.{Reach-emptied}
use ants.PoolCore.System.Mail.{told_in, Reach-Mail}
use ants.PoolCore.System.Tasks.{Tasks, keeps-Tasks}

-- A worker with a message in its channel is outside the queue.
told-out :
    {T : Type 0} (out : List (ℕ × Stage T)) (w : ℕ)
    → total (told_in w) out ≤ times w (workers_of out)
told-out [] w = omega arith
told-out ((v, told) ∷ out) w = omega (arith, told-out out w)
told-out ((v, granted t) ∷ out) w = omega (arith, told-out out w)
told-out ((v, stale) ∷ out) w = omega (arith, told-out out w)
told-out ((v, working t) ∷ out) w = omega (arith, told-out out w)
told-out ((v, reverting) ∷ out) w = omega (arith, told-out out w)
told-out ((v, reinserting) ∷ out) w = omega (arith, told-out out w)
told-out ((v, leaving) ∷ out) w = omega (arith, told-out out w)

module _ (wq : WorkerQueue ℕ) (bound : ℕ) {H L T : Type 0} where
  -- From a pool that satisfies the invariants with nobody around it, every reachable state has the
  -- right count: `running` is the number of workers idle in the queue together with those out of it
  -- whose threads have not begun to end, at most `bound`.
  pub Reach-Counted :
      {p : PoolCore wq.Queue H L T} {s : System wq.Queue H L T}
      → Valid wq bound (alone p)
      → Reach wq bound (alone p) s
      → Counted wq bound s.pool (length s.out)
  Reach-Counted {p} {s} v r =
      let v' = Reach-Valid wq bound v r in
      subst (Counted wq bound s.pool) (length-map s.out (λ x. x.0)) v'.counted

  -- From a pool that satisfies the invariants with nobody around it, in every reachable state each
  -- worker made so far stands exactly once among the idle workers of the queue, the workers outside
  -- it, those whose threads end and the recycled ones, and no other number stands there.
  pub Reach-Placed :
      {p : PoolCore wq.Queue H L T} {s : System wq.Queue H L T}
      → Valid wq bound (alone p)
      → Reach wq bound (alone p) s
      → Placed wq s.pool (workers_of s.out ++ threads_of s.ending)
  Reach-Placed v r = let v' = Reach-Valid wq bound v r in v'.placed

  -- From a pool that satisfies the invariants with nobody around it, in every reachable state
  -- `waiting` is the number of submitters that wait or have been woken and have not gone on, modulo
  -- the wrap-around of an `i32`; the condition variable counts those that wait, and has at most
  -- that many tokens out.
  pub Reach-Blocked :
      {p : PoolCore wq.Queue H L T} {s : System wq.Queue H L T}
      → Valid wq bound (alone p)
      → Reach wq bound (alone p) s
      → Blocked s.pool (length s.asleep) (length s.awake)
  Reach-Blocked v r = let v' = Reach-Valid wq bound v r in v'.blocked

  -- From an open pool that satisfies the invariants with nobody around it, in every reachable state
  -- where the pool is closed, no release is on its way, no worker is outside the queue and no
  -- worker's thread is at its end, the latch that a release waits for is closed, unless some reboot
  -- has put a new latch into a pool that a release had closed again.
  pub Reach-latched :
      {p : PoolCore wq.Queue H L T} {s : System wq.Queue H L T}
      → Valid wq bound (alone p)
      → p.state ≡ opened
      → Reach wq bound (alone p) s
      → s.pool.state ≡ closed
      → s.closing ≡ 0
      → s.emptied ≡ 0
      → s.overtaken ≡ 0
      → s.out ≡ []
      → s.ending ≡ []
      → s.pool.all_done.closed ≡ true
  Reach-latched {p} {s} v live r shut none_begun none_emptied never gone ended =
      let v' = Reach-Valid wq bound v r in
      let c = v'.counted in
      let empty = Reach-emptied wq bound v live r shut none_begun in
      let none_idle = wq.len_law s.pool.workers c.idle c.holds in
      let none_left = wq.len_law s.pool.workers [] empty in
      let l = v'.latch in
      l.latched shut
        (c.count
          ∙ ap pos (omega (arith, none_idle, none_left, ap (λ o. length (workers_of o)) gone)))
        (omega (arith, none_begun, none_emptied, never, ap (total last_weight) ended))

  -- From a pool that satisfies the invariants with nobody around it, in every reachable state each
  -- worker has at most one message in its channel, and a worker that is idle in the queue or
  -- recycled has none.
  pub Reach-mail :
      {p : PoolCore wq.Queue H L T} {s : System wq.Queue H L T}
      → Valid wq bound (alone p)
      → Reach wq bound (alone p) s
      → (idle : List ℕ) × wq.Idle s.pool.workers idle
        × ((w : ℕ) → mail w s.inbox + times w idle + times w s.pool.worker_cache ≤ 1)
  Reach-mail {p} {s} v r =
      let v' = Reach-Valid wq bound v r in
      let placed = v'.placed in
      let told_once = Reach-Mail wq bound {s = alone p} (λ x. refl) r in
      (
        placed.idle,
        placed.holds,
        λ w. ground (
          arith,
          told_once w,
          told-out s.out w,
          placed.once w,
          times-append (workers_of s.out) (threads_of s.ending) w,
        ),
      )

  -- From any pool with nobody around it, in every reachable state, and under any weight of
  -- payloads: the weight of all that has been submitted is the weight of what is with the holder of
  -- the lock, with the submitters that wait or were woken, with the workers outside the queue and
  -- in their channels, together with what was refused and what was done.
  pub Reach-Tasks :
      {p : PoolCore wq.Queue H L T} {s : System wq.Queue H L T} (weight : T → ℕ)
      → Reach wq bound (alone p) s
      → Tasks weight s
  Reach-Tasks {p} weight r = keeps-Tasks wq bound weight {s = alone p} refl r

  -- From a pool that satisfies the invariants with nobody around it, in every reachable state, and
  -- whatever the clock says, the purging thread does not panic under the lock. It changes the queue
  -- only, and loses and doubles no worker: those that it takes out and those that stay are together
  -- those that were idle.
  pub Reach-purges :
      {p : PoolCore wq.Queue H L T} {s : System wq.Queue H L T} (clock : ℤ)
      → Valid wq bound (alone p)
      → Reach wq bound (alone p) s
      → (idle gone left : List ℕ) × (dormant : Bool) × (p' : PoolCore wq.Queue H L T) × wq.Idle
          s.pool.workers idle
        × (purge_scan wq clock s.pool ≡ some ((gone, dormant), p'))
        × (p' ≡ record s.pool { workers = p'.workers })
        × wq.Idle p'.workers left
        × Perm (gone ++ left) idle
  Reach-purges {p} {s} clock v r =
      let v' = Reach-Valid wq bound v r in
      let n = v'.counted in
      let below : length n.idle < i32_half = omega (arith, n.limit, n.small) in
      let placed = v'.placed in
      let fits = wq.small_fits s.pool.workers n.idle n.holds placed.small below in
      let (gone, left, q, eq, rest, perm, run) =
        purge_scan-total wq clock s.pool n.idle n.holds fits in
      (
        n.idle,
        gone,
        left,
        is_dormant s.pool gone,
        record s.pool { workers = q },
        n.holds,
        eq,
        refl,
        rest,
        perm,
      )

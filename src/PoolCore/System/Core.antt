-- ===== src/PoolCore/System/Core.antt =====
-- What holds of a pool among its threads, whatever the submissions are, and how a submitter's steps
-- through `retrieve_worker` of src/pool_common.rs keep it.
use ants.Base.{
  ◌++◌, ℕ, suc, ◌+◌, ◌≤◌, ◌≡◌, refl, sym, ap, ◌∙◌, subst, ◌≢◌, inl, true, none, some, List, ◌∷◌,
  arith, length,
}
use ants.Base.Int.{ℤ, pos, negsuc, ltb_ℤ}
use ants.Cond.{Waiters, try_leave}
use ants.Error.{Error}
use ants.WorkerQueue.{WorkerQueue}
use ants.PoolCore.{PoolCore, cap, add_waiting}
use ants.PoolCore.Workers.{failed, blocked, look, spawn_worker, has_room, wait_or_fail}
use ants.PoolCore.Effects.{look-found, wait_or_fail-failed, wait_or_fail-blocked}
use ants.PoolCore.Counted.{
  Counted, same-Counted, spawn-Counted, look_found-Counted, look_empty-Counted,
}
use ants.PoolCore.Places.{Placed, moved, spawn-Placed, look_found-Placed, look_empty-Placed}
use ants.PoolCore.Blocked.{
  Blocked, Woken-Blocked, wake-Blocked, parked-Blocked, resumed-Blocked, spawn-Blocked,
}
use ants.PoolCore.Latch.{Latch, same-Latch, spawn-Latch}
use ants.PoolCore.System.{Held, free, starting, searched, comparing, spawning, full}

-- Nothing is known of the count where the lock is held so.
abbrev pub Plain : {T : Type 0} → Held T → Type 0
Plain {T} h = ((t : T) (c : ℤ) → h ≢ comparing t c) × ((t : T) → h ≢ spawning t)

module _ {T : Type 0} where
  pub free-Plain : Plain {T = T} free
  free-Plain = (λ t c eq. cc eq, λ t eq. cc eq)

  pub starting-Plain : (t : T) → Plain (starting t)
  starting-Plain t = (λ u c eq. cc eq, λ u eq. cc eq)

  pub full-Plain : (t : T) → Plain (full t)
  full-Plain t = (λ u c eq. cc eq, λ u eq. cc eq)

module _ (wq : WorkerQueue ℕ) (bound : ℕ) {H L T : Type 0} where
  -- The pool `p`, with the lock held as `h`, the counted workers `out` outside the queue, those of
  -- threads that end, and so many submitters, and releases and last workers, on their way. What the
  -- holder of the lock has found out about the capacity stays true until it lets go.
  pub record Core (p : PoolCore wq.Queue H L T) (h : Held T) (out gone : List ℕ)
      (asleep awake pending : ℕ) : Type 0 where
    pub counted : Counted wq bound p (length out)
    pub read : (t : T) (c : ℤ) → h ≡ comparing t c → (k : ℕ) × (c ≡ pos k) × (k ≤ bound)
    pub room : (t : T) → h ≡ spawning t → ltb_ℤ p.running (pos bound) ≡ true
    pub placed : Placed wq p (out ++ gone)
    pub blocked : Blocked p asleep awake
    pub latch : Latch p pending

  pub relock :
      {p : PoolCore wq.Queue H L T} {h h' : Held T} {out gone : List ℕ} {asleep awake pending : ℕ}
      → Plain h'
      → Core p h out gone asleep awake pending
      → Core p h' out gone asleep awake pending
  relock plain v = record {
    counted = v.counted;
    read = λ t c eq. absurd (plain.0 t c eq);
    room = λ t eq. absurd (plain.1 t eq);
    placed = v.placed;
    blocked = v.blocked;
    latch = v.latch;
  }

  pub read-Core :
      {p : PoolCore wq.Queue H L T} {h : Held T} {out gone : List ℕ} {asleep awake pending : ℕ}
      (t : T)
      → Core p h out gone asleep awake pending
      → Core p (comparing t (cap p)) out gone asleep awake pending
  read-Core t v =
      let n = v.counted in
      record {
        counted = n;
        read = λ u c eq. (suc n.room, cc (eq, n.capped), n.within);
        room = λ u eq. absurd (cc eq);
        placed = v.placed;
        blocked = v.blocked;
        latch = v.latch;
      }

  -- A capacity that was read before is below the bound, and so is a count below it.
  below_bound :
      (p : PoolCore wq.Queue H L T) (c : ℤ) (k : ℕ)
      → c ≡ pos k
      → k ≤ bound
      → has_room wq c p ≡ true
      → ltb_ℤ p.running (pos bound) ≡ true
  below_bound p c k is_k fits room =
      let room' : has_room wq (pos k) p ≡ true = ap (λ x. has_room wq x p) (sym is_k) ∙ room in
      ground arith

  pub room-Core :
      {p : PoolCore wq.Queue H L T} {out gone : List ℕ} {asleep awake pending : ℕ} (t : T) (c : ℤ)
      → has_room wq c p ≡ true
      → Core p (comparing t c) out gone asleep awake pending
      → Core p (spawning t) out gone asleep awake pending
  room-Core {p} t c room v =
      let (k, is_k, fits) = v.read t c refl in
      record {
        counted = v.counted;
        read = λ u d eq. absurd (cc eq);
        room = λ u eq. below_bound p c k is_k fits room;
        placed = v.placed;
        blocked = v.blocked;
        latch = v.latch;
      }

  pub take-Core :
      {p p' : PoolCore wq.Queue H L T} {h : Held T} {out gone : List ℕ} {asleep awake pending : ℕ}
      (w : ℕ)
      → look wq p ≡ (some w, p')
      → Core p h out gone asleep awake pending
      → Core p' free (w ∷ out) gone asleep awake pending
  take-Core {p} {p'} w eq v =
      let (found, same) = look-found wq eq in
      record {
        counted = look_found-Counted wq bound v.counted eq;
        read = λ t c e. absurd (cc e);
        room = λ t e. absurd (cc e);
        placed = look_found-Placed wq v.placed eq;
        blocked = Woken-Blocked (ap (λ x. x.waiting) same) (inl (ap (λ x. x.cond) same)) v.blocked;
        latch =
            same-Latch (ap (λ x. x.state) same) (ap (λ x. x.running) same)
              (ap (λ x. x.all_done) same) v.latch;
      }

  pub empty-Core :
      {p p' : PoolCore wq.Queue H L T} {h : Held T} {out gone : List ℕ} {asleep awake pending : ℕ}
      (t : T)
      → look wq p ≡ (none, p')
      → Core p h out gone asleep awake pending
      → Core p' (searched t) out gone asleep awake pending
  empty-Core {p} {p'} t eq v =
      let (found, same) = look-found wq eq in
      record {
        counted = look_empty-Counted wq bound v.counted eq;
        read = λ t c e. absurd (cc e);
        room = λ t e. absurd (cc e);
        placed = look_empty-Placed wq v.placed eq;
        blocked = Woken-Blocked (ap (λ x. x.waiting) same) (inl (ap (λ x. x.cond) same)) v.blocked;
        latch =
            same-Latch (ap (λ x. x.state) same) (ap (λ x. x.running) same)
              (ap (λ x. x.all_done) same) v.latch;
      }

  pub spawn-Core :
      {p : PoolCore wq.Queue H L T} {out gone : List ℕ} {asleep awake pending : ℕ} (t : T)
      → Core p (spawning t) out gone asleep awake pending
      → Core (spawn_worker wq p).1 free ((spawn_worker wq p).0 ∷ out) gone asleep awake pending
  spawn-Core {p} {out} t v =
      let counted = spawn-Counted wq bound v.counted (v.room t refl) in
      record {
        counted = counted;
        read = λ t c e. absurd (cc e);
        room = λ t e. absurd (cc e);
        placed = spawn-Placed wq v.placed;
        blocked = spawn-Blocked wq v.blocked;
        latch =
            spawn-Latch wq (length counted.idle + length out) (counted.count ∙ ap pos (omega arith))
              v.latch;
      }

  pub fail-Core :
      {p p' : PoolCore wq.Queue H L T} {h : Held T} {e : Error} {out gone : List ℕ}
      {asleep awake pending : ℕ}
      → wait_or_fail wq p ≡ (failed e, p')
      → Core p h out gone asleep awake pending
      → Core p' free out gone asleep awake pending
  fail-Core {p} {p'} {out = out} {gone} {asleep} {awake} {pending} eq v =
      subst (λ x. Core x free out gone asleep awake pending) (sym (wait_or_fail-failed wq p eq).0)
        (relock free-Plain v)

  pub park-Core :
      {p p' : PoolCore wq.Queue H L T} {h : Held T} {out gone : List ℕ} {asleep awake pending : ℕ}
      (g : ℕ)
      → wait_or_fail wq p ≡ (blocked g, p')
      → Core p h out gone asleep awake pending
      → Core p' free out gone (suc asleep) awake pending
  unfolding add_waiting
  park-Core {p} {p'} {h} {out} {gone} {asleep} {awake} {pending} g eq v =
      subst (λ x. Core x free out gone (suc asleep) awake pending)
        (sym (wait_or_fail-blocked wq p eq).0)
        (record {
          counted = same-Counted wq bound refl refl refl v.counted;
          read = λ t c e. absurd (cc e);
          room = λ t e. absurd (cc e);
          placed = moved wq v.placed.idle v.placed v.placed.holds v.placed.small refl (λ x. refl);
          blocked = parked-Blocked v.blocked;
          latch = same-Latch refl refl refl v.latch;
        })

  pub wake-Core :
      {p : PoolCore wq.Queue H L T} {h : Held T} {out gone : List ℕ} {asleep awake pending : ℕ}
      (g : ℕ) (c : Waiters)
      → try_leave g p.cond ≡ some c
      → Core p h out gone (suc asleep) awake pending
      → Core (record p { cond = c }) h out gone asleep (suc awake) pending
  wake-Core {p} g c leaves v = record {
    counted = same-Counted wq bound refl refl refl v.counted;
    read = v.read;
    room = v.room;
    placed = moved wq v.placed.idle v.placed v.placed.holds v.placed.small refl (λ x. refl);
    blocked = wake-Blocked g c leaves v.blocked;
    latch = same-Latch refl refl refl v.latch;
  }

  pub resume-Core :
      {p : PoolCore wq.Queue H L T} {h : Held T} {out gone : List ℕ} {asleep awake pending : ℕ}
      → Core p h out gone asleep (suc awake) pending
      → Core (add_waiting (negsuc 0) p) h out gone asleep awake pending
  unfolding add_waiting
  resume-Core {p} v = record {
    counted = same-Counted wq bound refl refl refl v.counted;
    read = v.read;
    room = v.room;
    placed = moved wq v.placed.idle v.placed v.placed.holds v.placed.small refl (λ x. refl);
    blocked = resumed-Blocked v.blocked;
    latch = same-Latch refl refl refl v.latch;
  }

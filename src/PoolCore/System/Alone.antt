-- ===== src/PoolCore/System/Alone.antt =====
-- The end of a worker, `work` of src/worker.rs, where nothing comes between its steps.
use ants.Base.{
  ℕ, ◌≡◌, refl, ap, inl, inr, Bool, List, [], ◌∷◌, ◌++◌, ◌&&◌, if◌then◌else◌, Bool-cases,
}
use ants.Base.Int.{pos, negsuc, eqb_ℤ}
use ants.WorkerQueue.{WorkerQueue}
use ants.PoolCore.{is_closed, add_running, recycle}
use ants.PoolCore.Workers.{exit_worker}
use ants.PoolCore.System.{
  System, Stage, leaving, last, uncached, uncounts, looks, shuts, recycles, signals, Reach, start,
  next,
}

module _ (wq : WorkerQueue ℕ) (bound : ℕ) {H L T : Type 0} where
  -- What a worker that ends leaves alone, the lock too: it may be held meanwhile.
  pub record Exited (s u : System wq.Queue H L T) (w : ℕ) (rest : List (ℕ × Stage T)) : Type 0 where
    pub reach : Reach wq bound s u
    pub pool : u.pool ≡ exit_worker wq w s.pool
    pub held : u.held ≡ s.held
    pub out : u.out ≡ rest
    pub ending : u.ending ≡ s.ending
    pub asleep : u.asleep ≡ s.asleep
    pub signalling : u.signalling ≡ s.signalling
    pub scanned : u.scanned ≡ s.scanned
    pub closing : u.closing ≡ s.closing
    pub emptied : u.emptied ≡ s.emptied

  -- A worker at its end.
  pub exit-Exited :
      (s : System wq.Queue H L T) (before after : List (ℕ × Stage T)) (w : ℕ)
      → s.out ≡ before ++ ((w, leaving) ∷ after)
      → (u : System wq.Queue H L T) × Exited s u w (before ++ after)
  unfolding exit_worker add_running recycle
  exit-Exited s before after w split =
      let count = (add_running (negsuc 0) s.pool).0 in
      let seen = λ (b : Bool). (w, if b then last else uncached) ∷ s.ending in
      let lowers = uncounts before after w split in
      elim (Bool-cases (eqb_ℤ count (pos 0) && is_closed s.pool)) [
        | inl was_last ↦ (
          _,
          record {
            reach =
                next
                  (next
                    (next (next (next start lowers) (looks [] s.ending w count refl))
                      (shuts [] s.ending w (ap seen was_last)))
                    (recycles [] s.ending w refl))
                  (signals s.signalling refl);
            pool = rw was_last refl;
            held = refl;
            out = refl;
            ending = refl;
            asleep = refl;
            signalling = refl;
            scanned = refl;
            closing = refl;
            emptied = refl;
          },
        )
        | inr goes ↦ (
          _,
          record {
            reach =
                next
                  (next (next (next start lowers) (looks [] s.ending w count refl))
                    (recycles [] s.ending w (ap seen goes)))
                  (signals s.signalling refl);
            pool = rw goes refl;
            held = refl;
            out = refl;
            ending = refl;
            asleep = refl;
            signalling = refl;
            scanned = refl;
            closing = refl;
            emptied = refl;
          },
        )
      ]
